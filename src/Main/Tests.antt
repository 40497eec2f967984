-- ===== src/Main/Tests.antt =====
-- The program on command lines.
use high_performance_http_se.Base.{
  ℕ, ℤ, ◌≡◌, refl, true, List, [], ◌∷◌, codes, equal, length, take, drop,
}
use high_performance_http_se.Router.{Router}
use high_performance_http_se.Parser.Print.{print}
use high_performance_http_se.Serializer.{serialize}
use high_performance_http_se.Config.{Config, default, flag_of, parse_args}
use high_performance_http_se.Config.Options.{Opt}
use high_performance_http_se.Server.Routes.{setup_routes}
use high_performance_http_se.Server.Exchange.{Turn, routed}
use high_performance_http_se.Server.Tests.{disk, date, moved, health, in_two}
use high_performance_http_se.Server.Accept.{Front, opened}
use high_performance_http_se.ThreadPool.{Point, fresh_pool, fresh_worker}
use high_performance_http_se.Main.{Exit, no_routes, main}

usage_exits : main (codes "--help" ∷ []) true ≡ Exit.helped
unfolding main parse_args flag_of equal
usage_exits = refl

abbrev options : List Opt
options = Opt.port 9090 ∷ Opt.workers (ℤ.pos 1) ∷ []

abbrev config : Config
config = record default { port = 9090; num_workers = ℤ.pos 1 }

abbrev routes : Router
routes = setup_routes (codes "./static") no_routes

abbrev turn_of : ℕ → Turn
turn_of n = record {
  request = health;
  pieces = (2, take 1 (print health [])) ∷ (0, drop 1 (print health [])) ∷ [];
  portions = in_two (length (serialize (date n) (routed config routes disk date moved n health)));
}

abbrev turns : List Turn
turns = turn_of 0 ∷ turn_of 1 ∷ []

-- A client comes, and the worker takes its task.
abbrev admitted : Front
admitted = record (opened 1 256) {
  system = record {
    pool = record (fresh_pool 256) { tasks = 5 ∷ []; notices = 1; accepted = 5 ∷ [] };
    workers = fresh_worker ∷ [];
  };
  arrived = 5 ∷ [];
}

abbrev locking : Front
locking = record admitted {
  system = record {
    pool = admitted.system.pool;
    workers = (record fresh_worker { point = Point.locking }) ∷ [];
  };
}

abbrev working : Front
working = record admitted {
  system = record {
    pool = record admitted.system.pool { tasks = []; started = 5 ∷ [] };
    workers = (record fresh_worker { point = Point.taken 5 }) ∷ [];
  };
}
