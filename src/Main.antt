-- ===== src/Main.antt =====
-- src/main.cpp: `main`, from the command line to the loop that the server runs. The signal handlers,
-- which call `stop`, are not part of it.
pub mod Health
mod Tests
use high_performance_http_se.Base.{ℕ, Bool, List, [], map, Bytes}
use high_performance_http_se.Request.{Request}
use high_performance_http_se.Router.Files.{FileSystem}
use high_performance_http_se.Connection.{Recv, Send}
use high_performance_http_se.Server.{Session, handle_connection}
use high_performance_http_se.ThreadPool.{System}
use high_performance_http_se.Config.{Config, Parsed, parse_args}
use high_performance_http_se.Router.{Router}
use high_performance_http_se.Server.Routes.{setup_routes}
use high_performance_http_se.Server.Accept.{Started, Front, ServerSteps, start}

-- A router without routes, as the constructor of `Server` makes it.
abbrev pub no_routes : Router
no_routes = record { routes = []; static_mounts = [] }

-- What becomes of the program: it has printed the usage; it has ended with the exception of a number
-- that is not one; or the server was made from these settings, with these routes, and started.
pub data Exit : Type 0 where
  helped thrown : Exit
  served : Config → Router → Started → Exit

-- What follows `parse_args`, with the success of the listener.
abbrev pub launch : Bool → Parsed → Exit
launch listening Parsed.usage = Exit.helped
launch listening Parsed.thrown = Exit.thrown
launch listening (Parsed.returned config) =
    Exit.served config (setup_routes config.static_dir no_routes) (start config listening)

unfoldable pub main : List Bytes → Bool → Exit
main args listening = launch listening (parse_args args)

-- The states that the program comes to where it runs with the thread pool.
abbrev pub Reaches : Exit → Front → Type 0
Reaches (Exit.served config rt (Started.pooled first)) f = ServerSteps first f
Reaches _ f = ⊥

-- The task that `accept_loop` enqueues for a client: `handle_connection` on its socket. What the calls on
-- a client's socket return, the clock and the disk depend on the client.
abbrev pub task_of :
    Config
    → Router
    → (ℕ → ℕ → FileSystem)
    → (ℕ → ℕ → Bytes)
    → Request
    → (ℕ → List Recv)
    → (ℕ → List Send)
    → ℕ
    → Session
task_of config rt disk date moved recvs sends client =
    handle_connection config rt (disk client) (date client) moved (recvs client) (sends client)
