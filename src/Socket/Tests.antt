-- ===== src/Socket/Tests.antt =====
-- Two sockets, one assigned to the other.
use high_performance_http_se.Base.{◌+◌, ◌≡◌, refl, none, some, List, [], ◌∷◌, get, put, inl}
use high_performance_http_se.Socket.{
  Sockets, Operation, construct, close, exchange, note, operate, operate_all,
}
use high_performance_http_se.Socket.Ownership.{count, held, operate_all-IsBalanced}

abbrev nothing : Sockets
nothing = record { objects = []; acquired = []; closed = [] }

abbrev operations : List Operation
operations =
    Operation.constructs 1 (some 5)
    ∷ Operation.constructs 2 (some 6)
    ∷ Operation.move_assigns 1 2
    ∷ Operation.move_assigns 1 1
    ∷ Operation.closes 2
    ∷ []

-- The first descriptor is closed by the assignment, and the second is held.
both :
    operate_all nothing operations
    ≡ record { objects = (1, some 6) ∷ (2, none) ∷ []; acquired = 5 ∷ 6 ∷ []; closed = 5 ∷ [] }
unfolding operate_all get put construct close exchange note
both = refl

operate_all-IsBalanced_example :
    let s = operate_all nothing operations in
    count 6 s.closed + held 6 s.objects ≡ count 6 s.acquired
unfolding operate get put construct close exchange note
operate_all-IsBalanced_example =
    operate_all-IsBalanced 6 operations (inl refl, (inl refl, (tt, (tt, (tt, tt)))))
