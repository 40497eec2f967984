-- ===== src/Listener/Tests.antt =====
-- A listener that is started again.
use high_performance_http_se.Base.{◌≡◌, refl, true, false, ◌&&◌, some, [], ◌∷◌, get}
use high_performance_http_se.Socket.{Sockets, is_valid}
use high_performance_http_se.Listener.{Listener, Answers, start}
use high_performance_http_se.Listener.Restart.{IsOwner, start-IsOwner}

abbrev listener : Listener
listener = record { socket = 1; port = 8080; backlog = 128 }

abbrev before : Sockets
before = record { objects = (1, some 5) ∷ []; acquired = 5 ∷ []; closed = [] }

-- The new socket cannot be bound.
abbrev answers : Answers
answers = record { created = some 6; bound = false; listening = true }

start-IsOwner_example :
    let (s', ok) = start listener before 2 answers in
    (ok ≡ (is_valid (some 6) && (false && true))) × IsOwner listener before 2 answers (some 5) 5 s'
unfolding get
start-IsOwner_example = start-IsOwner listener before 2 answers (some 5) 5 refl refl
