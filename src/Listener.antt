-- ===== src/Listener.antt =====
-- include/net/listener.hpp and src/net/listener.cpp, on the table of socket objects. What the system
-- answers is an argument.
pub mod Restart
mod Tests
use high_performance_http_se.Base.{
  ℕ, Bool, true, false, not, ◌&&◌, Option, none, some, get, if◌then◌else◌,
}
use high_performance_http_se.Socket.{Socket, Sockets, is_valid, construct, close, move_assign}

-- `socket_` is the name of an object.
pub record Listener : Type 0 where
  pub socket : ℕ
  pub port : ℕ
  pub backlog : ℕ

-- `fd()`; -1 is `none`.
unfoldable pub fd_of : Sockets → ℕ → Option ℕ
fd_of s i = elim (get i s.objects) [ none ↦ none | some fd ↦ fd ]

-- What `socket`, `bind` and `listen` give. A failure of `setsockopt` is only written to the log.
pub record Answers : Type 0 where
  pub created : Option ℕ
  pub bound : Bool
  pub listening : Bool

-- `start`; `temp` is the temporary that `Socket::create` returns, which is gone behind the assignment.
unfoldable pub start : Listener → Sockets → ℕ → Answers → Sockets × Bool
unfolding fd_of is_valid construct move_assign close
start l s temp a =
    let s' = close (move_assign (construct s temp a.created) l.socket temp) temp in
    if not (is_valid (fd_of s' l.socket))
    then (s', false)
    else if not a.bound
    then (s', false)
    else if not a.listening
    then (s', false)
    else (s', true)

-- `accept` into the object `client`.
unfoldable pub accept : Listener → Sockets → ℕ → Option ℕ → Sockets
unfolding fd_of is_valid construct
accept l s client answer =
    if not (is_valid (fd_of s l.socket)) then construct s client none else construct s client answer

-- `stop`, and `close`.
unfoldable pub stop : Listener → Sockets → Sockets
unfolding close
stop l s = close s l.socket
