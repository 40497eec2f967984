-- ===== src/Socket.antt =====
-- include/net/socket.hpp and src/net/socket.cpp: who owns a descriptor. The objects of the class stand
-- in a table; what the system calls return is an argument.
pub mod Ownership
mod Tests
use high_performance_http_se.Base.{
  ℕ, Bool, true, false, not, Option, none, some, List, [], ◌∷◌, ◌++◌, ◌==◌, get, put, if◌then◌else◌,
}

-- `fd_`, where -1 is `none`.
abbrev pub Socket : Type 0
Socket = Option ℕ

unfoldable pub is_valid : Socket → Bool
is_valid none = false
is_valid (some fd) = true

-- The two calls of `fcntl`; `none` where the first gives -1.
unfoldable pub set_nonblocking : Socket → Option ℕ → Bool → Bool
unfolding is_valid
set_nonblocking s flags done =
    if not (is_valid s) then false else elim flags [ none ↦ false | some _ ↦ done ]

-- The others, with the success of `setsockopt`. The port's option exists on some systems only.
unfoldable pub set_reuse_addr : Socket → Bool → Bool
unfolding is_valid
set_reuse_addr s done = if not (is_valid s) then false else done

unfoldable pub set_reuse_port : Bool → Socket → Bool → Bool
unfolding is_valid
set_reuse_port exists s done = if not (is_valid s) then false else if exists then done else false

unfoldable pub set_recv_timeout : Socket → Bool → Bool
unfolding is_valid
set_recv_timeout s done = if not (is_valid s) then false else done

unfoldable pub set_send_timeout : Socket → Bool → Bool
unfolding is_valid
set_send_timeout s done = if not (is_valid s) then false else done

-- All objects, by name; the descriptors that the system gave out, and those that were closed. An
-- object that is moved from, closed or destroyed stays, without a descriptor.
pub record Sockets : Type 0 where
  pub objects : List (ℕ × Socket)
  pub acquired : List ℕ
  pub closed : List ℕ

unfoldable pub note : Socket → List ℕ → List ℕ
note none l = l
note (some fd) l = l ++ fd ∷ []

-- `Socket(fd)`, of a descriptor that `socket` or `accept` gave, or -1.
unfoldable pub construct : Sockets → ℕ → Option ℕ → Sockets
unfolding note
construct s i fd = record s { objects = put i fd s.objects; acquired = note fd s.acquired }

-- `close`, and the destructor.
unfoldable pub close : Sockets → ℕ → Sockets
unfolding note
close s i = elim (get i s.objects) [
  | none ↦ s
  | some fd ↦ record s { objects = put i none s.objects; closed = note fd s.closed }
]

-- `std::exchange(other.fd_, -1)` into `fd_`.
unfoldable pub exchange : Sockets → ℕ → ℕ → Sockets
exchange s i j = elim (get j s.objects) [
  | none ↦ s
  | some fd ↦ record s { objects = put i fd (put j none s.objects) }
]

-- `Socket(Socket&&)`.
unfoldable pub move_construct : Sockets → ℕ → ℕ → Sockets
unfolding exchange
move_construct s i j = exchange s i j

-- `operator=(Socket&&)`.
unfoldable pub move_assign : Sockets → ℕ → ℕ → Sockets
unfolding close exchange
move_assign s i j = if not (i == j) then exchange (close s i) i j else s

pub data Operation : Type 0 where
  constructs : ℕ → Option ℕ → Operation
  move_constructs move_assigns : ℕ → ℕ → Operation
  closes : ℕ → Operation

unfoldable pub operate : Sockets → Operation → Sockets
unfolding construct move_construct move_assign close
operate s (Operation.constructs i fd) = construct s i fd
operate s (Operation.move_constructs i j) = move_construct s i j
operate s (Operation.move_assigns i j) = move_assign s i j
operate s (Operation.closes i) = close s i

unfoldable pub operate_all : Sockets → List Operation → Sockets
unfolding operate
operate_all s [] = s
operate_all s (op ∷ ops) = operate_all (operate s op) ops
