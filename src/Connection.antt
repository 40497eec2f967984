-- ===== src/Connection.antt =====
-- include/net/connection.hpp and src/net/connection.cpp: reading and writing on a socket. What the
-- system answers to each `recv` and `send` is an argument: a list with one result for each call, in
-- their order. Where the list ends, the last call has not returned yet.
pub mod Search
pub mod Writing
pub mod Memory
mod Tests
use high_performance_http_se.Base.{
  ℕ, zero, suc, ◌+◌, ◌-◌, ◌%◌, min, Bool, true, false, not, ◌||◌, Option, none, some, List, [], ◌∷◌,
  ◌++◌, Bytes, is_empty, find, find_from, length, take, drop, ltb, leb, ◌==◌, if◌then◌else◌,
}

-- A result of `recv`: bytes, none of them where the peer has closed; `EINTR`; `EAGAIN`; another
-- error.
pub data Recv : Type 0 where
  received : Bytes → Recv
  interrupted blocked failed : Recv

-- A result of `send`: how many of the offered bytes the system took; `EINTR`; another error.
pub data Send : Type 0 where
  sent : ℕ → Send
  interrupted failed : Send

-- What a read returns: the bytes that it stored, whose number is its value; -1; nothing yet.
pub data Read : Type 0 where
  got : Bytes → Read
  minus_one waiting : Read

-- What a function that returns a `bool` has returned.
pub data Outcome : Type 0 where
  returned : Bool → Outcome
  waiting : Outcome

pub record Connection : Type 0 where
  pub is_open : Bool
  pub read_buffer : Bytes

-- `close`.
unfoldable pub close : Connection → Connection
close conn = record conn { is_open = false }

-- The loop of `read_some`.
unfoldable pub recv_again : List Recv → Read × List Recv
recv_again [] = (Read.waiting, [])
recv_again (Recv.received bytes ∷ rs) = (Read.got bytes, rs)
recv_again (Recv.interrupted ∷ rs) = recv_again rs
recv_again (Recv.blocked ∷ rs) = (Read.minus_one, rs)
recv_again (Recv.failed ∷ rs) = (Read.minus_one, rs)

unfoldable pub read_some : Connection → ℕ → List Recv → Read × List Recv
unfolding recv_again
read_some conn max_size rs =
    if not conn.is_open || max_size == 0 then (Read.got [], rs) else recv_again rs

-- The loop of `read_all`; `remaining` does not wrap around, since `recv` returns at most as many
-- bytes as it is asked for.
unfoldable pub read_more : ℕ → Bytes → List Recv → Read × List Recv
read_more zero out rs = (Read.got out, rs)
read_more (suc n) out [] = (Read.waiting, [])
read_more (suc n) out (Recv.received [] ∷ rs) = (Read.got out, rs)
read_more (suc n) out (Recv.received (c ∷ bytes) ∷ rs) =
    read_more (suc n - length (c ∷ bytes)) (out ++ c ∷ bytes) rs
read_more (suc n) out (Recv.interrupted ∷ rs) = read_more (suc n) out rs
read_more (suc n) out (Recv.blocked ∷ rs) = (Read.got out, rs)
read_more (suc n) out (Recv.failed ∷ rs) = (Read.minus_one, rs)

unfoldable pub read_all : Connection → ℕ → List Recv → Read × List Recv
unfolding read_more
read_all conn max_size rs =
    if not conn.is_open || max_size == 0 then (Read.got [], rs) else read_more max_size [] rs

-- What `read_until` leaves: its value, the caller's buffer, its own, and the results not used.
pub record Until : Type 0 where
  pub outcome : Outcome
  pub buffer : Bytes
  pub read_buffer : Bytes
  pub rest : List Recv

-- The cut behind the delimiter, which stands at `pos`.
abbrev pub cut : Bytes → ℕ → Bytes → List Recv → Until
cut delimiter pos read_buffer rs = record {
  outcome = Outcome.returned true;
  buffer = take (pos + length delimiter) read_buffer;
  read_buffer = drop (pos + length delimiter) read_buffer;
  rest = rs;
}

abbrev pub leave_until : Outcome → Bytes → Bytes → List Recv → Until
leave_until outcome buffer read_buffer rs = record {
  outcome = outcome;
  buffer = buffer;
  read_buffer = read_buffer;
  rest = rs;
}

-- Where the search behind new data starts.
abbrev pub start_pos : Bytes → ℕ → ℕ
start_pos delimiter old_size =
    if leb (length delimiter) old_size then old_size - length delimiter + 1 else 0

-- How many bytes `recv` is asked for while `size` are kept: a `size_t`, with its wrap-around.
unfoldable pub to_read : ℕ → ℕ → ℕ
to_read max_size size = min 4096 ((max_size + 18446744073709551616 - size) % 18446744073709551616)

-- The loop of `read_until`. The bytes of a result of `recv` are those that it stored, at most `to_read` of
-- them.
unfoldable pub until_loop : Bytes → Bytes → ℕ → Bytes → List Recv → Until
until_loop buffer delimiter max_size read_buffer [] =
    if ltb (length read_buffer) max_size
    then leave_until Outcome.waiting buffer read_buffer []
    else leave_until (Outcome.returned false) buffer read_buffer []
until_loop buffer delimiter max_size read_buffer (Recv.interrupted ∷ rs) =
    let rest = until_loop buffer delimiter max_size read_buffer rs in
    if ltb (length read_buffer) max_size
    then rest
    else leave_until (Outcome.returned false) buffer read_buffer (Recv.interrupted ∷ rs)
until_loop buffer delimiter max_size read_buffer (Recv.received bytes ∷ rs) =
    let rest = until_loop buffer delimiter max_size (read_buffer ++ bytes) rs in
    if ltb (length read_buffer) max_size
    then (if is_empty bytes
        then leave_until (Outcome.returned false) buffer read_buffer rs
        else elim (find_from delimiter (read_buffer ++ bytes)
            (start_pos delimiter (length read_buffer))) [
              | some pos ↦ cut delimiter pos (read_buffer ++ bytes) rs
              | none ↦ rest
            ])
    else leave_until (Outcome.returned false) buffer read_buffer (Recv.received bytes ∷ rs)
until_loop buffer delimiter max_size read_buffer (r ∷ rs) =
    leave_until (Outcome.returned false) buffer read_buffer
      (if ltb (length read_buffer) max_size then rs else r ∷ rs)

unfoldable pub read_until : Connection → Bytes → Bytes → ℕ → List Recv → Until
read_until conn buffer delimiter max_size rs =
    if not conn.is_open
    then leave_until (Outcome.returned false) buffer conn.read_buffer rs
    else elim (find delimiter conn.read_buffer) [
      | some pos ↦ cut delimiter pos conn.read_buffer rs
      | none ↦ until_loop buffer delimiter max_size conn.read_buffer rs
    ]

-- What `write_all` leaves: its value, what went onto the wire, and the results not used.
pub record Written : Type 0 where
  pub outcome : Outcome
  pub wire : Bytes
  pub rest : List Send

-- The loop of `write_all`; `remaining` does not wrap around, since `send` takes at most what it is
-- offered.
unfoldable pub write_loop : Bytes → ℕ → ℕ → Bytes → List Send → Written
write_loop content total_written zero wire rs = record {
  outcome = Outcome.returned true;
  wire = wire;
  rest = rs;
}
write_loop content total_written (suc n) wire [] = record {
  outcome = Outcome.waiting;
  wire = wire;
  rest = [];
}
write_loop content total_written (suc n) wire (Send.sent k ∷ rs) =
    write_loop content (total_written + k) (suc n - k) (wire ++ take k (drop total_written content))
      rs
write_loop content total_written (suc n) wire (Send.interrupted ∷ rs) =
    write_loop content total_written (suc n) wire rs
write_loop content total_written (suc n) wire (Send.failed ∷ rs) = record {
  outcome = Outcome.returned false;
  wire = wire;
  rest = rs;
}

unfoldable pub write_all : Connection → Bytes → List Send → Written
write_all conn content rs =
    if not conn.is_open || length content == 0
    then record { outcome = Outcome.returned true; wire = []; rest = rs }
    else write_loop content 0 (length content) [] rs
