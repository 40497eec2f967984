-- ===== src/Connection/Memory.antt =====
-- How much `read_until` keeps.
use high_performance_http_se.Base.{
  ℕ, ◌+◌, ◌-◌, ◌≤◌, ◌<◌, ◌≡◌, true, false, List, [], ◌∷◌, ◌++◌, Bytes, length, length-append,
  length-take, length-drop, find, find_from, is_empty, ltb, ltb→lt, inl, inr, Bool-cases,
  Option-cases, arith,
}
use high_performance_http_se.Connection.{
  Connection, Recv, Outcome, Until, cut, leave_until, start_pos, until_loop, read_until, to_read,
}

-- `recv` gives no more than it is asked for, by a loop that has `size` bytes so far.
abbrev pub AreAsked : ℕ → ℕ → List Recv → Type 0
AreAsked max_size size [] = Unit
AreAsked max_size size (Recv.received bytes ∷ rs) =
    (length bytes ≤ to_read max_size size) × AreAsked max_size (size + length bytes) rs
AreAsked max_size size (_ ∷ rs) = AreAsked max_size size rs

-- What is kept fits the bound, and so does what is handed out.
pub record IsWithin (bound : ℕ) (u : Until) : Type 0 where
  pub kept : length u.read_buffer ≤ bound
  pub handed : u.outcome ≡ Outcome.returned true → length u.buffer ≤ bound

cut-IsWithin :
    (bound : ℕ) (delimiter : Bytes) (pos : ℕ) (read_buffer : Bytes) (rs : List Recv)
    → length read_buffer ≤ bound
    → IsWithin bound (cut delimiter pos read_buffer rs)
cut-IsWithin bound delimiter pos read_buffer rs h = record {
  kept = omega (arith, h, length-drop (pos + length delimiter) read_buffer);
  handed = λ _. omega (arith, h, length-take (pos + length delimiter) read_buffer);
}

leave_until-IsWithin :
    (bound : ℕ) (buffer read_buffer : Bytes) (rs : List Recv)
    → length read_buffer ≤ bound
    → IsWithin bound (leave_until (Outcome.returned false) buffer read_buffer rs)
leave_until-IsWithin bound buffer read_buffer rs h = record {
  kept = h;
  handed = λ e. ground (arith, e);
}

-- Below the limit nothing wraps around: the loop asks for no more than the room that is left.
to_read-lt :
    (max_size size : ℕ)
    → size < max_size
    → max_size < 18446744073709551616
    → to_read max_size size ≤ max_size - size
unfolding to_read
to_read-lt max_size size below w = omega arith

until_loop-IsWithin :
    (bound max_size : ℕ) (buffer delimiter read_buffer : Bytes) (rs : List Recv)
    → max_size ≤ bound
    → max_size < 18446744073709551616
    → AreAsked max_size (length read_buffer) rs
    → length read_buffer ≤ bound
    → IsWithin bound (until_loop buffer delimiter max_size read_buffer rs)
unfolding until_loop
until_loop-IsWithin bound max_size buffer delimiter read_buffer [] m w asked h =
    elim (Bool-cases (ltb (length read_buffer) max_size)) [
      | inl room ↦ rw room (record { kept = h; handed = λ e. ground (arith, e) })
      | inr full ↦ rw full (leave_until-IsWithin bound buffer read_buffer [] h)
    ]
until_loop-IsWithin bound max_size buffer delimiter read_buffer (Recv.interrupted ∷ rs) m w asked
      h =
    elim (Bool-cases (ltb (length read_buffer) max_size)) [
      | inl room ↦
          rw room (until_loop-IsWithin bound max_size buffer delimiter read_buffer rs m w asked h)
      | inr full ↦ rw full (leave_until-IsWithin bound buffer read_buffer _ h)
    ]
until_loop-IsWithin bound max_size buffer delimiter read_buffer (Recv.blocked ∷ rs) m w asked h =
    leave_until-IsWithin bound buffer read_buffer _ h
until_loop-IsWithin bound max_size buffer delimiter read_buffer (Recv.failed ∷ rs) m w asked h =
    leave_until-IsWithin bound buffer read_buffer _ h
until_loop-IsWithin bound max_size buffer delimiter read_buffer (Recv.received bytes ∷ rs) m w asked
      h =
    elim (Bool-cases (ltb (length read_buffer) max_size)) [
      | inr full ↦ rw full (leave_until-IsWithin bound buffer read_buffer _ h)
      | inl room ↦ elim (Bool-cases (is_empty bytes)) [
        | inl nothing ↦ rw (room, nothing) (leave_until-IsWithin bound buffer read_buffer rs h)
        | inr something ↦
            let all = read_buffer ++ bytes in
            let size = length-append read_buffer bytes in
            let below = ltb→lt _ _ room in
            let room_left = to_read-lt max_size (length read_buffer) below w in
            let fits : length all ≤ bound = omega (arith, size, below, asked.0, room_left, m) in
            elim (Option-cases
              (find_from delimiter all (start_pos delimiter (length read_buffer)))) [
                | inr (pos, e) ↦
                    rw (room, something, e) (cut-IsWithin bound delimiter pos all rs fits)
                | inl e ↦
                    rw (room, something, e)
                      (until_loop-IsWithin bound max_size buffer delimiter all rs m w
                        (rw size asked.1) fits)
              ]
      ]
    ]

-- For a connection that keeps no more than a bound, asked with a limit within it that fits 64 bits, where
-- `recv` gives no more than it is asked for, which is computed with the wrap-around of 64 bits: `read_until` keeps no more than the bound on every branch, and what
-- it hands out where it returns true is no longer, whatever else the system answers.
pub read_until-IsWithin :
    (bound max_size : ℕ) (conn : Connection) (buffer delimiter : Bytes) (rs : List Recv)
    → max_size ≤ bound
    → max_size < 18446744073709551616
    → AreAsked max_size (length conn.read_buffer) rs
    → length conn.read_buffer ≤ bound
    → IsWithin bound (read_until conn buffer delimiter max_size rs)
unfolding read_until
read_until-IsWithin bound max_size conn buffer delimiter rs m w asked h =
    elim (Bool-cases conn.is_open) [
      | inr shut ↦ rw shut (leave_until-IsWithin bound buffer conn.read_buffer rs h)
      | inl opened ↦ elim (Option-cases (find delimiter conn.read_buffer)) [
        | inr (pos, e) ↦ rw (opened, e) (cut-IsWithin bound delimiter pos conn.read_buffer rs h)
        | inl e ↦
            rw (opened, e)
              (until_loop-IsWithin bound max_size buffer delimiter conn.read_buffer rs m w asked h)
      ]
    ]
