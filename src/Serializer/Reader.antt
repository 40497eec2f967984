-- ===== src/Serializer/Reader.antt =====
-- A client's view of the wire: lines up to an empty one, then as many bytes as `Content-Length`
-- says. It is written apart from the serializer, after RFC 9112.
use high_performance_http_se.Base.{
  ℕ, zero, suc, ◌+◌, Option, none, some, List, [], ◌∷◌, Bytes, codes, find, starts_with, length,
  take, drop, leb, if◌then◌else◌,
}
use high_performance_http_se.Request.Number.{stoull}
use high_performance_http_se.Serializer.{crlf}

pub record Message : Type 0 where
  pub lines : List Bytes
  pub body : Bytes
  pub rest : Bytes

abbrev pub cons_line : Bytes → Option (List Bytes × Bytes) → Option (List Bytes × Bytes)
cons_line l none = none
cons_line l (some (ls, rest)) = some (l ∷ ls, rest)

-- The lines up to the empty line, and what is behind it. Every line takes at least two bytes.
unfoldable pub read_lines : ℕ → Bytes → Option (List Bytes × Bytes)
read_lines zero s = none
read_lines (suc fuel) s = elim (find crlf s) [
  | none ↦ none
  | some zero ↦ some ([], drop 2 s)
  | some (suc k) ↦ cons_line (take (suc k) s) (read_lines fuel (drop (suc k + 2) s))
]

-- The value of the first `Content-Length` line.
unfoldable pub announced : List Bytes → Option ℕ
announced [] = none
announced (l ∷ ls) =
    if starts_with l (codes "Content-Length: ") then stoull (drop 16 l) else announced ls

-- A message of which all bytes are there.
unfoldable pub read_message : Bytes → Option Message
read_message s = elim (read_lines (length s) s) [
  | none ↦ none
  | some (ls, behind) ↦ elim (announced ls) [
    | none ↦ none
    | some n ↦
        if leb n (length behind)
        then some (record { lines = ls; body = take n behind; rest = drop n behind })
        else none
  ]
]
