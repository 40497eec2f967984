-- ===== src/Parser/Trim.antt =====
-- `trim` of src/http/parser.cpp.
use high_performance_http_se.Base.{
  length, ◌≤◌, Bytes, [], ◌∷◌, is_space, is_empty, ◌&&◌, ◌≡◌, refl, arith, if◌then◌else◌,
}

-- The first loop.
unfoldable pub drop_spaces : Bytes → Bytes
drop_spaces [] = []
drop_spaces (c ∷ s) = if is_space c then drop_spaces s else c ∷ s

-- The second loop, over the bytes behind the first that is kept.
unfoldable pub drop_trailing : Bytes → Bytes
drop_trailing [] = []
drop_trailing (c ∷ s) =
    let rest = drop_trailing s in if is_space c && is_empty rest then [] else c ∷ rest

abbrev trim_tail : Bytes → Bytes
trim_tail [] = []
trim_tail (c ∷ s) = c ∷ drop_trailing s

unfoldable pub trim : Bytes → Bytes
unfolding drop_spaces drop_trailing
trim s = trim_tail (drop_spaces s)

drop_trailing_idem : (s : Bytes) → drop_trailing (drop_trailing s) ≡ drop_trailing s
unfolding drop_trailing
drop_trailing_idem [] = refl
drop_trailing_idem (c ∷ s) = ground (arith, drop_trailing_idem s)

-- Trimming again changes nothing: the value has no blank at either end.
pub trim_idem : (s : Bytes) → trim (trim s) ≡ trim s
unfolding trim
trim_idem [] = refl
trim_idem (c ∷ s) = ground (arith, drop_trailing_idem s, trim_idem s)

length-drop_trailing : (s : Bytes) → length (drop_trailing s) ≤ length s
unfolding drop_trailing
length-drop_trailing [] = omega arith
length-drop_trailing (c ∷ s) = ground (arith, length-drop_trailing s)

pub length-trim : (s : Bytes) → length (trim s) ≤ length s
unfolding trim
length-trim [] = omega arith
length-trim (c ∷ s) = ground (arith, length-drop_trailing s, length-trim s)
