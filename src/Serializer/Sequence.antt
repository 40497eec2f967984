-- ===== src/Serializer/Sequence.antt =====
-- The texts of the responses on one connection, by the clock's reading for each.
use high_performance_http_se.Base.{
  ℕ, ◌+◌, ◌≡◌, ap, ◌∙◌, List, [], ◌∷◌, ◌++◌, Bytes, length, flatten, append-nil, append_assoc, sym,
  arith,
}
use high_performance_http_se.Response.{Response}
use high_performance_http_se.Serializer.{serialize}

-- The responses from the `n`-th on.
unfoldable pub texts_of : (ℕ → Bytes) → ℕ → List Response → List Bytes
texts_of date n [] = []
texts_of date n (r ∷ rs) = serialize (date n) r ∷ texts_of date (n + 1) rs

pub texts_of-snoc :
    (date : ℕ → Bytes) (n : ℕ) (rs : List Response) (r : Response) (m : ℕ)
    → n + length rs ≡ m
    → texts_of date n (rs ++ r ∷ []) ≡ texts_of date n rs ++ serialize (date m) r ∷ []
unfolding texts_of
texts_of-snoc date n [] r m e = ap (λ k. serialize (date k) r ∷ []) (omega arith)
texts_of-snoc date n (q ∷ rs) r m e =
    ap (◌∷◌ (serialize (date n) q)) (texts_of-snoc date (n + 1) rs r m (omega arith))

flatten-snoc : (ts : List Bytes) (t : Bytes) → flatten (ts ++ t ∷ []) ≡ flatten ts ++ t
unfolding flatten
flatten-snoc [] t = append-nil t
flatten-snoc (s ∷ ts) t = ap (◌++◌ s) (flatten-snoc ts t) ∙ sym (append_assoc s (flatten ts) t)

-- What goes out for one more response.
pub flatten-texts_of_snoc :
    (date : ℕ → Bytes) (rs : List Response) (r : Response) (n : ℕ)
    → length rs ≡ n
    → flatten (texts_of date 0 (rs ++ r ∷ []))
      ≡ flatten (texts_of date 0 rs) ++ serialize (date n) r
flatten-texts_of_snoc date rs r n e =
    ap flatten (texts_of-snoc date 0 rs r n (omega arith))
    ∙ flatten-snoc (texts_of date 0 rs) (serialize (date n) r)
