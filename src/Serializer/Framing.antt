-- ===== src/Serializer/Framing.antt =====
-- A client's reading of a serialized response.
use high_performance_http_se.Base.{
  ℕ, zero, suc, ◌+◌, ◌≤◌, ◌<◌, ◌≡◌, ◌≢◌, refl, sym, ap, ◌∙◌, Bool, true, false, none, some, List,
  inl, inr, [], ◌∷◌, ◌++◌, append_assoc, Bytes, codes, Dict, find, find_byte, find-append_lacks,
  find_byte-append_none, starts_with, equal, to_lower, ◌||◌, length, take, drop, length-append,
  take-length, drop-length, drop-append_past, All, arith, leb, le→leb, Bool-cases, if◌then◌else◌,
}
use mathlib.Core.List.{cons-ne-nil}
use high_performance_http_se.Status.{StatusCode, code_of, reason_phrase}
use high_performance_http_se.Request.Number.{ullong_max, is_digit}
use high_performance_http_se.Response.{Response}
use high_performance_http_se.Serializer.Decimal.{to_string, to_string-digits, stoull-to_string}
use high_performance_http_se.Serializer.Reader.{cons_line, read_lines, announced, read_message}
use high_performance_http_se.Serializer.{crlf, is_own, write_headers, serialize}

-- Lines, each with its end, and the rest behind them.
abbrev pub text_of : List Bytes → Bytes → Bytes
text_of [] rest = rest
text_of (l ∷ ls) rest = l ++ (crlf ++ text_of ls rest)

-- The fields that the server writes itself, whatever the case of the letters, and so leaves out where
-- the response has them.
abbrev pub reserved : List Bytes
reserved = codes "server" ∷ codes "date" ∷ codes "content-length" ∷ codes "connection" ∷ []

abbrev pub is_among : Bytes → List Bytes → Bool
is_among name [] = false
is_among name (other ∷ others) = equal name other || is_among name others

-- The headers of the response that are not reserved.
unfoldable pub custom_lines : Dict → List Bytes
custom_lines [] = []
custom_lines ((k, v) ∷ m) =
    if is_among (to_lower k) reserved
    then custom_lines m
    else (k ++ (codes ": " ++ v)) ∷ custom_lines m

is_own-is_among : (k : Bytes) → is_own k ≡ is_among (to_lower k) reserved
unfolding is_own
is_own-is_among k = ground arith

abbrev pub connection_line : Bool → Bytes
connection_line true = codes "Connection: keep-alive"
connection_line false = codes "Connection: close"

abbrev pub fixed_lines : Bytes → Response → List Bytes
fixed_lines date r =
    (codes "HTTP/1.1 " ++ (to_string (code_of r.status) ++ (codes " " ++ reason_phrase r.status)))
    ∷ codes "Server: httpserver/1.0"
    ∷ (codes "Date: " ++ date)
    ∷ (codes "Content-Length: " ++ to_string (length r.body))
    ∷ connection_line r.keep_alive
    ∷ []

-- The head of the response, line by line.
abbrev pub head_lines : Bytes → Response → List Bytes
head_lines date r = fixed_lines date r ++ custom_lines r.headers

text_of-append :
    (ls ks : List Bytes) (rest : Bytes) → text_of (ls ++ ks) rest ≡ text_of ls (text_of ks rest)
text_of-append [] ks rest = refl
text_of-append (l ∷ ls) ks rest = ap (λ t. l ++ (crlf ++ t)) (text_of-append ls ks rest)

write_headers-text_of :
    (m : Dict) (res rest : Bytes)
    → write_headers res m ++ rest ≡ res ++ text_of (custom_lines m) rest
unfolding write_headers custom_lines
write_headers-text_of [] res rest = refl
write_headers-text_of ((k, v) ∷ m) res rest = elim (Bool-cases (is_among (to_lower k) reserved)) [
  | inl own ↦ rw (is_own-is_among k, own) (write_headers-text_of m res rest)
  | inr other ↦
      rw (is_own-is_among k, other)
        (write_headers-text_of m (res ++ (k ++ (codes ": " ++ (v ++ crlf)))) rest
          ∙ (simp append_assoc))
]

-- The text in front of the headers, as `serialize` appends it.
abbrev head_text : Bytes → Response → Bool → Bytes
head_text date r keep_alive =
    (codes "HTTP/1.1 "
      ++ (to_string (code_of r.status) ++ (codes " " ++ (reason_phrase r.status ++ crlf))))
    ++ ((codes "Server: httpserver/1.0\r\n"
          ++ (codes "Date: "
              ++ (date
                  ++ (crlf ++ (codes "Content-Length: " ++ (to_string (length r.body) ++ crlf))))))
        ++ (if keep_alive
            then codes "Connection: keep-alive\r\n"
            else codes "Connection: close\r\n"))

head-text_of :
    (date : Bytes) (r : Response) (keep_alive : Bool)
    → r.keep_alive ≡ keep_alive
    → (rest : Bytes) → head_text date r r.keep_alive ++ rest ≡ text_of (fixed_lines date r) rest
head-text_of date r true e rest = rw e (simp append_assoc)
head-text_of date r false e rest = rw e (simp append_assoc)

-- The serialized text, line by line.
pub serialize-text_of :
    (date : Bytes) (r : Response) → serialize date r ≡ text_of (head_lines date r) (crlf ++ r.body)
unfolding serialize
serialize-text_of date r =
    write_headers-text_of r.headers _ (crlf ++ r.body)
    ∙ head-text_of date r r.keep_alive refl (text_of (custom_lines r.headers) (crlf ++ r.body))
    ∙ sym (text_of-append (fixed_lines date r) (custom_lines r.headers) (crlf ++ r.body))

-- A line that a client can tell from the next.
abbrev IsLine : Bytes → Type 0
IsLine l = (find_byte 13 l ≡ none) × (l ≢ [])

read_lines-cons :
    (f : ℕ) (l s : Bytes)
    → IsLine l
    → read_lines (suc f) (l ++ (crlf ++ s)) ≡ cons_line l (read_lines f s)
unfolding read_lines
read_lines-cons f [] s ok = absurd (ok.1 refl)
read_lines-cons f (c ∷ l) s ok =
    let found = find-append_lacks 13 (10 ∷ []) (c ∷ l) s ok.0 in
    let left : drop (suc (length l) + 2) (c ∷ (l ++ (crlf ++ s))) ≡ s =
      drop-append_past (c ∷ l) (crlf ++ s) (length (c ∷ l) + 2) 2 refl in
    let cut : take (length l) (l ++ (crlf ++ s)) ≡ l = take-length l (crlf ++ s) in
    rw (found, read_lines, left, cut)

read_lines-text_of :
    (fuel : ℕ) (ls : List Bytes) (rest : Bytes)
    → length ls < fuel
    → All IsLine ls
    → read_lines fuel (text_of ls (crlf ++ rest)) ≡ some (ls, rest)
unfolding read_lines
read_lines-text_of zero ls rest h ok = absurd (omega arith)
read_lines-text_of (suc f) [] rest h ok = unfold find starts_with in refl
read_lines-text_of (suc f) (l ∷ ls) rest h ok = rw (
  read_lines-cons f l (text_of ls (crlf ++ rest)) ok.0,
  read_lines-text_of f ls rest (omega arith) ok.1,
)

-- The head's lines, if what the caller supplies stays on its line.
pub record IsWritable (date : Bytes) (r : Response) : Type 0 where
  pub date_on_line : find_byte 13 date ≡ none
  pub keys : All (λ e. (find_byte 13 e.0 ≡ none) × (find_byte 13 e.1 ≡ none)) r.headers
  pub sized : length r.body ≤ ullong_max

text_of-snoc :
    (ls : List Bytes) (rest more : Bytes) → text_of ls rest ++ more ≡ text_of ls (rest ++ more)
text_of-snoc [] rest more = refl
text_of-snoc (l ∷ ls) rest more =
    append_assoc l (crlf ++ text_of ls rest) more
    ∙ ap (λ t. l ++ (crlf ++ t)) (text_of-snoc ls rest more)

length-text_of :
    (ls : List Bytes) (rest : Bytes) → length ls + length rest ≤ length (text_of ls rest)
length-text_of [] rest = omega arith
length-text_of (l ∷ ls) rest =
    omega (arith, length-append l (crlf ++ text_of ls rest), length-text_of ls rest)

digits-lack : (s : Bytes) → All (λ c. is_digit c ≡ true) s → find_byte 13 s ≡ none
unfolding find_byte is_digit
digits-lack [] h = refl
digits-lack (c ∷ s) h = ground (arith, digits-lack s h.1)

reason_phrase-lacks : (c : StatusCode) → find_byte 13 (reason_phrase c) ≡ none
unfolding reason_phrase find_byte
reason_phrase-lacks StatusCode.ok = refl
reason_phrase-lacks _ = refl

connection_line-IsLine : (b : Bool) → IsLine (connection_line b)
unfolding find_byte
connection_line-IsLine true = (refl, cons-ne-nil _ _)
connection_line-IsLine false = (refl, cons-ne-nil _ _)

line-ne-nil : (k v : Bytes) → k ++ (codes ": " ++ v) ≢ []
line-ne-nil [] v = cons-ne-nil _ _
line-ne-nil (c ∷ k) v = cons-ne-nil _ _

custom_lines-IsLine :
    (m : Dict)
    → All (λ e. (find_byte 13 e.0 ≡ none) × (find_byte 13 e.1 ≡ none)) m
    → All IsLine (custom_lines m)
unfolding custom_lines
custom_lines-IsLine [] h = tt
custom_lines-IsLine ((k, v) ∷ m) h = elim (Bool-cases (is_among (to_lower k) reserved)) [
  | inl own ↦ rw own (custom_lines-IsLine m h.1)
  | inr other ↦ rw other (
    (
      find_byte-append_none 13 k _ h.0.0
          (find_byte-append_none 13 (codes ": ") v (unfold find_byte in refl) h.0.1),
      line-ne-nil k v,
    ),
    custom_lines-IsLine m h.1,
  )
]

head_lines-IsLine :
    (date : Bytes) (r : Response) → IsWritable date r → All IsLine (head_lines date r)
unfolding find_byte
head_lines-IsLine date r ok =
    let number = λ (n : ℕ). digits-lack (to_string n) (to_string-digits n) in
    let reason : find_byte 13 (codes " " ++ reason_phrase r.status) ≡ none =
      rw (reason_phrase-lacks r.status) in
    let status : find_byte 13 (
          codes "HTTP/1.1 "
          ++ (to_string (code_of r.status) ++ (codes " " ++ reason_phrase r.status)))
        ≡ none =
      rw (find_byte-append_none 13 (to_string (code_of r.status)) _ (number _) reason) in
    let sent : find_byte 13 (codes "Date: " ++ date) ≡ none = rw ok.date_on_line in
    let sized : find_byte 13 (codes "Content-Length: " ++ to_string (length r.body)) ≡ none =
      rw (number (length r.body)) in
    (
      (status, cons-ne-nil _ _),
      (
        (refl, cons-ne-nil _ _),
        (
          (sent, cons-ne-nil _ _),
          (
            (sized, cons-ne-nil _ _),
            (connection_line-IsLine r.keep_alive, custom_lines-IsLine r.headers ok.keys),
          ),
        ),
      ),
    )

head_lines-announced :
    (date : Bytes) (r : Response)
    → IsWritable date r
    → announced (head_lines date r) ≡ some (length r.body)
unfolding announced starts_with
head_lines-announced date r ok = stoull-to_string (length r.body) ok.sized

-- Where neither the date nor a header of the response holds a carriage return, and the length of the body
-- fits 64 bits: a client that reads the serialized response, with any bytes behind it, gets the status
-- line, the lines of `Server`, `Date`, `Content-Length` and `Connection`, and those of the
-- response's headers that are none of these four, in any case of the letters; then exactly the body,
-- whatever bytes it holds; and it leaves the bytes behind it.
pub serialize-framed :
    (date : Bytes) (r : Response) (more : Bytes)
    → IsWritable date r
    → read_message (serialize date r ++ more)
      ≡ some (record { lines = head_lines date r; body = r.body; rest = more })
unfolding read_message
serialize-framed date r more ok =
    let ls = head_lines date r in
    let text : serialize date r ++ more ≡ text_of ls (crlf ++ (r.body ++ more)) =
      ap (λ s. s ++ more) (serialize-text_of date r) ∙ text_of-snoc ls (crlf ++ r.body) more in
    let read =
      read_lines-text_of (length (text_of ls (crlf ++ (r.body ++ more)))) ls (r.body ++ more)
        (omega (arith, length-text_of ls (crlf ++ (r.body ++ more))))
        (head_lines-IsLine date r ok) in
    let there : leb (length r.body) (length (r.body ++ more)) ≡ true =
      le→leb _ _ (omega (arith, length-append r.body more)) in
    rw (
      text,
      read_message,
      read,
      head_lines-announced date r ok,
      there,
      take-length r.body more,
      drop-length r.body more,
    )
