-- ===== src/Socket/Ownership.antt =====
-- Each descriptor is closed by its last owner, once.
use high_performance_http_se.Base.{
  ℕ, ◌+◌, ◌≡◌, ◌∙◌, ◌⊎◌, inl, inr, true, Option, none, some, List, [], ◌∷◌, ◌++◌, ◌==◌, arith, get,
  put, get-put, Bool-cases, Option-cases, if◌then◌else◌,
}
use high_performance_http_se.Socket.{
  Socket, Sockets, note, construct, close, exchange, move_construct, move_assign, Operation,
  operate, operate_all,
}

-- How often a descriptor stands in a list, and how many objects hold it.
abbrev pub count : ℕ → List ℕ → ℕ
count d [] = 0
count d (fd ∷ l) = (if fd == d then 1 else 0) + count d l

abbrev pub one_if : ℕ → Socket → ℕ
one_if d none = 0
one_if d (some fd) = if fd == d then 1 else 0

abbrev pub held : ℕ → List (ℕ × Socket) → ℕ
held d [] = 0
held d ((i, s) ∷ t) = one_if d s + held d t

count-snoc : (d : ℕ) (l : List ℕ) (fd : ℕ) → count d (l ++ fd ∷ []) ≡ count d l + one_if d (some fd)
count-snoc d [] fd = omega arith
count-snoc d (x ∷ l) fd = omega (arith, count-snoc d l fd)

pub count-note : (d : ℕ) (s : Socket) (l : List ℕ) → count d (note s l) ≡ count d l + one_if d s
unfolding note
count-note d none l = omega arith
count-note d (some fd) l = count-snoc d l fd

held-put_new :
    (d i : ℕ) (s : Socket) (t : List (ℕ × Socket))
    → get i t ≡ none
    → held d (put i s t) ≡ held d t + one_if d s
unfolding get put
held-put_new d i s [] e = omega arith
held-put_new d i s ((j, w) ∷ t) e = elim (Bool-cases (j == i)) [
  | inl same ↦ let e' = rw same at e in cc
  | inr other ↦ let e' = rw other at e in rw other (omega (arith, held-put_new d i s t e'))
]

held-put_old :
    (d i : ℕ) (s w : Socket) (t : List (ℕ × Socket))
    → get i t ≡ some w
    → held d (put i s t) + one_if d w ≡ held d t + one_if d s
unfolding get put
held-put_old d i s w [] e = cc
held-put_old d i s w ((j, v) ∷ t) e = elim (Bool-cases (j == i)) [
  | inl same ↦ let e' = rw same at e in let q : v ≡ w = cc in rw (same, q) (omega arith)
  | inr other ↦ let e' = rw other at e in rw other (omega (arith, held-put_old d i s w t e'))
]

-- No descriptor stands there: there is no object, or one that holds none.
abbrev pub IsVacant : ℕ → Sockets → Type 0
IsVacant i s = (get i s.objects ≡ none) ⊎ (get i s.objects ≡ some none)

-- Every descriptor that the system gave out has an owner, or was closed, as often as it was given.
abbrev pub IsBalanced : ℕ → Sockets → Type 0
IsBalanced d s = count d s.closed + held d s.objects ≡ count d s.acquired

held-put_vacant :
    (d i : ℕ) (fd : Socket) (s : Sockets)
    → IsVacant i s
    → held d (put i fd s.objects) ≡ held d s.objects + one_if d fd
held-put_vacant d i fd s (inl e) = held-put_new d i fd s.objects e
held-put_vacant d i fd s (inr e) = omega (arith, held-put_old d i fd none s.objects e)

construct-IsBalanced :
    (d i : ℕ) (fd : Option ℕ) (s : Sockets)
    → IsVacant i s
    → IsBalanced d s
    → IsBalanced d (construct s i fd)
unfolding construct
construct-IsBalanced d i fd s vacant b =
    omega (arith, b, held-put_vacant d i fd s vacant, count-note d fd s.acquired)

close-IsBalanced : (d i : ℕ) (s : Sockets) → IsBalanced d s → IsBalanced d (close s i)
unfolding close
close-IsBalanced d i s b = elim (Option-cases (get i s.objects)) [
  | inl e ↦ rw (e, close) b
  | inr (fd, e) ↦
      rw (e, close)
        (omega (arith, b, held-put_old d i none fd s.objects e, count-note d fd s.closed))
]

close-IsVacant : (i : ℕ) (s : Sockets) → IsVacant i (close s i)
unfolding close
close-IsVacant i s = elim (Option-cases (get i s.objects)) [
  | inl e ↦ rw (e, close) (inl e)
  | inr (fd, e) ↦
      let same : (i == i) ≡ true = ground arith in
      rw (e, close) (inr (get-put i i none s.objects ∙ (rw same)))
]

vacated :
    (i j : ℕ) (s : Sockets)
    → IsVacant i s
    → IsVacant i (record s { objects = put j none s.objects })
vacated i j s vacant = elim (Bool-cases (j == i)) [
  | inl same ↦ inr (get-put j i none s.objects ∙ (rw same))
  | inr other ↦ elim vacant [
    | inl e ↦ inl (get-put j i none s.objects ∙ (rw other e))
    | inr e ↦ inr (get-put j i none s.objects ∙ (rw other e))
  ]
]

exchange-IsBalanced :
    (d i j : ℕ) (s : Sockets) → IsVacant i s → IsBalanced d s → IsBalanced d (exchange s i j)
unfolding exchange
exchange-IsBalanced d i j s vacant b = elim (Option-cases (get j s.objects)) [
  | inl e ↦ rw (e, exchange) b
  | inr (fd, e) ↦
      let out = held-put_old d j none fd s.objects e in
      let s' = record s { objects = put j none s.objects } in
      rw (e, exchange) (omega (arith, b, out, held-put_vacant d i fd s' (vacated i j s vacant)))
]

move_assign-IsBalanced :
    (d i j : ℕ) (s : Sockets) → IsBalanced d s → IsBalanced d (move_assign s i j)
unfolding move_assign
move_assign-IsBalanced d i j s b = elim (Bool-cases (i == j)) [
  | inl same ↦ rw same b
  | inr other ↦
      rw other
        (exchange-IsBalanced d i j (close s i) (close-IsVacant i s) (close-IsBalanced d i s b))
]

-- An object is constructed where no object holds a descriptor.
abbrev pub IsAllowed : Sockets → Operation → Type 0
IsAllowed s (Operation.constructs i fd) = IsVacant i s
IsAllowed s (Operation.move_constructs i j) = IsVacant i s
IsAllowed s (Operation.move_assigns i j) = Unit
IsAllowed s (Operation.closes i) = Unit

abbrev pub AreAllowed : Sockets → List Operation → Type 0
AreAllowed s [] = Unit
AreAllowed s (op ∷ ops) = IsAllowed s op × AreAllowed (operate s op) ops

operate-IsBalanced :
    (d : ℕ) (s : Sockets) (op : Operation)
    → IsAllowed s op
    → IsBalanced d s
    → IsBalanced d (operate s op)
unfolding operate move_construct
operate-IsBalanced d s (Operation.constructs i fd) ok b = construct-IsBalanced d i fd s ok b
operate-IsBalanced d s (Operation.move_constructs i j) ok b = exchange-IsBalanced d i j s ok b
operate-IsBalanced d s (Operation.move_assigns i j) ok b = move_assign-IsBalanced d i j s b
operate-IsBalanced d s (Operation.closes i) ok b = close-IsBalanced d i s b

operate_all-keep :
    (d : ℕ) (ops : List Operation) (s : Sockets)
    → AreAllowed s ops
    → IsBalanced d s
    → IsBalanced d (operate_all s ops)
unfolding operate_all
operate_all-keep d [] s ok b = b
operate_all-keep d (op ∷ ops) s ok b =
    operate_all-keep d ops (operate s op) ok.1 (operate-IsBalanced d s op ok.0 b)

-- Whatever is done to socket objects from a start with none, moves onto themselves and onto objects that
-- hold a descriptor included, as long as objects are constructed where none holds a descriptor:
-- each descriptor has been closed, and is held, as often in all as the system gave it out.
-- So none is closed twice, none is closed while an object holds it, and none is lost.
pub operate_all-IsBalanced :
    (d : ℕ) (ops : List Operation)
    → AreAllowed (record { objects = []; acquired = []; closed = [] }) ops
    → let s = operate_all (record { objects = []; acquired = []; closed = [] }) ops in
      count d s.closed + held d s.objects ≡ count d s.acquired
operate_all-IsBalanced d ops ok =
    operate_all-keep d ops (record { objects = []; acquired = []; closed = [] }) ok (omega arith)
