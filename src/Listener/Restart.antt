-- ===== src/Listener/Restart.antt =====
-- A listener that is started, once more or for the first time, owns the new descriptor alone.
use high_performance_http_se.Base.{
  ℕ, ◌+◌, ◌≡◌, refl, sym, ap, subst, ◌∙◌, Bool, true, false, not, ◌&&◌, Option, none, some, ◌==◌,
  arith, get, put, get-put_same, get-put_other, if◌then◌else◌,
}
use high_performance_http_se.Socket.{
  Socket, Sockets, is_valid, note, construct, close, exchange, move_assign,
}
use high_performance_http_se.Socket.Ownership.{count, one_if, count-note}
use high_performance_http_se.Listener.{Listener, Answers, fd_of, start, stop}

close-some :
    (s : Sockets) (i : ℕ) (fd : Socket)
    → get i s.objects ≡ some fd
    → close s i ≡ record s { objects = put i none s.objects; closed = note fd s.closed }
unfolding close
close-some s i fd e = rw (e, close) refl

exchange-some :
    (s : Sockets) (i j : ℕ) (fd : Socket)
    → get j s.objects ≡ some fd
    → exchange s i j ≡ record s { objects = put i fd (put j none s.objects) }
unfolding exchange
exchange-some s i j fd e = rw (e, exchange) refl

-- The table behind the assignment of `start`.
abbrev assigned : Sockets → ℕ → ℕ → Option ℕ → Socket → Sockets
assigned s i temp fd old = record {
  objects = put temp none (put i fd (put temp none (put i none (put temp fd s.objects))));
  acquired = note fd s.acquired;
  closed = note old s.closed;
}

create-assigned :
    (s : Sockets) (i temp : ℕ) (fd : Option ℕ) (old : Socket)
    → get i s.objects ≡ some old
    → (i == temp) ≡ false
    → (temp == i) ≡ false
    → close (move_assign (construct s temp fd) i temp) temp ≡ assigned s i temp fd old
unfolding move_assign construct note
create-assigned s i temp fd old e other other' =
    let t1 = put temp fd s.objects in
    let s1 = construct s temp fd in
    let t2 = put i none t1 in
    let s2 = record s1 { objects = t2; closed = note old s.closed } in
    let t3 = put i fd (put temp none t2) in
    let s3 = record s2 { objects = t3 } in
    let closing = close-some s1 i old (get-put_other temp i fd s.objects other' ∙ e) in
    let moving =
      exchange-some s2 i temp fd
        (get-put_other i temp none t1 other ∙ get-put_same temp fd s.objects) in
    let ending =
      close-some s3 temp none
        (get-put_other i temp fd (put temp none t2) other ∙ get-put_same temp none t2) in
    rw other
      (ap (λ x. close (exchange x i temp) temp) closing ∙ ap (λ x. close x temp) moving ∙ ending)

-- The value of `start`, over its tests.
branches :
    (s : Sockets) (valid bound listening : Bool)
    → ◌≡◌ {A = Sockets × Bool}
        (if not valid
          then (s, false)
          else if not bound
          then (s, false)
          else if not listening
          then (s, false)
          else (s, true))
        (s, valid && (bound && listening))
branches s false bound listening = refl
branches s true false listening = refl
branches s true true false = refl
branches s true true true = refl

start-assigned :
    (l : Listener) (s : Sockets) (temp : ℕ) (a : Answers) (old : Socket)
    → get l.socket s.objects ≡ some old
    → (l.socket == temp) ≡ false
    → (temp == l.socket) ≡ false
    → start l s temp a
      ≡ (assigned s l.socket temp a.created old, is_valid a.created && (a.bound && a.listening))
unfolding start fd_of
start-assigned l s temp a old e other other' =
    let t = put l.socket none (put temp a.created s.objects) in
    let own =
      get-put_other temp l.socket none (put l.socket a.created (put temp none t)) other'
      ∙ get-put_same l.socket a.created (put temp none t) in
    rw (create-assigned s l.socket temp a.created old e other other', own, fd_of)
      (branches (assigned s l.socket temp a.created old) (is_valid a.created) a.bound a.listening)

-- What the descriptors of a listener are behind `start` and `stop`.
abbrev pub IsOwner : Listener → Sockets → ℕ → Answers → Socket → ℕ → Sockets → Type 0
IsOwner l s temp a old d s' =
    (get l.socket s'.objects ≡ some a.created)
    × (get temp s'.objects ≡ some none)
    × (count d s'.closed ≡ count d s.closed + one_if d old)
    × (get l.socket (stop l s').objects ≡ some none)

assigned-IsOwner :
    (l : Listener) (s : Sockets) (temp : ℕ) (a : Answers) (old : Socket) (d : ℕ)
    → (temp == l.socket) ≡ false
    → IsOwner l s temp a old d (assigned s l.socket temp a.created old)
unfolding stop
assigned-IsOwner l s temp a old d other' =
    let t = put l.socket none (put temp a.created s.objects) in
    let t' = put l.socket a.created (put temp none t) in
    let s' = assigned s l.socket temp a.created old in
    let own =
      get-put_other temp l.socket none t' other'
      ∙ get-put_same l.socket a.created (put temp none t) in
    (
      own,
      get-put_same temp none t',
      count-note d old s.closed,
      ap (λ (x : Sockets). get l.socket x.objects) (close-some s' l.socket a.created own)
          ∙ get-put_same l.socket none s'.objects,
    )

-- Of a listener with its socket, started with a temporary apart: `start` returns true where the socket
-- was created and `bind` and `listen` gave no error, and else false; on every branch the listener
-- owns what `socket` gave, if anything, the temporary owns nothing, and the descriptor that the listener
-- had, if any, was closed, once, and no other. `stop` behind it leaves nothing to the listener.
pub start-IsOwner :
    (l : Listener) (s : Sockets) (temp : ℕ) (a : Answers) (old : Socket) (d : ℕ)
    → get l.socket s.objects ≡ some old
    → (l.socket == temp) ≡ false
    → let (s', ok) = start l s temp a in
      (ok ≡ (is_valid a.created && (a.bound && a.listening))) × IsOwner l s temp a old d s'
start-IsOwner l s temp a old d e other =
    let other' : (temp == l.socket) ≡ false = ground (arith, other) in
    subst
      (λ r. (r.1 ≡ (is_valid a.created && (a.bound && a.listening))) × IsOwner l s temp a old d r.0)
      (sym (start-assigned l s temp a old e other other'))
      (refl, assigned-IsOwner l s temp a old d other')
