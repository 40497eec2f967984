-- ===== src/EpollServer/Everywhere.antt =====
-- What holds of every connection, under the changes of the table.
use high_performance_http_se.Base.{
  ℕ, ◌≡◌, inl, inr, Bool, true, false, some, List, [], ◌∷◌, ◌++◌, All, Option-cases, get, put,
  get-All, put-All, erase-All,
}
use high_performance_http_se.EpollServer.{
  EpollConnection, fresh_connection, Handled, EpollServer, close_connection, handled, on_entry,
  accept_connections,
}
use high_performance_http_se.EpollServer.Entry.{Holds}

-- Every connection, open or gone.
abbrev pub AllOf {ℓ} : (EpollConnection → Type ℓ) → EpollServer → Type ℓ
AllOf P s = All (λ e. P e.1) s.connections × All (λ e. P e.1) s.gone

pub All-map :
    (P Q : EpollConnection → Type 0) (t : List (ℕ × EpollConnection))
    → ((e : EpollConnection) → P e → Q e)
    → All (λ e. P e.1) t
    → All (λ e. Q e.1) t
All-map P Q [] f all = tt
All-map P Q (e ∷ t) f all = (f e.1 all.0, All-map P Q t f all.1)

pub All-append :
    (P : EpollConnection → Type 0) (t u : List (ℕ × EpollConnection))
    → All (λ e. P e.1) u
    → All (λ e. P e.1) t
    → All (λ e. P e.1) (t ++ u)
All-append P [] u behind all = behind
All-append P (e ∷ t) u behind all = (all.0, All-append P t u behind all.1)

handled-AllOf :
    (P : EpollConnection → Type 0) (s : EpollServer) (fd : ℕ) (h : Handled)
    → Holds P h
    → AllOf P s
    → AllOf P (handled s fd h)
unfolding handled
handled-AllOf P s fd (Handled.kept e) p all = (put-All P fd e s.connections p all.0, all.1)
handled-AllOf P s fd (Handled.closed e) p all = (erase-All P fd s.connections all.0, (p, all.1))

pub on_entry-AllOf :
    (P : EpollConnection → Type 0) (s : EpollServer) (fd : ℕ) (f : EpollConnection → Handled)
    → ((e : EpollConnection) → get fd s.connections ≡ some e → P e → Holds P (f e))
    → AllOf P s
    → AllOf P (on_entry s fd f)
unfolding on_entry
on_entry-AllOf P s fd f step all = elim (Option-cases (get fd s.connections)) [
  | inl e ↦ rw (e, on_entry) all
  | inr (c, e) ↦
      rw (e, on_entry)
        (handled-AllOf P s fd (f c) (step c e (get-All P fd c s.connections all.0 e)) all)
]

pub accept_connections-AllOf :
    (P : EpollConnection → Type 0) (s : EpollServer) (arrivals : List (ℕ × Bool))
    → P fresh_connection
    → AllOf P s
    → AllOf P (accept_connections s arrivals)
unfolding accept_connections
accept_connections-AllOf P s [] fresh all = all
accept_connections-AllOf P s ((fd, true) ∷ arrivals) fresh all =
    accept_connections-AllOf P (record s { connections = put fd fresh_connection s.connections })
      arrivals fresh (put-All P fd fresh_connection s.connections fresh all.0, all.1)
accept_connections-AllOf P s ((fd, false) ∷ arrivals) fresh all =
    accept_connections-AllOf P s arrivals fresh all

pub close_connection-AllOf :
    (P : EpollConnection → Type 0) (s : EpollServer) (fd : ℕ)
    → AllOf P s
    → AllOf P (close_connection s fd)
unfolding close_connection
close_connection-AllOf P s fd all = elim (Option-cases (get fd s.connections)) [
  | inl e ↦ rw (e, close_connection) all
  | inr (c, e) ↦
      rw (e, close_connection)
        (erase-All P fd s.connections all.0, (get-All P fd c s.connections all.0 e, all.1))
]
