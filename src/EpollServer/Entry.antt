-- ===== src/EpollServer/Entry.antt =====
-- What holds of a connection between two events, and that every handler keeps it.
use high_performance_http_se.Base.{
  All-snoc, ℕ, zero, suc, ◌+◌, ◌≤◌, ◌<◌, ◌≡◌, refl, sym, ap, subst, ◌∙◌, inl, inr, Bool, true,
  false, not, ◌||◌, List, [], ◌∷◌, ◌++◌, append-nil, flatten, Bytes, length, drop, drop-nil,
  length-append, arith, leb, is_empty, Bool-cases,
}
use high_performance_http_se.Request.{Request}
use high_performance_http_se.Response.{Response}
use high_performance_http_se.Response.Sequence.{Kept, IsBounded, snoc-IsBounded}
use high_performance_http_se.Parser.{HttpParser, ParseResult, feed, get_request}
use high_performance_http_se.Serializer.{serialize}
use high_performance_http_se.Serializer.Sequence.{texts_of, flatten-texts_of_snoc}
use high_performance_http_se.Router.Files.{FileSystem}
use high_performance_http_se.Connection.{Recv}
use high_performance_http_se.EpollServer.Flushing.{Flushed, flush-Flushed}
use high_performance_http_se.EpollServer.{
  State, Interest, Send, EpollConnection, fresh_connection, Handled, Flush, flush, Settings,
  after_flush, handle_write, start_writing, answer, reject, fed, handle_read,
}

-- By its state: a connection that reads has nothing to write and is reported for input; one that
-- writes is reported for output, and stays open behind its response only if every response so far
-- has kept it.
abbrev pub Phase : ℕ → State → EpollConnection → Type 0
Phase max State.reading e =
    (e.write_buffer ≡ [])
    × (e.interest ≡ Interest.input)
    × (e.request_count < max)
    × Kept e.request_count e.responses
Phase max State.writing e =
    (e.interest ≡ Interest.output)
    × IsBounded max e.responses
    × (e.keep_alive ≡ true → Kept e.request_count e.responses)
Phase max State.closing e = ⊥

-- What is on the wire and what is left in the buffer are the responses so far, byte for byte.
pub record IsInStep (date : ℕ → Bytes) (max : ℕ) (e : EpollConnection) : Type 0 where
  pub within : e.write_offset ≤ length e.write_buffer
  pub whole : e.wire ++ drop e.write_offset e.write_buffer ≡ flatten (texts_of date 0 e.responses)
  pub phase : Phase max e.state e

-- The same, of what a handler leaves.
abbrev pub Holds {ℓ} : (EpollConnection → Type ℓ) → Handled → Type ℓ
Holds P (Handled.kept e) = P e
Holds P (Handled.closed e) = P e

pub fresh-IsInStep : (date : ℕ → Bytes) (max : ℕ) → 0 < max → IsInStep date max fresh_connection
unfolding flatten texts_of
fresh-IsInStep date max some_allowed = record {
  within = omega arith;
  whole = refl;
  phase = (refl, refl, some_allowed, (refl, tt));
}

-- A write that moves the offset.
moved-IsInStep :
    (date : ℕ → Bytes) (max : ℕ) (e e' : EpollConnection) (f : Flush)
    → e.state ≡ State.writing
    → Flushed e e' f
    → IsInStep date max e
    → IsInStep date max e'
moved-IsInStep date max e e' f w flushed i =
    let phase = subst (λ x. Phase max x e) w i.phase in
    subst (IsInStep date max) (sym flushed.same) (record {
      within = flushed.within;
      whole = flushed.whole ∙ i.whole;
      phase =
          subst (λ x. Phase max x (record e { write_offset = e'.write_offset; wire = e'.wire }))
            (sym w) phase;
    })

-- The parser plays no part.
with_parser :
    (date : ℕ → Bytes) (max : ℕ) (e : EpollConnection) (p : HttpParser)
    → e.state ≡ State.reading
    → IsInStep date max e
    → IsInStep date max (record e { parser = p })
with_parser date max e p r i = record {
  within = i.within;
  whole = i.whole;
  phase =
      subst (λ x. Phase max x (record e { parser = p })) (sym r)
        (subst (λ x. Phase max x e) r i.phase);
}

-- A connection that reads has sent everything.
all_sent :
    (date : ℕ → Bytes) (max : ℕ) (e : EpollConnection)
    → e.state ≡ State.reading
    → IsInStep date max e
    → e.wire ≡ flatten (texts_of date 0 e.responses)
all_sent date max e r i =
    let phase = subst (λ x. Phase max x e) r i.phase in
    sym (
      ap (λ b. e.wire ++ drop e.write_offset b) phase.0
      ∙ ap (◌++◌ e.wire) (drop-nil e.write_offset)
      ∙ append-nil e.wire)
    ∙ i.whole

not_closing :
    (keep_alive : Bool) (max count : ℕ)
    → (not keep_alive || leb max count) ≡ false
    → (keep_alive ≡ true) × (count < max)
not_closing keep_alive max count h = ground arith

drop_all : (n : ℕ) (s : Bytes) → n ≡ length s → drop n s ≡ []
drop_all zero [] e = refl
drop_all zero (c ∷ s) e = absurd (omega arith)
drop_all (suc n) [] e = refl
drop_all (suc n) (c ∷ s) e = drop_all n s (omega arith)

module _ (settings : Settings) (disk : ℕ → FileSystem) (date : ℕ → Bytes) (moved : Request) where
  open settings use {router, enable_keepalive, max_requests_per_conn}

  after_flush-IsInStep :
      (e : EpollConnection) (f : Flush)
      → e.state ≡ State.writing
      → IsInStep date max_requests_per_conn e
      → (f ≡ Flush.complete → e.write_offset ≡ length e.write_buffer)
      → Holds (IsInStep date max_requests_per_conn) (after_flush settings disk date moved e f)
  unfolding after_flush
  after_flush-IsInStep e Flush.blocked w i ended = i
  after_flush-IsInStep e Flush.broken w i ended = i
  after_flush-IsInStep e Flush.complete w i ended =
      elim (Bool-cases (not e.keep_alive || leb max_requests_per_conn e.request_count)) [
        | inl closes ↦ rw closes i
        | inr stays ↦
            let (keeps, allowed) =
              not_closing e.keep_alive max_requests_per_conn e.request_count stays in
            let phase = subst (λ x. Phase max_requests_per_conn x e) w i.phase in
            rw stays (record {
              within = omega arith;
              whole = ap (◌++◌ e.wire) (sym (drop_all _ e.write_buffer (ended refl))) ∙ i.whole;
              phase = (refl, refl, allowed, phase.2 keeps);
            })
      ]

  -- Whatever the system takes of the buffer, `handle_write` keeps a connection in step, or closes it
  -- so.
  pub handle_write-IsInStep :
      (e : EpollConnection) (sends : List Send)
      → e.state ≡ State.writing
      → IsInStep date max_requests_per_conn e
      → Holds (IsInStep date max_requests_per_conn) (handle_write settings disk date moved e sends)
  unfolding handle_write
  handle_write-IsInStep e sends w i =
      let flushed = flush-Flushed e sends i.within in
      let (e', f) = flush e sends in
      let w' : e'.state ≡ State.writing = ap (λ (x : EpollConnection). x.state) flushed.same ∙ w in
      let buffer : e'.write_buffer ≡ e.write_buffer =
        ap (λ (x : EpollConnection). x.write_buffer) flushed.same in
      after_flush-IsInStep e' f w' (moved-IsInStep date max_requests_per_conn e e' f w flushed i)
        (λ h. flushed.ended h ∙ ap length (sym buffer))

  -- A response is taken up by a connection that has nothing left to write.
  start_writing-IsInStep :
      (e : EpollConnection) (res : Response) (count : ℕ)
      → e.wire ≡ flatten (texts_of date 0 e.responses)
      → e.request_count < max_requests_per_conn
      → Kept e.request_count e.responses
      → (res.keep_alive ≡ true → count ≡ e.request_count + 1)
      → IsInStep date max_requests_per_conn
          (record (start_writing settings disk date moved e res) { request_count = count })
  unfolding start_writing
  start_writing-IsInStep e res count sent allowed kept counted = record {
    within = omega arith;
    whole =
        ap (λ s. s ++ serialize (date e.request_count) res) sent
        ∙ sym (flatten-texts_of_snoc date e.responses res e.request_count kept.0);
    phase = (
      refl,
      snoc-IsBounded max_requests_per_conn e.request_count e.responses res allowed kept,
      λ keeps. (
        omega (arith, counted keeps, kept.0, length-append e.responses (res ∷ [])),
        All-snoc (λ (r : Response). r.keep_alive ≡ true) e.responses res kept.1 keeps,
      ),
    );
  }

  fed-IsInStep :
      (e : EpollConnection) (result : ParseResult) (sends : List Send) (rest : Handled)
      → e.state ≡ State.reading
      → IsInStep date max_requests_per_conn e
      → Holds (IsInStep date max_requests_per_conn) rest
      → Holds
          (IsInStep date max_requests_per_conn)
          (fed settings disk date moved e result sends rest)
  unfolding fed
  fed-IsInStep e ParseResult.incomplete sends rest r i later = later
  fed-IsInStep e ParseResult.complete sends rest r i later =
      let phase = subst (λ x. Phase max_requests_per_conn x e) r i.phase in
      handle_write-IsInStep (answer settings disk date moved e) sends
        (unfold answer start_writing in refl)
        (unfold answer in
          start_writing-IsInStep (record e { parser = (get_request moved e.parser).1 }) _
            (e.request_count + 1) (all_sent date max_requests_per_conn e r i) phase.2 phase.3
            (λ _. refl))
  fed-IsInStep e ParseResult.error sends rest r i later =
      let phase = subst (λ x. Phase max_requests_per_conn x e) r i.phase in
      handle_write-IsInStep (reject settings disk date moved e) sends
        (unfold reject start_writing in refl)
        (unfold reject in
          start_writing-IsInStep e _ e.request_count (all_sent date max_requests_per_conn e r i)
            phase.2 phase.3 (λ h. ground (arith, h)))

  -- Whatever arrives in whatever pieces, `handle_read` keeps a connection in step, or closes it so.
  pub handle_read-IsInStep :
      (e : EpollConnection) (recvs : List Recv) (sends : List Send)
      → e.state ≡ State.reading
      → IsInStep date max_requests_per_conn e
      → Holds
          (IsInStep date max_requests_per_conn)
          (handle_read settings disk date moved e recvs sends)
  unfolding handle_read
  handle_read-IsInStep e [] sends r i = i
  handle_read-IsInStep e (Recv.blocked ∷ recvs) sends r i = i
  handle_read-IsInStep e (Recv.failed ∷ recvs) sends r i = i
  handle_read-IsInStep e (Recv.interrupted ∷ recvs) sends r i =
      handle_read-IsInStep e recvs sends r i
  handle_read-IsInStep e (Recv.received bytes ∷ recvs) sends r i =
      let (p, result) = feed e.parser bytes in
      let e' = record e { parser = p } in
      let i' = with_parser date max_requests_per_conn e p r i in
      let later = handle_read-IsInStep e' recvs sends r i' in
      elim (Bool-cases (is_empty bytes)) [
        | inl over ↦ rw over i
        | inr more ↦ rw more (
            fed-IsInStep e' result sends (handle_read settings disk date moved e' recvs sends) r i'
              later)
      ]
