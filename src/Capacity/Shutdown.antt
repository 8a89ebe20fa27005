-- ===== src/Capacity/Shutdown.antt =====
-- What a shutdown stops, and when its callers return.
use sandi.Prelude.{
  ℕ, ◌+◌, ◌<◌, ◌≡◌, sym, subst, ◌⊎◌, inl, inr, false, some, List, [], ◌∷◌, arith, length,
  length-map, length-append, Taken-length, take_first, take_first-Taken, Option-cases,
}
use sandi.Capacity.Work.{
  Config, Request, Settlement, resolved, failed, shutting_down, Provider, new_provider,
}
use sandi.Capacity.{
  pump, notify_idle, refusal, generate_turn, enqueue, settle, has_sequence, abort_request,
  runs_sequence, finish, shutdown, grace_expired, refused, Event, submits, aborts, responds, fails,
  shuts_down, expires, step, run, abort_running, abort_active,
}
use sandi.Capacity.Pump.{Starts, pump-keeps}

-- No turn is accepted or waits, and no sequence number beyond `n` is given out.
pub record IsClosed (n : ℕ) (p : Provider) : Type 0 where
  pub closed : p.accepting ≡ false
  pub emptied : length p.queue ≡ 0
  pub last : p.sequence ≡ n

module _ (n : ℕ) where
  Starts-IsClosed : (p q : Provider) → Starts p q → IsClosed n p → IsClosed n q
  Starts-IsClosed p q s h = absurd (omega (arith, h.emptied, Taken-length s.taken))

  pump-IsClosed : (p : Provider) → IsClosed n p → IsClosed n (pump p)
  pump-IsClosed = pump-keeps (IsClosed n) Starts-IsClosed

  refusal-IsClosed : (p : Provider) (r : Request) → IsClosed n p → refusal p r ≡ some shutting_down
  unfolding refusal
  refusal-IsClosed p r h = rw (h.closed)

  generate_turn-IsClosed :
      (p : Provider) (r : Request) → IsClosed n p → generate_turn p r ≡ (p, refused shutting_down)
  unfolding generate_turn
  generate_turn-IsClosed p r h = rw (refusal-IsClosed p r h, generate_turn)

  abort_request-IsClosed : (m : ℕ) (p : Provider) → IsClosed n p → IsClosed n (abort_request m p)
  unfolding abort_request notify_idle
  abort_request-IsClosed m p h = elim (Option-cases (take_first (has_sequence m) p.queue)) [
    | inl e ↦ rw (e, abort_request) (ground arith)
    | inr ((work, queue), e) ↦
        absurd
          (omega (arith, h.emptied, Taken-length (take_first-Taken (has_sequence m) p.queue e).0))
  ]

  finish-IsClosed :
      (m : ℕ) (how : Settlement) (p : Provider) → IsClosed n p → IsClosed n (finish m how p)
  unfolding finish notify_idle
  finish-IsClosed m how p h = elim (Option-cases (take_first (runs_sequence m) p.active)) [
    | inl e ↦ rw (e, finish) h
    | inr ((a, active), e) ↦
        let after = pump-IsClosed (settle m how (record p { active = active })) (ground arith) in
        rw (e, finish) (ground arith)
  ]

  step-IsClosed : (p : Provider) (e : Event) → IsClosed n p → IsClosed n (step p e)
  unfolding step shutdown grace_expired
  step-IsClosed p (submits r) h = subst (λ o. IsClosed n o.0) (sym (generate_turn-IsClosed p r h)) h
  step-IsClosed p (aborts m) h = abort_request-IsClosed m p h
  step-IsClosed p (responds m) h = finish-IsClosed m resolved p h
  step-IsClosed p (fails m) h = finish-IsClosed m failed p h
  step-IsClosed p shuts_down h = ground arith
  step-IsClosed p expires h = ground arith

  run-IsClosed : (p : Provider) (es : List Event) → IsClosed n p → IsClosed n (run p es)
  unfolding run
  run-IsClosed p [] h = h
  run-IsClosed p (e ∷ es) h = run-IsClosed (step p e) es (step-IsClosed p e h)

shutdown-IsClosed : (p : Provider) → IsClosed p.sequence (shutdown p)
unfolding shutdown
shutdown-IsClosed p = ground arith

-- From a shutdown on, whatever happens: no turn waits, no further sequence number is given out, and
-- every request is refused as shutting down with the state unchanged.
pub run-shutdown :
    (p : Provider) (es : List Event) (r : Request)
    → let q = run (shutdown p) es in
      (length q.queue ≡ 0)
      × (q.sequence ≡ p.sequence)
      × (generate_turn q r ≡ (q, refused shutting_down))
run-shutdown p es r =
    let h = run-IsClosed p.sequence (shutdown p) es (shutdown-IsClosed p) in
    (h.emptied, h.last, generate_turn-IsClosed p.sequence (run (shutdown p) es) r h)

-- A caller of `shutdown` waits only while a turn runs and no turn is accepted or waits.
abbrev Waits : ℕ → Provider → Type 0
Waits called p =
    (p.shutdowns_done + p.idle_waiters ≡ called)
    × ((p.idle_waiters ≡ 0) ⊎ ((p.accepting ≡ false) × (length p.queue ≡ 0)))

abbrev Returns : ℕ → Provider → Type 0
Returns called p = Waits called p × ((p.idle_waiters ≡ 0) ⊎ (0 < length p.active))

abbrev is_shutdown : Event → ℕ
is_shutdown shuts_down = 1
is_shutdown _ = 0

abbrev pub shutdown_calls : List Event → ℕ
shutdown_calls [] = 0
shutdown_calls (e ∷ es) = is_shutdown e + shutdown_calls es

module _ (k : ℕ) where
  Starts-Waits : (p q : Provider) → Starts p q → Waits k p → Waits k q
  Starts-Waits p q s h = rw (s.becomes) (ground (arith, Taken-length s.taken))

  Starts-Returns : (p q : Provider) → Starts p q → Returns k p → Returns k q
  Starts-Returns p q s h = rw (s.becomes) (
      ground (
        arith,
        Taken-length s.taken,
        length-append p.active (record { work = s.work; signal_aborted = false } ∷ []),
      ))

  notify_idle-Returns : (p : Provider) → Waits k p → Returns k (notify_idle p)
  unfolding notify_idle
  notify_idle-Returns p h = ground arith

  generate_turn-Returns :
      (p : Provider) (r : Request) → Returns k p → Returns k (generate_turn p r).0
  unfolding generate_turn refusal
  generate_turn-Returns p r h = elim (Option-cases (refusal p r)) [
    | inl e ↦
        rw (e, generate_turn) (pump-keeps (Returns k) Starts-Returns (enqueue p r) (ground arith))
    | inr (reason, e) ↦ rw (e, generate_turn) h
  ]

  abort_request-Returns : (m : ℕ) (p : Provider) → Returns k p → Returns k (abort_request m p)
  unfolding abort_request
  abort_request-Returns m p h = elim (Option-cases (take_first (has_sequence m) p.queue)) [
    | inl e ↦ rw (e, abort_request) (ground (arith, length-map (abort_running m) p.active))
    | inr ((work, queue), e) ↦
        let taken = (take_first-Taken (has_sequence m) p.queue e).0 in
        rw (e, abort_request) (notify_idle-Returns _ (ground (arith, Taken-length taken)))
  ]

  finish-Returns :
      (m : ℕ) (how : Settlement) (p : Provider) → Returns k p → Returns k (finish m how p)
  unfolding finish
  finish-Returns m how p h = elim (Option-cases (take_first (runs_sequence m) p.active)) [
    | inl e ↦ rw (e, finish) h
    | inr ((a, active), e) ↦
        rw (e, finish) (notify_idle-Returns _ (pump-keeps (Waits k) Starts-Waits _ (ground arith)))
  ]

step-Returns :
    (k : ℕ) (p : Provider) (e : Event) → Returns k p → Returns (k + is_shutdown e) (step p e)
unfolding step shutdown grace_expired
step-Returns k p (submits r) h =
    subst (λ j. Returns j (generate_turn p r).0) (omega arith) (generate_turn-Returns k p r h)
step-Returns k p (aborts m) h =
    subst (λ j. Returns j (abort_request m p)) (omega arith) (abort_request-Returns k m p h)
step-Returns k p (responds m) h =
    subst (λ j. Returns j (finish m resolved p)) (omega arith) (finish-Returns k m resolved p h)
step-Returns k p (fails m) h =
    subst (λ j. Returns j (finish m failed p)) (omega arith) (finish-Returns k m failed p h)
step-Returns k p shuts_down h = ground arith
step-Returns k p expires h = ground (arith, length-map abort_active p.active)

run-keeps :
    (k : ℕ) (p : Provider) (es : List Event)
    → Returns k p
    → Returns (k + shutdown_calls es) (run p es)
unfolding run
run-keeps k p [] h = subst (λ j. Returns j p) (omega arith) h
run-keeps k p (e ∷ es) h =
    subst (λ j. Returns j (run (step p e) es)) (omega arith)
      (run-keeps (k + is_shutdown e) (step p e) es (step-Returns k p e h))

-- After any sequence of events each call of `shutdown` has returned or still waits, and one waits
-- only while a turn runs.
pub run-Returns :
    (c : Config) (es : List Event)
    → let q = run (new_provider c) es in
      (q.shutdowns_done + q.idle_waiters ≡ shutdown_calls es)
      × ((q.idle_waiters ≡ 0) ⊎ (0 < length q.active))
run-Returns c es =
    let (waits, busy) = run-keeps 0 (new_provider c) es (ground arith) in
    (omega (arith, waits.0), busy)
