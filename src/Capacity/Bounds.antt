-- ===== src/Capacity/Bounds.antt =====
-- The limits of the configuration hold in every state that the controller reaches.
use sandi.Prelude.{
  ℕ, ◌≤◌, ◌<◌, ◌≡◌, subst, ◌⊎◌, inl, inr, String, ◌==◌, eq_iff, true, false, none, List, [], ◌∷◌,
  arith, length, length-append, length-map, count, count-append, count-none, any, Taken,
  Taken-length, Taken-count, take_first, take_first-Taken, Bool-cases, Option-cases,
}
use sandi.Capacity.Work.{
  Config, Request, QueuedWork, Settlement, resolved, failed, rejected, aborted, Provider,
  of_identity, passive_of, identity_of, is_passive, work_kind, new_provider,
}
use sandi.Capacity.{
  can_start, pump, notify_idle, refusal, generate_turn, enqueue, new_work, settle, has_sequence,
  abort_request, runs_sequence, finish, shutdown, grace_expired, Event, submits, aborts, responds,
  fails, shuts_down, expires, step, run, abort_running, abort_active,
}
use sandi.Capacity.Pump.{Starts, pump-keeps, pump-stops}

-- No limit of the configuration is passed: in all, at once, for each identity, and one passive turn
-- for each identity. A controller that no longer accepts turns has none queued.
pub record WithinLimits (c : Config) (identity : String) (p : Provider) : Type 0 where
  pub config : p.config ≡ c
  pub queued : length p.queue ≤ c.max_queued
  pub running : length p.active ≤ c.max_concurrent
  pub per_identity : count (of_identity identity) p.queue ≤ c.max_queued_per_identity
  pub coalesced : count (passive_of identity) p.queue ≤ 1
  pub stopped : (p.accepting ≡ true) ⊎ (length p.queue ≡ 0)

module _ (c : Config) (i : String) where
  Starts-WithinLimits : (p q : Provider) → Starts p q → WithinLimits c i p → WithinLimits c i q
  unfolding can_start
  Starts-WithinLimits p q s h = rw (s.becomes) (
      ground (
        arith,
        s.may,
        Taken-length s.taken,
        Taken-count (of_identity i) s.taken,
        Taken-count (passive_of i) s.taken,
        length-append p.active (record { work = s.work; signal_aborted = false } ∷ []),
      ))

  pump-WithinLimits : (p : Provider) → WithinLimits c i p → WithinLimits c i (pump p)
  pump-WithinLimits = pump-keeps (WithinLimits c i) Starts-WithinLimits

  refusal-none :
      (p : Provider) (r : Request)
      → refusal p r ≡ none
      → (p.accepting ≡ true)
        × (length p.queue < p.config.max_queued)
        × (count (of_identity (identity_of r)) p.queue < p.config.max_queued_per_identity)
        × (is_passive (work_kind r) ≡ true → any (passive_of (identity_of r)) p.queue ≡ false)
  unfolding refusal
  refusal-none p r e = ground arith

  enqueue-WithinLimits :
      (p : Provider) (r : Request)
      → refusal p r ≡ none
      → WithinLimits c i p
      → WithinLimits c i (enqueue p r)
  enqueue-WithinLimits p r e h =
      let (accepting, room, share, alone) = refusal-none p r e in
      elim (Bool-cases (identity_of r == i)) [
        | inl same ↦
            let mine = (eq_iff (identity_of r) i).0 same in
            let share' =
              subst (λ j. count (of_identity j) p.queue < p.config.max_queued_per_identity) mine
                share in
            let alone' =
              subst (λ j. is_passive (work_kind r) ≡ true → any (passive_of j) p.queue ≡ false) mine
                alone in
            ground (
              arith,
              alone',
              count-none (passive_of i) p.queue,
              length-append p.queue (new_work p r ∷ []),
              count-append (of_identity i) p.queue (new_work p r ∷ []),
              count-append (passive_of i) p.queue (new_work p r ∷ []),
            )
        | inr other ↦ ground (
          arith,
          length-append p.queue (new_work p r ∷ []),
          count-append (of_identity i) p.queue (new_work p r ∷ []),
          count-append (passive_of i) p.queue (new_work p r ∷ []),
        )
      ]

  notify_idle-WithinLimits : (p : Provider) → WithinLimits c i p → WithinLimits c i (notify_idle p)
  unfolding notify_idle
  notify_idle-WithinLimits p h = ground arith

  -- The invariant: the limits, and no free place beside a turn that could take it.
  abbrev Inv : Provider → Type 0
  Inv p = WithinLimits c i p × (can_start p ≡ false)

  notify_idle-Inv : (p : Provider) → Inv p → Inv (notify_idle p)
  unfolding notify_idle can_start
  notify_idle-Inv p h = (notify_idle-WithinLimits p h.0, ground arith)

  pump-Inv : (p : Provider) → WithinLimits c i p → Inv (pump p)
  pump-Inv p h = (pump-WithinLimits p h, pump-stops p)

  generate_turn-Inv : (p : Provider) (r : Request) → Inv p → Inv (generate_turn p r).0
  unfolding generate_turn
  generate_turn-Inv p r h = elim (Option-cases (refusal p r)) [
    | inl e ↦ rw (e, generate_turn) (pump-Inv (enqueue p r) (enqueue-WithinLimits p r e h.0))
    | inr (reason, e) ↦ rw (e, generate_turn) h
  ]

  unqueue-Inv :
      (n : ℕ) (how : Settlement) (p : Provider) (work : QueuedWork) (queue : List QueuedWork)
      → Taken p.queue work queue
      → Inv p
      → Inv (settle n how (record p { queue = queue }))
  unfolding can_start
  unqueue-Inv n how p work queue t h = (
    ground (arith, Taken-length t, Taken-count (of_identity i) t, Taken-count (passive_of i) t),
    ground (arith, Taken-length t),
  )

  abort_request-Inv : (n : ℕ) (p : Provider) → Inv p → Inv (abort_request n p)
  unfolding abort_request can_start
  abort_request-Inv n p h = elim (Option-cases (take_first (has_sequence n) p.queue)) [
    | inl e ↦
        rw (e, abort_request)
          (
            ground (arith, length-map (abort_running n) p.active),
            ground (arith, length-map (abort_running n) p.active),
          )
    | inr ((work, queue), e) ↦
        rw (e, abort_request)
          (notify_idle-Inv _ (
            unqueue-Inv n (rejected aborted) p work queue
              (take_first-Taken (has_sequence n) p.queue e).0 h))
  ]

  finish-Inv : (n : ℕ) (how : Settlement) (p : Provider) → Inv p → Inv (finish n how p)
  unfolding finish
  finish-Inv n how p h = elim (Option-cases (take_first (runs_sequence n) p.active)) [
    | inl e ↦ rw (e, finish) h
    | inr ((a, active), e) ↦
        rw (e, finish)
          (notify_idle-Inv _ (
            pump-Inv (settle n how (record p { active = active }))
              (ground (arith, Taken-length (take_first-Taken (runs_sequence n) p.active e).0))))
  ]

  shutdown-Inv : (p : Provider) → Inv p → Inv (shutdown p)
  unfolding shutdown can_start
  shutdown-Inv p h = (ground arith, ground arith)

  grace_expired-Inv : (p : Provider) → Inv p → Inv (grace_expired p)
  unfolding grace_expired can_start
  grace_expired-Inv p h = (
    ground (arith, length-map abort_active p.active),
    ground (arith, length-map abort_active p.active),
  )

  step-Inv : (p : Provider) (e : Event) → Inv p → Inv (step p e)
  unfolding step
  step-Inv p (submits r) h = generate_turn-Inv p r h
  step-Inv p (aborts n) h = abort_request-Inv n p h
  step-Inv p (responds n) h = finish-Inv n resolved p h
  step-Inv p (fails n) h = finish-Inv n failed p h
  step-Inv p shuts_down h = shutdown-Inv p h
  step-Inv p expires h = grace_expired-Inv p h

  run-Inv : (p : Provider) (es : List Event) → Inv p → Inv (run p es)
  unfolding run
  run-Inv p [] h = h
  run-Inv p (e ∷ es) h = run-Inv (step p e) es (step-Inv p e h)

-- After any sequence of events the limits of the configuration hold, for every identity, and the
-- controller idles no place: a turn waits only if as many turns run as may, or none is accepted.
pub run-WithinLimits :
    (c : Config) (i : String) (es : List Event)
    → WithinLimits c i (run (new_provider c) es) × (can_start (run (new_provider c) es) ≡ false)
unfolding can_start
run-WithinLimits c i es = run-Inv c i (new_provider c) es (ground arith, ground arith)
