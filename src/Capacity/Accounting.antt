-- ===== src/Capacity/Accounting.antt =====
-- Every accepted turn is in one place: waiting, running, or settled once.
use sandi.Prelude.{
  ℕ, ◌+◌, ◌≡◌, refl, inl, inr, Bool, false, List, [], ◌∷◌, map, arith, ltb, eqb, if◌then◌else◌,
  count, count-append, Taken-count, take_first, take_first-Taken, Option-cases,
}
use sandi.Capacity.Work.{
  Config, Request, QueuedWork, Active, Settlement, resolved, failed, rejected, aborted, Provider,
  new_provider,
}
use sandi.Capacity.{
  pump, notify_idle, refusal, generate_turn, enqueue, new_work, has_sequence, abort_request,
  runs_sequence, finish, shutdown, grace_expired, Event, submits, aborts, responds, fails,
  shuts_down, expires, step, run, abort_running, abort_active, reject_queued,
}
use sandi.Capacity.Pump.{Starts, pump-keeps}

abbrev settles : ℕ → ℕ × Settlement → Bool
settles n (m, how) = eqb m n

-- How often the turn with sequence number `n` waits, runs or has been settled.
abbrev pub places : ℕ → Provider → ℕ
places n p =
    count (has_sequence n) p.queue + count (runs_sequence n) p.active + count (settles n) p.settled

abbrev pub Accounted : ℕ → Provider → Type 0
Accounted n p = places n p ≡ (if ltb n p.sequence then 1 else 0)

module _ (n : ℕ) where
  Starts-Accounted : (p q : Provider) → Starts p q → Accounted n p → Accounted n q
  Starts-Accounted p q s h = rw (s.becomes) (
      ground (
        arith,
        Taken-count (has_sequence n) s.taken,
        count-append (runs_sequence n) p.active
            (record { work = s.work; signal_aborted = false } ∷ []),
      ))

  pump-Accounted : (p : Provider) → Accounted n p → Accounted n (pump p)
  pump-Accounted = pump-keeps (Accounted n) Starts-Accounted

  notify_idle-Accounted : (p : Provider) → Accounted n p → Accounted n (notify_idle p)
  unfolding notify_idle
  notify_idle-Accounted p h = ground arith

  generate_turn-Accounted :
      (p : Provider) (r : Request) → Accounted n p → Accounted n (generate_turn p r).0
  unfolding generate_turn
  generate_turn-Accounted p r h = elim (Option-cases (refusal p r)) [
    | inl e ↦
        rw (e, generate_turn)
          (pump-Accounted (enqueue p r)
            (ground (arith, count-append (has_sequence n) p.queue (new_work p r ∷ []))))
    | inr (reason, e) ↦ rw (e, generate_turn) h
  ]

  count-abort_running :
      (m : ℕ) (xs : List Active)
      → count (runs_sequence n) (map (abort_running m) xs) ≡ count (runs_sequence n) xs
  count-abort_running m [] = refl
  count-abort_running m (a ∷ xs) = ground (arith, count-abort_running m xs)

  count-abort_active :
      (xs : List Active)
      → count (runs_sequence n) (map abort_active xs) ≡ count (runs_sequence n) xs
  count-abort_active [] = refl
  count-abort_active (a ∷ xs) = ground (arith, count-abort_active xs)

  count-reject_queued :
      (xs : List QueuedWork) → count (settles n) (map reject_queued xs) ≡ count (has_sequence n) xs
  count-reject_queued [] = refl
  count-reject_queued (w ∷ xs) = ground (arith, count-reject_queued xs)

  abort_request-Accounted : (m : ℕ) (p : Provider) → Accounted n p → Accounted n (abort_request m p)
  unfolding abort_request
  abort_request-Accounted m p h = elim (Option-cases (take_first (has_sequence m) p.queue)) [
    | inl e ↦ rw (e, abort_request) (omega (arith, count-abort_running m p.active, h))
    | inr ((work, queue), e) ↦
        let (taken, mine) = take_first-Taken (has_sequence m) p.queue e in
        rw (e, abort_request)
          (notify_idle-Accounted _ (
            ground (
              arith,
              mine,
              Taken-count (has_sequence n) taken,
              count-append (settles n) p.settled ((m, rejected aborted) ∷ []),
            )))
  ]

  finish-Accounted :
      (m : ℕ) (how : Settlement) (p : Provider) → Accounted n p → Accounted n (finish m how p)
  unfolding finish
  finish-Accounted m how p h = elim (Option-cases (take_first (runs_sequence m) p.active)) [
    | inl e ↦ rw (e, finish) h
    | inr ((a, active), e) ↦
        let (taken, mine) = take_first-Taken (runs_sequence m) p.active e in
        rw (e, finish)
          (notify_idle-Accounted _ (
            pump-Accounted _ (
              ground (
                arith,
                mine,
                Taken-count (runs_sequence n) taken,
                count-append (settles n) p.settled ((m, how) ∷ []),
              ))))
  ]

  shutdown-Accounted : (p : Provider) → Accounted n p → Accounted n (shutdown p)
  unfolding shutdown
  shutdown-Accounted p h = ground (
    arith,
    count-append (settles n) p.settled (map reject_queued p.queue),
    count-reject_queued p.queue,
  )

  grace_expired-Accounted : (p : Provider) → Accounted n p → Accounted n (grace_expired p)
  unfolding grace_expired
  grace_expired-Accounted p h = ground (arith, count-abort_active p.active)

  step-Accounted : (p : Provider) (e : Event) → Accounted n p → Accounted n (step p e)
  unfolding step
  step-Accounted p (submits r) h = generate_turn-Accounted p r h
  step-Accounted p (aborts m) h = abort_request-Accounted m p h
  step-Accounted p (responds m) h = finish-Accounted m resolved p h
  step-Accounted p (fails m) h = finish-Accounted m failed p h
  step-Accounted p shuts_down h = shutdown-Accounted p h
  step-Accounted p expires h = grace_expired-Accounted p h

  run-keeps : (p : Provider) (es : List Event) → Accounted n p → Accounted n (run p es)
  unfolding run
  run-keeps p [] h = h
  run-keeps p (e ∷ es) h = run-keeps (step p e) es (step-Accounted p e h)

-- After any sequence of events, each sequence number that has been given out is at exactly one
-- place: in the queue, among the running turns, or in the list of settled promises. So no accepted
-- turn is lost, run twice or settled twice; a number not yet given out is nowhere.
pub run-Accounted : (c : Config) (n : ℕ) (es : List Event) → Accounted n (run (new_provider c) es)
run-Accounted c n es = run-keeps n (new_provider c) es (ground arith)
