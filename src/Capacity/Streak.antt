-- ===== src/Capacity/Streak.antt =====
-- Which queued turn comes next after the turns that were taken before: `#takeNext` of
-- src/lib/provider/capacity-controller.ts.
use sandi.Prelude.{
  ℕ, ◌+◌, ◌≤◌, ◌<◌, ◌≡◌, refl, sym, ap, subst, ◌∙◌, ◌⊎◌, inl, inr, true, false, some, List, [], ◌∷◌,
  if◌then◌else◌, any, All, Taken, take_first, arith, Option-cases,
}
use sandi.Capacity.Work.{
  Config, Request, QueuedWork, Provider, Settlement, resolved, failed, new_provider,
  non_interactive, is_interactive, priority_of,
}
use sandi.Capacity.{
  yields_turn, take_next, after_taking, pump, notify_idle, has_sequence, runs_sequence, enqueue,
  refusal, generate_turn, abort_request, finish, shutdown, grace_expired, Event, submits, aborts,
  responds, fails, shuts_down, expires, step, run,
}
use sandi.Capacity.Pump.{pump-keeps}
use sandi.Capacity.Choice.{FollowsTests, take_next-FollowsTests}

-- How many of the turns, the latest first, are interactive ones without another in between.
abbrev pub in_a_row : List QueuedWork → ℕ
in_a_row [] = 0
in_a_row (w ∷ taken) = if is_interactive w.kind then in_a_row taken + 1 else 0

-- The counter is right.
abbrev InRow : Provider → Type 0
InRow p = p.interactive_streak ≡ in_a_row p.passed_on

pump-InRow : (p : Provider) → InRow p → InRow (pump p)
pump-InRow = pump-keeps InRow λ p q starts h.
    subst InRow (sym starts.becomes)
      (ap (λ n. if is_interactive starts.work.kind then n + 1 else 0) h)

notify_idle-InRow : (p : Provider) → InRow p → InRow (notify_idle p)
unfolding notify_idle
notify_idle-InRow p h = ground (arith, h)

generate_turn-InRow : (p : Provider) (r : Request) → InRow p → InRow (generate_turn p r).0
unfolding generate_turn
generate_turn-InRow p r h = elim (Option-cases (refusal p r)) [
  | inl e ↦ rw (e, generate_turn) (pump-InRow (enqueue p r) h)
  | inr (reason, e) ↦ rw (e, generate_turn) h
]

abort_request-InRow : (n : ℕ) (p : Provider) → InRow p → InRow (abort_request n p)
unfolding abort_request
abort_request-InRow n p h = elim (Option-cases (take_first (has_sequence n) p.queue)) [
  | inl e ↦ rw (e, abort_request) h
  | inr (taken, e) ↦ rw (e, abort_request) (notify_idle-InRow _ h)
]

finish-InRow : (n : ℕ) (how : Settlement) (p : Provider) → InRow p → InRow (finish n how p)
unfolding finish
finish-InRow n how p h = elim (Option-cases (take_first (runs_sequence n) p.active)) [
  | inl e ↦ rw (e, finish) h
  | inr (taken, e) ↦ rw (e, finish) (notify_idle-InRow _ (pump-InRow _ h))
]

step-InRow : (p : Provider) (e : Event) → InRow p → InRow (step p e)
unfolding step shutdown grace_expired
step-InRow p (submits r) h = generate_turn-InRow p r h
step-InRow p (aborts n) h = abort_request-InRow n p h
step-InRow p (responds n) h = finish-InRow n resolved p h
step-InRow p (fails n) h = finish-InRow n failed p h
step-InRow p shuts_down h = ground (arith, h)
step-InRow p expires h = ground (arith, h)

run-InRow : (p : Provider) (events : List Event) → InRow p → InRow (run p events)
unfolding run
run-InRow p [] h = h
run-InRow p (e ∷ events) h = run-InRow (step p e) events (step-InRow p e h)

-- The rule for the next turn: after four interactive turns in a row, with a turn of another kind queued, the
-- oldest turn of another kind; otherwise the oldest of the most urgent kind.
abbrev pub FollowsRule : List QueuedWork → List QueuedWork → QueuedWork → Type 0
FollowsRule taken queue chosen =
    ((4 ≤ in_a_row taken)
      × (any non_interactive queue ≡ true)
      × (non_interactive chosen ≡ true)
      × All (λ v. non_interactive v ≡ true → chosen.sequence ≤ v.sequence) queue)
    ⊎ (((in_a_row taken < 4) ⊎ (any non_interactive queue ≡ false))
        × All
            (λ v.
              (priority_of chosen.kind ≤ priority_of v.kind)
              × (priority_of v.kind ≡ priority_of chosen.kind → chosen.sequence ≤ v.sequence))
            queue)

yields-true :
    (p : Provider)
    → yields_turn p ≡ true
    → (4 ≤ p.interactive_streak) × (any non_interactive p.queue ≡ true)
unfolding yields_turn
yields-true p e = (ground (arith, e), ground (arith, e))

yields-false :
    (p : Provider)
    → yields_turn p ≡ false
    → (p.interactive_streak < 4) ⊎ (any non_interactive p.queue ≡ false)
unfolding yields_turn
yields-false p e = ground (arith, e)

FollowsTests-FollowsRule :
    (taken : List QueuedWork) (p : Provider) (chosen : QueuedWork)
    → p.interactive_streak ≡ in_a_row taken
    → FollowsTests p chosen
    → FollowsRule taken p.queue chosen
FollowsTests-FollowsRule taken p chosen streak (inl (yields, other, oldest)) =
    let (four, queued) = yields-true p yields in
    inl (subst (λ n. 4 ≤ n) streak four, queued, other, oldest)
FollowsTests-FollowsRule taken p chosen streak (inr (keeps, urgent)) = inr (
  subst (λ n. (n < 4) ⊎ (any non_interactive p.queue ≡ false)) streak (yields-false p keeps),
  urgent,
)

-- While anything is queued, `takeNext` takes one turn out of the queue and keeps the order of the others, and
-- changes nothing else but its counter. If the last four turns or more that were passed on to the provider
-- behind were interactive ones in a row, and a turn of another kind is queued, that is the oldest turn of
-- another kind; otherwise no queued turn has a more urgent kind, and none of the same kind is older. It holds
-- in each state with the counter and the turns passed on of a state that a sequence of events reaches,
-- whatever is queued and runs.
pub take_next-FollowsRule :
    (config : Config) (events : List Event) (p : Provider) (w : QueuedWork)
    (works : List QueuedWork)
    → p.interactive_streak ≡ (run (new_provider config) events).interactive_streak
    → p.passed_on ≡ (run (new_provider config) events).passed_on
    → p.queue ≡ w ∷ works
    → (chosen : QueuedWork) × (rest : List QueuedWork) × (q : Provider) × (take_next p
        ≡ some (chosen, q))
      × (q ≡ record p { queue = rest; interactive_streak = q.interactive_streak })
      × Taken p.queue chosen rest
      × FollowsRule p.passed_on p.queue chosen
take_next-FollowsRule config events p w works streak passed e =
    let (chosen, rest, next, at, follows) = take_next-FollowsTests p w works e in
    (
      chosen,
      rest,
      after_taking p chosen rest,
      next,
      refl,
      at,
      FollowsTests-FollowsRule p.passed_on p chosen
          (streak ∙ run-InRow (new_provider config) events refl ∙ ap in_a_row (sym passed)) follows,
    )
