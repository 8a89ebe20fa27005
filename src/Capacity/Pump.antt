-- ===== src/Capacity/Pump.antt =====
-- The loop of `pump`: a rule for what every start keeps, and that it stops only where its condition
-- fails.
use sandi.Prelude.{
  ℕ, zero, suc, ◌≤◌, ◌≡◌, refl, sym, subst, ap, ◌∙◌, inl, inr, true, false, some, List, [], ◌∷◌,
  arith, length, Taken, Taken-length, Bool-cases,
}
use sandi.Capacity.Work.{QueuedWork, Provider}
use sandi.Capacity.{take_next, after_taking, started, start, can_start, pump_loop, pump}
use sandi.Capacity.Choice.{take_next-Oldest}

-- A state that may start a turn, and the one with it started.
pub record Starts (p q : Provider) : Type 0 where
  pub work : QueuedWork
  pub rest : List QueuedWork
  pub may : can_start p ≡ true
  pub taken : Taken p.queue work rest
  pub becomes : q ≡ started work (after_taking p work rest)

can_start-queue :
    (p : Provider) (queue : List QueuedWork)
    → p.queue ≡ queue
    → can_start p ≡ true
    → (w : QueuedWork) × (works : List QueuedWork) × (p.queue ≡ w ∷ works)
unfolding can_start
can_start-queue p [] e may = ground arith
can_start-queue p (w ∷ works) e may = (w, works, e)

-- Where the condition holds, a round starts a turn.
can_start-Starts :
    (p : Provider)
    → can_start p ≡ true
    → (q : Provider) × (start (take_next p) ≡ some q) × Starts p q
can_start-Starts p may =
    let (w, works, e) = can_start-queue p p.queue refl may in
    let (chosen, rest, took, taken, _) = take_next-Oldest p w works e in
    (
      started chosen (after_taking p chosen rest),
      ap start took,
      record { work = chosen; rest = rest; may = may; taken = taken; becomes = refl },
    )

pump_loop-start :
    (fuel : ℕ) (p : Provider) {q : Provider}
    → can_start p ≡ true
    → start (take_next p) ≡ some q
    → pump_loop (suc fuel) p ≡ pump_loop fuel q
unfolding pump_loop
pump_loop-start fuel p may e = rw (may, pump_loop) (rw (e, pump_loop))

pump_loop-stop : (fuel : ℕ) (p : Provider) → can_start p ≡ false → pump_loop fuel p ≡ p
unfolding pump_loop
pump_loop-stop zero p stop = refl
pump_loop-stop (suc fuel) p stop = rw (stop, pump_loop)

module _ (P : Provider → Type 0) (keeps : (p q : Provider) → Starts p q → P p → P q) where
  pump_loop-keeps : (fuel : ℕ) (p : Provider) → P p → P (pump_loop fuel p)
  unfolding pump_loop
  pump_loop-keeps zero p h = h
  pump_loop-keeps (suc fuel) p h = elim (Bool-cases (can_start p)) [
    | inl may ↦
        let (q, e, starts) = can_start-Starts p may in
        subst P (sym (pump_loop-start fuel p may e)) (pump_loop-keeps fuel q (keeps p q starts h))
    | inr stop ↦ subst P (sym (pump_loop-stop (suc fuel) p stop)) h
  ]

  -- What every start keeps, `pump` keeps.
  pub pump-keeps : (p : Provider) → P p → P (pump p)
  unfolding pump
  pump-keeps p h = pump_loop-keeps (length p.queue) p h

Starts-length : {p q : Provider} → Starts p q → length p.queue ≡ suc (length q.queue)
Starts-length s = rw s.becomes (Taken-length s.taken)

pump_loop-stops :
    (fuel : ℕ) (p : Provider) → length p.queue ≤ fuel → can_start (pump_loop fuel p) ≡ false
unfolding pump_loop can_start
pump_loop-stops zero p h = ground arith
pump_loop-stops (suc fuel) p h = elim (Bool-cases (can_start p)) [
  | inl may ↦
      let (q, e, starts) = can_start-Starts p may in
      ap can_start (pump_loop-start fuel p may e)
      ∙ pump_loop-stops fuel q (omega (arith, Starts-length starts))
  | inr stop ↦ ap can_start (pump_loop-stop (suc fuel) p stop) ∙ stop
]

-- The loop ends by its condition, never by its fuel.
pub pump-stops : (p : Provider) → can_start (pump p) ≡ false
unfolding pump
pump-stops p = pump_loop-stops (length p.queue) p (omega arith)
