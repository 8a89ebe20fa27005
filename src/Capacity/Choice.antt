-- ===== src/Capacity/Choice.antt =====
-- Which queued turn `takeNext` picks.
use sandi.Prelude.{
  ℕ, ◌+◌, ◌≤◌, ◌≡◌, refl, sym, ap, ◌∙◌, subst, ◌⊎◌, inl, inr, min, Bool, true, false, ◌&&◌, Option,
  none, some, List, [], ◌∷◌, ◌++◌, arith, length, length-append, any, All, All-append, take_at,
  Taken, take_at-Taken, take_at-front, take_at-append, ltb, Bool-cases,
}
use mathlib.Core.List.{append_assoc, append-nil}
use sandi.Capacity.Work.{
  QueuedWork, Provider, oldest_loop, oldest_index, better, non_interactive, priority_of,
  min_priority, least_of, has_priority,
}
use sandi.Capacity.{yields_turn, eligible, splice_chosen, take_next, after_taking, with_taken}

module _ (fits : QueuedWork → Bool) where
  -- What the loop knows of the items that it has passed.
  abbrev Best : List QueuedWork → Option (ℕ × ℕ) → Type 0
  Best passed none = All (λ v. fits v ≡ false) passed
  Best passed (some (i, s)) =
      (w : QueuedWork) × (rest : List QueuedWork) × (take_at i passed ≡ some (w, rest))
      × (fits w ≡ true)
      × (w.sequence ≡ s)
      × All (λ v. fits v ≡ true → s ≤ v.sequence) passed

  All-absurd :
      (n : ℕ) (passed : List QueuedWork)
      → All (λ v. fits v ≡ false) passed
      → All (λ v. fits v ≡ true → n ≤ v.sequence) passed
  All-absurd n [] h = tt
  All-absurd n (v ∷ passed) h = ((λ e. cc), All-absurd n passed h.1)

  All-lower :
      {m n : ℕ} (passed : List QueuedWork)
      → m ≤ n
      → All (λ v. fits v ≡ true → n ≤ v.sequence) passed
      → All (λ v. fits v ≡ true → m ≤ v.sequence) passed
  All-lower [] l h = tt
  All-lower (v ∷ passed) l h = ((λ e. omega (arith, h.0 e)), All-lower passed l h.1)

  Best-better :
      (passed : List QueuedWork) (w : QueuedWork) (c : Option (ℕ × ℕ))
      → Best passed c
      → Best (passed ++ w ∷ []) (better fits (length passed) w c)
  Best-better passed w none h = elim (Bool-cases (fits w)) [
    | inl yea ↦ rw yea (
      w,
      passed ++ [],
      take_at-front passed w [],
      yea,
      refl,
      All-append (λ v. fits v ≡ true → w.sequence ≤ v.sequence) passed (w ∷ [])
          ((λ _. omega arith), tt) (All-absurd w.sequence passed h),
    )
    | inr nay ↦ rw nay (All-append (λ v. fits v ≡ false) passed (w ∷ []) (nay, tt) h)
  ]
  Best-better passed w (some (i, s)) (best, rest, at, good, same, least) =
      elim (Bool-cases (fits w && ltb w.sequence s)) [
        | inl yea ↦ rw yea (
          w,
          passed ++ [],
          take_at-front passed w [],
          ground arith,
          refl,
          All-append (λ v. fits v ≡ true → w.sequence ≤ v.sequence) passed (w ∷ [])
              ((λ _. omega arith), tt) (All-lower passed (ground arith) least),
        )
        | inr nay ↦ rw nay (
          best,
          rest ++ w ∷ [],
          take_at-append i passed (w ∷ []) at,
          good,
          same,
          All-append (λ v. fits v ≡ true → s ≤ v.sequence) passed (w ∷ []) ((λ f. ground arith), tt)
              least,
        )
      ]

  oldest_loop-Best :
      (passed works : List QueuedWork) (i : ℕ) (c : Option (ℕ × ℕ))
      → i ≡ length passed
      → Best passed c
      → Best (passed ++ works) (oldest_loop fits i c works)
  unfolding oldest_loop
  oldest_loop-Best passed [] i c e h = subst (λ q. Best q c) (sym (append-nil passed)) h
  oldest_loop-Best passed (w ∷ works) i c e h =
      subst (λ q. Best q (oldest_loop fits (i + 1) (better fits i w c) works))
        (append_assoc passed (w ∷ []) works)
        (oldest_loop-Best (passed ++ w ∷ []) works (i + 1) (better fits i w c)
          (omega (arith, length-append passed (w ∷ [])))
          (subst (λ k. Best (passed ++ w ∷ []) (better fits k w c)) (sym e)
            (Best-better passed w c h)))

  oldest_index-Best : (queue : List QueuedWork) → Best queue (oldest_index fits queue)
  unfolding oldest_index
  oldest_index-Best queue = oldest_loop-Best [] queue 0 none refl tt

  -- Some item fits exactly if the loop found one.
  Best-ne-none : (queue : List QueuedWork) → Best queue none → any fits queue ≡ false
  Best-ne-none [] h = refl
  Best-ne-none (v ∷ queue) h = ground (arith, Best-ne-none queue h.1)

least_of-some : (n : ℕ) (o : Option ℕ) → (m : ℕ) × (least_of n o ≡ some m)
least_of-some n none = (n, refl)
least_of-some n (some l) = (min n l, refl)

least_of-le :
    (n : ℕ) (o : Option ℕ) {m : ℕ}
    → least_of n o ≡ some m
    → (m ≤ n) × ((l : ℕ) → o ≡ some l → m ≤ l) × ((m ≡ n) ⊎ (o ≡ some m))
least_of-le n none e = (ground arith, (λ l f. cc), ground arith)
least_of-le n (some l) e = (ground arith, (λ k f. ground arith), ground arith)

All-priority-lower :
    {m n : ℕ} (queue : List QueuedWork)
    → m ≤ n
    → All (λ v. n ≤ priority_of v.kind) queue
    → All (λ v. m ≤ priority_of v.kind) queue
All-priority-lower [] l h = tt
All-priority-lower (v ∷ queue) l h = (omega arith, All-priority-lower queue l h.1)

-- `Math.min` is below every priority, and is one of them.
min_priority-least :
    (queue : List QueuedWork) (m : ℕ)
    → min_priority queue ≡ some m
    → All (λ v. m ≤ priority_of v.kind) queue
min_priority-least [] m e = tt
min_priority-least (v ∷ []) m e = (ground arith, tt)
min_priority-least (v ∷ w ∷ queue) m e =
    let (l, f) = least_of-some (priority_of w.kind) (min_priority queue) in
    let (le_head, le_tail, _) = least_of-le (priority_of v.kind) (min_priority (w ∷ queue)) e in
    (le_head, All-priority-lower (w ∷ queue) (le_tail l f) (min_priority-least (w ∷ queue) l f))

min_priority-reached :
    (queue : List QueuedWork) (m : ℕ)
    → min_priority queue ≡ some m
    → any (has_priority (some m)) queue ≡ true
min_priority-reached [] m e = cc
min_priority-reached (v ∷ queue) m e =
    elim ((least_of-le (priority_of v.kind) (min_priority queue) e).2) [
      | inl here ↦ ground arith
      | inr there ↦ ground (arith, min_priority-reached queue m there)
    ]

any-eligible :
    (p : Provider) (w : QueuedWork) (works : List QueuedWork)
    → p.queue ≡ w ∷ works
    → any (eligible p) p.queue ≡ true
unfolding eligible
any-eligible p w works e = elim (Bool-cases (yields_turn p)) [
  | inl yea ↦ rw (yea, eligible) (ground arith)
  | inr nay ↦
      let (m, least) = least_of-some (priority_of w.kind) (min_priority works) in
      let least' : min_priority p.queue ≡ some m = ap min_priority e ∙ least in
      rw (nay, least') (min_priority-reached p.queue m least')
]

abbrev Oldest : Provider → QueuedWork → Type 0
Oldest p w =
    (eligible p w ≡ true) × All (λ v. eligible p v ≡ true → w.sequence ≤ v.sequence) p.queue

splice_chosen-Oldest :
    (p : Provider) (c : Option (ℕ × ℕ))
    → Best (eligible p) p.queue c
    → any (eligible p) p.queue ≡ true
    → (w : QueuedWork) × (rest : List QueuedWork) × (splice_chosen c p.queue ≡ some (w, rest))
      × Taken p.queue w rest
      × (eligible p w ≡ true)
      × All (λ v. eligible p v ≡ true → w.sequence ≤ v.sequence) p.queue
splice_chosen-Oldest p none h some_fits = cc (Best-ne-none (eligible p) p.queue h, some_fits)
splice_chosen-Oldest p (some (i, s)) (w, rest, at, good, same, least) some_fits = (
  w,
  rest,
  at,
  take_at-Taken i p.queue at,
  good,
  subst (λ t. All (λ v. eligible p v ≡ true → t ≤ v.sequence) p.queue) (sym same) least,
)

-- While anything is queued, `takeNext` takes the oldest of the eligible turns.
pub take_next-Oldest :
    (p : Provider) (w : QueuedWork) (works : List QueuedWork)
    → p.queue ≡ w ∷ works
    → (chosen : QueuedWork) × (rest : List QueuedWork) × (take_next p
        ≡ some (chosen, after_taking p chosen rest))
      × Taken p.queue chosen rest
      × Oldest p chosen
unfolding take_next
take_next-Oldest p w works e =
    let (chosen, rest, spliced, taken, good, least) =
      splice_chosen-Oldest p (oldest_index (eligible p) p.queue)
        (oldest_index-Best (eligible p) p.queue) (any-eligible p w works e) in
    (chosen, rest, ap (with_taken p) spliced, taken, (good, least))

-- What the class's test of the streak chooses.
abbrev pub FollowsTests : Provider → QueuedWork → Type 0
FollowsTests p chosen =
    ((yields_turn p ≡ true)
      × (non_interactive chosen ≡ true)
      × All (λ v. non_interactive v ≡ true → chosen.sequence ≤ v.sequence) p.queue)
    ⊎ ((yields_turn p ≡ false)
        × All
            (λ v.
              (priority_of chosen.kind ≤ priority_of v.kind)
              × (priority_of v.kind ≡ priority_of chosen.kind → chosen.sequence ≤ v.sequence))
            p.queue)

Oldest-priority :
    (m : ℕ) (chosen : QueuedWork) (queue : List QueuedWork)
    → has_priority (some m) chosen ≡ true
    → All (λ v. m ≤ priority_of v.kind) queue
    → All (λ v. has_priority (some m) v ≡ true → chosen.sequence ≤ v.sequence) queue
    → All
        (λ v.
          (priority_of chosen.kind ≤ priority_of v.kind)
          × (priority_of v.kind ≡ priority_of chosen.kind → chosen.sequence ≤ v.sequence))
        queue
Oldest-priority m chosen [] good least oldest = tt
Oldest-priority m chosen (v ∷ queue) good least oldest = (
  (ground arith, λ e. oldest.0 (ground arith)),
  Oldest-priority m chosen queue good least.1 oldest.1,
)

eligible-yields : (p : Provider) → yields_turn p ≡ true → eligible p ≡ non_interactive
unfolding eligible
eligible-yields p yea = rw (yea, eligible)

eligible-priority :
    (p : Provider) {m : ℕ}
    → yields_turn p ≡ false
    → min_priority p.queue ≡ some m
    → eligible p ≡ has_priority (some m)
unfolding eligible
eligible-priority p nay least = rw (nay, least)

abbrev OldestOf : (QueuedWork → Bool) → List QueuedWork → QueuedWork → Type 0
OldestOf fits queue w = (fits w ≡ true) × All (λ v. fits v ≡ true → w.sequence ≤ v.sequence) queue

Oldest-FollowsTests :
    (p : Provider) (w chosen : QueuedWork) (works : List QueuedWork)
    → p.queue ≡ w ∷ works
    → Oldest p chosen
    → FollowsTests p chosen
Oldest-FollowsTests p w chosen works e oldest = elim (Bool-cases (yields_turn p)) [
  | inl yea ↦
      let (other, first) = subst (λ f. OldestOf f p.queue chosen) (eligible-yields p yea) oldest in
      inl (yea, other, first)
  | inr nay ↦
      let (m, least) = least_of-some (priority_of w.kind) (min_priority works) in
      let least' : min_priority p.queue ≡ some m = ap min_priority e ∙ least in
      let (good, first) =
        subst (λ f. OldestOf f p.queue chosen) (eligible-priority p nay least') oldest in
      inr (nay, Oldest-priority m chosen p.queue good (min_priority-least p.queue m least') first)
]

pub take_next-FollowsTests :
    (p : Provider) (w : QueuedWork) (works : List QueuedWork)
    → p.queue ≡ w ∷ works
    → (chosen : QueuedWork) × (rest : List QueuedWork) × (take_next p
        ≡ some (chosen, after_taking p chosen rest))
      × Taken p.queue chosen rest
      × FollowsTests p chosen
take_next-FollowsTests p w works e =
    let (chosen, rest, took, taken, oldest) = take_next-Oldest p w works e in
    (chosen, rest, took, taken, Oldest-FollowsTests p w chosen works e oldest)
