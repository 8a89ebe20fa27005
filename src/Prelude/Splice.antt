-- ===== src/Prelude/Splice.antt =====
-- Taking one item out of a list, by index or by a test.
use Prim.Native.Nat.{ℕ, zero, suc, ◌+◌}
use mathlib.Core.Path.{◌≡◌, refl, ap, ◌∙◌}
use mathlib.Core.Logic.{inl, inr}
use mathlib.Core.Bool.{Bool, true, false}
use mathlib.Core.List.{List, [], ◌∷◌, ◌++◌}
use mathlib.Core.Option.{Option, none, some}
use native.Mathlib.Omega.{arith}
use sandi.Prelude.Tests.{if◌then◌else◌, Option-cases, Bool-cases}
use sandi.Prelude.Lists.{length, length-append, count, count-append, any}

module _ {ℓ} {A : Type ℓ} where
  abbrev keep_before : A → Option (A × List A) → Option (A × List A)
  keep_before x none = none
  keep_before x (some (a, rest)) = some (a, x ∷ rest)

  -- `xs.splice(i, 1)`: the item taken, and the list without it.
  unfoldable pub take_at : ℕ → List A → Option (A × List A)
  take_at i [] = none
  take_at zero (x ∷ xs) = some (x, xs)
  take_at (suc i) (x ∷ xs) = keep_before x (take_at i xs)

  -- The same at `xs.findIndex(p)`, and nothing where no item fits.
  unfoldable pub take_first : (A → Bool) → List A → Option (A × List A)
  take_first p [] = none
  take_first p (x ∷ xs) =
      let later = keep_before x (take_first p xs) in if p x then some (x, xs) else later

  -- What is taken is at one place of the list, and the rest keeps its order.
  pub record Taken (xs : List A) (a : A) (rest : List A) : Type ℓ where
    pub front : List A
    pub back : List A
    pub whole : xs ≡ front ++ a ∷ back
    pub remains : rest ≡ front ++ back

  keep_before-eq-some :
      (x : A) (o : Option (A × List A)) {a : A} {rest : List A}
      → keep_before x o ≡ some (a, rest)
      → (left : List A) × (o ≡ some (a, left)) × (rest ≡ x ∷ left)
  keep_before-eq-some x none e = cc
  keep_before-eq-some x (some (b, left)) e = (left, ground arith, ground arith)

  Taken-cons :
      (x : A) {xs left : List A} {a : A} {rest : List A}
      → Taken xs a left
      → rest ≡ x ∷ left
      → Taken (x ∷ xs) a rest
  Taken-cons x t e = record {
    front = x ∷ t.front;
    back = t.back;
    whole = ap (◌∷◌ x) t.whole;
    remains = e ∙ ap (◌∷◌ x) t.remains;
  }

  pub take_at-Taken :
      (i : ℕ) (xs : List A) {a : A} {rest : List A}
      → take_at i xs ≡ some (a, rest)
      → Taken xs a rest
  unfolding take_at
  take_at-Taken i [] e = cc
  take_at-Taken zero (x ∷ xs) e = record {
    front = [];
    back = xs;
    whole = ground arith;
    remains = ground arith;
  }
  take_at-Taken (suc i) (x ∷ xs) e =
      let (left, found, same) = keep_before-eq-some x (take_at i xs) e in
      Taken-cons x (take_at-Taken i xs found) same

  pub take_first-Taken :
      (p : A → Bool) (xs : List A) {a : A} {rest : List A}
      → take_first p xs ≡ some (a, rest)
      → Taken xs a rest × (p a ≡ true)
  unfolding take_first
  take_first-Taken p [] e = cc
  take_first-Taken p (x ∷ xs) {a} {rest} e = elim (Bool-cases (p x)) [
    | inl hit ↦ (
      record { front = []; back = xs; whole = ground arith; remains = ground arith },
      ground arith,
    )
    | inr miss ↦
        let later : keep_before x (take_first p xs) ≡ some (a, rest) = ground arith in
        let (left, found, same) = keep_before-eq-some x (take_first p xs) later in
        let (taken, fits) = take_first-Taken p xs found in (Taken-cons x taken same, fits)
  ]

  -- Nothing is taken exactly where no item fits.
  pub take_first-none : (p : A → Bool) (xs : List A) → take_first p xs ≡ none → any p xs ≡ false
  unfolding take_first
  take_first-none p [] e = refl
  take_first-none p (x ∷ xs) e = elim (Option-cases (take_first p xs)) [
    | inl missing ↦ ground (arith, take_first-none p xs missing)
    | inr (_, found) ↦ ground arith
  ]

  pub Taken-count :
      (p : A → Bool) {xs : List A} {a : A} {rest : List A}
      → Taken xs a rest
      → count p xs ≡ (if p a then 1 else 0) + count p rest
  Taken-count p {a} t =
      rw (t.whole, t.remains)
        (ground (arith, count-append p t.front (a ∷ t.back), count-append p t.front t.back))

  pub Taken-length :
      {xs : List A} {a : A} {rest : List A} → Taken xs a rest → length xs ≡ suc (length rest)
  Taken-length {a} t =
      rw (t.whole, t.remains)
        (omega (arith, length-append t.front (a ∷ t.back), length-append t.front t.back))

  pub take_at-front :
      (front : List A) (a : A) (back : List A)
      → take_at (length front) (front ++ a ∷ back) ≡ some (a, front ++ back)
  unfolding take_at
  take_at-front [] a back = refl
  take_at-front (x ∷ front) a back = rw (take_at-front front a back)

  pub take_at-append :
      (i : ℕ) (xs ys : List A) {a : A} {rest : List A}
      → take_at i xs ≡ some (a, rest)
      → take_at i (xs ++ ys) ≡ some (a, rest ++ ys)
  unfolding take_at
  take_at-append i [] ys e = cc
  take_at-append zero (x ∷ xs) ys e = ground arith
  take_at-append (suc i) (x ∷ xs) ys e =
      let (left, found, same) = keep_before-eq-some x (take_at i xs) e in
      rw (same) (ap (keep_before x) (take_at-append i xs ys found))

  -- The last item is taken from a list that has one.
  pub take_at-last :
      (x : A) (xs : List A)
      → (a : A) × (rest : List A) × (take_at (length xs) (x ∷ xs) ≡ some (a, rest))
  unfolding take_at
  take_at-last x [] = (x, [], refl)
  take_at-last x (y ∷ ys) =
      let (a, rest, e) = take_at-last y ys in (a, x ∷ rest, ap (keep_before x) e)
