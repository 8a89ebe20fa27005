-- ===== src/Prelude/Dict.antt =====
-- A JavaScript object or `Map` whose keys are texts, as an association list in insertion order.
use Prim.Native.String.{String}
use mathlib.Core.Path.{◌≡◌, refl, ◌∙◌}
use mathlib.Core.List.{List, [], ◌∷◌}
use mathlib.Core.Option.{Option, none, some}
use native.Mathlib.Omega.{arith}
use text.Mathlib.Text.{◌==◌}
use text.Mathlib.TextEquality.{eq_iff}
use mathlib.Core.Logic.{inl, inr}
use sandi.Prelude.Tests.{if◌then◌else◌, Bool-cases}
use sandi.Prelude.Lists.{All}

abbrev pub Dict {ℓ} : Type ℓ → Type ℓ
Dict V = List (String × V)

module _ {ℓ} {V : Type ℓ} where
  -- `object[key]`
  unfoldable pub lookup : String → Dict V → Option V
  lookup key [] = none
  lookup key (entry ∷ more) =
      let later = lookup key more in if entry.0 == key then some entry.1 else later

  -- `{ ...object, [key]: value }`: a present key keeps its place, a new one goes to the end.
  unfoldable pub insert : String → V → Dict V → Dict V
  insert key value [] = (key, value) ∷ []
  insert key value (entry ∷ more) =
      let later = entry ∷ insert key value more in
      if entry.0 == key then (key, value) ∷ more else later

  -- `delete object[key]`
  unfoldable pub erase : String → Dict V → Dict V
  erase key [] = []
  erase key (entry ∷ more) =
      let later = erase key more in if entry.0 == key then later else entry ∷ later

  -- `Object.values(object)`
  unfoldable pub values : Dict V → List V
  values [] = []
  values (entry ∷ more) = entry.1 ∷ values more

  -- `Object.keys(object)`
  unfoldable pub keys : Dict V → List String
  keys [] = []
  keys (entry ∷ more) = entry.0 ∷ keys more

  pub lookup-erase :
      (gone key : String) (object : Dict V)
      → lookup key (erase gone object) ≡ (if gone == key then none else lookup key object)
  unfolding lookup erase
  lookup-erase gone key [] = ground arith
  lookup-erase gone key (entry ∷ more) =
      ground (
        arith,
        lookup-erase gone key more,
        eq_iff entry.0 key,
        eq_iff entry.0 gone,
        eq_iff gone key,
      )

  pub lookup-insert :
      (new key : String) (value : V) (object : Dict V)
      → lookup key (insert new value object)
        ≡ (if new == key then some value else lookup key object)
  unfolding lookup insert
  lookup-insert new key value [] = refl
  lookup-insert new key value (entry ∷ more) = ground (
    arith,
    lookup-insert new key value more,
    eq_iff entry.0 key,
    eq_iff entry.0 new,
    eq_iff new key,
  )

-- The object is keyed by a property of its values, and no key stands twice.
module _ {V : Type 0} (key_of : V → String) where
  abbrev pub Keyed : Dict V → Type 0
  Keyed [] = Unit
  Keyed ((k, v) ∷ more) = (key_of v ≡ k) × (lookup k more ≡ none) × Keyed more

  pub insert-Keyed :
      (k : String) (v : V) (object : Dict V)
      → key_of v ≡ k
      → Keyed object
      → Keyed (insert k v object)
  unfolding insert lookup
  insert-Keyed k v [] e h = (e, refl, tt)
  insert-Keyed k v ((j, w) ∷ more) e h = elim (Bool-cases (j == k)) [
    | inl same ↦ rw same (ground (arith, eq_iff j k))
    | inr other ↦ rw other (
      h.0,
      lookup-insert k j v more ∙ ground (arith, eq_iff j k, eq_iff k j),
      insert-Keyed k v more e h.2,
    )
  ]

  lookup_later :
      (k : String) (w : V) (more : Dict V) (vs : List V)
      → lookup k more ≡ none
      → All (λ v. lookup (key_of v) more ≡ some v) vs
      → All (λ v. lookup (key_of v) ((k, w) ∷ more) ≡ some v) vs
  unfolding lookup
  lookup_later k w more [] e h = tt
  lookup_later k w more (v ∷ vs) e h =
      (ground (arith, eq_iff k (key_of v)), lookup_later k w more vs e h.1)

  lookup_here :
      (k : String) (v : V) (more : Dict V)
      → key_of v ≡ k
      → lookup (key_of v) ((k, v) ∷ more) ≡ some v
  unfolding lookup
  lookup_here k v more e = ground (arith, eq_iff k (key_of v))

  -- Each value of such an object is found under its key.
  pub lookup-values :
      (object : Dict V)
      → Keyed object
      → All (λ v. lookup (key_of v) object ≡ some v) (values object)
  unfolding values
  lookup-values [] h = tt
  lookup-values ((k, v) ∷ more) h =
      (lookup_here k v more h.0, lookup_later k v more (values more) h.1 (lookup-values more h.2))

  pub lookup-Keyed :
      (k : String) (object : Dict V) {v : V}
      → Keyed object
      → lookup k object ≡ some v
      → key_of v ≡ k
  unfolding lookup
  lookup-Keyed k [] h e = cc
  lookup-Keyed k ((j, w) ∷ more) {v} h e = elim (Bool-cases (j == k)) [
    | inl same ↦ ground (arith, eq_iff j k)
    | inr other ↦ lookup-Keyed k more h.2 (ground arith)
  ]
