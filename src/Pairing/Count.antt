-- ===== src/Pairing/Count.antt =====
-- What the operations do to the number of pairings of a kind (src/lib/pairing/pairing-store.ts): none
-- raises it, but for the new pairing of `create_pairing`.
use sandi.Prelude.{
  ℕ, zero, suc, ◌+◌, ◌≤◌, ◌≡◌, refl, String, Bool, false, not, Option, some, List, [], ◌∷◌, ◌++◌,
  any, filter, find, count, count-append, arith, inl, inr, Bool-cases, eq_iff,
}
use sandi.Pairing.Store.{ApiPairing, ApiPairings}
use sandi.Pairing.{has_digest, generate_unique_code, consume_loop, replace_pairing}

module _ {A : Type 0} where
  pub count-filter_le : (p q : A → Bool) (xs : List A) → count p (filter q xs) ≤ count p xs
  count-filter_le p q [] = omega arith
  count-filter_le p q (x ∷ xs) = ground (arith, count-filter_le p q xs)

  pub count-filter-not : (p : A → Bool) (xs : List A) → count p (filter (λ x. not (p x)) xs) ≡ 0
  count-filter-not p [] = refl
  count-filter-not p (x ∷ xs) = ground (arith, count-filter-not p xs)

-- A generated code has no live pairing.
pub generate-any :
    (hash : String → String) (draw : ℕ → String) (live : ApiPairings) (attempts attempt : ℕ)
    {code : String}
    → generate_unique_code hash draw live attempts attempt ≡ some code
    → any (has_digest (hash code)) live ≡ false
unfolding generate_unique_code
generate-any hash draw live zero attempt e = ground arith
generate-any hash draw live (suc attempts) attempt {code} e =
    elim (Bool-cases (any (has_digest (hash (draw attempt))) live)) [
      | inl f ↦ generate-any hash draw live attempts (attempt + 1) (ground arith)
      | inr f ↦ ground arith
    ]

pub count-consume_loop :
    (p : ApiPairing → Bool) (digest : String) (now : ℕ) (consumed : Option ApiPairing)
    (kept ps : ApiPairings)
    → count p (consume_loop digest now consumed kept ps).1 ≤ count p kept + count p ps
unfolding consume_loop
count-consume_loop p digest now consumed kept [] = omega arith
count-consume_loop p digest now consumed kept (x ∷ ps) = ground (
  arith,
  count-append p kept (x ∷ []),
  count-consume_loop p digest now consumed kept ps,
  count-consume_loop p digest now consumed (kept ++ x ∷ []) ps,
  count-consume_loop p digest now (some x) kept ps,
)

-- What `find` gives has the digest.
pub find-has_digest :
    (digest : String) (ps : ApiPairings) (found : ApiPairing)
    → find (has_digest digest) ps ≡ some found
    → found.code_sha256 ≡ digest
find-has_digest digest [] found e = ground arith
find-has_digest digest (x ∷ ps) found e =
    ground (arith, find-has_digest digest ps found, eq_iff x.code_sha256 digest)

replace-count_zero :
    (digest : String) (ps : ApiPairings) (current replacement : ApiPairing)
    → current.code_sha256 ≡ digest
    → count (has_digest digest) ps ≡ 0
    → replace_pairing ps current replacement ≡ ps
replace-count_zero digest [] current replacement e none_left = refl
replace-count_zero digest (x ∷ ps) current replacement e none_left =
    ground (arith, replace-count_zero digest ps current replacement, eq_iff x.code_sha256 digest)

-- Where one pairing has the digest, a replacement changes that pairing only.
-- A replacement that agrees on `p` with the pairing that a digest finds keeps the count, where no
-- other pairing has the digest.
pub count-replace :
    (p : ApiPairing → Bool) (digest : String) (ps : ApiPairings) (current replacement : ApiPairing)
    → find (has_digest digest) ps ≡ some current
    → count (has_digest digest) ps ≤ 1
    → p replacement ≡ p current
    → count p (replace_pairing ps current replacement) ≡ count p ps
count-replace p digest [] current replacement found once same = refl
count-replace p digest (x ∷ ps) current replacement found once same = ground (
  arith,
  eq_iff x.code_sha256 digest,
  eq_iff x.code_sha256 current.code_sha256,
  replace-count_zero digest ps current replacement,
  find-has_digest digest ps current,
  count-replace p digest ps current replacement,
)
