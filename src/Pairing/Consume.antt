-- ===== src/Pairing/Consume.antt =====
-- What consuming a code gives and keeps: src/lib/pairing/pairing-store.ts, `consumePairing`.
use sandi.Prelude.{
  ℕ, ◌≤◌, ◌≡◌, refl, String, Bool, true, false, not, ◌&&◌, Option, none, some, [], ◌∷◌, ◌++◌,
  filter, find, count, arith, ap, sym, subst, ◌∙◌,
}
use sandi.Pairing.Store.{ApiPairing, ApiPairings, PairingRedemption}
use sandi.Pairing.Count.{count-filter_le}
use sandi.Pairing.{is_live, has_digest, consume_loop, consume_pairing, identity_of}

abbrev is_unredeemed : Option PairingRedemption → Bool
is_unredeemed none = true
is_unredeemed (some redemption) = false

-- A live pairing without a redemption that has the digest.
abbrev pub is_consumable : String → ℕ → ApiPairing → Bool
is_consumable digest now pairing =
    is_live now pairing && is_unredeemed pairing.redemption && has_digest digest pairing

abbrev pub is_kept : String → ℕ → ApiPairing → Bool
is_kept digest now pairing = is_live now pairing && not (is_consumable digest now pairing)

pub append-snoc :
    (xs : ApiPairings) (x : ApiPairing) (ys : ApiPairings) → (xs ++ x ∷ []) ++ ys ≡ xs ++ x ∷ ys
append-snoc [] x ys = refl
append-snoc (y ∷ xs) x ys = ap (λ zs. y ∷ zs) (append-snoc xs x ys)

pub append_nil : (xs : ApiPairings) → xs ++ [] ≡ xs
append_nil [] = refl
append_nil (x ∷ xs) = ap (λ zs. x ∷ zs) (append_nil xs)

consume_loop-rest :
    (digest : String) (now : ℕ) (consumed : Option ApiPairing) (kept ps : ApiPairings)
    → count (has_digest digest) ps ≡ 0
    → consume_loop digest now consumed kept ps ≡ (consumed, kept ++ filter (is_kept digest now) ps)
unfolding consume_loop
consume_loop-rest digest now consumed kept [] none_left =
    ap (λ xs. (consumed, xs)) (sym (append_nil kept))
consume_loop-rest digest now consumed kept (x ∷ ps) none_left = ground (
  arith,
  append-snoc kept x (filter (is_kept digest now) ps),
  consume_loop-rest digest now consumed kept ps,
  consume_loop-rest digest now consumed (kept ++ x ∷ []) ps,
)

consume_loop-find :
    (digest : String) (now : ℕ) (kept ps : ApiPairings)
    → count (has_digest digest) ps ≤ 1
    → consume_loop digest now none kept ps
      ≡ (find (is_consumable digest now) ps, kept ++ filter (is_kept digest now) ps)
unfolding consume_loop
consume_loop-find digest now kept [] once = ap (λ xs. (none, xs)) (sym (append_nil kept))
consume_loop-find digest now kept (x ∷ ps) once = ground (
  arith,
  append-snoc kept x (filter (is_kept digest now) ps),
  consume_loop-rest digest now (some x) kept ps,
  consume_loop-find digest now kept ps,
  consume_loop-find digest now (kept ++ x ∷ []) ps,
)

-- Where at most one pairing has the code's digest, consuming the code gives the identity of the first
-- pairing that is live, not redeemed and has the digest, and none if there is no such pairing, and the
-- file keeps, in their order, exactly the other live pairings.
pub consume_pairing-find :
    (hash : String → String) (code : String) (now : ℕ) (pairings : ApiPairings)
    → count (has_digest (hash code)) pairings ≤ 1
    → consume_pairing hash code now pairings ≡ (
      identity_of (find (is_consumable (hash code) now) pairings),
      filter (is_kept (hash code) now) pairings,
    )
unfolding consume_pairing
consume_pairing-find hash code now pairings once =
    ap (λ r. (identity_of r.0, r.1)) (consume_loop-find (hash code) now [] pairings once)

find-is_consumable :
    (digest : String) (now : ℕ) (pairings : ApiPairings)
    → count (has_digest digest) pairings ≡ 0
    → find (is_consumable digest now) pairings ≡ none
find-is_consumable digest now [] none_left = refl
find-is_consumable digest now (x ∷ pairings) none_left =
    ground (arith, find-is_consumable digest now pairings)

count-is_kept :
    (digest : String) (now : ℕ) (pairings : ApiPairings) (identity : String)
    → count (has_digest digest) pairings ≤ 1
    → identity_of (find (is_consumable digest now) pairings) ≡ some identity
    → count (has_digest digest) (filter (is_kept digest now) pairings) ≡ 0
count-is_kept digest now [] identity once found = refl
count-is_kept digest now (x ∷ pairings) identity once found = ground (
  arith,
  count-is_kept digest now pairings identity,
  find-is_consumable digest now pairings,
  count-filter_le (has_digest digest) (is_kept digest now) pairings,
)

-- A consumed code is gone.
pub count-consumed :
    (hash : String → String) (code : String) (now : ℕ) (pairings : ApiPairings) (identity : String)
    → count (has_digest (hash code)) pairings ≤ 1
    → (consume_pairing hash code now pairings).0 ≡ some identity
    → count (has_digest (hash code)) (consume_pairing hash code now pairings).1 ≡ 0
count-consumed hash code now pairings identity once taken =
    let e = consume_pairing-find hash code now pairings once in
    subst (λ r. count (has_digest (hash code)) r.1 ≡ 0) (sym e)
      (count-is_kept (hash code) now pairings identity once (ap (λ r. r.0) (sym e) ∙ taken))

-- A code with no pairing is not consumed.
pub consume-count_zero :
    (hash : String → String) (code : String) (now : ℕ) (pairings : ApiPairings)
    → count (has_digest (hash code)) pairings ≡ 0
    → (consume_pairing hash code now pairings).0 ≡ none
consume-count_zero hash code now pairings none_left =
    let e = consume_pairing-find hash code now pairings (omega (arith, none_left)) in
    ap (λ r. r.0) e ∙ ap identity_of (find-is_consumable (hash code) now pairings none_left)
