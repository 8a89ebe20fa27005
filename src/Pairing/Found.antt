-- ===== src/Pairing/Found.antt =====
-- Finding a pairing again in the file that a redemption leaves: src/lib/pairing/pairing-store.ts.
use sandi.Prelude.{
  ℕ, ◌≤◌, ◌≡◌, refl, String, true, Option, some, [], ◌∷◌, filter, find, arith, inl, inr, eq_iff, ap,
  ◌∙◌,
}
use sandi.Pairing.Store.{ApiPairing, ApiPairings, success, PairingRedemption}
use sandi.Pairing.{
  is_live, has_digest, redeem, redeem_found, redeem_journal, redeem_status, Surroundings, returned,
  replace_pairing,
}
use sandi.Pairing.Count.{find-has_digest}
use sandi.Pairing.Rewrite.{with_journal}
use sandi.Pairing.Redeem.{is_completed, Final}

find-later :
    (digest : String) (now later : ℕ) (ps : ApiPairings) (pairing : ApiPairing)
    → now ≤ later
    → is_live later pairing ≡ true
    → find (has_digest digest) (filter (is_live now) ps) ≡ some pairing
    → find (has_digest digest) (filter (is_live later) ps) ≡ some pairing
find-later digest now later [] pairing order live found = ground arith
find-later digest now later (x ∷ ps) pairing order live found =
    ground (arith, find-later digest now later ps pairing)

find-live :
    (digest : String) (now later : ℕ) (ps : ApiPairings) (pairing : ApiPairing)
    → now ≤ later
    → is_live later pairing ≡ true
    → find (has_digest digest) (filter (is_live now) ps) ≡ some pairing
    → find (has_digest digest) (filter (is_live later) (filter (is_live now) ps)) ≡ some pairing
find-live digest now later [] pairing order live found = ground arith
find-live digest now later (x ∷ ps) pairing order live found =
    ground (arith, find-live digest now later ps pairing)

pub find-replace :
    (digest : String) (later : ℕ) (ps : ApiPairings) (pairing : ApiPairing)
    (journal : Option PairingRedemption)
    → is_live later pairing ≡ true
    → find (has_digest digest) ps ≡ some pairing
    → find
        (has_digest digest)
        (filter (is_live later) (replace_pairing ps pairing (with_journal pairing journal)))
      ≡ some (with_journal pairing journal)
find-replace digest later [] pairing journal live found = ground arith
find-replace digest later (x ∷ ps) pairing journal live found = ground (
  arith,
  find-replace digest later ps pairing journal,
  find-has_digest digest ps pairing,
  eq_iff x.code_sha256 digest,
  eq_iff x.code_sha256 pairing.code_sha256,
)

pub redeem-found :
    (hash : String → String) (code : String) (now : ℕ) (s : Surroundings) (pairings : ApiPairings)
    (pairing : ApiPairing)
    → find (has_digest (hash code)) (filter (is_live now) pairings) ≡ some pairing
    → redeem hash code now s pairings
      ≡ redeem_found s now pairings (filter (is_live now) pairings) (some pairing)
unfolding redeem
redeem-found hash code now s pairings pairing found =
    ap (redeem_found s now pairings (filter (is_live now) pairings)) found

-- The answer for a pairing whose redemption is completed.
pub found-completed :
    (s : Surroundings) (now : ℕ) (pairings live : ApiPairings) (pairing : ApiPairing)
    (given : PairingRedemption)
    → s.authorized ≡ true
    → s.prune_written ≡ true
    → pairing.redemption ≡ some given
    → is_completed given.status ≡ true
    → (redeem_found s now pairings live (some pairing)).0
      ≡ returned (success pairing.identity_id given)
unfolding redeem_found redeem_journal redeem_status
found-completed s now pairings live pairing given allowed writes journal finished = ground arith

-- Where the file of a success is searched later, it has a pairing with the given redemption.
pub Final-find :
    (digest : String) (now later : ℕ) (pairings : ApiPairings) (pairing : ApiPairing)
    (given : PairingRedemption) (file : ApiPairings)
    → now ≤ later
    → is_live later pairing ≡ true
    → find (has_digest digest) (filter (is_live now) pairings) ≡ some pairing
    → Final pairings (filter (is_live now) pairings) pairing given file
    → (kept : ApiPairing) × (find (has_digest digest) (filter (is_live later) file) ≡ some kept)
      × (kept.identity_id ≡ pairing.identity_id)
      × (kept.redemption ≡ some given)
Final-find digest now later pairings pairing given file order live found (inl e) = (
  with_journal pairing (some given),
  ap (λ f. find (has_digest digest) (filter (is_live later) f)) e
      ∙ find-replace digest later (filter (is_live now) pairings) pairing (some given) live found,
  refl,
  refl,
)
Final-find digest now later pairings pairing given file order live found (inr (journal, inl e)) = (
  pairing,
  ap (λ f. find (has_digest digest) (filter (is_live later) f)) e
      ∙ find-later digest now later pairings pairing order live found,
  refl,
  journal,
)
Final-find digest now later pairings pairing given file order live found (inr (journal, inr e)) = (
  pairing,
  ap (λ f. find (has_digest digest) (filter (is_live later) f)) e
      ∙ find-live digest now later pairings pairing order live found,
  refl,
  journal,
)
