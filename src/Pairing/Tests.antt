-- ===== src/Pairing/Tests.antt =====
-- Runs of the pairing store, and its theorems at concrete files. A code is its own digest.
use sandi.Prelude.{
  All, ℕ, ◌≡◌, ◌⊎◌, refl, String, Bool, true, false, none, some, List, [], ◌∷◌, arith, eq_iff, ◌≢◌,
  ◌==◌, sym, ap, ◌∙◌, find, filter,
}
use sandi.Pairing.Store.{
  ApiPairing, ApiPairings, PairingRedemption, completed, PreparedPairingRedemption, invalid,
  success,
}
use sandi.Pairing.{
  generate_unique_code, create_pairing, consume_loop, consume_pairing, identity_of, redeem,
  redeem_found, redeem_journal, redeem_status, redeem_fresh, persist_and_commit, after_failure,
  commit, Surroundings, returned, thrown, write_error, reserve,
}
use sandi.Pairing.Redeem.{reservation, IsSameCredential, is_completed}
use sandi.Pairing.Between.{Spares}
use sandi.Pairing.Retry.{redeem-success, redeem-again, redeem-retry, redeem-recovers}
use sandi.Pairing.Consume.{is_consumable, is_kept, consume_pairing-find}
use sandi.Pairing.Unique.{
  Action, create, consume, redeem_code, step, run, IsUnambiguous, run-IsUnambiguous,
}
use sandi.Pairing.SingleUse.{consume_pairing-once}

abbrev digest_of : String → String
digest_of code = code

abbrev pairing_of : String → String → ApiPairing
pairing_of code identity = record {
  code_sha256 = code;
  identity_id = identity;
  created_at_ms = 100;
  expires_at_ms = 600;
  redemption = none;
}

abbrev two : ApiPairings
two = pairing_of "AAAAA00001" "ada" ∷ pairing_of "BBBBB00002" "bob" ∷ []

abbrev credential : String → PreparedPairingRedemption
credential secret = record { token = secret; device_id = "d1"; label = "desktop" }

abbrev sound_call : String → Surroundings
sound_call secret = record {
  authorized = true;
  prepared = some (credential secret);
  persisted = true;
  found_persisted = none;
  prune_written = true;
  reserve_written = true;
  rollback_written = true;
  complete_written = true;
}

-- The write of the completed redemption fails.
abbrev crashed_call : String → Surroundings
crashed_call secret = record (sound_call secret) { complete_written = false }

abbrev redeemed : PairingRedemption
redeemed = record {
  token = "t1";
  device_id = "d1";
  label = "desktop";
  reserved_at_ms = 200;
  status = completed 200;
}

store : Unit {0}
unfolding run step create_pairing generate_unique_code consume_pairing consume_loop redeem
    redeem_found redeem_journal redeem_status redeem_fresh persist_and_commit after_failure commit
store = tt

draw_codes : ℕ → String
draw_codes k = "BBBBB00002"

test_create :
    create_pairing digest_of (λ k. "CCCCC00003") "ada" 200 500 two
    ≡ some (
      "CCCCC00003",
      pairing_of "BBBBB00002" "bob"
          ∷ (record (pairing_of "CCCCC00003" "ada") { created_at_ms = 200; expires_at_ms = 700 })
          ∷ [],
    )
unfolding store
test_create = refl

test_create_collides : create_pairing digest_of (λ k. "BBBBB00002") "ada" 200 500 two ≡ none
unfolding store
test_create_collides = refl

test_crash : (redeem digest_of "AAAAA00001" 200 (crashed_call "t1") two).0 ≡ thrown write_error
unfolding store
test_crash = refl

differ : {A : Type 0} → (a b : A) → (test : A → Bool) → test a ≡ true → test b ≡ false → a ≢ b
differ a b test holds fails e = ground (arith, sym holds ∙ ap test e ∙ fails)

two-IsUnambiguous : IsUnambiguous two
two-IsUnambiguous = (
  (λ digest. ground (
    arith,
    eq_iff "AAAAA00001" digest,
    eq_iff "BBBBB00002" digest,
    differ "AAAAA00001" "BBBBB00002" (λ c. c == "AAAAA00001") refl refl,
  )),
  (λ identity. ground (
    arith,
    eq_iff "ada" identity,
    eq_iff "bob" identity,
    differ "ada" "bob" (λ c. c == "ada") refl refl,
  )),
)

abbrev busy_day : List Action
busy_day =
    create (λ k. "CCCCC00003") "ada" 150 500
    ∷ consume "BBBBB00002" 160
    ∷ redeem_code "CCCCC00003" 200 (sound_call "t1")
    ∷ []

run-IsUnambiguous_example : IsUnambiguous (run digest_of busy_day two)
run-IsUnambiguous_example = run-IsUnambiguous digest_of busy_day two two-IsUnambiguous

consume_pairing-find_example : consume_pairing digest_of "BBBBB00002" 160 two ≡ (
  identity_of (find (is_consumable "BBBBB00002" 160) two),
  filter (is_kept "BBBBB00002" 160) two,
)
consume_pairing-find_example =
    consume_pairing-find digest_of "BBBBB00002" 160 two (two-IsUnambiguous.0 "BBBBB00002")

consume_pairing-once_example :
    let file =
      run digest_of
        (create (λ k. "CCCCC00003") "bob" 170 500 ∷ [])
        (consume_pairing digest_of "BBBBB00002" 160 two).1 in
    ((consume_pairing digest_of "BBBBB00002" 180 file).0 ≡ none)
    × (((redeem digest_of "BBBBB00002" 180 (sound_call "t1") file).0 ≡ returned invalid)
        ⊎ ((redeem digest_of "BBBBB00002" 180 (sound_call "t1") file).0 ≡ thrown write_error))
unfolding store
consume_pairing-once_example =
    consume_pairing-once digest_of "BBBBB00002" "bob" 160 180
      (create (λ k. "CCCCC00003") "bob" 170 500 ∷ []) (sound_call "t1") two two-IsUnambiguous
      ((λ k. refl), tt) refl

redeem-success_example :
    (true ≡ true)
    × ((pairing_of "AAAAA00001" "ada").identity_id ≡ (pairing_of "AAAAA00001" "ada").identity_id)
    × (is_completed redeemed.status ≡ true)
    × ((redemption : PairingRedemption) × (reservation (sound_call "t1") 200 none ≡ some redemption)
        × IsSameCredential redeemed redemption)
unfolding store
redeem-success_example =
    redeem-success digest_of "AAAAA00001" (pairing_of "AAAAA00001" "ada").identity_id 200
      (sound_call "t1") two (pairing_of "AAAAA00001" "ada") redeemed refl refl

-- Between two calls for the first code, another identity gets a code, and the second code is redeemed.
abbrev between : List Action
between =
    create (λ k. "CCCCC00003") "eve" 250 500
    ∷ redeem_code "BBBBB00002" 260 (sound_call "t3")
    ∷ consume "CCCCC00003" 270
    ∷ []

between-Spares : All (Spares digest_of "AAAAA00001" "ada" 300) between
between-Spares = ((omega arith, refl), ((omega arith, refl), (omega arith, tt)))

redeem-again_example :
    (redeem digest_of "AAAAA00001" 300
      (sound_call "t2")
      (run digest_of between (redeem digest_of "AAAAA00001" 200 (sound_call "t1") two).1)).0
    ≡ returned (success "ada" redeemed)
unfolding store
redeem-again_example =
    redeem-again digest_of "AAAAA00001" (pairing_of "AAAAA00001" "ada").identity_id 200
      (sound_call "t1") two (pairing_of "AAAAA00001" "ada") redeemed 300 (sound_call "t2") between
      refl refl (omega arith) refl between-Spares refl refl

redeem-retry_example :
    ((pairing_of "AAAAA00001" "ada").identity_id ≡ (pairing_of "AAAAA00001" "ada").identity_id)
    × (redeemed.token ≡ (credential "t1").token)
    × (redeemed.device_id ≡ (credential "t1").device_id)
    × (redeemed.label ≡ (credential "t1").label)
unfolding store
redeem-retry_example =
    redeem-retry digest_of "AAAAA00001" 200 300 (crashed_call "t1") two
      (pairing_of "AAAAA00001" "ada") (credential "t1") between refl refl refl refl refl refl refl
      between-Spares (sound_call "t2") (pairing_of "AAAAA00001" "ada").identity_id
      (record redeemed { status = completed 300 }) refl

redeem-recovers_example :
    (given : PairingRedemption) × ((redeem digest_of "AAAAA00001" 300
        (sound_call "t2")
        (run digest_of between (redeem digest_of "AAAAA00001" 200 (crashed_call "t1") two).1)).0
      ≡ returned (success "ada" given))
    × IsSameCredential given (reserve 200 (credential "t1"))
unfolding store
redeem-recovers_example =
    redeem-recovers digest_of "AAAAA00001" 200 300 (crashed_call "t1") two
      (pairing_of "AAAAA00001" "ada") (credential "t1") between refl refl refl refl refl refl refl
      between-Spares (sound_call "t2") refl refl refl refl
