-- ===== src/Pairing/Store.antt =====
-- The data of the pairing store: src/lib/pairing/pairing-store.ts.
-- Times are milliseconds. A digest is a text, which the schema holds to 64 hexadecimal digits.
use sandi.Prelude.{ℕ, String, Bool, Option, List, leb}

pub data RedemptionStatus : Type 0 where
  reserved : RedemptionStatus
  completed : ℕ → RedemptionStatus

pub record PairingRedemption : Type 0 where
  pub token : String
  pub device_id : String
  pub label : String
  pub reserved_at_ms : ℕ
  pub status : RedemptionStatus

pub record ApiPairing : Type 0 where
  pub code_sha256 : String
  pub identity_id : String
  pub created_at_ms : ℕ
  pub expires_at_ms : ℕ
  pub redemption : Option PairingRedemption

-- The `pairings` of the stored file.
abbrev pub ApiPairings : Type 0
ApiPairings = List ApiPairing

pub record PreparedPairingRedemption : Type 0 where
  pub token : String
  pub device_id : String
  pub label : String

pub data PairingRedemptionResult : Type 0 where
  invalid : PairingRedemptionResult
  rejected : String → PairingRedemptionResult
  success : String → PairingRedemption → PairingRedemptionResult

abbrev pub is_expired : ℕ → ApiPairing → Bool
is_expired now pairing = leb pairing.expires_at_ms now
