-- ===== src/Chain/Engines.antt =====
-- internal/chain/chain.go (verifyDifficulty) and processor.go (checkSigningLimit): the engines of
-- proof of work and of proof of authority, as the chain asks them about a header.
use klingnet.Prelude.{
  ℕ, ◌-◌, Bool, true, false, Option, none, some, ltb, if◌then◌else◌, Result, ok, err,
}
use klingnet.Crypto.{Crypto}
use klingnet.Block.{Header}
use klingnet.Consensus.Pow
use klingnet.Consensus.Poa
use klingnet.Chain.Signing.{check_signing_limit}
use klingnet.Chain.Reorg.{Engine}

unfoldable pub succeeds {ℓ} : {E : Type 0} {A : Type ℓ} → Result E A → Bool
succeeds (ok a) = true
succeeds (err e) = false

-- a panic of the engine counts as a refusal
unfoldable pub succeeds_without_panic {ℓ} : {E : Type 0} {A : Type ℓ} → Option (Result E A) → Bool
succeeds_without_panic none = false
succeeds_without_panic (some r) = succeeds r

-- getBlockTimestamp
unfoldable pub timestamp_of : Option Header → Option ℕ
timestamp_of none = none
timestamp_of (some h) = some h.timestamp

-- verifyDifficulty from the previous block on, whose header is an error where it is missing
unfoldable pub verify_from : Pow.Pow → (ℕ → Option Header) → Header → Option Header → Bool
verify_from p stored h none = false
verify_from p stored h (some prev) =
    succeeds_without_panic
      (Pow.verify_difficulty p h prev.difficulty (λ height. timestamp_of (stored height)))

-- verifyDifficulty with a proof-of-work engine
unfoldable pub verify_pow_difficulty : Pow.Pow → (ℕ → Option Header) → Header → Bool
verify_pow_difficulty p stored h =
    if ltb 1 h.height
    then verify_from p stored h (stored (h.height - 1))
    else succeeds_without_panic
        (Pow.verify_difficulty p h 0 (λ height. timestamp_of (stored height)))

module _ ⦃c : Crypto⦄ where
  -- the chain with a proof-of-work engine has no signing limit
  abbrev pub pow_engine : Pow.Pow → Engine
  pow_engine p = record {
    verify_header = λ h. succeeds (Pow.verify_header h);
    verify_difficulty = λ stored h. verify_pow_difficulty p stored h;
    check_signing_limit = λ stored h. true;
  }

  -- the chain with a proof-of-authority engine does not verify the difficulty
  abbrev pub poa_engine : Poa.Poa → Engine
  poa_engine p = record {
    verify_header = λ h. succeeds (Poa.verify_header p h);
    verify_difficulty = λ stored h. true;
    check_signing_limit = λ stored h. succeeds (check_signing_limit p stored h);
  }
