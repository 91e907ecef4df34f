-- ===== src/Examples/Authority.antt =====
-- The theorems on the proof of authority at two validators.
use klingnet.Prelude.{
  ◌==◌, if◌then◌else◌, ℕ, ◌+◌, ◌-◌, ◌<◌, ◌≤◌, ◌≡◌, refl, ◌↔◌, ◌⊎◌, inl, true, false, List, [], ◌∷◌,
  Option, none, some, ok, err, length, bytes_eq, arith,
}
use klingnet.Crypto.{verify_signature}
use klingnet.Block.{Header}
use klingnet.Consensus.Poa.{
  Key, Poa, expected_diff, identify_signer, verify_header, prepare, signing_limit,
}
use klingnet.Consensus.Poa.Accept.{prepare-verify_header}
use klingnet.Consensus.Poa.Suspension.{
  IsWithin, effective_set, is_suspended, effective_set-IsWithin, is_suspended_all,
}
use klingnet.Chain.Signing.{
  Stored, signed_header, check_signing_limit, is_signing_limit_reached, signing_limit_exceeded,
  is_signing_limit_reached_iff, check_signing_limit_iff,
}
use klingnet.Examples.{toy}

abbrev five : Key
five = 5 ∷ []

abbrev six : Key
six = 6 ∷ []

abbrev engine : Poa
engine = record {
  validators = five ∷ six ∷ [];
  genesis_validators = five ∷ [];
  block_time = 3;
  signer = some five;
  stake_checker = none;
  last_produced = [];
  current_height = 500;
}

abbrev unsigned : Header
unsigned = record {
  version = 1;
  prev_hash = 0;
  merkle_root = 0;
  timestamp = 1;
  height = 2;
  difficulty = 7;
  nonce = 0;
  validator_sig = [];
}

abbrev prepared : Header
prepared = record unsigned { difficulty = 2 }

abbrev signed : Header
signed = record prepared { validator_sig = 9 ∷ [] }

is_prepared : prepare engine unsigned ≡ ok prepared
unfolding prepare expected_diff klingnet.Consensus.Poa.is_key
    klingnet.Consensus.Poa.slot_validator_from_set
is_prepared = refl

signed_by_five : identify_signer engine signed ≡ some five
unfolding identify_signer klingnet.Consensus.Poa.find_signer verify_signature
signed_by_five = refl

prepare-verify_header_example : verify_header engine signed ≡ ok tt
prepare-verify_header_example =
    prepare-verify_header engine unsigned prepared five (9 ∷ []) refl (inl refl) is_prepared
      signed_by_five

effective_set-IsWithin_example :
    IsWithin (effective_set engine) engine.validators × (0 < length (effective_set engine))
effective_set-IsWithin_example = effective_set-IsWithin engine (omega arith)

is_suspended_all_example :
    (effective_set engine ≡ five ∷ six ∷ [])
    × (is_suspended engine five ≡ true)
    × (is_suspended engine six ≡ true)
unfolding klingnet.Consensus.Poa.Suspension.is_recent klingnet.Prelude.Assoc.lookup
is_suspended_all_example = is_suspended_all engine five six refl (omega arith) refl refl

-- Block 1 was signed, block 0 was not.
abbrev stored : Stored
stored h = if h == 0 then some unsigned else some signed

no_signer_at_genesis : signed_header engine five (stored 0) ≡ false
unfolding signed_header identify_signer
no_signer_at_genesis = refl

is_signing_limit_reached_iff_example :
    (is_signing_limit_reached engine stored 1 five ≡ true)
    ↔ (check_signing_limit engine stored signed ≡ err signing_limit_exceeded)
is_signing_limit_reached_iff_example =
    is_signing_limit_reached_iff engine stored five 1 signed signed_by_five refl
      no_signer_at_genesis

limit_is_two : 0 < signing_limit engine
unfolding signing_limit
limit_is_two = omega arith

check_signing_limit_iff_example : (check_signing_limit engine stored signed ≡ ok tt) ↔ (
    (j : ℕ)
    → 1 ≤ j
    → j < 1 + (signing_limit engine - 1)
    → j ≤ 2
    → signed_header engine five (stored (2 - j)) ≡ false)
check_signing_limit_iff_example =
    check_signing_limit_iff engine stored five signed limit_is_two signed_by_five
