-- ===== src/SubChain.antt =====
-- internal/subchain: registration.go, validate.go and consensus_validator.go. Registry is in
-- Registry and anchor.go in Anchor.
pub mod Registry
pub mod Anchor
pub mod Limit
use klingnet.Prelude.{
  ℕ, ◌+◌, ◌-◌, Bool, true, false, not, ◌&&◌, ◌||◌, List, [], ◌∷◌, ◌++◌, Option, none, some, length,
  ltb, leb, ◌==◌, if◌then◌else◌, bytes_equal, max_u64, Result, ok, err, ◌>>=◌, ◌>>◌, reject_if,
}
use klingnet.Prelude.Int.{ℤ, pos, negsuc}
use klingnet.Bytes.{be_bytes}
use klingnet.Types.{Hash, script_type_register}
use klingnet.Crypto.{Crypto, hash}
use klingnet.Tx.{Output}

pub data SubChainError : Type 0 where
  not_registration disabled low_deposit bad_json too_many_registrations : SubChainError
  registration_overflow bad_name bad_symbol no_validators bad_validator : SubChainError
  pow_not_allowed no_difficulty bad_adjust unknown_consensus bad_block_time : SubChainError
  no_block_reward no_max_supply low_max_supply no_min_fee_rate : SubChainError

-- RegistrationData; a string is its bytes
pub record RegistrationData : Type 0 where
  pub name : List ℕ
  pub symbol : List ℕ
  pub consensus_type : List ℕ
  pub block_time : ℤ
  pub block_reward : ℕ
  pub max_supply : ℕ
  pub min_fee_rate : ℕ
  pub validators : List (List ℕ)
  pub initial_difficulty : ℕ
  pub difficulty_adjust : ℤ
  pub validator_stake : ℕ

-- config.SubChainRules, the fields that a registration is checked against
pub record SubChainRules : Type 0 where
  pub enabled : Bool
  pub max_per_parent : ℤ
  pub min_deposit : ℕ
  pub allow_pow : Bool

-- "poa" and "pow"
abbrev pub consensus_poa : List ℕ
consensus_poa = 112 ∷ 111 ∷ 97 ∷ []

abbrev pub consensus_pow : List ℕ
consensus_pow = 112 ∷ 111 ∷ 119 ∷ []

abbrev pub is_between : ℕ → ℕ → ℕ → Bool
is_between low high x = leb low x && leb x high

abbrev pub is_upper_or_digit : ℕ → Bool
is_upper_or_digit x = is_between 65 90 x || is_between 48 57 x

abbrev pub is_name_char : ℕ → Bool
is_name_char x = is_upper_or_digit x || (is_between 97 122 x || (x == 32 || x == 45))

unfoldable pub all_chars : (ℕ → Bool) → List ℕ → Bool
all_chars p [] = true
all_chars p (x ∷ xs) = p x && all_chars p xs

-- namePattern and symbolPattern
abbrev pub matches_name : List ℕ → Bool
matches_name s = is_between 1 64 (length s) && all_chars is_name_char s

abbrev pub matches_symbol : List ℕ → Bool
matches_symbol s = is_between 2 10 (length s) && all_chars is_upper_or_digit s

-- hex.DecodeString gives 33 bytes
abbrev pub is_hex_digit : ℕ → Bool
is_hex_digit x = is_between 48 57 x || (is_between 97 102 x || is_between 65 70 x)

abbrev pub is_hex_pub_key : List ℕ → Bool
is_hex_pub_key s = length s == 66 && all_chars is_hex_digit s

unfoldable pub check_validators : List (List ℕ) → Result SubChainError (Unit {0})
check_validators [] = ok tt
check_validators (v ∷ vs) = if is_hex_pub_key v then check_validators vs else err bad_validator

-- negative, or from 1 to 9
unfoldable pub is_bad_adjust : ℤ → Bool
is_bad_adjust (negsuc n) = true
is_bad_adjust (pos n) = is_between 1 9 n

unfoldable pub is_below_one : ℤ → Bool
is_below_one (negsuc n) = true
is_below_one (pos n) = n == 0

-- the switch on the consensus type
unfoldable pub check_consensus : RegistrationData → SubChainRules → Result SubChainError (Unit {0})
check_consensus d rules =
    if bytes_equal d.consensus_type consensus_poa
    then (reject_if (length d.validators == 0) no_validators >> check_validators d.validators)
    else if bytes_equal d.consensus_type consensus_pow
    then (do
      reject_if (not rules.allow_pow) pow_not_allowed
      reject_if (d.initial_difficulty == 0) no_difficulty
      reject_if (is_bad_adjust d.difficulty_adjust) bad_adjust)
    else err unknown_consensus

-- ValidateRegistrationData
unfoldable pub validate_registration_data :
    RegistrationData → SubChainRules → Result SubChainError (Unit {0})
validate_registration_data d rules = do
  reject_if (not (matches_name d.name)) bad_name
  reject_if (not (matches_symbol d.symbol)) bad_symbol
  check_consensus d rules
  reject_if (is_below_one d.block_time) bad_block_time
  reject_if (d.block_reward == 0) no_block_reward
  reject_if (d.max_supply == 0) no_max_supply
  reject_if (ltb d.max_supply d.block_reward) low_max_supply
  reject_if (d.min_fee_rate == 0) no_min_fee_rate

-- encoding/json on a RegistrationData: ParseRegistrationData, with `none` as its error
abbrev pub Parser : Type 0
Parser = List ℕ → Option RegistrationData

unfoldable pub validate_parsed :
    Option RegistrationData → SubChainRules → Result SubChainError (Unit {0})
validate_parsed none rules = err bad_json
validate_parsed (some d) rules = validate_registration_data d rules

-- the limit on the registrations per parent, which holds where it is positive
unfoldable pub check_limit : ℤ → ℕ → ℕ → Result SubChainError (Unit {0})
check_limit (negsuc n) existing pending = ok tt
check_limit (pos n) existing pending =
    if n == 0
    then ok tt
    else if ltb (max_u64 - pending) existing
    then err registration_overflow
    else if leb n (existing + pending)
    then err too_many_registrations
    else ok tt

-- ValidateRegistrationTx
unfoldable pub validate_registration_tx :
    Parser → SubChainRules → Output → ℕ → ℕ → Result SubChainError (Unit {0})
validate_registration_tx parse rules o existing pending = do
  reject_if (not (o.script.type == script_type_register)) not_registration
  reject_if (not rules.enabled) disabled
  reject_if (ltb o.value rules.min_deposit) low_deposit
  validate_parsed (parse o.script.bytes) rules
  check_limit rules.max_per_parent existing pending

unfoldable pub is_ok : Result SubChainError (Unit {0}) → Bool
is_ok (ok u) = true
is_ok (err e) = false

-- NewRegistrationValidator, the hook that a Chain calls
unfoldable pub registration_validator : Parser → SubChainRules → Output → ℕ → ℕ → Bool
registration_validator parse rules o existing pending =
    is_ok (validate_registration_tx parse rules o existing pending)

module _ ⦃c : Crypto⦄ where
  -- DeriveChainID
  unfoldable pub derive_chain_id : Hash → ℕ → Hash
  derive_chain_id tx_hash output_index = hash (be_bytes 32 tx_hash ++ be_bytes 4 output_index)
