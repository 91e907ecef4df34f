-- ===== src/Consensus/Poa.antt =====
-- internal/consensus/poa.go: proof of authority. The suspension of validators stands in Suspension.
pub mod Suspension
pub mod Accept
use klingnet.Prelude.{
  ℕ, zero, suc, ◌+◌, ◌-◌, ◌*◌, ◌/◌, ◌%◌, Bool, true, false, not, ◌&&◌, ◌||◌, List, [], ◌∷◌, Option,
  none, some, length, get_elem?, ltb, leb, ◌==◌, if◌then◌else◌, Result, ok, err, ◌>>◌, contains,
  bytes_eq, bytes_equal, take, ◌++◌, ◌^◌,
}
use klingnet.Prelude.Assoc.{Assoc, insert}
use klingnet.Prelude.Int.{sub_u64}
use klingnet.Bytes.{le_bytes, be_bytes}
use klingnet.Crypto.{Crypto, hash, verify_signature}
use klingnet.Types.{Hash}
use klingnet.Block.{Header, header_hash}

-- a compressed public key
abbrev pub Key : Type 0
Key = List ℕ

abbrev pub diff_in_turn : ℕ
diff_in_turn = 2

abbrev pub diff_no_turn : ℕ
diff_no_turn = 1

pub data PoaError : Type 0 where
  no_validators not_validator missing_sig invalid_sig insufficient_stake : PoaError
  bad_difficulty invalid_block_time stake_check_failed no_signer : PoaError

-- The engine: `signer` is the public key of the local signer, the hex keys of `last_produced` are
-- the keys that they spell, and `none` of a stake checker is its error.
pub record Poa : Type 0 where
  pub validators : List Key
  pub genesis_validators : List Key
  pub block_time : ℕ
  pub signer : Option Key
  pub stake_checker : Option (Key → Option Bool)
  pub last_produced : Assoc Key ℕ
  pub current_height : ℕ

-- bytes.Compare(a, b) < 0
unfoldable pub bytes_less : Key → Key → Bool
bytes_less [] [] = false
bytes_less [] (y ∷ ys) = true
bytes_less (x ∷ xs) [] = false
bytes_less (x ∷ xs) (y ∷ ys) = if ltb x y then true else if ltb y x then false else bytes_less xs ys

unfoldable pub insert_key : Key → List Key → List Key
insert_key k [] = k ∷ []
insert_key k (v ∷ vs) =
    let rest = insert_key k vs in if bytes_less v k then v ∷ rest else k ∷ v ∷ vs

-- sortValidators
unfoldable pub sort_validators : List Key → List Key
unfolding insert_key
sort_validators [] = []
sort_validators (v ∷ vs) = insert_key v (sort_validators vs)

-- NewPoA, for a block time that is not negative
unfoldable pub new_poa : List Key → ℕ → Result PoaError Poa
new_poa validators block_time =
    if length validators == 0
    then err no_validators
    else if block_time == 0
    then err invalid_block_time
    else ok (record {
      validators = sort_validators validators;
      genesis_validators = sort_validators validators;
      block_time = block_time;
      signer = none;
      stake_checker = none;
      last_produced = [];
      current_height = 0;
    })

-- IsValidator
abbrev pub is_validator : Poa → Key → Bool
is_validator p pub_key = contains pub_key p.validators

-- isGenesisValidatorFromSet
abbrev pub is_genesis_validator : List Key → Key → Bool
is_genesis_validator genesis pub_key = contains pub_key genesis

-- SetSigner, with the public key of the signer's key
unfoldable pub set_signer : Poa → Key → Result PoaError Poa
set_signer p key =
    if not (is_validator p key) then err not_validator else ok (record p { signer = some key })

-- slotValidatorFromSet; `none` is nil
unfoldable pub slot_validator_from_set : List Key → ℕ → ℕ → Option Key
slot_validator_from_set [] timestamp block_time = none
slot_validator_from_set (v ∷ []) timestamp block_time = some v
slot_validator_from_set (v ∷ w ∷ vs) timestamp block_time =
    get_elem? (v ∷ w ∷ vs) (timestamp / block_time % length (v ∷ w ∷ vs))

-- bytes.Equal with a key that may be nil, which equals the empty key only
unfoldable pub is_key : Key → Option Key → Bool
is_key k none = bytes_equal k []
is_key k (some v) = bytes_equal k v

-- the difficulty of a signer at a timestamp
unfoldable pub expected_diff : Poa → Key → ℕ → ℕ
expected_diff p key timestamp =
    if is_key key (slot_validator_from_set p.validators timestamp p.block_time)
    then diff_in_turn
    else diff_no_turn

unfoldable pub stake_result : Option Bool → Result PoaError (Unit {0})
stake_result none = err stake_check_failed
stake_result (some true) = ok tt
stake_result (some false) = err insufficient_stake

-- the check of the stake of a validator that is not of the genesis
unfoldable pub check_stake :
    Option (Key → Option Bool) → List Key → Key → Result PoaError (Unit {0})
check_stake none genesis key = ok tt
check_stake (some has_stake) genesis key =
    if is_genesis_validator genesis key then ok tt else stake_result (has_stake key)

-- Prepare: the difficulty that it sets
unfoldable pub prepare : Poa → Header → Result PoaError Header
prepare p h = elim p.signer [
  | none ↦ err no_signer
  | some key ↦ ok (record h { difficulty = expected_diff p key h.timestamp })
]

-- AddValidator
unfoldable pub add_validator : Poa → Key → Poa
add_validator p key = if is_validator p key then p else record p {
  validators = sort_validators (p.validators ++ key ∷ []);
  last_produced = insert key p.current_height p.last_produced;
}

-- the loop of RemoveValidator, which takes out the first occurrence
unfoldable pub remove_first : Key → List Key → List Key
remove_first key [] = []
remove_first key (v ∷ vs) =
    let rest = remove_first key vs in if bytes_equal v key then vs else v ∷ rest

-- RemoveValidator
unfoldable pub remove_validator : Poa → Key → Poa
remove_validator p key =
    if is_genesis_validator p.genesis_validators key
    then p
    else record p { validators = remove_first key p.validators }

-- SetStakeChecker
unfoldable pub set_stake_checker : Poa → Option (Key → Option Bool) → Poa
set_stake_checker p checker = record p { stake_checker = checker }

-- SlotValidator
unfoldable pub slot_validator : Poa → ℕ → Option Key
slot_validator p timestamp = slot_validator_from_set p.validators timestamp p.block_time

-- SigningLimit
unfoldable pub signing_limit : Poa → ℕ
signing_limit p = let n = length p.validators in if leb n 1 then 0 else n / 2 + 1

-- IsInTurn
unfoldable pub is_in_turn : Poa → ℕ → Bool
is_in_turn p timestamp = elim p.signer [
  | none ↦ false
  | some key ↦ is_key key (slot_validator_from_set p.validators timestamp p.block_time)
]

-- the loop that looks for the signer's index
unfoldable pub index_of : Key → List Key → Option ℕ
index_of key [] = none
index_of key (v ∷ vs) =
    if bytes_equal v key
    then some 0
    else elim (index_of key vs) [ none ↦ none | some i ↦ some (suc i) ]

-- the milliseconds that a signer at an index waits, of `n` validators
unfoldable pub delay_at : ℕ → ℕ → ℕ → Option ℕ → ℕ
delay_at n block_time timestamp none = 0
delay_at n block_time timestamp (some i) =
    let slot = timestamp / block_time % n in
    ((i + 2 ^ 64 - slot + n) % 2 ^ 64 % n) * block_time * 500 % 2 ^ 64

-- BackupDelay, in milliseconds
unfoldable pub backup_delay : Poa → ℕ → ℕ
backup_delay p timestamp = elim p.signer [
  | none ↦ 0
  | some key ↦
      if leb (length p.validators) 1
      then 0
      else delay_at (length p.validators) p.block_time timestamp (index_of key p.validators)
]

module _ ⦃c : Crypto⦄ where
  -- the first validator whose key verifies the signature
  unfoldable pub find_signer : Hash → List ℕ → List Key → Option Key
  find_signer h sig [] = none
  find_signer h sig (v ∷ vs) = if verify_signature h sig v then some v else find_signer h sig vs

  -- IdentifySigner
  unfoldable pub identify_signer : Poa → Header → Option Key
  identify_signer p h =
      if length h.validator_sig == 0
      then none
      else find_signer (header_hash h) h.validator_sig p.validators

  -- the body of VerifyHeader's loop for the validator that signed
  unfoldable pub check_signer : Poa → Header → Option Key → Result PoaError (Unit {0})
  check_signer p h none = err invalid_sig
  check_signer p h (some key) =
      check_stake p.stake_checker p.genesis_validators key
      >> (if not (h.difficulty == expected_diff p key h.timestamp)
          then err bad_difficulty
          else ok tt)

  -- VerifyHeader
  unfoldable pub verify_header : Poa → Header → Result PoaError (Unit {0})
  verify_header p h =
      if length h.validator_sig == 0
      then err missing_sig
      else check_signer p h (find_signer (header_hash h) h.validator_sig p.validators)
