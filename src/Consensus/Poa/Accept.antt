-- ===== src/Consensus/Poa/Accept.antt =====
-- Which headers the proof of authority accepts.
use klingnet.Prelude.{
  ℕ, ◌≡◌, refl, sym, ap, ◌∙◌, ◌⊎◌, inl, inr, Bool, true, List, Option, none, some, arith, ok, ◌/◌,
  ◌%◌, ◌≢◌, length, get_elem?, bytes_eq,
}
use klingnet.Crypto.{Crypto}
use klingnet.Block.{Header}
use klingnet.Consensus.Poa.{
  Key, Poa, stake_result, check_stake, prepare, is_genesis_validator, identify_signer, check_signer,
  verify_header,
}

-- A genesis validator, one that the stake checker confirms, or any where there is no checker.
abbrev pub IsTrusted : Poa → Key → Type 0
IsTrusted p key =
    (p.stake_checker ≡ none)
    ⊎ (is_genesis_validator p.genesis_validators key ≡ true)
    ⊎ ((f : Key → Option Bool) × (p.stake_checker ≡ some f) × (f key ≡ some true))

abbrev answer_of : Key → Option (Key → Option Bool) → Option Bool
answer_of key none = none
answer_of key (some f) = f key

-- The validator of a timestamp's slot: the slots go round the validators in their order.
abbrev pub validator_of_slot : Poa → ℕ → Option Key
validator_of_slot p timestamp =
    get_elem? p.validators (timestamp / p.block_time % length p.validators)

-- The difficulty that a signer has to give: 2 in its own slot and 1 in another's.
abbrev pub HasTurnDifficulty : Poa → Key → Header → Type 0
HasTurnDifficulty p key h =
    ((validator_of_slot p h.timestamp ≡ some key) × (h.difficulty ≡ 2))
    ⊎ ((validator_of_slot p h.timestamp ≢ some key) × (h.difficulty ≡ 1))

module _ ⦃c : Crypto⦄ where
  check_stake_complete :
      (p : Poa) (checker : Option (Key → Option Bool)) (key : Key)
      → p.stake_checker ≡ checker
      → IsTrusted p key
      → check_stake checker p.genesis_validators key ≡ ok tt
  unfolding check_stake stake_result
  check_stake_complete p none key e trusted = refl
  check_stake_complete p (some f) key e trusted = elim trusted [
    | inl unchecked ↦ cc
    | inr (inl genesis) ↦ ground (arith, genesis)
    | inr (inr (g, same, staked)) ↦
        let answer : f key ≡ some true =
          sym (ap (answer_of key) e) ∙ ap (answer_of key) same ∙ staked in
        ground (arith, answer)
  ]

  -- A header that Prepare gives for a trusted local signer passes with any signature by which the
  -- engine identifies that signer.
  pub prepare-verify_header :
      (p : Poa) (h h' : Header) (key : Key) (sig : List ℕ)
      → p.signer ≡ some key
      → IsTrusted p key
      → prepare p h ≡ ok h'
      → identify_signer p (record h' { validator_sig = sig }) ≡ some key
      → verify_header p (record h' { validator_sig = sig }) ≡ ok tt
  unfolding verify_header check_signer identify_signer prepare
  prepare-verify_header p h h' key sig signer trusted prepared found =
      ground (arith, check_stake_complete p p.stake_checker key refl trusted)
