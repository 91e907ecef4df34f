-- ===== src/Examples/Parents.antt =====
-- The theorem on the limit of sub-chains at a block with one registration.
use klingnet.Prelude.{◌+◌, ◌≤◌, ◌≡◌, refl, true, [], ◌∷◌, none, some, ok, arith}
use klingnet.Prelude.Int.{pos}
use klingnet.Types.{script_type_register}
use klingnet.Tx.{Transaction}
use klingnet.Chain.State.{validate_registrations}
use klingnet.SubChain.{
  Parser, RegistrationData, SubChainRules, consensus_pow, registration_validator,
}
use klingnet.SubChain.Limit.{validate_registrations-limit}
use klingnet.Examples.{transfer}

abbrev pow_chain : RegistrationData
pow_chain = record {
  name = 65 ∷ [];
  symbol = 65 ∷ 66 ∷ [];
  consensus_type = consensus_pow;
  block_time = pos 10;
  block_reward = 5;
  max_supply = 100;
  min_fee_rate = 1;
  validators = [];
  initial_difficulty = 1;
  difficulty_adjust = pos 0;
  validator_stake = 0;
}

abbrev parse : Parser
parse bytes = some pow_chain

abbrev rules : SubChainRules
rules = record { enabled = true; max_per_parent = pos 3; min_deposit = 50; allow_pow = true }

abbrev registration : Transaction
registration = record transfer {
  outputs =
      record {
        value = 50;
        script = record { type = script_type_register; bytes = [] };
        token = none;
      }
      ∷ [];
}

registers :
    validate_registrations (some (registration_validator parse rules)) 2 0 (registration ∷ [])
    ≡ ok 1
unfolding validate_registrations klingnet.Chain.State.count_registrations
    klingnet.Chain.State.refuses_registration registration_validator klingnet.SubChain.is_ok
    klingnet.SubChain.validate_registration_tx klingnet.SubChain.validate_parsed
    klingnet.SubChain.validate_registration_data klingnet.SubChain.all_chars
    klingnet.SubChain.check_consensus klingnet.SubChain.is_bad_adjust klingnet.SubChain.is_below_one
    klingnet.SubChain.check_limit
registers = refl

validate_registrations-limit_example : 2 + 1 ≤ 3
validate_registrations-limit_example =
    validate_registrations-limit parse rules 3 2 0 1 (registration ∷ []) refl (omega arith)
      (omega arith) registers
