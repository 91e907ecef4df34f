-- ===== src/SubChain/Limit.antt =====
-- internal/subchain/validate.go with internal/chain/processor.go: the limit on the sub-chains of a
-- parent, as the chain keeps it.
use klingnet.Prelude.{
  ℕ, ◌+◌, ◌≤◌, ◌<◌, ◌≡◌, sym, ap, ◌∙◌, true, List, [], ◌∷◌, some, ◌==◌, ok, >>=-eq-ok, arith,
  Bool-cases, Result-cases, inl, inr,
}
use klingnet.Prelude.Int.{pos}
use klingnet.Types.{script_type_register}
use klingnet.Tx.{Output, Transaction}
use klingnet.Chain.State.{refuses_registration, count_registrations, validate_registrations}
use klingnet.SubChain.{
  Parser, SubChainRules, validate_parsed, check_limit, validate_registration_tx, is_ok,
  registration_validator,
}

-- What passes the hook is below the limit.
check_limit-lt :
    (n existing pending : ℕ)
    → 0 < n
    → is_ok (check_limit (pos n) existing pending) ≡ true
    → existing + pending < n
unfolding check_limit is_ok
check_limit-lt n existing pending positive h = ground (arith, h, positive)

validate_registration_tx-limit :
    (parse : Parser) (rules : SubChainRules) (o : Output) (existing pending : ℕ)
    → is_ok (validate_registration_tx parse rules o existing pending) ≡ true
    → is_ok (check_limit rules.max_per_parent existing pending) ≡ true
unfolding validate_registration_tx is_ok
validate_registration_tx-limit parse rules o existing pending h =
    elim (Result-cases (validate_parsed (parse o.script.bytes) rules)) [
      | inl (u, valid) ↦ ground (arith, h, valid)
      | inr (e, bad) ↦ ground (arith, h, bad)
    ]

count_registrations-limit :
    (parse : Parser) (rules : SubChainRules) (limit registered n k : ℕ) (os : List Output)
    → rules.max_per_parent ≡ pos limit
    → 0 < limit
    → registered + n ≤ limit
    → count_registrations (some (registration_validator parse rules)) registered n os ≡ ok k
    → registered + k ≤ limit
unfolding count_registrations refuses_registration registration_validator
count_registrations-limit parse rules limit registered n k [] same positive low h =
    ground (arith, h, low)
count_registrations-limit parse rules limit registered n k (o ∷ os) same positive low h =
    elim (Bool-cases (o.script.type == script_type_register)) [
      | inr other ↦
          count_registrations-limit parse rules limit registered n k os same positive low
            (ground (arith, h, other))
      | inl registers ↦
          elim (Bool-cases (is_ok (validate_registration_tx parse rules o registered n))) [
            | inr refused ↦ ground (arith, h, registers, refused)
            | inl passes ↦
                let below = check_limit-lt limit registered n positive (
                  ap (λ m. is_ok (check_limit m registered n)) (sym same)
                  ∙ validate_registration_tx-limit parse rules o registered n passes) in
                count_registrations-limit parse rules limit registered (n + 1) k os same positive
                  (omega (arith, below)) (ground (arith, h, registers, passes))
          ]
    ]

-- Let a chain call the registration hook with a positive limit on the sub-chains of a parent, and
-- let it have at most as many. If the registrations of a block pass, the chain has at most as many
-- with those of the block.
pub validate_registrations-limit :
    (parse : Parser) (rules : SubChainRules) (limit registered n k : ℕ) (ts : List Transaction)
    → rules.max_per_parent ≡ pos limit
    → 0 < limit
    → registered + n ≤ limit
    → validate_registrations (some (registration_validator parse rules)) registered n ts ≡ ok k
    → registered + k ≤ limit
unfolding validate_registrations
validate_registrations-limit parse rules limit registered n k [] same positive low h =
    ground (arith, h, low)
validate_registrations-limit parse rules limit registered n k (t ∷ ts) same positive low h =
    let hook = some (registration_validator parse rules) in
    let one =
      >>=-eq-ok (count_registrations hook registered n t.outputs)
        (λ m. validate_registrations hook registered m ts) h in
    validate_registrations-limit parse rules limit registered one.0 k ts same positive
      (count_registrations-limit parse rules limit registered n one.0 t.outputs same positive low
        one.1)
      one.2
