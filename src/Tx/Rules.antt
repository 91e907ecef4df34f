-- ===== src/Tx/Rules.antt =====
-- What Transaction.Validate checks, stated without its loops, and that it checks just that.
use klingnet.Prelude.{
  ℕ, ◌+◌, ◌≤◌, ◌<◌, ◌≡◌, refl, ◌≢◌, ◌↔◌, ◌⊎◌, true, false, List, [], ◌∷◌, arith, length, max_u64,
  ok, All, contains,
}
use klingnet.Prelude.Assoc.{is_some}
use klingnet.Config.{max_tx_inputs, max_tx_outputs, max_script_data}
use klingnet.Types.{
  Outpoint, outpoint_eq, is_zero, address_size, script_type_p2pkh, script_type_mint,
  script_type_burn, script_type_anchor, script_type_register, script_type_stake, same_outpoint_iff,
}
use klingnet.Tx.{Input, Output, Transaction}
use klingnet.Tx.Validate.{
  check_duplicates, check_input, check_inputs, validate_output_script, check_output, check_outputs,
  validate,
}

-- The outputs hold uint64 values.
abbrev pub AreU64 : List Output → Type 0
AreU64 = All (λ o. o.value ≤ max_u64)

abbrev pub sum_values : List Output → ℕ
sum_values [] = 0
sum_values (o ∷ os) = o.value + sum_values os

-- The outpoint is not one of those that are spent here.
abbrev pub NotSpent : Outpoint → List Input → Type 0
NotSpent o = All (λ i. o ≢ i.prev_out)

abbrev pub AreDistinct : List Input → Type 0
AreDistinct [] = Unit
AreDistinct (i ∷ is) = NotSpent i.prev_out is × AreDistinct is

-- A coinbase input needs no signature.
abbrev pub IsSigned : Input → Type 0
IsSigned i = (is_zero i.prev_out ≡ true) ⊎ ((0 < length i.pub_key) × (0 < length i.signature))

abbrev pub HasAllowedScript : Output → Type 0
HasAllowedScript o =
    (o.script.type ≡ script_type_p2pkh)
    ⊎ (o.script.type ≡ script_type_burn)
    ⊎ (o.script.type ≡ script_type_anchor)
    ⊎ (o.script.type ≡ script_type_register)
    ⊎ ((o.script.type ≡ script_type_mint)
        × (is_some o.token ≡ true)
        × (o.value ≡ 0)
        × (address_size ≤ length o.script.bytes))
    ⊎ ((o.script.type ≡ script_type_stake) × (length o.script.bytes ≡ 33))

abbrev pub IsAllowed : Output → Type 0
IsAllowed o =
    (o.value ≡ 0 → is_some o.token ≡ true)
    × HasAllowedScript o
    × (length o.script.bytes ≤ max_script_data)

pub record IsWellFormed (t : Transaction) : Type 0 where
  pub has_inputs : 0 < length t.inputs
  pub has_outputs : 0 < length t.outputs
  pub inputs_fit : length t.inputs ≤ max_tx_inputs
  pub outputs_fit : length t.outputs ≤ max_tx_outputs
  pub distinct : AreDistinct t.inputs
  pub signed : All IsSigned t.inputs
  pub allowed : All IsAllowed t.outputs
  pub no_overflow : sum_values t.outputs ≤ max_u64

check_input_iff : (i : Input) → (check_input i ≡ ok tt) ↔ IsSigned i
unfolding check_input
check_input_iff i = (ground arith, ground arith)

check_inputs_iff : (is : List Input) → (check_inputs is ≡ ok tt) ↔ All IsSigned is
unfolding check_inputs
check_inputs_iff [] = (λ _. tt, λ _. refl)
check_inputs_iff (i ∷ is) = (
  ground (arith, check_input_iff i, check_inputs_iff is),
  ground (arith, check_input_iff i, check_inputs_iff is),
)

script_iff : (o : Output) → (validate_output_script o ≡ ok tt) ↔ HasAllowedScript o
unfolding validate_output_script
script_iff o = (ground arith, ground arith)

check_output_iff :
    (total : ℕ) (o : Output)
    → o.value ≤ max_u64
    → (check_output total o ≡ ok tt) ↔ (IsAllowed o × (total + o.value ≤ max_u64))
unfolding check_output
check_output_iff total o fits = (ground (arith, script_iff o), ground (arith, script_iff o))

check_outputs_iff :
    (total : ℕ) (os : List Output)
    → total ≤ max_u64
    → AreU64 os
    → (check_outputs total os ≡ ok tt) ↔ (All IsAllowed os × (total + sum_values os ≤ max_u64))
unfolding check_outputs
check_outputs_iff total [] low fits = (ground arith, ground arith)
check_outputs_iff total (o ∷ os) low fits = (
  ground (arith, check_output_iff total o fits.0, check_outputs_iff (total + o.value) os),
  ground (arith, check_output_iff total o fits.0, check_outputs_iff (total + o.value) os),
)

-- `seen` holds no input that comes later.
abbrev AreUnseen : List Outpoint → List Input → Type 0
AreUnseen seen = All (λ i. contains i.prev_out seen ≡ false)

AreUnseen-cons :
    (o : Outpoint) (seen : List Outpoint) (is : List Input)
    → AreUnseen (o ∷ seen) is ↔ (NotSpent o is × AreUnseen seen is)
AreUnseen-cons o seen [] = ((λ _. (tt, tt)), λ _. tt)
AreUnseen-cons o seen (i ∷ is) = (
  ground (arith, AreUnseen-cons o seen is, same_outpoint_iff o i.prev_out),
  ground (arith, AreUnseen-cons o seen is, same_outpoint_iff o i.prev_out),
)

check_duplicates_iff :
    (seen : List Outpoint) (is : List Input)
    → (check_duplicates seen is ≡ ok tt) ↔ (AreUnseen seen is × AreDistinct is)
unfolding check_duplicates
check_duplicates_iff seen [] = ((λ _. (tt, tt)), λ _. refl)
check_duplicates_iff seen (i ∷ is) = (
  ground (arith, check_duplicates_iff (i.prev_out ∷ seen) is, AreUnseen-cons i.prev_out seen is),
  ground (arith, check_duplicates_iff (i.prev_out ∷ seen) is, AreUnseen-cons i.prev_out seen is),
)

AreUnseen-nil : (is : List Input) → AreUnseen [] is
AreUnseen-nil [] = tt
AreUnseen-nil (i ∷ is) = (refl, AreUnseen-nil is)

-- For a transaction with uint64 output values, the structural check accepts exactly the
-- well-formed transactions: both counts positive and within their limits, no outpoint spent twice,
-- every input but a coinbase's with a key and a signature, every output allowed, and values whose
-- sum is a uint64.
pub validate-iff-IsWellFormed :
    (t : Transaction) → AreU64 t.outputs → (validate t ≡ ok tt) ↔ IsWellFormed t
unfolding validate
validate-iff-IsWellFormed t fits = (
  ground (
    arith,
    check_duplicates_iff [] t.inputs,
    check_inputs_iff t.inputs,
    check_outputs_iff 0 t.outputs (omega arith) fits,
  ),
  ground (
    arith,
    check_duplicates_iff [] t.inputs,
    check_inputs_iff t.inputs,
    check_outputs_iff 0 t.outputs (omega arith) fits,
    AreUnseen-nil t.inputs,
  ),
)
