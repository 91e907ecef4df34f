-- ===== src/Token/Conservation.antt =====
-- Token conservation: what ValidateTokens ensures of the amounts of each token id.
use klingnet.Prelude.{
  ℕ, ◌+◌, ◌≤◌, ◌≡◌, refl, ◌⊎◌, inl, inr, Bool, true, false, ◌||◌, List, [], ◌∷◌, ◌++◌, Option, none,
  some, arith, ◌==◌, if◌then◌else◌, ok, contains, ==_iff, nat_eq, Result-cases, Bool-cases,
}
use klingnet.Prelude.Assoc.{lookup, lookup-insert}
use klingnet.Types.{Hash, is_zero, TokenData, script_type_mint, script_type_burn}
use klingnet.Crypto.{Crypto}
use klingnet.Tx.{Input, Output, Transaction}
use klingnet.Token.{
  TokenError, output_amount_overflow, burn_amount_overflow, InputTokens, Amounts, amount_of,
  add_amount, add_input, gather_inputs, Gathered, gather_output, gather_token, gather_outputs,
  check_mixed, keys, unminted, check_conservation, mint_token_id, validate_tokens,
}

-- The amount of a token id that some token data holds.
abbrev pub held : Hash → Option TokenData → ℕ
held id none = 0
held id (some td) = if td.id == id then td.amount else 0

-- The amount of a token id that the inputs spend.
abbrev pub spent_amount : InputTokens → Hash → List Input → ℕ
spent_amount tokens id [] = 0
spent_amount tokens id (i ∷ is) =
    (if is_zero i.prev_out then 0 else held id (tokens i.prev_out)) + spent_amount tokens id is

abbrev pub is_burn : Output → Bool
is_burn o = o.script.type == script_type_burn

-- The amounts that the outputs keep, and that they burn.
abbrev pub kept_amount : Hash → List Output → ℕ
kept_amount id [] = 0
kept_amount id (o ∷ os) = (if is_burn o then 0 else held id o.token) + kept_amount id os

abbrev pub burned_amount : Hash → List Output → ℕ
burned_amount id [] = 0
burned_amount id (o ∷ os) = (if is_burn o then held id o.token else 0) + burned_amount id os

abbrev carries : Hash → Option TokenData → Bool
carries id none = false
carries id (some td) = td.id == id

-- Some output of mint type carries the id.
abbrev pub is_minted : Hash → List Output → Bool
is_minted id [] = false
is_minted id (o ∷ os) =
    (if o.script.type == script_type_mint then carries id o.token else false) || is_minted id os

add_amount-amount_of :
    (e : TokenError) (td : TokenData) (m m' : Amounts) (id : Hash)
    → add_amount e td m ≡ ok m'
    → amount_of id m' ≡ amount_of id m + held id (some td)
unfolding add_amount
add_amount-amount_of e td m m' id h =
    ground (arith, lookup-insert td.id id (amount_of td.id m + td.amount) m, ==_iff td.id id)

add_input-amount_of :
    (o : Option TokenData) (m m' : Amounts) (id : Hash)
    → add_input o m ≡ ok m'
    → amount_of id m' ≡ amount_of id m + held id o
unfolding add_input
add_input-amount_of none m m' id h = ground arith
add_input-amount_of (some td) m m' id h = add_amount-amount_of _ td m m' id h

gather_inputs-amount_of :
    (tokens : InputTokens) (m m' : Amounts) (is : List Input) (id : Hash)
    → gather_inputs tokens m is ≡ ok m'
    → amount_of id m' ≡ amount_of id m + spent_amount tokens id is
unfolding gather_inputs
gather_inputs-amount_of tokens m m' [] id h = ground arith
gather_inputs-amount_of tokens m m' (i ∷ is) id h = elim (Bool-cases (is_zero i.prev_out)) [
  | inl zero_out ↦ ground (arith, gather_inputs-amount_of tokens m m' is id)
  | inr spent ↦ elim (Result-cases (add_input (tokens i.prev_out) m)) [
    | inl (m1, added) ↦ ground (
      arith,
      gather_inputs-amount_of tokens m1 m' is id,
      add_input-amount_of (tokens i.prev_out) m m1 id added,
    )
    | inr (e, bad) ↦ ground arith
  ]
]

-- What one stretch of outputs adds to what was gathered.
abbrev Adds : Hash → List Output → Gathered → Gathered → Type 0
Adds id os g g' =
    (amount_of id g'.output_totals ≡ amount_of id g.output_totals + kept_amount id os)
    × (amount_of id g'.burned_amounts ≡ amount_of id g.burned_amounts + burned_amount id os)
    × (contains id g'.minted_ids ≡ contains id g.minted_ids || is_minted id os)

gather_output-Adds :
    (mint_id : Hash) (o : Output) (td : TokenData) (g g' : Gathered) (id : Hash)
    → o.token ≡ some td
    → gather_output mint_id o td g ≡ ok g'
    → Adds id (o ∷ []) g g'
unfolding gather_output
gather_output-Adds mint_id o td g g' id e h =
    elim (Result-cases (add_amount output_amount_overflow td g.output_totals)) [
      | inl (m, added) ↦ elim (Result-cases (add_amount burn_amount_overflow td g.burned_amounts)) [
        | inl (b, burned) ↦ ground (
          arith,
          add_amount-amount_of output_amount_overflow td g.output_totals m id added,
          add_amount-amount_of burn_amount_overflow td g.burned_amounts b id burned,
        )
        | inr (x, bad) ↦
            ground
              (arith, add_amount-amount_of output_amount_overflow td g.output_totals m id added)
      ]
      | inr (x, bad) ↦ elim (Result-cases (add_amount burn_amount_overflow td g.burned_amounts)) [
        | inl (b, burned) ↦
            ground
              (arith, add_amount-amount_of burn_amount_overflow td g.burned_amounts b id burned)
        | inr (y, worse) ↦ ground arith
      ]
    ]

gather_token-Adds :
    (mint_id : Hash) (o : Output) (token : Option TokenData) (g g' : Gathered) (id : Hash)
    → o.token ≡ token
    → gather_token mint_id o token g ≡ ok g'
    → Adds id (o ∷ []) g g'
unfolding gather_token
gather_token-Adds mint_id o none g g' id e h = ground arith
gather_token-Adds mint_id o (some td) g g' id e h = gather_output-Adds mint_id o td g g' id e h

gather_outputs-Adds :
    (mint_id : Hash) (os : List Output) (g g' : Gathered) (id : Hash)
    → gather_outputs mint_id os g ≡ ok g'
    → Adds id os g g'
unfolding gather_outputs
gather_outputs-Adds mint_id [] g g' id h = ground arith
gather_outputs-Adds mint_id (o ∷ os) g g' id h =
    elim (Result-cases (gather_token mint_id o o.token g)) [
      | inl (g1, one) ↦
          let (a, b, d) = gather_token-Adds mint_id o o.token g g1 id refl one in
          let (a', b', d') = gather_outputs-Adds mint_id os g1 g' id (ground arith) in
          (omega (arith, a, a'), omega (arith, b, b'), ground (arith, d, d'))
      | inr (e, bad) ↦ ground arith
    ]

check_mixed-absent :
    (inputs : Amounts) (ids : List Hash) (id : Hash)
    → check_mixed inputs ids ≡ ok tt
    → contains id ids ≡ true
    → amount_of id inputs ≡ 0
unfolding check_mixed
check_mixed-absent inputs [] id h k = cc
check_mixed-absent inputs (x ∷ ids) id h k =
    ground (arith, check_mixed-absent inputs ids id, ==_iff x id)

check_conservation-balanced :
    (inputs : Amounts) (g : Gathered) (ids : List Hash) (id : Hash)
    → check_conservation inputs g ids ≡ ok tt
    → contains id g.minted_ids ≡ false
    → contains id ids ≡ true
    → amount_of id inputs ≡ amount_of id g.output_totals + amount_of id g.burned_amounts
unfolding check_conservation
check_conservation-balanced inputs g [] id h m k = cc
check_conservation-balanced inputs g (x ∷ ids) id h m k =
    ground (arith, check_conservation-balanced inputs g ids id, ==_iff x id)

contains-append :
    (id : Hash) (xs ys : List Hash) → contains id (xs ++ ys) ≡ (contains id xs || contains id ys)
contains-append id [] ys = refl
contains-append id (x ∷ xs) ys = ground (arith, contains-append id xs ys)

contains-keys : (id : Hash) (m : Amounts) → contains id (keys m) ≡ false → amount_of id m ≡ 0
unfolding keys lookup
contains-keys id [] h = refl
contains-keys id ((x, n) ∷ m) h = ground (arith, contains-keys id m)

contains-unminted :
    (id : Hash) (minted ids : List Hash)
    → contains id minted ≡ false
    → contains id (unminted minted ids) ≡ contains id ids
unfolding unminted
contains-unminted id minted [] h = refl
contains-unminted id minted (x ∷ ids) h =
    ground (arith, contains-unminted id minted ids, ==_iff x id)

module _ ⦃c : Crypto⦄ where
  -- The parts of a successful check.
  validate_tokens_parts :
      (t : Transaction) (tokens : InputTokens)
      → validate_tokens t tokens ≡ ok tt
      → (inputs : Amounts) × (g : Gathered) × (gather_inputs tokens [] t.inputs ≡ ok inputs)
        × (gather_outputs
              (mint_token_id t.inputs)
              t.outputs
              (record { output_totals = []; minted_ids = []; burned_amounts = [] })
            ≡ ok g)
        × (check_mixed inputs g.minted_ids ≡ ok tt)
        × (check_conservation inputs g (keys inputs ++ unminted g.minted_ids (keys g.output_totals))
            ≡ ok tt)
  unfolding validate_tokens
  validate_tokens_parts t tokens h = elim (Result-cases (gather_inputs tokens [] t.inputs)) [
    | inl (inputs, gathered) ↦
        elim (Result-cases (
          gather_outputs (mint_token_id t.inputs) t.outputs
            (record { output_totals = []; minted_ids = []; burned_amounts = [] }))) [
              | inl (g, out) ↦ (inputs, g, gathered, out, ground arith, ground arith)
              | inr (e, bad) ↦ ground arith
            ]
    | inr (e, bad) ↦ ground arith
  ]

  -- A transaction that passes the token check, seen at any token id. If one of its mint outputs
  -- carries the id, no input holds any of it. If none does, the amount in the inputs is the amount
  -- kept plus the amount burned, or neither the inputs nor the kept outputs have any of it; so in
  -- both cases the outputs keep no more than the inputs held.
  pub validate_tokens-conserves :
      (t : Transaction) (tokens : InputTokens) (id : Hash)
      → validate_tokens t tokens ≡ ok tt
      → ((is_minted id t.outputs ≡ true) × (spent_amount tokens id t.inputs ≡ 0))
        ⊎ ((is_minted id t.outputs ≡ false)
            × (kept_amount id t.outputs ≤ spent_amount tokens id t.inputs)
            × ((spent_amount tokens id t.inputs
                  ≡ kept_amount id t.outputs + burned_amount id t.outputs)
                ⊎ ((spent_amount tokens id t.inputs ≡ 0) × (kept_amount id t.outputs ≡ 0))))
  unfolding lookup
  validate_tokens-conserves t tokens id h =
      let (inputs, g, gathered, out, mixed, balance) = validate_tokens_parts t tokens h in
      let start : Gathered = record { output_totals = []; minted_ids = []; burned_amounts = [] } in
      let ins = gather_inputs-amount_of tokens [] inputs t.inputs id gathered in
      let (kept, burned, minted) =
        gather_outputs-Adds (mint_token_id t.inputs) t.outputs start g id out in
      ground (
        arith,
        ins,
        kept,
        burned,
        minted,
        check_mixed-absent inputs g.minted_ids id mixed,
        check_conservation-balanced inputs g
            (keys inputs ++ unminted g.minted_ids (keys g.output_totals)) id balance,
        contains-append id (keys inputs) (unminted g.minted_ids (keys g.output_totals)),
        contains-unminted id g.minted_ids (keys g.output_totals),
        contains-keys id inputs,
        contains-keys id g.output_totals,
      )
