-- ===== src/Chain/State/Progress.antt =====
-- internal/chain/processor.go and reorg.go: applying a block that passed its checks cannot fail.
use mathlib.Core.Path.{subst}
use klingnet.Prelude.{
  ℕ, suc, ◌≡◌, ◌⊎◌, refl, sym, inl, inr, true, List, [], ◌∷◌, ◌++◌, arith, ok, All, Option-cases,
  Bool-cases,
}
use klingnet.Prelude.Assoc.{lookup, erase, insert, is_some, lookup-erase, lookup-insert}
use klingnet.Types.{Hash, Outpoint, outpoint_eq, is_zero, same_outpoint_iff}
use klingnet.Crypto.{Crypto}
use klingnet.Tx.{Input, Output, Transaction, tx_hash}
use klingnet.Tx.Rules.{AreU64}
use klingnet.Block.{Block}
use klingnet.Block.Rules.{IsZero, Differs, SpentOnce, all_inputs, validate_block-IsSoundBlock}
use klingnet.Block.Validate.{is_zero_input, validate_block}
use klingnet.Utxo.{Utxo, UtxoSet}
use klingnet.Chain.Apply.{
  UndoData, outpoint_at, spend, create, created, tx_utxo, apply_tx, apply_txs,
  apply_block_with_undo,
}
use klingnet.Tx.Balance.{Spends}
use klingnet.Chain.State.{Rules, chain_utxo_provider, validate_block_state}
use klingnet.Chain.State.Fees.{gather_fees-balance}
use klingnet.Chain.State.Parts.{check_mint_parts, validate_block_state_parts}

-- The input is passed over, or the set has what it spends.
abbrev pub IsThere : UtxoSet → Input → Type 0
IsThere r i = IsZero i ⊎ (is_some (lookup i.prev_out r) ≡ true)

IsThere-erase :
    (r : UtxoSet) (o : Outpoint) (js : List Input)
    → All (Differs o) js
    → All (IsThere r) js
    → All (IsThere (erase o r)) js
IsThere-erase r o [] d h = tt
IsThere-erase r o (j ∷ js) d h = (
  ground (arith, d.0, h.0, lookup-erase o j.prev_out r, same_outpoint_iff o j.prev_out),
  IsThere-erase r o js d.1 h.1,
)

IsThere-insert :
    (r : UtxoSet) (o : Outpoint) (u : Utxo) (js : List Input)
    → All (IsThere r) js
    → All (IsThere (insert o u r)) js
IsThere-insert r o u [] h = tt
IsThere-insert r o u (j ∷ js) h =
    (ground (arith, h.0, lookup-insert o j.prev_out u r), IsThere-insert r o u js h.1)

IsThere-create :
    (new : Outpoint → Output → Utxo) (h : Hash) (n : ℕ) (os : List Output) (r : UtxoSet)
    (js : List Input)
    → All (IsThere r) js
    → All (IsThere (create new h n os r)) js
unfolding create
IsThere-create new h n [] r js there = there
IsThere-create new h n (o ∷ os) r js there =
    let u = new (outpoint_at h n) o in
    IsThere-create new h (suc n) os (insert u.outpoint u r) js
      (IsThere-insert r u.outpoint u js there)

-- Spending inputs that are there and differ succeeds, and leaves what later inputs spend.
spend-IsThere :
    (r : UtxoSet) (is js : List Input)
    → SpentOnce (is ++ js)
    → All (IsThere r) (is ++ js)
    → (r' : UtxoSet) × (us : List Utxo) × (spend r is ≡ ok (r', us))
      × All (IsThere r') js
      × SpentOnce js
unfolding spend
spend-IsThere r [] js once there = (r, [], refl, there, once)
spend-IsThere r (i ∷ is) js once there = elim (Bool-cases (is_zero i.prev_out)) [
  | inl zero_out ↦
      let (r', us, spent, left, once') = spend-IsThere r is js once.1 there.1 in
      (r', us, ground (arith, zero_out), left, once')
  | inr nonzero ↦ elim (Option-cases (lookup i.prev_out r)) [
    | inl missing ↦ absurd (ground (arith, there.0))
    | inr (u, found) ↦
        let differ : All (Differs i.prev_out) (is ++ js) = elim once.0 [
          | inl zero_out ↦ absurd (cc)
          | inr d ↦ d
        ] in
        let (r', us, spent, left, once') =
          spend-IsThere (erase i.prev_out r) is js once.1
            (IsThere-erase r i.prev_out (is ++ js) differ there.1) in
        (r', u ∷ us, ground (arith, nonzero, found, spent), left, once')
  ]
]

module _ ⦃c : Crypto⦄ where
  pub apply_txs_succeeds :
      (height idx : ℕ) (r : UtxoSet) (ts : List Transaction)
      → SpentOnce (all_inputs ts)
      → All (IsThere r) (all_inputs ts)
      → (r' : UtxoSet) × (undo : UndoData) × (apply_txs height idx r ts ≡ ok (r', undo))
  unfolding apply_txs apply_tx
  apply_txs_succeeds height idx r [] once there = (
    r,
    record { spent_utxos = []; created_outpoints = []; tx_hashes = []; block_reward = 0 },
    refl,
  )
  apply_txs_succeeds height idx r (t ∷ ts) once there =
      let (s, us, spent, left, once') = spend-IsThere r t.inputs (all_inputs ts) once there in
      let new = tx_utxo height idx r t.inputs in
      let (r', undo, rest) =
        apply_txs_succeeds height (suc idx) (create new (tx_hash t) 0 t.outputs s) ts once'
          (IsThere-create new (tx_hash t) 0 t.outputs s (all_inputs ts) left) in
      (
        r',
        record {
          spent_utxos = us ++ undo.spent_utxos;
          created_outpoints = created (tx_hash t) 0 t.outputs ++ undo.created_outpoints;
          tx_hashes = tx_hash t ∷ undo.tx_hashes;
          block_reward = 0;
        },
        ground (arith, spent, rest),
      )

  Spends-IsThere :
      (s : UtxoSet) (is js : List Input)
      → All (Spends (chain_utxo_provider s)) is
      → All (IsThere s) js
      → All (IsThere s) (is ++ js)
  Spends-IsThere s [] js h k = k
  Spends-IsThere s (i ∷ is) js h k = elim h.0 [
    | inl zero_out ↦ (inl zero_out, Spends-IsThere s is js h.1 k)
    | inr (v, script, has_it, got, opens) ↦ (inr has_it, Spends-IsThere s is js h.1 k)
  ]

  all-IsThere :
      (s : UtxoSet) (ts : List Transaction)
      → All (λ t. All (Spends (chain_utxo_provider s)) t.inputs) ts
      → All (IsThere s) (all_inputs ts)
  all-IsThere s [] h = tt
  all-IsThere s (t ∷ ts) h = Spends-IsThere s t.inputs (all_inputs ts) h.0 (all-IsThere s ts h.1)

  zero-IsThere :
      (s : UtxoSet) (is js : List Input)
      → is_zero_input is ≡ true
      → All (IsThere s) js
      → All (IsThere s) (is ++ js)
  unfolding is_zero_input
  zero-IsThere s [] js h k = cc
  zero-IsThere s (i ∷ []) js h k = (inl h, k)
  zero-IsThere s (i ∷ j ∷ is) js h k = cc

  -- Let the outputs of a block hold uint64 values. If the block passes the structural check and the
  -- check of its state, then applying it to the same UTXO set succeeds.
  pub apply_block_succeeds :
      (rules : Rules) (s : UtxoSet) (supply registered : ℕ) (b : Block) (k : ℕ)
      → All (λ t. AreU64 t.outputs) b.transactions
      → validate_block b ≡ ok tt
      → validate_block_state rules s supply registered b ≡ ok k
      → (s' : UtxoSet) × (undo : UndoData) × (apply_block_with_undo s b ≡ ok (s', undo))
  unfolding apply_block_with_undo
  apply_block_succeeds rules s supply registered b k fits valid stateful =
      let sound = validate_block-IsSoundBlock b valid in
      let (t, ts, fees, e, zero_out, minted) =
        validate_block_state_parts rules s supply registered b b.transactions k refl stateful in
      let (fs, n, m, gathered, total, limit) =
        check_mint_parts rules s supply b.header.height t ts fees minted in
      let fits' = subst (All (λ z. AreU64 z.outputs)) e fits in
      let (spends, balance) =
        gather_fees-balance (chain_utxo_provider s) 0 ts fs n fits'.1 gathered in
      apply_txs_succeeds b.header.height 0 s b.transactions sound.spent_once (
        subst (λ z. All (IsThere s) (all_inputs z)) (sym e)
          (zero-IsThere s t.inputs (all_inputs ts) zero_out (all-IsThere s ts spends)))
