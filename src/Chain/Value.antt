-- ===== src/Chain/Value.antt =====
-- How much value applying a block moves: what the UTXO set holds before and after.
use mathlib.Core.Path.{subst}
use klingnet.Prelude.{ℕ, suc, ◌+◌, ◌≤◌, ◌≡◌, refl, ap, inl, inr, List, [], ◌∷◌, ◌++◌, arith, ok}
use klingnet.Prelude.Assoc.{
  insert, erase, IsMap, weight, weight-erase, weight-insert_le, erase-IsMap, insert-IsMap,
}
use klingnet.Types.{Hash, Outpoint, outpoint_eq}
use klingnet.Crypto.{Crypto}
use klingnet.Tx.{Input, Output, Transaction, tx_hash}
use klingnet.Tx.Rules.{sum_values}
use klingnet.Utxo.{Utxo, UtxoSet}
use klingnet.Chain.Apply.{UndoData, spend, create, outpoint_at, tx_utxo, apply_txs}
use klingnet.Chain.Segment.{spend-nil, spend-step}
use klingnet.Chain.Undo.{apply_txs-nil, apply_txs-step}

-- The coins that a UTXO set holds.
abbrev pub total_value : UtxoSet → ℕ
total_value = weight (λ u. u.value)

abbrev pub sum_utxos : List Utxo → ℕ
sum_utxos [] = 0
sum_utxos (u ∷ us) = u.value + sum_utxos us

abbrev pub sum_outputs : List Transaction → ℕ
sum_outputs [] = 0
sum_outputs (t ∷ ts) = sum_values t.outputs + sum_outputs ts

pub sum_utxos-append : (us vs : List Utxo) → sum_utxos (us ++ vs) ≡ sum_utxos us + sum_utxos vs
sum_utxos-append [] vs = omega arith
sum_utxos-append (u ∷ us) vs = omega (arith, sum_utxos-append us vs)

spend-total :
    (r r' : UtxoSet) (us : List Utxo) (is : List Input)
    → IsMap r
    → spend r is ≡ ok (r', us)
    → IsMap r' × (total_value r' + sum_utxos us ≡ total_value r)
spend-total r r' us [] m h =
    let (same, none_spent) = spend-nil r r' us h in
    (subst (λ z. IsMap z) same m, omega (arith, ap total_value same, ap sum_utxos none_spent))
spend-total r r' us (i ∷ is) m h = elim (spend-step r r' us i is h) [
  | inl (zero_out, rest) ↦ spend-total r r' us is m rest
  | inr (u, us1, spent, found, rest, e) ↦
      let ih = spend-total (erase i.prev_out r) r' us1 is (erase-IsMap i.prev_out r m) rest in
      let w = weight-erase (λ v. v.value) i.prev_out u r m found in
      rw e (ih.0, omega (arith, ih.1, w))
]

module _ (new : Outpoint → Output → Utxo)
    (same : (o : Outpoint) (out : Output) → (new o out).value ≡ out.value) where
  create-total :
      (r : UtxoSet) (h : Hash) (i : ℕ) (os : List Output)
      → IsMap r
      → IsMap (create new h i os r)
        × (total_value (create new h i os r) ≤ total_value r + sum_values os)
  unfolding create
  create-total r h i [] m = (m, omega arith)
  create-total r h i (o ∷ os) m =
      let u = new (outpoint_at h i) o in
      let ih = create-total (insert u.outpoint u r) h (suc i) os (insert-IsMap u.outpoint u r m) in
      (
        ih.0,
        omega
            (arith, ih.1, weight-insert_le (λ v. v.value) u.outpoint u r, same (outpoint_at h i) o),
      )

module _ ⦃c : Crypto⦄ where
  own_value :
      (height idx : ℕ) (s : UtxoSet) (is : List Input) (o : Outpoint) (out : Output)
      → (tx_utxo height idx s is o out).value ≡ out.value
  unfolding tx_utxo
  own_value height idx s is o out = refl

  -- Let a UTXO set list no outpoint twice. If transactions apply to it, the new set lists none twice
  -- either, and its coins and the coins that the undo data says were spent are together at most the
  -- coins of the old set and of the transactions' outputs.
  pub apply_txs-total :
      (height idx : ℕ) (r r' : UtxoSet) (undo : UndoData) (ts : List Transaction)
      → IsMap r
      → apply_txs height idx r ts ≡ ok (r', undo)
      → IsMap r' × (total_value r' + sum_utxos undo.spent_utxos ≤ total_value r + sum_outputs ts)
  apply_txs-total height idx r r' undo [] m h =
      let (same, no_spent, no_new) = apply_txs-nil height idx r r' undo h in
      (subst (λ z. IsMap z) same m, omega (arith, ap total_value same, ap sum_utxos no_spent))
  apply_txs-total height idx r r' undo (t ∷ ts) m h =
      let (s, us, rest, spent, applied, e_spent, e_new) =
        apply_txs-step height idx r r' undo t ts h in
      let taken = spend-total r s us t.inputs m spent in
      let put =
        create-total (tx_utxo height idx r t.inputs) (own_value height idx r t.inputs) s (tx_hash t)
          0 t.outputs taken.0 in
      let ih =
        apply_txs-total height (suc idx)
          (create (tx_utxo height idx r t.inputs) (tx_hash t) 0 t.outputs s) r' rest ts put.0
          applied in
      (
        ih.0,
        omega (
          arith,
          ih.1,
          put.1,
          taken.1,
          ap sum_utxos e_spent,
          sum_utxos-append us rest.spent_utxos,
        ),
      )
