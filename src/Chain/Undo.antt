-- ===== src/Chain/Undo.antt =====
-- Reverting a block by its undo data gives back the UTXO set that it was applied to.
use mathlib.Core.Path.{subst, subst₂, ◌∙◌}
use klingnet.Prelude.{
  ap, sym, ℕ, suc, ◌≡◌, refl, ◌⊎◌, inl, inr, true, false, List, [], ◌∷◌, ◌++◌, none, some, arith,
  ok, All, contains, Result-cases,
}
use klingnet.Prelude.Assoc.{lookup, insert, lookup-insert, lookup-erase}
use klingnet.Types.{Outpoint, outpoint_eq, same_outpoint_iff}
use klingnet.Crypto.{Crypto}
use klingnet.Tx.{Input, Output, Transaction, tx_hash}
use klingnet.Block.{Block}
use klingnet.Utxo.{Utxo, UtxoSet, IsKeyed}
use klingnet.Chain.Apply.{
  UndoData, spend, create, created, tx_utxo, apply_tx, apply_txs, apply_block_with_undo, delete_all,
  put_all, revert_utxos,
}
use klingnet.Chain.Segment.{
  outpoints, Changed, Below, IsPresent, AreFrom, AreFresh, Changed-trans, spend-Below,
  spend-AreFrom, spend-Changed, create-Below, create-Changed,
}

All-append {ℓ κ} :
    {A : Type ℓ} (P : A → Type κ) (xs ys : List A) → All P xs → All P ys → All P (xs ++ ys)
All-append P [] ys hx hy = hy
All-append P (x ∷ xs) ys hx hy = (hx.0, All-append P xs ys hx.1 hy)

outpoints-append : (us vs : List Utxo) → outpoints (us ++ vs) ≡ outpoints us ++ outpoints vs
outpoints-append [] vs = refl
outpoints-append (u ∷ us) vs = ap (λ l. u.outpoint ∷ l) (outpoints-append us vs)

lookup-delete_all :
    (o : Outpoint) (os : List Outpoint) (s : UtxoSet)
    → (contains o os ≡ false × (lookup o (delete_all os s) ≡ lookup o s))
      ⊎ (contains o os ≡ true × (lookup o (delete_all os s) ≡ none))
unfolding delete_all
lookup-delete_all o [] s = inl (refl, refl)
lookup-delete_all o (x ∷ os) s =
    ground (arith, lookup-delete_all o os s, lookup-erase x o (delete_all os s))

-- Putting back entries of the base restores each of them and breaks no other.
lookup-put_all :
    (base r : UtxoSet) (us : List Utxo) (o : Outpoint)
    → AreFrom base us
    → (lookup o r ≡ lookup o base) ⊎ (contains o (outpoints us) ≡ true)
    → lookup o (put_all us r) ≡ lookup o base
unfolding put_all
lookup-put_all base r [] o from h = ground arith
lookup-put_all base r (u ∷ us) o from h = ground (
  arith,
  lookup-put_all base (insert u.outpoint u r) us o from.1,
  lookup-insert u.outpoint o u r,
  same_outpoint_iff u.outpoint o,
)

module _ ⦃c : Crypto⦄ where
  -- Every input of a transaction is in the base, and none of its outputs is.
  pub record Fits (base : UtxoSet) (t : Transaction) : Type 0 where
    pub present : All (IsPresent base) t.inputs
    pub fresh : AreFresh base (created (tx_hash t) 0 t.outputs)

  -- One step of the loop over the transactions.
  abbrev pub TxStep : ℕ → ℕ → UtxoSet → Transaction → List Transaction → UtxoSet → UndoData → Type 0
  TxStep height idx r t ts r' undo =
      (s : UtxoSet) × (us : List Utxo) × (rest : UndoData) × (spend r t.inputs ≡ ok (s, us))
      × (apply_txs height (suc idx)
            (create (tx_utxo height idx r t.inputs) (tx_hash t) 0 t.outputs s) ts
          ≡ ok (r', rest))
      × (undo.spent_utxos ≡ us ++ rest.spent_utxos)
      × (undo.created_outpoints ≡ created (tx_hash t) 0 t.outputs ++ rest.created_outpoints)

  pub apply_txs-step :
      (height idx : ℕ) (r r' : UtxoSet) (undo : UndoData) (t : Transaction) (ts : List Transaction)
      → apply_txs height idx r (t ∷ ts) ≡ ok (r', undo)
      → TxStep height idx r t ts r' undo
  unfolding apply_txs apply_tx
  apply_txs-step height idx r r' undo t ts h = elim (Result-cases (spend r t.inputs)) [
    | inl ((s, us), spent) ↦
        elim (Result-cases (
          apply_txs height (suc idx)
            (create (tx_utxo height idx r t.inputs) (tx_hash t) 0 t.outputs s) ts)) [
              | inl ((r1, rest), applied) ↦
                  (s, us, rest, spent, ground arith, ground arith, ground arith)
              | inr (e, bad) ↦ ground arith
            ]
    | inr (e, bad) ↦ ground arith
  ]

  pub own_outpoint :
      (height idx : ℕ) (s : UtxoSet) (is : List Input) (o : Outpoint) (out : Output)
      → (tx_utxo height idx s is o out).outpoint ≡ o
  unfolding tx_utxo
  own_outpoint height idx s is o out = refl

  pub apply_txs-nil :
      (height idx : ℕ) (r r' : UtxoSet) (undo : UndoData)
      → apply_txs height idx r [] ≡ ok (r', undo)
      → (r ≡ r') × (undo.spent_utxos ≡ []) × (undo.created_outpoints ≡ [])
  unfolding apply_txs
  apply_txs-nil height idx r r' undo h = (ground arith, ground arith, ground arith)

  tx-Changed :
      (r s r1 : UtxoSet) (us : List Utxo) (new : List Outpoint) (o : Outpoint)
      → (lookup o s ≡ lookup o r) ⊎ ((lookup o s ≡ none) × (contains o (outpoints us) ≡ true))
      → (lookup o r1 ≡ lookup o s) ⊎ (contains o new ≡ true)
      → Changed r r1 (outpoints us) new o
  tx-Changed r s r1 us new o h k = ground arith

  module _ (base : UtxoSet) (keyed : IsKeyed base) where
    -- What the base is known to say of what a stretch of transactions did.
    pub record IsTraced (r r' : UtxoSet) (undo : UndoData) : Type 0 where
      pub changed :
          (o : Outpoint) → Changed r r' (outpoints undo.spent_utxos) undo.created_outpoints o
      pub from : AreFrom base undo.spent_utxos
      pub fresh : AreFresh base undo.created_outpoints
      pub below : Below base r'

    pub apply_txs-IsTraced :
        (height idx : ℕ) (r r' : UtxoSet) (undo : UndoData) (ts : List Transaction)
        → Below base r
        → All (Fits base) ts
        → apply_txs height idx r ts ≡ ok (r', undo)
        → IsTraced r r' undo
    unfolding apply_txs
    apply_txs-IsTraced height idx r r' undo [] below fits h =
        let (same, no_spent, no_new) = apply_txs-nil height idx r r' undo h in
        record {
          changed = λ o. inl (ap (λ s. lookup o s) (sym same));
          from = subst (AreFrom base) (sym no_spent) tt;
          fresh = subst (AreFresh base) (sym no_new) tt;
          below = subst (Below base) same below;
        }
    apply_txs-IsTraced height idx r r' undo (t ∷ ts) below fits h =
        let (s, us, rest, spent, applied, e_spent, e_new) =
          apply_txs-step height idx r r' undo t ts h in
        let new = tx_utxo height idx r t.inputs in
        let own = own_outpoint height idx r t.inputs in
        let op = created (tx_hash t) 0 t.outputs in
        let r1 = create new (tx_hash t) 0 t.outputs s in
        let below_s = spend-Below base r s us t.inputs below spent in
        let below_r1 = create-Below new own base s (tx_hash t) 0 t.outputs fits.0.fresh below_s in
        let ih = apply_txs-IsTraced height (suc idx) r1 r' rest ts below_r1 fits.1 applied in
        record {
          changed = λ o.
              subst₂ (λ a b. Changed r r' a b o)
                (sym (ap outpoints e_spent ∙ outpoints-append us rest.spent_utxos)) (sym e_new)
                (Changed-trans r r1 r' (outpoints us) (outpoints rest.spent_utxos) op
                  rest.created_outpoints o
                  (tx-Changed r s r1 us op o
                    (spend-Changed base keyed r s us t.inputs o below fits.0.present spent)
                    (create-Changed new own s (tx_hash t) 0 t.outputs o))
                  (ih.changed o));
          from = subst (AreFrom base) (sym e_spent) (
              All-append (λ u. lookup u.outpoint base ≡ some u) us rest.spent_utxos
                (spend-AreFrom base keyed r s us t.inputs below fits.0.present spent) ih.from);
          fresh = subst (AreFresh base) (sym e_new) (
              All-append (λ o. lookup o base ≡ none) op rest.created_outpoints fits.0.fresh
                ih.fresh);
          below = ih.below;
        }

contains-AreFresh :
    (base : UtxoSet) (os : List Outpoint) (o : Outpoint)
    → AreFresh base os
    → contains o os ≡ true
    → lookup o base ≡ none
contains-AreFresh base [] o fresh h = cc
contains-AreFresh base (x ∷ os) o fresh h =
    ground (arith, same_outpoint_iff x o, contains-AreFresh base os o fresh.1)

module _ ⦃c : Crypto⦄ where
  -- Let the entries of a UTXO set stand under their own outpoints, and let every input of a block
  -- be in the set and every output of it be new to the set. Reverting the block by its undo data
  -- gives every outpoint the entry that it had before the block, or none where it had none.
  pub revert-apply :
      (s s' : UtxoSet) (b : Block) (undo : UndoData)
      → IsKeyed s
      → All (Fits s) b.transactions
      → apply_block_with_undo s b ≡ ok (s', undo)
      → (o : Outpoint) → lookup o (revert_utxos undo s') ≡ lookup o s
  unfolding apply_block_with_undo revert_utxos
  revert-apply s s' b undo keyed fits h o =
      let t =
        apply_txs-IsTraced s keyed b.header.height 0 s s' undo b.transactions
          (λ o u v p q. ground arith) fits h in
      lookup-put_all s (delete_all undo.created_outpoints s') undo.spent_utxos o t.from (
        ground (
          arith,
          lookup-delete_all o undo.created_outpoints s',
          t.changed o,
          contains-AreFresh s undo.created_outpoints o t.fresh,
        ))
