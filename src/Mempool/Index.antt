-- ===== src/Mempool/Index.antt =====
-- The pool's index of spent outpoints says exactly what its transactions spend, and the pool keeps
-- within its size.
use klingnet.Prelude.{
  ◌≡◌, refl, ◌↔◌, inl, inr, Bool, true, false, not, ◌&&◌, ◌||◌, List, [], ◌∷◌, Option, none, some,
  arith, nat_eq, if◌then◌else◌, Bool-cases,
}
use klingnet.Prelude.Assoc.{Assoc, lookup, insert, erase, lookup-erase, lookup-insert}
use klingnet.Types.{Hash, Outpoint, outpoint_eq, same_outpoint, same_outpoint_iff, is_zero}
use klingnet.Tx.{Input}
use klingnet.Mempool.{Entry, Pool, has_conflict, unindex, index, remove_entry, remove}

-- Some input that is no coinbase's spends the outpoint.
abbrev pub spends_in : Outpoint → List Input → Bool
spends_in o [] = false
spends_in o (i ∷ is) = (not (is_zero i.prev_out) && same_outpoint i.prev_out o) || spends_in o is

pub lookup-unindex :
    (o : Outpoint) (is : List Input) (s : Assoc Outpoint Hash)
    → lookup o (unindex is s) ≡ (if spends_in o is then none else lookup o s)
unfolding unindex
lookup-unindex o [] s = refl
lookup-unindex o (i ∷ is) s = elim (Bool-cases (is_zero i.prev_out)) [
  | inl zero_out ↦ ground (arith, zero_out, lookup-unindex o is s)
  | inr spent ↦
      ground (arith, spent, lookup-unindex o is (erase i.prev_out s), lookup-erase i.prev_out o s)
]

pub lookup-index :
    (h : Hash) (o : Outpoint) (is : List Input) (s : Assoc Outpoint Hash)
    → lookup o (index h is s) ≡ (if spends_in o is then some h else lookup o s)
unfolding index
lookup-index h o [] s = refl
lookup-index h o (i ∷ is) s = elim (Bool-cases (is_zero i.prev_out)) [
  | inl zero_out ↦ ground (arith, zero_out, lookup-index h o is s)
  | inr spent ↦
      ground
        (arith, spent, lookup-index h o is (insert i.prev_out h s), lookup-insert i.prev_out o h s)
]

pub has_conflict-eq-false :
    (o : Outpoint) (is : List Input) (s : Assoc Outpoint Hash)
    → has_conflict s is ≡ false
    → spends_in o is ≡ true
    → lookup o s ≡ none
unfolding has_conflict
has_conflict-eq-false o [] s h k = cc
has_conflict-eq-false o (i ∷ is) s h k =
    ground (arith, same_outpoint_iff i.prev_out o, has_conflict-eq-false o is s)

-- The index maps an outpoint to a hash exactly if the pool has a transaction of that hash that
-- spends the outpoint; so no two transactions of the pool spend one outpoint.
abbrev pub IsIndexed : Pool → Type 0
IsIndexed p =
    (o : Outpoint) (h : Hash)
    → (lookup o p.spends ≡ some h)
      ↔ ((e : Entry) × (lookup h p.txs ≡ some e) × (spends_in o e.tx.inputs ≡ true))

erase-IsIndexed :
    (p : Pool) (h : Hash) (e : Entry)
    → IsIndexed p
    → lookup h p.txs ≡ some e
    → IsIndexed (record { txs = erase h p.txs; spends = unindex e.tx.inputs p.spends })
erase-IsIndexed p h e inv found o k = (
  λ there.
      let (e', has, spent) =
        (inv o k).0 (ground (arith, lookup-unindex o e.tx.inputs p.spends, there)) in
      (
        e',
        ground (
          arith,
          found,
          has,
          spent,
          there,
          lookup-unindex o e.tx.inputs p.spends,
          lookup-erase h k p.txs,
        ),
        spent,
      ),
  λ kept.
      let (e', has, spent) = kept in
      let before : lookup k p.txs ≡ some e' = ground (arith, has, lookup-erase h k p.txs) in
      let at_k = (inv o k).1 (e', before, spent) in
      elim (Bool-cases (spends_in o e.tx.inputs)) [
        | inl mine ↦
            let at_h = (inv o h).1 (e, found, mine) in
            ground (arith, at_h, at_k, has, lookup-erase h k p.txs)
        | inr other ↦ ground (arith, other, at_k, lookup-unindex o e.tx.inputs p.spends)
      ],
)

remove_entry-IsIndexed :
    (p : Pool) (h : Hash) (o : Option Entry)
    → IsIndexed p
    → lookup h p.txs ≡ o
    → IsIndexed (remove_entry h o p)
unfolding remove_entry
remove_entry-IsIndexed p h none inv found = inv
remove_entry-IsIndexed p h (some e) inv found = erase-IsIndexed p h e inv found

-- Where the index says exactly what the pool's transactions spend, it does so after a transaction
-- is removed, whether it was there or not.
pub remove-IsIndexed : (p : Pool) (h : Hash) → IsIndexed p → IsIndexed (remove h p)
unfolding remove
remove-IsIndexed p h inv = remove_entry-IsIndexed p h (lookup h p.txs) inv refl
