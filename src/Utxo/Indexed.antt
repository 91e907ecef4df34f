-- ===== src/Utxo/Indexed.antt =====
-- internal/utxo/store.go: the invariant of the address index and the stake index.
use mathlib.Core.Path.{subst}
use klingnet.Prelude.{
  ℕ, ◌≡◌, ◌≢◌, sym, ap, ◌∙◌, true, false, List, [], ◌∷◌, some, ok, err, bytes_equal,
  bytes_equal_iff, arith, Bool-cases, Option-cases, Result-cases, All, inl, inr,
}
use klingnet.Prelude.Assoc.{is_some}
use klingnet.Types.{Outpoint, same_outpoint, same_outpoint_iff}
use klingnet.Utxo.{Utxo}
use klingnet.Utxo.Keys.{IsOutpoint, index_key}
use klingnet.Utxo.Store.{db_not_found, IsWire, UtxoCodec, get_utxo, put_utxo, delete_utxo}
use klingnet.Utxo.Refine.{
  Change, add, remove, IsWireChange, change_store, get_utxo-put_utxo, get_utxo-delete_utxo,
}
use klingnet.Utxo.Owners.{
  Index, tag_of, owner_of, prefix_of, matches, read-put_utxo, read-delete_utxo,
  read-delete_utxo_absent,
}
use klingnet.Utxo.Widths.{spared, ok-injective, prefix_of-index_key}
use klingnet.Storage.{Db, has_prefix}

-- What an entry of an index under a key stands for: an unspent output with its owner.
pub record Entry {S : Type 0} (db : Db S) (json : UtxoCodec) (c : Index) (s : S) (k : List ℕ)
    : Type 0 where
  pub utxo : Utxo
  pub owner : List ℕ
  pub wire : IsWire utxo
  pub unspent : get_utxo ⦃db = db⦄ ⦃json = json⦄ utxo.outpoint s ≡ ok utxo
  pub owned : owner_of c utxo.script ≡ some owner
  pub key : index_key (tag_of c) owner utxo.outpoint ≡ k

module _ {S : Type 0} ⦃db : Db S⦄ ⦃json : UtxoCodec⦄ where
  -- Every entry stands under its own outpoint.
  abbrev pub IsKept : S → Type 0
  IsKept s = (o : Outpoint) (u : Utxo) → IsOutpoint o → get_utxo o s ≡ ok u → u.outpoint ≡ o

  -- Every key of the index stands for an unspent output of its owner.
  abbrev pub IsTrue : Index → S → Type 0
  IsTrue c s =
      (k v : List ℕ) → has_prefix (prefix_of c) k ≡ true → db.get k s ≡ some v → Entry db json c s k

  -- Every unspent output that has an owner is in the index.
  abbrev pub IsComplete : Index → S → Type 0
  IsComplete c s =
      (o : Outpoint) (u : Utxo) (a : List ℕ)
      → IsOutpoint o
      → get_utxo o s ≡ ok u
      → owner_of c u.script ≡ some a
      → is_some (db.get (index_key (tag_of c) a o) s) ≡ true

  abbrev pub IsIndexed : Index → S → Type 0
  IsIndexed c s = IsKept s × IsTrue c s × IsComplete c s

  put_utxo-IsKept : (u : Utxo) (s : S) → IsWire u → IsKept s → IsKept (put_utxo u s)
  put_utxo-IsKept u s wire h o w wide got =
      ground (arith, get_utxo-put_utxo u o s wire wide, same_outpoint_iff u.outpoint o, h o w wide)

  delete_utxo-IsKept : (p : Outpoint) (s : S) → IsOutpoint p → IsKept s → IsKept (delete_utxo p s)
  delete_utxo-IsKept p s old h o w wide got =
      ground (arith, get_utxo-delete_utxo p o s old wide, h o w wide)

  -- An entry stays one in a store where its output is still unspent.
  carry :
      (c : Index) (s t : S) (k : List ℕ) (entry : Entry db json c s k)
      → get_utxo entry.utxo.outpoint t ≡ ok entry.utxo
      → Entry db json c t k
  carry c s t k entry unspent = record {
    utxo = entry.utxo;
    owner = entry.owner;
    wire = entry.wire;
    unspent = unspent;
    owned = entry.owned;
    key = entry.key;
  }

  carry-put_utxo :
      (c : Index) (u : Utxo) (s : S) (k : List ℕ)
      → IsWire u
      → get_utxo u.outpoint s ≡ err db_not_found
      → Entry db json c s k
      → Entry db json c (put_utxo u s) k
  carry-put_utxo c u s k wire fresh entry =
      let clash : u.outpoint ≡ entry.utxo.outpoint → ok entry.utxo ≡ err db_not_found =
        λ same. sym entry.unspent ∙ ap (λ o. get_utxo o s) (sym same) ∙ fresh in
      carry c s (put_utxo u s) k entry (
        ground (
          arith,
          get_utxo-put_utxo u entry.utxo.outpoint s wire entry.wire.0,
          same_outpoint_iff u.outpoint entry.utxo.outpoint,
          clash,
          entry.unspent,
        ))

  new_entry :
      (c : Index) (u : Utxo) (a k : List ℕ) (s : S)
      → IsWire u
      → owner_of c u.script ≡ some a
      → bytes_equal (index_key (tag_of c) a u.outpoint) k ≡ true
      → Entry db json c (put_utxo u s) k
  new_entry c u a k s wire owns same = record {
    utxo = u;
    owner = a;
    wire = wire;
    unspent = ground (
      arith,
      get_utxo-put_utxo u u.outpoint s wire wire.0,
      same_outpoint_iff u.outpoint u.outpoint,
    );
    owned = owns;
    key = (bytes_equal_iff (index_key (tag_of c) a u.outpoint) k).0 same;
  }

  put_utxo-IsTrue :
      (c : Index) (u : Utxo) (s : S)
      → IsWire u
      → get_utxo u.outpoint s ≡ err db_not_found
      → IsTrue c s
      → IsTrue c (put_utxo u s)
  put_utxo-IsTrue c u s wire fresh h k v pre e = elim (Option-cases (owner_of c u.script)) [
    | inl none_owns ↦
        carry-put_utxo c u s k wire fresh (h k v pre (ground (arith, read-put_utxo c u k s pre)))
    | inr (a, owns) ↦ elim (Bool-cases (bytes_equal (index_key (tag_of c) a u.outpoint) k)) [
      | inl same ↦ new_entry c u a k s wire owns same
      | inr other ↦
          carry-put_utxo c u s k wire fresh (h k v pre (ground (arith, read-put_utxo c u k s pre)))
    ]
  ]

  put_utxo-IsComplete :
      (c : Index) (u : Utxo) (s : S) → IsWire u → IsComplete c s → IsComplete c (put_utxo u s)
  put_utxo-IsComplete c u s wire h o w a wide got owns =
      let key = index_key (tag_of c) a o in
      let read = read-put_utxo c u key s (prefix_of-index_key c a o) in
      elim (Bool-cases (same_outpoint u.outpoint o)) [
        | inl same ↦
            let here : u.outpoint ≡ o = (same_outpoint_iff u.outpoint o).0 same in
            let stored : u ≡ w = ground (arith, get_utxo-put_utxo u o s wire wide) in
            let owned : owner_of c u.script ≡ some a =
              ap (λ (x : Utxo). owner_of c x.script) stored ∙ owns in
            let hit : bytes_equal (index_key (tag_of c) a u.outpoint) key ≡ true =
              (bytes_equal_iff (index_key (tag_of c) a u.outpoint) key).1
                (ap (index_key (tag_of c) a) here) in
            ground (arith, read, owned, hit)
        | inr other ↦
            let old : get_utxo o s ≡ ok w = ground (arith, get_utxo-put_utxo u o s wire wide) in
            ground (arith, read, h o w a wide old owns)
      ]

  carry-delete_utxo :
      (c : Index) (p : Outpoint) (s : S) (k : List ℕ) (entry : Entry db json c s k)
      → IsOutpoint p
      → p ≢ entry.utxo.outpoint
      → Entry db json c (delete_utxo p s) k
  carry-delete_utxo c p s k entry old apart = carry c s (delete_utxo p s) k entry (
      ground (
        arith,
        get_utxo-delete_utxo p entry.utxo.outpoint s old entry.wire.0,
        same_outpoint_iff p entry.utxo.outpoint,
        apart,
        entry.unspent,
      ))

  -- The entry that Delete finds is the one under the key.
  entry_matches :
      (c : Index) (p : Outpoint) (u : Utxo) (s : S) (k : List ℕ) (entry : Entry db json c s k)
      → p ≡ entry.utxo.outpoint
      → get_utxo p s ≡ ok u
      → matches (tag_of c) (owner_of c u.script) u.outpoint k ≡ true
  entry_matches c p u s k entry same got =
      let stored : entry.utxo ≡ u =
        ok-injective (ap (λ o. get_utxo o s) same ∙ entry.unspent) got in
      let hit : bytes_equal (index_key (tag_of c) entry.owner entry.utxo.outpoint) k ≡ true =
        (bytes_equal_iff (index_key (tag_of c) entry.owner entry.utxo.outpoint) k).1 entry.key in
      subst (λ (x : Utxo). matches (tag_of c) (owner_of c x.script) x.outpoint k ≡ true) stored
        (ap (λ w. matches (tag_of c) w entry.utxo.outpoint k) entry.owned ∙ hit)

  delete_utxo-IsTrue :
      (c : Index) (p : Outpoint) (s : S) → IsOutpoint p → IsTrue c s → IsTrue c (delete_utxo p s)
  delete_utxo-IsTrue c p s old h k v pre e = elim (Result-cases (get_utxo p s)) [
    | inl (u, got) ↦
        let read = read-delete_utxo c p u k s got pre in
        let entry = h k v pre (ground (arith, read)) in
        carry-delete_utxo c p s k entry old (λ same.
          let hit = entry_matches c p u s k entry same got in absurd (ground (arith, read, hit)))
    | inr (r, missing) ↦
        let entry = h k v pre (ground (arith, read-delete_utxo_absent c p r k s missing pre)) in
        carry-delete_utxo c p s k entry old (λ same.
          let clash : ok entry.utxo ≡ err r =
            sym entry.unspent ∙ ap (λ o. get_utxo o s) (sym same) ∙ missing in
          cc)
  ]

  delete_utxo-IsComplete :
      (c : Index) (p : Outpoint) (s : S)
      → IsOutpoint p
      → IsKept s
      → IsComplete c s
      → IsComplete c (delete_utxo p s)
  delete_utxo-IsComplete c p s old kept h o w a wide got owns =
      let key = index_key (tag_of c) a o in
      let apart : same_outpoint p o ≡ false = ground (arith, get_utxo-delete_utxo p o s old wide) in
      let before : get_utxo o s ≡ ok w = ground (arith, get_utxo-delete_utxo p o s old wide) in
      let there = h o w a wide before owns in
      elim (Result-cases (get_utxo p s)) [
        | inl (u, got_p) ↦
            let at_p = spared c w.script u.script a o p wide old apart owns in
            let miss : matches (tag_of c) (owner_of c u.script) u.outpoint key ≡ false =
              subst (λ z. matches (tag_of c) (owner_of c u.script) z key ≡ false)
                (sym (kept p u old got_p)) at_p in
            ground
              (arith, read-delete_utxo c p u key s got_p (prefix_of-index_key c a o), miss, there)
        | inr (r, missing) ↦
            ground (
              arith,
              read-delete_utxo_absent c p r key s missing (prefix_of-index_key c a o),
              there,
            )
      ]

  pub put_utxo-IsIndexed :
      (c : Index) (u : Utxo) (s : S)
      → IsWire u
      → get_utxo u.outpoint s ≡ err db_not_found
      → IsIndexed c s
      → IsIndexed c (put_utxo u s)
  put_utxo-IsIndexed c u s wire fresh h = (
    put_utxo-IsKept u s wire h.0,
    put_utxo-IsTrue c u s wire fresh h.1,
    put_utxo-IsComplete c u s wire h.2,
  )

  pub delete_utxo-IsIndexed :
      (c : Index) (p : Outpoint) (s : S)
      → IsOutpoint p
      → IsIndexed c s
      → IsIndexed c (delete_utxo p s)
  delete_utxo-IsIndexed c p s old h = (
    delete_utxo-IsKept p s old h.0,
    delete_utxo-IsTrue c p s old h.1,
    delete_utxo-IsComplete c p s old h.0 h.2,
  )

  -- Each Put of a sequence is of an outpoint that the store does not have then.
  abbrev pub IsFresh : List Change → S → Type 0
  IsFresh [] s = Unit
  IsFresh (add u ∷ cs) s = (get_utxo u.outpoint s ≡ err db_not_found) × IsFresh cs (put_utxo u s)
  IsFresh (remove o ∷ cs) s = IsFresh cs (delete_utxo o s)

  -- Let each entry of the store stand under its own outpoint, let each key of an index (that of
  -- addresses or that of stakes) stand for an unspent output with its owner, and let each unspent
  -- output with an owner be in the index. Any sequence of Put and Delete with values of the Go
  -- types' widths keeps this, if each Put is of an outpoint that the store does not have then.
  pub change_store-IsIndexed :
      (c : Index) (cs : List Change) (s : S)
      → All IsWireChange cs
      → IsFresh cs s
      → IsIndexed c s
      → IsIndexed c (change_store cs s)
  change_store-IsIndexed c [] s w fresh h = h
  change_store-IsIndexed c (add u ∷ cs) s w fresh h =
      change_store-IsIndexed c cs (put_utxo u s) w.1 fresh.1
        (put_utxo-IsIndexed c u s w.0 fresh.0 h)
  change_store-IsIndexed c (remove o ∷ cs) s w fresh h =
      change_store-IsIndexed c cs (delete_utxo o s) w.1 fresh (delete_utxo-IsIndexed c o s w.0 h)
