-- ===== src/Utxo/Owners.antt =====
-- internal/utxo/store.go: what the address index and the stake index hold.
use klingnet.Prelude.{
  ℕ, ◌≡◌, refl, ap, Bool, true, false, List, [], ◌∷◌, Option, none, some, ◌==◌, if◌then◌else◌, ok,
  err, bytes_equal, bytes_eq, arith,
}
use klingnet.Types.{Outpoint, Script}
use klingnet.Utxo.{Utxo}
use klingnet.Utxo.Keys.{utxo_key, index_key}
use klingnet.Utxo.Store.{
  StoreError, UtxoCodec, script_address, script_stake, get_utxo, put_index, delete_index, put_utxo,
  clean_indexes, delete_utxo,
}
use klingnet.Storage.{Db, has_prefix}

-- The two indexes.
pub data Index : Type 0 where
  by_address by_stake : Index

abbrev pub tag_of : Index → ℕ
tag_of by_address = 97
tag_of by_stake = 107

abbrev pub owner_of : Index → Script → Option (List ℕ)
owner_of by_address s = script_address s
owner_of by_stake s = script_stake s

abbrev pub width_of : Index → ℕ
width_of by_address = 20
width_of by_stake = 33

abbrev pub prefix_of : Index → List ℕ
prefix_of c = tag_of c ∷ 47 ∷ []

-- The key is that of the owner's entry.
abbrev pub matches : ℕ → Option (List ℕ) → Outpoint → List ℕ → Bool
matches tag none o k = false
matches tag (some owner) o k = bytes_equal (index_key tag owner o) k

matches-other :
    (tag : ℕ) (owner : Option (List ℕ)) (o : Outpoint) (p k : List ℕ) (t : ℕ)
    → (tag == t) ≡ false
    → has_prefix (t ∷ p) k ≡ true
    → matches tag owner o k ≡ false
unfolding has_prefix index_key
matches-other tag none o p k t h e = refl
matches-other tag (some owner) o p [] t h e = refl
matches-other tag (some owner) o p (x ∷ k) t h e = ground arith

apart_from_entries :
    (o : Outpoint) (p k : List ℕ) (t : ℕ)
    → (117 == t) ≡ false
    → has_prefix (t ∷ p) k ≡ true
    → bytes_equal (utxo_key o) k ≡ false
unfolding has_prefix utxo_key
apart_from_entries o p [] t h e = refl
apart_from_entries o p (x ∷ k) t h e = ground arith

module _ {S : Type 0} ⦃db : Db S⦄ ⦃json : UtxoCodec⦄ where
  read-put_index :
      (tag : ℕ) (owner : Option (List ℕ)) (o : Outpoint) (k : List ℕ) (s : S)
      → db.get k (put_index tag owner o s) ≡ (if matches tag owner o k then some [] else db.get k s)
  unfolding put_index
  read-put_index tag none o k s = refl
  read-put_index tag (some owner) o k s = db.get-put (index_key tag owner o) [] k s

  read-delete_index :
      (tag : ℕ) (owner : Option (List ℕ)) (o : Outpoint) (k : List ℕ) (s : S)
      → db.get k (delete_index tag owner o s) ≡ (if matches tag owner o k then none else db.get k s)
  unfolding delete_index
  read-delete_index tag none o k s = refl
  read-delete_index tag (some owner) o k s = db.get-delete (index_key tag owner o) k s

  -- A Put, read at a key of an index.
  pub read-put_utxo :
      (c : Index) (u : Utxo) (k : List ℕ) (s : S)
      → has_prefix (prefix_of c) k ≡ true
      → db.get k (put_utxo u s)
        ≡ (if matches (tag_of c) (owner_of c u.script) u.outpoint k then some [] else db.get k s)
  unfolding put_utxo
  read-put_utxo by_address u k s e =
      let s1 = db.put (utxo_key u.outpoint) (json.marshal u) s in
      let s2 = put_index 97 (script_address u.script) u.outpoint s1 in
      ground (
        arith,
        read-put_index 107 (script_stake u.script) u.outpoint k s2,
        read-put_index 97 (script_address u.script) u.outpoint k s1,
        db.get-put (utxo_key u.outpoint) (json.marshal u) k s,
        matches-other 107 (script_stake u.script) u.outpoint (47 ∷ []) k 97 refl e,
        apart_from_entries u.outpoint (47 ∷ []) k 97 refl e,
      )
  read-put_utxo by_stake u k s e =
      let s1 = db.put (utxo_key u.outpoint) (json.marshal u) s in
      let s2 = put_index 97 (script_address u.script) u.outpoint s1 in
      ground (
        arith,
        read-put_index 107 (script_stake u.script) u.outpoint k s2,
        read-put_index 97 (script_address u.script) u.outpoint k s1,
        db.get-put (utxo_key u.outpoint) (json.marshal u) k s,
        matches-other 97 (script_address u.script) u.outpoint (47 ∷ []) k 107 refl e,
        apart_from_entries u.outpoint (47 ∷ []) k 107 refl e,
      )

  read-clean_indexes :
      (c : Index) (u : Utxo) (k : List ℕ) (s : S)
      → has_prefix (prefix_of c) k ≡ true
      → db.get k (clean_indexes (ok u) s)
        ≡ (if matches (tag_of c) (owner_of c u.script) u.outpoint k then none else db.get k s)
  unfolding clean_indexes
  read-clean_indexes by_address u k s e =
      let s1 = delete_index 97 (script_address u.script) u.outpoint s in
      ground (
        arith,
        read-delete_index 107 (script_stake u.script) u.outpoint k s1,
        read-delete_index 97 (script_address u.script) u.outpoint k s,
        matches-other 107 (script_stake u.script) u.outpoint (47 ∷ []) k 97 refl e,
      )
  read-clean_indexes by_stake u k s e =
      let s1 = delete_index 97 (script_address u.script) u.outpoint s in
      ground (
        arith,
        read-delete_index 107 (script_stake u.script) u.outpoint k s1,
        read-delete_index 97 (script_address u.script) u.outpoint k s,
        matches-other 97 (script_address u.script) u.outpoint (47 ∷ []) k 107 refl e,
      )

  -- A Delete, read at a key of an index: of the entry that is there, and where there is none.
  pub read-delete_utxo :
      (c : Index) (o : Outpoint) (u : Utxo) (k : List ℕ) (s : S)
      → get_utxo o s ≡ ok u
      → has_prefix (prefix_of c) k ≡ true
      → db.get k (delete_utxo o s)
        ≡ (if matches (tag_of c) (owner_of c u.script) u.outpoint k then none else db.get k s)
  unfolding delete_utxo
  read-delete_utxo c o u k s got e =
      let cleaned : db.get k (clean_indexes (get_utxo o s) s) ≡ db.get k (clean_indexes (ok u) s) =
        ap (λ r. db.get k (clean_indexes r s)) got in
      ground (
        arith,
        db.get-delete (utxo_key o) k (clean_indexes (get_utxo o s) s),
        cleaned,
        read-clean_indexes c u k s e,
        apart_from_entries o (47 ∷ []) k (tag_of c) (tag_is_no_entry c) e,
      )
    where
      tag_is_no_entry : (d : Index) → (117 == tag_of d) ≡ false
      tag_is_no_entry by_address = refl
      tag_is_no_entry by_stake = refl

  pub read-delete_utxo_absent :
      (c : Index) (o : Outpoint) (r : StoreError) (k : List ℕ) (s : S)
      → get_utxo o s ≡ err r
      → has_prefix (prefix_of c) k ≡ true
      → db.get k (delete_utxo o s) ≡ db.get k s
  unfolding delete_utxo clean_indexes
  read-delete_utxo_absent by_address o r k s got e = ground (
    arith,
    db.get-delete (utxo_key o) k (clean_indexes (get_utxo o s) s),
    got,
    apart_from_entries o (47 ∷ []) k 97 refl e,
  )
  read-delete_utxo_absent by_stake o r k s got e = ground (
    arith,
    db.get-delete (utxo_key o) k (clean_indexes (get_utxo o s) s),
    got,
    apart_from_entries o (47 ∷ []) k 107 refl e,
  )
