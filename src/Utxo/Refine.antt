-- ===== src/Utxo/Refine.antt =====
-- internal/utxo: the Store in a database behaves as the Set that the chain uses.
use klingnet.Prelude.{
  ℕ, ◌≡◌, refl, ◌∙◌, false, List, [], ◌∷◌, Option, none, some, ◌==◌, if◌then◌else◌, Result, ok, err,
  All, arith,
}
use klingnet.Prelude.Assoc.{lookup-insert, lookup-erase}
use klingnet.Types.{Outpoint, same_outpoint, outpoint_eq}
use klingnet.Utxo.{Utxo, UtxoSet, get, put, delete}
use klingnet.Utxo.Keys.{IsOutpoint, utxo_key, index_key, bytes_equal-utxo_key}
use klingnet.Utxo.Store.{
  StoreError, db_not_found, IsWire, UtxoCodec, decode, found, script_address, script_stake,
  get_utxo, put_index, delete_index, put_utxo, clean_indexes, delete_utxo,
}
use klingnet.Storage.{Db}

abbrev pub listed : Option Utxo → Result StoreError Utxo
listed none = err db_not_found
listed (some u) = ok u

-- What a caller does to a Set.
pub data Change : Type 0 where
  add : Utxo → Change
  remove : Outpoint → Change

abbrev pub IsWireChange : Change → Type 0
IsWireChange (add u) = IsWire u
IsWireChange (remove o) = IsOutpoint o

abbrev pub change_set : List Change → UtxoSet → UtxoSet
change_set [] m = m
change_set (add u ∷ cs) m = change_set cs (put u m)
change_set (remove o ∷ cs) m = change_set cs (delete o m)

module _ {S : Type 0} ⦃db : Db S⦄ ⦃json : UtxoCodec⦄ where
  abbrev pub change_store : List Change → S → S
  change_store [] s = s
  change_store (add u ∷ cs) s = change_store cs (put_utxo u s)
  change_store (remove o ∷ cs) s = change_store cs (delete_utxo o s)

  pub get-put_index :
      (tag : ℕ) (owner : Option (List ℕ)) (o p : Outpoint) (s : S)
      → (tag == 117) ≡ false
      → db.get (utxo_key p) (put_index tag owner o s) ≡ db.get (utxo_key p) s
  unfolding put_index index_key utxo_key
  get-put_index tag none o p s h = refl
  get-put_index tag (some owner) o p s h =
      ground (arith, db.get-put (index_key tag owner o) [] (utxo_key p) s)

  pub get-delete_index :
      (tag : ℕ) (owner : Option (List ℕ)) (o p : Outpoint) (s : S)
      → (tag == 117) ≡ false
      → db.get (utxo_key p) (delete_index tag owner o s) ≡ db.get (utxo_key p) s
  unfolding delete_index index_key utxo_key
  get-delete_index tag none o p s h = refl
  get-delete_index tag (some owner) o p s h =
      ground (arith, db.get-delete (index_key tag owner o) (utxo_key p) s)

  get-clean_indexes :
      (r : Result StoreError Utxo) (p : Outpoint) (s : S)
      → db.get (utxo_key p) (clean_indexes r s) ≡ db.get (utxo_key p) s
  unfolding clean_indexes
  get-clean_indexes (err e) p s = refl
  get-clean_indexes (ok u) p s =
      get-delete_index 107 (script_stake u.script) u.outpoint p
        (delete_index 97 (script_address u.script) u.outpoint s) refl
      ∙ get-delete_index 97 (script_address u.script) u.outpoint p s refl

  -- What Get returns after a Put and after a Delete.
  pub get_utxo-put_utxo :
      (u : Utxo) (p : Outpoint) (s : S)
      → IsWire u
      → IsOutpoint p
      → get_utxo p (put_utxo u s) ≡ (if same_outpoint u.outpoint p then ok u else get_utxo p s)
  unfolding get_utxo put_utxo decode found
  get_utxo-put_utxo u p s wire wide =
      let s1 = db.put (utxo_key u.outpoint) (json.marshal u) s in
      let s2 = put_index 97 (script_address u.script) u.outpoint s1 in
      ground (
        arith,
        get-put_index 107 (script_stake u.script) u.outpoint p s2 refl,
        get-put_index 97 (script_address u.script) u.outpoint p s1 refl,
        db.get-put (utxo_key u.outpoint) (json.marshal u) (utxo_key p) s,
        bytes_equal-utxo_key u.outpoint p wire.0 wide,
        json.unmarshal-marshal u wire,
      )

  pub get_utxo-delete_utxo :
      (o p : Outpoint) (s : S)
      → IsOutpoint o
      → IsOutpoint p
      → get_utxo p (delete_utxo o s)
        ≡ (if same_outpoint o p then err db_not_found else get_utxo p s)
  unfolding get_utxo delete_utxo decode
  get_utxo-delete_utxo o p s old wide = ground (
    arith,
    db.get-delete (utxo_key o) (utxo_key p) (clean_indexes (get_utxo o s) s),
    get-clean_indexes (get_utxo o s) p s,
    bytes_equal-utxo_key o p old wide,
  )

  -- The store returns, at each outpoint, what the set holds.
  abbrev pub Stores : S → UtxoSet → Type 0
  Stores s m = (o : Outpoint) → IsOutpoint o → get_utxo o s ≡ listed (get o m)

  put_utxo-Stores :
      (u : Utxo) (s : S) (m : UtxoSet) → IsWire u → Stores s m → Stores (put_utxo u s) (put u m)
  put_utxo-Stores u s m wire h o wide =
      ground (arith, get_utxo-put_utxo u o s wire wide, lookup-insert u.outpoint o u m, h o wide)

  delete_utxo-Stores :
      (p : Outpoint) (s : S) (m : UtxoSet)
      → IsOutpoint p
      → Stores s m
      → Stores (delete_utxo p s) (delete p m)
  delete_utxo-Stores p s m old h o wide =
      ground (arith, get_utxo-delete_utxo p o s old wide, lookup-erase p o m, h o wide)

  -- Let a database that fills the interface DB return at each outpoint what a set of unspent
  -- outputs holds there, where JSON reads back what it wrote. After any sequence of Put of entries
  -- of the Go types' widths and of Delete, the Store returns at each outpoint what the set holds
  -- after the same changes.
  pub change_store-Stores :
      (cs : List Change) (s : S) (m : UtxoSet)
      → All IsWireChange cs
      → Stores s m
      → Stores (change_store cs s) (change_set cs m)
  change_store-Stores [] s m w h = h
  change_store-Stores (add u ∷ cs) s m w h =
      change_store-Stores cs (put_utxo u s) (put u m) w.1 (put_utxo-Stores u s m w.0 h)
  change_store-Stores (remove o ∷ cs) s m w h =
      change_store-Stores cs (delete_utxo o s) (delete o m) w.1 (delete_utxo-Stores o s m w.0 h)
