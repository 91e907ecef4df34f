-- ===== src/Utxo/Store.antt =====
-- internal/utxo/store.go: Store, which keeps the UTXO set and two indexes in a database.
use klingnet.Prelude.{
  ℕ, ◌+◌, ◌^◌, ◌<◌, ◌≡◌, Bool, not, ◌&&◌, ◌||◌, List, [], ◌∷◌, ◌++◌, Option, none, some, length,
  take, drop, contains, bytes_eq, ◌==◌, ltb, leb, if◌then◌else◌, Result, ok, err, ◌>>=◌, All,
}
use klingnet.Prelude.Assoc.{Assoc}
use klingnet.Types.{
  Outpoint, Script, script_type_p2pkh, script_type_mint, script_type_stake, address_size,
}
use klingnet.Utxo.{Utxo}
use klingnet.Utxo.Keys.{IsOutpoint, utxo_key, index_key, outpoint_from}
use klingnet.Storage.{Db, delete_keys, for_each}

pub data StoreError : Type 0 where
  db_not_found bad_json bad_pub_key_size : StoreError

-- An entry whose fields have the widths of their Go types.
abbrev pub IsWire : Utxo → Type 0
IsWire u =
    IsOutpoint u.outpoint
    × (u.value < 2 ^ 64)
    × (u.script.type < 256)
    × All (λ b. b < 256) u.script.bytes
    × (u.height < 2 ^ 64)
    × (u.locked_until < 2 ^ 64)

-- encoding/json on a UTXO: what it writes, it reads back.
pub record UtxoCodec : Type 0 where
  pub marshal : Utxo → List ℕ
  pub unmarshal : List ℕ → Option Utxo
  pub unmarshal-marshal : (u : Utxo) → IsWire u → unmarshal (marshal u) ≡ some u

abbrev pub compressed_pub_key_size : ℕ
compressed_pub_key_size = 33

-- addrKey
abbrev pub addr_key : List ℕ → Outpoint → List ℕ
addr_key addr o = index_key 97 addr o

-- stakeKey
abbrev pub stake_key : List ℕ → Outpoint → List ℕ
stake_key pub_key o = index_key 107 pub_key o

-- scriptAddress
unfoldable pub script_address : Script → Option (List ℕ)
script_address s =
    if (s.type == script_type_p2pkh || s.type == script_type_mint)
      && leb address_size (length s.bytes)
    then some (take address_size s.bytes)
    else none

-- the test of Put and Delete for the stake index
unfoldable pub script_stake : Script → Option (List ℕ)
script_stake s =
    if s.type == script_type_stake && length s.bytes == compressed_pub_key_size
    then some s.bytes
    else none

unfoldable pub found : Option Utxo → Result StoreError Utxo
found none = err bad_json
found (some u) = ok u

unfoldable pub append_found : Result StoreError Utxo → List Utxo → List Utxo
append_found (err e) us = us
append_found (ok u) us = u ∷ us

unfoldable pub add_validator : List ℕ → List (List ℕ) → List (List ℕ)
add_validator pub_key validators =
    if contains pub_key validators then validators else validators ++ pub_key ∷ []

unfoldable pub gather_validators : Assoc (List ℕ) (List ℕ) → List (List ℕ) → List (List ℕ)
gather_validators [] validators = validators
gather_validators ((k, v) ∷ entries) validators = gather_validators entries (
    if ltb (length k) (2 + compressed_pub_key_size)
    then validators
    else add_validator (take compressed_pub_key_size (drop 2 k)) validators)

unfoldable pub decode : UtxoCodec → Option (List ℕ) → Result StoreError Utxo
decode json none = err db_not_found
decode json (some bytes) = found (json.unmarshal bytes)

module _ {S : Type 0} ⦃db : Db S⦄ ⦃json : UtxoCodec⦄ where
  -- Store.Get
  unfoldable pub get_utxo : Outpoint → S → Result StoreError Utxo
  get_utxo o s = decode json (db.get (utxo_key o) s)

  -- an entry of an index, written or deleted where the script has an owner
  unfoldable pub put_index : ℕ → Option (List ℕ) → Outpoint → S → S
  put_index tag none o s = s
  put_index tag (some owner) o s = db.put (index_key tag owner o) [] s

  unfoldable pub delete_index : ℕ → Option (List ℕ) → Outpoint → S → S
  delete_index tag none o s = s
  delete_index tag (some owner) o s = db.delete (index_key tag owner o) s

  -- Store.Put: the entry, the address index and the stake index
  unfoldable pub put_utxo : Utxo → S → S
  put_utxo u s = put_index 107 (script_stake u.script) u.outpoint (
      put_index 97 (script_address u.script) u.outpoint
        (db.put (utxo_key u.outpoint) (json.marshal u) s))

  unfoldable pub clean_indexes : Result StoreError Utxo → S → S
  clean_indexes (err e) s = s
  clean_indexes (ok u) s =
      delete_index 107 (script_stake u.script) u.outpoint
        (delete_index 97 (script_address u.script) u.outpoint s)

  -- Store.Delete
  unfoldable pub delete_utxo : Outpoint → S → S
  delete_utxo o s = db.delete (utxo_key o) (clean_indexes (get_utxo o s) s)

  -- Store.Has
  unfoldable pub has_utxo : Outpoint → S → Bool
  has_utxo o s = db.has (utxo_key o) s

  -- Store.ForEach: the callback on each entry, until it or the decoding fails
  unfoldable pub for_each_utxo {ℓ} :
      {A : Type ℓ} → (Utxo → A → Result StoreError A) → S → A → Result StoreError A
  for_each_utxo visit s a =
      for_each (λ k v b. found (json.unmarshal v) >>= λ u. visit u b) (db.scan (117 ∷ 47 ∷ []) s) a

  -- the loop over the entries of an index, whose owners end at an offset: keys that are too short
  -- and outpoints that are not found are skipped
  unfoldable pub load_entries : ℕ → Assoc (List ℕ) (List ℕ) → S → List Utxo
  load_entries off [] s = []
  load_entries off ((k, v) ∷ entries) s =
      let rest = load_entries off entries s in
      if ltb (length k) (off + 36)
      then rest
      else append_found (get_utxo (outpoint_from (drop off k)) s) rest

  -- Store.GetByAddress
  unfoldable pub get_by_address : List ℕ → S → List Utxo
  get_by_address addr s = load_entries (2 + address_size) (db.scan (97 ∷ 47 ∷ addr) s) s

  -- Store.GetStakes
  unfoldable pub get_stakes : List ℕ → S → Result StoreError (List Utxo)
  get_stakes pub_key s =
      if not (length pub_key == compressed_pub_key_size)
      then err bad_pub_key_size
      else ok (load_entries (2 + compressed_pub_key_size) (db.scan (107 ∷ 47 ∷ pub_key) s) s)

  -- Store.GetAllStakedValidators
  unfoldable pub get_all_staked_validators : S → List (List ℕ)
  get_all_staked_validators s = gather_validators (db.scan (107 ∷ 47 ∷ []) s) []

  -- Store.ClearAll: the keys are gathered first
  unfoldable pub clear_all : S → S
  clear_all s =
      delete_keys
        (db.scan (117 ∷ 47 ∷ []) s ++ (db.scan (97 ∷ 47 ∷ []) s ++ db.scan (107 ∷ 47 ∷ []) s)) s
