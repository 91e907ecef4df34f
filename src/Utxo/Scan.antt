-- ===== src/Utxo/Scan.antt =====
-- internal/utxo/store.go: GetByAddress and GetStakes return the unspent outputs of an owner.
use mathlib.Core.Path.{subst}
use klingnet.Prelude.{
  ℕ, ◌+◌, ◌≡◌, sym, ap, ◌∙◌, true, List, [], ◌∷◌, ◌++◌, none, some, ltb, ◌==◌, ==_iff,
  if◌then◌else◌, ok, err, bytes_equal, bytes_equal_iff, bytes_eq, arith, Bool-cases, Option-cases,
  inl, inr, ◌⊎◌, ◌≢◌, ◌||◌, length, drop, All,
}
use klingnet.Prelude.Assoc.{Assoc, lookup, is_some}
use klingnet.Utxo.{Utxo}
use klingnet.Utxo.Keys.{IsOutpoint, index_key, outpoint_from}
use klingnet.Utxo.Store.{
  UtxoCodec, get_utxo, append_found, load_entries, get_by_address, get_stakes, clear_all,
  bad_pub_key_size,
}
use klingnet.Utxo.Owners.{Index, by_address, by_stake, tag_of, owner_of, width_of}
use klingnet.Utxo.Indexed.{IsTrue, IsIndexed}
use klingnet.Utxo.Loads.{
  Lists, outpoint_from-index_key, length-index_key, prefix_names_owner, weaken_prefix,
  lookup_listed, not_short, has_prefix-own_entry, is_some-lookup-append, step-All, step-Lists,
  step-Lists_new,
}
use klingnet.Utxo.Widths.{ok-injective, length-owner_of}
use klingnet.Storage.{Db, has_prefix, get-delete_keys}

module _ {S : Type 0} ⦃db : Db S⦄ ⦃json : UtxoCodec⦄ where
  -- An unspent output of the owner.
  abbrev pub IsOwned : Index → List ℕ → S → Utxo → Type 0
  IsOwned c a s u = (get_utxo u.outpoint s ≡ ok u) × (owner_of c u.script ≡ some a)

  -- An unspent output of the owner, which the entry at the key names.
  abbrev pub IsLoaded : Index → List ℕ → List ℕ → S → Utxo → Type 0
  IsLoaded c a k s u = IsOwned c a s u × (k ≡ index_key (tag_of c) a u.outpoint)

  pub entry-IsLoaded :
      (c : Index) (a k : List ℕ) (u : Utxo) (s : S)
      → IsTrue c s
      → length a ≡ width_of c
      → is_some (db.get k s) ≡ true
      → has_prefix (tag_of c ∷ 47 ∷ a) k ≡ true
      → get_utxo (outpoint_from (drop (2 + width_of c) k)) s ≡ ok u
      → IsLoaded c a k s u
  entry-IsLoaded c a k u s h width there under got = elim (Option-cases (db.get k s)) [
    | inl missing ↦ ground (arith, missing, there)
    | inr (v, e) ↦
        let entry = h k v (weaken_prefix c a k under) e in
        let wide = length-owner_of c entry.utxo.script entry.owner entry.owned in
        let at : outpoint_from (drop (2 + width_of c) k) ≡ entry.utxo.outpoint =
          sym (ap (λ z. outpoint_from (drop (2 + width_of c) z)) entry.key)
          ∙ outpoint_from-index_key c entry.owner entry.utxo.outpoint wide entry.wire.0 in
        let stored : u ≡ entry.utxo =
          ok-injective got (ap (λ o. get_utxo o s) at ∙ entry.unspent) in
        let names : a ≡ entry.owner =
          prefix_names_owner c a entry.owner entry.utxo.outpoint (width ∙ sym wide)
            (ap (has_prefix (tag_of c ∷ 47 ∷ a)) entry.key ∙ under) in
        subst (λ (x : Utxo). IsLoaded c a k s x) (sym stored)
          (
            (entry.unspent, entry.owned ∙ ap some (sym names)),
            sym entry.key ∙ ap (λ z. index_key (tag_of c) z entry.utxo.outpoint) (sym names),
          )
  ]

  load_entries-IsOwned :
      (c : Index) (a : List ℕ) (entries : Assoc (List ℕ) (List ℕ)) (s : S)
      → IsTrue c s
      → length a ≡ width_of c
      → All (λ e. is_some (db.get e.0 s) ≡ true) entries
      → All (λ e. has_prefix (tag_of c ∷ 47 ∷ a) e.0 ≡ true) entries
      → All (IsOwned c a s) (load_entries (2 + width_of c) entries s)
  unfolding load_entries append_found
  load_entries-IsOwned c a [] s h width there under = tt
  load_entries-IsOwned c a ((k, v) ∷ entries) s h width there under =
      step-All (IsOwned c a s) (ltb (length k) (2 + width_of c + 36))
        (get_utxo (outpoint_from (drop (2 + width_of c) k)) s)
        (load_entries (2 + width_of c) entries s)
        (load_entries-IsOwned c a entries s h width there.1 under.1)
        (λ u long got. (entry-IsLoaded c a k u s h width there.0 under.0 got).0)

  load_entries-Lists :
      (c : Index) (u : Utxo) (k v : List ℕ) (entries : Assoc (List ℕ) (List ℕ)) (s : S)
      → get_utxo (outpoint_from (drop (2 + width_of c) k)) s ≡ ok u
      → length k ≡ 2 + width_of c + 36
      → lookup k entries ≡ some v
      → Lists u (load_entries (2 + width_of c) entries s)
  unfolding load_entries append_found lookup
  load_entries-Lists c u k v [] s got long e = cc
  load_entries-Lists c u k v ((j, w) ∷ entries) s got long e = elim (Bool-cases (bytes_equal j k)) [
    | inl same ↦
        let key : k ≡ j = sym ((bytes_equal_iff j k).0 same) in
        step-Lists_new u (ltb (length j) (2 + width_of c + 36))
          (get_utxo (outpoint_from (drop (2 + width_of c) j)) s)
          (load_entries (2 + width_of c) entries s)
          (not_short (length j) (2 + width_of c + 36) (sym (ap length key) ∙ long))
          (subst (λ z. get_utxo (outpoint_from (drop (2 + width_of c) z)) s ≡ ok u) key got)
    | inr other ↦
        step-Lists u (ltb (length j) (2 + width_of c + 36))
          (get_utxo (outpoint_from (drop (2 + width_of c) j)) s)
          (load_entries (2 + width_of c) entries s)
          (load_entries-Lists c u k v entries s got long (ground (arith, e, other)))
  ]

  pub scanned_there : (p : List ℕ) (s : S) → All (λ e. is_some (db.get e.0 s) ≡ true) (db.scan p s)
  scanned_there p s = each (db.scan p s) (lookup_listed (db.scan p s))
    where
      each :
          (es : Assoc (List ℕ) (List ℕ))
          → All (λ e. is_some (lookup e.0 (db.scan p s)) ≡ true) es
          → All (λ e. is_some (db.get e.0 s) ≡ true) es
      each [] h = tt
      each ((k, v) ∷ es) h = (ground (arith, h.0, db.lookup-scan p k s), each es h.1)

  -- What an index's scan loads for an owner: its unspent outputs, all of them.
  abbrev pub IsAllOwned : Index → List ℕ → S → List Utxo → Type 0
  IsAllOwned c a s us =
      All (IsOwned c a s) us × ((u : Utxo) → IsOutpoint u.outpoint → IsOwned c a s u → Lists u us)

  scan-IsAllOwned :
      (c : Index) (a : List ℕ) (s : S)
      → IsIndexed c s
      → length a ≡ width_of c
      → IsAllOwned c a s (load_entries (2 + width_of c) (db.scan (tag_of c ∷ 47 ∷ a) s) s)
  scan-IsAllOwned c a s h width = (
    load_entries-IsOwned c a (db.scan (tag_of c ∷ 47 ∷ a) s) s h.1 width
        (scanned_there (tag_of c ∷ 47 ∷ a) s) (db.scan-prefix (tag_of c ∷ 47 ∷ a) s),
    λ u wide owned.
        let key = index_key (tag_of c) a u.outpoint in
        let there = h.2 u.outpoint u a wide owned.0 owned.1 in
        elim (Option-cases (db.get key s)) [
          | inl missing ↦ ground (arith, missing, there)
          | inr (v, e) ↦
              load_entries-Lists c u key v (db.scan (tag_of c ∷ 47 ∷ a) s) s
                (ap (λ o. get_utxo o s) (outpoint_from-index_key c a u.outpoint width wide)
                  ∙ owned.0)
                (length-index_key c a u.outpoint width)
                (ground (
                  arith,
                  db.lookup-scan (tag_of c ∷ 47 ∷ a) key s,
                  has_prefix-own_entry c a u.outpoint,
                  e,
                ))
        ],
  )

  -- Let the store be indexed by addresses. For an address of 20 bytes GetByAddress returns only
  -- unspent outputs whose script holds that address, and every one whose outpoint has the widths
  -- of the Go type.
  pub get_by_address-IsAllOwned :
      (a : List ℕ) (s : S)
      → IsIndexed by_address s
      → length a ≡ 20
      → IsAllOwned by_address a s (get_by_address a s)
  unfolding get_by_address
  get_by_address-IsAllOwned a s h width = scan-IsAllOwned by_address a s h width

  -- Let the store be indexed by stakes. GetStakes accepts a key of 33 bytes, and returns only
  -- unspent stakes locked by that key, and every one whose outpoint has the widths of the Go type;
  -- for a key of another length it returns an error.
  pub get_stakes-IsAllOwned :
      (a : List ℕ) (s : S)
      → IsIndexed by_stake s
      → ((length a ≡ 33)
          × ((us : List Utxo) × (get_stakes a s ≡ ok us) × IsAllOwned by_stake a s us))
        ⊎ ((length a ≢ 33) × (get_stakes a s ≡ err bad_pub_key_size))
  unfolding get_stakes
  get_stakes-IsAllOwned a s h = elim (Bool-cases (length a == 33)) [
    | inl same ↦
        let width = (==_iff (length a) 33).0 same in
        inl (
          width,
          (
            load_entries 35 (db.scan (107 ∷ 47 ∷ a) s) s,
            ground (arith, same),
            scan-IsAllOwned by_stake a s h width,
          ),
        )
    | inr other ↦ inr (ground (arith, other), ground (arith, other))
  ]

  -- After ClearAll no key under the three prefixes of the store is left, and every other key of
  -- the database keeps its value.
  pub get-clear_all :
      (j : List ℕ) (s : S)
      → db.get j (clear_all s) ≡ (
          if has_prefix (117 ∷ 47 ∷ []) j
            || (has_prefix (97 ∷ 47 ∷ []) j || has_prefix (107 ∷ 47 ∷ []) j)
          then none
          else db.get j s)
  unfolding clear_all
  get-clear_all j s =
      let us = db.scan (117 ∷ 47 ∷ []) s in
      let addrs = db.scan (97 ∷ 47 ∷ []) s in
      let ks = db.scan (107 ∷ 47 ∷ []) s in
      ground (
        arith,
        get-delete_keys (us ++ (addrs ++ ks)) j s,
        is_some-lookup-append j us (addrs ++ ks),
        is_some-lookup-append j addrs ks,
        db.lookup-scan (117 ∷ 47 ∷ []) j s,
        db.lookup-scan (97 ∷ 47 ∷ []) j s,
        db.lookup-scan (107 ∷ 47 ∷ []) j s,
      )
