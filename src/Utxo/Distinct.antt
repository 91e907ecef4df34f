-- ===== src/Utxo/Distinct.antt =====
-- internal/utxo/store.go: GetStakes returns no output twice.
use mathlib.Core.Path.{subst}
use klingnet.Prelude.{
  ℕ, ◌+◌, ◌≡◌, refl, sym, ap, Bool, true, false, List, [], ◌∷◌, Result, ok, err, ltb, inl, inr, All,
  arith, length, drop, if◌then◌else◌, bytes_eq, bytes_equal_iff, ==_iff,
}
use klingnet.Prelude.Assoc.{Assoc, lookup, is_some, IsMap}
use klingnet.Utxo.{Utxo}
use klingnet.Utxo.Keys.{index_key, outpoint_from}
use klingnet.Utxo.Store.{StoreError, UtxoCodec, get_utxo, append_found, load_entries, get_stakes}
use klingnet.Utxo.Owners.{Index, by_stake, tag_of, width_of}
use klingnet.Utxo.Indexed.{IsTrue, IsIndexed}
use klingnet.Utxo.Loads.{Lists, step-All}
use klingnet.Utxo.Scan.{entry-IsLoaded, scanned_there}
use klingnet.Storage.{Db, has_prefix}

-- No output stands twice in the list.
abbrev pub IsDistinct : List Utxo → Type 0
IsDistinct [] = Unit
IsDistinct (u ∷ us) = (Lists u us → ⊥) × IsDistinct us

All-Lists : (P : Utxo → Type 0) (us : List Utxo) (u : Utxo) → All P us → Lists u us → P u
All-Lists P [] u h there = absurd there
All-Lists P (w ∷ us) u h (inl same) = subst P same h.0
All-Lists P (w ∷ us) u h (inr there) = All-Lists P us u h.1 there

All-weaken : (P Q : Utxo → Type 0) (us : List Utxo) → ((u : Utxo) → P u → Q u) → All P us → All Q us
All-weaken P Q [] f h = tt
All-weaken P Q (u ∷ us) f h = (f u h.0, All-weaken P Q us f h.1)

-- The entries have the key of the output in the index.
abbrev HasKey : Index → List ℕ → Assoc (List ℕ) (List ℕ) → Utxo → Type 0
HasKey c a entries u = is_some (lookup (index_key (tag_of c) a u.outpoint) entries) ≡ true

HasKey-cons :
    (c : Index) (a k v : List ℕ) (entries : Assoc (List ℕ) (List ℕ)) (u : Utxo)
    → HasKey c a entries u
    → HasKey c a ((k, v) ∷ entries) u
unfolding lookup
HasKey-cons c a k v entries u h = ground (arith, h)

HasKey-new :
    (c : Index) (a k v : List ℕ) (entries : Assoc (List ℕ) (List ℕ)) (u : Utxo)
    → k ≡ index_key (tag_of c) a u.outpoint
    → HasKey c a ((k, v) ∷ entries) u
unfolding lookup
HasKey-new c a k v entries u h =
    ground (arith, (bytes_equal_iff k (index_key (tag_of c) a u.outpoint)).1 h)

step-IsDistinct :
    (skip : Bool) (r : Result StoreError Utxo) (rest : List Utxo)
    → IsDistinct rest
    → ((u : Utxo) → skip ≡ false → r ≡ ok u → Lists u rest → ⊥)
    → IsDistinct (if skip then rest else append_found r rest)
unfolding append_found
step-IsDistinct true r rest h new = h
step-IsDistinct false (err e) rest h new = h
step-IsDistinct false (ok u) rest h new = (new u refl refl, h)

module _ {S : Type 0} ⦃db : Db S⦄ ⦃json : UtxoCodec⦄ where
  load_entries-HasKey :
      (c : Index) (a : List ℕ) (entries : Assoc (List ℕ) (List ℕ)) (s : S)
      → IsTrue c s
      → length a ≡ width_of c
      → All (λ e. is_some (db.get e.0 s) ≡ true) entries
      → All (λ e. has_prefix (tag_of c ∷ 47 ∷ a) e.0 ≡ true) entries
      → All (HasKey c a entries) (load_entries (2 + width_of c) entries s)
  unfolding load_entries append_found
  load_entries-HasKey c a [] s h width there under = tt
  load_entries-HasKey c a ((k, v) ∷ entries) s h width there under =
      step-All (HasKey c a ((k, v) ∷ entries)) (ltb (length k) (2 + width_of c + 36))
        (get_utxo (outpoint_from (drop (2 + width_of c) k)) s)
        (load_entries (2 + width_of c) entries s)
        (All-weaken (HasKey c a entries) (HasKey c a ((k, v) ∷ entries))
          (load_entries (2 + width_of c) entries s) (HasKey-cons c a k v entries)
          (load_entries-HasKey c a entries s h width there.1 under.1))
        (λ u long got.
          HasKey-new c a k v entries u (entry-IsLoaded c a k u s h width there.0 under.0 got).1)

  load_entries-IsDistinct :
      (c : Index) (a : List ℕ) (entries : Assoc (List ℕ) (List ℕ)) (s : S)
      → IsTrue c s
      → length a ≡ width_of c
      → All (λ e. is_some (db.get e.0 s) ≡ true) entries
      → All (λ e. has_prefix (tag_of c ∷ 47 ∷ a) e.0 ≡ true) entries
      → IsMap entries
      → IsDistinct (load_entries (2 + width_of c) entries s)
  unfolding load_entries append_found
  load_entries-IsDistinct c a [] s h width there under once = tt
  load_entries-IsDistinct c a ((k, v) ∷ entries) s h width there under once =
      step-IsDistinct (ltb (length k) (2 + width_of c + 36))
        (get_utxo (outpoint_from (drop (2 + width_of c) k)) s)
        (load_entries (2 + width_of c) entries s)
        (load_entries-IsDistinct c a entries s h width there.1 under.1 once.1)
        (λ u long got again.
          let key = (entry-IsLoaded c a k u s h width there.0 under.0 got).1 in
          let twice =
            All-Lists (HasKey c a entries) (load_entries (2 + width_of c) entries s) u
              (load_entries-HasKey c a entries s h width there.1 under.1) again in
          ground (arith, ap (λ z. lookup z entries) key, once.0, twice))

  -- Let the store be indexed by stakes and the database visit no key of the stake's scan twice.
  -- The list that GetStakes returns for a key of 33 bytes has no output twice.
  pub get_stakes-IsDistinct :
      (a : List ℕ) (s : S) (us : List Utxo)
      → IsIndexed by_stake s
      → length a ≡ 33
      → IsMap (db.scan (107 ∷ 47 ∷ a) s)
      → get_stakes a s ≡ ok us
      → IsDistinct us
  unfolding get_stakes
  get_stakes-IsDistinct a s us h width once loads =
      let entries = db.scan (107 ∷ 47 ∷ a) s in
      let all : us ≡ load_entries 35 entries s =
        ground (arith, loads, (==_iff (length a) 33).1 width) in
      subst IsDistinct (sym all) (
        load_entries-IsDistinct by_stake a entries s h.1 width (scanned_there (107 ∷ 47 ∷ a) s)
          (db.scan-prefix (107 ∷ 47 ∷ a) s) once)
