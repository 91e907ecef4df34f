-- ===== src/Utxo/Loads.antt =====
-- internal/utxo/store.go: the keys that a scan of an index meets, and one turn of its loop.
use klingnet.Prelude.{
  drop-append, ℕ, ◌+◌, ◌≡◌, refl, ap, ◌∙◌, Bool, true, false, List, [], ◌∷◌, ◌++◌, ltb, ==_iff,
  if◌then◌else◌, Result, ok, err, bytes_equal_iff, bytes_eq, arith, inl, inr, ◌⊎◌, ◌||◌, length,
  drop, All, length-append,
}
use klingnet.Prelude.Assoc.{Assoc, lookup, is_some}
use klingnet.Types.{Outpoint}
use klingnet.Utxo.{Utxo}
use klingnet.Utxo.Keys.{
  IsOutpoint, index_key, outpoint_bytes, outpoint_from, outpoint_from-outpoint_bytes,
  length-outpoint_bytes,
}
use klingnet.Utxo.Store.{StoreError, append_found}
use klingnet.Utxo.Owners.{Index, by_address, by_stake, tag_of, width_of, prefix_of}
use klingnet.Utxo.Widths.{ok-injective}
use klingnet.Storage.{has_prefix}

-- The list has the output.
abbrev pub Lists : Utxo → List Utxo → Type 0
Lists u [] = ⊥
Lists u (w ∷ ws) = (w ≡ u) ⊎ Lists u ws

pub length-index_key :
    (c : Index) (a : List ℕ) (o : Outpoint)
    → length a ≡ width_of c
    → length (index_key (tag_of c) a o) ≡ 2 + width_of c + 36
unfolding index_key
length-index_key c a o h =
    omega (arith, length-append a (outpoint_bytes o), length-outpoint_bytes o, h)

drop-index_key :
    (c : Index) (a : List ℕ) (o : Outpoint)
    → length a ≡ width_of c
    → drop (2 + width_of c) (index_key (tag_of c) a o) ≡ outpoint_bytes o
unfolding index_key
drop-index_key by_address a o h = drop-append a (outpoint_bytes o) 20 h
drop-index_key by_stake a o h = drop-append a (outpoint_bytes o) 33 h

pub outpoint_from-index_key :
    (c : Index) (a : List ℕ) (o : Outpoint)
    → length a ≡ width_of c
    → IsOutpoint o
    → outpoint_from (drop (2 + width_of c) (index_key (tag_of c) a o)) ≡ o
outpoint_from-index_key c a o h wide =
    ap outpoint_from (drop-index_key c a o h) ∙ outpoint_from-outpoint_bytes o wide

owner_under : (a b rest : List ℕ) → length a ≡ length b → has_prefix a (b ++ rest) ≡ true → a ≡ b
unfolding has_prefix
owner_under [] [] rest width h = refl
owner_under [] (y ∷ b) rest width h = absurd (omega arith)
owner_under (x ∷ a) [] rest width h = absurd (omega arith)
owner_under (x ∷ a) (y ∷ b) rest width h =
    ground (arith, owner_under a b rest (omega arith), ==_iff x y)

pub weaken_prefix :
    (c : Index) (a k : List ℕ)
    → has_prefix (tag_of c ∷ 47 ∷ a) k ≡ true
    → has_prefix (prefix_of c) k ≡ true
unfolding has_prefix
weaken_prefix c a [] h = cc
weaken_prefix c a (x ∷ []) h = ground arith
weaken_prefix c a (x ∷ y ∷ k) h = ground arith

-- A key under an owner's prefix belongs to that owner.
pub prefix_names_owner :
    (c : Index) (a b : List ℕ) (o : Outpoint)
    → length a ≡ length b
    → has_prefix (tag_of c ∷ 47 ∷ a) (index_key (tag_of c) b o) ≡ true
    → a ≡ b
unfolding has_prefix index_key
prefix_names_owner by_address a b o width h = owner_under a b (outpoint_bytes o) width h
prefix_names_owner by_stake a b o width h = owner_under a b (outpoint_bytes o) width h

pub lookup_listed :
    (entries : Assoc (List ℕ) (List ℕ)) → All (λ e. is_some (lookup e.0 entries) ≡ true) entries
unfolding lookup
lookup_listed entries = within entries entries (λ j h. h)
  where
    within :
        (es whole : Assoc (List ℕ) (List ℕ))
        → ((j : List ℕ) → is_some (lookup j es) ≡ true → is_some (lookup j whole) ≡ true)
        → All (λ e. is_some (lookup e.0 whole) ≡ true) es
    within [] whole h = tt
    within ((k, v) ∷ es) whole h = (
      h k (ground (arith, bytes_equal_iff k k)),
      within es whole (λ j e. h j (ground (arith, e))),
    )

has_prefix-append : (a rest : List ℕ) → has_prefix a (a ++ rest) ≡ true
unfolding has_prefix
has_prefix-append [] rest = refl
has_prefix-append (x ∷ a) rest = ground (arith, has_prefix-append a rest)

pub has_prefix-own_entry :
    (c : Index) (a : List ℕ) (o : Outpoint)
    → has_prefix (tag_of c ∷ 47 ∷ a) (index_key (tag_of c) a o) ≡ true
unfolding has_prefix index_key
has_prefix-own_entry by_address a o = has_prefix-append a (outpoint_bytes o)
has_prefix-own_entry by_stake a o = has_prefix-append a (outpoint_bytes o)

pub is_some-lookup-append :
    (j : List ℕ) (xs ys : Assoc (List ℕ) (List ℕ))
    → is_some (lookup j (xs ++ ys)) ≡ (is_some (lookup j xs) || is_some (lookup j ys))
unfolding lookup
is_some-lookup-append j [] ys = refl
is_some-lookup-append j ((k, v) ∷ xs) ys = ground (arith, is_some-lookup-append j xs ys)

pub not_short : (m n : ℕ) → m ≡ n → ltb m n ≡ false
not_short m n h = ground arith

-- One turn of the loop over the entries of an index.
pub step-All :
    (P : Utxo → Type 0) (skip : Bool) (r : Result StoreError Utxo) (rest : List Utxo)
    → All P rest
    → ((u : Utxo) → skip ≡ false → r ≡ ok u → P u)
    → All P (if skip then rest else append_found r rest)
unfolding append_found
step-All P true r rest h new = h
step-All P false (err e) rest h new = h
step-All P false (ok u) rest h new = (new u refl refl, h)

pub step-Lists :
    (u : Utxo) (skip : Bool) (r : Result StoreError Utxo) (rest : List Utxo)
    → Lists u rest
    → Lists u (if skip then rest else append_found r rest)
unfolding append_found
step-Lists u true r rest h = h
step-Lists u false (err e) rest h = h
step-Lists u false (ok w) rest h = inr h

pub step-Lists_new :
    (u : Utxo) (skip : Bool) (r : Result StoreError Utxo) (rest : List Utxo)
    → skip ≡ false
    → r ≡ ok u
    → Lists u (if skip then rest else append_found r rest)
unfolding append_found
step-Lists_new u true r rest h e = cc
step-Lists_new u false (err x) rest h e = cc
step-Lists_new u false (ok w) rest h e = inl (ok-injective refl e)
