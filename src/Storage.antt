-- ===== src/Storage.antt =====
-- internal/storage/db.go: the interface DB with its laws, and batches of writes. The database on
-- disk (badger.go) calls a third-party package; MemoryDB is in Memory and PrefixDB in Prefixed.
pub mod Memory
pub mod Prefixed
pub mod Batches
pub mod Namespace
use klingnet.Prelude.{
  ℕ, ◌≡◌, Bool, true, false, ◌&&◌, List, [], ◌∷◌, Option, none, some, ◌==◌, if◌then◌else◌,
  bytes_equal, bytes_eq, All, Result, ◌>>=◌, ok, arith,
}
use klingnet.Prelude.Assoc.{Assoc, lookup, is_some}

-- strings.HasPrefix(key, prefix), with the prefix first
unfoldable pub has_prefix : List ℕ → List ℕ → Bool
has_prefix [] key = true
has_prefix (p ∷ ps) [] = false
has_prefix (p ∷ ps) (k ∷ ks) = p == k && has_prefix ps ks

-- DB, with the state that its methods change; a missing key is the only error. `scan prefix` lists
-- the entries that ForEach visits, in its order.
pub record Db (S : Type 0) : Type 0 where
  pub get : List ℕ → S → Option (List ℕ)
  pub put : List ℕ → List ℕ → S → S
  pub delete : List ℕ → S → S
  pub has : List ℕ → S → Bool
  pub scan : List ℕ → S → Assoc (List ℕ) (List ℕ)
  pub get-put :
      (k v j : List ℕ) (s : S) → get j (put k v s) ≡ (if bytes_equal k j then some v else get j s)
  pub get-delete :
      (k j : List ℕ) (s : S) → get j (delete k s) ≡ (if bytes_equal k j then none else get j s)
  pub has-get : (k : List ℕ) (s : S) → has k s ≡ is_some (get k s)
  pub lookup-scan :
      (p k : List ℕ) (s : S) → lookup k (scan p s) ≡ (if has_prefix p k then get k s else none)
  pub scan-prefix : (p : List ℕ) (s : S) → All (λ e. has_prefix p e.0 ≡ true) (scan p s)

-- ForEach with a callback that changes `A` and may fail, over the entries it visits
unfoldable pub for_each {ℓ} :
    {E : Type 0} {A : Type ℓ}
    → (List ℕ → List ℕ → A → Result E A)
    → Assoc (List ℕ) (List ℕ)
    → A
    → Result E A
for_each visit [] a = ok a
for_each visit ((k, v) ∷ entries) a = visit k v a >>= for_each visit entries

module _ {S : Type 0} ⦃db : Db S⦄ where
  -- `for _, key := range keys { db.Delete(key) }` over the keys of the entries
  unfoldable pub delete_keys : Assoc (List ℕ) (List ℕ) → S → S
  delete_keys [] s = s
  delete_keys ((k, v) ∷ entries) s = delete_keys entries (db.delete k s)

  pub get-delete_keys :
      (entries : Assoc (List ℕ) (List ℕ)) (j : List ℕ) (s : S)
      → db.get j (delete_keys entries s) ≡ (if is_some (lookup j entries) then none else db.get j s)
  unfolding delete_keys lookup
  get-delete_keys [] j s = ground arith
  get-delete_keys ((k, v) ∷ entries) j s =
      ground (arith, get-delete_keys entries j (db.delete k s), db.get-delete k j s)
