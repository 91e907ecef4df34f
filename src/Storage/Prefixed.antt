-- ===== src/Storage/Prefixed.antt =====
-- internal/storage/prefix.go: PrefixDB, a part of another DB under a prefix, fills the interface DB.
use klingnet.Prelude.{
  ℕ, ◌≡◌, refl, true, List, [], ◌∷◌, ◌++◌, none, some, if◌then◌else◌, length, drop, bytes_equal,
  bytes_eq, All, arith,
}
use klingnet.Prelude.Assoc.{Assoc, lookup}
use klingnet.Storage.{has_prefix, Db}

-- PrefixDB.prefixed
unfoldable pub prefixed : List ℕ → List ℕ → List ℕ
prefixed p key = p ++ key

-- the callback of ForEach gets each key without the prefix
unfoldable pub strip : List ℕ → Assoc (List ℕ) (List ℕ) → Assoc (List ℕ) (List ℕ)
strip p [] = []
strip p ((k, v) ∷ entries) = (drop (length p) k, v) ∷ strip p entries

pub bytes_equal-prefixed :
    (p j k : List ℕ) → bytes_equal (prefixed p j) (prefixed p k) ≡ bytes_equal j k
unfolding prefixed
bytes_equal-prefixed [] j k = refl
bytes_equal-prefixed (x ∷ p) j k = ground (arith, bytes_equal-prefixed p j k)

pub has_prefix-prefixed :
    (p q k : List ℕ) → has_prefix (prefixed p q) (prefixed p k) ≡ has_prefix q k
unfolding prefixed has_prefix
has_prefix-prefixed [] q k = refl
has_prefix-prefixed (x ∷ p) q k = ground (arith, has_prefix-prefixed p q k)

-- A key under a prefix is the prefix and what stripping it leaves.
bytes_equal-drop :
    (p j k : List ℕ)
    → has_prefix p j ≡ true
    → bytes_equal (drop (length p) j) k ≡ bytes_equal j (prefixed p k)
unfolding prefixed has_prefix
bytes_equal-drop [] j k h = refl
bytes_equal-drop (x ∷ p) [] k h = cc
bytes_equal-drop (x ∷ p) (y ∷ j) k h = ground (arith, bytes_equal-drop p j k)

has_prefix-drop :
    (p q j : List ℕ) → has_prefix (prefixed p q) j ≡ true → has_prefix q (drop (length p) j) ≡ true
unfolding prefixed has_prefix
has_prefix-drop [] q j h = h
has_prefix-drop (x ∷ p) q [] h = cc
has_prefix-drop (x ∷ p) q (y ∷ j) h = ground (arith, has_prefix-drop p q j)

pub has_prefix-weaken :
    (p q j : List ℕ) → has_prefix (prefixed p q) j ≡ true → has_prefix p j ≡ true
unfolding prefixed has_prefix
has_prefix-weaken [] q j h = refl
has_prefix-weaken (x ∷ p) q [] h = cc
has_prefix-weaken (x ∷ p) q (y ∷ j) h = ground (arith, has_prefix-weaken p q j)

pub lookup-strip :
    (p q k : List ℕ) (entries : Assoc (List ℕ) (List ℕ))
    → All (λ e. has_prefix (prefixed p q) e.0 ≡ true) entries
    → lookup k (strip p entries) ≡ lookup (prefixed p k) entries
unfolding lookup strip
lookup-strip p q k [] h = refl
lookup-strip p q k ((j, v) ∷ entries) h =
    ground
      (arith, lookup-strip p q k entries h.1, bytes_equal-drop p j k (has_prefix-weaken p q j h.0))

pub strip-prefix :
    (p q : List ℕ) (entries : Assoc (List ℕ) (List ℕ))
    → All (λ e. has_prefix (prefixed p q) e.0 ≡ true) entries
    → All (λ e. has_prefix q e.0 ≡ true) (strip p entries)
unfolding strip
strip-prefix p q [] h = tt
strip-prefix p q ((j, v) ∷ entries) h = (has_prefix-drop p q j h.0, strip-prefix p q entries h.1)

module _ {S : Type 0} (db : Db S) (p : List ℕ) where
  pub get-put-prefixed :
      (k v j : List ℕ) (s : S)
      → db.get (prefixed p j) (db.put (prefixed p k) v s)
        ≡ (if bytes_equal k j then some v else db.get (prefixed p j) s)
  get-put-prefixed k v j s =
      ground (arith, db.get-put (prefixed p k) v (prefixed p j) s, bytes_equal-prefixed p k j)

  pub get-delete-prefixed :
      (k j : List ℕ) (s : S)
      → db.get (prefixed p j) (db.delete (prefixed p k) s)
        ≡ (if bytes_equal k j then none else db.get (prefixed p j) s)
  get-delete-prefixed k j s =
      ground (arith, db.get-delete (prefixed p k) (prefixed p j) s, bytes_equal-prefixed p k j)

  pub lookup-scan-prefixed :
      (q k : List ℕ) (s : S)
      → lookup k (strip p (db.scan (prefixed p q) s))
        ≡ (if has_prefix q k then db.get (prefixed p k) s else none)
  lookup-scan-prefixed q k s = ground (
    arith,
    lookup-strip p q k (db.scan (prefixed p q) s) (db.scan-prefix (prefixed p q) s),
    db.lookup-scan (prefixed p q) (prefixed p k) s,
    has_prefix-prefixed p q k,
  )

-- PrefixDB.Get, Put, Delete, Has and ForEach, over any DB
abbrev pub prefix_db : {S : Type 0} → List ℕ → Db S → Db S
prefix_db p db = record {
  get = λ k s. db.get (prefixed p k) s;
  put = λ k v s. db.put (prefixed p k) v s;
  delete = λ k s. db.delete (prefixed p k) s;
  has = λ k s. db.has (prefixed p k) s;
  scan = λ q s. strip p (db.scan (prefixed p q) s);
  get-put = get-put-prefixed db p;
  get-delete = get-delete-prefixed db p;
  has-get = λ k s. db.has-get (prefixed p k) s;
  lookup-scan = lookup-scan-prefixed db p;
  scan-prefix =
      λ q s. strip-prefix p q (db.scan (prefixed p q) s) (db.scan-prefix (prefixed p q) s);
}
