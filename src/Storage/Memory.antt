-- ===== src/Storage/Memory.antt =====
-- internal/storage/memory.go: MemoryDB, a map from keys to values, fills the interface DB.
use klingnet.Prelude.{
  ℕ, ◌≡◌, refl, true, List, [], ◌∷◌, none, if◌then◌else◌, bytes_eq, bytes_equal_iff, All, arith,
}
use klingnet.Prelude.Assoc.{Assoc, lookup, insert, erase, is_some, lookup-insert, lookup-erase}
use klingnet.Storage.{has_prefix, Db}

abbrev pub MemoryDb : Type 0
MemoryDb = Assoc (List ℕ) (List ℕ)

-- the entries that ForEach calls its callback on
unfoldable pub visited : List ℕ → MemoryDb → MemoryDb
visited p [] = []
visited p ((k, v) ∷ m) = let rest = visited p m in if has_prefix p k then (k, v) ∷ rest else rest

pub lookup-visited :
    (p k : List ℕ) (m : MemoryDb)
    → lookup k (visited p m) ≡ (if has_prefix p k then lookup k m else none)
unfolding lookup visited
lookup-visited p k [] = ground arith
lookup-visited p k ((j, v) ∷ m) = ground (arith, lookup-visited p k m, bytes_equal_iff j k)

pub visited-prefix : (p : List ℕ) (m : MemoryDb) → All (λ e. has_prefix p e.0 ≡ true) (visited p m)
unfolding visited
visited-prefix p [] = tt
visited-prefix p ((j, v) ∷ m) = ground (arith, visited-prefix p m)

-- MemoryDB.Get, Put, Delete, Has and ForEach
instance abbrev pub memory_db : Db MemoryDb
memory_db = record {
  get = lookup;
  put = insert;
  delete = erase;
  has = λ k m. is_some (lookup k m);
  scan = visited;
  get-put = λ k v j m. lookup-insert k j v m;
  get-delete = lookup-erase;
  has-get = λ k m. refl;
  lookup-scan = lookup-visited;
  scan-prefix = visited-prefix;
}
