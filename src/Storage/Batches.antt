-- ===== src/Storage/Batches.antt =====
-- internal/storage: batches of writes (memoryBatch, prefixBatch, prefixFallbackBatch) and
-- PrefixDB.DeleteAll.
use klingnet.Prelude.{
  ℕ, ◌≡◌, refl, ◌∙◌, sym, ap, List, [], ◌∷◌, ◌++◌, Option, none, some, if◌then◌else◌, arith,
}
use klingnet.Storage.{Db, has_prefix, delete_keys, get-delete_keys}
use klingnet.Storage.Prefixed.{prefixed, prefix_db}

-- memoryBatchOp; no value means delete
pub record BatchOp : Type 0 where
  pub key : List ℕ
  pub value : Option (List ℕ)

-- memoryBatch.Put and prefixFallbackBatch.Put
abbrev pub batch_put : List ℕ → List ℕ → List BatchOp → List BatchOp
batch_put k v ops = ops ++ record { key = k; value = some v } ∷ []

-- memoryBatch.Delete and prefixFallbackBatch.Delete
abbrev pub batch_delete : List ℕ → List BatchOp → List BatchOp
batch_delete k ops = ops ++ record { key = k; value = none } ∷ []

-- prefixBatch.Put and Delete, which call those of the inner batch
abbrev pub prefix_batch_put : List ℕ → List ℕ → List ℕ → List BatchOp → List BatchOp
prefix_batch_put p k v ops = batch_put (prefixed p k) v ops

abbrev pub prefix_batch_delete : List ℕ → List ℕ → List BatchOp → List BatchOp
prefix_batch_delete p k ops = batch_delete (prefixed p k) ops

-- one turn of the loop in Commit
unfoldable pub apply_op : {S : Type 0} → Db S → List ℕ → Option (List ℕ) → S → S
apply_op db k none s = db.delete k s
apply_op db k (some v) s = db.put k v s

-- memoryBatch.Commit and prefixFallbackBatch.Commit
unfoldable pub commit : {S : Type 0} → Db S → List BatchOp → S → S
commit db [] s = s
commit db (op ∷ ops) s = commit db ops (apply_op db op.key op.value s)

-- PrefixDB.DeleteAll
unfoldable pub delete_all : {S : Type 0} → List ℕ → Db S → S → S
delete_all p db s = delete_keys ⦃db = db⦄ (db.scan p s) s

-- A caller's write, recorded in a batch with the given Put and Delete.
abbrev pub record_write :
    (List ℕ → List ℕ → List BatchOp → List BatchOp)
    → (List ℕ → List BatchOp → List BatchOp)
    → List ℕ
    → Option (List ℕ)
    → List BatchOp
    → List BatchOp
record_write put_op delete_op k none batch = delete_op k batch
record_write put_op delete_op k (some v) batch = put_op k v batch

abbrev pub record_writes :
    (List ℕ → List ℕ → List BatchOp → List BatchOp)
    → (List ℕ → List BatchOp → List BatchOp)
    → List BatchOp
    → List BatchOp
    → List BatchOp
record_writes put_op delete_op [] batch = batch
record_writes put_op delete_op (w ∷ ws) batch =
    record_writes put_op delete_op ws (record_write put_op delete_op w.key w.value batch)

module _ {S : Type 0} (db : Db S) where
  commit-append :
      (ops more : List BatchOp) (s : S)
      → commit db (ops ++ more) s ≡ commit db more (commit db ops s)
  unfolding commit
  commit-append [] more s = refl
  commit-append (op ∷ ops) more s = commit-append ops more (apply_op db op.key op.value s)

  commit-record_write :
      (k : List ℕ) (v : Option (List ℕ)) (batch : List BatchOp) (s : S)
      → commit db (record_write batch_put batch_delete k v batch) s
        ≡ apply_op db k v (commit db batch s)
  unfolding commit
  commit-record_write k none batch s = commit-append batch (record { key = k; value = none } ∷ []) s
  commit-record_write k (some v) batch s =
      commit-append batch (record { key = k; value = some v } ∷ []) s

  commit-prefix_write :
      (p k : List ℕ) (v : Option (List ℕ)) (batch : List BatchOp) (s : S)
      → commit db (record_write (prefix_batch_put p) (prefix_batch_delete p) k v batch) s
        ≡ apply_op (prefix_db p db) k v (commit db batch s)
  unfolding commit apply_op
  commit-prefix_write p k none batch s =
      commit-append batch (record { key = prefixed p k; value = none } ∷ []) s
  commit-prefix_write p k (some v) batch s =
      commit-append batch (record { key = prefixed p k; value = some v } ∷ []) s

  -- Recording writes through a plain batch and committing it does the writes in order.
  pub commit-recorded :
      (ws batch : List BatchOp) (s : S)
      → commit db (record_writes batch_put batch_delete ws batch) s
        ≡ commit db ws (commit db batch s)
  unfolding commit
  commit-recorded [] batch s = refl
  commit-recorded (w ∷ ws) batch s =
      commit-recorded ws (record_write batch_put batch_delete w.key w.value batch) s
      ∙ ap (commit db ws) (commit-record_write w.key w.value batch s)

  -- The same through a batch under a prefix.
  pub commit-prefixed :
      (p : List ℕ) (ws batch : List BatchOp) (s : S)
      → commit db (record_writes (prefix_batch_put p) (prefix_batch_delete p) ws batch) s
        ≡ commit (prefix_db p db) ws (commit db batch s)
  unfolding commit
  commit-prefixed p [] batch s = refl
  commit-prefixed p (w ∷ ws) batch s =
      commit-prefixed p ws
        (record_write (prefix_batch_put p) (prefix_batch_delete p) w.key w.value batch) s
      ∙ ap (commit (prefix_db p db) ws) (commit-prefix_write p w.key w.value batch s)

module _ {S : Type 0} where
  -- Over any database, the same writes leave the same state whether they are recorded in a
  -- prefixBatch, which hands prefixed keys to the inner batch and commits that, or in a
  -- prefixFallbackBatch, which keeps the keys and commits by the calls of PrefixDB; both start
  -- empty.
  pub batches_agree :
      (db : Db S) (p : List ℕ) (ws : List BatchOp) (s : S)
      → commit db (record_writes (prefix_batch_put p) (prefix_batch_delete p) ws []) s
        ≡ commit (prefix_db p db) (record_writes batch_put batch_delete ws []) s
  unfolding commit
  batches_agree db p ws s =
      commit-prefixed db p ws [] s ∙ sym (commit-recorded (prefix_db p db) ws [] s)

  -- DeleteAll removes every key that starts with the prefix from the inner database and keeps
  -- every other key with its value.
  pub get-delete_all :
      (db : Db S) (p j : List ℕ) (s : S)
      → db.get j (delete_all p db s) ≡ (if has_prefix p j then none else db.get j s)
  unfolding delete_all
  get-delete_all db p j s =
      ground (arith, get-delete_keys ⦃db = db⦄ (db.scan p s) j s, db.lookup-scan p j s)
