-- ===== src/Storage/Namespace.antt =====
-- internal/storage/prefix.go: what runs through one PrefixDB, seen through it and through others.
use klingnet.Prelude.{
  ℕ, ◌≡◌, refl, true, false, List, [], ◌∷◌, Option, none, some, if◌then◌else◌, bytes_equal, arith,
  ◌∙◌,
}
use klingnet.Storage.{Db, has_prefix}
use klingnet.Storage.Prefixed.{prefixed, prefix_db}
use klingnet.Storage.Batches.{BatchOp, apply_op, commit, delete_all, get-delete_all}

-- What a caller may do with a PrefixDB: write a key, delete one, commit a batch, delete all.
pub data Command : Type 0 where
  put_key : List ℕ → List ℕ → Command
  delete_key : List ℕ → Command
  commit_batch : List BatchOp → Command
  clear : Command

abbrev pub step : {S : Type 0} → List ℕ → Db S → Command → S → S
step p db (put_key k v) s = (prefix_db p db).put k v s
step p db (delete_key k) s = (prefix_db p db).delete k s
step p db (commit_batch ops) s = commit (prefix_db p db) ops s
step p db clear s = delete_all p db s

abbrev pub run : {S : Type 0} → List ℕ → Db S → List Command → S → S
run p db [] s = s
run p db (c ∷ cs) s = run p db cs (step p db c s)

-- The specification: a map of its own, as a function from keys.
abbrev pub View : Type 0
View = List ℕ → Option (List ℕ)

abbrev pub update : List ℕ → Option (List ℕ) → View → View
update k v m j = if bytes_equal k j then v else m j

abbrev pub update_all : List BatchOp → View → View
update_all [] m = m
update_all (op ∷ ops) m = update_all ops (update op.key op.value m)

abbrev pub step_view : Command → View → View
step_view (put_key k v) m = update k (some v) m
step_view (delete_key k) m = update k none m
step_view (commit_batch ops) m = update_all ops m
step_view clear m = λ j. none

abbrev pub run_view : List Command → View → View
run_view [] m = m
run_view (c ∷ cs) m = run_view cs (step_view c m)

-- Neither prefix extends the other.
abbrev pub IsApart : List ℕ → List ℕ → Type 0
IsApart p q = (has_prefix p q ≡ false) × (has_prefix q p ≡ false)

has_prefix-own : (p k : List ℕ) → has_prefix p (prefixed p k) ≡ true
unfolding has_prefix prefixed
has_prefix-own [] k = refl
has_prefix-own (x ∷ p) k = ground (arith, has_prefix-own p k)

has_prefix-apart : (p q k : List ℕ) → IsApart p q → has_prefix p (prefixed q k) ≡ false
unfolding has_prefix prefixed
has_prefix-apart [] q k h = cc
has_prefix-apart (x ∷ p) [] k h = cc
has_prefix-apart (x ∷ p) (y ∷ q) k h = ground (arith, has_prefix-apart p q k)

bytes_equal-apart :
    (p q j k : List ℕ) → IsApart p q → bytes_equal (prefixed p j) (prefixed q k) ≡ false
unfolding has_prefix prefixed
bytes_equal-apart [] q j k h = cc
bytes_equal-apart (x ∷ p) [] j k h = cc
bytes_equal-apart (x ∷ p) (y ∷ q) j k h = ground (arith, bytes_equal-apart p q j k)

module _ {S : Type 0} where
  -- The database holds, under the prefix, what the map does.
  abbrev pub Represents : List ℕ → Db S → S → View → Type 0
  Represents p db s m = (k : List ℕ) → (prefix_db p db).get k s ≡ m k

  apply_op-Represents :
      (db : Db S) (p k : List ℕ) (v : Option (List ℕ)) (s : S) (m : View)
      → Represents p db s m
      → Represents p db (apply_op (prefix_db p db) k v s) (update k v m)
  unfolding apply_op
  apply_op-Represents db p k none s m h j = ground (arith, (prefix_db p db).get-delete k j s, h j)
  apply_op-Represents db p k (some v) s m h j =
      ground (arith, (prefix_db p db).get-put k v j s, h j)

  commit-Represents :
      (db : Db S) (p : List ℕ) (ops : List BatchOp) (s : S) (m : View)
      → Represents p db s m
      → Represents p db (commit (prefix_db p db) ops s) (update_all ops m)
  unfolding commit
  commit-Represents db p [] s m h = h
  commit-Represents db p (op ∷ ops) s m h =
      commit-Represents db p ops (apply_op (prefix_db p db) op.key op.value s)
        (update op.key op.value m) (apply_op-Represents db p op.key op.value s m h)

  step-Represents :
      (db : Db S) (p : List ℕ) (c : Command) (s : S) (m : View)
      → Represents p db s m
      → Represents p db (step p db c s) (step_view c m)
  unfolding apply_op
  step-Represents db p (put_key k v) s m h = apply_op-Represents db p k (some v) s m h
  step-Represents db p (delete_key k) s m h = apply_op-Represents db p k none s m h
  step-Represents db p (commit_batch ops) s m h = commit-Represents db p ops s m h
  step-Represents db p clear s m h =
      λ k. ground (arith, get-delete_all db p (prefixed p k) s, has_prefix-own p k)

  -- Let a database hold, under a prefix, what a map from keys holds. After any sequence of writes,
  -- deletions, batches and DeleteAll through the PrefixDB of that prefix, it holds what the map
  -- does after the same updates, where DeleteAll empties the map.
  pub run-Represents :
      (db : Db S) (p : List ℕ) (cs : List Command) (s : S) (m : View)
      → Represents p db s m
      → Represents p db (run p db cs s) (run_view cs m)
  run-Represents db p [] s m h = h
  run-Represents db p (c ∷ cs) s m h =
      run-Represents db p cs (step p db c s) (step_view c m) (step-Represents db p c s m h)

  apply_op-isolated :
      (db : Db S) (p q k j : List ℕ) (v : Option (List ℕ)) (s : S)
      → IsApart p q
      → (prefix_db q db).get j (apply_op (prefix_db p db) k v s) ≡ (prefix_db q db).get j s
  unfolding apply_op
  apply_op-isolated db p q k j none s h =
      ground (arith, db.get-delete (prefixed p k) (prefixed q j) s, bytes_equal-apart p q k j h)
  apply_op-isolated db p q k j (some v) s h =
      ground (arith, db.get-put (prefixed p k) v (prefixed q j) s, bytes_equal-apart p q k j h)

  commit-isolated :
      (db : Db S) (p q j : List ℕ) (ops : List BatchOp) (s : S)
      → IsApart p q
      → (prefix_db q db).get j (commit (prefix_db p db) ops s) ≡ (prefix_db q db).get j s
  unfolding commit
  commit-isolated db p q j [] s h = refl
  commit-isolated db p q j (op ∷ ops) s h =
      commit-isolated db p q j ops (apply_op (prefix_db p db) op.key op.value s) h
      ∙ apply_op-isolated db p q op.key j op.value s h

  step-isolated :
      (db : Db S) (p q j : List ℕ) (c : Command) (s : S)
      → IsApart p q
      → (prefix_db q db).get j (step p db c s) ≡ (prefix_db q db).get j s
  unfolding apply_op
  step-isolated db p q j (put_key k v) s h = apply_op-isolated db p q k j (some v) s h
  step-isolated db p q j (delete_key k) s h = apply_op-isolated db p q k j none s h
  step-isolated db p q j (commit_batch ops) s h = commit-isolated db p q j ops s h
  step-isolated db p q j clear s h =
      ground (arith, get-delete_all db p (prefixed q j) s, has_prefix-apart p q j h)

  -- Let neither of two prefixes extend the other. No sequence of writes, deletions, batches and
  -- DeleteAll through the PrefixDB of the first changes what the PrefixDB of the second reads.
  pub run-isolated :
      (db : Db S) (p q j : List ℕ) (cs : List Command) (s : S)
      → IsApart p q
      → (prefix_db q db).get j (run p db cs s) ≡ (prefix_db q db).get j s
  run-isolated db p q j [] s h = refl
  run-isolated db p q j (c ∷ cs) s h =
      run-isolated db p q j cs (step p db c s) h ∙ step-isolated db p q j c s h
