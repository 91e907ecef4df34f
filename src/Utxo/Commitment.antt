-- ===== src/Utxo/Commitment.antt =====
-- internal/utxo/commitment.go: the merkle root over all entries of a store.
use mathlib.Core.List.{Permᴰ}
use klingnet.Prelude.{
  ℕ, ◌≡◌, refl, sym, ap, ◌∙◌, Bool, List, [], ◌∷◌, ◌++◌, length, Option, none, some, ltb, ◌==◌,
  if◌then◌else◌, Result, ok, err, ◌>>=◌, arith,
}
use klingnet.Prelude.Assoc.{Assoc}
use klingnet.Bytes.{be_bytes, le_bytes}
use klingnet.Types.{Hash}
use klingnet.Crypto.{Crypto, hash}
use klingnet.Block.Merkle.{compute_merkle_root}
use klingnet.Storage.{Db, for_each}
use klingnet.Utxo.{Utxo}
use klingnet.Utxo.Store.{StoreError, UtxoCodec, found, for_each_utxo}

-- hashLess: the first byte that differs decides, which is the order of the numbers
abbrev pub hash_less : Hash → Hash → Bool
hash_less a b = ltb a b

-- sort.Slice by hashLess; equal hashes are interchangeable
unfoldable insert_hash : Hash → List Hash → List Hash
insert_hash h [] = h ∷ []
insert_hash h (v ∷ vs) =
    let rest = insert_hash h vs in if hash_less v h then v ∷ rest else h ∷ v ∷ vs

unfoldable pub sort_hashes : List Hash → List Hash
unfolding insert_hash
sort_hashes [] = []
sort_hashes (h ∷ hs) = insert_hash h (sort_hashes hs)

insert-insert :
    (a b : Hash) (l : List Hash) → insert_hash a (insert_hash b l) ≡ insert_hash b (insert_hash a l)
unfolding insert_hash
insert-insert a b [] = ground arith
insert-insert a b (v ∷ l) = ground (arith, insert-insert a b l)

sort-append : (l : List Hash) (h : Hash) → sort_hashes (l ++ h ∷ []) ≡ insert_hash h (sort_hashes l)
unfolding sort_hashes
sort-append [] h = refl
sort-append (a ∷ l) h = ap (insert_hash a) (sort-append l h) ∙ insert-insert a h (sort_hashes l)

module _ ⦃c : Crypto⦄ where
  -- hashUTXO
  unfoldable pub hash_utxo : Utxo → Hash
  hash_utxo u = hash (
      be_bytes 32 u.outpoint.tx_id
      ++ le_bytes 4 u.outpoint.index
      ++ le_bytes 8 u.value
      ++ u.script.type ∷ u.script.bytes)

  -- the callback of Commitment
  unfoldable pub append_hash : Utxo → List Hash → Result StoreError (List Hash)
  append_hash u hashes = ok (hashes ++ hash_utxo u ∷ [])

  -- the end of Commitment
  unfoldable pub commit_hashes : List Hash → Hash
  commit_hashes hashes = if length hashes == 0 then 0 else compute_merkle_root (sort_hashes hashes)

module _ ⦃c : Crypto⦄ ⦃json : UtxoCodec⦄ where
  -- one entry of the database, in the loop of Commitment
  abbrev visit_entry : List ℕ → List ℕ → List Hash → Result StoreError (List Hash)
  visit_entry k v hashes = found (json.unmarshal v) >>= λ u. append_hash u hashes

  abbrev gather : Assoc (List ℕ) (List ℕ) → List Hash → Result StoreError (List Hash)
  gather entries hashes = for_each visit_entry entries hashes

  -- The sorted hashes, if every entry can be read.
  abbrev sorted_result : Result StoreError (List Hash) → Result StoreError (List Hash)
  sorted_result r = r >>= λ hashes. ok (sort_hashes hashes)

  sort-step :
      (a b : List Hash) (u : Utxo)
      → sort_hashes a ≡ sort_hashes b
      → sort_hashes (a ++ hash_utxo u ∷ []) ≡ sort_hashes (b ++ hash_utxo u ∷ [])
  sort-step a b u same =
      sort-append a (hash_utxo u)
      ∙ ap (insert_hash (hash_utxo u)) same
      ∙ sym (sort-append b (hash_utxo u))

  sort-swap :
      (a b : List Hash) (g h : Hash)
      → sort_hashes a ≡ sort_hashes b
      → sort_hashes ((a ++ g ∷ []) ++ h ∷ []) ≡ sort_hashes ((b ++ h ∷ []) ++ g ∷ [])
  sort-swap a b g h same =
      sort-append (a ++ g ∷ []) h
      ∙ ap (insert_hash h) (sort-append a g ∙ ap (insert_hash g) same)
      ∙ insert-insert h g (sort_hashes b)
      ∙ sym (sort-append (b ++ h ∷ []) g ∙ ap (insert_hash g) (sort-append b h))

  -- What reads the two entries agrees on the sorted hashes, whether or not they can be read.
  read_same :
      (o : Option Utxo) (next other : List Hash → Result StoreError (List Hash)) (a b : List Hash)
      → ((s t : List Hash)
          → sort_hashes s ≡ sort_hashes t
          → sorted_result (next s) ≡ sorted_result (other t))
      → sort_hashes a ≡ sort_hashes b
      → sorted_result ((found o >>= λ u. append_hash u a) >>= next)
        ≡ sorted_result ((found o >>= λ u. append_hash u b) >>= other)
  unfolding found append_hash
  read_same none next other a b rest same = refl
  read_same (some u) next other a b rest same =
      rest (a ++ hash_utxo u ∷ []) (b ++ hash_utxo u ∷ []) (sort-step a b u same)

  read_swapped :
      (o p : Option Utxo) (next : List Hash → Result StoreError (List Hash)) (a b : List Hash)
      → ((s t : List Hash)
          → sort_hashes s ≡ sort_hashes t
          → sorted_result (next s) ≡ sorted_result (next t))
      → sort_hashes a ≡ sort_hashes b
      → sorted_result
          ((found o >>= λ u. append_hash u a) >>= λ s. (found p >>= λ x. append_hash x s) >>= next)
        ≡ sorted_result (
            (found p >>= λ x. append_hash x b) >>= λ s. (found o >>= λ u. append_hash u s) >>= next)
  unfolding found append_hash
  read_swapped none none next a b rest same = refl
  read_swapped none (some x) next a b rest same = refl
  read_swapped (some u) none next a b rest same = refl
  read_swapped (some u) (some x) next a b rest same =
      rest ((a ++ hash_utxo u ∷ []) ++ hash_utxo x ∷ [])
        ((b ++ hash_utxo x ∷ []) ++ hash_utxo u ∷ [])
        (sort-swap a b (hash_utxo u) (hash_utxo x) same)

  gather_same :
      (l : Assoc (List ℕ) (List ℕ)) (a b : List Hash)
      → sort_hashes a ≡ sort_hashes b
      → sorted_result (gather l a) ≡ sorted_result (gather l b)
  unfolding for_each
  gather_same [] a b same = ap ok same
  gather_same ((k, v) ∷ l) a b same =
      read_same (json.unmarshal v) (gather l) (gather l) a b (gather_same l) same

  gather_permuted :
      {l m : Assoc (List ℕ) (List ℕ)}
      → Permᴰ l m
      → (a b : List Hash) → sort_hashes a ≡ sort_hashes b
      → sorted_result (gather l a) ≡ sorted_result (gather m b)
  unfolding for_each
  gather_permuted Permᴰ.nil a b same = ap ok same
  gather_permuted (Permᴰ.cons {a = x} {b = y} {l₁ = l} {l₂ = m} e d) a b same =
      ap (λ z. sorted_result (gather (z ∷ l) a)) e
      ∙ read_same (json.unmarshal y.1) (gather l) (gather m) a b (gather_permuted d) same
  gather_permuted (Permᴰ.swap {a = x} {b = y} {a' = y'} {b' = x'} {l = l} e f) a b same =
      read_swapped (json.unmarshal x.1) (json.unmarshal y.1) (gather l) a b (gather_same l) same
      ∙ ap (λ z. sorted_result (gather (z ∷ x ∷ l) b)) f
      ∙ ap (λ z. sorted_result (gather (y' ∷ z ∷ l) b)) e
  gather_permuted (Permᴰ.trans d f) a b same =
      gather_permuted d a a refl ∙ gather_permuted f a b same

-- The end of Commitment reads the sorted hashes only.
module _ ⦃c : Crypto⦄ where
  commit_hashes-sort : (l : List Hash) → commit_hashes l ≡ compute_merkle_root (sort_hashes l)
  unfolding commit_hashes compute_merkle_root sort_hashes
  commit_hashes-sort [] = refl
  commit_hashes-sort (h ∷ l) = ground arith

  commit-sorted :
      (r : Result StoreError (List Hash))
      → (r >>= λ hashes. ok (commit_hashes hashes))
        ≡ ((r >>= λ hashes. ok (sort_hashes hashes)) >>= λ hashes. ok (compute_merkle_root hashes))
  commit-sorted (ok l) = ap ok (commit_hashes-sort l)
  commit-sorted (err e) = refl

module _ {S : Type 0} ⦃c : Crypto⦄ ⦃db : Db S⦄ ⦃json : UtxoCodec⦄ where
  -- Commitment
  unfoldable pub commitment : S → Result StoreError Hash
  commitment s = for_each_utxo append_hash s [] >>= λ hashes. ok (commit_hashes hashes)

module _ {S T : Type 0} ⦃c : Crypto⦄ ⦃first : Db S⦄ ⦃second : Db T⦄ ⦃json : UtxoCodec⦄ where
  -- Two stores, on databases of any two kinds, whose entries are the same in whatever order the two
  -- databases visit them, have the same commitment, or fail with the same error.
  pub commitment-Perm :
      (s : S) (t : T)
      → Permᴰ (first.scan (117 ∷ 47 ∷ []) s) (second.scan (117 ∷ 47 ∷ []) t)
      → commitment s ≡ commitment t
  unfolding commitment for_each_utxo
  commitment-Perm s t same =
      commit-sorted (gather (first.scan (117 ∷ 47 ∷ []) s) [])
      ∙ ap (λ r. r >>= λ hashes. ok (compute_merkle_root hashes)) (gather_permuted same [] [] refl)
      ∙ sym (commit-sorted (gather (second.scan (117 ∷ 47 ∷ []) t) []))
