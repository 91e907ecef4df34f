-- ===== src/Chain/Reorg/Ledger.antt =====
-- internal/chain/reorg.go: the recorded difficulty while blocks are reverted and replayed.
use klingnet.Prelude.{
  ℕ, zero, suc, ◌+◌, ◌-◌, ◌≤◌, ◌≡◌, refl, ap, ◌∙◌, false, List, [], ◌∷◌, nat_eq, Option, none, some,
  ltb, if-holds, Result, ok, err, ◌>>=◌, >>=-eq-ok, arith, max_u64, All, Bool-cases, wrap, inl, inr,
}
use klingnet.Prelude.Assoc.{lookup}
use klingnet.Types.{Hash}
use klingnet.Crypto.{Crypto}
use klingnet.Block.{Block, header_hash}
use klingnet.Chain.Apply.{UndoData}
use klingnet.Chain.State.{StateError, Rules, validate_block_state}
use klingnet.Chain.State.Extend.{
  count_register_outputs, add_registered_sub_chains, remove_registered_sub_chains,
}
use klingnet.Chain.Blocks.{BlockStore, lookup_block, get_block_by_height, get_undo, delete_tx_index}
use klingnet.Chain.Reorg.{
  ReorgError, Engine, Node, Outcome, done, failed, rebuilds, ◌and_then◌, delete_tx_indexes,
  revert_block, subtract_difficulty, subtract_block, revert_with, revert_loaded, revert_height,
  revert_down, prepare_block, check_replayed, guard_replayed, effective_reward, bad_state,
  set_count, commit_replayed, replay_prepared, replay_block, replay,
}
use klingnet.Utxo.{UtxoSet}
use klingnet.Chain.Reorg.Work.{sum_difficulty, difficulty_of, difficulty_at, total_above}

-- What holds of the chain that a part of Reorg leaves, where it ends without an error.
abbrev pub IfDone : (Node → Type 0) → Outcome → Type 0
IfDone P (done m) = P m
IfDone P (failed e m) = Unit
IfDone P (rebuilds m) = Unit

pub and_then-IfDone :
    (P Q : Node → Type 0) (o : Outcome) (next : Node → Outcome)
    → IfDone P o
    → ((m : Node) → P m → IfDone Q (next m))
    → IfDone Q (o and_then next)
and_then-IfDone P Q (done m) next h k = k m h
and_then-IfDone P Q (failed e m) next h k = tt
and_then-IfDone P Q (rebuilds m) next h k = tt

pub map-IfDone :
    (P Q : Node → Type 0) (o : Outcome) → IfDone P o → ((m : Node) → P m → Q m) → IfDone Q o
map-IfDone P Q (done m) h k = k m h
map-IfDone P Q (failed e m) h k = tt
map-IfDone P Q (rebuilds m) h k = tt

-- The stored blocks and the height index are the same.
abbrev pub SameBlocks : BlockStore → BlockStore → Type 0
SameBlocks a b = (b.blocks ≡ a.blocks) × (b.heights ≡ a.heights)

-- The same blocks, and a difficulty less in the recorded sum.
abbrev pub Gives : ℕ → Node → Node → Type 0
Gives d n m =
    SameBlocks n.store m.store × (m.state.cumulative_difficulty + d ≡ n.state.cumulative_difficulty)

loaded :
    (o : Option Hash) (a b : BlockStore) → b.blocks ≡ a.blocks → lookup_block o b ≡ lookup_block o a
unfolding lookup_block
loaded none a b same = refl
loaded (some hash) a b same = ap (λ z. lookup hash z) same

difficulty_at-SameBlocks :
    (a b : BlockStore) (h : ℕ) → SameBlocks a b → difficulty_at b h ≡ difficulty_at a h
unfolding get_block_by_height lookup_block
difficulty_at-SameBlocks a b h same =
    let index : lookup h b.heights ≡ lookup h a.heights = ap (λ z. lookup h z) same.1 in
    ap difficulty_of (ap (λ o. lookup_block o b) index ∙ loaded (lookup h a.heights) a b same.0)

pub total_above-SameBlocks :
    (a b : BlockStore) (fork k : ℕ)
    → SameBlocks a b
    → total_above (difficulty_at b) fork k ≡ total_above (difficulty_at a) fork k
total_above-SameBlocks a b fork zero same = refl
total_above-SameBlocks a b fork (suc k) same = omega (
  arith,
  difficulty_at-SameBlocks a b (fork + suc k) same,
  total_above-SameBlocks a b fork k same,
)

SameBlocks-delete_tx_indexes :
    (hs : List Hash) (bs : BlockStore) → SameBlocks bs (delete_tx_indexes hs bs)
unfolding delete_tx_indexes
SameBlocks-delete_tx_indexes [] bs = (refl, refl)
SameBlocks-delete_tx_indexes (h ∷ hs) bs = SameBlocks-delete_tx_indexes hs (delete_tx_index h bs)

module _ ⦃c : Crypto⦄ where
  subtract_difficulty-Gives :
      (b : Block) (r : Result StateError ℕ) (n : Node)
      → IfDone (Gives b.header.difficulty n) (subtract_difficulty b r n)
  unfolding subtract_difficulty
  subtract_difficulty-Gives b (err e) n = tt
  subtract_difficulty-Gives b (ok registered) n =
      if-holds (IfDone (Gives b.header.difficulty n))
        (ltb n.state.cumulative_difficulty b.header.difficulty) _ _ (λ less. tt)
        (λ enough. ((refl, refl), ground (arith, enough)))

  subtract_block-Gives :
      (b : Block) (undo : UndoData) (n : Node)
      → IfDone (Gives b.header.difficulty n) (subtract_block b undo (revert_block undo n))
  unfolding subtract_block revert_block
  subtract_block-Gives b undo n =
      let count =
        remove_registered_sub_chains n.state.registered_sub_chains
          (count_register_outputs b.transactions) in
      let m = record (revert_block undo n) {
        state = record (revert_block undo n).state { supply = n.state.supply - undo.block_reward };
      } in
      if-holds (IfDone (Gives b.header.difficulty n)) (ltb n.state.supply undo.block_reward) _ _
        (λ less. tt)
        (λ enough.
          map-IfDone (Gives b.header.difficulty m) (Gives b.header.difficulty n)
            (subtract_difficulty b count m) (subtract_difficulty-Gives b count m)
            (λ x g.
              let same = SameBlocks-delete_tx_indexes undo.tx_hashes n.store in
              ((g.0.0 ∙ same.0, g.0.1 ∙ same.1), g.1)))

  revert_with-Gives :
      (b : Block) (o : Option UndoData) (n : Node)
      → IfDone (Gives b.header.difficulty n) (revert_with b o n)
  unfolding revert_with
  revert_with-Gives b none n = tt
  revert_with-Gives b (some undo) n = subtract_block-Gives b undo n

  revert_loaded-Gives :
      (o : Option Block) (n : Node) → IfDone (Gives (difficulty_of o) n) (revert_loaded o n)
  unfolding revert_loaded
  revert_loaded-Gives none n = tt
  revert_loaded-Gives (some b) n = revert_with-Gives b (get_undo (header_hash b.header) n.store) n

  pub revert_down-Gives :
      (fork k : ℕ) (n : Node)
      → IfDone (Gives (total_above (difficulty_at n.store) fork k) n) (revert_down fork k n)
  unfolding revert_down revert_height
  revert_down-Gives fork zero n = ((refl, refl), omega arith)
  revert_down-Gives fork (suc k) n =
      and_then-IfDone (Gives (difficulty_at n.store (fork + suc k)) n)
        (Gives (total_above (difficulty_at n.store) fork (suc k)) n)
        (revert_height (fork + suc k) n) (revert_down fork k)
        (revert_loaded-Gives (get_block_by_height (fork + suc k) n.store) n)
        (λ m g.
          map-IfDone (Gives (total_above (difficulty_at m.store) fork k) m)
            (Gives (total_above (difficulty_at n.store) fork (suc k)) n) (revert_down fork k m)
            (revert_down-Gives fork k m)
            (λ x more. (
              (more.0.0 ∙ g.0.0, more.0.1 ∙ g.0.1),
              omega (arith, g.1, more.1, total_above-SameBlocks n.store m.store fork k g.0),
            )))

  -- The difficulty that a replayed block adds, and the guard against overflow.
  abbrev pub Adds : ℕ → Node → Node → Type 0
  Adds d n m =
      (m.state.cumulative_difficulty ≡ n.state.cumulative_difficulty + d)
      × (m.state.cumulative_difficulty ≤ max_u64)

  set_count-Adds :
      (d : ℕ) (n m : Node) (r : Result StateError ℕ)
      → Adds d n m
      → IfDone (Adds d n) (set_count r m)
  unfolding set_count
  set_count-Adds d n m (err e) h = tt
  set_count-Adds d n m (ok x) h = h

  guard_replayed-guard :
      (n : Node) (b : Block) (registered reward : ℕ) (r : ℕ × ℕ × UtxoSet × UndoData)
      → guard_replayed n b registered reward ≡ ok r
      → ltb (max_u64 - b.header.difficulty) n.state.cumulative_difficulty ≡ false
  unfolding guard_replayed
  guard_replayed-guard n b registered reward r e =
      elim (Bool-cases (ltb (max_u64 - b.header.difficulty) n.state.cumulative_difficulty)) [
        | inr fits ↦ fits
        | inl over ↦ elim (Bool-cases (ltb (max_u64 - reward) n.state.supply)) [
          | inl high ↦ ground (arith, high, over, e)
          | inr low ↦ ground (arith, low, over, e)
        ]
      ]

  prepare_block-guard :
      (engine : Engine) (rules : Rules) (n : Node) (b : Block) (r : ℕ × ℕ × UtxoSet × UndoData)
      → prepare_block engine rules n b ≡ ok r
      → ltb (max_u64 - b.header.difficulty) n.state.cumulative_difficulty ≡ false
  unfolding prepare_block
  prepare_block-guard engine rules n b r e =
      let state =
        wrap bad_state (
          validate_block_state rules n.state.utxos n.state.supply n.state.registered_sub_chains
            b) in
      let checked =
        >>=-eq-ok (check_replayed engine n.store b)
          (λ _. state >>= λ registered. guard_replayed n b registered (effective_reward rules n b))
          e in
      let counted =
        >>=-eq-ok state (λ registered. guard_replayed n b registered (effective_reward rules n b))
          checked.2 in
      guard_replayed-guard n b counted.0 (effective_reward rules n b) r counted.2

  replay_prepared-Adds :
      (b : Block) (r : Result ReorgError (ℕ × ℕ × UtxoSet × UndoData)) (n : Node)
      → b.header.difficulty ≤ max_u64
      → ((x : ℕ × ℕ × UtxoSet × UndoData)
          → r ≡ ok x
          → ltb (max_u64 - b.header.difficulty) n.state.cumulative_difficulty ≡ false)
      → IfDone (Adds b.header.difficulty n) (replay_prepared b r n)
  unfolding replay_prepared commit_replayed
  replay_prepared-Adds b (err e) n small guard = tt
  replay_prepared-Adds b (ok x) n small guard =
      let room = guard x refl in
      let fits : n.state.cumulative_difficulty + b.header.difficulty ≤ max_u64 =
        ground (arith, room, small) in
      set_count-Adds b.header.difficulty n (commit_replayed n b x.1 x.2 x.3)
        (add_registered_sub_chains n.state.registered_sub_chains x.0) (refl, fits)

  pub replay-Adds :
      (engine : Engine) (rules : Rules) (bs : List Block) (n : Node)
      → All (λ b. b.header.difficulty ≤ max_u64) bs
      → n.state.cumulative_difficulty ≤ max_u64
      → IfDone (Adds (sum_difficulty bs) n) (replay engine rules bs n)
  unfolding replay replay_block
  replay-Adds engine rules [] n wide fits = (omega arith, fits)
  replay-Adds engine rules (b ∷ bs) n wide fits =
      and_then-IfDone (Adds b.header.difficulty n) (Adds (sum_difficulty (b ∷ bs)) n)
        (replay_block engine rules b n) (replay engine rules bs)
        (replay_prepared-Adds b (prepare_block engine rules n b) n wide.0
          (λ x e. prepare_block-guard engine rules n b x e))
        (λ m one.
          map-IfDone (Adds (sum_difficulty bs) m) (Adds (sum_difficulty (b ∷ bs)) n)
            (replay engine rules bs m) (replay-Adds engine rules bs m wide.1 one.1)
            (λ x more. (omega (arith, one.0, more.0), more.1)))
