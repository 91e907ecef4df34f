-- ===== src/Chain/Reorg/Tip.antt =====
-- internal/chain/reorg.go: the tip and the checkpoint while Reorg works.
use klingnet.Prelude.{
  ℕ, zero, suc, ◌+◌, ◌-◌, ◌≡◌, refl, ◌∙◌, List, [], ◌∷◌, Option, none, some, ltb, Result, ok, err,
  if-holds,
}
use klingnet.Types.{Hash}
use klingnet.Crypto.{Crypto}
use klingnet.Block.{Block, header_hash}
use klingnet.Chain.Apply.{UndoData}
use klingnet.Chain.State.{StateError, Rules}
use klingnet.Chain.State.Extend.{
  count_register_outputs, add_registered_sub_chains, remove_registered_sub_chains,
}
use klingnet.Chain.Blocks.{
  BlockStore, get_block_by_height, get_undo, delete_tx_index, commit_block, put_block,
}
use klingnet.Chain.Reorg.{
  ReorgError, Engine, Node, Outcome, done, failed, rebuilds, ◌and_then◌, delete_tx_indexes,
  revert_block, subtract_difficulty, subtract_block, revert_with, revert_loaded, revert_height,
  revert_down, prepare_block, set_count, commit_replayed, replay_prepared, replay_block, replay,
}
use klingnet.Utxo.{UtxoSet}

-- The tip in memory and the checkpoint in the store are the same.
pub record Keeps (n m : Node) : Type 0 where
  pub same_hash : m.state.tip_hash ≡ n.state.tip_hash
  pub same_height : m.state.height ≡ n.state.height
  pub same_timestamp : m.state.tip_timestamp ≡ n.state.tip_timestamp
  pub same_checkpoint : m.store.reorg_checkpoint ≡ n.store.reorg_checkpoint

Keeps-trans : (a b d : Node) → Keeps a b → Keeps b d → Keeps a d
Keeps-trans a b d p q = record {
  same_hash = q.same_hash ∙ p.same_hash;
  same_height = q.same_height ∙ p.same_height;
  same_timestamp = q.same_timestamp ∙ p.same_timestamp;
  same_checkpoint = q.same_checkpoint ∙ p.same_checkpoint;
}

-- However a part ends, the chain that it leaves keeps the tip.
abbrev pub EndsKeeping : Node → Outcome → Type 0
EndsKeeping n (done m) = Keeps n m
EndsKeeping n (failed e m) = Keeps n m
EndsKeeping n (rebuilds m) = Keeps n m

EndsKeeping-trans : (a b : Node) (o : Outcome) → Keeps a b → EndsKeeping b o → EndsKeeping a o
EndsKeeping-trans a b (done m) p q = Keeps-trans a b m p q
EndsKeeping-trans a b (failed e m) p q = Keeps-trans a b m p q
EndsKeeping-trans a b (rebuilds m) p q = Keeps-trans a b m p q

pub and_then-EndsKeeping :
    (n : Node) (o : Outcome) (next : Node → Outcome)
    → EndsKeeping n o
    → ((m : Node) → EndsKeeping m (next m))
    → EndsKeeping n (o and_then next)
and_then-EndsKeeping n (done m) next h k = EndsKeeping-trans n m (next m) h (k m)
and_then-EndsKeeping n (failed e m) next h k = h
and_then-EndsKeeping n (rebuilds m) next h k = h

Keeps-refl : (n : Node) → Keeps n n
Keeps-refl n = record {
  same_hash = refl;
  same_height = refl;
  same_timestamp = refl;
  same_checkpoint = refl;
}

checkpoint-delete_tx_indexes :
    (hs : List Hash) (bs : BlockStore)
    → (delete_tx_indexes hs bs).reorg_checkpoint ≡ bs.reorg_checkpoint
unfolding delete_tx_indexes
checkpoint-delete_tx_indexes [] bs = refl
checkpoint-delete_tx_indexes (h ∷ hs) bs = checkpoint-delete_tx_indexes hs (delete_tx_index h bs)

revert_block-Keeps : (undo : UndoData) (n : Node) → Keeps n (revert_block undo n)
unfolding revert_block
revert_block-Keeps undo n = record {
  same_hash = refl;
  same_height = refl;
  same_timestamp = refl;
  same_checkpoint = checkpoint-delete_tx_indexes undo.tx_hashes n.store;
}

module _ ⦃c : Crypto⦄ where
  subtract_difficulty-EndsKeeping :
      (b : Block) (r : Result StateError ℕ) (n : Node) → EndsKeeping n (subtract_difficulty b r n)
  unfolding subtract_difficulty
  subtract_difficulty-EndsKeeping b (err e) n = Keeps-refl n
  subtract_difficulty-EndsKeeping b (ok registered) n =
      if-holds (EndsKeeping n) (ltb n.state.cumulative_difficulty b.header.difficulty) _ _
        (λ less. record {
          same_hash = refl;
          same_height = refl;
          same_timestamp = refl;
          same_checkpoint = refl;
        })
        (λ enough. record {
          same_hash = refl;
          same_height = refl;
          same_timestamp = refl;
          same_checkpoint = refl;
        })

  subtract_block-EndsKeeping :
      (b : Block) (undo : UndoData) (n : Node) → EndsKeeping n (subtract_block b undo n)
  unfolding subtract_block
  subtract_block-EndsKeeping b undo n =
      let m = record n { state = record n.state { supply = n.state.supply - undo.block_reward } } in
      let count =
        remove_registered_sub_chains n.state.registered_sub_chains
          (count_register_outputs b.transactions) in
      if-holds (EndsKeeping n) (ltb n.state.supply undo.block_reward) _ _ (λ less. Keeps-refl n)
        (λ enough.
          EndsKeeping-trans n m (subtract_difficulty b count m)
            (record {
              same_hash = refl;
              same_height = refl;
              same_timestamp = refl;
              same_checkpoint = refl;
            })
            (subtract_difficulty-EndsKeeping b count m))

  revert_with-EndsKeeping :
      (b : Block) (o : Option UndoData) (n : Node) → EndsKeeping n (revert_with b o n)
  unfolding revert_with
  revert_with-EndsKeeping b none n = Keeps-refl n
  revert_with-EndsKeeping b (some undo) n =
      EndsKeeping-trans n (revert_block undo n) (subtract_block b undo (revert_block undo n))
        (revert_block-Keeps undo n) (subtract_block-EndsKeeping b undo (revert_block undo n))

  revert_loaded-EndsKeeping : (o : Option Block) (n : Node) → EndsKeeping n (revert_loaded o n)
  unfolding revert_loaded
  revert_loaded-EndsKeeping none n = Keeps-refl n
  revert_loaded-EndsKeeping (some b) n =
      revert_with-EndsKeeping b (get_undo (header_hash b.header) n.store) n

  pub revert_down-EndsKeeping : (fork k : ℕ) (n : Node) → EndsKeeping n (revert_down fork k n)
  unfolding revert_down revert_height
  revert_down-EndsKeeping fork zero n = Keeps-refl n
  revert_down-EndsKeeping fork (suc k) n =
      and_then-EndsKeeping n (revert_height (fork + suc k) n) (revert_down fork k)
        (revert_loaded-EndsKeeping (get_block_by_height (fork + suc k) n.store) n)
        (revert_down-EndsKeeping fork k)

  set_count-EndsKeeping :
      (n : Node) (count : Result StateError ℕ) (m : Node)
      → Keeps n m
      → EndsKeeping n (set_count count m)
  unfolding set_count
  set_count-EndsKeeping n (err e) m h = h
  set_count-EndsKeeping n (ok x) m h = record {
    same_hash = h.same_hash;
    same_height = h.same_height;
    same_timestamp = h.same_timestamp;
    same_checkpoint = h.same_checkpoint;
  }

  replay_prepared-EndsKeeping :
      (b : Block) (r : Result ReorgError (ℕ × ℕ × UtxoSet × UndoData)) (n : Node)
      → EndsKeeping n (replay_prepared b r n)
  unfolding replay_prepared commit_replayed commit_block put_block
  replay_prepared-EndsKeeping b (err e) n = Keeps-refl n
  replay_prepared-EndsKeeping b (ok r) n =
      set_count-EndsKeeping n (add_registered_sub_chains n.state.registered_sub_chains r.0)
        (commit_replayed n b r.1 r.2 r.3)
        (record {
          same_hash = refl;
          same_height = refl;
          same_timestamp = refl;
          same_checkpoint = refl;
        })

  pub replay-EndsKeeping :
      (engine : Engine) (rules : Rules) (bs : List Block) (n : Node)
      → EndsKeeping n (replay engine rules bs n)
  unfolding replay replay_block
  replay-EndsKeeping engine rules [] n = Keeps-refl n
  replay-EndsKeeping engine rules (b ∷ bs) n =
      and_then-EndsKeeping n (replay_block engine rules b n) (replay engine rules bs)
        (replay_prepared-EndsKeeping b (prepare_block engine rules n b) n)
        (replay-EndsKeeping engine rules bs)
