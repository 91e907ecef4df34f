-- ===== src/Chain/Process/Advance.antt =====
-- internal/chain/processor.go: what ProcessBlock does to the chain.
use mathlib.Core.Path.{subst}
use klingnet.Utxo.{UtxoSet}
use klingnet.Prelude.{
  ℕ, ◌+◌, ◌≤◌, ◌≡◌, refl, sym, ap, Bool, true, false, ◌||◌, Option, none, some, leb, if-holds,
  Result, ok, err, arith, max_u64, inl, inr, ◌⊎◌, nat_eq, Bool-cases, ◌==◌,
}
use klingnet.Prelude.Assoc.{lookup-insert}
use klingnet.Types.{Hash}
use klingnet.Crypto.{Crypto}
use klingnet.Block.{Block, header_hash}
use klingnet.Chain.Apply.{UndoData}
use klingnet.Chain.State.{StateError, fork_detected, Rules}
use klingnet.Chain.State.Extend.{
  Extended, add_registered_sub_chains, extend_tip, finish, register, next_state,
}
use klingnet.Chain.State.Parts.{extend_tip_parts}
use klingnet.Chain.Blocks.{BlockStore, get_block, has_block, store_block}
use klingnet.Chain.Reorg.{Engine, Node, Outcome, done, failed, rebuilds, reorg}
use klingnet.Chain.Reorg.Ledger.{IfDone}
use klingnet.Chain.Reorg.Heavier.{IsWireStore, IsHeavier, reorg-IsHeavier}
use klingnet.Chain.Process.{
  ProcessError, Processed, accepted, rejected, rebuilding, reorg_result, check_block,
  commit_extended, finish_extended, extend_result, process_fork, process_tip, process_checked,
  process_linked, process_block,
}

abbrev pub IfAccepted : (Node → Type 0) → Processed → Type 0
IfAccepted P (accepted m) = P m
IfAccepted P (rejected e m) = Unit
IfAccepted P (rebuilding m) = Unit

module _ ⦃c : Crypto⦄ where
  -- The block is the new tip, and its difficulty is added.
  abbrev pub Extends : Block → Node → Node → Type 0
  Extends b n m =
      (m.state.tip_hash ≡ header_hash b.header)
      × (m.state.height ≡ b.header.height)
      × (m.state.cumulative_difficulty ≡ n.state.cumulative_difficulty + b.header.difficulty)

  -- The chain keeps its state, extends it by the block, or moves to a heavier branch.
  abbrev pub Advances : Block → Node → Node → Type 0
  Advances b n m = (m.state ≡ n.state) ⊎ (Extends b n m ⊎ IsHeavier n m)

  IsWireStore-store_block :
      (b : Block) (bs : BlockStore)
      → IsWireStore bs
      → b.header.height ≤ max_u64
      → b.header.difficulty ≤ max_u64
      → IsWireStore (store_block b bs)
  unfolding store_block get_block
  IsWireStore-store_block b bs wire tall small h x e =
      elim (Bool-cases (header_hash b.header == h)) [
        | inl same ↦
            let stored : b ≡ x =
              ground (arith, e, lookup-insert (header_hash b.header) h b bs.blocks, same) in
            subst (λ (z : Block). (z.header.height ≤ max_u64) × (z.header.difficulty ≤ max_u64))
              stored (tall, small)
        | inr other ↦
            wire h x (ground (arith, e, lookup-insert (header_hash b.header) h b bs.blocks, other))
      ]

  register-Extends :
      (b : Block) (n : Node) (reward : ℕ) (utxos : UtxoSet) (undo : UndoData)
      (r : Result StateError ℕ)
      → Extends b n
          (commit_extended b n.store (register (next_state n.state b reward utxos) undo r))
  unfolding register next_state commit_extended
  register-Extends b n reward utxos undo (ok k) = (refl, refl, refl)
  register-Extends b n reward utxos undo (err e) = (refl, refl, refl)

  finish-Extends :
      (b : Block) (n : Node) (registered reward : ℕ) (applied : UtxoSet × UndoData)
      → Extends b n (commit_extended b n.store (finish n.state b registered reward applied))
  unfolding finish
  finish-Extends b n registered reward applied =
      register-Extends b n reward applied.0 (record applied.1 { block_reward = reward })
        (add_registered_sub_chains n.state.registered_sub_chains registered)

  finish_extended-IfAccepted :
      (P : Node → Type 0) (e : Option StateError) (m : Node)
      → P m
      → IfAccepted P (finish_extended e m)
  unfolding finish_extended
  finish_extended-IfAccepted P none m h = h
  finish_extended-IfAccepted P (some e) m h = tt

  extend_result-Advances :
      (rules : Rules) (b : Block) (n : Node) (r : Result StateError Extended)
      → extend_tip rules n.state b ≡ r
      → IfAccepted (Advances b n) (extend_result b r n)
  unfolding extend_result
  extend_result-Advances rules b n (err e) h = tt
  extend_result-Advances rules b n (ok x) h =
      let parts = extend_tip_parts rules n.state b x h in
      finish_extended-IfAccepted (Advances b n) x.error (commit_extended b n.store x) (
        inr (
          inl (
            subst (λ y. Extends b n (commit_extended b n.store y)) (sym parts.4)
              (finish-Extends b n parts.0 _ parts.1))))

  reorg_result-Advances :
      (b : Block) (n : Node) (store : BlockStore) (o : Outcome)
      → IfDone (λ m. (m ≡ record n { store = store }) ⊎ IsHeavier (record n { store = store }) m) o
      → IfAccepted (Advances b n) (reorg_result o)
  unfolding reorg_result
  reorg_result-Advances b n store (done m) (inl same) = inl (ap (λ (x : Node). x.state) same)
  reorg_result-Advances b n store (done m) (inr more) = inr (inr more)
  reorg_result-Advances b n store (failed e m) h = tt
  reorg_result-Advances b n store (rebuilds m) h = tt

  process_fork-Advances :
      (engine : Engine) (is_pow : Bool) (rules : Rules) (genesis_hash : Hash) (b : Block) (n : Node)
      → IsWireStore (store_block b n.store)
      → n.state.height ≤ max_u64
      → n.state.cumulative_difficulty ≤ max_u64
      → IfAccepted (Advances b n) (process_fork engine is_pow rules genesis_hash b n)
  unfolding process_fork
  process_fork-Advances engine is_pow rules genesis_hash b n wire tall fits =
      let stored = record n { store = store_block b n.store } in
      if-holds (IfAccepted (Advances b n)) (is_pow || leb n.state.height b.header.height) _ _
        (λ tried.
          reorg_result-Advances b n (store_block b n.store)
            (reorg engine rules genesis_hash (header_hash b.header) stored)
            (reorg-IsHeavier engine rules genesis_hash (header_hash b.header) stored wire tall
              fits))
        (λ kept. inl refl)

  process_checked-Advances :
      (engine : Engine) (is_pow : Bool) (rules : Rules) (genesis_hash : Hash) (fork : Bool)
      (b : Block) (n : Node) (r : Result ProcessError (Unit {0}))
      → IsWireStore (store_block b n.store)
      → n.state.height ≤ max_u64
      → n.state.cumulative_difficulty ≤ max_u64
      → IfAccepted (Advances b n) (process_checked engine is_pow rules genesis_hash fork b n r)
  unfolding process_checked process_tip
  process_checked-Advances engine is_pow rules genesis_hash fork b n (err e) wire tall fits = tt
  process_checked-Advances engine is_pow rules genesis_hash true b n (ok u) wire tall fits =
      process_fork-Advances engine is_pow rules genesis_hash b n wire tall fits
  process_checked-Advances engine is_pow rules genesis_hash false b n (ok u) wire tall fits =
      extend_result-Advances rules b n (extend_tip rules n.state b) refl

  process_linked-Advances :
      (engine : Engine) (is_pow : Bool) (rules : Rules) (genesis_hash : Hash) (max_time : ℕ)
      (b : Block) (n : Node) (r : Result StateError (Unit {0}))
      → IsWireStore (store_block b n.store)
      → n.state.height ≤ max_u64
      → n.state.cumulative_difficulty ≤ max_u64
      → IfAccepted (Advances b n) (process_linked engine is_pow rules genesis_hash max_time b n r)
  unfolding process_linked
  process_linked-Advances engine is_pow rules genesis_hash max_time b n (ok u) wire tall fits =
      process_checked-Advances engine is_pow rules genesis_hash false b n
        (check_block engine max_time false n.store b) wire tall fits
  process_linked-Advances engine is_pow rules genesis_hash max_time b n (err fork_detected) wire
        tall fits =
      process_checked-Advances engine is_pow rules genesis_hash true b n
        (check_block engine max_time true n.store b) wire tall fits
  process_linked-Advances engine is_pow rules genesis_hash max_time b n (err e) wire tall fits = tt

  -- Let the stored blocks and the block have uint64 heights and difficulties, and let the chain's
  -- height and recorded difficulty be uint64 values. Where ProcessBlock returns no error and no
  -- reorg goes on to rebuild the UTXO set, the state in memory is unchanged, or the block is the
  -- new tip and its difficulty is added to the recorded one, or a reorg has made the recorded
  -- difficulty strictly greater.
  pub process_block-Advances :
      (engine : Engine) (is_pow : Bool) (rules : Rules) (genesis_hash : Hash) (max_time : ℕ)
      (b : Block) (n : Node)
      → IsWireStore n.store
      → b.header.height ≤ max_u64
      → b.header.difficulty ≤ max_u64
      → n.state.height ≤ max_u64
      → n.state.cumulative_difficulty ≤ max_u64
      → IfAccepted (Advances b n) (process_block engine is_pow rules genesis_hash max_time b n)
  unfolding process_block
  process_block-Advances engine is_pow rules genesis_hash max_time b n wire high small tall fits =
      if-holds (IfAccepted (Advances b n)) (has_block (header_hash b.header) n.store) _ _
        (λ known. tt)
        (λ new.
          process_linked-Advances engine is_pow rules genesis_hash max_time b n _
            (IsWireStore-store_block b n.store wire high small) tall fits)
