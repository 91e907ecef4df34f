-- ===== src/Chain/Reorg/Settled.antt =====
-- internal/chain/reorg.go: how Reorg may end.
use klingnet.Prelude.{
  ℕ, ◌-◌, ◌≡◌, refl, ◌∙◌, sym, ap, List, [], ◌∷◌, none, some, leb, Result, ok, err, if-holds, inl,
  inr, ◌⊎◌,
}
use klingnet.Types.{Hash}
use klingnet.Crypto.{Crypto}
use klingnet.Block.{Block, header_hash}
use klingnet.Chain.State.{Rules}
use klingnet.Chain.Blocks.{BlockStore, get_block, put_reorg_checkpoint}
use klingnet.Chain.Reorg.{
  ReorgError, Engine, Node, Outcome, done, failed, rebuilds, ◌and_then◌, revert_down, replay,
  set_new_tip, fork_height, branch_work, switch_chain, compare_work, reorg_to, collect_branch,
  reorg,
}
use klingnet.Chain.Reorg.Branch.{Follows, IsCollected, collect_branch-IsCollected}
use klingnet.Chain.Reorg.Tip.{
  Keeps, EndsKeeping, and_then-EndsKeeping, revert_down-EndsKeeping, replay-EndsKeeping,
}

module _ ⦃c : Crypto⦄ where
  abbrev pub last_block : Block → List Block → Block
  last_block b [] = b
  last_block b (next ∷ bs) = last_block next bs

  -- The tip is the old one, and the checkpoint of a reorg is set.
  abbrev pub IsMarked : Node → Node → Type 0
  IsMarked n m =
      (m.state.tip_hash ≡ n.state.tip_hash)
      × (m.state.height ≡ n.state.height)
      × (m.state.tip_timestamp ≡ n.state.tip_timestamp)
      × ((fork : ℕ) × (m.store.reorg_checkpoint ≡ some fork))

  -- The tip is a block, and no checkpoint is set.
  abbrev pub HasTip : Block → Node → Type 0
  HasTip b m =
      (m.state.tip_hash ≡ header_hash b.header)
      × (m.state.height ≡ b.header.height)
      × (m.state.tip_timestamp ≡ b.header.timestamp)
      × (m.store.reorg_checkpoint ≡ none)

  -- How a switch to a branch may end.
  abbrev pub IsSettled : Node → (Node → Type 0) → Outcome → Type 0
  IsSettled n P (done m) = (m ≡ n) ⊎ P m
  IsSettled n P (failed e m) = (m ≡ n) ⊎ IsMarked n m
  IsSettled n P (rebuilds m) = IsMarked n m

  carry_mark : (n m x : Node) → IsMarked n m → Keeps m x → IsMarked n x
  carry_mark n m x marked keeps = (
    keeps.same_hash ∙ marked.0,
    keeps.same_height ∙ marked.1,
    keeps.same_timestamp ∙ marked.2,
    (marked.3.0, keeps.same_checkpoint ∙ marked.3.1),
  )

  set_new_tip-HasTip :
      (n : Node) (b : Block) (bs : List Block) (m : Node)
      → IsSettled n (HasTip (last_block b bs)) (set_new_tip b bs m)
  unfolding set_new_tip
  set_new_tip-HasTip n b [] m = inr (refl, refl, refl, refl)
  set_new_tip-HasTip n b (next ∷ bs) m = set_new_tip-HasTip n next bs m

  and_then-IsSettled :
      (n m : Node) (b : Block) (bs : List Block) (o : Outcome)
      → IsMarked n m
      → EndsKeeping m o
      → IsSettled n (HasTip (last_block b bs)) (o and_then set_new_tip b bs)
  and_then-IsSettled n m b bs (done x) marked keeps = set_new_tip-HasTip n b bs x
  and_then-IsSettled n m b bs (failed e x) marked keeps = inr (carry_mark n m x marked keeps)
  and_then-IsSettled n m b bs (rebuilds x) marked keeps = carry_mark n m x marked keeps

  switch_chain-IsSettled :
      (engine : Engine) (rules : Rules) (b : Block) (bs : List Block) (n : Node)
      → IsSettled n (HasTip (last_block b bs)) (switch_chain engine rules b bs n)
  unfolding switch_chain
  switch_chain-IsSettled engine rules b bs n =
      let m = record n { store = put_reorg_checkpoint (fork_height b) n.store } in
      let reverted = revert_down (fork_height b) (n.state.height - fork_height b) m in
      and_then-IsSettled n m b bs (reverted and_then replay engine rules (b ∷ bs))
        (refl, refl, refl, (fork_height b, refl))
        (and_then-EndsKeeping m reverted (replay engine rules (b ∷ bs))
          (revert_down-EndsKeeping (fork_height b) (n.state.height - fork_height b) m)
          (replay-EndsKeeping engine rules (b ∷ bs)))

  compare_work-IsSettled :
      (engine : Engine) (rules : Rules) (b : Block) (bs : List Block) (r : Result ReorgError ℕ)
      (n : Node)
      → IsSettled n (HasTip (last_block b bs)) (compare_work engine rules b bs r n)
  unfolding compare_work
  compare_work-IsSettled engine rules b bs (err e) n = inl refl
  compare_work-IsSettled engine rules b bs (ok work) n =
      if-holds (IsSettled n (HasTip (last_block b bs))) (leb (branch_work 0 (b ∷ bs)) work) _ _
        (λ light. inl refl) (λ heavy. switch_chain-IsSettled engine rules b bs n)

  last_block-stored :
      (bs : BlockStore) (tip parent : Hash) (b : Block) (rest : List Block)
      → Follows bs tip parent (b ∷ rest)
      → get_block tip bs ≡ some (last_block b rest)
  last_block-stored bs tip parent b [] f = ap (λ h. get_block h bs) (sym f.1.2) ∙ f.1.1
  last_block-stored bs tip parent b (next ∷ rest) f = last_block-stored bs tip f.1.0 next rest f.1.2

  -- The block at a hash becomes the tip.
  abbrev pub SwitchesTo : Hash → Node → Node → Type 0
  SwitchesTo new_tip n m = (b : Block) × (get_block new_tip n.store ≡ some b) × HasTip b m

  reorg_to-IsSettled :
      (engine : Engine) (rules : Rules) (genesis_hash new_tip : Hash)
      (r : Result ReorgError (List Block)) (n : Node)
      → IsCollected genesis_hash n.store new_tip r
      → IsSettled n (SwitchesTo new_tip n) (reorg_to engine rules r n)
  unfolding reorg_to
  reorg_to-IsSettled engine rules genesis_hash new_tip (err e) n h = inl refl
  reorg_to-IsSettled engine rules genesis_hash new_tip (ok []) n h = absurd h
  reorg_to-IsSettled engine rules genesis_hash new_tip (ok (b ∷ bs)) n h =
      name_tip (compare_work engine rules b bs _ n)
        (last_block-stored n.store new_tip b.header.prev_hash b bs h.1)
        (compare_work-IsSettled engine rules b bs _ n)
    where
      name_tip :
          (o : Outcome)
          → get_block new_tip n.store ≡ some (last_block b bs)
          → IsSettled n (HasTip (last_block b bs)) o
          → IsSettled n (SwitchesTo new_tip n) o
      name_tip (done m) stored (inl same) = inl same
      name_tip (done m) stored (inr tip) = inr (last_block b bs, stored, tip)
      name_tip (failed e m) stored s = s
      name_tip (rebuilds m) stored s = s

  -- How Reorg may end. Without an error it leaves the chain as it was, or with the block that is
  -- stored at the given hash as the tip and no checkpoint. With an error it leaves the chain as it
  -- was, or with the old tip in memory and a checkpoint; and where it goes on to rebuild the UTXO
  -- set, the tip is the old one and a checkpoint is set.
  pub reorg-IsSettled :
      (engine : Engine) (rules : Rules) (genesis_hash new_tip : Hash) (n : Node)
      → IsSettled n (SwitchesTo new_tip n) (reorg engine rules genesis_hash new_tip n)
  unfolding reorg
  reorg-IsSettled engine rules genesis_hash new_tip n =
      reorg_to-IsSettled engine rules genesis_hash new_tip
        (collect_branch genesis_hash n.store new_tip) n
        (collect_branch-IsCollected genesis_hash n.store new_tip)
