-- ===== src/Chain/Reorg/Heavier.antt =====
-- internal/chain/reorg.go: Reorg only ever moves to a heavier chain.
use mathlib.Core.Path.{subst}
use native.Mathlib.Decide.{ℕ_discrete}
use klingnet.Prelude.{
  ℕ, ◌+◌, ◌-◌, ◌≤◌, ◌<◌, ◌≡◌, refl, ap, ◌∙◌, false, List, [], ◌∷◌, some, leb, if-holds, Result, ok,
  err, arith, max_u64, All, inl, inr, ◌⊎◌,
}
use klingnet.Types.{Hash}
use klingnet.Crypto.{Crypto}
use klingnet.Block.{Block}
use klingnet.Chain.State.{Rules}
use klingnet.Chain.Blocks.{BlockStore, get_block, put_reorg_checkpoint}
use klingnet.Chain.Reorg.{
  ReorgError, Engine, Node, ◌and_then◌, revert_down, replay, set_new_tip, fork_height, first_height,
  branch_work, main_work, switch_chain, compare_work, reorg_to, reorg, collect_branch,
}
use klingnet.Chain.Reorg.Branch.{Follows, IsCollected, collect_branch-IsCollected}
use klingnet.Chain.Reorg.Work.{
  sum_difficulty, difficulty_at, total_from, total_above, total_from-above, branch_work-sum,
  main_work-total,
}
use klingnet.Chain.Reorg.Ledger.{
  IfDone, and_then-IfDone, map-IfDone, Gives, Adds, revert_down-Gives, replay-Adds,
  total_above-SameBlocks,
}

-- The stored blocks have uint64 heights and difficulties.
abbrev pub IsWireStore : BlockStore → Type 0
IsWireStore bs =
    (h : Hash) (b : Block)
    → get_block h bs ≡ some b
    → (b.header.height ≤ max_u64) × (b.header.difficulty ≤ max_u64)

Follows-wire :
    (bs : BlockStore) (tip parent : Hash) (branch : List Block)
    → IsWireStore bs
    → Follows bs tip parent branch
    → All (λ b. b.header.difficulty ≤ max_u64) branch
Follows-wire bs tip parent [] wire f = tt
Follows-wire bs tip parent (b ∷ rest) wire f =
    ((wire f.1.0 b f.1.1).1, Follows-wire bs tip f.1.0 rest wire f.1.2)

-- The heights that are compared are those that are reverted.
fork_of_genesis : (b : Block) → b.header.height ≡ 0 → fork_height b ≡ max_u64
fork_of_genesis b h = omega (arith, h)

fork_of_other :
    (b : Block)
    → 1 ≤ b.header.height
    → b.header.height ≤ max_u64
    → fork_height b + 1 ≡ b.header.height
fork_of_other b low high = omega (arith, low, high)

first_of_other :
    (b : Block)
    → 1 ≤ b.header.height
    → b.header.height ≤ max_u64
    → first_height b ≡ fork_height b + 1
first_of_other b low high = omega (arith, low, high)

one_less : (h f : ℕ) → h + 1 - (f + 1) ≡ h - f
one_less h f = omega arith

module _ ⦃c : Crypto⦄ where
  -- The recorded difficulty grew.
  abbrev pub IsHeavier : Node → Node → Type 0
  IsHeavier n m = n.state.cumulative_difficulty < m.state.cumulative_difficulty

  set_new_tip-difficulty :
      (d : ℕ) (b : Block) (bs : List Block) (m : Node)
      → d < m.state.cumulative_difficulty
      → IfDone (λ x. d < x.state.cumulative_difficulty) (set_new_tip b bs m)
  unfolding set_new_tip
  set_new_tip-difficulty d b [] m h = h
  set_new_tip-difficulty d b (next ∷ bs) m h = set_new_tip-difficulty d next bs m h

  -- What the switch does to the recorded difficulty, for any count of reverted blocks.
  abbrev pub Balances : ℕ → ℕ → Node → Node → Type 0
  Balances old new n m =
      (m.state.cumulative_difficulty + old ≡ n.state.cumulative_difficulty + new)
      × (m.state.cumulative_difficulty ≤ max_u64)
      × (old ≤ n.state.cumulative_difficulty)

  switch-Balances :
      (engine : Engine) (rules : Rules) (fork k : ℕ) (bs : List Block) (n : Node)
      → All (λ b. b.header.difficulty ≤ max_u64) bs
      → n.state.cumulative_difficulty ≤ max_u64
      → IfDone
          (Balances (total_above (difficulty_at n.store) fork k) (sum_difficulty bs) n)
          (revert_down fork k n and_then replay engine rules bs)
  switch-Balances engine rules fork k bs n wide fits =
      let old = total_above (difficulty_at n.store) fork k in
      and_then-IfDone (Gives old n) (Balances old (sum_difficulty bs) n) (revert_down fork k n)
        (replay engine rules bs) (revert_down-Gives fork k n)
        (λ m gave.
          map-IfDone (Adds (sum_difficulty bs) m) (Balances old (sum_difficulty bs) n)
            (replay engine rules bs m)
            (replay-Adds engine rules bs m wide (omega (arith, gave.1, fits)))
            (λ x more. omega (arith, gave.1, more.0, more.1)))

  -- If the compared work is that of the reverted blocks, the new branch is heavier.
  heavier :
      (b : Block) (bs : List Block) (n m : Node) (work fork k : ℕ)
      → n.state.cumulative_difficulty ≤ max_u64
      → leb (branch_work 0 (b ∷ bs)) work ≡ false
      → (total_above (difficulty_at n.store) fork k ≤ max_u64
          → total_above (difficulty_at n.store) fork k ≤ work)
      → Balances (total_above (difficulty_at n.store) fork k) (sum_difficulty (b ∷ bs)) n m
      → IsHeavier n m
  heavier b bs n m work fork k fits more counted balance =
      let old : total_above (difficulty_at n.store) fork k ≤ work =
        counted (omega (arith, balance.2, fits)) in
      let new : branch_work 0 (b ∷ bs) ≡ sum_difficulty (b ∷ bs) =
        branch_work-sum 0 (b ∷ bs) (omega (arith, balance.0, balance.1, balance.2)) ∙ omega arith in
      let test : work < branch_work 0 (b ∷ bs) = ground (arith, more) in
      omega (arith, balance.0, old, new, test)

  counted_work :
      (b : Block) (n : Node) (work : ℕ)
      → b.header.height ≤ max_u64
      → n.state.height ≤ max_u64
      → main_work n.store 0 (first_height b) (n.state.height + 1 - first_height b) ≡ ok work
      → total_above (difficulty_at n.store) (fork_height b) (n.state.height - fork_height b)
        ≤ max_u64
      → total_above (difficulty_at n.store) (fork_height b) (n.state.height - fork_height b) ≤ work
  counted_work b n work high tall e fits = elim (ℕ_discrete b.header.height 0) [
    | yes low ↦
        let none_reverted : n.state.height - fork_height b ≡ 0 =
          omega (arith, fork_of_genesis b low, tall) in
        let nothing = ap (total_above (difficulty_at n.store) (fork_height b)) none_reverted in
        omega (arith, nothing)
    | no above ↦
        let first = first_of_other b (omega (arith, above)) high in
        let same : total_from (difficulty_at n.store) (first_height b)
              (n.state.height + 1 - first_height b)
            ≡ total_above (difficulty_at n.store) (fork_height b) (n.state.height - fork_height b) =
          ap (λ z. total_from (difficulty_at n.store) z (n.state.height + 1 - z)) first
          ∙ ap (total_from (difficulty_at n.store) (fork_height b + 1))
              (one_less n.state.height (fork_height b))
          ∙ total_from-above (difficulty_at n.store) (fork_height b)
              (n.state.height - fork_height b) in
        omega (
          arith,
          same,
          main_work-total n.store 0 (first_height b) (n.state.height + 1 - first_height b) work e
              (omega (arith, same, fits)),
        )
  ]

  compare_work-IsHeavier :
      (engine : Engine) (rules : Rules) (b : Block) (bs : List Block) (r : Result ReorgError ℕ)
      (n : Node)
      → main_work n.store 0 (first_height b) (n.state.height + 1 - first_height b) ≡ r
      → All (λ x. x.header.difficulty ≤ max_u64) (b ∷ bs)
      → b.header.height ≤ max_u64
      → n.state.height ≤ max_u64
      → n.state.cumulative_difficulty ≤ max_u64
      → IfDone (λ m. (m ≡ n) ⊎ IsHeavier n m) (compare_work engine rules b bs r n)
  unfolding compare_work switch_chain
  compare_work-IsHeavier engine rules b bs (err x) n e wide high tall fits = tt
  compare_work-IsHeavier engine rules b bs (ok work) n e wide high tall fits =
      if-holds (IfDone (λ m. (m ≡ n) ⊎ IsHeavier n m)) (leb (branch_work 0 (b ∷ bs)) work) _ _
        (λ light. inl refl)
        (λ more.
          let marked = record n { store = put_reorg_checkpoint (fork_height b) n.store } in
          let k = n.state.height - fork_height b in
          let same = total_above-SameBlocks n.store marked.store (fork_height b) k (refl, refl) in
          map-IfDone (IsHeavier n) (λ m. (m ≡ n) ⊎ IsHeavier n m)
            (revert_down (fork_height b) k marked
              and_then replay engine rules (b ∷ bs)
              and_then set_new_tip b bs)
            (and_then-IfDone
              (Balances (total_above (difficulty_at marked.store) (fork_height b) k)
                (sum_difficulty (b ∷ bs)) n)
              (IsHeavier n)
              (revert_down (fork_height b) k marked and_then replay engine rules (b ∷ bs))
              (set_new_tip b bs)
              (switch-Balances engine rules (fork_height b) k (b ∷ bs) marked wide fits)
              (λ m balance. set_new_tip-difficulty n.state.cumulative_difficulty b bs m (
                heavier b bs n m work (fork_height b) k fits more
                  (counted_work b n work high tall e)
                  (subst (λ t. Balances t (sum_difficulty (b ∷ bs)) n m) same balance))))
            (λ m h. inr h))

  reorg_to-IsHeavier :
      (engine : Engine) (rules : Rules) (genesis_hash new_tip : Hash)
      (r : Result ReorgError (List Block)) (n : Node)
      → IsCollected genesis_hash n.store new_tip r
      → IsWireStore n.store
      → n.state.height ≤ max_u64
      → n.state.cumulative_difficulty ≤ max_u64
      → IfDone (λ m. (m ≡ n) ⊎ IsHeavier n m) (reorg_to engine rules r n)
  unfolding reorg_to
  reorg_to-IsHeavier engine rules genesis_hash new_tip (err e) n h wire tall fits = tt
  reorg_to-IsHeavier engine rules genesis_hash new_tip (ok []) n h wire tall fits = tt
  reorg_to-IsHeavier engine rules genesis_hash new_tip (ok (b ∷ bs)) n h wire tall fits =
      compare_work-IsHeavier engine rules b bs
        (main_work n.store 0 (first_height b) (n.state.height + 1 - first_height b)) n refl
        (Follows-wire n.store new_tip b.header.prev_hash (b ∷ bs) wire h.1)
        (wire h.1.1.0 b h.1.1.1).0 tall fits

  -- Let the stored blocks have uint64 heights and difficulties, and let the chain's height and its
  -- recorded difficulty be uint64 values. Where Reorg ends without an error and without rebuilding
  -- the UTXO set, the chain is as it was, or its recorded difficulty is strictly greater.
  pub reorg-IsHeavier :
      (engine : Engine) (rules : Rules) (genesis_hash new_tip : Hash) (n : Node)
      → IsWireStore n.store
      → n.state.height ≤ max_u64
      → n.state.cumulative_difficulty ≤ max_u64
      → IfDone (λ m. (m ≡ n) ⊎ IsHeavier n m) (reorg engine rules genesis_hash new_tip n)
  unfolding reorg
  reorg-IsHeavier engine rules genesis_hash new_tip n wire tall fits =
      reorg_to-IsHeavier engine rules genesis_hash new_tip
        (collect_branch genesis_hash n.store new_tip) n
        (collect_branch-IsCollected genesis_hash n.store new_tip) wire tall fits
