-- ===== src/Chain/Reorg/Branch.antt =====
-- internal/chain/reorg.go: what collectBranch returns.
use klingnet.Prelude.{
  ℕ, zero, suc, ◌+◌, ◌-◌, ◌≤◌, ◌<◌, ◌≡◌, ◌≢◌, refl, ap, ◌∙◌, All, true, false, not, ◌&&◌, List, [],
  ◌∷◌, Option, none, some, ltb, ◌==◌, length, Result, ok, err, arith, Bool-cases, if-holds, ==_iff,
  inl, inr, ◌⊎◌,
}
use klingnet.Types.{Hash, is_zero_hash}
use klingnet.Crypto.{Crypto}
use klingnet.Block.{Block, header_hash}
use klingnet.Chain.Blocks.{BlockStore, get_block, get_block_by_height}
use klingnet.Chain.Reorg.{
  max_reorg_depth, ReorgError, reorg_too_deep, genesis_reorg, block_not_found, meets_main, has_hash,
  gather_block, collect, collect_branch,
}

-- Blocks in ascending order from the one after `parent` up to the one at `tip`, each stored under
-- the hash that the next one names as its parent.
abbrev pub Follows : BlockStore → Hash → Hash → List Block → Type 0
Follows bs tip parent [] = parent ≡ tip
Follows bs tip parent (b ∷ rest) =
    (b.header.prev_hash ≡ parent)
    × ((own : Hash) × (get_block own bs ≡ some b) × Follows bs tip own rest)

module _ ⦃c : Crypto⦄ where
  -- The height index has, one below the block, a block that hashes to its parent's hash.
  abbrev pub IsForked : BlockStore → Block → Type 0
  IsForked bs b =
      (h : ℕ) × (parent : Block) × (b.header.height ≡ h + 1)
      × (get_block_by_height h bs ≡ some parent)
      × (header_hash parent.header ≡ b.header.prev_hash)

  -- Where a branch starts: at the genesis, or on a block of the height index.
  abbrev pub IsRooted : Hash → BlockStore → Block → Type 0
  IsRooted genesis_hash bs b =
      ((b.header.height ≡ 0) × ((genesis_hash ≡ 0) ⊎ (header_hash b.header ≡ genesis_hash)))
      ⊎ IsForked bs b

  -- A block at which the branch cannot start.
  abbrev pub IsInner : BlockStore → Block → Type 0
  IsInner bs b = (b.header.height ≢ 0) × (IsForked bs b → ⊥)

  abbrev pub IsBranch : Hash → BlockStore → Hash → List Block → Type 0
  IsBranch genesis_hash bs tip [] = ⊥
  IsBranch genesis_hash bs tip (b ∷ rest) =
      IsRooted genesis_hash bs b
      × Follows bs tip b.header.prev_hash (b ∷ rest)
      × (length (b ∷ rest) ≤ max_reorg_depth)
      × All (IsInner bs) rest

  -- Why collectBranch stops at a hash with an error: no block is stored under it, or with its block
  -- the branch has more than 1000 blocks, or its block is another genesis than the chain's.
  abbrev pub StopsAt : Hash → BlockStore → ReorgError → Hash → List Block → Type 0
  StopsAt genesis_hash bs e hash branch =
      ((e ≡ block_not_found) × (get_block hash bs ≡ none))
      ⊎ ((b : Block) × (get_block hash bs ≡ some b)
          × (((e ≡ reorg_too_deep) × (max_reorg_depth < length (b ∷ branch)))
              ⊎ ((e ≡ genesis_reorg)
                  × (b.header.height ≡ 0)
                  × (genesis_hash ≢ 0)
                  × (header_hash b.header ≢ genesis_hash))))

  -- The error of a hash that the blocks up to the tip lead back to.
  abbrev pub IsFailure : Hash → BlockStore → Hash → ReorgError → Type 0
  IsFailure genesis_hash bs tip e =
      (hash : Hash) × (branch : List Block) × Follows bs tip hash branch
      × All (IsInner bs) branch
      × StopsAt genesis_hash bs e hash branch

  -- How collectBranch may end: with a branch, or with one of its three errors.
  abbrev pub IsCollected : Hash → BlockStore → Hash → Result ReorgError (List Block) → Type 0
  IsCollected genesis_hash bs tip (ok branch) = IsBranch genesis_hash bs tip branch
  IsCollected genesis_hash bs tip (err e) = IsFailure genesis_hash bs tip e

  other_genesis :
      (genesis_hash : Hash) (b : Block)
      → (not (is_zero_hash genesis_hash) && not (header_hash b.header == genesis_hash)) ≡ true
      → (genesis_hash ≢ 0) × (header_hash b.header ≢ genesis_hash)
  other_genesis genesis_hash b h = (
    λ e. ground (arith, h, (==_iff genesis_hash 0).1 e),
    λ e. ground (arith, h, (==_iff (header_hash b.header) genesis_hash).1 e),
  )

  own_genesis :
      (genesis_hash : Hash) (b : Block)
      → (not (is_zero_hash genesis_hash) && not (header_hash b.header == genesis_hash)) ≡ false
      → (genesis_hash ≡ 0) ⊎ (header_hash b.header ≡ genesis_hash)
  own_genesis genesis_hash b h = elim (Bool-cases (genesis_hash == 0)) [
    | inl zero_hash ↦ inl ((==_iff genesis_hash 0).0 zero_hash)
    | inr other ↦ inr (ground (arith, h, other))
  ]

  has_hash-IsForked :
      (bs : BlockStore) (b : Block) (h : ℕ) (o : Option Block)
      → b.header.height ≡ h + 1
      → get_block_by_height h bs ≡ o
      → has_hash o b.header.prev_hash ≡ true
      → IsForked bs b
  unfolding has_hash
  has_hash-IsForked bs b h none below got hit = cc
  has_hash-IsForked bs b h (some parent) below got hit =
      (h, parent, below, got, (==_iff (header_hash parent.header) b.header.prev_hash).0 hit)

  meets_main-IsForked :
      (bs : BlockStore) (b : Block) → b.header.height ≢ 0 → meets_main bs b ≡ true → IsForked bs b
  unfolding meets_main
  meets_main-IsForked bs b high meets =
      has_hash-IsForked bs b (b.header.height - 1) (get_block_by_height (b.header.height - 1) bs)
        (omega (arith, high)) refl meets

  IsForked-meets_main : (bs : BlockStore) (b : Block) → IsForked bs b → meets_main bs b ≡ true
  unfolding meets_main has_hash
  IsForked-meets_main bs b (h, parent, below, got, names) =
      let level : b.header.height - 1 ≡ h = omega (arith, below) in
      ap (λ n. has_hash (get_block_by_height n bs) b.header.prev_hash) level
      ∙ ap (λ o. has_hash o b.header.prev_hash) got
      ∙ (==_iff (header_hash parent.header) b.header.prev_hash).1 names

  gather_block-IsCollected :
      (next : Hash → List Block → Result ReorgError (List Block)) (genesis_hash : Hash)
      (bs : BlockStore) (tip hash : Hash) (branch : List Block) (o : Option Block)
      → get_block hash bs ≡ o
      → Follows bs tip hash branch
      → All (IsInner bs) branch
      → ((b : Block)
          → Follows bs tip b.header.prev_hash (b ∷ branch)
          → length (b ∷ branch) ≤ max_reorg_depth
          → All (IsInner bs) (b ∷ branch)
          → IsCollected genesis_hash bs tip (next b.header.prev_hash (b ∷ branch)))
      → IsCollected genesis_hash bs tip (gather_block next genesis_hash bs branch o)
  unfolding gather_block
  gather_block-IsCollected next genesis_hash bs tip hash branch none got f inner h =
      (hash, branch, f, inner, inl (refl, got))
  gather_block-IsCollected next genesis_hash bs tip hash branch (some b) got f inner h =
      let one_more : Follows bs tip b.header.prev_hash (b ∷ branch) = (refl, (hash, got, f)) in
      if-holds (IsCollected genesis_hash bs tip) (ltb max_reorg_depth (length branch + 1)) _ _
        (λ deep. (hash, branch, f, inner, inr (b, got, inl (refl, ground (arith, deep)))))
        (λ fits.
          let short : length (b ∷ branch) ≤ max_reorg_depth = ground (arith, fits) in
          if-holds (IsCollected genesis_hash bs tip) (b.header.height == 0) _ _
            (λ low.
              if-holds (IsCollected genesis_hash bs tip)
                (not (is_zero_hash genesis_hash) && not (header_hash b.header == genesis_hash)) _ _
                (λ replaced. (
                  hash,
                  branch,
                  f,
                  inner,
                  inr (
                    b,
                    got,
                    inr (
                      refl,
                      (==_iff b.header.height 0).0 low,
                      (other_genesis genesis_hash b replaced).0,
                      (other_genesis genesis_hash b replaced).1,
                    ),
                  ),
                ))
                (λ kept. (
                  inl ((==_iff b.header.height 0).0 low, own_genesis genesis_hash b kept),
                  one_more,
                  short,
                  inner,
                )))
            (λ high.
              let above : b.header.height ≢ 0 = λ e. ground (arith, high, e) in
              if-holds (IsCollected genesis_hash bs tip) (meets_main bs b) _ _
                (λ meets. (inr (meets_main-IsForked bs b above meets), one_more, short, inner))
                (λ apart. h b one_more short (
                  (above, λ forked. ground (arith, apart, IsForked-meets_main bs b forked)),
                  inner,
                ))))

  collect-IsCollected :
      (fuel : ℕ) (genesis_hash : Hash) (bs : BlockStore) (tip hash : Hash) (branch : List Block)
      → Follows bs tip hash branch
      → All (IsInner bs) branch
      → length branch ≤ max_reorg_depth
      → fuel + length branch ≡ max_reorg_depth + 1
      → IsCollected genesis_hash bs tip (collect fuel genesis_hash bs hash branch)
  unfolding collect
  collect-IsCollected zero genesis_hash bs tip hash branch f inner short enough =
      absurd (omega arith)
  collect-IsCollected (suc fuel) genesis_hash bs tip hash branch f inner short enough =
      gather_block-IsCollected (collect fuel genesis_hash bs) genesis_hash bs tip hash branch
        (get_block hash bs) refl f inner
        (λ b follows fits apart.
          collect-IsCollected fuel genesis_hash bs tip b.header.prev_hash (b ∷ branch) follows apart
            fits (omega arith))

  -- collectBranch ends, with the fuel of the depth limit and one round more. Either it returns a
  -- branch: at least one and at most 1000 blocks, ending in the block at the given hash, each
  -- stored under the hash that the next one names as its parent. The first one is the genesis (the
  -- chain's own, where it has one), or the height index has one height below it a block that
  -- hashes to its parent's hash; no later block is at height 0 or has such a parent. Or it returns
  -- an error about the hash that such later blocks lead back to: that no block is stored under it,
  -- that its block makes the branch longer than 1000, or that its block is at height 0 and not the
  -- chain's genesis.
  pub collect_branch-IsCollected :
      (genesis_hash : Hash) (bs : BlockStore) (tip : Hash)
      → IsCollected genesis_hash bs tip (collect_branch genesis_hash bs tip)
  unfolding collect_branch
  collect_branch-IsCollected genesis_hash bs tip =
      collect-IsCollected (max_reorg_depth + 1) genesis_hash bs tip tip [] refl tt (omega arith)
        refl
