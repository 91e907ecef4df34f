-- ===== src/Chain/Reorg/Work.antt =====
-- internal/chain/reorg.go: the work of the branches, and what a reorg does to the chain's.
use klingnet.Prelude.{
  ℕ, zero, suc, ◌+◌, ◌%◌, ◌^◌, ◌≤◌, ◌≡◌, refl, sym, ap, ◌∙◌, List, [], ◌∷◌, nat_eq, Option, none,
  some, ok, arith, max_u64, Option-cases, inl, inr,
}
use klingnet.Block.{Block}
use klingnet.Chain.Blocks.{BlockStore, get_block_by_height}
use klingnet.Chain.Reorg.{branch_work, add_work, main_work}

-- The difficulties, added without wrapping around.
abbrev pub sum_difficulty : List Block → ℕ
sum_difficulty [] = 0
sum_difficulty (b ∷ bs) = b.header.difficulty + sum_difficulty bs

abbrev pub difficulty_of : Option Block → ℕ
difficulty_of none = 0
difficulty_of (some b) = b.header.difficulty

abbrev pub difficulty_at : BlockStore → ℕ → ℕ
difficulty_at bs h = difficulty_of (get_block_by_height h bs)

-- the sum at `n` heights from one on, and at the `n` heights above a fork
abbrev pub total_from : (ℕ → ℕ) → ℕ → ℕ → ℕ
total_from d h zero = 0
total_from d h (suc n) = d h + total_from d (h + 1) n

abbrev pub total_above : (ℕ → ℕ) → ℕ → ℕ → ℕ
total_above d fork zero = 0
total_above d fork (suc n) = d (fork + suc n) + total_above d fork n

plus_zero : (h : ℕ) → h + 0 ≡ h
plus_zero h = omega arith

one_more : (h n : ℕ) → h + 1 + n ≡ h + suc n
one_more h n = omega arith

total_from-snoc : (d : ℕ → ℕ) (h n : ℕ) → total_from d h (suc n) ≡ total_from d h n + d (h + n)
total_from-snoc d h zero = let same : d (h + 0) ≡ d h = ap d (plus_zero h) in omega (arith, same)
total_from-snoc d h (suc n) =
    let same : d (h + 1 + n) ≡ d (h + suc n) = ap d (one_more h n) in
    omega (arith, total_from-snoc d (h + 1) n, same)

pub total_from-above : (d : ℕ → ℕ) (fork n : ℕ) → total_from d (fork + 1) n ≡ total_above d fork n
total_from-above d fork zero = refl
total_from-above d fork (suc n) =
    let same : d (fork + 1 + n) ≡ d (fork + suc n) = ap d (one_more fork n) in
    omega (arith, total_from-snoc d (fork + 1) n, total_from-above d fork n, same)

pub branch_work-sum :
    (work : ℕ) (bs : List Block)
    → work + sum_difficulty bs ≤ max_u64
    → branch_work work bs ≡ work + sum_difficulty bs
unfolding branch_work
branch_work-sum work [] fits = omega arith
branch_work-sum work (b ∷ bs) fits =
    let small : (work + b.header.difficulty) % 2 ^ 64 ≡ work + b.header.difficulty = omega arith in
    ap (λ w. branch_work w bs) small
    ∙ branch_work-sum (work + b.header.difficulty) bs (omega arith)
    ∙ omega arith

pub main_work-total :
    (bs : BlockStore) (work h n r : ℕ)
    → main_work bs work h n ≡ ok r
    → work + total_from (difficulty_at bs) h n ≤ max_u64
    → r ≡ work + total_from (difficulty_at bs) h n
unfolding main_work add_work
main_work-total bs work h zero r e fits = ground arith
main_work-total bs work h (suc n) r e fits = elim (Option-cases (get_block_by_height h bs)) [
  | inl missing ↦ ground (arith, missing, e)
  | inr (b, got) ↦
      let d : difficulty_at bs h ≡ b.header.difficulty = ap difficulty_of got in
      let small : (work + b.header.difficulty) % 2 ^ 64 ≡ work + b.header.difficulty =
        omega (arith, d) in
      let rest : main_work bs (work + b.header.difficulty) (h + 1) n ≡ ok r =
        ap (λ w. main_work bs w (h + 1) n) (sym small) ∙ ground (arith, got, e) in
      main_work-total bs (work + b.header.difficulty) (h + 1) n r rest (omega (arith, d))
      ∙ omega (arith, d)
]
