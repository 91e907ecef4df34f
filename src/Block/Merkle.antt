-- ===== src/Block/Merkle.antt =====
-- pkg/block/merkle.go
pub mod Binding
use klingnet.Prelude.{
  ℕ, zero, suc, ◌+◌, ◌*◌, ◌≤◌, ◌≡◌, refl, ap, sym, List, [], ◌∷◌, ◌++◌, arith, length, ◌∙◌,
}
use klingnet.Types.{Hash}
use klingnet.Crypto.{Crypto, hash_concat}

-- One round of the loop: the last hash of an odd level is paired with itself.
module _ ⦃c : Crypto⦄ where
  unfoldable pub next_level : List Hash → List Hash
  next_level [] = []
  next_level (a ∷ []) = hash_concat a a ∷ []
  next_level (a ∷ b ∷ rest) = hash_concat a b ∷ next_level rest

  -- `for len(level) > 1`, with fuel; the fuel is the length of the level, which shrinks
  unfoldable pub merkle_loop : ℕ → List Hash → Hash
  unfolding next_level
  merkle_loop fuel [] = 0
  merkle_loop fuel (a ∷ []) = a
  merkle_loop zero (a ∷ b ∷ rest) = 0
  merkle_loop (suc fuel) (a ∷ b ∷ rest) = merkle_loop fuel (next_level (a ∷ b ∷ rest))

  -- ComputeMerkleRoot
  unfoldable pub compute_merkle_root : List Hash → Hash
  unfolding merkle_loop
  compute_merkle_root tx_hashes = merkle_loop (length tx_hashes) tx_hashes

  pub length-next_level : (l : List Hash) → 2 * length (next_level l) ≤ length l + 1
  unfolding next_level
  length-next_level [] = omega arith
  length-next_level (a ∷ []) = omega arith
  length-next_level (a ∷ b ∷ rest) = omega (arith, length-next_level rest)

  -- The rounds of the loop from a level on: its condition fails at a level of one hash, and each
  -- round before that goes on with the next level.
  pub data Ends : List Hash → Hash → Type 0 where
    last : {a : Hash} → Ends (a ∷ []) a
    round :
        {a b root : Hash} {rest : List Hash}
        → Ends (next_level (a ∷ b ∷ rest)) root
        → Ends (a ∷ b ∷ rest) root

  merkle_loop-Ends :
      (f : ℕ) (a : Hash) (l : List Hash) → suc (length l) ≤ f → Ends (a ∷ l) (merkle_loop f (a ∷ l))
  unfolding merkle_loop next_level
  merkle_loop-Ends f a [] p = last
  merkle_loop-Ends zero a (b ∷ l) p = absurd (omega arith)
  merkle_loop-Ends (suc f) a (b ∷ l) p =
      round
        (merkle_loop-Ends f (hash_concat a b) (next_level l) (omega (arith, length-next_level l)))

  -- From any hashes but none the loop runs to its end, after finitely many rounds, and
  -- ComputeMerkleRoot returns the one hash that is left there.
  pub compute_merkle_root-Ends :
      (a : Hash) (l : List Hash) → Ends (a ∷ l) (compute_merkle_root (a ∷ l))
  unfolding compute_merkle_root
  compute_merkle_root-Ends a l = merkle_loop-Ends (suc (length l)) a l (omega arith)

  -- Any fuel from the length on gives the same root.
  merkle_loop_fuel :
      (f g : ℕ) (l : List Hash) → length l ≤ f → length l ≤ g → merkle_loop f l ≡ merkle_loop g l
  unfolding merkle_loop
  merkle_loop_fuel zero zero l p q = refl
  merkle_loop_fuel f g [] p q = refl
  merkle_loop_fuel f g (a ∷ []) p q = refl
  merkle_loop_fuel zero g (a ∷ b ∷ l) p q = absurd (omega arith)
  merkle_loop_fuel (suc f) zero (a ∷ b ∷ l) p q = absurd (omega arith)
  merkle_loop_fuel (suc f) (suc g) (a ∷ b ∷ l) p q =
      merkle_loop_fuel f g (next_level (a ∷ b ∷ l)) (omega (arith, length-next_level (a ∷ b ∷ l)))
        (omega (arith, length-next_level (a ∷ b ∷ l)))

  -- A full binary tree of hashes, whose last subtree is repeated where a level is odd, gives the
  -- same root as the loop: one step pairs a level.
  pub compute_merkle_root-next_level :
      (a b : Hash) (l : List Hash)
      → compute_merkle_root (a ∷ b ∷ l) ≡ compute_merkle_root (next_level (a ∷ b ∷ l))
  unfolding compute_merkle_root
  compute_merkle_root-next_level a b l =
      merkle_loop_fuel (suc (length l)) (length (next_level (a ∷ b ∷ l))) (next_level (a ∷ b ∷ l))
        (omega (arith, length-next_level (a ∷ b ∷ l))) (omega arith)

  next_level_repeat :
      (l : List Hash) (a : Hash) (n : ℕ)
      → length l ≡ 2 * n
      → next_level (l ++ a ∷ a ∷ []) ≡ next_level (l ++ a ∷ [])
  unfolding next_level
  next_level_repeat [] a n even = refl
  next_level_repeat (x ∷ []) a n odd = absurd (omega arith)
  next_level_repeat (x ∷ y ∷ l) a zero even = absurd (omega arith)
  next_level_repeat (x ∷ y ∷ l) a (suc n) even =
      ap (λ t. hash_concat x y ∷ t) (next_level_repeat l a n (omega arith))

  -- The root does not tell a list of an odd length above one from the same list with its last
  -- hash repeated.
  pub compute_merkle_root_repeat :
      (x y : Hash) (l : List Hash) (a : Hash) (n : ℕ)
      → length l ≡ 2 * n
      → compute_merkle_root (x ∷ y ∷ l ++ a ∷ a ∷ []) ≡ compute_merkle_root (x ∷ y ∷ l ++ a ∷ [])
  compute_merkle_root_repeat x y l a n even =
      compute_merkle_root-next_level x y (l ++ a ∷ a ∷ [])
      ∙ ap (λ t. compute_merkle_root t) (next_level_repeat (x ∷ y ∷ l) a (suc n) (omega arith))
      ∙ sym (compute_merkle_root-next_level x y (l ++ a ∷ []))
