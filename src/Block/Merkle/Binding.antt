-- ===== src/Block/Merkle/Binding.antt =====
-- pkg/block/merkle.go: a merkle root binds its list of hashes, unless the hash collides.
use native.Mathlib.Decide.{ℕ_discrete}
use klingnet.Prelude.{
  ℕ, zero, suc, ◌^◌, ◌≤◌, ◌<◌, ◌≡◌, refl, ◌≢◌, ◌⊎◌, inl, inr, ap, sym, List, [], ◌∷◌, arith, length,
  ◌∙◌, All,
}
use klingnet.Types.{Hash}
use klingnet.Crypto.{Crypto, hash_concat}
use klingnet.Block.Merkle.{next_level, merkle_loop, compute_merkle_root, length-next_level}

-- The 32 bytes of a hash spell the number.
abbrev pub IsHash : Hash → Type 0
IsHash h = h < 2 ^ 256

-- The two stand next to each other in a level, the first one at an even place; the last hash of an
-- odd level stands next to itself.
abbrev pub IsPair : List Hash → Hash → Hash → Type 0
IsPair [] a b = ⊥
IsPair (x ∷ []) a b = (a ≡ x) × (b ≡ x)
IsPair (x ∷ y ∷ rest) a b = ((a ≡ x) × (b ≡ y)) ⊎ IsPair rest a b

module _ ⦃c : Crypto⦄ where
  -- The root of the list is computed by hashing the two, at its own level or at one above.
  pub data IsHashed : List Hash → Hash → Hash → Type 0 where
    here : {x y a b : Hash} {l : List Hash} → IsPair (x ∷ y ∷ l) a b → IsHashed (x ∷ y ∷ l) a b
    above :
        {x y a b : Hash} {l : List Hash}
        → IsHashed (next_level (x ∷ y ∷ l)) a b
        → IsHashed (x ∷ y ∷ l) a b

  -- Two different pairs of the same hash, one of each kind.
  record Clash (P Q : Hash → Hash → Type 0) : Type 0 where
    left : Hash
    right : Hash
    other_left : Hash
    other_right : Hash
    first : P left right
    second : Q other_left other_right
    same : hash_concat left right ≡ hash_concat other_left other_right
    differ : (left ≢ other_left) ⊎ (right ≢ other_right)

  weaken :
      {P Q R T : Hash → Hash → Type 0}
      → ((a b : Hash) → P a b → R a b)
      → ((a b : Hash) → Q a b → T a b)
      → Clash P Q
      → Clash R T
  weaken f g clash = record {
    left = clash.left;
    right = clash.right;
    other_left = clash.other_left;
    other_right = clash.other_right;
    first = f clash.left clash.right clash.first;
    second = g clash.other_left clash.other_right clash.second;
    same = clash.same;
    differ = clash.differ;
  }

  pair_cases :
      (P Q : Hash → Hash → Type 0) (a b x y : Hash)
      → P a b
      → Q x y
      → hash_concat a b ≡ hash_concat x y
      → ((a ≡ x) × (b ≡ y)) ⊎ Clash P Q
  pair_cases P Q a b x y p q h = elim (ℕ_discrete a x) [
    | no differ ↦ inr (record {
      left = a;
      right = b;
      other_left = x;
      other_right = y;
      first = p;
      second = q;
      same = h;
      differ = inl differ;
    })
    | yes e ↦ elim (ℕ_discrete b y) [
      | no differ ↦ inr (record {
        left = a;
        right = b;
        other_left = x;
        other_right = y;
        first = p;
        second = q;
        same = h;
        differ = inr differ;
      })
      | yes f ↦ inl (e, f)
    ]
  ]

  next_level-injective :
      (l m : List Hash)
      → length l ≡ length m
      → next_level l ≡ next_level m
      → (l ≡ m) ⊎ Clash (IsPair l) (IsPair m)
  unfolding next_level
  next_level-injective [] [] same h = inl refl
  next_level-injective [] (x ∷ m) same h = absurd (omega arith)
  next_level-injective (a ∷ l) [] same h = absurd (omega arith)
  next_level-injective (a ∷ []) (x ∷ []) same h =
      elim (pair_cases (IsPair (a ∷ [])) (IsPair (x ∷ [])) a a x x (refl, refl) (refl, refl)
        (ground arith)) [ inl (p, q) ↦ inl (ap (λ z. z ∷ []) p) | inr clash ↦ inr clash ]
  next_level-injective (a ∷ []) (x ∷ y ∷ m) same h = absurd (omega arith)
  next_level-injective (a ∷ b ∷ l) (x ∷ []) same h = absurd (omega arith)
  next_level-injective (a ∷ b ∷ l) (x ∷ y ∷ m) same h =
      elim (pair_cases (IsPair (a ∷ b ∷ l)) (IsPair (x ∷ y ∷ m)) a b x y (inl (refl, refl))
        (inl (refl, refl)) (ground arith)) [
          | inl (p, q) ↦ elim (next_level-injective l m (omega arith) (ground arith)) [
            | inl rest ↦ inl (cc)
            | inr clash ↦ inr (weaken (λ u v e. inr e) (λ u v e. inr e) clash)
          ]
          | inr clash ↦ inr clash
        ]

  length-next_level_eq :
      (l m : List Hash) → length l ≡ length m → length (next_level l) ≡ length (next_level m)
  unfolding next_level
  length-next_level_eq [] [] same = refl
  length-next_level_eq [] (x ∷ m) same = absurd (omega arith)
  length-next_level_eq (a ∷ l) [] same = absurd (omega arith)
  length-next_level_eq (a ∷ []) (x ∷ []) same = refl
  length-next_level_eq (a ∷ []) (x ∷ y ∷ m) same = absurd (omega arith)
  length-next_level_eq (a ∷ b ∷ l) (x ∷ []) same = absurd (omega arith)
  length-next_level_eq (a ∷ b ∷ l) (x ∷ y ∷ m) same =
      omega (arith, length-next_level_eq l m (omega arith))

  merkle_loop-injective :
      (f : ℕ) (l m : List Hash)
      → length l ≤ f
      → length l ≡ length m
      → merkle_loop f l ≡ merkle_loop f m
      → (l ≡ m) ⊎ Clash (IsHashed l) (IsHashed m)
  unfolding merkle_loop
  merkle_loop-injective f [] [] fits same h = inl refl
  merkle_loop-injective f [] (x ∷ m) fits same h = absurd (omega arith)
  merkle_loop-injective f (a ∷ l) [] fits same h = absurd (omega arith)
  merkle_loop-injective f (a ∷ []) (x ∷ []) fits same h = inl (ap (λ z. z ∷ []) h)
  merkle_loop-injective f (a ∷ []) (x ∷ y ∷ m) fits same h = absurd (omega arith)
  merkle_loop-injective f (a ∷ b ∷ l) (x ∷ []) fits same h = absurd (omega arith)
  merkle_loop-injective zero (a ∷ b ∷ l) (x ∷ y ∷ m) fits same h = absurd (omega arith)
  merkle_loop-injective (suc f) (a ∷ b ∷ l) (x ∷ y ∷ m) fits same h =
      elim (merkle_loop-injective f (next_level (a ∷ b ∷ l)) (next_level (x ∷ y ∷ m))
        (omega (arith, length-next_level (a ∷ b ∷ l)))
        (length-next_level_eq (a ∷ b ∷ l) (x ∷ y ∷ m) same) h) [
          | inl level ↦ elim (next_level-injective (a ∷ b ∷ l) (x ∷ y ∷ m) same level) [
            | inl equal ↦ inl equal
            | inr clash ↦ inr (weaken (λ u v e. here e) (λ u v e. here e) clash)
          ]
          | inr clash ↦ inr (weaken (λ u v e. above e) (λ u v e. above e) clash)
        ]

  IsPair-hashes : (l : List Hash) (a b : Hash) → All IsHash l → IsPair l a b → IsHash a × IsHash b
  IsPair-hashes [] a b w p = absurd p
  IsPair-hashes (x ∷ []) a b w p = omega (arith, w, p)
  IsPair-hashes (x ∷ y ∷ l) a b w (inl p) = omega (arith, w, p)
  IsPair-hashes (x ∷ y ∷ l) a b w (inr p) = IsPair-hashes l a b w.1.1 p

  next_level-hashes : (l : List Hash) → All IsHash (next_level l)
  unfolding next_level hash_concat
  next_level-hashes [] = tt
  next_level-hashes (a ∷ []) = (c.sum256-lt _, tt)
  next_level-hashes (a ∷ b ∷ l) = (c.sum256-lt _, next_level-hashes l)

  IsHashed-hashes :
      {l : List Hash} {a b : Hash} → All IsHash l → IsHashed l a b → IsHash a × IsHash b
  IsHashed-hashes {a = a} {b = b} w (here {x = x} {y = y} {l = l} p) =
      IsPair-hashes (x ∷ y ∷ l) a b w p
  IsHashed-hashes w (above {x = x} {y = y} {l = l} h) =
      IsHashed-hashes (next_level-hashes (x ∷ y ∷ l)) h

  -- A collision of the hash function that the computations of the two roots show: a pair of hashes
  -- that the one hashes and a different pair that the other hashes, to the same value.
  abbrev pub Collision : List Hash → List Hash → Type 0
  Collision l m =
      (a b x y : Hash) × IsHashed l a b
      × IsHashed m x y
      × ((IsHash a × IsHash b) × (IsHash x × IsHash y))
      × (hash_concat a b ≡ hash_concat x y)
      × ((a ≢ x) ⊎ (b ≢ y))

  -- Two lists of one length, of hashes of 32 bytes, that have the same root are equal, or two
  -- different pairs of such hashes, one hashed on the way to the root of the first list and one on
  -- the way to the root of the second, hash to the same value.
  pub compute_merkle_root-injective :
      (l m : List Hash)
      → All IsHash l
      → All IsHash m
      → length l ≡ length m
      → compute_merkle_root l ≡ compute_merkle_root m
      → (l ≡ m) ⊎ Collision l m
  unfolding compute_merkle_root
  compute_merkle_root-injective l m wl wm same h =
      elim (merkle_loop-injective (length l) l m (omega arith) same
        (h ∙ ap (λ n. merkle_loop n m) (sym same))) [
          | inl equal ↦ inl equal
          | inr x ↦ inr (
            x.left,
            x.right,
            x.other_left,
            x.other_right,
            x.first,
            x.second,
            (IsHashed-hashes wl x.first, IsHashed-hashes wm x.second),
            x.same,
            x.differ,
          )
        ]
