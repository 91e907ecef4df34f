-- ===== src/Block/Rules.antt =====
-- What Block.Validate ensures of a block that it accepts.
use klingnet.Prelude.{
  ◌≤◌, ◌<◌, ◌≡◌, refl, ◌≢◌, ◌⊎◌, inl, inr, true, false, List, [], ◌∷◌, ◌++◌, map, arith, length, ok,
  All, contains, Result-cases,
}
use klingnet.Config.{max_block_txs, max_block_size}
use klingnet.Types.{Hash, Outpoint, outpoint_eq, same_outpoint_iff, is_zero}
use klingnet.Crypto.{Crypto}
use klingnet.Tx.{Input, Transaction, tx_hash}
use klingnet.Tx.Validate.{validate}
use klingnet.Block.{Block, header_bytes}
use klingnet.Block.Merkle.{compute_merkle_root}
use klingnet.Block.Validate.{
  has_zero_input, check_single_coinbase, is_zero_input, is_coinbase, check_coinbases, sum_sizes,
  check_ascending, check_order, check_txs, check_spent_once, check_block_inputs, validate_block,
}

abbrev pub IsZero : Input → Type 0
IsZero i = is_zero i.prev_out ≡ true

-- Another input than a coinbase's spends another outpoint.
abbrev pub Differs : Outpoint → Input → Type 0
Differs o j = IsZero j ⊎ (o ≢ j.prev_out)

abbrev pub SpentOnce : List Input → Type 0
SpentOnce [] = Unit
SpentOnce (i ∷ is) = (IsZero i ⊎ All (Differs i.prev_out) is) × SpentOnce is

-- The inputs of all transactions, in order.
abbrev pub all_inputs : List Transaction → List Input
all_inputs [] = []
all_inputs (t ∷ ts) = t.inputs ++ all_inputs ts

abbrev pub IsAscending : List Hash → Type 0
IsAscending [] = Unit
IsAscending (a ∷ []) = Unit
IsAscending (a ∷ b ∷ rest) = (a < b) × IsAscending (b ∷ rest)

-- The first transaction has one input, at the zero outpoint; no other has such an input.
abbrev pub HasOneCoinbase : List Transaction → Type 0
HasOneCoinbase [] = ⊥
HasOneCoinbase (t ∷ ts) =
    (length t.inputs ≡ 1)
    × All IsZero t.inputs
    × All (λ i. is_zero i.prev_out ≡ false) (all_inputs ts)

abbrev pub IsAscendingTail : List Hash → Type 0
IsAscendingTail [] = Unit
IsAscendingTail (coinbase ∷ rest) = IsAscending rest

abbrev Unseen : List Outpoint → List Input → Type 0
Unseen seen = All (λ i. IsZero i ⊎ (contains i.prev_out seen ≡ false))

Unseen-cons :
    (o : Outpoint) (seen : List Outpoint) (is : List Input)
    → Unseen (o ∷ seen) is
    → All (Differs o) is × Unseen seen is
Unseen-cons o seen [] h = (tt, tt)
Unseen-cons o seen (i ∷ is) h =
    ground (arith, Unseen-cons o seen is, same_outpoint_iff o i.prev_out)

check_spent_once-Unseen :
    (seen seen' : List Outpoint) (is js : List Input)
    → check_spent_once seen is ≡ ok seen'
    → Unseen seen' js
    → SpentOnce js
    → Unseen seen (is ++ js) × SpentOnce (is ++ js)
unfolding check_spent_once
check_spent_once-Unseen seen seen' [] js h u s = ground arith
check_spent_once-Unseen seen seen' (i ∷ is) js h u s = ground (
  arith,
  check_spent_once-Unseen seen seen' is js,
  check_spent_once-Unseen (i.prev_out ∷ seen) seen' is js,
  Unseen-cons i.prev_out seen (is ++ js),
)

check_block_inputs-SpentOnce :
    (seen : List Outpoint) (ts : List Transaction)
    → check_block_inputs seen ts ≡ ok tt
    → Unseen seen (all_inputs ts) × SpentOnce (all_inputs ts)
unfolding check_block_inputs
check_block_inputs-SpentOnce seen [] h = (tt, tt)
check_block_inputs-SpentOnce seen (t ∷ ts) h =
    elim (Result-cases (check_spent_once seen t.inputs)) [
      | inl (seen', e) ↦
          let (u, s) = check_block_inputs-SpentOnce seen' ts (ground arith) in
          check_spent_once-Unseen seen seen' t.inputs (all_inputs ts) e u s
      | inr (e, bad) ↦ ground arith
    ]

All-append {ℓ κ} :
    {A : Type ℓ} (P : A → Type κ) (xs ys : List A) → All P xs → All P ys → All P (xs ++ ys)
All-append P [] ys hx hy = hy
All-append P (x ∷ xs) ys hx hy = (hx.0, All-append P xs ys hx.1 hy)

has_zero_input-eq-false :
    (is : List Input) → has_zero_input is ≡ false → All (λ i. is_zero i.prev_out ≡ false) is
unfolding has_zero_input
has_zero_input-eq-false [] h = tt
has_zero_input-eq-false (i ∷ is) h = ground (arith, has_zero_input-eq-false is)

check_single_coinbase-eq-ok :
    (ts : List Transaction)
    → check_single_coinbase ts ≡ ok tt
    → All (λ i. is_zero i.prev_out ≡ false) (all_inputs ts)
unfolding check_single_coinbase
check_single_coinbase-eq-ok [] h = tt
check_single_coinbase-eq-ok (t ∷ ts) h =
    All-append (λ i. is_zero i.prev_out ≡ false) t.inputs (all_inputs ts)
      (has_zero_input-eq-false t.inputs (ground arith))
      (check_single_coinbase-eq-ok ts (ground arith))

is_zero_input-eq-true :
    (is : List Input) → is_zero_input is ≡ true → (length is ≡ 1) × All IsZero is
unfolding is_zero_input
is_zero_input-eq-true [] h = cc
is_zero_input-eq-true (i ∷ []) h = (refl, (h, tt))
is_zero_input-eq-true (i ∷ j ∷ is) h = cc

check_coinbases-eq-ok : (ts : List Transaction) → check_coinbases ts ≡ ok tt → HasOneCoinbase ts
unfolding check_coinbases is_coinbase
check_coinbases-eq-ok [] h = cc
check_coinbases-eq-ok (t ∷ ts) h =
    ground (arith, is_zero_input-eq-true t.inputs, check_single_coinbase-eq-ok ts)

check_ascending-eq-ok : (hs : List Hash) → check_ascending hs ≡ ok tt → IsAscending hs
unfolding check_ascending
check_ascending-eq-ok [] h = tt
check_ascending-eq-ok (a ∷ []) h = tt
check_ascending-eq-ok (a ∷ b ∷ hs) h = ground (arith, check_ascending-eq-ok (b ∷ hs))

check_order-eq-ok : (hs : List Hash) → check_order hs ≡ ok tt → IsAscendingTail hs
unfolding check_order
check_order-eq-ok [] h = tt
check_order-eq-ok (a ∷ hs) h = check_ascending-eq-ok hs h

check_txs-eq-ok : (ts : List Transaction) → check_txs ts ≡ ok tt → All (λ t. validate t ≡ ok tt) ts
unfolding check_txs
check_txs-eq-ok [] h = tt
check_txs-eq-ok (t ∷ ts) h = elim (Result-cases (validate t)) [
  | inl (u, valid) ↦ (valid, check_txs-eq-ok ts (ground arith))
  | inr (e, bad) ↦ ground arith
]

module _ ⦃c : Crypto⦄ where
  pub record IsSoundBlock (b : Block) : Type 0 where
    pub version : b.header.version ≡ 1
    pub timestamp : 0 < b.header.timestamp
    pub few : length b.transactions ≤ max_block_txs
    pub small : sum_sizes (length (header_bytes b.header)) b.transactions ≤ max_block_size
    pub coinbase : HasOneCoinbase b.transactions
    pub root : b.header.merkle_root ≡ compute_merkle_root (map tx_hash b.transactions)
    pub ascending : IsAscendingTail (map tx_hash b.transactions)
    pub valid : All (λ t. validate t ≡ ok tt) b.transactions
    pub spent_once : SpentOnce (all_inputs b.transactions)

  -- A block that passes the structural check has version 1, a timestamp, at most 500 transactions
  -- and 2,000,000 bytes, exactly one coinbase, which comes first, the merkle root of its
  -- transactions, the other transactions in strictly ascending order of their hashes, only valid
  -- transactions, and no outpoint that two of its inputs spend.
  pub validate_block-IsSoundBlock : (b : Block) → validate_block b ≡ ok tt → IsSoundBlock b
  unfolding validate_block
  validate_block-IsSoundBlock b h = record {
    version = ground arith;
    timestamp = ground arith;
    few = ground arith;
    small = ground arith;
    coinbase = check_coinbases-eq-ok b.transactions (ground arith);
    root = ground arith;
    ascending = check_order-eq-ok (map tx_hash b.transactions) (ground arith);
    valid = check_txs-eq-ok b.transactions (ground arith);
    spent_once = (check_block_inputs-SpentOnce [] b.transactions (ground arith)).1;
  }
