-- ===== src/Consensus/Pow/Target.antt =====
-- The proof-of-work test: what it accepts, and that mining ends with a header that passes it.
use mathlib.Core.List.{append_assoc}
use mathlib.Core.Path.{subst}
use native.Mathlib.Nat.{le-div_iff_mul-le}
use native.Mathlib.Decide.{ℕ_discrete}
use klingnet.Prelude.{
  ℕ, zero, suc, ◌+◌, ◌*◌, ◌≤◌, ◌<◌, ◌≡◌, ◌≢◌, ◌↔◌, true, false, List, ◌++◌, arith, ok, Bool-cases,
  inl, inr, ap, sym,
}
use klingnet.Bytes.{le_bytes}
use klingnet.Crypto.{Crypto, hash}
use klingnet.Block.{Header, header_bytes, header_hash}
use klingnet.Consensus.Pow.{
  max_uint256, target, verify_header, signing_prefix, meets, seal_loop, seal_single,
}

module _ ⦃c : Crypto⦄ where
  -- A header passes exactly if its difficulty is positive and its hash times its difficulty is at
  -- most 2^256 - 1.
  pub verify_header_iff :
      (h : Header)
      → (verify_header h ≡ ok tt)
        ↔ ((0 < h.difficulty) × (header_hash h * h.difficulty ≤ max_uint256))
  unfolding verify_header target
  verify_header_iff h = (
    ground (arith, le-div_iff_mul-le {k = h.difficulty} {x = header_hash h} {y = max_uint256}),
    ground (arith, le-div_iff_mul-le {k = h.difficulty} {x = header_hash h} {y = max_uint256}),
  )

  header_bytes-nonce :
      (h : Header) (n : ℕ)
      → header_bytes (record h { nonce = n }) ≡ signing_prefix h ++ le_bytes 8 n
  unfolding header_bytes signing_prefix
  header_bytes-nonce h n = simp append_assoc

  -- Setting a nonce that meets the target gives a header that passes.
  meets-verify_header :
      (h : Header) (n : ℕ)
      → 0 < h.difficulty
      → meets (signing_prefix h) (target h.difficulty) n ≡ true
      → verify_header (record h { nonce = n }) ≡ ok tt
  unfolding verify_header meets header_hash
  meets-verify_header h n pos e = ground (arith, ap hash (header_bytes-nonce h n))

  -- The loop stops at the first nonce that meets the target.
  seal_loop-first :
      (rounds : ℕ) (prefix : List ℕ) (t from n : ℕ)
      → from ≤ n
      → n < from + rounds
      → meets prefix t n ≡ true
      → (k : ℕ) × (seal_loop rounds prefix t from ≡ ok k)
        × (meets prefix t k ≡ true)
        × (k ≤ n)
        × ((j : ℕ) → from ≤ j → j < k → meets prefix t j ≡ false)
  unfolding seal_loop
  seal_loop-first zero prefix t from n low high e = absurd (omega arith)
  seal_loop-first (suc rounds) prefix t from n low high e =
      elim (Bool-cases (meets prefix t from)) [
        | inl yes_here ↦ (from, ground arith, yes_here, low, λ j p q. absurd (omega arith))
        | inr not_here ↦
            let differ : from ≢ n = λ same. cc (e, not_here, ap (meets prefix t) same) in
            let (k, found, good, least, before) =
              seal_loop-first rounds prefix t (from + 1) n (omega arith) (omega arith) e in
            (
              k,
              ground arith,
              good,
              least,
              λ j p q. elim (ℕ_discrete j from) [
                | yes same ↦ subst (λ z. meets prefix t z ≡ false) (sym same) not_here
                | no other ↦ before j (omega arith) q
              ],
            )
      ]

  -- If the difficulty is positive and a nonce among the first `rounds` meets the target, mining ends, and the header that it
  -- gives has the first such nonce, differs in nothing else and passes the check of the network.
  pub seal_single-first :
      (rounds : ℕ) (h : Header) (n : ℕ)
      → 0 < h.difficulty
      → n < rounds
      → meets (signing_prefix h) (target h.difficulty) n ≡ true
      → (k : ℕ) × (seal_single rounds h ≡ ok (record h { nonce = k }))
        × (verify_header (record h { nonce = k }) ≡ ok tt)
        × (k ≤ n)
        × ((j : ℕ) → j < k → meets (signing_prefix h) (target h.difficulty) j ≡ false)
  unfolding seal_single
  seal_single-first rounds h n pos low e =
      let (k, found, good, least, before) =
        seal_loop-first rounds (signing_prefix h) (target h.difficulty) 0 n (omega arith)
          (omega arith) e in
      (
        k,
        ground (arith, found),
        meets-verify_header h k pos good,
        least,
        λ j q. before j (omega arith) q,
      )
