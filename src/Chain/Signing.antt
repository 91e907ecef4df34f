-- ===== src/Chain/Signing.antt =====
-- internal/chain/processor.go: the limit on how often a validator signs, as the check of a block
-- (checkSigningLimit) and as the miner's question (IsSigningLimitReached).
use mathlib.Core.Path.{subst}
use native.Mathlib.Decide.{ℕ_discrete}
use klingnet.Prelude.{
  ℕ, zero, suc, ◌+◌, ◌-◌, ◌<◌, ◌≤◌, ◌≡◌, refl, sym, Bool, true, false, Option, none, some, ltb,
  ◌==◌, if◌then◌else◌, Result, ok, err, arith, bytes_equal, ◌↔◌, ap,
}
use klingnet.Crypto.{Crypto}
use klingnet.Block.{Header}
use klingnet.Consensus.Poa.{Key, Poa, signing_limit, identify_signer}

pub data SigningError : Type 0 where
  signing_limit_exceeded : SigningError

-- the header that is stored at a height; `none` is an error, which both loops pass over
abbrev pub Stored : Type 0
Stored = ℕ → Option Header

abbrev pub equals_key : Key → Option Key → Bool
equals_key key none = false
equals_key key (some other) = bytes_equal key other

module _ ⦃c : Crypto⦄ where
  unfoldable pub signed_header : Poa → Key → Option Header → Bool
  signed_header p key none = false
  signed_header p key (some h) = equals_key key (identify_signer p h)

  -- the loop of checkSigningLimit from `i` on, for `rounds` rounds at a block of height `h`
  unfoldable pub signed_before : Poa → Stored → Key → ℕ → ℕ → ℕ → Bool
  signed_before p stored key h i zero = false
  signed_before p stored key h i (suc rounds) =
      let rest = signed_before p stored key h (i + 1) rounds in
      if ltb h i then false else if signed_header p key (stored (h - i)) then true else rest

  -- checkSigningLimit, for a proof-of-authority engine
  unfoldable pub check_signing_limit : Poa → Stored → Header → Result SigningError (Unit {0})
  check_signing_limit p stored h =
      if signing_limit p == 0 then ok tt else elim (identify_signer p h) [
        | none ↦ ok tt
        | some key ↦
            if signed_before p stored key h.height 1 (signing_limit p - 1)
            then err signing_limit_exceeded
            else ok tt
      ]

  -- the loop of IsSigningLimitReached from `i` on, for `rounds` rounds at a tip of height `h`
  unfoldable pub signed_at_tip : Poa → Stored → Key → ℕ → ℕ → ℕ → Bool
  signed_at_tip p stored key h i zero = false
  signed_at_tip p stored key h i (suc rounds) =
      let rest = signed_at_tip p stored key h (i + 1) rounds in
      if ltb h (i + 1) then false else if signed_header p key (stored (h - i)) then true else rest

  -- IsSigningLimitReached, for a proof-of-authority engine
  unfoldable pub is_signing_limit_reached : Poa → Stored → ℕ → Key → Bool
  is_signing_limit_reached p stored tip key =
      if signing_limit p == 0 then false else signed_at_tip p stored key tip 0 (signing_limit p - 1)

  -- A block passes the loop exactly if none of the blocks it looks at has the signer.
  pub signed_before_iff :
      (p : Poa) (stored : Stored) (key : Key) (h i rounds : ℕ)
      → (signed_before p stored key h i rounds ≡ false)
        ↔ ((j : ℕ) → i ≤ j → j < i + rounds → j ≤ h → signed_header p key (stored (h - j)) ≡ false)
  unfolding signed_before
  signed_before_iff p stored key h i zero = (λ e j low high fits. absurd (omega arith), λ f. refl)
  signed_before_iff p stored key h i (suc rounds) = (
    λ e j low high fits. elim (ℕ_discrete j i) [
      | yes here ↦
          subst (λ z. signed_header p key (stored (h - z)) ≡ false) (sym here) (ground arith)
      | no later ↦
          (signed_before_iff p stored key h (i + 1) rounds).0 (ground arith) j (omega arith)
            (omega arith) fits
    ],
    λ f.
        let rest : signed_before p stored key h (i + 1) rounds ≡ false =
          (signed_before_iff p stored key h (i + 1) rounds).1
            (λ j low high fits. f j (omega arith) (omega arith) fits) in
        ground (arith, rest, f i),
  )

  same_height : (tip i : ℕ) → tip + 1 - (i + 1) ≡ tip - i
  same_height tip i = omega arith

  no_height : (tip i : ℕ) → tip ≤ i → 0 ≡ tip - i
  no_height tip i low = omega arith

  stops_at_genesis :
      (p : Poa) (stored : Stored) (key : Key) (tip i rounds : ℕ)
      → tip < i + 1
      → signed_at_tip p stored key tip i rounds ≡ false
  unfolding signed_at_tip
  stops_at_genesis p stored key tip i zero low = refl
  stops_at_genesis p stored key tip i (suc rounds) low = ground arith

  loops_agree :
      (p : Poa) (stored : Stored) (key : Key) (tip i rounds : ℕ)
      → signed_header p key (stored 0) ≡ false
      → signed_before p stored key (tip + 1) (i + 1) rounds
        ≡ signed_at_tip p stored key tip i rounds
  unfolding signed_before signed_at_tip
  loops_agree p stored key tip i zero genesis = refl
  loops_agree p stored key tip i (suc rounds) genesis =
      let same = ap stored (same_height tip i) in
      let here : signed_header p key (stored (tip + 1 - (i + 1)))
          ≡ signed_header p key (stored (tip - i)) =
        ap (λ z. signed_header p key z) same in
      let last : tip ≤ i → signed_header p key (stored (tip - i)) ≡ false =
        λ low. subst (λ z. signed_header p key (stored z) ≡ false) (no_height tip i low) genesis in
      ground (
        arith,
        here,
        last,
        stops_at_genesis p stored key tip (i + 1) rounds,
        loops_agree p stored key tip (i + 1) rounds genesis,
      )

  -- Let the header of the next block be identified as signed by a validator that did not sign the
  -- stored block at height 0. The miner's question says at the tip that this validator has reached
  -- the limit exactly if the check of the block refuses it.
  pub is_signing_limit_reached_iff :
      (p : Poa) (stored : Stored) (key : Key) (tip : ℕ) (h : Header)
      → identify_signer p h ≡ some key
      → h.height ≡ tip + 1
      → signed_header p key (stored 0) ≡ false
      → (is_signing_limit_reached p stored tip key ≡ true)
        ↔ (check_signing_limit p stored h ≡ err signing_limit_exceeded)
  unfolding is_signing_limit_reached check_signing_limit
  is_signing_limit_reached_iff p stored key tip h signer next genesis =
      let agree : signed_before p stored key h.height 1 (signing_limit p - 1)
          ≡ signed_at_tip p stored key tip 0 (signing_limit p - 1) =
        subst
          (λ z.
            signed_before p stored key z 1 (signing_limit p - 1)
            ≡ signed_at_tip p stored key tip 0 (signing_limit p - 1))
          (sym next) (loops_agree p stored key tip 0 (signing_limit p - 1) genesis) in
      (ground (arith, agree, signer), ground (arith, agree, signer))

  -- Where the limit is positive, a block whose signer is known passes exactly if none of the
  -- stored blocks at the preceding heights, one less of them than the limit, has the same signer.
  pub check_signing_limit_iff :
      (p : Poa) (stored : Stored) (key : Key) (h : Header)
      → 0 < signing_limit p
      → identify_signer p h ≡ some key
      → (check_signing_limit p stored h ≡ ok tt) ↔ (
          (j : ℕ)
          → 1 ≤ j
          → j < 1 + (signing_limit p - 1)
          → j ≤ h.height
          → signed_header p key (stored (h.height - j)) ≡ false)
  unfolding check_signing_limit
  check_signing_limit_iff p stored key h positive signer =
      let loop = signed_before_iff p stored key h.height 1 (signing_limit p - 1) in
      (λ e. loop.0 (ground (arith, signer)), λ f. ground (arith, signer, loop.1 f))
