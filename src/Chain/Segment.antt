-- ===== src/Chain/Segment.antt =====
-- How a stretch of the application of a block changes the UTXO set, outpoint by outpoint.
use mathlib.Core.Path.{subst}
use klingnet.Prelude.{
  ap, sym, ℕ, suc, ◌≡◌, refl, ◌⊎◌, inl, inr, true, false, List, [], ◌∷◌, ◌++◌, none, some, arith,
  ok, All, contains, Bool-cases, Option-cases, Result-cases,
}
use klingnet.Prelude.Assoc.{lookup, insert, erase, lookup-insert, lookup-erase}
use klingnet.Types.{Hash, Outpoint, outpoint_eq, same_outpoint_iff, is_zero}
use klingnet.Tx.{Input, Output}
use klingnet.Block.Rules.{IsZero}
use klingnet.Utxo.{Utxo, UtxoSet, IsKeyed}
use klingnet.Chain.Apply.{spend, create, created, outpoint_at}

abbrev pub outpoints : List Utxo → List Outpoint
outpoints [] = []
outpoints (u ∷ us) = u.outpoint ∷ outpoints us

-- From `r` to `r'` an outpoint keeps its entry, or is spent, or is created.
abbrev pub Changed : UtxoSet → UtxoSet → List Outpoint → List Outpoint → Outpoint → Type 0
Changed r r' spent new o =
    (lookup o r' ≡ lookup o r)
    ⊎ ((lookup o r' ≡ none) × (contains o spent ≡ true))
    ⊎ (contains o new ≡ true)

-- An entry of `r` is the one that the base has, where the base has one.
abbrev pub Below : UtxoSet → UtxoSet → Type 0
Below base r = (o : Outpoint) (u v : Utxo) → lookup o base ≡ some u → lookup o r ≡ some v → v ≡ u

abbrev pub IsPresent : UtxoSet → Input → Type 0
IsPresent base i = IsZero i ⊎ ((u : Utxo) × (lookup i.prev_out base ≡ some u))

-- The spent outputs are entries of the base.
abbrev pub AreFrom : UtxoSet → List Utxo → Type 0
AreFrom base = All (λ u. lookup u.outpoint base ≡ some u)

pub contains-append :
    (o : Outpoint) (xs ys : List Outpoint)
    → contains o xs ≡ true ⊎ contains o ys ≡ true
    → contains o (xs ++ ys) ≡ true
contains-append o [] ys h = ground arith
contains-append o (x ∷ xs) ys h = ground (arith, contains-append o xs ys)

pub Changed-trans :
    (r r1 r2 : UtxoSet) (s1 s2 n1 n2 : List Outpoint) (o : Outpoint)
    → Changed r r1 s1 n1 o
    → Changed r1 r2 s2 n2 o
    → Changed r r2 (s1 ++ s2) (n1 ++ n2) o
Changed-trans r r1 r2 s1 s2 n1 n2 o h k =
    ground (arith, contains-append o s1 s2, contains-append o n1 n2)

pub Below-erase : (base r : UtxoSet) (i : Outpoint) → Below base r → Below base (erase i r)
Below-erase base r i h o u v p q = ground (arith, lookup-erase i o r, h o u v)

Below-insert :
    (base r : UtxoSet) (i : Outpoint) (w : Utxo)
    → lookup i base ≡ none
    → Below base r
    → Below base (insert i w r)
Below-insert base r i w fresh h o u v p q =
    ground (arith, lookup-insert i o w r, h o u v, same_outpoint_iff i o)

-- An input that is present in the base and found in `r` is found with the base's entry.
pub found_in_base :
    (base r : UtxoSet) (i : Input) (u : Utxo)
    → Below base r
    → IsPresent base i
    → is_zero i.prev_out ≡ false
    → lookup i.prev_out r ≡ some u
    → lookup i.prev_out base ≡ some u
found_in_base base r i u below (inl zero_out) nonzero found = ground arith
found_in_base base r i u below (inr (v, there)) nonzero found =
    ground (arith, below i.prev_out v u there found)

-- One step of the spending loop: an input that is passed over, or an output that goes.
abbrev pub SpendStep : UtxoSet → Input → List Input → UtxoSet → List Utxo → Type 0
SpendStep r i is r' us =
    (IsZero i × (spend r is ≡ ok (r', us)))
    ⊎ ((u : Utxo) × (rest : List Utxo) × (is_zero i.prev_out ≡ false)
        × (lookup i.prev_out r ≡ some u)
        × (spend (erase i.prev_out r) is ≡ ok (r', rest))
        × (us ≡ u ∷ rest))

pub spend-nil : (r r' : UtxoSet) (us : List Utxo) → spend r [] ≡ ok (r', us) → (r ≡ r') × ([] ≡ us)
unfolding spend
spend-nil r r' us h = ground arith

pub spend-step :
    (r r' : UtxoSet) (us : List Utxo) (i : Input) (is : List Input)
    → spend r (i ∷ is) ≡ ok (r', us)
    → SpendStep r i is r' us
unfolding spend
spend-step r r' us i is h = elim (Bool-cases (is_zero i.prev_out)) [
  | inl zero_out ↦ inl (zero_out, ground arith)
  | inr spent ↦ elim (Option-cases (lookup i.prev_out r)) [
    | inl missing ↦ ground arith
    | inr (u, found) ↦ elim (Result-cases (spend (erase i.prev_out r) is)) [
      | inl ((r1, us1), rest) ↦ inr (u, us1, spent, found, ground arith, ground arith)
      | inr (e, bad) ↦ ground arith
    ]
  ]
]

pub spend-Below :
    (base r r' : UtxoSet) (us : List Utxo) (is : List Input)
    → Below base r
    → spend r is ≡ ok (r', us)
    → Below base r'
spend-Below base r r' us [] below h = subst (Below base) (spend-nil r r' us h).0 below
spend-Below base r r' us (i ∷ is) below h = elim (spend-step r r' us i is h) [
  | inl (zero_out, rest) ↦ spend-Below base r r' us is below rest
  | inr (u, us1, spent, found, rest, e) ↦
      spend-Below base (erase i.prev_out r) r' us1 is (Below-erase base r i.prev_out below) rest
]

module _ (base : UtxoSet) (keyed : IsKeyed base) where
  pub spend-AreFrom :
      (r r' : UtxoSet) (us : List Utxo) (is : List Input)
      → Below base r
      → All (IsPresent base) is
      → spend r is ≡ ok (r', us)
      → AreFrom base us
  spend-AreFrom r r' us [] below there h = subst (AreFrom base) (spend-nil r r' us h).1 tt
  spend-AreFrom r r' us (i ∷ is) below there h = elim (spend-step r r' us i is h) [
    | inl (zero_out, rest) ↦ spend-AreFrom r r' us is below there.1 rest
    | inr (u, us1, spent, found, rest, e) ↦
        let there_u = found_in_base base r i u below there.0 spent found in
        rw e (
          subst (λ z. lookup z base ≡ some u) (sym (keyed i.prev_out u there_u)) there_u,
          spend-AreFrom (erase i.prev_out r) r' us1 is (Below-erase base r i.prev_out below) there.1
              rest,
        )
  ]

  pub spend-Changed :
      (r r' : UtxoSet) (us : List Utxo) (is : List Input) (o : Outpoint)
      → Below base r
      → All (IsPresent base) is
      → spend r is ≡ ok (r', us)
      → (lookup o r' ≡ lookup o r) ⊎ ((lookup o r' ≡ none) × (contains o (outpoints us) ≡ true))
  spend-Changed r r' us [] o below there h =
      inl (ap (λ s. lookup o s) (sym (spend-nil r r' us h).0))
  spend-Changed r r' us (i ∷ is) o below there h = elim (spend-step r r' us i is h) [
    | inl (zero_out, rest) ↦ spend-Changed r r' us is o below there.1 rest
    | inr (u, us1, spent, found, rest, e) ↦
        let there_u = found_in_base base r i u below there.0 spent found in
        rw e (
          ground (
            arith,
            keyed i.prev_out u there_u,
            lookup-erase i.prev_out o r,
            same_outpoint_iff i.prev_out o,
            spend-Changed (erase i.prev_out r) r' us1 is o (Below-erase base r i.prev_out below)
                there.1 rest,
          ))
  ]

-- The outputs of a transaction are no entries of the base.
abbrev pub AreFresh : UtxoSet → List Outpoint → Type 0
AreFresh base = All (λ o. lookup o base ≡ none)

module _ (new : Outpoint → Output → Utxo)
    (own : (o : Outpoint) (out : Output) → (new o out).outpoint ≡ o) where
  pub create-Below :
      (base r : UtxoSet) (h : Hash) (i : ℕ) (os : List Output)
      → AreFresh base (created h i os)
      → Below base r
      → Below base (create new h i os r)
  unfolding create created
  create-Below base r h i [] fresh below = below
  create-Below base r h i (o ∷ os) fresh below =
      create-Below base (insert (new (outpoint_at h i) o).outpoint (new (outpoint_at h i) o) r) h
        (suc i) os fresh.1
        (Below-insert base r (new (outpoint_at h i) o).outpoint (new (outpoint_at h i) o)
          (rw (own (outpoint_at h i) o) fresh.0) below)

  pub create-Changed :
      (r : UtxoSet) (h : Hash) (i : ℕ) (os : List Output) (o : Outpoint)
      → (lookup o (create new h i os r) ≡ lookup o r) ⊎ (contains o (created h i os) ≡ true)
  unfolding create created
  create-Changed r h i [] o = inl refl
  create-Changed r h i (out ∷ os) o =
      let u = new (outpoint_at h i) out in
      ground (
        arith,
        own (outpoint_at h i) out,
        lookup-insert u.outpoint o u r,
        create-Changed (insert u.outpoint u r) h (suc i) os o,
      )
