-- ===== src/Wallet/Selection.antt =====
-- What SelectCoins promises: a selection that covers the target out of the coins that are given,
-- whenever there are coins enough.
use klingnet.Prelude.{
  ℕ, ◌+◌, ◌-◌, ◌%◌, ◌^◌, ◌<◌, ◌≤◌, ◌≡◌, refl, ap, if◌then◌else◌, ◌⊎◌, inl, inr, List, [], ◌∷◌, ◌++◌,
  Option, none, some, arith, length, leb, ok, max_u64, Bool-cases,
}
use klingnet.Wallet.{
  Coin, CoinSelection, with_value, insert_coin, sort_coins, single_coin, reverse_coins, add_coin,
  accumulate, pick, select_coins,
}

-- The sum of a weight over coins.
abbrev pub weigh : (Coin → ℕ) → List Coin → ℕ
weigh w [] = 0
weigh w (u ∷ us) = w u + weigh w us

abbrev pub values : List Coin → ℕ
values = weigh (λ u. u.value)

-- The selection is made of the coins, each used at most as often as it is there: under any weight
-- it weighs no more.
abbrev pub IsPartOf : List Coin → List Coin → Type 0
IsPartOf us vs = (w : Coin → ℕ) → weigh w us ≤ weigh w vs

weigh-append : (w : Coin → ℕ) (us vs : List Coin) → weigh w (us ++ vs) ≡ weigh w us + weigh w vs
weigh-append w [] vs = omega arith
weigh-append w (u ∷ us) vs = omega (arith, weigh-append w us vs)

weigh-reverse : (w : Coin → ℕ) (us : List Coin) → weigh w (reverse_coins us) ≡ weigh w us
unfolding reverse_coins
weigh-reverse w [] = refl
weigh-reverse w (u ∷ us) =
    omega (arith, weigh-append w (reverse_coins us) (u ∷ []), weigh-reverse w us)

weigh-insert :
    (w : Coin → ℕ) (u : Coin) (us : List Coin) → weigh w (insert_coin u us) ≡ w u + weigh w us
unfolding insert_coin
weigh-insert w u [] = refl
weigh-insert w u (v ∷ vs) = ground (arith, weigh-insert w u vs)

weigh-sort : (w : Coin → ℕ) (us : List Coin) → weigh w (sort_coins us) ≡ weigh w us
unfolding sort_coins
weigh-sort w [] = refl
weigh-sort w (u ∷ us) = omega (arith, weigh-insert w u (sort_coins us), weigh-sort w us)

weigh-with_value : (w : Coin → ℕ) (us : List Coin) → weigh w (with_value us) ≤ weigh w us
unfolding with_value
weigh-with_value w [] = omega arith
weigh-with_value w (u ∷ us) = ground (arith, weigh-with_value w us)

values-with_value : (us : List Coin) → values (with_value us) ≡ values us
unfolding with_value
values-with_value [] = refl
values-with_value (u ∷ us) = ground (arith, values-with_value us)

-- The total is the sum of the inputs and covers the target with the change.
pub record IsFunded (us : List Coin) (target : ℕ) (s : CoinSelection) : Type 0 where
  pub total : values s.inputs ≡ s.total
  pub change : target + s.change ≡ s.total
  pub part : IsPartOf s.inputs us

single_coin-IsFunded :
    (target : ℕ) (us : List Coin) (s : CoinSelection)
    → single_coin target us ≡ some s
    → IsFunded us target s
unfolding single_coin
single_coin-IsFunded target [] s h = cc
single_coin-IsFunded target (u ∷ us) s h = elim (Bool-cases (leb target u.value)) [
  | inl covers ↦ record { total = ground arith; change = ground arith; part = λ w. ground arith }
  | inr short ↦
      let f = single_coin-IsFunded target us s (ground arith) in
      record { total = f.total; change = f.change; part = λ w. omega (arith, f.part w) }
]

-- The loop from a running total, where no sum exceeds a uint64.
pub record IsFundedFrom (t : ℕ) (us : List Coin) (target : ℕ) (s : CoinSelection) : Type 0 where
  pub total : t + values s.inputs ≡ s.total
  pub change : target + s.change ≡ s.total
  pub part : IsPartOf s.inputs us

add_coin-eq-some :
    (u : Coin) (o : Option CoinSelection) (s : CoinSelection)
    → add_coin u o ≡ some s
    → (r : CoinSelection) × (o ≡ some r)
      × (s.inputs ≡ u ∷ r.inputs)
      × (s.total ≡ r.total)
      × (s.change ≡ r.change)
unfolding add_coin
add_coin-eq-some u none s h = cc
add_coin-eq-some u (some r) s h = (r, refl, ground arith, ground arith, ground arith)

accumulate-IsFundedFrom :
    (target t : ℕ) (us : List Coin) (s : CoinSelection)
    → t + values us ≤ max_u64
    → accumulate target t us ≡ some s
    → IsFundedFrom t us target s
unfolding accumulate
accumulate-IsFundedFrom target t [] s fits h = cc
accumulate-IsFundedFrom target t (u ∷ us) s fits h =
    let sum : (t + u.value) % 2 ^ 64 ≡ t + u.value = omega arith in
    elim (Bool-cases (leb target (t + u.value))) [
      | inl covers ↦
          let e : s
              ≡ record { inputs = u ∷ []; total = t + u.value; change = t + u.value - target } =
            ground (arith, sum, covers) in
          record {
            total = ground (arith, e);
            change = ground (arith, e);
            part = λ w. ground (arith, e);
          }
      | inr short ↦
          let more : add_coin u (accumulate target (t + u.value) us) ≡ some s =
            ground (arith, sum, short) in
          let (r, found, ins, tot, chg) =
            add_coin-eq-some u (accumulate target (t + u.value) us) s more in
          let f = accumulate-IsFundedFrom target (t + u.value) us r (omega arith) found in
          record {
            total = omega (arith, f.total, tot, ap values ins);
            change = omega (arith, f.change, tot, chg);
            part = λ w. omega (arith, f.part w, ap (weigh w) ins);
          }
    ]

accumulate_succeeds :
    (target t : ℕ) (us : List Coin)
    → t + values us ≤ max_u64
    → t < target
    → target ≤ t + values us
    → (s : CoinSelection) × (accumulate target t us ≡ some s)
unfolding accumulate add_coin
accumulate_succeeds target t [] fits low enough = absurd (omega arith)
accumulate_succeeds target t (u ∷ us) fits low enough =
    let sum : (t + u.value) % 2 ^ 64 ≡ t + u.value = omega arith in
    elim (Bool-cases (leb target (t + u.value))) [
      | inl covers ↦ (
        record { inputs = u ∷ []; total = t + u.value; change = t + u.value - target },
        ground (arith, sum, covers),
      )
      | inr short ↦
          let (r, found) =
            accumulate_succeeds target (t + u.value) us (omega arith) (ground arith)
              (omega arith) in
          (record r { inputs = u ∷ r.inputs }, ground (arith, sum, short, found))
    ]

candidates_weigh :
    (w : Coin → ℕ) (us : List Coin)
    → weigh w (reverse_coins (sort_coins (with_value us))) ≡ weigh w (with_value us)
candidates_weigh w us =
    omega (arith, weigh-reverse w (sort_coins (with_value us)), weigh-sort w (with_value us))

pick_one :
    (o p : Option CoinSelection) (s : CoinSelection) → pick o p ≡ ok s → (o ≡ some s) ⊎ (p ≡ some s)
unfolding pick
pick_one none none s h = cc
pick_one none (some a) s h = ground arith
pick_one (some b) none s h = ground arith
pick_one (some b) (some a) s h = ground arith

pick_succeeds :
    (o : Option CoinSelection) (a : CoinSelection) → (s : CoinSelection) × (pick o (some a) ≡ ok s)
unfolding pick
pick_succeeds none a = (a, refl)
pick_succeeds (some b) a = (if leb b.change a.change then b else a, ground arith)

nonempty : (us : List Coin) → 0 < values us → 0 < length us
nonempty [] h = h
nonempty (u ∷ us) h = omega arith

select_coins_pick :
    (us : List Coin) (target : ℕ) (s : CoinSelection)
    → select_coins us target ≡ ok s
    → (single_coin target (sort_coins (with_value us)) ≡ some s)
      ⊎ (accumulate target 0 (reverse_coins (sort_coins (with_value us))) ≡ some s)
unfolding select_coins
select_coins_pick us target s h = pick_one _ _ s (ground arith)

-- Where the values of the coins add up to a uint64, a selection has the sum of its inputs as total,
-- the total is the target and the change, and its inputs are among the coins, each at most as
-- often as it is there.
pub select_coins-IsFunded :
    (us : List Coin) (target : ℕ) (s : CoinSelection)
    → values us ≤ max_u64
    → select_coins us target ≡ ok s
    → IsFunded us target s
select_coins-IsFunded us target s fits h = elim (select_coins_pick us target s h) [
  | inl one ↦
      let f = single_coin-IsFunded target (sort_coins (with_value us)) s one in
      record {
        total = f.total;
        change = f.change;
        part = λ w. omega (arith, f.part w, weigh-sort w (with_value us), weigh-with_value w us);
      }
  | inr many ↦
      let f =
        accumulate-IsFundedFrom target 0 (reverse_coins (sort_coins (with_value us))) s
          (omega (arith, candidates_weigh (λ u. u.value) us, values-with_value us)) many in
      record {
        total = omega (arith, f.total);
        change = f.change;
        part = λ w. omega (arith, f.part w, candidates_weigh w us, weigh-with_value w us);
      }
]

-- Where the values of the coins add up to a uint64, the selection succeeds for every positive
-- target that the coins can pay.
pub select_coins_succeeds :
    (us : List Coin) (target : ℕ)
    → values us ≤ max_u64
    → 0 < target
    → target ≤ values us
    → (s : CoinSelection) × (select_coins us target ≡ ok s)
unfolding select_coins
select_coins_succeeds us target fits some_target enough =
    let (a, found) =
      accumulate_succeeds target 0 (reverse_coins (sort_coins (with_value us)))
        (omega (arith, candidates_weigh (λ u. u.value) us, values-with_value us)) some_target
        (omega (arith, candidates_weigh (λ u. u.value) us, values-with_value us)) in
    let (s, picked) = pick_succeeds (single_coin target (sort_coins (with_value us))) a in
    (s, ground (arith, found, picked, nonempty us, nonempty (with_value us), values-with_value us))
