-- ===== src/Mempool/Bound.antt =====
-- Adding a transaction keeps the pool's index exact and the pool within its size.
use mathlib.Core.Path.{subst}
use native.Mathlib.Decide.{ℕ_discrete}
use klingnet.Prelude.{
  ℕ, ◌<◌, ◌≤◌, ◌≡◌, refl, ap, ◌⊎◌, inl, inr, Bool, true, false, [], ◌∷◌, Option, none, some, length,
  ltb, ok, arith, nat_eq, Bool-cases, Option-cases, Result-cases,
}
use klingnet.Prelude.Assoc.{
  Assoc, lookup, insert, IsMap, lookup-erase, lookup-insert, erase-IsMap, insert-IsMap,
  length-erase, erase_absent,
}
use klingnet.Types.{Hash, Outpoint, outpoint_eq}
use klingnet.Crypto.{Crypto}
use klingnet.Tx.{Transaction, tx_hash, signing_bytes}
use klingnet.Mempool.{
  Entry, Settings, Pool, has_conflict, remove_entry, remove, rate_of, lower, find_lowest, evict_for,
  make_room, check_add, add_entry, add,
}
use klingnet.Mempool.Index.{
  spends_in, lookup-unindex, lookup-index, has_conflict-eq-false, IsIndexed, remove-IsIndexed,
}

same_entry : (e f : Entry) → some e ≡ some f → e ≡ f
same_entry e f h = ground arith

lower-cases :
    (less : ℕ × ℕ → ℕ × ℕ → Bool) (h : Hash) (e : Entry) (best : Option (Hash × Entry))
    (r : Hash × Entry)
    → lower less h e best ≡ some r
    → (best ≡ some r) ⊎ (r ≡ (h, e))
unfolding lower
lower-cases less h e none r p = ground arith
lower-cases less h e (some b) r p = elim (Bool-cases (less (rate_of e) (rate_of b.1))) [
  | inl below ↦ ground (arith, below)
  | inr above ↦ ground (arith, above)
]

find_lowest-found :
    (less : ℕ × ℕ → ℕ × ℕ → Bool) (best : Option (Hash × Entry)) (m : Assoc Hash Entry)
    (r : Hash × Entry)
    → IsMap m
    → find_lowest less best m ≡ some r
    → (best ≡ some r) ⊎ (lookup r.0 m ≡ some r.1)
unfolding find_lowest lookup
find_lowest-found less best [] r w p = inl p
find_lowest-found less best ((h, e) ∷ m) r w p =
    elim (find_lowest-found less (lower less h e best) m r w.1 p) [
      | inl low ↦ elim (lower-cases less h e best r low) [
        | inl old ↦ inl old
        | inr here ↦ inr (ground (arith, here))
      ]
      | inr later ↦ inr (ground (arith, later, w.0))
    ]

-- The index is exact, no hash is listed twice, and the size is within its limit.
pub record IsSound (s : Settings) (p : Pool) : Type 0 where
  pub indexed : IsIndexed p
  pub listed_once : IsMap p.txs
  pub bounded : length p.txs ≤ s.max_size

-- What a pool that made room has: the room, and nothing that was not there.
record HasRoom (s : Settings) (p r : Pool) : Type 0 where
  indexed : IsIndexed r
  listed_once : IsMap r.txs
  room : length r.txs < s.max_size
  no_tx : (h : Hash) → lookup h p.txs ≡ none → lookup h r.txs ≡ none
  no_spend : (o : Outpoint) → lookup o p.spends ≡ none → lookup o r.spends ≡ none

remove-HasRoom :
    (s : Settings) (p : Pool) (h : Hash) (e : Entry)
    → IsSound s p
    → lookup h p.txs ≡ some e
    → HasRoom s p (remove h p)
unfolding remove remove_entry
remove-HasRoom s p h e sound found = rw found (record {
  indexed = subst (λ z. IsIndexed (remove_entry h z p)) found (remove-IsIndexed p h sound.indexed);
  listed_once = erase-IsMap h p.txs sound.listed_once;
  room = omega (arith, length-erase h e p.txs sound.listed_once found, sound.bounded);
  no_tx = λ k absent. ground (arith, absent, lookup-erase h k p.txs);
  no_spend = λ o absent. ground (arith, absent, lookup-unindex o e.tx.inputs p.spends);
})

make_room-HasRoom :
    (s : Settings) (rate : ℕ × ℕ) (p r : Pool)
    → IsSound s p
    → make_room s rate p ≡ ok r
    → HasRoom s p r
unfolding make_room evict_for
make_room-HasRoom s rate p r sound h = elim (Bool-cases (ltb (length p.txs) s.max_size)) [
  | inl space ↦ subst (HasRoom s p) (ground (arith, space)) (record {
    indexed = sound.indexed;
    listed_once = sound.listed_once;
    room = ground (arith, space);
    no_tx = λ k absent. absent;
    no_spend = λ o absent. absent;
  })
  | inr full ↦ elim (Option-cases (find_lowest s.less_rate none p.txs)) [
    | inl no_lowest ↦ absurd (ground (arith, full, no_lowest))
    | inr (low, found) ↦
        let there : lookup low.0 p.txs ≡ some low.1 =
          elim (find_lowest-found s.less_rate none p.txs low sound.listed_once found) [
            | inl impossible ↦ cc
            | inr there ↦ there
          ] in
        subst (HasRoom s p) (ground (arith, full, found))
          (remove-HasRoom s p low.0 low.1 sound there)
  ]
]

module _ ⦃c : Crypto⦄ where
  check_add_parts :
      (s : Settings) (p : Pool) (t : Transaction) (fee : ℕ)
      → check_add s p t ≡ ok fee
      → (lookup (tx_hash t) p.txs ≡ none) × (has_conflict p.spends t.inputs ≡ false)
  unfolding check_add
  check_add_parts s p t fee h = elim (Option-cases (lookup (tx_hash t) p.txs)) [
    | inl absent ↦ (absent, ground (arith, absent))
    | inr (e, there) ↦ absurd (ground (arith, there))
  ]

  add_entry-IsIndexed :
      (t : Transaction) (fee : ℕ) (r : Pool)
      → IsIndexed r
      → lookup (tx_hash t) r.txs ≡ none
      → ((o : Outpoint) → spends_in o t.inputs ≡ true → lookup o r.spends ≡ none)
      → IsIndexed (add_entry t fee r)
  unfolding add_entry
  add_entry-IsIndexed t fee r inv fresh free o k =
      let h = tx_hash t in
      let new : Entry = record { tx = t; tx_hash = h; fee = fee } in
      let at_o = lookup-index h o t.inputs r.spends in
      let at_k = lookup-insert h k new r.txs in
      (
        λ there. elim (Bool-cases (spends_in o t.inputs)) [
          | inl mine ↦ (new, ground (arith, mine, there, at_o, at_k), mine)
          | inr other ↦
              let (e, has, spent) = (inv o k).0 (ground (arith, other, there, at_o)) in
              (e, ground (arith, has, fresh, at_k), spent)
        ],
        λ kept.
            let (e, has, spent) = kept in
            elim (ℕ_discrete h k) [
              | yes same ↦
                  let is_new : some e ≡ some new = ground (arith, has, at_k, same) in
                  let mine : spends_in o t.inputs ≡ true =
                    subst (λ (z : Entry). spends_in o z.tx.inputs ≡ true) (same_entry e new is_new)
                      spent in
                  ground (arith, mine, same, at_o)
              | no differ ↦
                  let before : lookup k r.txs ≡ some e = ground (arith, has, at_k) in
                  let at = (inv o k).1 (e, before, spent) in ground (arith, at, at_o, free o)
            ],
      )

  add_parts :
      (s : Settings) (p p' : Pool) (t : Transaction) (fee : ℕ)
      → add s p t ≡ ok (p', fee)
      → (r : Pool) × (check_add s p t ≡ ok fee)
        × (make_room s (fee, length (signing_bytes t)) p ≡ ok r)
        × (add_entry t fee r ≡ p')
  unfolding add
  add_parts s p p' t fee h = elim (Result-cases (check_add s p t)) [
    | inl (n, checked) ↦ elim (Result-cases (make_room s (n, length (signing_bytes t)) p)) [
      | inl (r, room) ↦
          let same : n ≡ fee = ground (arith, checked, room) in
          (
            r,
            subst (λ z. check_add s p t ≡ ok z) same checked,
            subst (λ z. make_room s (z, length (signing_bytes t)) p ≡ ok r) same room,
            ground (arith, checked, room),
          )
      | inr (e, bad) ↦ ground arith
    ]
    | inr (e, bad) ↦ ground arith
  ]

  add_entry-IsSound :
      (s : Settings) (p r : Pool) (t : Transaction) (fee : ℕ)
      → HasRoom s p r
      → lookup (tx_hash t) p.txs ≡ none
      → has_conflict p.spends t.inputs ≡ false
      → IsSound s (add_entry t fee r)
        × ((e : Entry) × (lookup (tx_hash t) (add_entry t fee r).txs ≡ some e)
            × (e.tx ≡ t)
            × (e.fee ≡ fee))
  unfolding add_entry insert
  add_entry-IsSound s p r t fee room absent free =
      let h = tx_hash t in
      let new : Entry = record { tx = t; tx_hash = h; fee = fee } in
      let none_there = room.no_tx h absent in
      (
        record {
          indexed =
              add_entry-IsIndexed t fee r room.indexed none_there
                (λ o mine. room.no_spend o (has_conflict-eq-false o t.inputs p.spends free mine));
          listed_once = insert-IsMap h new r.txs room.listed_once;
          bounded = omega (arith, room.room, ap length (erase_absent h r.txs none_there));
        },
        (new, ground (arith, lookup-insert h h new r.txs), refl, refl),
      )

  -- Let a pool's index say exactly what its transactions spend, no hash be listed twice, and its
  -- size be within the limit. If a transaction is added, with or without an eviction, the same
  -- holds of the new pool, which has the transaction under its hash with the fee that is returned.
  pub add-IsSound :
      (s : Settings) (p p' : Pool) (t : Transaction) (fee : ℕ)
      → IsSound s p
      → add s p t ≡ ok (p', fee)
      → IsSound s p'
        × ((e : Entry) × (lookup (tx_hash t) p'.txs ≡ some e) × (e.tx ≡ t) × (e.fee ≡ fee))
  add-IsSound s p p' t fee sound h =
      let (r, checked, room, same) = add_parts s p p' t fee h in
      let (absent, free) = check_add_parts s p t fee checked in
      subst
        (λ z.
          IsSound s z
          × ((e : Entry) × (lookup (tx_hash t) z.txs ≡ some e) × (e.tx ≡ t) × (e.fee ≡ fee)))
        same
        (add_entry-IsSound s p r t fee
          (make_room-HasRoom s (fee, length (signing_bytes t)) p r sound room) absent free)
