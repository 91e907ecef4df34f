-- ===== src/Mempool/Eviction.antt =====
-- internal/mempool/eviction.go: Evict brings a pool back within its limit.
use mathlib.Core.Path.{subst}
use klingnet.Prelude.{
  ℕ, ◌+◌, ◌≤◌, ◌≡◌, refl, sym, ap, ◌∙◌, if-holds, Bool, true, false, ◌||◌, List, [], ◌∷◌, Option,
  none, some, length, map, ltb, leb, ◌==◌, ==_iff, if◌then◌else◌, nat_eq, arith, Bool-cases, inl,
  inr,
}
use klingnet.Prelude.Assoc.{Assoc, lookup, lookup-erase, IsMap, erase-IsMap}
use klingnet.Types.{Hash}
use klingnet.Mempool.{Entry, Settings, Pool, rate_of, remove, remove_entry}
use klingnet.Mempool.Bound.{IsSound}
use klingnet.Mempool.Index.{IsIndexed, remove-IsIndexed}

-- sort.Slice by fee rate, ascending; the order of equal rates is one that it may give
unfoldable pub insert_by_rate : (ℕ × ℕ → ℕ × ℕ → Bool) → Entry → List Entry → List Entry
insert_by_rate less e [] = e ∷ []
insert_by_rate less e (x ∷ xs) =
    let rest = insert_by_rate less e xs in
    if less (rate_of x) (rate_of e) then x ∷ rest else e ∷ x ∷ xs

unfoldable pub sort_by_rate : (ℕ × ℕ → ℕ × ℕ → Bool) → List Entry → List Entry
sort_by_rate less [] = []
sort_by_rate less (e ∷ es) = insert_by_rate less e (sort_by_rate less es)

-- the loop that removes one entry after the other, from a number of entries removed on
unfoldable pub evict_loop : ℕ → List Entry → Pool → ℕ → Pool × ℕ
evict_loop max [] p evicted = (p, evicted)
evict_loop max (e ∷ es) p evicted =
    let rest = evict_loop max es (remove e.tx_hash p) (evicted + 1) in
    if ltb max (length p.txs) then rest else (p, evicted)

-- Evict: the pool, and the number of the entries removed
unfoldable pub evict : Settings → Pool → Pool × ℕ
evict s p =
    if leb (length p.txs) s.max_size
    then (p, 0)
    else evict_loop s.max_size (sort_by_rate s.less_rate (map (λ e. e.1) p.txs)) p 0

abbrev lists : Hash → List Entry → Bool
lists h [] = false
lists h (e ∷ es) = e.tx_hash == h || lists h es

lists-insert :
    (less : ℕ × ℕ → ℕ × ℕ → Bool) (h : Hash) (e : Entry) (es : List Entry)
    → lists h (insert_by_rate less e es) ≡ (e.tx_hash == h || lists h es)
unfolding insert_by_rate
lists-insert less h e [] = refl
lists-insert less h e (x ∷ xs) = ground (arith, lists-insert less h e xs)

lists-sort :
    (less : ℕ × ℕ → ℕ × ℕ → Bool) (h : Hash) (es : List Entry)
    → lists h (sort_by_rate less es) ≡ lists h es
unfolding sort_by_rate
lists-sort less h [] = refl
lists-sort less h (e ∷ es) =
    ground (arith, lists-insert less h e (sort_by_rate less es), lists-sort less h es)

lists_found :
    (m : Assoc Hash Entry) (h : Hash) (e : Entry)
    → lookup h m ≡ some e
    → lists e.tx_hash (map (λ x. x.1) m) ≡ true
unfolding lookup
lists_found [] h e found = cc
lists_found ((k, x) ∷ m) h e found =
    ground (arith, lists_found m h e, ==_iff k h, ==_iff x.tx_hash e.tx_hash)

lookup-remove_entry :
    (x h : Hash) (o : Option Entry) (p : Pool)
    → lookup x p.txs ≡ o
    → lookup h (remove_entry x o p).txs ≡ (if x == h then none else lookup h p.txs)
unfolding remove_entry
lookup-remove_entry x h none p found = elim (Bool-cases (x == h)) [
  | inl same ↦ rw same (subst (λ z. lookup z p.txs ≡ none) ((==_iff x h).0 same) found)
  | inr other ↦ rw other refl
]
lookup-remove_entry x h (some e) p found = lookup-erase x h p.txs

lookup-remove :
    (x h : Hash) (p : Pool) → lookup h (remove x p).txs ≡ (if x == h then none else lookup h p.txs)
unfolding remove
lookup-remove x h p = lookup-remove_entry x h (lookup x p.txs) p refl

unlisted :
    (m : Assoc Hash Entry) → ((h : Hash) (e : Entry) → lookup h m ≡ some e → ⊥) → length m ≡ 0
unfolding lookup
unlisted [] absent = refl
unlisted ((k, e) ∷ m) absent = absurd (absent k e (ground (arith, ==_iff k k)))

evict_loop-IsWithin :
    (max : ℕ) (es : List Entry) (p : Pool) (n : ℕ)
    → ((h : Hash) (e : Entry) → lookup h p.txs ≡ some e → lists h es ≡ true)
    → length (evict_loop max es p n).0.txs ≤ max
unfolding evict_loop
evict_loop-IsWithin max [] p n all =
    omega (arith, unlisted p.txs (λ h e found. ground (arith, all h e found)))
evict_loop-IsWithin max (x ∷ es) p n all = elim (Bool-cases (ltb max (length p.txs))) [
  | inl more ↦ rw more (
      evict_loop-IsWithin max es (remove x.tx_hash p) (n + 1)
        (λ h e found. ground (arith, found, all h e, lookup-remove x.tx_hash h p)))
  | inr fits ↦ rw fits (ground (arith, fits))
]

remove_entry-IsMap :
    (h : Hash) (o : Option Entry) (p : Pool) → IsMap p.txs → IsMap (remove_entry h o p).txs
unfolding remove_entry
remove_entry-IsMap h none p once = once
remove_entry-IsMap h (some e) p once = erase-IsMap h p.txs once

-- The index is exact, and no hash is listed twice.
abbrev IsConsistent : Pool → Type 0
IsConsistent p = IsIndexed p × IsMap p.txs

remove-IsConsistent : (h : Hash) (p : Pool) → IsConsistent p → IsConsistent (remove h p)
unfolding remove
remove-IsConsistent h p fine =
    (remove-IsIndexed p h fine.0, remove_entry-IsMap h (lookup h p.txs) p fine.1)

evict_loop-IsConsistent :
    (max : ℕ) (es : List Entry) (p : Pool) (n : ℕ)
    → IsConsistent p
    → IsConsistent (evict_loop max es p n).0
unfolding evict_loop
evict_loop-IsConsistent max [] p n fine = fine
evict_loop-IsConsistent max (x ∷ es) p n fine =
    if-holds (λ (r : Pool × ℕ). IsConsistent r.0) (ltb max (length p.txs))
      (evict_loop max es (remove x.tx_hash p) (n + 1)) (p, n)
      (λ more.
        evict_loop-IsConsistent max es (remove x.tx_hash p) (n + 1)
          (remove-IsConsistent x.tx_hash p fine))
      (λ fits. fine)

-- Let a pool's index say exactly what its transactions spend, no hash be listed twice, and every
-- entry stand under its own hash, whatever the pool's size. After Evict the index and the hashes are
-- as before and the size is within the limit.
pub evict-IsSound :
    (s : Settings) (p : Pool)
    → IsIndexed p
    → IsMap p.txs
    → ((h : Hash) (e : Entry) → lookup h p.txs ≡ some e → e.tx_hash ≡ h)
    → IsSound s (evict s p).0
unfolding evict
evict-IsSound s p indexed once keyed =
    let sorted = sort_by_rate s.less_rate (map (λ x. x.1) p.txs) in
    let fine = evict_loop-IsConsistent s.max_size sorted p 0 (indexed, once) in
    if-holds (λ (r : Pool × ℕ). IsSound s r.0) (leb (length p.txs) s.max_size) (p, 0)
      (evict_loop s.max_size sorted p 0)
      (λ fits. record { indexed = indexed; listed_once = once; bounded = ground (arith, fits) })
      (λ full. record {
        indexed = fine.0;
        listed_once = fine.1;
        bounded = evict_loop-IsWithin s.max_size sorted p 0 (λ h e found.
            lists-sort s.less_rate h (map (λ x. x.1) p.txs)
            ∙ sym (ap (λ k. lists k (map (λ x. x.1) p.txs)) (keyed h e found))
            ∙ lists_found p.txs h e found);
      })
