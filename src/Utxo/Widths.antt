-- ===== src/Utxo/Widths.antt =====
-- internal/utxo/store.go: an owner has the width of its index, so that keys are told apart.
use klingnet.Prelude.{
  ℕ, ◌≤◌, ◌≡◌, refl, sym, ap, ◌∙◌, Bool, true, false, List, [], ◌∷◌, none, some, ◌==◌, ==_iff, ◌&&◌,
  ◌||◌, leb, if◌then◌else◌, Result, ok, bytes_equal, bytes_equal_iff, arith, Bool-cases,
  Option-cases, inl, inr, length, take,
}
use klingnet.Types.{
  Outpoint, same_outpoint, same_outpoint_iff, Script, script_type_p2pkh, script_type_mint,
  script_type_stake, address_size,
}
use klingnet.Utxo.{Utxo}
use klingnet.Utxo.Keys.{IsOutpoint, index_key, index_key-injective}
use klingnet.Utxo.Store.{StoreError, script_address, script_stake, compressed_pub_key_size}
use klingnet.Utxo.Owners.{
  Index, by_address, by_stake, tag_of, owner_of, width_of, prefix_of, matches,
}
use klingnet.Storage.{has_prefix}

length-take : (n : ℕ) (xs : List ℕ) → n ≤ length xs → length (take n xs) ≡ n
length-take ℕ.zero xs h = refl
length-take (ℕ.suc n) [] h = absurd (omega arith)
length-take (ℕ.suc n) (x ∷ xs) h = omega (arith, length-take n xs (omega arith))

if-eq-some :
    (c : Bool) (x a : List ℕ) → (if c then some x else none) ≡ some a → (c ≡ true) × (x ≡ a)
if-eq-some true x a h = (refl, ground arith)
if-eq-some false x a h = cc

both_true : (a b : Bool) → (a && b) ≡ true → b ≡ true
both_true true b h = h
both_true false b h = cc

leb-le : (m n : ℕ) → leb m n ≡ true → m ≤ n
leb-le m n h = ground arith

length-script_address : (s : Script) (a : List ℕ) → script_address s ≡ some a → length a ≡ 20
unfolding script_address
length-script_address s a h =
    let parts =
      if-eq-some
        ((s.type == script_type_p2pkh || s.type == script_type_mint)
          && leb address_size (length s.bytes))
        (take address_size s.bytes) a h in
    let long =
      both_true (s.type == script_type_p2pkh || s.type == script_type_mint)
        (leb address_size (length s.bytes)) parts.0 in
    sym (ap length parts.1) ∙ length-take 20 s.bytes (leb-le 20 (length s.bytes) long)

length-script_stake : (s : Script) (a : List ℕ) → script_stake s ≡ some a → length a ≡ 33
unfolding script_stake
length-script_stake s a h =
    let parts =
      if-eq-some (s.type == script_type_stake && length s.bytes == compressed_pub_key_size) s.bytes
        a h in
    let wide =
      both_true (s.type == script_type_stake) (length s.bytes == compressed_pub_key_size) parts.0 in
    sym (ap length parts.1) ∙ (==_iff (length s.bytes) 33).0 wide

-- An owner has the index's width.
pub length-owner_of :
    (c : Index) (s : Script) (a : List ℕ) → owner_of c s ≡ some a → length a ≡ width_of c
length-owner_of by_address s a h = length-script_address s a h
length-owner_of by_stake s a h = length-script_stake s a h

pub prefix_of-index_key :
    (c : Index) (a : List ℕ) (o : Outpoint)
    → has_prefix (prefix_of c) (index_key (tag_of c) a o) ≡ true
unfolding has_prefix index_key
prefix_of-index_key by_address a o = refl
prefix_of-index_key by_stake a o = refl

-- An entry of another outpoint stands under another key.
pub spared :
    (c : Index) (s t : Script) (a : List ℕ) (o p : Outpoint)
    → IsOutpoint o
    → IsOutpoint p
    → same_outpoint p o ≡ false
    → owner_of c s ≡ some a
    → matches (tag_of c) (owner_of c t) p (index_key (tag_of c) a o) ≡ false
spared c s t a o p wide old apart owns = elim (Option-cases (owner_of c t)) [
  | inl no_owner ↦ ground (arith, no_owner)
  | inr (b, owned) ↦
      elim (Bool-cases (bytes_equal (index_key (tag_of c) b p) (index_key (tag_of c) a o))) [
        | inl same ↦
            let keys =
              (bytes_equal_iff (index_key (tag_of c) b p) (index_key (tag_of c) a o)).0 same in
            let width = length-owner_of c t b owned ∙ sym (length-owner_of c s a owns) in
            let here : p ≡ o = (index_key-injective (tag_of c) b a p o width old wide keys).1 in
            let equal = (same_outpoint_iff p o).1 here in cc
        | inr other ↦ ground (arith, owned)
      ]
]

pub ok-injective : {a b : Utxo} {r : Result StoreError Utxo} → r ≡ ok a → r ≡ ok b → a ≡ b
ok-injective h k = ground arith
