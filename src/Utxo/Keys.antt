-- ===== src/Utxo/Keys.antt =====
-- internal/utxo/store.go: the database keys of the UTXO store.
use klingnet.Prelude.{
  take-append, take-all, drop-append, ℕ, zero, suc, ◌+◌, ◌*◌, ◌/◌, ◌%◌, ◌^◌, ◌<◌, ◌≡◌, refl, sym,
  ap, ◌∙◌, List, [], ◌∷◌, ◌++◌, length, take, drop, bytes_equal, bytes_eq, bytes_equal_iff, arith,
  length-append,
}
use klingnet.Bytes.{be_bytes, be_number}
use klingnet.Types.{Outpoint, same_outpoint, same_outpoint_iff, hash_size}

-- The bytes of a number of fixed width, read back.
pub length-be_bytes : (n x : ℕ) → length (be_bytes n x) ≡ n
unfolding be_bytes
length-be_bytes zero x = refl
length-be_bytes (suc n) x =
    omega (arith, length-be_bytes n (x / 256), length-append (be_bytes n (x / 256)) (x % 256 ∷ []))

be_number-append :
    (acc : ℕ) (xs : List ℕ) (b : ℕ) → be_number acc (xs ++ b ∷ []) ≡ be_number acc xs * 256 + b
unfolding be_number
be_number-append acc [] b = refl
be_number-append acc (x ∷ xs) b = be_number-append (acc * 256 + x) xs b

low_digit : (x n : ℕ) → x < 256 ^ suc n → x / 256 < 256 ^ n
low_digit x n h = omega arith

pub be_number-be_bytes : (n x : ℕ) → x < 256 ^ n → be_number 0 (be_bytes n x) ≡ x
unfolding be_bytes be_number
be_number-be_bytes zero x h = omega arith
be_number-be_bytes (suc n) x h =
    let low = low_digit x n h in
    be_number-append 0 (be_bytes n (x / 256)) (x % 256)
    ∙ omega (arith, be_number-be_bytes n (x / 256) low)

-- Two numbers with the same bytes are the same.
pub be_bytes-injective :
    (n x y : ℕ) → x < 256 ^ n → y < 256 ^ n → be_bytes n x ≡ be_bytes n y → x ≡ y
be_bytes-injective n x y hx hy e =
    sym (be_number-be_bytes n x hx) ∙ ap (be_number 0) e ∙ be_number-be_bytes n y hy

-- The first 32 bytes of the outpoint in a key, and the four after them.
unfoldable pub outpoint_bytes : Outpoint → List ℕ
outpoint_bytes o = be_bytes hash_size o.tx_id ++ be_bytes 4 o.index

-- the outpoint read back from a key, from an offset on
unfoldable pub outpoint_from : List ℕ → Outpoint
outpoint_from key = record {
  tx_id = be_number 0 (take hash_size key);
  index = be_number 0 (take 4 (drop hash_size key));
}

-- A Hash has 32 bytes and an index is a uint32.
abbrev pub IsOutpoint : Outpoint → Type 0
IsOutpoint o = (o.tx_id < 256 ^ 32) × (o.index < 256 ^ 4)

pub length-outpoint_bytes : (o : Outpoint) → length (outpoint_bytes o) ≡ 36
unfolding outpoint_bytes
length-outpoint_bytes o = omega (
  arith,
  length-append (be_bytes hash_size o.tx_id) (be_bytes 4 o.index),
  length-be_bytes 32 o.tx_id,
  length-be_bytes 4 o.index,
)

pub outpoint_from-outpoint_bytes :
    (o : Outpoint) → IsOutpoint o → outpoint_from (outpoint_bytes o) ≡ o
unfolding outpoint_from outpoint_bytes
outpoint_from-outpoint_bytes o h =
    let tx_bytes = be_bytes hash_size o.tx_id in
    let index_bytes = be_bytes 4 o.index in
    let width = length-be_bytes 32 o.tx_id in
    let first = ap (be_number 0) (take-append tx_bytes index_bytes 32 width) in
    let second = ap (λ z. be_number 0 (take 4 z)) (drop-append tx_bytes index_bytes 32 width) in
    λ i. record {
      tx_id = (first ∙ be_number-be_bytes 32 o.tx_id h.0) i;
      index =
          (second
              ∙ ap (be_number 0) (take-all index_bytes 4 (length-be_bytes 4 o.index))
              ∙ be_number-be_bytes 4 o.index h.1)
            i;
    }

-- utxoKey, under the prefix "u/"
unfoldable pub utxo_key : Outpoint → List ℕ
utxo_key o = 117 ∷ 47 ∷ outpoint_bytes o

-- addrKey under the prefix "a/" and stakeKey under "k/": the tag, then 20 or 33 bytes
unfoldable pub index_key : ℕ → List ℕ → Outpoint → List ℕ
index_key tag owner o = tag ∷ 47 ∷ owner ++ outpoint_bytes o

pub outpoint_bytes-injective :
    (o p : Outpoint) → IsOutpoint o → IsOutpoint p → outpoint_bytes o ≡ outpoint_bytes p → o ≡ p
outpoint_bytes-injective o p ho hp e =
    sym (outpoint_from-outpoint_bytes o ho) ∙ ap outpoint_from e ∙ outpoint_from-outpoint_bytes p hp

pub bytes_equal-utxo_key :
    (o p : Outpoint)
    → IsOutpoint o
    → IsOutpoint p
    → bytes_equal (utxo_key o) (utxo_key p) ≡ same_outpoint o p
unfolding utxo_key
bytes_equal-utxo_key o p ho hp =
    let same_bytes : o ≡ p → outpoint_bytes o ≡ outpoint_bytes p = λ e. ap outpoint_bytes e in
    ground (
      arith,
      bytes_equal_iff (outpoint_bytes o) (outpoint_bytes p),
      outpoint_bytes-injective o p ho hp,
      same_outpoint_iff o p,
      same_bytes,
    )

-- Keys of the index with owners of one width name their owner and their outpoint.
pub index_key-injective :
    (tag : ℕ) (a b : List ℕ) (o p : Outpoint)
    → length a ≡ length b
    → IsOutpoint o
    → IsOutpoint p
    → index_key tag a o ≡ index_key tag b p
    → (a ≡ b) × (o ≡ p)
unfolding index_key
index_key-injective tag a b o p width ho hp e =
    let rest = ap (drop 2) e in
    (
      sym (take-append a (outpoint_bytes o) (length b) width)
          ∙ ap (take (length b)) rest
          ∙ take-append b (outpoint_bytes p) (length b) refl,
      outpoint_bytes-injective o p ho hp (
          sym (drop-append a (outpoint_bytes o) (length b) width)
          ∙ ap (drop (length b)) rest
          ∙ drop-append b (outpoint_bytes p) (length b) refl),
    )
