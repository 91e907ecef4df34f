-- ===== src/SubChain/Anchor.antt =====
-- internal/subchain/anchor.go
use mathlib.Core.List.{append_assoc}
use klingnet.Prelude.{
  ℕ, ◌^◌, ◌<◌, ◌≡◌, sym, ap, ◌∙◌, List, ◌++◌, length, take, drop, take-append, drop-append,
  length-append, not, ◌==◌, if◌then◌else◌, if-holds, Result, ok, err, arith,
}
use klingnet.Bytes.{be_bytes, be_number}
use klingnet.Types.{Hash}
use klingnet.Utxo.Keys.{length-be_bytes, be_number-be_bytes}
use klingnet.SubChain.Registry.{Registry, has}

pub data AnchorError : Type 0 where
  bad_anchor_size unknown_sub_chain : AnchorError

abbrev pub anchor_data_size : ℕ
anchor_data_size = 72

pub record Anchor : Type 0 where
  pub chain_id : Hash
  pub state_root : Hash
  pub block_height : ℕ

-- EncodeAnchorData
unfoldable pub encode_anchor_data : Anchor → List ℕ
encode_anchor_data a =
    be_bytes 32 a.chain_id ++ (be_bytes 32 a.state_root ++ be_bytes 8 a.block_height)

-- DecodeAnchorData
unfoldable pub decode_anchor_data : List ℕ → Result AnchorError Anchor
decode_anchor_data bytes =
    if not (length bytes == anchor_data_size)
    then err bad_anchor_size
    else ok (record {
      chain_id = be_number 0 (take 32 bytes);
      state_root = be_number 0 (take 32 (drop 32 bytes));
      block_height = be_number 0 (drop 64 bytes);
    })

-- ValidateAnchor
unfoldable pub validate_anchor : Anchor → Registry → Result AnchorError (Unit {0})
validate_anchor a r = if has a.chain_id r then ok tt else err unknown_sub_chain

drop_twice : (xs ys zs : List ℕ) → length xs ≡ 32 → length ys ≡ 32 → drop 64 (xs ++ (ys ++ zs)) ≡ zs
drop_twice xs ys zs hx hy =
    ap (drop 64) (sym (append_assoc xs ys zs))
    ∙ drop-append (xs ++ ys) zs 64 (omega (arith, length-append xs ys, hx, hy))

-- An anchor of two hashes and a uint64 height is read back from the bytes that encode it.
pub decode-encode_anchor_data :
    (a : Anchor)
    → a.chain_id < 256 ^ 32
    → a.state_root < 256 ^ 32
    → a.block_height < 256 ^ 8
    → decode_anchor_data (encode_anchor_data a) ≡ ok a
unfolding decode_anchor_data encode_anchor_data
decode-encode_anchor_data a id root height =
    let ids = be_bytes 32 a.chain_id in
    let roots = be_bytes 32 a.state_root in
    let heights = be_bytes 8 a.block_height in
    let bytes = ids ++ (roots ++ heights) in
    let id_width = length-be_bytes 32 a.chain_id in
    let root_width = length-be_bytes 32 a.state_root in
    let total : length bytes ≡ 72 = omega (
      arith,
      length-append ids (roots ++ heights),
      length-append roots heights,
      id_width,
      root_width,
      length-be_bytes 8 a.block_height,
    ) in
    let after_id = drop-append ids (roots ++ heights) 32 id_width in
    if-holds (λ r. r ≡ ok a) (not (length bytes == anchor_data_size)) _ _
      (λ bad. absurd (ground (arith, bad, total)))
      (λ good i. ok (record {
        chain_id =
            (ap (be_number 0) (take-append ids (roots ++ heights) 32 id_width)
                ∙ be_number-be_bytes 32 a.chain_id id)
              i;
        state_root =
            (ap (λ z. be_number 0 (take 32 z)) after_id
                ∙ ap (be_number 0) (take-append roots heights 32 root_width)
                ∙ be_number-be_bytes 32 a.state_root root)
              i;
        block_height =
            (ap (be_number 0) (drop_twice ids roots heights id_width root_width)
                ∙ be_number-be_bytes 8 a.block_height height)
              i;
      }))
