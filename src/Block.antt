-- ===== src/Block.antt =====
-- pkg/block/header.go and block.go: headers and blocks.
pub mod Merkle
pub mod Validate
pub mod Rules
use klingnet.Prelude.{ℕ, List, ◌++◌}
use klingnet.Bytes.{le_bytes, be_bytes}
use klingnet.Types.{Hash}
use klingnet.Crypto.{Crypto, hash}
use klingnet.Tx.{Transaction}

pub record Header : Type 0 where
  pub version : ℕ
  pub prev_hash : Hash
  pub merkle_root : Hash
  pub timestamp : ℕ
  pub height : ℕ
  pub difficulty : ℕ
  pub nonce : ℕ
  pub validator_sig : List ℕ

-- A nil header is outside the model: every block here has one.
pub record Block : Type 0 where
  pub header : Header
  pub transactions : List Transaction

-- Header.SigningBytes
unfoldable pub header_bytes : Header → List ℕ
header_bytes h =
    le_bytes 4 h.version
    ++ (be_bytes 32 h.prev_hash
        ++ (be_bytes 32 h.merkle_root
            ++ (le_bytes 8 h.timestamp
                ++ (le_bytes 8 h.height ++ (le_bytes 8 h.difficulty ++ le_bytes 8 h.nonce)))))

module _ ⦃c : Crypto⦄ where
  -- Header.Hash, without the validator's signature
  unfoldable pub header_hash : Header → Hash
  unfolding header_bytes
  header_hash h = hash (header_bytes h)
