-- ===== src/Crypto.antt =====
-- pkg/crypto. BLAKE3 and Schnorr over secp256k1 come from third-party packages: they are the
-- interface `Crypto`, an instance argument of all that hashes or verifies.
use klingnet.Prelude.{ℕ, ◌^◌, ◌<◌, Bool, ◌&&◌, List, ◌++◌, take}
use klingnet.Bytes.{be_bytes}
use klingnet.Types.{Hash, address_size}

pub record Crypto : Type 0 where
  -- blake3.Sum256, whose 32 bytes are read as a number
  pub sum256 : List ℕ → ℕ
  pub sum256-lt : (d : List ℕ) → sum256 d < 2 ^ 256
  -- secp256k1.ParsePubKey and schnorr.ParseSignature return no error
  pub parses_pub_key : List ℕ → Bool
  pub parses_signature : List ℕ → Bool
  -- sig.Verify(hash, pubKey) on what was parsed
  pub schnorr_verify : List ℕ → List ℕ → List ℕ → Bool

module _ ⦃c : Crypto⦄ where
  -- crypto.Hash
  abbrev pub hash : List ℕ → Hash
  hash bytes = c.sum256 bytes

  -- crypto.HashConcat
  unfoldable pub hash_concat : Hash → Hash → Hash
  hash_concat a b = hash (be_bytes 32 a ++ be_bytes 32 b)

  -- crypto.AddressFromPubKey: the first 20 bytes of the hash
  unfoldable pub address_from_pub_key : List ℕ → List ℕ
  address_from_pub_key pub_key = take address_size (be_bytes 32 (hash pub_key))

  -- crypto.VerifySignature over the 32 bytes of a hash
  unfoldable pub verify_signature : Hash → List ℕ → List ℕ → Bool
  verify_signature h signature public_key =
      c.parses_pub_key public_key
      && (c.parses_signature signature && c.schnorr_verify (be_bytes 32 h) signature public_key)
