-- ===== src/Bytes.antt =====
-- encoding/binary: fixed-width numbers as bytes, least or most significant byte first.
use klingnet.Prelude.{ℕ, zero, suc, ◌+◌, ◌*◌, ◌/◌, ◌%◌, List, [], ◌∷◌, ◌++◌}

-- binary.LittleEndian.AppendUint32 and AppendUint64, at 4 and 8 bytes
unfoldable pub le_bytes : ℕ → ℕ → List ℕ
le_bytes zero x = []
le_bytes (suc n) x = x % 256 ∷ le_bytes n (x / 256)

-- binary.BigEndian.PutUint32 and PutUint64; also the bytes of a hash, which stands as a number
unfoldable pub be_bytes : ℕ → ℕ → List ℕ
be_bytes zero x = []
be_bytes (suc n) x = be_bytes n (x / 256) ++ x % 256 ∷ []

-- binary.BigEndian.Uint64 and big.Int.SetBytes
unfoldable pub be_number : ℕ → List ℕ → ℕ
be_number acc [] = acc
be_number acc (b ∷ bs) = be_number (acc * 256 + b) bs
