-- ===== src/Utxo.antt =====
-- internal/utxo/set.go: unspent outputs, and the interface `Set` at a map from outpoints.
-- Store, which keeps the set in a database, is in Keys, Store and their like.
pub mod Keys
pub mod Store
pub mod Refine
pub mod Owners
pub mod Widths
pub mod Indexed
pub mod Loads
pub mod Scan
pub mod Distinct
pub mod Commitment
use klingnet.Prelude.{ℕ, ◌≡◌, Bool, Option, some}
use klingnet.Prelude.Assoc.{Assoc, lookup, insert, erase, is_some}
use klingnet.Types.{Outpoint, outpoint_eq, Script, TokenData}

pub record Utxo : Type 0 where
  pub outpoint : Outpoint
  pub value : ℕ
  pub script : Script
  pub token : Option TokenData
  pub height : ℕ
  pub coinbase : Bool
  pub locked_until : ℕ

-- What a Set holds. Its errors are those of the database, which is outside the model.
abbrev pub UtxoSet : Type 0
UtxoSet = Assoc Outpoint Utxo

-- Set.Get; `none` is the error "not found"
abbrev pub get : Outpoint → UtxoSet → Option Utxo
get o s = lookup o s

-- Set.Put
abbrev pub put : Utxo → UtxoSet → UtxoSet
put u s = insert u.outpoint u s

-- Set.Delete
abbrev pub delete : Outpoint → UtxoSet → UtxoSet
delete o s = erase o s

-- Set.Has
abbrev pub has : Outpoint → UtxoSet → Bool
has o s = is_some (lookup o s)

-- Every entry stands under its own outpoint.
abbrev pub IsKeyed : UtxoSet → Type 0
IsKeyed s = (o : Outpoint) (u : Utxo) → lookup o s ≡ some u → u.outpoint ≡ o
