-- ===== src/SubChain/Registry.antt =====
-- internal/subchain/registry.go: Registry in memory.
use klingnet.Prelude.{
  ℕ, Bool, List, [], ◌∷◌, Option, nat_eq, length, Result, ok, err, if◌then◌else◌,
}
use klingnet.Prelude.Assoc.{Assoc, lookup, insert, erase, is_some}
use klingnet.Types.{Hash}
use klingnet.SubChain.{RegistrationData}

pub record SubChain : Type 0 where
  pub id : Hash
  pub parent_id : Hash
  pub name : List ℕ
  pub symbol : List ℕ
  pub created_at : ℕ
  pub registration_tx : Hash
  pub output_index : ℕ
  pub registration : RegistrationData

pub data RegistryError : Type 0 where
  already_registered : RegistryError

abbrev pub Registry : Type 0
Registry = Assoc Hash SubChain

-- Registry.Has, Get, Unregister and Count
abbrev pub has : Hash → Registry → Bool
has id r = is_some (lookup id r)

abbrev pub get : Hash → Registry → Option SubChain
get id r = lookup id r

abbrev pub unregister : Hash → Registry → Registry
unregister id r = erase id r

abbrev pub count : Registry → ℕ
count r = length r

-- Registry.Register
unfoldable pub register : SubChain → Registry → Result RegistryError Registry
register sc r = if is_some (lookup sc.id r) then err already_registered else ok (insert sc.id sc r)

-- Registry.List
unfoldable pub list : Registry → List SubChain
list [] = []
list ((id, sc) ∷ r) = sc ∷ list r
