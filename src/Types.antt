-- ===== src/Types.antt =====
-- pkg/types: hashes, outpoints, scripts and token data. A hash, a chain id and a token id are 32
-- bytes, and stand here as the number that they spell, most significant byte first.
use klingnet.Prelude.{ℕ, ◌≡◌, ◌↔◌, Bool, true, ◌&&◌, List, arith, ◌==◌, ==_iff, Eq}

-- types.Hash
abbrev pub Hash : Type 0
Hash = ℕ

abbrev pub hash_size : ℕ
hash_size = 32

abbrev pub address_size : ℕ
address_size = 20

-- h == Hash{}
abbrev pub is_zero_hash : Hash → Bool
is_zero_hash h = h == 0

pub record Outpoint : Type 0 where
  pub tx_id : Hash
  pub index : ℕ

-- Outpoint.IsZero
abbrev pub is_zero : Outpoint → Bool
is_zero o = is_zero_hash o.tx_id && o.index == 0

abbrev pub same_outpoint : Outpoint → Outpoint → Bool
same_outpoint a b = a.tx_id == b.tx_id && a.index == b.index

pub same_outpoint_iff : (a b : Outpoint) → (same_outpoint a b ≡ true) ↔ (a ≡ b)
same_outpoint_iff a b = ground (arith, ==_iff a.tx_id b.tx_id, ==_iff a.index b.index)

instance abbrev pub outpoint_eq : Eq Outpoint
outpoint_eq = record { beq = same_outpoint; beq_iff = same_outpoint_iff }

-- types.ScriptType, a uint8, with its constants
abbrev pub ScriptType : Type 0
ScriptType = ℕ

abbrev pub script_type_p2pkh : ScriptType
script_type_p2pkh = 0x01

abbrev pub script_type_p2sh : ScriptType
script_type_p2sh = 0x02

abbrev pub script_type_mint : ScriptType
script_type_mint = 0x10

abbrev pub script_type_burn : ScriptType
script_type_burn = 0x11

abbrev pub script_type_anchor : ScriptType
script_type_anchor = 0x20

abbrev pub script_type_register : ScriptType
script_type_register = 0x21

abbrev pub script_type_bridge : ScriptType
script_type_bridge = 0x30

abbrev pub script_type_stake : ScriptType
script_type_stake = 0x40

pub record Script : Type 0 where
  pub type : ScriptType
  pub bytes : List ℕ

pub record TokenData : Type 0 where
  pub id : Hash
  pub amount : ℕ
