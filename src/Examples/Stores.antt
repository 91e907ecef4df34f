-- ===== src/Examples/Stores.antt =====
-- The theorems on the database and on the UTXO store, at a database in memory.
use mathlib.Core.List.{Permᴰ}
use klingnet.Prelude.{
  ℕ, ◌≡◌, refl, Bool, true, false, List, [], ◌∷◌, Option, none, some, All, arith, bytes_eq, ok, ap,
  ◌≤◌, ◌↔◌, ◌∙◌,
}
use klingnet.Prelude.Assoc.{lookup, IsMap}
use klingnet.Utxo.Distinct.{IsDistinct}
use klingnet.Types.{TokenData}
use klingnet.Types.{script_type_stake}
use klingnet.Consensus.Stake.{has_stake, sum_values, has_stake_iff}
use klingnet.Utxo.{Utxo, UtxoSet}
use klingnet.Utxo.Keys.{utxo_key}
use klingnet.Utxo.Commitment.{commitment, commitment-Perm}
use klingnet.Utxo.Store.{
  db_not_found, IsWire, UtxoCodec, get_utxo, put_utxo, get_by_address, clear_all, get_stakes,
}
use klingnet.Utxo.Refine.{
  Change, add, remove, change_set, change_store, Stores, change_store-Stores, IsWireChange,
}
use klingnet.Utxo.Owners.{Index, by_address, by_stake}
use klingnet.Utxo.Indexed.{IsIndexed, IsFresh, change_store-IsIndexed}
use klingnet.Utxo.Scan.{IsAllOwned, get_by_address-IsAllOwned}
use klingnet.Storage.{Db, has_prefix}
use klingnet.Storage.Memory.{MemoryDb, memory_db}
use klingnet.Storage.Prefixed.{prefix_db}
use klingnet.Storage.Batches.{BatchOp}
use klingnet.Storage.Namespace.{
  Command, put_key, delete_key, commit_batch, run, run_view, Represents, run-Represents,
  run-isolated,
}
use klingnet.Examples.{old_utxo, zeros, toy}

-- A codec that writes the fields one after the other.
abbrev write_token : Option TokenData → List ℕ → List ℕ
write_token none rest = 0 ∷ rest
write_token (some t) rest = 1 ∷ t.id ∷ t.amount ∷ rest

abbrev write_flag : Bool → ℕ
write_flag false = 0
write_flag true = 1

abbrev toy_marshal : Utxo → List ℕ
toy_marshal u =
    u.outpoint.tx_id
    ∷ u.outpoint.index
    ∷ u.value
    ∷ u.script.type
    ∷ u.height
    ∷ u.locked_until
    ∷ write_flag u.coinbase
    ∷ write_token u.token u.script.bytes

abbrev read_flag : ℕ → Bool
read_flag ℕ.zero = false
read_flag (ℕ.suc n) = true

abbrev toy_read : ℕ → ℕ → ℕ → ℕ → ℕ → ℕ → Bool → Option TokenData → List ℕ → Utxo
toy_read id index value type height locked flag token bytes = record {
  outpoint = record { tx_id = id; index = index };
  value = value;
  script = record { type = type; bytes = bytes };
  token = token;
  height = height;
  coinbase = flag;
  locked_until = locked;
}

abbrev toy_rest : (Option TokenData → List ℕ → Utxo) → List ℕ → Option Utxo
toy_rest make (ℕ.zero ∷ rest) = some (make none rest)
toy_rest make (ℕ.suc n ∷ id ∷ amount ∷ rest) =
    some (make (some (record { id = id; amount = amount })) rest)
toy_rest make other = none

abbrev toy_unmarshal : List ℕ → Option Utxo
toy_unmarshal (id ∷ index ∷ value ∷ type ∷ height ∷ locked ∷ flag ∷ rest) =
    toy_rest (toy_read id index value type height locked (read_flag flag)) rest
toy_unmarshal other = none

read_flag-write_flag : (b : Bool) → read_flag (write_flag b) ≡ b
read_flag-write_flag true = refl
read_flag-write_flag false = refl

toy_rest-write_token :
    (make : Option TokenData → List ℕ → Utxo) (t : Option TokenData) (bytes : List ℕ)
    → toy_rest make (write_token t bytes) ≡ some (make t bytes)
toy_rest-write_token make none bytes = refl
toy_rest-write_token make (some t) bytes = refl

toy_round_trip : (u : Utxo) → IsWire u → toy_unmarshal (toy_marshal u) ≡ some u
toy_round_trip u w =
    let make : Bool → Option TokenData → List ℕ → Utxo =
      toy_read u.outpoint.tx_id u.outpoint.index u.value u.script.type u.height u.locked_until in
    toy_rest-write_token (make (read_flag (write_flag u.coinbase))) u.token u.script.bytes
    ∙ ap (λ flag. some (make flag u.token u.script.bytes)) (read_flag-write_flag u.coinbase)

instance abbrev toy_json : UtxoCodec
toy_json = record {
  marshal = toy_marshal;
  unmarshal = toy_unmarshal;
  unmarshal-marshal = toy_round_trip;
}

abbrev ops : List BatchOp
ops = record { key = 1 ∷ []; value = some (9 ∷ []) } ∷ record { key = 2 ∷ []; value = none } ∷ []

abbrev commands : List Command
commands = put_key (3 ∷ []) (4 ∷ []) ∷ delete_key (5 ∷ []) ∷ commit_batch ops ∷ []

abbrev data_before : MemoryDb
data_before = (7 ∷ 1 ∷ [], 8 ∷ []) ∷ (6 ∷ 1 ∷ [], 8 ∷ []) ∷ []

run-Represents_example :
    Represents
      (7 ∷ [])
      memory_db
      (run (7 ∷ []) memory_db commands data_before)
      (run_view commands (λ k. (prefix_db (7 ∷ []) memory_db).get k data_before))
run-Represents_example =
    run-Represents memory_db (7 ∷ []) commands data_before
      (λ k. (prefix_db (7 ∷ []) memory_db).get k data_before) (λ k. refl)

run-isolated_example :
    lookup (6 ∷ 1 ∷ []) (run (7 ∷ []) memory_db commands data_before) ≡ some (8 ∷ [])
unfolding lookup klingnet.Storage.Prefixed.prefixed has_prefix
run-isolated_example =
    run-isolated memory_db (7 ∷ []) (6 ∷ []) (1 ∷ []) commands data_before (refl, refl)

abbrev changes : List Change
changes = add old_utxo ∷ remove (record { tx_id = 8; index = 1 }) ∷ []

abbrev empty_db : MemoryDb
empty_db = []

changes_fit : All IsWireChange changes
changes_fit = omega arith

change_store-Stores_example : Stores (change_store changes empty_db) (change_set changes [])
unfolding get_utxo klingnet.Utxo.Store.decode lookup
change_store-Stores_example = change_store-Stores changes empty_db [] changes_fit (λ o wide. refl)

empty_db-IsIndexed : (c : Index) → IsIndexed c empty_db
unfolding get_utxo klingnet.Utxo.Store.decode lookup
empty_db-IsIndexed c = (λ o u wide e. cc, λ k v pre e. cc, λ o u a wide e owns. cc)

fresh : IsFresh changes empty_db
unfolding get_utxo klingnet.Utxo.Store.decode lookup
fresh = (refl, tt)

change_store-IsIndexed_example : IsIndexed by_address (change_store changes empty_db)
change_store-IsIndexed_example =
    change_store-IsIndexed by_address changes empty_db changes_fit fresh
      (empty_db-IsIndexed by_address)

get_by_address-IsAllOwned_example :
    IsAllOwned by_address zeros
      (change_store changes empty_db)
      (get_by_address zeros (change_store changes empty_db))
get_by_address-IsAllOwned_example =
    get_by_address-IsAllOwned zeros (change_store changes empty_db)
      (change_store-IsIndexed by_address changes empty_db changes_fit fresh
        (empty_db-IsIndexed by_address))
      refl

abbrev stake_key : List ℕ
stake_key = 2 ∷ 3 ∷ 4 ∷ 5 ∷ 6 ∷ 7 ∷ 8 ∷ 9 ∷ 1 ∷ 1 ∷ 1 ∷ 1 ∷ 1 ∷ zeros

-- 100 coins that the key locks as a stake.
abbrev stake_utxo : Utxo
stake_utxo = record old_utxo {
  value = 100;
  script = record { type = script_type_stake; bytes = stake_key };
}

abbrev staked : MemoryDb
staked = put_utxo stake_utxo empty_db

staked-IsIndexed : IsIndexed by_stake staked
staked-IsIndexed =
    change_store-IsIndexed by_stake (add stake_utxo ∷ []) empty_db (omega arith) fresh
      (empty_db-IsIndexed by_stake)

staked_once : IsMap (memory_db.scan (107 ∷ 47 ∷ stake_key) staked)
unfolding klingnet.Storage.Memory.visited put_utxo klingnet.Utxo.Store.put_index
    klingnet.Utxo.Store.script_stake klingnet.Prelude.Assoc.insert has_prefix
    klingnet.Utxo.Keys.index_key klingnet.Utxo.Keys.outpoint_bytes klingnet.Bytes.be_bytes lookup
    klingnet.Prelude.Assoc.erase klingnet.Utxo.Keys.utxo_key klingnet.Utxo.Store.script_address
staked_once = (refl, tt)

has_stake_iff_example :
    (us : List Utxo) × (answer : Bool) × (get_stakes stake_key staked ≡ ok us)
    × (IsAllOwned by_stake stake_key staked us × IsDistinct us)
    × (has_stake 60 stake_key staked ≡ ok answer)
    × ((answer ≡ true) ↔ (60 ≤ sum_values us))
has_stake_iff_example =
    has_stake_iff 60 stake_key staked staked-IsIndexed staked_once refl (omega arith)

-- The key has the stake that it locks.
has_locked_stake : has_stake 60 stake_key staked ≡ ok true
unfolding has_stake klingnet.Consensus.Stake.check_stakes klingnet.Utxo.Store.get_stakes
    klingnet.Consensus.Stake.reaches_stake klingnet.Utxo.Store.load_entries
    klingnet.Storage.Memory.visited put_utxo klingnet.Utxo.Store.put_index
    klingnet.Utxo.Store.script_stake klingnet.Prelude.Assoc.insert has_prefix
    klingnet.Utxo.Keys.index_key klingnet.Utxo.Keys.outpoint_bytes klingnet.Bytes.be_bytes
    klingnet.Utxo.Store.append_found get_utxo klingnet.Utxo.Store.decode lookup
    klingnet.Bytes.be_number klingnet.Prelude.Assoc.erase klingnet.Utxo.Keys.outpoint_from
    klingnet.Utxo.Keys.utxo_key klingnet.Utxo.Store.found klingnet.Utxo.Store.script_address
has_locked_stake = refl

-- Two entries, in the two orders in which a map may be visited.
abbrev entries : MemoryDb
entries =
    (117 ∷ 47 ∷ 1 ∷ [], toy_marshal old_utxo) ∷ (117 ∷ 47 ∷ 2 ∷ [], toy_marshal stake_utxo) ∷ []

abbrev entries_reversed : MemoryDb
entries_reversed =
    (117 ∷ 47 ∷ 2 ∷ [], toy_marshal stake_utxo) ∷ (117 ∷ 47 ∷ 1 ∷ [], toy_marshal old_utxo) ∷ []

commitment-Perm_example : commitment entries ≡ commitment entries_reversed
unfolding klingnet.Storage.Memory.visited has_prefix
commitment-Perm_example = commitment-Perm entries entries_reversed (Permᴰ.swap refl refl)
