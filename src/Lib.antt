-- ===== src/Lib.antt =====
-- Klingnet, a UTXO chain in Go with native tokens, proof of work or proof of authority, staking and
-- sub-chains: a model of the rules by which a node accepts a transaction and a block, and of what
-- applying a block and reverting it do to the UTXO set and the supply.
--
-- The parts, and the file that models each:
-- - pkg/types (hash.go, outpoint.go, script.go, token.go): Types. A Hash, ChainID or TokenID of 32
--   bytes is the number that it spells, most significant byte first; a byte slice is a list of
--   numbers; a uint64 is a number, with its wrap-around or its guard written out.
-- - pkg/crypto (hash.go, signature.go): Crypto. BLAKE3 and Schnorr signatures are third-party code
--   and stand as the record Crypto, an instance argument of everything that hashes or verifies.
-- - config/genesis.go: Config has the limits and BlockSubsidy, Config/Subsidy its theorems.
-- - pkg/tx: Tx has transaction.go (SigningBytes, Hash, TotalOutputValue), Tx/Validate has
--   validate.go, Tx/Spend has utxo_validate.go with its UTXOProvider; Tx/Rules and Tx/Balance have
--   the theorems.
-- - pkg/block: Block has header.go and block.go, Block/Merkle has merkle.go, Block/Validate has
--   validate.go; Block/Merkle/Binding and Block/Rules have theorems on them.
-- - internal/storage (db.go, memory.go, prefix.go): Storage has the interface DB as a record of
--   operations and laws, Storage/Memory and Storage/Prefixed fill it with MemoryDB and PrefixDB,
--   Storage/Batches has the batches and DeleteAll, and Storage/Namespace what runs through a PrefixDB.
--   A value that a caller changes after storing it is outside the model.
-- - internal/utxo/set.go: Utxo, where a Set is an association list from outpoints to entries.
-- - internal/utxo/store.go: Utxo/Keys has the keys and Utxo/Store the Store, over any DB and with
--   encoding/json as the parameter UtxoCodec; Utxo/Refine, Owners, Widths, Indexed, Loads, Scan and
--   Distinct have its theorems.
-- - internal/utxo/commitment.go: Utxo/Commitment.
-- - internal/token: Token has validate.go, token.go and adapter.go, Token/Mint has mint.go;
--   Token/Conservation has a theorem. A
--   Go map is an association list (Prelude/Assoc), whose order stands for the order of the walk.
-- - internal/consensus/pow.go: Consensus/Pow, with the theorems on the target and on mining in
--   Consensus/Pow/Target and on the difficulty in Consensus/Pow/Retarget.
-- - internal/consensus/poa.go: Consensus/Poa, with the suspension of validators in
--   Consensus/Poa/Suspension and the acceptance of headers in Consensus/Poa/Accept.
-- - internal/consensus/stake.go: Consensus/Stake.
-- - internal/subchain: SubChain has registration.go, validate.go and consensus_validator.go, with
--   encoding/json as the parameter Parser; SubChain/Registry and SubChain/Anchor have registry.go and
--   anchor.go; SubChain/Limit has the theorem on the limit of a parent.
-- - internal/chain/reorg.go: Chain/Apply has applyBlockWithUndo and revertBlock; Chain/Segment,
--   Chain/Undo and Chain/Value have what they do to the set.
-- - internal/chain/store.go: Chain/Blocks has BlockStore, with a map for each kind of key.
-- - internal/chain/reorg.go: Chain/Reorg has collectBranch and Reorg, whose engine is the record Engine;
--   Chain/Engines fills it for proof of work and of authority; Chain/Process has ProcessBlock and
--   Chain/Process/Advance its theorem; Chain/Reorg/Branch, Work, Ledger, Heavier, Tip and Settled have the theorems.
-- - internal/chain/processor.go, state.go and reward.go: Chain/State has validateBlockState,
--   Chain/State/Extend checkParentLink, the reward and the fast path of ProcessBlock, and
--   Chain/Signing the signing limit; Chain/State/Fees, Spent, Parts, Supply and Progress have the
--   theorems.
-- - internal/mempool/pool.go: Mempool, with the index of spent outpoints in Mempool/Index and Add in
--   Mempool/Bound; Mempool/Eviction has eviction.go, and Mempool/Policy has policy.go and
--   SelectForBlock. A fee rate is a fee and a count of bytes, and the comparison of the float64
--   quotients is a parameter.
-- - internal/wallet/coinselect.go: Wallet, with its theorems in Wallet/Selection.
-- - Examples and the modules below it apply the theorems at concrete values over a toy hash.
--
-- How the parts interact: ProcessBlock checks a block's parent, asks the engine about its header and
-- its difficulty (Consensus), checks its structure (Block/Validate, which calls Tx/Validate), checks
-- it against the UTXO set (Chain/State, which calls Tx/Spend through chainUTXOProvider and Token
-- through UTXOTokenAdapter), and applies it (Chain/Apply).
--
-- A function that returns an error is a Result; a panic is an error or an Option of its own. A loop
-- is structural recursion, with the loop's variables as arguments. Three loops run on fuel: the merkle
-- loop, whose fuel is the number of hashes, proved to be enough for it to end, the loop of collectBranch,
-- whose fuel is the depth limit and one round, proved to be enough, and the mining loop, whose
-- fuel is the number of nonces that are left. A method that a lock guards is one function.
--
-- What is not modelled: BadgerDB and the errors of a database, JSON, logging, the network, the RPC server, the
-- wallet's keys, the miner, the manager and the spawning of sub-chains, parallel mining and the registration and
-- stake handlers. The token data and the coinbase data are part of the signing bytes as in the code.
pub mod Prelude
pub mod Bytes
pub mod Types
pub mod Crypto
pub mod Config
pub mod Storage
pub mod SubChain
pub mod Tx
pub mod Block
pub mod Utxo
pub mod Token
pub mod Consensus
pub mod Chain
pub mod Wallet
pub mod Mempool
pub mod Examples
