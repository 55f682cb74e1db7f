-- ===== src/Lib.antt =====
-- arbitrum-revm: the ArbOS storage components and transaction hooks of crates/arb-revm.
--
-- ArbOS keeps its state in the storage of one account. `StorageSpace` hashes keys into slots, and each
-- component owns a subspace: the pricing of L2 gas and of L1 data, the table of batch posters, the
-- retryable tickets with the queue of their timeouts, the ring of L1 block hashes, the sets and tables
-- of addresses, and the accumulator of outgoing messages. Every operation reads and writes slots
-- through a journal and stops at the first error. The hooks of transactions stand on these components:
-- deposits, retryable submissions and their retries move funds between accounts and tickets, the end of
-- a transaction splits its fees, and the internal transactions start blocks, settle the costs of batches
-- and upgrade the state from version to version.
--
-- Files, and the code they model (paths below crates/arb-revm/src):
--   Exec                    arb_journal.rs: `Journal` is the storage and the balances that an
--                           ArbJournal gives access to; `Exec` is a function of the journal that
--                           returns a result beside the new journal, for `Result` and `?`
--   Meter                   arb_journal.rs: MeteredJournal, the journal with the gas that the body of
--                           a precompile burns
--   L1Cost                  l1_cost.rs: the RLP encoder, and what is charged for posting; brotli's
--                           compression is a parameter
--   Words, Signed           machine words, I256 and its helpers (util.rs, storage/l1_pricing.rs)
--   Storage                 storage/mod.rs, storage/slot.rs
--   Storage/Queue           storage/queue.rs (`get` is `pop`, `put` is `push`)
--   Storage/AddressSet      storage/address_set.rs
--   Storage/AddressTable    storage/address_table.rs
--   Storage/BlockHashes     storage/block_hashes.rs
--   Storage/BatchPosterTable  storage/batch_poster_table.rs
--   Storage/Bytes           storage/bytes.rs
--   Storage/Retryables      storage/retryables.rs
--   Storage/SendMerkle      storage/send_merkle.rs
--   Storage/L1Pricing       storage/l1_pricing.rs
--   Storage/L2Pricing       storage/l2_pricing.rs: Exponent is the arithmetic, Constraints the
--                           vectors of constraints, Backlog the growth and the shrinking
--   Storage/Programs        storage/programs.rs, stylus/params.rs: Word is the bytes of a packed
--                           word, Pricer the price of data
--   ArbosState              storage/arbos_state.rs: the fields and subspaces of the state
--   Storage/Features        storage/features.rs
--   Spec                    spec.rs
--   Precompiles             precompiles/nitro_surface.rs and mod.rs: which methods exist from which
--                           version on, and what they may do; Methods is the list of
--                           nitro_methods.rs, Outcome the results of common.rs, Dispatch the way of a
--                           call in mod.rs, from the selector to the gas that is returned, GoAbi the
--                           walk of go_abi.rs over arguments; Owner (with Methods and Params), GasInfo, FilterManager
--                           and NativeToken are the bodies of arb_owner.rs, arb_gas_info.rs,
--                           arb_filtered_transactions_manager.rs and arb_native_token_manager.rs, and
--                           Burner the metered storage they use; Stateless are the bodies that keep no
--                           state (arb_info.rs, arb_statistics.rs, arb_function_table.rs, arb_bls.rs,
--                           arbos_test.rs, arb_debug.rs, arbos_acts.rs)
--   Tx                      transaction.rs; Filter is transaction_filter.rs, Deposit deposit_tx.rs,
--                           Retry retry_tx.rs, Submit submit_retryable_tx.rs, Fees the fees at the
--                           end of a transaction in handler.rs
--   Genesis                 arbos_init.rs: a new chain, up to the import of its accounts
--   Internal                internal_tx.rs; Upgrade is its upgrades, with the precompiles of
--                           arbos_init.rs
--   Post                    what holds after a run that returns
--   Stylus                  stylus/gas.rs, stylus/constants.rs
--   Util                    util.rs
--   Prelude                 shared notation, integers, tests and lists
--   Demo, Examples          a concrete host, and the theorems at concrete inputs
--
-- Numbers are natural numbers: an address is below 2^160, a word below 2^256, and what a machine
-- integer does at its end is written out (saturation, wrapping, checked operations). A space holds the
-- bytes of its key and the account.
--
-- A precompile is called through its dispatcher, which takes the bodies, the decoder of arguments and
-- the debug flag of the chain configuration as parameters. revm's meter of gas and its changes of
-- balances, the encoders of results and the selectors, which are hashes of signatures, are the instances
-- GasMeter, Balances, Encoder and Selectors; the first two have as laws what revm documents.
--
-- The hash and the changes of accounts are code of other libraries, and so fields of the record
-- `Host`, which the definitions take as an instance. Of these changes it is assumed that they leave
-- storage alone; theorems about balances assume `MovesFunds`, what revm documents of its transfers. The
-- encodings of transactions are the fields of `Codec`. Of the hash only theorems assume something, each in its own hypothesis: that the slots it is
-- about do not collide. The demo host shows that these assumptions can hold.
--
-- Loops over a range recurse on its length; loops whose end is computed recurse on fuel, which is the
-- number of rounds that can run: `number - next_number` for the gap of block hashes, one more than the
-- number of bytes left for byte strings, the number of levels for the accumulator. The
-- loop of an upgrade recurses on the number of versions that are left.
--
-- Not modelled: errors of the database, code and transient storage; RLP
-- compression in the address table; the chain configuration; the RLP fields of a
-- transaction without its canonical bytes, and the charging of gas before it runs; the runtime of Stylus;
-- the bodies of the other precompiles, the parser of signatures, the texts of errors; the import
-- of accounts into a new chain; block execution, tools and tests. The library of vendor/brotli is third-party code.
pub mod Prelude
pub mod Words
pub mod Signed
pub mod Exec
pub mod Spec
pub mod Post
pub mod Meter
pub mod L1Cost
pub mod Precompiles
pub mod Storage
pub mod ArbosState
pub mod Tx
pub mod Genesis
pub mod Internal
pub mod Stylus
pub mod Util
pub mod Demo
pub mod Examples
