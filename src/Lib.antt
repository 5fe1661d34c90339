-- ===== src/Lib.antt =====
-- Verification of the storage layer, the binary codec, the event tracker, the state transition
-- of a transaction and parts of the virtual machine of a Go library for Ethereum: a local EVM
-- over a layered key-value state, with the JSON-RPC and ABI clients around it.
--
-- The parts build on one another. A transaction works on a StateDB (evm/storage/statedb.go):
-- accounts, storage slots, logs, a refund counter and a stack of snapshots. A StateDB writes to
-- a CacheDB (evm/storage/cachedb.go), the writes of one transaction in a sorted map, above an
-- OverlayDB (evm/storage/overlaydb/overlaydb.go), the writes of a block in a second sorted map,
-- above a persistent store (evm/storage/schema). Accounts are stored as bytes by the codec of
-- utils/codec.
--
-- - Base holds the shared types and lemmas: lists over the native numbers, bytes and their
--   little- and big-endian numbers, byte strings in Go's order, Go's int, and Outcome, a result
--   that is a value or a panic.
--
-- - Codec models utils/codec. Codec/Source is ZeroCopySource: the bytes and the cursor; each
--   NextX is the function next_x from a source to an outcome with the next source. Codec/Sink
--   is ZeroCopySink: the array behind the slice, of which the length is the capacity, and the
--   length of the slice; grow, tryGrowByReslice and BackUp act on both. Codec/Source/Reads and
--   Codec/Sink/Append say what each read and write does, Codec/VarUint reads what is written,
--   Codec/RoundTrip puts the two together, Codec/Canonical is about any input.
--
-- - Storage/SortedMap is the interface that evm/storage/overlaydb/memdb.go offers, as
--   operations and their laws, with a sorted list as an instance. Every theorem of the layers
--   above holds for any map that fills it. The skip list of that file is not shown here to fill
--   it.
--
-- - Storage/Store, Storage/Overlay and Storage/Cache are the layers. Storage/Cache/View reads a
--   layered state as a function from keys to answers, Storage/Cache/Commit says what Commit
--   does to it.
--
-- - Storage/Iterator is the interface of an iterator over sorted entries, Storage/JoinIter the
--   merged iterator of evm/storage/overlaydb/iterator.go over two of them.
--   Storage/JoinIter/Merge is the merge that it is compared with, Storage/JoinIter/Advance says
--   where the two iterators stand after a step, Storage/JoinIter/Steps what one step yields,
--   Storage/JoinIter/Skip how deleted entries are passed over, Storage/JoinIter/Pass what a
--   whole pass does.
--
-- - Storage/Account models EthAccount with its encoding, and GetEthAccount and PutEthAccount of
--   cachedb; Storage/Account/RoundTrip and Storage/Account/Stored are its theorems.
--
-- - Storage/StateDb models StateDB and balanceHandle, Storage/StateDb/Operations the operations
--   on accounts. Storage/StateDb/Frame and its neighbours say what every operation leaves
--   alone, Storage/StateDb/Steps is the relation of all operations, Storage/StateDb/Revert is
--   about snapshots, Storage/StateDb/Slots about storage slots.
--
-- - Evm models parts of the virtual machine in evm. Evm/Analysis is analysis.go, Evm/Contract
--   contract.go with the analyses that isCode remembers, Evm/Memory memory.go with the capacity
--   behind the slice's length, Evm/Stack stack.go and stack_table.go, Evm/Sizes common.go and
--   memory_table.go, Evm/Word what they use of a 256-bit word. Evm/Gas is gas.go and the
--   memory, copy, log and hash fees of gas_table.go, Evm/Gas/Sstore its SSTORE metering, on the
--   StateDB of Storage. Their children hold the theorems.
--
-- - Evm/Calls models the calls of evm/evm.go, Evm/Creation its create, Create and Create2. The
--   interpreter is a function that is asked to contain what it does: Evm/Calls/Leads says how,
--   Evm/Calls/Runs, Evm/Calls/Contained and Evm/Creation/Contained that the calls do the same,
--   so that an interpreter may use them, Evm/Calls/Errors and Evm/Calls/Undone what an error
--   leaves.
--
-- - Results models the result of a message in types.go, Results/Reasons the reason that it
--   reads from a revert's data.
--
-- - Executor/Transition models executor/state_transition.go: the message, the gas that is
--   bought, the call, the refund and the fees; Executor/Transition/Fees and
--   Executor/Transition/Settled are about these, Executor/Transition/Intrinsic about the
--   intrinsic gas.
--
-- - Tracker models tracker/tracker.go. Tracker/Chain is the backlog of recent blocks,
--   Tracker/Reconcile what a new head does to it, Tracker/Logs how the store of a filter
--   follows, over the interface of tracker/store/store.go in Tracker/Entry, which
--   Tracker/Inmem, the in-memory store, fills. Tracker/Follow is handleReconcile, which puts
--   these together, Tracker/Sync how a tracker and a filter catch up. The node is a function
--   from the number of a call and what is asked for to its reply, so that it may answer the
--   same question in different ways.
--
-- A byte is a number below 256, a machine word wraps by `% 2 ^ 64` where the code adds, and a
-- subtraction writes out what Go does below zero. An address or a hash is a list of bytes; its
-- length is a hypothesis where a theorem needs it. A map of Go that is used as a set is a list
-- of keys. The conversion of a uint64 to an int, which is negative from 2^63 on, is written out
-- where a larger number can reach it. Memory is taken to suffice for every slice that is made.
-- Slices that share an array are modelled where the sharing matters: the sink's array and its
-- slice are two fields, and the scratch key of CacheDB is carried along. The loop of codeBitmap
-- runs on fuel, one more than the bytes of the program, which is enough as every turn moves on
-- by a byte or more; the loops of JoinIter, which pass an entry in every turn, on fuel for
-- which more than the number of entries and one is enough; the loops of the tracker that wait
-- for a node's reply on fuel for which Tracker/Reconcile and Tracker/Sync say how much is
-- enough. Every other function is structurally recursive.
--
-- Code from outside is a parameter: the hash of SetCode is any function, a word of
-- utils/common/uint256 (a copy of holiman/uint256) is an interface with the documented laws, a
-- store answers by any function, the EVM's interpreter and its precompiled contracts are
-- functions.
--
-- Not modelled: what uses the iterators (Commit and CommitToCacheDB of StateDB,
-- CleanContractStorageData), the skip list, ChangeHash, the EVM's interpreter and instructions,
-- the executor's blocks and receipts, the ABI codec, the tracker's syncImpl and its channels,
-- and everything that is network or file I/O, generated or copied from a library.
pub mod Base
pub mod Codec
pub mod Storage
pub mod Evm
pub mod Results
pub mod Tracker
pub mod Executor
