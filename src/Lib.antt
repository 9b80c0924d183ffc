-- ===== src/Lib.antt =====
-- The bridge's Solana side: an event tracker that follows the chain, and the store that it keeps.
--
-- The program's parts and how they interact. `EventTracker` (tracker/tracker.go) runs two loops. One
-- follows the chain head: it asks the node for the slots with blocks of a window, stores some of
-- their blocks, and moves on. The other asks for new transactions of the tracked programs, queues
-- their signatures, and processes the queue from its front: it reads the events out of a
-- transaction's inner instructions (tracker/cpi_events.go), for an executed batch finds the payload
-- that the validators signed (tracker/payload_parser.go), hands the events to a subscriber and
-- stores them. Both keep their state in a bolt database (tracker/store/bolt_storage_handler.go).
--
-- The transaction sender (sendtx/) builds what the tracker later reads: it checks a request, derives
-- the program's addresses into one config that all requests share, and composes the instructions
-- with the generated bindings; for a batch it packs the validators' signatures and the payload into
-- one ed25519 instruction and moves the compute budget into the header of the message. The wallet
-- (wallet/) has the tests on addresses and the lookup tables, and common/ limits and retries the
-- calls of the node.
--
-- Files:
-- Base and its children: numbers, lists, results and bytes that the parts share.
-- Store: tracker/store/bolt_storage_handler.go. Store/Bolt is the interface of bbolt, with its
--   documented behaviour as laws, and Store/Memory an instance of it; Store/Codec is the interface
--   of JSON and base58 texts. Store/Monad is what runs inside a transaction: a state with errors,
--   rolled back by `db.Update`. Store/Data has the records and the format of queue entries,
--   Store/Open `NewBoltStorageHandler`, Store/Queue the queue of transactions and its two markers,
--   Store/Blocks the blocks by slot and hash, Store/Events the events with their ids and the index
--   by block. The children of these state what a
--   database represents (Queue/Log, Events/Log), and relate the methods to it. Methods have their
--   names in snake case.
-- Tracker/Config: `NewEventTracker` and `setupClientNew`.
-- Tracker/Retry: `ExecuteWithRetry` of tracker/helpers.go.
-- Tracker/Slots: `getSlotsToQueryBlocks` and `chainHeadCatchUpWait`.
-- Tracker/ChainHead: `refreshChainHead` and `unstickChainHead`.
-- Tracker/Storage: the interface `StorageHandler`, which the bolt handler fills.
-- Tracker/Signatures: `fetchNextGetSignaturesForAddress` and what it calls.
-- Tracker/Processing: `fetchNextGetFullTxBySignature` and `parseEvent`.
-- Tracker/Cpi and Tracker/Payload: tracker/cpi_events.go and tracker/payload_parser.go.
-- Wallet/Keys: what is used of solana-go. Wallet/Address: wallet/address.go. Wallet/Extend:
--   wallet/alt_admin.go. Wallet/Resolver: wallet/lookup_table.go, the cache of the resolver as a
--   state that is passed on.
-- Sendtx/Data: sendtx/data.go, and what the sender takes from outside. Sendtx/Config: the config and
--   the options of sendtx/instruction.go. Sendtx/Program: the instruction builders of
--   sendtx/skyline_program/. Sendtx/Monad: functions on the shared config with errors, which leave
--   the fields set that they set before an error.
-- Sendtx/Build with its children, Sendtx/Mints, Sendtx/Ed25519, Sendtx/Instructions, Sendtx/Budget
--   and Sendtx/Transaction: the functions of sendtx/tx_sender.go and sendtx/alt.go. Their children have
--   the theorems; Transaction/History is about several calls on one sender, with its shared config.
-- Common/Limits: the limiter, the back-off and `withRPCLimits` of common/mutex_rpc_client.go.
-- Store/Samples and the modules named Tests: concrete stores, nodes, requests and runs.
--
-- Bounds and fuel. Numbers are natural numbers; a uint64 that is incremented wraps around, and the
-- theorems say where the index of the queue or an event's id has to stay below 2 ^ 64. Byte strings
-- are lists of numbers. The loop of `ExecuteWithRetry` has its own bound; the walk back through the
-- slots ends at slot 0. The slices of NewExtendInstructions are at most as many as the keys to add,
-- which is the fuel given. `catchUpLoop` runs on fuel, since a node may answer with full pages for
-- ever; running out of it is an error of its own. `withRPCLimits` runs over the rounds that the
-- world lets it run, since a node may refuse for ever; at their end the loop is still running.
--
-- Parameters: bbolt, JSON, Borsh, base58, SHA-256, the node's answers, the context's end, the
-- subscriber (bbolt may refuse a commit, and the node may answer differently for each event of a
-- transaction), and the product of floats in `chainHeadCatchUpWait`; of the sender keys on the curve,
-- derived addresses, the other program packages of solana-go, and the iteration order of the maps of
-- signatures and tokens, which are lists; of the limits the clock and the limiter's waits.
--
-- Not modelled: logging, the texts of errors, and the goroutines; the tracker's polling loop; SendTx
-- and the wallet's keys, transactions and provider, which pass calls on; the wrappers of the node's
-- methods; the decoders of the generated bindings; the simulators that tests use.
pub mod Base
pub mod Store
pub mod Tracker
pub mod Common
pub mod Wallet
pub mod Sendtx
