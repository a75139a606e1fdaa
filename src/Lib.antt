-- ===== src/Lib.antt =====
-- The core of the Vochain, the blockchain of Vocdoni: accounts and their tokens, the transactions
-- that move them, the voting processes with their status, results and keys, the votes and the keys of
-- anonymous voters, and the counting of the votes by the indexer.
--
-- A node keeps its state in subtrees of a key-value tree. A transaction is checked (`CheckTx`), then
-- checked again and carried out when its block is delivered (`DeliverTx`); both call `AddTx`, without
-- and with commit. `AddTx` calls the check of the transaction's type and then the methods of the state.
--
--   Base          Shared names, machine words, lists over native numbers and byte strings.
--   Action        Go calls that return an error and change a shared state. What is written before an
--                 error stays written. Action/Preserve has the rules for what a call preserves.
--   Account       vochain/account.go: `Transfer`, `IsDelegate`, `AddDelegate`, `DelDelegate`.
--   Models, Tx    The protobuf messages that the code reads, as records. Models/Proofs has the proofs of
--                 belonging to a census.
--   Crypto        crypto/ethereum/ethereum.go: recovery of an address from a signature.
--   State         vochain/state.go: the state, and in State/Extra, State/Oracles and State/Faucet the
--                 methods on costs and treasurer, on oracles and on consumed faucet packages.
--   Ledger        vochain/account.go: the methods of the state on accounts (`TransferBalance`,
--                 `MintBalance`, `CreateAccount`, `ConsumeFaucetPayload`, `SetAccountDelegate`,
--                 `SubtractCostIncrementNonce` and the setters). Ledger/Supply sums balances.
--   AccountCheck  vochain/account.go and vochain/transaction.go: the checks of the account transactions.
--   Processes     vochain/process.go: `AddProcess`, `SetProcessStatus`, `SetProcessResults`,
--                 `GetProcessResults`, `SetProcessCensus`. Processes/Status has the diagram of the
--                 statuses, Processes/LifeCycle sequences of calls.
--   CensusProof   vochain/proof.go, crypto/saltedkey/saltedkey.go: `VerifyProof` by census origin.
--   Votes         vochain/state.go: `AddVote`, `Envelope`, `EnvelopeExists` and the count of votes;
--                 vochain/apputils.go: `GenerateNullifier`.
--   VoteCache     vochain/cache.go: the cache of the votes that were checked.
--   VoteCheck     vochain/transaction.go: `VoteEnvelopeCheck`. VoteCheck/Reads says what a check
--                 changes, VoteCheck/Signed and VoteCheck/Fresh what a vote that passes is known
--                 to be.
--   RollingCensus vochain/census.go: the keys that voters register before an anonymous process.
--   Results       vochain/scrutinizer/indexertypes/results.go: the results of a process, how a vote is
--                 checked against the rules of the ballot and counted.
--   Tally         vochain/scrutinizer/vote.go: the final results of a process from its envelopes.
--                 Tally/Sums says what they are meant to be, Tally/Final and Tally/Order compare.
--   Keys          vochain/state.go and vochain/transaction.go: the encryption keys of a process.
--   ProcessId     vochain/process_id.go: process ids as bytes.
--   ProcessCheck  vochain/process.go and vochain/transaction.go: `NewProcessTxCheck`,
--                 `SetProcessTxCheck` and `AdminTxCheck`.
--   AddTx         vochain/transaction.go: `AddTx`, with a file for each kind of transaction: AddTx/Tokens,
--                 AddTx/Mint, AddTx/Costs, AddTx/Ballots and AddTx/Voting.
--   Blocks        vochain/app.go and vochain/state.go: `BeginBlock`, `CheckTx`, `DeliverTx`, `Commit` with
--                 `Save`, and `Rollback`, over the committed and the open state.
--   Database      db/interface.go: a key-value database, its operations as fields, and what `Get`,
--                 `Set` and `Delete` promise.
--                 Database/Prefixed is db/prefixeddb/prefixeddb.go.
--   StateDb       statedb/statedb.go, statedb/treeupdate.go, statedb/utils.go: the versions of the state
--                 database and their roots. StateDb/Trees has the trees that a transaction opens and
--                 `propagateRoot`, StateDb/Closing the commit of a transaction; StateDb/Groups
--                 and StateDb/Leaves say what becomes of the leaves.
--   KeyKeeper     vochain/keykeeper/keykeeper.go: the keys of encrypted processes. KeyKeeper/Steps has
--                 the steps of a keeper, with the goroutines of `Commit` as tasks; KeyKeeper/Kept and
--                 KeyKeeper/Invariant say what steps keep.
--   Tests         A small network on which the theorems are applied.
--
-- A method of the Go `State` is a function of the model with the same name in lower case and with
-- underscores, from its arguments to a call on the record `State`. The subtrees are keyed maps: an
-- account, a cost or a process is looked up by its key and replaced whole, as the code reads, changes
-- and writes back a protobuf message. `GetAccount` gives a fresh copy at each call, so two copies of one
-- account are written back one after the other, as in the code. A check that the code makes is a
-- `raise_if`, in the order of the code; the text of an error is not kept, but each named error of
-- vochain/types.go is its own. An index out of range and a nil pointer are the error `panic`.
--
-- Integers are natural numbers with the wrap-around of their Go type written out: balances and amounts
-- are `uint64`, nonces, block numbers and process indices `uint32`. An address is the number that its
-- 20 bytes spell.
--
-- The functions of go-ethereum, protobuf, nacl, of the verifiers of census and zkSNARK proofs, of
-- the LRU cache and of the standard library are the fields of the record `Env` (Crypto), and so is
-- what an iteration of the tree library visits. The decoding of a vote package is the record
-- `VoteCodec` (Tally). The theorem on process ids relies on the lengths of addresses and hashes,
-- which `Codec` states.
--
-- The recursion is structural everywhere. `decimal_digits` runs on fuel, one more than the number that
-- is printed; Crypto/Decimal shows that it is enough. The loop of `DelDelegate` runs once for each entry of
-- the list.
--
-- A vote that was checked for the mempool is taken from the vote cache by the id of its transaction. The
-- theorems on votes in blocks take as a hypothesis, `IsCachedFor`, that what the cache has at the id is a
-- vote for the process of the transaction; VoteCheck/Cached is about this.
--
-- The votes of a process are a map from its id and the id of the vote, which the tree of the process
-- holds; the id of a transaction, the hash of its bytes, comes with the decoded transaction. An index in
-- the tree of registered keys is a place in the list of keys. A Go `int` in a vote package is its word
-- of 64 bits, so a negative one is a number from 2 ^ 63 on. The goroutines that count envelopes write
-- under one lock, so a run of them is an order of the envelopes.
--
-- A keeper of keys runs with a database and a node, the records `Database` and `Node`, whose fields are
-- the calls of badger, protobuf, go-ethereum, curve25519 and tendermint. What its theorems rely on are
-- the records `IsLawful`, `PidCodec` and `Signs`, and, where keys are to be revealed, `IsTaken`: that
-- `SendTx` accepts the transactions that reveal them. A Go map is a list in the order in which it is ranged
-- over.
--
-- The trees of arbo are the record `Arbo`. A parent and its opened trees hold their own trees, whose
-- prefixes keep them apart in the database; the state that the chain's methods use is `State`, not these
-- trees.
--
-- Not modelled: the start of the chain from a genesis file, the views of past versions, the events and
-- the database of the indexer, errors of disks, and everything around the chain (network, files,
-- interfaces). Tendermint calls one method at a time, so the methods of the state are serial calls on
-- the tree of the open transaction.
pub mod Base
pub mod Action
pub mod Account
pub mod Models
pub mod Crypto
pub mod Database
pub mod State
pub mod Ledger
pub mod Tx
pub mod AccountCheck
pub mod Processes
pub mod CensusProof
pub mod Votes
pub mod VoteCache
pub mod VoteCheck
pub mod RollingCensus
pub mod Results
pub mod Keys
pub mod Tally
pub mod ProcessId
pub mod ProcessCheck
pub mod AddTx
pub mod Blocks
pub mod StateDb
pub mod KeyKeeper
pub mod Tests
