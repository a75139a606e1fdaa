-- ===== src/Blocks.antt =====
-- vochain/app.go and vochain/state.go: how blocks are applied. The StateDB is the state of its last
-- commit and the one of the open transaction. Tendermint calls one method at a time.
pub mod Aborted
pub mod CensusSize
pub mod Commit
pub mod Votes
pub mod Padding
use vocdoni.Base.{
  Bool, Bytes, List, Option, Slice, [], add32, false, if◌then◌else◌, none, not, some, true, u32_mod,
  ℕ, ◌%◌, ◌++◌, ◌∷◌,
}
use vocdoni.Action.{
  Action, Error, Result, already_in_cache, err, gets, modify, ok, or_raise, panic,
  process_not_found, pure, raise_if, recast, ◌>>=◌, ◌>>◌,
}
use vocdoni.AddTx.{add_tx}
use vocdoni.Crypto.{Env, hash}
use vocdoni.Models.{Process}
use vocdoni.Processes.{is_empty, need_mode, pre_register, process, put_at}
use vocdoni.RollingCensus.{get_rolling_census_size}
use vocdoni.State.{
  Run, State, current_height, notify, on_commit, on_new_tx, on_processes_start, on_rollback,
}
use vocdoni.Tx.{Tx}

-- A transaction as `VochainTx.Unmarshal` reads it.
pub record Call : Type 0 where
  pub tx_bytes : Slice
  pub signature : Slice
  pub tx : Tx

-- What the application calls: `VochainTx.Unmarshal` over protobuf and the chain id, the hash of the
-- StateDB's main tree, and whether a listener's `Commit` gives `ErrHaltVochain`.
pub record Chain : Type 0 where
  pub unmarshal : Bytes → Option Call
  pub root : State → Bytes
  pub halts : ℕ → Bool

pub record App : Type 0 where
  -- the last commit of the StateDB
  pub committed : State
  -- the open transaction, with what is only in memory
  pub state : State
  pub height : ℕ
  pub start_block_timestamp : ℕ
  pub end_block_timestamp : ℕ

-- The code and the data of a response: zero, or one with the error (none: of `Unmarshal`).
pub data Response : Type 0 where
  accepted : Bytes → Response
  refused : Option Error → Response

-- A call on the open transaction. An index out of range or a nil pointer stops the node.
abbrev pub in_state : {A : Type 0} → Run A → Action App A
in_state call app = let (r, s) = call app.state in (r, record app { state = s })

-- `BeginTx` of the StateDB after `Discard`: the trees are read from the last commit, and what is only
-- in memory is not part of them.
unfoldable pub begin_tx : State → State → State
begin_tx committed s = record s {
  accounts = committed.accounts;
  costs = committed.costs;
  treasurer = committed.treasurer;
  oracles = committed.oracles;
  faucet = committed.faucet;
  processes = committed.processes;
  votes = committed.votes;
  pids_by_start_block = committed.pids_by_start_block;
  rolling_census = committed.rolling_census;
  used_weights = committed.used_weights;
  vote_count = committed.vote_count;
}

-- `State.Rollback`: the listeners are told, the transaction is discarded and a new one begins, and the
-- counter of transactions starts again.
unfoldable pub rollback : State → State → State
unfolding begin_tx
rollback committed s =
    let told = record s { events = s.events ++ on_rollback ∷ [] } in
    record (begin_tx committed told) { tx_counter = 0 }

-- `BeginBlock`, of a header's time and height. `CachePurge` runs beside what follows.
unfoldable pub begin_block : ℕ → ℕ → App → App
unfolding rollback
begin_block time height app = record app {
  state = record (rollback app.committed app.state) { current_height = height % u32_mod };
  start_block_timestamp = time;
}

-- `EndBlock`
unfoldable pub end_block : ℕ → ℕ → App → App
end_block height time app = record app { height = height % u32_mod; end_block_timestamp = time }

-- What `CheckTx` makes of the result of `AddTx`.
unfoldable pub check_response : Result Bytes → Result Response
check_response (ok bytes) = ok (accepted bytes)
check_response (err already_in_cache) = ok (accepted [])
check_response (err panic) = err panic
check_response (err e) = ok (refused (some e))

unfoldable pub deliver_response : Result Bytes → Result Response
deliver_response (ok bytes) = ok (accepted bytes)
deliver_response (err panic) = err panic
deliver_response (err e) = ok (refused (some e))

-- `TxCounterAdd`, on the 32 bits of the counter.
unfoldable pub tx_counter_add : State → State
tx_counter_add s = record s { tx_counter = add32 s.tx_counter 1 }

-- `OnNewTx`, where the transaction was accepted.
unfoldable pub tell_new_tx : Result Bytes → Bytes → ℕ → State → State
tell_new_tx (ok _) hash height s = record s {
  events = s.events ++ on_new_tx hash height s.tx_counter ∷ [];
}
tell_new_tx (err _) hash height s = s

module _ (env : Env) (chain : Chain) where
  -- `CheckTx`; a transaction that is checked again is accepted.
  unfoldable pub check_tx : Bool → Bytes → Action App Response
  unfolding check_response
  check_tx recheck raw app =
      if recheck then (ok (accepted []), app) else elim (chain.unmarshal raw) [
        | none ↦ (ok (refused none), app)
        | some call ↦
            let (r, s) = add_tx env call.tx_bytes call.signature call.tx false app.state in
            (check_response r, record app { state = s })
      ]

  -- `DeliverTx`; the counter goes up whatever the result.
  unfoldable pub deliver_tx : Bytes → Action App Response
  unfolding deliver_response tell_new_tx tx_counter_add
  deliver_tx raw app = elim (chain.unmarshal raw) [
    | none ↦ (ok (refused none), record app { state = tx_counter_add app.state })
    | some call ↦
        let (r, s) = add_tx env call.tx_bytes call.signature call.tx true app.state in
        (
          deliver_response r,
          record app {
            state = tx_counter_add (tell_new_tx r (env.sha256 raw) (add32 app.height 1) s);
          },
        )
  ]

  -- `updateProcess` of a transaction, without the check of the method.
  unfoldable pub write_process : Process → Bytes → Run Unit
  write_process p pid = do
    leaf ← or_raise (← gets (λ s. s.processes pid)) process_not_found
    modify (λ s. record s {
      processes = put_at pid (record { process = p; votes_root = leaf.votes_root }) s.processes;
    })

  -- `setRollingCensusSize`, of one process and of all.
  unfoldable pub set_census_size : Bytes → Run Unit
  unfolding process get_rolling_census_size write_process
  set_census_size pid = do
    p ← process pid
    m ← need_mode p
    if not m.pre_register then pure tt else do
      size ← get_rolling_census_size env pid
      write_process (record p { rolling_census_size = some size }) pid

  unfoldable pub set_rolling_census_size : List Bytes → Run Unit
  unfolding set_census_size
  set_rolling_census_size [] = pure tt
  set_rolling_census_size (pid ∷ rest) = set_census_size pid >> set_rolling_census_size rest

  -- `Save`, from the commit of the StateDB's transaction on.
  unfoldable pub finish_commit : ℕ → List Bytes → Action App Bytes
  finish_commit height starting = do
    modify (λ app. record app { committed = app.state })
    in_state (notify (on_commit height))
    raise_if (chain.halts height) panic
    if is_empty starting then pure tt else in_state (notify (on_processes_start starting))
    gets (λ app. chain.root app.committed)

  -- `Commit` and the `Save` of the state, whose errors stop the node. Snapshots are input and output.
  unfoldable pub commit : Action App Bytes
  unfolding set_rolling_census_size finish_commit
  commit = do
    height ← gets (λ app. app.state.current_height)
    starting ← gets (λ app. app.state.pids_by_start_block (add32 height 1))
    recast panic (in_state (set_rolling_census_size starting))
    finish_commit height starting
