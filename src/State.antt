-- ===== src/State.antt =====
-- vochain/state.go, the `State`: the subtrees of the StateDB as keyed maps, the height of the
-- current block, the transaction counter and the events that the listeners are told of.
pub mod Extra
pub mod Oracles
pub mod Faucet
use vocdoni.Base.{
  Bool, Bytes, List, Option, Slice, String, [], if◌then◌else◌, some, ℕ, ◌++◌, ◌==◌, ◌∷◌, ◌≡◌,
}
use vocdoni.Account.{Account, Address}
use vocdoni.Action.{Action, account_not_exist, gets, modify, or_raise, ◌>>=◌, ◌>>◌}
use vocdoni.Action.Preserve.{Preserves}
use vocdoni.Crypto.{VoteCache}
use vocdoni.Models.{ProcessResult, ProcessStatus, StateDbProcess, StateDbVote, Treasurer, Vote}

-- What the event listeners are called with.
pub data Event : Type 0 where
  on_vote : Vote → Bytes → ℕ → Event
  on_process : Slice → Bytes → Bytes → Bytes → ℕ → Event
  on_process_status_change : Slice → ProcessStatus → ℕ → Event
  on_cancel : Bytes → ℕ → Event
  on_process_keys : Slice → Slice → ℕ → Event
  on_reveal_keys : Slice → Slice → ℕ → Event
  on_process_results : Slice → ProcessResult → ℕ → Event
  on_new_tx : Bytes → ℕ → ℕ → Event
  on_rollback : Event
  on_commit : ℕ → Event
  on_processes_start : List Bytes → Event

pub record State : Type 0 where
  -- the accounts, the costs and the treasurer of the Extra subtree
  pub accounts : Address → Option Account
  pub costs : String → Option ℕ
  pub treasurer : Option Treasurer
  -- the oracles in the order of the leaves, with whether the leaf still has a value
  pub oracles : List (Address × Bool)
  -- the keys of the Faucet subtree
  pub faucet : List Bytes
  -- the processes, their votes, and the process ids by start block
  pub processes : Bytes → Option StateDbProcess
  pub votes : Bytes → Bytes → Option StateDbVote
  pub pids_by_start_block : ℕ → List Bytes
  -- of a process with a rolling census: its keys, whose index is their place, and by the nullifier
  -- of an address the weight that it used
  pub rolling_census : Bytes → Option (List Bytes)
  pub used_weights : Bytes → Bytes → Option Bytes
  pub vote_count : ℕ
  pub current_height : ℕ
  pub tx_counter : ℕ
  pub events : List Event
  -- the votes that were checked and are not in a block, in memory
  pub vote_cache : VoteCache
  pub cache_disabled : Bool

abbrev pub Run : Type 0 → Type 0
Run = Action State

-- A map with one entry written.
abbrev pub put : {V : Type 0} → Address → V → (Address → Option V) → Address → Option V
put k v m j = if j == k then some v else m j

-- `GetAccount`; nil if there is none.
abbrev pub get_account : Address → Run (Option Account)
get_account a = gets (λ s. s.accounts a)

-- `GetAccount` and the caller's `if acc == nil { return ErrAccountNotExist }`.
abbrev pub need_account : Address → Run Account
need_account a = do acc ← get_account a; or_raise acc account_not_exist

-- `SetAccount`
abbrev pub set_account : Address → Account → Run Unit
set_account a acc = modify (λ s. record s { accounts = put a acc s.accounts })

-- `CurrentHeight`
abbrev pub current_height : Run ℕ
current_height = gets (λ s. s.current_height)

-- Telling the listeners of an event.
abbrev pub notify : Event → Run Unit
notify e = modify (λ s. record s { events = s.events ++ e ∷ [] })

-- A call that leaves the state as it was, whatever it returns.
abbrev pub Reads : {A : Type 0} → Run A → Type 0
Reads call = (s : State) → Preserves (λ u. u ≡ s) call
