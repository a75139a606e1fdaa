-- ===== src/Processes.antt =====
-- vochain/process.go, the methods of `State` on processes, and those of vochain/state.go on the
-- keys of a process. Block numbers are `uint32`.
pub mod Status
pub mod LifeCycle
pub mod Results
pub mod Oracles
pub mod Reads
use vocdoni.Base.{
  Bool, Bytes, List, Option, Slice, [], add32, bytes_eq, content, false, if◌then◌else◌, is_none,
  leb, length, ltb, none, not, replicate, some, true, ℕ, ◌%◌, ◌&&◌, ◌*◌, ◌++◌, ◌+◌, ◌/◌, ◌==◌, ◌||◌,
  ◌∷◌,
}
use vocdoni.Action.{
  Result, already_added, already_exists, err, gets, invalid_uri, missing_field, modify, not_allowed,
  ok, or_raise, panic, process_not_found, pure, raise, raise_if, wrong_result, wrong_status, ◌>>=◌,
  ◌>>◌,
}
use vocdoni.Crypto.{Env}
use vocdoni.Models.{
  CensusOrigin, EnvelopeType, Process, ProcessMode, ProcessResult, ProcessStatus, canceled,
  empty_result, ended, off_chain_ca, off_chain_tree, off_chain_tree_weighted, paused,
  process_unknown, ready, results, status_other,
}
use vocdoni.State.{
  Run, State, current_height, notify, on_process, on_process_results, on_process_status_change,
}
use vocdoni.State.Faucet.{stored}
use vocdoni.State.Oracles.{get_oracles}

-- `p.Mode.…` of a process without a mode is a nil pointer.
abbrev pub need_mode : Process → Run ProcessMode
need_mode p = or_raise p.mode panic

abbrev pub need_envelope : Process → Run EnvelopeType
need_envelope p = or_raise p.envelope_type panic

-- `==` of two statuses.
unfoldable pub status_eq : ProcessStatus → ProcessStatus → Bool
status_eq process_unknown process_unknown = true
status_eq ready ready = true
status_eq ended ended = true
status_eq canceled canceled = true
status_eq paused paused = true
status_eq results results = true
status_eq (status_other n) (status_other m) = n == m
status_eq _ _ = false

-- `%x` of a byte string.
hex_digit : ℕ → ℕ
hex_digit n = if ltb n 10 then 48 + n else 87 + n

unfoldable pub hex : Bytes → Bytes
unfolding hex_digit
hex [] = []
hex (b ∷ bs) = hex_digit (b / 16) ∷ hex_digit (b % 16) ∷ hex bs

-- A map over byte strings with one entry written.
abbrev pub put_at : {V : Type 0} → Bytes → V → (Bytes → Option V) → Bytes → Option V
put_at k v m j = if bytes_eq j k then some v else m j

-- A root of an empty tree, `defaultHashLen` zeros.
abbrev pub empty_root : Bytes
empty_root = replicate 32 0

-- `Process` and `getProcess`
unfoldable pub process : Bytes → Run Process
process pid = do
  leaf ← or_raise (← gets (λ s. s.processes pid)) process_not_found
  pure leaf.process

-- `updateProcess`: the method's check, then the function's write, which keeps the votes' root.
unfoldable pub update_process : Process → Bytes → Run Unit
update_process p pid = do
  raise_if (not (length (content p.process_id) == 32)) process_not_found
  leaf ← or_raise (← gets (λ s. s.processes pid)) process_not_found
  modify (λ s. record s {
    processes = put_at pid (record { process = p; votes_root = leaf.votes_root }) s.processes;
  })

-- `p.Mode != nil && p.Mode.PreRegister`, and the same of the envelope type.
unfoldable pub pre_register : Process → Bool
pre_register p = elim p.mode [ none ↦ false | some m ↦ m.pre_register ]

-- `p.EnvelopeType != nil && p.EnvelopeType.Anonymous`
unfoldable pub is_anonymous : Process → Bool
is_anonymous p = elim p.envelope_type [ none ↦ false | some et ↦ et.anonymous ]

-- The empty rolling census that `AddProcess` opens for an anonymous process with pre-registration.
unfoldable pub open_census : Process → Run Unit
unfolding pre_register is_anonymous
open_census p =
    if pre_register p && is_anonymous p
    then modify (λ s. record s {
      rolling_census = put_at (content p.process_id) [] s.rolling_census;
      used_weights =
          λ id. if bytes_eq id (content p.process_id) then (λ n. none) else s.used_weights id;
    })
    else pure tt

-- The process that `AddProcess` stores.
unfoldable pub with_empty_roots : Process → Process
unfolding pre_register
with_empty_roots p =
    if pre_register p
    then record p { rolling_census_root = empty_root; nullifiers_root = empty_root }
    else p

-- `setProcessIDByStartBlock`
unfoldable pub set_process_id_by_start_block : Bytes → ℕ → Run Unit
set_process_id_by_start_block pid start_block = modify (λ s. record s {
  pids_by_start_block = λ b.
      if b == start_block then s.pids_by_start_block b ++ pid ∷ [] else s.pids_by_start_block b;
})

-- `AddProcess`
unfoldable pub add_process : Process → Run Unit
unfolding with_empty_roots open_census set_process_id_by_start_block hex
add_process p = do
  let pid = content p.process_id
  found ← gets (λ s. s.processes pid)
  raise_if (not (is_none found)) already_exists
  modify (λ s. record s {
    processes =
        put_at pid (record { process = with_empty_roots p; votes_root = empty_root }) s.processes;
  })
  open_census p
  set_process_id_by_start_block pid p.start_block
  counter ← gets (λ s. s.tx_counter)
  notify (on_process p.process_id p.entity_id (hex p.census_root) (content p.census_uri) counter)

-- `SetProcessStatus`, the check of a transition; block numbers are added on `uint32`.
unfoldable pub status_check : ProcessStatus → Process → Run Unit
unfolding status_eq
status_check ready p = raise_if (not (status_eq p.status paused)) wrong_status
status_check ended p = do
  raise_if (not (status_eq p.status ready)) wrong_status
  m ← need_mode p
  height ← current_height
  raise_if (not m.interruptible && leb height (add32 p.block_count p.start_block)) not_allowed
status_check canceled p = do
  raise_if (status_eq p.status canceled) wrong_status
  raise_if (status_eq p.status ended || status_eq p.status results) wrong_status
  if status_eq p.status paused
      then pure tt
      else do m ← need_mode p; raise_if (not m.interruptible) not_allowed
status_check paused p = do
  raise_if (not (status_eq p.status ready)) wrong_status
  m ← need_mode p
  raise_if (not m.interruptible) not_allowed
status_check results p = do
  raise_if (status_eq p.status results) wrong_status
  raise_if (not (status_eq p.status ended) && not (status_eq p.status ready)) wrong_status
  height ← current_height
  raise_if (status_eq p.status ready && leb (add32 p.start_block p.block_count) height) not_allowed
status_check _ p = raise wrong_status

-- `SetProcessStatus`
unfoldable pub set_process_status : Bytes → ProcessStatus → Bool → Run Unit
set_process_status pid new_status commit = do
  p ← process pid
  status_check new_status p
  let stored = do
    update_process (record p { status = new_status }) (content p.process_id)
    counter ← gets (λ s. s.tx_counter)
    notify (on_process_status_change p.process_id new_status counter)
  if commit then stored else pure tt

-- The search of `SetProcessResults` for results of the same oracle.
unfoldable pub has_oracle : Slice → List ProcessResult → Bool
has_oracle oracle [] = false
has_oracle oracle (r ∷ rs) =
    bytes_eq (content r.oracle_address) (content oracle) || has_oracle oracle rs

-- `len(process.Results) == 0` and `process.Results == nil`, which agree on what is read back.
abbrev pub is_empty {ℓ} : {A : Type ℓ} → List A → Bool
is_empty [] = true
is_empty (x ∷ xs) = false

-- `SetProcessResults`, the checks.
unfoldable pub results_check : Process → ProcessResult → Run Unit
unfolding status_eq
results_check p result = do
  raise_if
      (not (status_eq p.status ended)
        && not (status_eq p.status ready)
        && not (status_eq p.status results))
      wrong_status
  height ← current_height
  raise_if (status_eq p.status ready && ltb height (add32 p.start_block p.block_count)) wrong_status
  raise_if (not (bytes_eq result.process_id (content p.process_id))) wrong_result
  raise_if (not (bytes_eq result.entity_id p.entity_id)) wrong_result
  raise_if (is_none result.oracle_address) missing_field

-- `SetProcessResults`, the write. The slice of a process without results is made with two nil
-- entries for each oracle, and the result is appended behind those.
unfoldable pub results_commit : Env → Process → ProcessResult → Run Unit
unfolding has_oracle
results_commit env p result = do
  oracles ← get_oracles env
  let held = if is_empty p.results then replicate (length oracles * 2) empty_result else p.results
  raise_if (has_oracle result.oracle_address held) already_added
  update_process (record p { results = held ++ result ∷ []; status = results })
      (content p.process_id)
  counter ← gets (λ s. s.tx_counter)
  notify (on_process_results p.process_id result counter)

-- `SetProcessResults`
unfoldable pub set_process_results : Env → Bytes → ProcessResult → Bool → Run Unit
set_process_results env pid result commit = do
  p ← process pid
  results_check p result
  if commit then results_commit env p result else pure tt

-- `GetProcessResults`, of the state of the last commit, with the votes as they are stored.
unfoldable pub get_process_results : Bytes → State → Result (List (List Bytes))
get_process_results pid committed = elim (process pid committed).0 [
  | err e ↦ err e
  | ok p ↦ elim p.results [ [] ↦ err wrong_result | r ∷ rs ↦ ok r.votes ]
]

-- `CensusOrigins[…].AllowCensusUpdate` and `.NeedsURI`.
unfoldable pub allow_census_update : CensusOrigin → Bool
allow_census_update off_chain_tree = true
allow_census_update off_chain_tree_weighted = true
allow_census_update off_chain_ca = true
allow_census_update _ = false

unfoldable pub needs_uri : CensusOrigin → Bool
needs_uri off_chain_tree = true
needs_uri off_chain_tree_weighted = true
needs_uri off_chain_ca = true
needs_uri _ = false

-- `SetProcessCensus`
unfoldable pub set_process_census : Bytes → Bytes → Bytes → Bool → Run Unit
unfolding status_eq allow_census_update needs_uri
set_process_census pid census_root census_uri commit = do
  p ← process pid
  m ← need_mode p
  raise_if (not m.dynamic_census) not_allowed
  raise_if (not (allow_census_update p.census_origin)) not_allowed
  raise_if (not (status_eq p.status ready) && not (status_eq p.status paused)) wrong_status
  raise_if (bytes_eq census_root p.census_root) already_exists
  raise_if (needs_uri p.census_origin && is_empty census_uri) invalid_uri
  let stored =
      update_process (record p { census_root = census_root; census_uri = some census_uri })
        (content p.process_id)
  if commit then stored else pure tt
