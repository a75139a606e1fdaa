-- ===== src/ProcessCheck.antt =====
-- vochain/process.go and vochain/transaction.go, the checks of the process transactions.
pub mod Reads
pub mod Access
pub mod Creation
use vocdoni.Base.{
  Bool, Option, Slice, [], add32, bytes_eq, content, false, if◌then◌else◌, is_none, length, ltb,
  none, not, replicate, some, true, xor, ℕ, ◌&&◌, ◌==◌, ◌||◌,
}
use vocdoni.Account.{Address}
use vocdoni.AccountCheck.{account_from_signature, signed, signer}
use vocdoni.Action.{
  account_nonce_invalid, already_exists, bad_process, gets, invalid_address, invalid_tx_type,
  missing_field, missing_signature, not_allowed, not_enough_balance, or_raise, panic, pure, raise,
  raise_if, unauthorized, ◌>>=◌, ◌>>◌,
}
use vocdoni.Crypto.{Env}
use vocdoni.Keys.{add_keys_check, max_key_index, oracle_check, reveal_keys_check}
use vocdoni.Models.{
  EnvelopeType, Process, ProcessStatus, TxType, add_oracle_type, add_process_keys_type,
  new_process_type, process_unknown, remove_oracle_type, results, reveal_process_keys_type,
  set_process_census_type, set_process_results_type, set_process_status_type,
}
use vocdoni.ProcessId.{build_process_id, envelope_type, marshal}
use vocdoni.Processes.{
  need_envelope, need_mode, pre_register, process, set_process_census, set_process_results,
  set_process_status,
}
use vocdoni.State.{Run, current_height}
use vocdoni.State.Extra.{tx_cost, verify_treasurer}
use vocdoni.State.Oracles.{get_oracles, is_oracle, listed}
use vocdoni.Tx.{AdminTx, NewProcessTx, SetProcessTx}

-- The test of `NewProcessTxCheck` for the fields that must be there; the maximal count is given.
unfoldable pub required_fields : Process → Run Unit
required_fields p = do
  raise_if (is_none p.max_count || is_none p.envelope_type || is_none p.mode) missing_field
  count ← or_raise p.max_count missing_field
  raise_if (count == 0) missing_field

-- The start block: 0 and 1 stand for the next block, and no other may lie in the past.
unfoldable pub start_block_check : Process → Run Process
start_block_check p = do
  height ← current_height
  if p.start_block == 0 || p.start_block == 1
      then pure (record p { start_block = add32 height 1 })
      else if ltb p.start_block height
      then raise bad_process
      else pure p

-- `*p.MaxCensusSize`, and 0 where the pointer is nil.
unfoldable pub census_size : Process → ℕ
census_size p = elim p.max_census_size [ none ↦ 0 | some n ↦ n ]

-- Which kinds of process are implemented.
unfoldable pub implemented_check : Env → Process → Run Unit
unfolding census_size
implemented_check env p = do
  m ← need_mode p
  et ← need_envelope p
  raise_if (xor m.pre_register et.anonymous) not_allowed
  let size = census_size p
  raise_if (m.pre_register && size == 0) missing_field
  if m.pre_register && et.anonymous
      then (do
        biggest ← or_raise env.biggest_circuit not_allowed
        raise_if (ltb biggest size) not_allowed)
      else pure tt
  raise_if et.serial not_allowed

-- The empty slots for keys of a process that needs some.
unfoldable pub with_key_slots : Process → EnvelopeType → Process
with_key_slots p et =
    if et.encrypted_votes || et.anonymous
    then record p {
      encryption_public_keys = replicate max_key_index [];
      encryption_private_keys = replicate max_key_index [];
    }
    else p

-- The process id that is built for a process, for an oracle from the oracle's own address. The
-- entity id is put back afterwards.
unfoldable pub with_built_id : Env → Bool → Address → Process → Run Process
with_built_id env oracle addr p = do
  pid ← build_process_id env (if oracle then record p { entity_id = env.address_bytes addr } else p)
  pure (record p { process_id = some (marshal env pid) })

-- `tx.GetStatus()`
unfoldable pub status_or_unknown : SetProcessTx → ProcessStatus
status_or_unknown tx = elim tx.status [ none ↦ process_unknown | some st ↦ st ]

module _ (env : Env) (tx_bytes signature : Slice) where
  -- `NewProcessTxCheck`: the process as it will be stored, and who creates it.
  unfoldable pub new_process_tx_check : Option NewProcessTx → Run (Process × Address)
  new_process_tx_check vtx = do
    tx ← or_raise vtx panic
    given ← or_raise tx.process bad_process
    required_fields given
    raise_if (is_none signature || is_none tx_bytes) missing_signature
    started ← start_block_check given
    raise_if (started.block_count == 0) bad_process
    cost ← tx_cost new_process_type
    (addr, acc) ← account_from_signature env (content tx_bytes) signature
    raise_if (ltb acc.balance cost) not_enough_balance
    raise_if (not (acc.nonce == tx.nonce)) account_nonce_invalid
    oracle ← is_oracle env addr
    raise_if (not (bytes_eq started.entity_id (env.address_bytes addr)) && not oracle) unauthorized
    let built = with_built_id env oracle addr started
    p ← (if not oracle || is_none started.process_id then built else pure started)
    found ← gets (λ s. s.processes (content p.process_id))
    raise_if (not (is_none found)) already_exists
    implemented_check env p
    et ← need_envelope p
    pure (with_key_slots p et, addr)

  -- The branches of `SetProcessTxCheck` by the transaction's type, for a process that was found.
  unfoldable pub set_process_type_check :
      SetProcessTx → Process → Address → Bool → TxType → Run Unit
  unfolding status_or_unknown
  set_process_type_check tx p addr oracle set_process_results_type = do
    raise_if (not oracle) unauthorized
    r ← or_raise tx.results panic
    raise_if (not (bytes_eq (content r.oracle_address) (env.address_bytes addr))) unauthorized
    set_process_results env (content p.process_id) r false
  set_process_type_check tx p addr oracle set_process_status_type =
      set_process_status (content p.process_id) (status_or_unknown tx) false
  set_process_type_check tx p addr oracle set_process_census_type =
      set_process_census (content p.process_id) (content tx.census_root) tx.census_uri false
  set_process_type_check tx p addr oracle _ = raise invalid_tx_type

  -- `SetProcessTxCheck`: who sent the transaction. Only the entity or an oracle may.
  unfoldable pub set_process_tx_check : Option SetProcessTx → Run Address
  set_process_tx_check vtx = do
    tx ← signed env tx_bytes signature vtx
    cost ← tx_cost tx.txtype
    (addr, acc) ← account_from_signature env (content tx_bytes) signature
    raise_if (ltb acc.balance cost) not_enough_balance
    raise_if (not (acc.nonce == tx.nonce)) account_nonce_invalid
    p ← process tx.process_id
    let owner = bytes_eq p.entity_id (env.address_bytes addr)
    oracle ← (if owner then pure false else is_oracle env addr)
    raise_if (not owner && not oracle) unauthorized
    set_process_type_check tx p addr oracle tx.txtype
    pure addr

  -- `AdminTxCheck`, the branches for the oracles' transactions.
  unfoldable pub admin_oracle_check : AdminTx → Address → Bool → Run Unit
  admin_oracle_check tx addr adding = do
    verify_treasurer env addr tx.nonce
    raise_if (not (length tx.address == 20) || bytes_eq tx.address (replicate 20 0)) invalid_address
    oracles ← get_oracles env
    let present = listed (env.bytes_to_address tx.address) oracles
    raise_if (if adding then present else not present) not_allowed

  -- The branches for the keys of a process.
  unfoldable pub admin_keys_check : AdminTx → Bool → Run Unit
  admin_keys_check tx adding = do
    pid ← or_raise tx.process_id missing_field
    p ← process pid
    et ← need_envelope p
    raise_if (not et.encrypted_votes && not et.anonymous) not_allowed
    oracle_check env (content tx_bytes) signature
    if adding then add_keys_check tx p else reveal_keys_check env tx p

  unfoldable pub admin_type_check : AdminTx → Address → TxType → Run Unit
  admin_type_check tx addr add_process_keys_type = admin_keys_check tx true
  admin_type_check tx addr reveal_process_keys_type = admin_keys_check tx false
  admin_type_check tx addr add_oracle_type = admin_oracle_check tx addr true
  admin_type_check tx addr remove_oracle_type = admin_oracle_check tx addr false
  admin_type_check tx addr _ = raise invalid_tx_type

  -- `AdminTxCheck`
  unfoldable pub admin_tx_check : Option AdminTx → Run Unit
  admin_tx_check vtx = do
    tx ← signed env tx_bytes signature vtx
    addr ← signer env tx_bytes signature
    admin_type_check tx addr tx.txtype
