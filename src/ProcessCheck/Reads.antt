-- ===== src/ProcessCheck/Reads.antt =====
-- The checks of the process and admin transactions (vochain/process.go, vochain/transaction.go)
-- write nothing.
use vocdoni.Base.{Bool, Option, Slice, content, false, true}
use vocdoni.Account.{Address}
use vocdoni.AccountCheck.Reads.{account_from_signature-Reads}
use vocdoni.Action.Preserve.{preserve_rules}
use vocdoni.Crypto.{Env}
use vocdoni.Keys.{
  add_keys_check, check_add_process_keys, check_reveal_process_keys, oracle_check,
  reveal_keys_check,
}
use vocdoni.Models.{
  Process, TxType, add_oracle_type, add_process_keys_type, remove_oracle_type,
  reveal_process_keys_type, set_process_census_type, set_process_results_type,
  set_process_status_type,
}
use vocdoni.ProcessCheck.{
  admin_keys_check, admin_oracle_check, admin_tx_check, admin_type_check, implemented_check,
  new_process_tx_check, required_fields, set_process_tx_check, set_process_type_check,
  start_block_check, with_built_id,
}
use vocdoni.ProcessId.{build_process_id}
use vocdoni.Processes.{process}
use vocdoni.Processes.Reads.{
  set_process_census-Reads, set_process_results-Reads, set_process_status-Reads,
}
use vocdoni.State.{Reads}
use vocdoni.State.Extra.{treasurer, tx_cost, verify_treasurer}
use vocdoni.State.Oracles.{get_oracles, is_oracle}
use vocdoni.Tx.{AdminTx, NewProcessTx, SetProcessTx}

pub required_fields-Reads : (p : Process) → Reads (required_fields p)
unfolding required_fields
required_fields-Reads p s = search preserve_rules depth 60

pub start_block_check-Reads : (p : Process) → Reads (start_block_check p)
unfolding start_block_check
start_block_check-Reads p s = search preserve_rules depth 60

pub implemented_check-Reads : (env : Env) (p : Process) → Reads (implemented_check env p)
unfolding implemented_check
implemented_check-Reads env p s = search preserve_rules depth 60

pub build_process_id-Reads : (env : Env) (p : Process) → Reads (build_process_id env p)
unfolding build_process_id
build_process_id-Reads env p s = search preserve_rules depth 60

pub with_built_id-Reads :
    (env : Env) (o : Bool) (a : Address) (p : Process) → Reads (with_built_id env o a p)
unfolding with_built_id
with_built_id-Reads env o a p s = search (preserve_rules, build_process_id-Reads) depth 60

pub is_oracle-Reads : (env : Env) (a : Address) → Reads (is_oracle env a)
unfolding is_oracle
is_oracle-Reads env a s = search preserve_rules depth 60

ruleset parts = (
  preserve_rules, required_fields-Reads, start_block_check-Reads, implemented_check-Reads,
  with_built_id-Reads, is_oracle-Reads, account_from_signature-Reads,
)

module _ (env : Env) (tx_bytes signature : Slice) where
  pub new_process_tx_check-Reads :
      (tx : Option NewProcessTx) → Reads (new_process_tx_check env tx_bytes signature tx)
  unfolding new_process_tx_check tx_cost
  new_process_tx_check-Reads tx s = search parts depth 80

  pub set_process_type_check-Reads :
      (tx : SetProcessTx) (p : Process) (a : Address) (o : Bool) (t : TxType)
      → Reads (set_process_type_check env tx_bytes signature tx p a o t)
  unfolding set_process_type_check
  set_process_type_check-Reads tx p a o set_process_status_type s =
      search (preserve_rules, set_process_status-Reads)
  set_process_type_check-Reads tx p a o set_process_results_type s =
      search (preserve_rules, set_process_results-Reads) depth 20
  set_process_type_check-Reads tx p a o set_process_census_type s =
      search (preserve_rules, set_process_census-Reads)
  set_process_type_check-Reads tx p a o _ s = search preserve_rules

  pub set_process_tx_check-Reads :
      (tx : Option SetProcessTx) → Reads (set_process_tx_check env tx_bytes signature tx)
  unfolding set_process_tx_check tx_cost process
  set_process_tx_check-Reads tx s = search (parts, set_process_type_check-Reads) depth 80

  pub admin_oracle_check-Reads :
      (tx : AdminTx) (a : Address) (o : Bool)
      → Reads (admin_oracle_check env tx_bytes signature tx a o)
  unfolding admin_oracle_check verify_treasurer treasurer get_oracles
  admin_oracle_check-Reads tx a o s = search preserve_rules depth 60

  pub add_keys_check-Reads : (tx : AdminTx) (p : Process) → Reads (add_keys_check tx p)
  unfolding add_keys_check check_add_process_keys
  add_keys_check-Reads tx p s = search preserve_rules depth 60

  pub reveal_keys_check-Reads : (tx : AdminTx) (p : Process) → Reads (reveal_keys_check env tx p)
  unfolding reveal_keys_check check_reveal_process_keys
  reveal_keys_check-Reads tx p s = search preserve_rules depth 60

  pub oracle_check-Reads : Reads (oracle_check env (content tx_bytes) signature)
  unfolding oracle_check
  oracle_check-Reads s = search preserve_rules depth 60

  pub admin_keys_check-Reads :
      (tx : AdminTx) (o : Bool) → Reads (admin_keys_check env tx_bytes signature tx o)
  unfolding admin_keys_check process
  admin_keys_check-Reads tx o s =
      search (preserve_rules, add_keys_check-Reads, reveal_keys_check-Reads, oracle_check-Reads)
        depth 60

  admin_type_check-Reads :
      (tx : AdminTx) (a : Address) (t : TxType)
      → Reads (admin_type_check env tx_bytes signature tx a t)
  unfolding admin_type_check
  admin_type_check-Reads tx a add_process_keys_type s = admin_keys_check-Reads tx true s
  admin_type_check-Reads tx a reveal_process_keys_type s = admin_keys_check-Reads tx false s
  admin_type_check-Reads tx a add_oracle_type s = admin_oracle_check-Reads tx a true s
  admin_type_check-Reads tx a remove_oracle_type s = admin_oracle_check-Reads tx a false s
  admin_type_check-Reads tx a _ s = search preserve_rules

  pub admin_tx_check-Reads :
      (tx : Option AdminTx) → Reads (admin_tx_check env tx_bytes signature tx)
  unfolding admin_tx_check
  admin_tx_check-Reads tx s = search (preserve_rules, admin_type_check-Reads) depth 60
