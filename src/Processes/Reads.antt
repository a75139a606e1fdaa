-- ===== src/Processes/Reads.antt =====
-- The methods on processes (vochain/process.go), called without commit, write nothing.
use vocdoni.Base.{Bytes, false}
use vocdoni.Action.Preserve.{Preserves, preserve_rules}
use vocdoni.Crypto.{Env}
use vocdoni.Models.{Process, ProcessResult, ProcessStatus, ready}
use vocdoni.Processes.{
  process, results_check, set_process_census, set_process_results, set_process_status, status_check,
}
use vocdoni.State.{Reads, State}

pub process-Preserves : {P : State → Type 0} (pid : Bytes) → Preserves P (process pid)
unfolding process
process-Preserves pid = search preserve_rules

pub status_check-Reads : (st : ProcessStatus) (p : Process) → Reads (status_check st p)
unfolding status_check
status_check-Reads ready p s = search preserve_rules depth 20
status_check-Reads _ p s = search preserve_rules depth 20

pub set_process_status-Reads :
    (pid : Bytes) (st : ProcessStatus) → Reads (set_process_status pid st false)
unfolding set_process_status process
set_process_status-Reads pid st s = search (preserve_rules, status_check-Reads) depth 20

pub set_process_results-Reads :
    (env : Env) (pid : Bytes) (r : ProcessResult) → Reads (set_process_results env pid r false)
unfolding set_process_results process results_check
set_process_results-Reads env pid r s = search preserve_rules depth 30

pub set_process_census-Reads :
    (pid root uri : Bytes) → Reads (set_process_census pid root uri false)
unfolding set_process_census process
set_process_census-Reads pid root uri s = search preserve_rules depth 30
