-- ===== src/AddTx/Ballots.antt =====
-- `AddTx` of changes of a process (vochain/transaction.go and vochain/process.go).
use vocdoni.Base.{
  Bool, Bytes, Slice, [], arith, if◌then◌else◌, refl, some, true, u64_mod, ℕ, ◌+◌, ◌<◌, ◌≡◌, ◌≢◌,
  ◌≤◌,
}
use vocdoni.Account.{Account, Address}
use vocdoni.Action.{ok, pure, ◌>>◌}
use vocdoni.Action.Preserve.{bind_reads}
use vocdoni.AddTx.{add_set_process, add_tx, set_process_effect}
use vocdoni.Crypto.{Env, burn_address}
use vocdoni.Ledger.{subtract_cost_increment_nonce}
use vocdoni.Ledger.Fees.{after_fee, subtract_cost_ok}
use vocdoni.Models.{Process, ProcessMode, ProcessStatus, process_unknown, set_process_status_type}
use vocdoni.ProcessCheck.{set_process_tx_check, status_or_unknown}
use vocdoni.ProcessCheck.Access.{IsAllowed, set_process_tx_check_inv}
use vocdoni.ProcessCheck.Reads.{set_process_tx_check-Reads}
use vocdoni.Processes.{status_eq}
use vocdoni.Processes.Status.{Allowed, Holds, set_process_status_ok, status_event, updated}
use vocdoni.State.{State}
use vocdoni.State.Extra.{tx_cost, tx_cost_same}
use vocdoni.Tx.{SetProcessTx, tx_set_process}

-- The state after a committed change of status: the status, the event, and the fee.
abbrev pub status_result :
    Address → SetProcessTx → Process → ProcessStatus → ℕ → Account → Account → State → State
status_result addr tx p st cost acc burn s =
    record (status_event p st (updated tx.process_id (record p { status = st }) s)) {
      accounts = after_fee addr set_process_status_type cost acc burn s.accounts;
    }

module _ (env : Env) (tx_bytes signature : Slice) (tx : SetProcessTx) {addr : Address} {p : Process}
    {m : ProcessMode} {acc burn : Account} {cost : ℕ} {st : ProcessStatus} (s : State) where
  -- A change of status that passed its check is committed whole: the process has the status that
  -- was asked for, the listeners are told, and the sender pays the fee.
  pub status_commits :
      set_process_tx_check env tx_bytes signature (some tx) s ≡ (ok addr, s)
      → tx.txtype ≡ set_process_status_type
      → tx.status ≡ some st
      → st ≢ process_unknown
      → Holds s tx.process_id p m
      → Allowed s.current_height p m st
      → addr ≢ burn_address
      → s.accounts addr ≡ some acc
      → s.accounts burn_address ≡ some burn
      → tx_cost set_process_status_type s ≡ (ok cost, s)
      → cost ≤ acc.balance
      → burn.balance + cost < u64_mod
      → add_tx env tx_bytes signature (tx_set_process tx) true s
        ≡ (ok [], status_result addr tx p st cost acc burn s)
  unfolding add_tx add_set_process set_process_effect status_or_unknown status_eq
  status_commits checked typed asked known held allowed ne ea eb ec cover room =
      let changed : State =
        status_event p st (updated tx.process_id (record p { status = st }) s) in
      ground (
        arith,
        set_process_status_ok st s held allowed,
        subtract_cost_ok addr set_process_status_type {cost = cost} {acc = acc} {burn = burn}
            changed ne (tx_cost_same set_process_status_type s changed ec refl) ea eb cover room,
      )

-- A transaction that sets something of a process and is accepted, checked or delivered, is signed by
-- the entity of the stored process or by an oracle, whose account has the nonce of the transaction and
-- can pay its cost.
pub add_tx-IsAllowed :
    (env : Env) (tx_bytes signature : Slice) (tx : SetProcessTx) (commit : Bool) (s : State)
    {r : Bytes} {u : State}
    → add_tx env tx_bytes signature (tx_set_process tx) commit s ≡ (ok r, u)
    → (addr : Address) × IsAllowed env tx_bytes signature tx s addr
unfolding add_tx add_set_process
add_tx-IsAllowed env tx_bytes signature tx commit s h =
    let check = set_process_tx_check env tx_bytes signature (some tx) in
    let effect = λ (sender : Address).
      let did =
        set_process_effect env tx_bytes signature tx tx.txtype
        >> subtract_cost_increment_nonce sender tx.txtype in
      if commit then did >> pure [] else pure [] in
    let (addr, passed, rest) =
      bind_reads check effect s (set_process_tx_check-Reads env tx_bytes signature (some tx) s) h in
    (addr, set_process_tx_check_inv env tx_bytes signature tx s passed)
