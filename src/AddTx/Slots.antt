-- ===== src/AddTx/Slots.antt =====
-- `AddTx` of a key whose index is beyond the slots of its process (vochain/transaction.go).
use vocdoni.Base.{
  Bool, Bytes, Slice, arith, content, false, is_none, length, some, true, ℕ, ◌||◌, ◌≡◌, ◌≤◌, ◌⊎◌,
}
use vocdoni.Account.{Address}
use vocdoni.AccountCheck.{signer}
use vocdoni.Action.{err, ok, panic}
use vocdoni.AddTx.{add_admin, add_tx}
use vocdoni.Crypto.{Env}
use vocdoni.Keys.{oracle_check}
use vocdoni.Keys.Slots.{add_keys_check_panics}
use vocdoni.Models.{EnvelopeType, Process, add_process_keys_type, paused, ready}
use vocdoni.ProcessCheck.{admin_keys_check, admin_tx_check, admin_type_check}
use vocdoni.Processes.{process}
use vocdoni.State.{State}
use vocdoni.Tx.{AdminTx, tx_admin}

module _ (env : Env) (tx_bytes signature : Slice) (tx : AdminTx) {pid : Bytes} {p : Process}
    {et : EnvelopeType} {addr : Address} {index : ℕ} (s : State)
    (typed : tx.txtype ≡ add_process_keys_type) (for_process : tx.process_id ≡ some pid)
    (found : process pid s ≡ (ok p, s)) (kind : p.envelope_type ≡ some et)
    (at : tx.key_index ≡ some index) where
  -- A key index beyond the slots of a stored process stops the node while a transaction of an oracle is
  -- checked or delivered, when the process has not started, is ready or paused, and is encrypted or
  -- anonymous. The slots are 16, and the index 16 is beyond them.
  pub add_keys_panics :
      (commit : Bool)
      → is_none signature ≡ false
      → is_none tx_bytes ≡ false
      → signer env tx_bytes signature s ≡ (ok addr, s)
      → oracle_check env (content tx_bytes) signature s ≡ (ok tt, s)
      → (et.encrypted_votes || et.anonymous) ≡ true
      → (p.status ≡ ready) ⊎ (p.status ≡ paused)
      → s.current_height ≤ p.start_block
      → length p.encryption_public_keys ≤ index
      → add_tx env tx_bytes signature (tx_admin tx) commit s ≡ (err panic, s)
  unfolding add_tx add_admin admin_tx_check admin_type_check admin_keys_check
  add_keys_panics commit signature_set bytes_set from by_oracle secret alive early outside =
      let stops = add_keys_check_panics p tx s at alive early outside in
      rw (typed) (ground (arith, stops, by_oracle, found))
