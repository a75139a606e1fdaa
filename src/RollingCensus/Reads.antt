-- ===== src/RollingCensus/Reads.antt =====
-- `RegisterKeyTxCheck` without commit (vochain/census.go) touches no state.
use vocdoni.Base.{Bytes, Slice, false, ℕ}
use vocdoni.Account.{Address}
use vocdoni.Action.Preserve.{Preserves, preserve_rules}
use vocdoni.CensusProof.Reads.{verify_proof-Preserves}
use vocdoni.Crypto.{Env}
use vocdoni.Models.{Process}
use vocdoni.Models.Proofs.{RegisterKeyTx}
use vocdoni.Processes.{process}
use vocdoni.RollingCensus.{
  get_rolling_census_size, get_used_weight, need_census_root, register_key_tx_check,
  register_time_check, weight_check,
}
use vocdoni.State.{State}

module _ {P : State → Type 0} (env : Env) where
  pub need_census_root-Preserves : (pid : Bytes) → Preserves P (need_census_root env pid)
  unfolding need_census_root process
  need_census_root-Preserves pid = search preserve_rules depth 20

  get_rolling_census_size-Preserves : (pid : Bytes) → Preserves P (get_rolling_census_size env pid)
  unfolding get_rolling_census_size
  get_rolling_census_size-Preserves pid =
      search (preserve_rules, need_census_root-Preserves) depth 20

  pub get_used_weight-Preserves :
      (p : Process) (addr : Address) → Preserves P (get_used_weight env p addr)
  unfolding get_used_weight
  get_used_weight-Preserves p addr = search preserve_rules depth 20

  pub register_time_check-Preserves :
      (tx : RegisterKeyTx) (p : Process) (signature : Slice)
      → Preserves P (register_time_check env tx p signature)
  unfolding register_time_check
  register_time_check-Preserves tx p signature =
      search (preserve_rules, get_rolling_census_size-Preserves) depth 40

  weight_check-Preserves :
      (tx : RegisterKeyTx) (used weight : ℕ) → Preserves P (weight_check env tx used weight)
  unfolding weight_check
  weight_check-Preserves tx used weight = search preserve_rules depth 20

  pub register_key_tx_check-Preserves :
      (tx : RegisterKeyTx) (tx_bytes signature : Slice)
      → Preserves P (register_key_tx_check env tx tx_bytes signature false)
  unfolding register_key_tx_check process
  register_key_tx_check-Preserves tx tx_bytes signature =
      search
        (
          preserve_rules, register_time_check-Preserves, weight_check-Preserves,
          get_used_weight-Preserves, verify_proof-Preserves,
        )
        depth 60
