-- ===== src/AddTx/CheckOnly.antt =====
-- `AddTx` without commit, as `CheckTx` calls it (vochain/app.go).
use vocdoni.Base.{Bytes, Slice, false, refl, sym, ◌≡◌}
use vocdoni.AccountCheck.Reads.{
  collect_faucet_tx_check-Reads, mint_tokens_tx_check-Reads, send_tokens_tx_check-Reads,
  set_account_delegate_tx_check-Reads, set_account_info_tx_check-Reads,
  set_transaction_costs_tx_check-Reads,
}
use vocdoni.Action.Preserve.{Preserves, preserve_rules}
use vocdoni.AddTx.{
  add_admin, add_collect_faucet, add_mint_tokens, add_new_process, add_register_key,
  add_send_tokens, add_set_account_delegate, add_set_account_info, add_set_process,
  add_set_transaction_costs, add_tx, add_vote_tx,
}
use vocdoni.Crypto.{Env}
use vocdoni.Models.Proofs.{VoteEnvelope}
use vocdoni.ProcessCheck.Reads.{
  admin_tx_check-Reads, new_process_tx_check-Reads, set_process_tx_check-Reads,
}
use vocdoni.RollingCensus.Reads.{register_key_tx_check-Preserves}
use vocdoni.State.{Run, State}
use vocdoni.Tx.{Tx, tx_send_tokens, tx_vote}
use vocdoni.VoteCheck.Reads.{Uncached, vote_envelope_check-Uncached}
use mathlib.Core.Path.{subst}

ruleset checks = (
  preserve_rules, send_tokens_tx_check-Reads, mint_tokens_tx_check-Reads,
  set_transaction_costs_tx_check-Reads, set_account_info_tx_check-Reads,
  set_account_delegate_tx_check-Reads, collect_faucet_tx_check-Reads, admin_tx_check-Reads,
  new_process_tx_check-Reads, set_process_tx_check-Reads, register_key_tx_check-Preserves,
)

-- What leaves the state as it was leaves all of it but the vote cache.
Reads-Uncached :
    {A : Type 0} (call : Run A) (s : State)
    → ((u : State) → Preserves (λ v. v ≡ u) call)
    → Preserves (Uncached s) call
Reads-Uncached call s reads = record {
  run = λ u h. subst (Uncached s) (sym ((reads u).run u refl)) h;
}

module _ (env : Env) (tx_bytes signature : Slice) where
  add_vote_tx-Uncached :
      (ve : VoteEnvelope) (id : Bytes) (s : State)
      → Preserves (Uncached s) (add_tx env tx_bytes signature (tx_vote ve id) false)
  unfolding add_tx add_vote_tx
  add_vote_tx-Uncached ve id s = search (preserve_rules, vote_envelope_check-Uncached) depth 20

  add_tx-Uncached :
      (tx : Tx) (s : State) → Preserves (Uncached s) (add_tx env tx_bytes signature tx false)
  unfolding add_tx add_send_tokens add_mint_tokens add_set_transaction_costs add_set_account_info
      add_set_account_delegate add_collect_faucet add_admin add_new_process add_set_process
      add_register_key
  add_tx-Uncached (tx_vote ve id) s = add_vote_tx-Uncached ve id s
  add_tx-Uncached (tx_send_tokens tx) s =
      Reads-Uncached (add_send_tokens env tx_bytes signature tx false) s
        (λ u. search checks depth 20)
  add_tx-Uncached _ s = Reads-Uncached _ s (λ u. search checks depth 20)

  -- A transaction that is only checked leaves the state as it was but for the vote cache, which no
  -- block depends on, whatever its type and whether it is accepted or refused.
  pub add_tx_check_only :
      (tx : Tx) (s : State)
      → record (add_tx env tx_bytes signature tx false s).1 { vote_cache = s.vote_cache } ≡ s
  add_tx_check_only tx s = (add_tx-Uncached tx s).run s refl
