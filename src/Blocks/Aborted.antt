-- ===== src/Blocks/Aborted.antt =====
-- What `CheckTx` leaves, and what is only in memory.
use vocdoni.Base.{Bool, Bytes, Option-cases, [], ap, false, inl, inr, refl, true, ◌≡◌}
use vocdoni.AddTx.CheckOnly.{add_tx_check_only}
use vocdoni.Blocks.{App, Chain, check_tx}
use vocdoni.Crypto.{Env}
use vocdoni.State.{State}

module _ (env : Env) (chain : Chain) where
  -- What the trees of a state hold, without what is only in memory.
  unfoldable pub trees : State → State
  trees s = record s {
    current_height = 0;
    tx_counter = 0;
    events = [];
    vote_cache = [];
    cache_disabled = false;
  }

  -- `CheckTx` leaves the application as it was but for the vote cache, whatever it answers.
  pub check_tx_changes :
      (recheck : Bool) (raw : Bytes) (app : App)
      → let after = (check_tx env chain recheck raw app).1 in
        record after { state = record after.state { vote_cache = app.state.vote_cache } } ≡ app
  unfolding check_tx
  check_tx_changes true raw app = refl
  check_tx_changes false raw app = elim (Option-cases (chain.unmarshal raw)) [
    | inl unread ↦ rw (check_tx, unread) refl
    | inr (call, read) ↦
        rw (check_tx, read)
          (ap (λ (s : State). record app { state = s })
            (add_tx_check_only env call.tx_bytes call.signature call.tx app.state))
  ]
