-- ===== src/State/Extra.antt =====
-- vochain/state.go, the Extra subtree: the costs of transactions and the treasurer.
use vocdoni.Base.{
  Bool, Bytes, Option, String, add32, arith, bytes_eq, if◌then◌else◌, none, not, some, str_eq, ℕ,
  ◌==◌, ◌≡◌,
}
use vocdoni.Account.{Address}
use vocdoni.Action.{
  account_nonce_invalid, cost_not_found, gets, modify, no_cost_key, ok, or_raise, pure, raise_if,
  recast, treasurer_not_found, unauthorized, ◌>>=◌, ◌>>◌,
}
use vocdoni.Crypto.{Env}
use vocdoni.Models.{
  Treasurer, TxType, add_delegate_for_account_type, collect_faucet_type,
  del_delegate_for_account_type, new_process_type, register_voter_key_type, send_tokens_type,
  set_account_info_type, set_process_census_type, set_process_question_index_type,
  set_process_results_type, set_process_status_type,
}
use vocdoni.State.{Run, State}

-- `TxTypeCostToStateKey`
unfoldable pub tx_type_cost_to_state_key : TxType → Option String
tx_type_cost_to_state_key set_process_status_type = some "c_setProcessStatus"
tx_type_cost_to_state_key set_process_census_type = some "c_setProcessCensus"
tx_type_cost_to_state_key set_process_question_index_type = some "c_setProcessResults"
tx_type_cost_to_state_key set_process_results_type = some "c_setProcessQuestionIndex"
tx_type_cost_to_state_key register_voter_key_type = some "c_registerKey"
tx_type_cost_to_state_key new_process_type = some "c_newProcess"
tx_type_cost_to_state_key send_tokens_type = some "c_sendTokens"
tx_type_cost_to_state_key set_account_info_type = some "c_setAccountInfo"
tx_type_cost_to_state_key add_delegate_for_account_type = some "c_addDelegateForAccount"
tx_type_cost_to_state_key del_delegate_for_account_type = some "c_delDelegateForAccount"
tx_type_cost_to_state_key collect_faucet_type = some "c_collectFaucet"
tx_type_cost_to_state_key _ = none

-- `TxCost`
unfoldable pub tx_cost : TxType → Run ℕ
tx_cost t = do
  key ← or_raise (tx_type_cost_to_state_key t) no_cost_key
  or_raise (← gets (λ s. s.costs key)) cost_not_found

-- `SetTxCost`
unfoldable pub set_tx_cost : TxType → ℕ → Run Unit
set_tx_cost t cost = do
  key ← or_raise (tx_type_cost_to_state_key t) no_cost_key
  modify (λ s. record s { costs = λ k. if str_eq k key then some cost else s.costs k })

-- `Treasurer`
unfoldable pub treasurer : Run Treasurer
treasurer = do or_raise (← gets (λ s. s.treasurer)) treasurer_not_found

-- `SetTreasurer`
unfoldable pub set_treasurer : Bytes → ℕ → Run Unit
set_treasurer address nonce =
    modify (λ s. record s { treasurer = some (record { address = address; nonce = nonce }) })

-- `IncrementTreasurerNonce`; the nonce is a `uint32`.
unfoldable pub increment_treasurer_nonce : Run Unit
unfolding treasurer
increment_treasurer_nonce = do
  t ← treasurer
  modify (λ s. record s { treasurer = some (record t { nonce = add32 t.nonce 1 }) })

module _ (env : Env) where
  -- `IsTreasurer`
  unfoldable pub is_treasurer : Address → Run Bool
  unfolding treasurer
  is_treasurer addr = do t ← treasurer; pure (addr == env.bytes_to_address t.address)

  -- `VerifyTreasurer`
  unfoldable pub verify_treasurer : Address → ℕ → Run Unit
  unfolding treasurer
  verify_treasurer addr tx_nonce = do
    t ← recast unauthorized treasurer
    raise_if (not (bytes_eq (env.address_bytes addr) t.address)) unauthorized
    raise_if (not (t.nonce == tx_nonce)) account_nonce_invalid

-- A cost is read from the costs alone.
pub tx_cost_same :
    (t : TxType) {cost : ℕ} (s u : State)
    → tx_cost t s ≡ (ok cost, s)
    → u.costs ≡ s.costs
    → tx_cost t u ≡ (ok cost, u)
unfolding tx_cost
tx_cost_same t s u h e = ground arith
