-- ===== src/AddTx/Costs.antt =====
-- `AddTx` of the treasurer's changes of transaction costs (vochain/transaction.go).
use vocdoni.Base.{
  Bool, Option-cases, Slice, [], add32, arith, eq_iff, inl, inr, refl, some, str_eq, true, u32_mod,
  ℕ, ◌<◌, ◌≡◌,
}
use vocdoni.AccountCheck.{set_transaction_costs_tx_check, signer}
use vocdoni.Action.{err, invalid_nonce, ok}
use vocdoni.AddTx.{add_set_transaction_costs, add_tx}
use vocdoni.Crypto.{Env}
use vocdoni.Models.{Treasurer}
use vocdoni.State.{State}
use vocdoni.State.Extra.{
  increment_treasurer_nonce, set_tx_cost, treasurer, tx_cost, tx_type_cost_to_state_key,
}
use vocdoni.Tx.{SetTransactionCostsTx, tx_set_transaction_costs}

module _ (env : Env) (tx_bytes signature : Slice) (tx : SetTransactionCostsTx) {cost : ℕ}
    {t : Treasurer} (s : State)
    (checked : set_transaction_costs_tx_check env tx_bytes signature (some tx) s ≡ (ok cost, s))
    (et : s.treasurer ≡ some t) where
  -- Costs are changed only by a message that the treasurer signed, under the treasurer's nonce.
  pub costs_access :
      (signer env tx_bytes signature s ≡ (ok (env.bytes_to_address t.address), s))
      × (tx.nonce ≡ t.nonce)
      × (tx.value ≡ cost)
  unfolding set_transaction_costs_tx_check treasurer
  costs_access = ground arith

  -- A change of a cost that passed its check is committed: the cost of that type is the new one
  -- from then on, and accounts and treasurer's address stay.
  pub costs_commit :
      let (r, s') = add_tx env tx_bytes signature (tx_set_transaction_costs tx) true s in
      (r ≡ ok [])
      × (tx_cost tx.txtype s' ≡ (ok cost, s'))
      × (s'.accounts ≡ s.accounts)
      × (s'.treasurer ≡ some (record t { nonce = add32 t.nonce 1 }))
  unfolding add_tx add_set_transaction_costs set_tx_cost increment_treasurer_nonce treasurer tx_cost
      set_transaction_costs_tx_check
  costs_commit = elim (Option-cases (tx_type_cost_to_state_key tx.txtype)) [
    | inl e ↦ ground arith
    | inr (key, e) ↦ let same : str_eq key key ≡ true = (eq_iff key key).1 refl in ground arith
  ]

  -- Once committed, the same change is refused for its nonce.
  pub costs_replay :
      (commit : Bool)
      → t.nonce < u32_mod
      → (add_tx env tx_bytes signature
          (tx_set_transaction_costs tx)
          commit
          (add_tx env tx_bytes signature (tx_set_transaction_costs tx) true s).1).0
        ≡ err invalid_nonce
  unfolding add_tx add_set_transaction_costs set_tx_cost increment_treasurer_nonce treasurer
      set_transaction_costs_tx_check
  costs_replay commit small = ground arith
