-- ===== src/AccountCheck/Reads.antt =====
-- The checks of the account transactions (vochain/account.go) write nothing.
use vocdoni.Base.{Bytes, Option, Slice, none, some}
use vocdoni.Account.{Account, Address}
use vocdoni.AccountCheck.{
  account_from_signature, by_sender, collect_faucet_tx_check, delegate_tx_type_check, issuer_check,
  mint_tokens_tx_check, new_account_check, old_account_check, send_accounts, send_parties,
  send_tokens_tx_check, set_account_delegate_tx_check, set_account_info_tx_check,
  set_transaction_costs_tx_check,
}
use vocdoni.Action.Preserve.{preserve_rules}
use vocdoni.Crypto.{Env}
use vocdoni.Models.{FaucetPackage, FaucetPayload, TxType, add_delegate_for_account_type}
use vocdoni.State.{Reads}
use vocdoni.State.Extra.{treasurer, tx_cost}
use vocdoni.State.Faucet.{faucet_nonce}
use vocdoni.Tx.{
  CollectFaucetTx, MintTokensTx, SendTokensTx, SetAccountDelegateTx, SetAccountInfoTx,
  SetTransactionCostsTx,
}

pub account_from_signature-Reads :
    (env : Env) (b : Bytes) (signature : Slice) → Reads (account_from_signature env b signature)
unfolding account_from_signature
account_from_signature-Reads env b signature s = search preserve_rules depth 20

module _ (env : Env) (tx_bytes signature : Slice) where
  pub send_tokens_tx_check-Reads :
      (tx : Option SendTokensTx) → Reads (send_tokens_tx_check env tx_bytes signature tx)
  unfolding send_tokens_tx_check send_parties send_accounts tx_cost
  send_tokens_tx_check-Reads tx s = search preserve_rules depth 40

  pub mint_tokens_tx_check-Reads :
      (tx : Option MintTokensTx) → Reads (mint_tokens_tx_check env tx_bytes signature tx)
  unfolding mint_tokens_tx_check treasurer
  mint_tokens_tx_check-Reads tx s = search preserve_rules depth 40

  pub set_transaction_costs_tx_check-Reads :
      (tx : Option SetTransactionCostsTx)
      → Reads (set_transaction_costs_tx_check env tx_bytes signature tx)
  unfolding set_transaction_costs_tx_check treasurer
  set_transaction_costs_tx_check-Reads tx s = search preserve_rules depth 40

  pub issuer_check-Reads :
      (payload : FaucetPayload) (issuer : Address)
      → Reads (issuer_check env tx_bytes signature payload issuer)
  unfolding issuer_check faucet_nonce tx_cost
  issuer_check-Reads payload issuer s = search preserve_rules depth 60

  pub collect_faucet_tx_check-Reads :
      (tx : Option CollectFaucetTx) → Reads (collect_faucet_tx_check env tx_bytes signature tx)
  unfolding collect_faucet_tx_check
  collect_faucet_tx_check-Reads tx s = search (preserve_rules, issuer_check-Reads) depth 60

  pub delegate_tx_type_check-Reads :
      (t : TxType) (acc : Account) (d : Address)
      → Reads (delegate_tx_type_check env tx_bytes signature t acc d)
  unfolding delegate_tx_type_check
  delegate_tx_type_check-Reads add_delegate_for_account_type acc d s = search preserve_rules
  delegate_tx_type_check-Reads _ acc d s = search preserve_rules

  pub set_account_delegate_tx_check-Reads :
      (tx : Option SetAccountDelegateTx)
      → Reads (set_account_delegate_tx_check env tx_bytes signature tx)
  unfolding set_account_delegate_tx_check tx_cost
  set_account_delegate_tx_check-Reads tx s =
      search (preserve_rules, delegate_tx_type_check-Reads, account_from_signature-Reads) depth 60

  pub new_account_check-Reads :
      (pkg : Option FaucetPackage) (account sender : Address)
      → Reads (new_account_check env tx_bytes signature pkg account sender)
  unfolding new_account_check
  new_account_check-Reads none account sender s = search preserve_rules
  new_account_check-Reads (some pkg) account sender s =
      search (preserve_rules, issuer_check-Reads) depth 60

  pub old_account_check-Reads :
      (tx : SetAccountInfoTx) (account sender : Address) (acc : Option Account) (found : Account)
      → Reads (old_account_check env tx_bytes signature tx account sender acc found)
  unfolding old_account_check tx_cost
  old_account_check-Reads tx account sender acc found s = search preserve_rules depth 60

  pub by_sender-Reads :
      (found : Option Account) (tx : SetAccountInfoTx) (account sender : Address)
      (acc : Option Account)
      → Reads (by_sender env tx_bytes signature found tx account sender acc)
  unfolding by_sender
  by_sender-Reads none tx account sender acc s =
      new_account_check-Reads tx.faucet_package account sender s
  by_sender-Reads (some found) tx account sender acc s =
      old_account_check-Reads tx account sender acc found s

  pub set_account_info_tx_check-Reads :
      (tx : Option SetAccountInfoTx) → Reads (set_account_info_tx_check env tx_bytes signature tx)
  unfolding set_account_info_tx_check
  set_account_info_tx_check-Reads tx s = search (preserve_rules, by_sender-Reads) depth 60
