-- ===== src/AddTx.antt =====
-- vochain/transaction.go, `AddTx`: the check of a transaction and, on commit, its effect. The
-- result is the data of the response.
pub mod Tokens
pub mod CheckOnly
pub mod Voting
pub mod Slots
pub mod Mint
pub mod Costs
pub mod Ballots
use vocdoni.Base.{Bool, Bytes, Slice, [], content, if◌then◌else◌, none, some, true}
use vocdoni.Account.{Address}
use vocdoni.AccountCheck.{
  InfoValues, collect_faucet_tx_check, mint_tokens_tx_check, send_tokens_tx_check,
  set_account_delegate_tx_check, set_account_info_tx_check, set_transaction_costs_tx_check,
}
use vocdoni.Action.{
  bad_proof, invalid_tx_type, missing_field, nil_tx, or_raise, panic, pure, raise, raise_if,
  wrong_status, ◌>>=◌, ◌>>◌,
}
use vocdoni.Crypto.{Env}
use vocdoni.Keys.{add_process_keys_commit, reveal_process_keys_commit}
use vocdoni.Ledger.{
  consume_faucet_payload, create_account, increment_account_process_index, mint_balance,
  set_account_delegate, set_account_info_uri, subtract_cost_increment_nonce, transfer_balance,
}
use vocdoni.Models.{
  TxType, add_delegate_for_account_type, add_oracle_type, add_process_keys_type,
  collect_faucet_type, del_delegate_for_account_type, new_process_type, process_unknown,
  remove_oracle_type, results, reveal_process_keys_type, send_tokens_type, set_account_info_type,
  set_process_census_type, set_process_results_type, set_process_status_type,
}
use vocdoni.Models.Proofs.{RegisterKeyTx, VoteEnvelope}
use vocdoni.ProcessCheck.{
  admin_tx_check, new_process_tx_check, set_process_tx_check, status_or_unknown,
}
use vocdoni.Processes.{
  add_process, set_process_census, set_process_results, set_process_status, status_eq,
}
use vocdoni.RollingCensus.{add_to_rolling_census, register_key_tx_check}
use vocdoni.State.{Run}
use vocdoni.State.Extra.{increment_treasurer_nonce, set_tx_cost}
use vocdoni.State.Oracles.{add_oracle, remove_oracle}
use vocdoni.Tx.{
  AdminTx, CollectFaucetTx, MintTokensTx, NewProcessTx, SendTokensTx, SetAccountDelegateTx,
  SetAccountInfoTx, SetProcessTx, SetTransactionCostsTx, Tx, no_payload, tx_admin,
  tx_collect_faucet, tx_mint_tokens, tx_new_process, tx_register_key, tx_send_tokens,
  tx_set_account_delegate, tx_set_account_info, tx_set_process, tx_set_transaction_costs,
  tx_unknown, tx_vote,
}
use vocdoni.VoteCheck.{vote_envelope_check}
use vocdoni.Votes.{add_vote}

module _ (env : Env) (tx_bytes signature : Slice) where
  unfoldable pub add_vote_tx : VoteEnvelope → Bytes → Bool → Run Bytes
  add_vote_tx ve tx_id commit = do
    (vote, voter_id) ← vote_envelope_check env ve tx_bytes signature tx_id commit
    if commit then add_vote env vote voter_id >> pure vote.nullifier else pure vote.nullifier

  unfoldable pub add_register_key : RegisterKeyTx → Bool → Run Bytes
  add_register_key tx commit = do
    register_key_tx_check env tx tx_bytes signature commit
    let effect = (do
      weight ← or_raise (env.set_string tx.weight) bad_proof
      add_to_rolling_census env tx.process_id tx.new_key weight)
    if commit then effect >> pure [] else pure []

  add_send_tokens : SendTokensTx → Bool → Run Bytes
  add_send_tokens tx commit = do
    (from, to, amount) ← send_tokens_tx_check env tx_bytes signature (some tx)
    let effect =
        transfer_balance from to amount >> subtract_cost_increment_nonce from send_tokens_type
    if commit then effect >> pure [] else pure []

  add_mint_tokens : MintTokensTx → Bool → Run Bytes
  add_mint_tokens tx commit = do
    (address, amount) ← mint_tokens_tx_check env tx_bytes signature (some tx)
    let effect = mint_balance address amount >> increment_treasurer_nonce
    if commit then effect >> pure [] else pure []

  add_set_transaction_costs : SetTransactionCostsTx → Bool → Run Bytes
  add_set_transaction_costs tx commit = do
    cost ← set_transaction_costs_tx_check env tx_bytes signature (some tx)
    let effect = set_tx_cost tx.txtype cost >> increment_treasurer_nonce
    if commit then effect >> pure [] else pure []

  -- The effect of a `SetAccountInfo` transaction that passed its check.
  info_effect : SetAccountInfoTx → InfoValues → Run Unit
  info_effect tx v =
      if v.create_account
      then (do
        create_account env v.tx_sender tx.info_uri [] 0
        elim v.faucet_signer [
          | none ↦ pure tt
          | some issuer ↦ do
            pkg ← or_raise tx.faucet_package panic
            consume_faucet_payload env issuer pkg.payload set_account_info_type
        ])
      else (do
        set_account_info_uri v.account tx.info_uri
        subtract_cost_increment_nonce v.tx_sender set_account_info_type)

  add_set_account_info : SetAccountInfoTx → Bool → Run Bytes
  unfolding info_effect
  add_set_account_info tx commit = do
    v ← set_account_info_tx_check env tx_bytes signature (some tx)
    if commit then info_effect tx v >> pure [] else pure []

  -- The effect of a `SetAccountDelegate` transaction, by its type.
  delegate_effect : TxType → Address → Address → Run Unit
  delegate_effect add_delegate_for_account_type from delegate =
      set_account_delegate env from delegate add_delegate_for_account_type
      >> subtract_cost_increment_nonce from add_delegate_for_account_type
  delegate_effect del_delegate_for_account_type from delegate =
      set_account_delegate env from delegate del_delegate_for_account_type
      >> subtract_cost_increment_nonce from del_delegate_for_account_type
  delegate_effect _ from delegate = raise invalid_tx_type

  add_set_account_delegate : SetAccountDelegateTx → Bool → Run Bytes
  unfolding delegate_effect
  add_set_account_delegate tx commit = do
    (from, delegate) ← set_account_delegate_tx_check env tx_bytes signature (some tx)
    if commit then delegate_effect tx.txtype from delegate >> pure [] else pure []

  add_collect_faucet : CollectFaucetTx → Bool → Run Bytes
  add_collect_faucet tx commit = do
    issuer ← collect_faucet_tx_check env tx_bytes signature (some tx)
    pkg ← or_raise tx.faucet_package panic
    let effect =
        consume_faucet_payload env issuer pkg.payload collect_faucet_type
        >> subtract_cost_increment_nonce issuer collect_faucet_type
    if commit then effect >> pure [] else pure []

  -- The effect of an `Admin` transaction, by its type.
  admin_effect : AdminTx → TxType → Run Unit
  admin_effect tx add_oracle_type =
      add_oracle (env.bytes_to_address tx.address) >> increment_treasurer_nonce
  admin_effect tx remove_oracle_type =
      remove_oracle (env.bytes_to_address tx.address) >> increment_treasurer_nonce
  admin_effect tx add_process_keys_type = add_process_keys_commit tx
  admin_effect tx reveal_process_keys_type = reveal_process_keys_commit tx
  admin_effect tx _ = raise invalid_tx_type

  add_admin : AdminTx → Bool → Run Bytes
  unfolding admin_effect
  add_admin tx commit = do
    admin_tx_check env tx_bytes signature (some tx)
    if commit then admin_effect tx tx.txtype >> pure [] else pure []

  add_new_process : NewProcessTx → Bool → Run Bytes
  add_new_process tx commit = do
    (p, sender) ← new_process_tx_check env tx_bytes signature (some tx)
    let effect =
        add_process p
        >> increment_account_process_index sender
        >> subtract_cost_increment_nonce sender new_process_type
    if commit then effect >> pure (content p.process_id) else pure (content p.process_id)

  -- The effect of a `SetProcess` transaction, by its type.
  set_process_effect : SetProcessTx → TxType → Run Unit
  unfolding status_eq status_or_unknown
  set_process_effect tx set_process_status_type = do
    let st = status_or_unknown tx
    raise_if (status_eq st process_unknown) wrong_status
    set_process_status tx.process_id st true
  set_process_effect tx set_process_results_type = do
    r ← or_raise tx.results missing_field
    set_process_results env tx.process_id r true
  set_process_effect tx set_process_census_type = do
    root ← or_raise tx.census_root missing_field
    set_process_census tx.process_id root tx.census_uri true
  set_process_effect tx _ = raise invalid_tx_type

  add_set_process : SetProcessTx → Bool → Run Bytes
  unfolding set_process_effect
  add_set_process tx commit = do
    sender ← set_process_tx_check env tx_bytes signature (some tx)
    let effect = set_process_effect tx tx.txtype >> subtract_cost_increment_nonce sender tx.txtype
    if commit then effect >> pure [] else pure []

  -- `AddTx`
  unfoldable pub add_tx : Tx → Bool → Run Bytes
  unfolding add_send_tokens add_mint_tokens add_set_transaction_costs add_set_account_info
      add_set_account_delegate add_collect_faucet add_admin add_new_process add_set_process
      add_vote_tx add_register_key
  add_tx (tx_vote ve tx_id) commit = add_vote_tx ve tx_id commit
  add_tx (tx_register_key tx) commit = add_register_key tx commit
  add_tx (tx_send_tokens tx) commit = add_send_tokens tx commit
  add_tx (tx_mint_tokens tx) commit = add_mint_tokens tx commit
  add_tx (tx_set_transaction_costs tx) commit = add_set_transaction_costs tx commit
  add_tx (tx_set_account_info tx) commit = add_set_account_info tx commit
  add_tx (tx_set_account_delegate tx) commit = add_set_account_delegate tx commit
  add_tx (tx_collect_faucet tx) commit = add_collect_faucet tx commit
  add_tx (tx_admin tx) commit = add_admin tx commit
  add_tx (tx_new_process tx) commit = add_new_process tx commit
  add_tx (tx_set_process tx) commit = add_set_process tx commit
  add_tx tx_unknown commit = raise invalid_tx_type
  add_tx no_payload commit = raise nil_tx
