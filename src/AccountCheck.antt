-- ===== src/AccountCheck.antt =====
-- vochain/account.go and vochain/transaction.go, the checks of the account transactions, in the
-- order in which the code makes them. They read the state and write nothing.
-- Each takes the message that its getter finds in the transaction, or nothing.
pub mod Sends
pub mod Reads
use vocdoni.Base.{
  Bool, Bytes, List, Option, Slice, [], add64, bytes_eq, content, false, if◌then◌else◌, is_none,
  length, ltb, none, not, replicate, some, true, ℕ, ◌==◌, ◌||◌, ◌∷◌,
}
use vocdoni.Account.{Account, Address, is_delegate}
use vocdoni.Action.{
  already_added, bad_marshal, faucet_used, from_mismatch, invalid_address, invalid_from,
  invalid_nonce, invalid_to, invalid_tx_type, invalid_uri, invalid_value, issuer_balance,
  issuer_not_exist, lift, missing_field, missing_signature, not_added, not_delegate,
  not_enough_balance, not_treasurer, or_raise, panic, payload_nil, pure, raise, raise_if,
  self_delegate, to_mismatch, ◌>>=◌, ◌>>◌,
}
use vocdoni.Crypto.{
  Env, addr_from_public_key, addr_from_signature, pub_key_from_signature, zero_address,
}
use vocdoni.Ledger.{faucet_key}
use vocdoni.Models.{
  FaucetPackage, FaucetPayload, TxType, add_delegate_for_account_type, collect_faucet_type,
  del_delegate_for_account_type, send_tokens_type, set_account_info_type,
}
use vocdoni.State.{Run, get_account, need_account}
use vocdoni.State.Extra.{treasurer, tx_cost, tx_type_cost_to_state_key}
use vocdoni.State.Faucet.{faucet_nonce}
use vocdoni.Tx.{
  CollectFaucetTx, MintTokensTx, SendTokensTx, SetAccountDelegateTx, SetAccountInfoTx,
  SetTransactionCostsTx,
}

-- `AccountFromSignature`
unfoldable pub account_from_signature : Env → Bytes → Slice → Run (Address × Account)
account_from_signature env message signature = do
  key ← lift (pub_key_from_signature env message signature)
  address ← lift (addr_from_public_key env key)
  raise_if (address == zero_address) invalid_address
  acc ← need_account address
  pure (address, acc)

-- `setAccountInfoTxCheckValues`: whose URI is set, who sent the transaction, and, where a new
-- account is created from a package, who issued that.
pub record InfoValues : Type 0 where
  pub account : Address
  pub tx_sender : Address
  pub create_account : Bool
  pub faucet_signer : Option Address

module _ (env : Env) (tx_bytes signature : Slice) where
  -- `signature == nil || tx == nil || txBytes == nil`
  abbrev pub signed : {A : Type 0} → Option A → Run A
  signed tx = do
    raise_if (is_none signature || is_none tx || is_none tx_bytes) missing_signature
    or_raise tx missing_signature

  -- The address that signed the transaction, recovered in two steps.
  abbrev pub signer : Run Address
  signer = do
    key ← lift (pub_key_from_signature env (content tx_bytes) signature)
    lift (addr_from_public_key env key)

  -- `MintTokensTxCheck`: the receiver and the amount.
  unfoldable pub mint_tokens_tx_check : Option MintTokensTx → Run (Address × ℕ)
  mint_tokens_tx_check vtx = do
    tx ← signed vtx
    raise_if (tx.value == 0) invalid_value
    raise_if (not (length tx.to == 20) || bytes_eq tx.to (replicate 20 0)) invalid_to
    t ← treasurer
    raise_if (not (tx.nonce == t.nonce)) invalid_nonce
    let to_addr = env.bytes_to_address tx.to
    to_acc ← need_account to_addr
    sig_address ← signer
    raise_if (not (env.bytes_to_address t.address == sig_address)) not_treasurer
    pure (to_addr, tx.value)

  -- `SendTokensTxCheck`, the checks of the message and of its signature: who sends and who receives.
  unfoldable pub send_parties : Option SendTokensTx → Run (SendTokensTx × Address × Address)
  send_parties vtx = do
    tx ← signed vtx
    raise_if (tx.value == 0) invalid_value
    raise_if (is_none tx.from) missing_field
    raise_if (bytes_eq (content tx.from) (replicate 20 0)) invalid_from
    raise_if (is_none tx.to) missing_field
    raise_if (bytes_eq (content tx.to) (replicate 20 0)) invalid_to
    sig_address ← signer
    raise_if (not (env.bytes_to_address (content tx.from) == sig_address)) from_mismatch
    pure (tx, sig_address, env.bytes_to_address (content tx.to))

  -- `SendTokensTxCheck`, the checks of the accounts.
  unfoldable pub send_accounts : SendTokensTx → Address → Address → Run (Address × Address × ℕ)
  send_accounts tx sig_address to_addr = do
    to_acc ← need_account to_addr
    acc ← need_account sig_address
    raise_if (not (tx.nonce == acc.nonce)) invalid_nonce
    cost ← tx_cost send_tokens_type
    raise_if (ltb acc.balance (add64 tx.value cost)) not_enough_balance
    pure (sig_address, to_addr, tx.value)

  -- `SendTokensTxCheck`: sender, receiver and amount.
  unfoldable pub send_tokens_tx_check : Option SendTokensTx → Run (Address × Address × ℕ)
  send_tokens_tx_check vtx = do
    (tx, sig_address, to_addr) ← send_parties vtx
    send_accounts tx sig_address to_addr

  -- `SetTransactionCostsTxCheck`: the new cost.
  unfoldable pub set_transaction_costs_tx_check : Option SetTransactionCostsTx → Run ℕ
  set_transaction_costs_tx_check vtx = do
    tx ← signed vtx
    t ← treasurer
    raise_if (not (tx.nonce == t.nonce)) invalid_nonce
    raise_if (is_none (tx_type_cost_to_state_key tx.txtype)) invalid_tx_type
    sig_address ← signer
    raise_if (not (env.bytes_to_address t.address == sig_address)) not_treasurer
    pure tx.value

  -- The search of `SetAccountDelegateTxCheck`, which compares addresses and not byte strings.
  unfoldable pub names_delegate : Address → List Bytes → Bool
  names_delegate del_acc [] = false
  names_delegate del_acc (d ∷ ds) = env.bytes_to_address d == del_acc || names_delegate del_acc ds

  -- The last step of `SetAccountDelegateTxCheck`, by the transaction's type.
  unfoldable pub delegate_tx_type_check : TxType → Account → Address → Run Unit
  delegate_tx_type_check add_delegate_for_account_type acc del_acc =
      raise_if (is_delegate (env.address_bytes del_acc) acc) already_added
  delegate_tx_type_check del_delegate_for_account_type acc del_acc =
      raise_if (not (names_delegate del_acc acc.delegate_addrs)) not_added
  delegate_tx_type_check _ acc del_acc = raise invalid_tx_type

  -- `SetAccountDelegateTxCheck`: the account and the delegate.
  unfoldable pub set_account_delegate_tx_check :
      Option SetAccountDelegateTx → Run (Address × Address)
  set_account_delegate_tx_check vtx = do
    tx ← signed vtx
    let del_acc = env.bytes_to_address tx.delegate
    raise_if (del_acc == zero_address) invalid_address
    (sig_address, acc) ← account_from_signature env (content tx_bytes) signature
    raise_if (del_acc == sig_address) self_delegate
    raise_if (not (tx.nonce == acc.nonce)) invalid_nonce
    cost ← tx_cost tx.txtype
    raise_if (ltb acc.balance cost) not_enough_balance
    delegate_tx_type_check tx.txtype acc del_acc
    pure (sig_address, del_acc)

  -- The issuer of a package: who signed its payload.
  abbrev pub payload_signer : FaucetPayload → Slice → Run Address
  payload_signer payload package_signature = do
    package_bytes ← or_raise (env.marshal_payload payload) bad_marshal
    lift (addr_from_signature env package_bytes package_signature)

  -- The checks that a package was not used and that its issuer has the funds.
  unfoldable pub issuer_check : FaucetPayload → Address → Run Unit
  issuer_check payload issuer = do
    used ← faucet_nonce env (faucet_key env issuer payload.identifier)
    raise_if used faucet_used
    issuer_acc ← or_raise (← get_account issuer) issuer_not_exist
    cost ← tx_cost collect_faucet_type
    raise_if (ltb issuer_acc.balance (add64 payload.amount cost)) issuer_balance

  -- `CollectFaucetTxCheck`: the issuer.
  unfoldable pub collect_faucet_tx_check : Option CollectFaucetTx → Run Address
  collect_faucet_tx_check vtx = do
    tx ← signed vtx
    pkg ← or_raise tx.faucet_package missing_field
    raise_if (is_none pkg.signature) missing_field
    payload ← or_raise pkg.payload payload_nil
    raise_if (payload.amount == 0) invalid_value
    to_addr ← signer
    from_addr ← payload_signer payload pkg.signature
    issuer_check payload from_addr
    raise_if (not (bytes_eq (env.address_bytes to_addr) payload.to)) to_mismatch
    tx_sender ← need_account to_addr
    raise_if (not (tx_sender.nonce == tx.nonce)) invalid_nonce
    pure from_addr

  -- The part of `SetAccountInfoTxCheck` for a sender that has no account yet, by the package.
  unfoldable pub new_account_check : Option FaucetPackage → Address → Address → Run InfoValues
  new_account_check none account tx_sender = pure (record {
    account = account;
    tx_sender = tx_sender;
    create_account = true;
    faucet_signer = none;
  })
  new_account_check (some pkg) account tx_sender = do
    payload ← or_raise pkg.payload payload_nil
    raise_if (not (bytes_eq payload.to (env.address_bytes tx_sender))) to_mismatch
    issuer ← payload_signer payload pkg.signature
    issuer_check payload issuer
    pure (record {
      account = account;
      tx_sender = tx_sender;
      create_account = true;
      faucet_signer = some issuer;
    })

  -- The part for a sender that has an account: itself or a delegate of the account that is named.
  unfoldable pub old_account_check :
      SetAccountInfoTx → Address → Address → Option Account → Account → Run InfoValues
  old_account_check tx account tx_sender acc sender_acc = do
    allowed ←
        (if tx_sender == account
          then pure true
          else do acc' ← or_raise acc panic; pure (is_delegate (env.address_bytes tx_sender) acc'))
    raise_if (not allowed) not_delegate
    raise_if (not (tx.nonce == sender_acc.nonce)) invalid_nonce
    cost ← tx_cost set_account_info_type
    raise_if (ltb sender_acc.balance cost) not_enough_balance
    pure (record {
      account = account;
      tx_sender = tx_sender;
      create_account = false;
      faucet_signer = none;
    })

  -- The two parts, by whether the sender has an account.
  unfoldable pub by_sender :
      Option Account → SetAccountInfoTx → Address → Address → Option Account → Run InfoValues
  by_sender none tx account tx_sender acc = new_account_check tx.faucet_package account tx_sender
  by_sender (some found) tx account tx_sender acc = old_account_check tx account tx_sender acc found

  -- `SetAccountInfoTxCheck`
  unfoldable pub set_account_info_tx_check : Option SetAccountInfoTx → Run InfoValues
  set_account_info_tx_check vtx = do
    tx ← signed vtx
    raise_if (length tx.info_uri == 0) invalid_uri
    tx_sender ← signer
    sender_acc ← get_account tx_sender
    acc ← get_account (env.bytes_to_address tx.account)
    let account = if is_none acc then tx_sender else env.bytes_to_address tx.account
    by_sender sender_acc tx account tx_sender acc
