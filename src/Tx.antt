-- ===== src/Tx.antt =====
-- The transactions of go.vocdoni.io/proto (`models.Tx`), with the fields that vochain/account.go,
-- vochain/process.go and vochain/transaction.go read.
use vocdoni.Base.{Bytes, Option, Slice, ℕ}
use vocdoni.Models.{FaucetPackage, Process, ProcessResult, ProcessStatus, TxType}
use vocdoni.Models.Proofs.{RegisterKeyTx, VoteEnvelope}

pub record SendTokensTx : Type 0 where
  pub nonce : ℕ
  pub from : Slice
  pub to : Slice
  pub value : ℕ

pub record MintTokensTx : Type 0 where
  pub nonce : ℕ
  pub to : Bytes
  pub value : ℕ

pub record SetTransactionCostsTx : Type 0 where
  pub txtype : TxType
  pub nonce : ℕ
  pub value : ℕ

pub record SetAccountInfoTx : Type 0 where
  pub nonce : ℕ
  pub info_uri : Bytes
  pub account : Bytes
  pub faucet_package : Option FaucetPackage

pub record SetAccountDelegateTx : Type 0 where
  pub txtype : TxType
  pub nonce : ℕ
  pub delegate : Bytes

pub record CollectFaucetTx : Type 0 where
  pub nonce : ℕ
  pub faucet_package : Option FaucetPackage

pub record AdminTx : Type 0 where
  pub txtype : TxType
  pub nonce : ℕ
  pub address : Bytes
  pub process_id : Slice
  pub key_index : Option ℕ
  pub encryption_public_key : Slice
  pub encryption_private_key : Slice

pub record NewProcessTx : Type 0 where
  pub nonce : ℕ
  pub process : Option Process

pub record SetProcessTx : Type 0 where
  pub txtype : TxType
  pub nonce : ℕ
  pub process_id : Bytes
  pub status : Option ProcessStatus
  pub results : Option ProcessResult
  pub census_root : Slice
  pub census_uri : Bytes

-- `models.Tx` by its payload; `no_payload` has none.
pub data Tx : Type 0 where
  tx_send_tokens : SendTokensTx → Tx
  tx_mint_tokens : MintTokensTx → Tx
  tx_set_transaction_costs : SetTransactionCostsTx → Tx
  tx_set_account_info : SetAccountInfoTx → Tx
  tx_set_account_delegate : SetAccountDelegateTx → Tx
  tx_collect_faucet : CollectFaucetTx → Tx
  tx_admin : AdminTx → Tx
  tx_new_process : NewProcessTx → Tx
  tx_set_process : SetProcessTx → Tx
  -- a vote, with the id of its transaction, which `VochainTx` carries beside the payload
  tx_vote : VoteEnvelope → Bytes → Tx
  tx_register_key : RegisterKeyTx → Tx
  tx_unknown : Tx
  no_payload : Tx
