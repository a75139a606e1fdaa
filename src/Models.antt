-- ===== src/Models.antt =====
-- The messages of go.vocdoni.io/proto that the state keeps, with the fields that the code reads.
-- A pointer or an optional field that may be nil is an `Option`; texts are byte strings.
pub mod Proofs
use vocdoni.Base.{Bool, Bytes, List, Option, Slice, [], none, ℕ}

-- `models.TxType`; `tx_other` stands for every value that the code does not name.
pub data TxType : Type 0 where
  set_process_status_type set_process_census_type : TxType
  set_process_question_index_type set_process_results_type : TxType
  register_voter_key_type new_process_type send_tokens_type set_account_info_type : TxType
  add_delegate_for_account_type del_delegate_for_account_type collect_faucet_type : TxType
  add_oracle_type remove_oracle_type add_process_keys_type reveal_process_keys_type : TxType
  tx_other : ℕ → TxType

pub record Treasurer : Type 0 where
  pub address : Bytes
  pub nonce : ℕ

pub record FaucetPayload : Type 0 where
  pub identifier : ℕ
  pub to : Bytes
  pub amount : ℕ

pub record FaucetPackage : Type 0 where
  pub payload : Option FaucetPayload
  pub signature : Slice

-- `models.ProcessStatus`; `status_other` stands for a number that names none.
pub data ProcessStatus : Type 0 where
  process_unknown ready ended canceled paused results : ProcessStatus
  status_other : ℕ → ProcessStatus

-- `models.CensusOrigin`; `origin_other` stands for a number that the code does not name.
pub data CensusOrigin : Type 0 where
  off_chain_tree off_chain_tree_weighted erc20 mini_me off_chain_ca : CensusOrigin
  origin_other : ℕ → CensusOrigin

pub record EnvelopeType : Type 0 where
  pub serial : Bool
  pub anonymous : Bool
  pub encrypted_votes : Bool
  pub unique_values : Bool
  pub cost_from_weight : Bool

pub record ProcessMode : Type 0 where
  pub interruptible : Bool
  pub dynamic_census : Bool
  pub pre_register : Bool

pub record ProcessResult : Type 0 where
  pub process_id : Bytes
  pub entity_id : Bytes
  pub oracle_address : Slice
  pub votes : List (List Bytes)

-- A nil element of a repeated field, which is read back as the empty message.
abbrev pub empty_result : ProcessResult
empty_result = record { process_id = []; entity_id = []; oracle_address = none; votes = [] }

pub record Process : Type 0 where
  pub process_id : Slice
  pub entity_id : Bytes
  pub start_block : ℕ
  pub block_count : ℕ
  pub census_root : Bytes
  pub census_uri : Option Bytes
  pub census_origin : CensusOrigin
  pub status : ProcessStatus
  pub envelope_type : Option EnvelopeType
  pub mode : Option ProcessMode
  pub max_count : Option ℕ
  pub key_index : Option ℕ
  pub encryption_public_keys : List Bytes
  pub encryption_private_keys : List Bytes
  pub results : List ProcessResult
  pub max_census_size : Option ℕ
  pub rolling_census_root : Bytes
  pub nullifiers_root : Bytes
  pub rolling_census_size : Option ℕ
  pub eth_index_slot : Option ℕ
  pub source_block_height : Option ℕ

-- The leaf of a process in the state, `models.StateDBProcess`.
pub record StateDbProcess : Type 0 where
  pub process : Process
  pub votes_root : Bytes

pub record Vote : Type 0 where
  pub height : ℕ
  pub process_id : Bytes
  pub vote_package : Bytes
  pub nullifier : Bytes
  pub weight : Bytes
  pub encryption_key_indexes : List ℕ

pub record StateDbVote : Type 0 where
  pub vote_hash : Bytes
  pub process_id : Bytes
  pub nullifier : Bytes
