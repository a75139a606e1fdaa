-- ===== src/Models/Proofs.antt =====
-- The proofs of belonging to a census, of go.vocdoni.io/proto (`models.Proof`), and the messages
-- that carry them.
use vocdoni.Base.{Bytes, List, Option, Slice, ℕ}

-- `models.ProofArbo_Type`
pub data ArboHash : Type 0 where
  blake2b poseidon arbo_other : ArboHash

pub record ArboProof : Type 0 where
  pub kind : ArboHash
  pub siblings : Bytes
  pub value : Slice

-- `models.ProofCA_Type`
pub data CaKind : Type 0 where
  ca_ecdsa ca_ecdsa_pidsalted ca_ecdsa_blind ca_ecdsa_blind_pidsalted ca_other : CaKind

pub record CaBundle : Type 0 where
  pub process_id : Bytes
  pub address : Bytes

pub record CaProof : Type 0 where
  pub kind : CaKind
  pub bundle : Option CaBundle
  pub signature : Slice

-- `models.ProofEthereumStorage`, and each half of `models.ProofMinime`.
pub record StorageProof : Type 0 where
  pub key : Bytes
  pub siblings : List Bytes
  pub value : Bytes

pub record MinimeProof : Type 0 where
  pub prev_block : Option StorageProof
  pub next_block : Option StorageProof

pub record ZkProof : Type 0 where
  -- an `int32`, as the number of its 32 bits
  pub circuit_parameters_index : ℕ
  pub a : List Bytes
  pub b : List Bytes
  pub c : List Bytes

-- `models.Proof` by its payload.
pub data Proof : Type 0 where
  graviton_proof : Proof
  iden3_proof : Proof
  arbo_proof : Option ArboProof → Proof
  ca_proof : CaProof → Proof
  storage_proof : StorageProof → Proof
  minime_proof : MinimeProof → Proof
  zk_proof : ZkProof → Proof
  empty_proof : Proof

pub record VoteEnvelope : Type 0 where
  pub process_id : Bytes
  pub proof : Option Proof
  pub vote_package : Bytes
  pub nullifier : Bytes
  pub encryption_key_indexes : List ℕ

pub record RegisterKeyTx : Type 0 where
  pub process_id : Bytes
  pub proof : Option Proof
  pub new_key : Bytes
  -- a decimal number
  pub weight : Bytes
