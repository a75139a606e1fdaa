-- ===== src/CensusProof/Reads.antt =====
-- `VerifyProof` (vochain/proof.go) touches no state: whatever holds of the state holds afterwards.
use vocdoni.Base.{Bytes, Slice, content}
use vocdoni.Account.{Address}
use vocdoni.Action.Preserve.{Preserves, preserve_rules}
use vocdoni.CensusProof.{
  arbo_kind, arbo_proof_check, csp_blind_check, csp_blind_key, csp_ecdsa_check, csp_keys,
  csp_signature_check, salt_blind_pub_key, salt_ecdsa_pub_key, verify_by_origin, verify_proof,
  verify_proof_erc20, verify_proof_mini_me, verify_proof_off_chain_csp, verify_proof_off_chain_tree,
}
use vocdoni.Crypto.{Env}
use vocdoni.Models.{
  CensusOrigin, Process, erc20, mini_me, off_chain_ca, off_chain_tree, off_chain_tree_weighted,
  origin_other,
}
use vocdoni.Models.Proofs.{
  ArboHash, CaKind, Proof, arbo_other, arbo_proof, ca_ecdsa, ca_ecdsa_blind,
  ca_ecdsa_blind_pidsalted, ca_ecdsa_pidsalted, ca_other, ca_proof, minime_proof, storage_proof,
}
use vocdoni.State.{State}

module _ {P : State → Type 0} (env : Env) where
  salt_ecdsa_pub_key-Preserves : (k salt : Bytes) → Preserves P (salt_ecdsa_pub_key env k salt)
  unfolding salt_ecdsa_pub_key
  salt_ecdsa_pub_key-Preserves k salt = search preserve_rules

  salt_blind_pub_key-Preserves : (k salt : Bytes) → Preserves P (salt_blind_pub_key env k salt)
  unfolding salt_blind_pub_key
  salt_blind_pub_key-Preserves k salt = search preserve_rules

  arbo_kind-Preserves : (kind : ArboHash) → Preserves P (arbo_kind env kind)
  unfolding arbo_kind
  arbo_kind-Preserves arbo_other = search preserve_rules
  arbo_kind-Preserves _ = search preserve_rules

  off_chain_tree-Preserves :
      (proof : Proof) (root key : Bytes)
      → Preserves P (verify_proof_off_chain_tree env proof root key)
  unfolding verify_proof_off_chain_tree arbo_proof_check
  off_chain_tree-Preserves (arbo_proof given) root key =
      search (preserve_rules, arbo_kind-Preserves) depth 20
  off_chain_tree-Preserves _ root key = search preserve_rules

  csp_keys-Preserves :
      (kind : CaKind) (root pid pub_key : Bytes) → Preserves P (csp_keys env kind root pid pub_key)
  unfolding csp_keys
  csp_keys-Preserves ca_ecdsa_pidsalted root pid pub_key =
      search (preserve_rules, salt_ecdsa_pub_key-Preserves) depth 20
  csp_keys-Preserves _ root pid pub_key = search preserve_rules

  csp_ecdsa_check-Preserves :
      (kind : CaKind) (b : Bytes) (sig : Slice) (root pid : Bytes)
      → Preserves P (csp_ecdsa_check env kind b sig root pid)
  unfolding csp_ecdsa_check
  csp_ecdsa_check-Preserves kind b sig root pid =
      search (preserve_rules, csp_keys-Preserves) depth 20

  csp_blind_key-Preserves :
      (kind : CaKind) (key pid : Bytes) → Preserves P (csp_blind_key env kind key pid)
  unfolding csp_blind_key
  csp_blind_key-Preserves ca_ecdsa_blind_pidsalted key pid = salt_blind_pub_key-Preserves key pid
  csp_blind_key-Preserves _ key pid = search preserve_rules

  csp_blind_check-Preserves :
      (kind : CaKind) (b : Bytes) (sig : Slice) (root pid : Bytes)
      → Preserves P (csp_blind_check env kind b sig root pid)
  unfolding csp_blind_check
  csp_blind_check-Preserves kind b sig root pid =
      search (preserve_rules, csp_blind_key-Preserves) depth 20

  csp_signature_check-Preserves :
      (kind : CaKind) (b : Bytes) (sig : Slice) (root pid : Bytes)
      → Preserves P (csp_signature_check env kind b sig root pid)
  unfolding csp_signature_check
  csp_signature_check-Preserves ca_ecdsa b sig root pid =
      csp_ecdsa_check-Preserves ca_ecdsa b sig root pid
  csp_signature_check-Preserves ca_ecdsa_pidsalted b sig root pid =
      csp_ecdsa_check-Preserves ca_ecdsa_pidsalted b sig root pid
  csp_signature_check-Preserves ca_ecdsa_blind b sig root pid =
      csp_blind_check-Preserves ca_ecdsa_blind b sig root pid
  csp_signature_check-Preserves ca_ecdsa_blind_pidsalted b sig root pid =
      csp_blind_check-Preserves ca_ecdsa_blind_pidsalted b sig root pid
  csp_signature_check-Preserves ca_other b sig root pid = search preserve_rules

  csp-Preserves :
      (proof : Proof) (root pid : Bytes) (addr : Address)
      → Preserves P (verify_proof_off_chain_csp env proof root pid addr)
  unfolding verify_proof_off_chain_csp
  csp-Preserves (ca_proof p) root pid addr =
      search (preserve_rules, csp_signature_check-Preserves) depth 20
  csp-Preserves _ root pid addr = search preserve_rules

  erc20-Preserves :
      (p : Process) (proof : Proof) (root : Bytes) (addr : Address)
      → Preserves P (verify_proof_erc20 env p proof root addr)
  unfolding verify_proof_erc20
  erc20-Preserves p (storage_proof q) root addr = search preserve_rules depth 20
  erc20-Preserves p _ root addr = search preserve_rules depth 20

  mini_me-Preserves :
      (p : Process) (proof : Proof) (root : Bytes) (addr : Address)
      → Preserves P (verify_proof_mini_me env p proof root addr)
  unfolding verify_proof_mini_me
  mini_me-Preserves p (minime_proof q) root addr = search preserve_rules depth 20
  mini_me-Preserves p _ root addr = search preserve_rules depth 20

  by_origin-Preserves :
      (origin : CensusOrigin) (p : Process) (proof : Proof) (key : Bytes) (addr : Address)
      → Preserves P (verify_by_origin env origin p proof key addr)
  unfolding verify_by_origin
  by_origin-Preserves off_chain_tree p proof key addr =
      off_chain_tree-Preserves proof p.census_root key
  by_origin-Preserves off_chain_tree_weighted p proof key addr =
      off_chain_tree-Preserves proof p.census_root key
  by_origin-Preserves off_chain_ca p proof key addr =
      csp-Preserves proof p.census_root (content p.process_id) addr
  by_origin-Preserves erc20 p proof key addr = erc20-Preserves p proof p.census_root addr
  by_origin-Preserves mini_me p proof key addr = mini_me-Preserves p proof p.census_root addr
  by_origin-Preserves (origin_other n) p proof key addr = search preserve_rules

  pub verify_proof-Preserves :
      (p : Process) (proof : Proof) (key : Bytes) (addr : Address)
      → Preserves P (verify_proof env p proof key addr)
  unfolding verify_proof
  verify_proof-Preserves p proof key addr = by_origin-Preserves p.census_origin p proof key addr
