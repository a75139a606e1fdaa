-- ===== src/CensusProof.antt =====
-- vochain/proof.go and crypto/saltedkey/saltedkey.go: whether a proof shows that a voter belongs to
-- a census, and with which weight. The proofs themselves are verified by third-party libraries.
pub mod Reads
use vocdoni.Base.{
  Bool, Bytes, Slice, bytes_eq, content, if◌then◌else◌, is_none, length, ltb, not, take, true, ℕ,
  ◌==◌,
}
use vocdoni.Account.{Address}
use vocdoni.AccountCheck.{signer}
use vocdoni.Action.{
  bad_marshal, bad_proof, bad_public_key, lift, missing_field, or_raise, panic, pure, raise,
  raise_if, wrong_size, ◌>>=◌, ◌>>◌,
}
use vocdoni.Crypto.{Env, decompress_pub_key, pub_key_from_signature}
use vocdoni.Models.{
  CensusOrigin, Process, erc20, mini_me, off_chain_ca, off_chain_tree, off_chain_tree_weighted,
  origin_other,
}
use vocdoni.Models.Proofs.{
  ArboHash, ArboProof, CaKind, Proof, arbo_other, arbo_proof, ca_ecdsa, ca_ecdsa_blind,
  ca_ecdsa_blind_pidsalted, ca_ecdsa_pidsalted, ca_other, ca_proof, minime_proof, storage_proof,
}
use vocdoni.State.{Run}

-- `SaltECDSAPubKey`; 20 is `SaltSize`.
unfoldable pub salt_ecdsa_pub_key : Env → Bytes → Bytes → Run Bytes
salt_ecdsa_pub_key env key salt = do
  raise_if (ltb (length salt) 20) wrong_size
  pure (env.add_base_mult key (take 20 salt))

-- `SaltBlindPubKey`
unfoldable pub salt_blind_pub_key : Env → Bytes → Bytes → Run Bytes
salt_blind_pub_key env key salt = do
  raise_if (ltb (length salt) 20) wrong_size
  pure (env.blind_add key (take 20 salt))

module _ (env : Env) where
  -- `VerifyProofOffChainTree`, of a payload with a proof of arbo. A nil value has weight one.
  unfoldable pub arbo_proof_check : ArboProof → ArboHash → Bytes → Bytes → Run (Bool × ℕ)
  arbo_proof_check p kind root key = do
    hashed ← or_raise (env.arbo_hash kind key) bad_proof
    valid ← or_raise (env.arbo_check kind hashed p.value root p.siblings) bad_proof
    pure (valid, if is_none p.value then 1 else env.bytes_to_big_int (content p.value))

  -- The hash function that a proof names.
  unfoldable pub arbo_kind : ArboHash → Run ArboHash
  arbo_kind arbo_other = raise bad_proof
  arbo_kind kind = pure kind

  -- `VerifyProofOffChainTree`
  unfoldable pub verify_proof_off_chain_tree : Proof → Bytes → Bytes → Run (Bool × ℕ)
  unfolding arbo_proof_check arbo_kind
  verify_proof_off_chain_tree (arbo_proof given) root key = do
    p ← or_raise given bad_proof
    kind ← arbo_kind p.kind
    arbo_proof_check p kind root key
  verify_proof_off_chain_tree _ root key = raise bad_proof

  -- The key of the census service of an ECDSA bundle: the root, salted or not, and the key that
  -- signed the bundle.
  unfoldable pub csp_keys : CaKind → Bytes → Bytes → Bytes → Run (Bytes × Bytes)
  unfolding salt_ecdsa_pub_key decompress_pub_key
  csp_keys ca_ecdsa_pidsalted root pid bundle_pub = do
    root_pub ← or_raise (decompress_pub_key env root) bad_public_key
    root_key ← or_raise (env.unmarshal_pub_key root_pub) bad_public_key
    salted ← salt_ecdsa_pub_key env root_key pid
    full ← or_raise (decompress_pub_key env bundle_pub) bad_public_key
    pure (env.from_ecdsa_pub salted, full)
  csp_keys _ root pid bundle_pub = pure (root, bundle_pub)

  -- The check of an ECDSA signature of a bundle.
  unfoldable pub csp_ecdsa_check : CaKind → Bytes → Slice → Bytes → Bytes → Run (Bool × ℕ)
  unfolding csp_keys
  csp_ecdsa_check kind bundle signature root pid = do
    bundle_pub ← lift (pub_key_from_signature env bundle signature)
    (key, signer) ← csp_keys kind root pid bundle_pub
    raise_if (not (bytes_eq signer key)) bad_proof
    pure (true, 1)

  -- The blind key of the census service, salted or not.
  unfoldable pub csp_blind_key : CaKind → Bytes → Bytes → Run Bytes
  unfolding salt_blind_pub_key
  csp_blind_key ca_ecdsa_blind_pidsalted key pid = salt_blind_pub_key env key pid
  csp_blind_key _ key pid = pure key

  -- The check of a blind signature of a bundle.
  unfoldable pub csp_blind_check : CaKind → Bytes → Slice → Bytes → Bytes → Run (Bool × ℕ)
  unfolding csp_blind_key decompress_pub_key
  csp_blind_check kind bundle signature root pid = do
    root_pub ← or_raise (decompress_pub_key env root) bad_public_key
    root_key ← or_raise (env.blind_key root_pub) bad_public_key
    sig ← or_raise (env.blind_signature signature) bad_proof
    key ← csp_blind_key kind root_key pid
    raise_if (not (env.blind_verify (env.set_bytes (env.keccak bundle)) sig key)) bad_proof
    pure (true, 1)

  -- The switch on the kind of signature.
  unfoldable pub csp_signature_check : CaKind → Bytes → Slice → Bytes → Bytes → Run (Bool × ℕ)
  unfolding csp_ecdsa_check csp_blind_check
  csp_signature_check ca_ecdsa bundle signature root pid =
      csp_ecdsa_check ca_ecdsa bundle signature root pid
  csp_signature_check ca_ecdsa_pidsalted bundle signature root pid =
      csp_ecdsa_check ca_ecdsa_pidsalted bundle signature root pid
  csp_signature_check ca_ecdsa_blind bundle signature root pid =
      csp_blind_check ca_ecdsa_blind bundle signature root pid
  csp_signature_check ca_ecdsa_blind_pidsalted bundle signature root pid =
      csp_blind_check ca_ecdsa_blind_pidsalted bundle signature root pid
  csp_signature_check ca_other bundle signature root pid = raise bad_proof

  -- `VerifyProofOffChainCSP`. Of another payload `GetCa` is a nil pointer, and so may be the bundle.
  unfoldable pub verify_proof_off_chain_csp : Proof → Bytes → Bytes → Address → Run (Bool × ℕ)
  unfolding csp_signature_check
  verify_proof_off_chain_csp (ca_proof p) root pid addr = do
    bundle ← or_raise p.bundle panic
    raise_if (not (bytes_eq bundle.address (env.address_bytes addr))) bad_proof
    raise_if (not (bytes_eq bundle.process_id pid)) bad_proof
    bytes ← or_raise (env.marshal_bundle bundle) bad_marshal
    csp_signature_check p.kind bytes p.signature root pid
  verify_proof_off_chain_csp _ root pid addr = raise panic

  -- `VerifyProofERC20`
  unfoldable pub verify_proof_erc20 : Process → Proof → Bytes → Address → Run (Bool × ℕ)
  verify_proof_erc20 proc (storage_proof p) root addr = do
    slot ← or_raise proc.eth_index_slot missing_field
    let balance = env.set_bytes p.value
    raise_if (balance == 0) bad_proof
    raise_if (not (env.mapbased_verify addr root p slot balance)) bad_proof
    pure (true, balance)
  verify_proof_erc20 proc _ root addr = do
    slot ← or_raise proc.eth_index_slot missing_field
    raise bad_proof

  -- `VerifyProofMiniMe`. Either half of the proof may be a nil pointer.
  unfoldable pub verify_proof_mini_me : Process → Proof → Bytes → Address → Run (Bool × ℕ)
  verify_proof_mini_me proc (minime_proof p) root addr = do
    slot ← or_raise proc.eth_index_slot missing_field
    source ← or_raise proc.source_block_height missing_field
    prev ← or_raise p.prev_block panic
    let balance = env.minime_balance prev.value
    raise_if (balance == 0) bad_proof
    later ← or_raise p.next_block panic
    raise_if (not (env.minime_verify addr root prev later slot balance source)) bad_proof
    pure (true, balance)
  verify_proof_mini_me proc _ root addr = do
    slot ← or_raise proc.eth_index_slot missing_field
    source ← or_raise proc.source_block_height missing_field
    raise bad_proof

  -- The switch of `VerifyProof` on the census origin.
  unfoldable pub verify_by_origin :
      CensusOrigin → Process → Proof → Bytes → Address → Run (Bool × ℕ)
  unfolding verify_proof_off_chain_tree verify_proof_off_chain_csp verify_proof_erc20
      verify_proof_mini_me
  verify_by_origin off_chain_tree p proof key addr =
      verify_proof_off_chain_tree proof p.census_root key
  verify_by_origin off_chain_tree_weighted p proof key addr =
      verify_proof_off_chain_tree proof p.census_root key
  verify_by_origin off_chain_ca p proof key addr =
      verify_proof_off_chain_csp proof p.census_root (content p.process_id) addr
  verify_by_origin erc20 p proof key addr = verify_proof_erc20 p proof p.census_root addr
  verify_by_origin mini_me p proof key addr = verify_proof_mini_me p proof p.census_root addr
  verify_by_origin (origin_other n) p proof key addr = raise bad_proof

  -- `VerifyProof`, of the census of the process.
  unfoldable pub verify_proof : Process → Proof → Bytes → Address → Run (Bool × ℕ)
  unfolding verify_by_origin
  verify_proof p proof key addr = verify_by_origin p.census_origin p proof key addr
