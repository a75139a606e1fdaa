-- ===== src/VoteCheck.antt =====
-- vochain/transaction.go, `VoteEnvelopeCheck`: the check of a vote, anonymous or signed. A vote that
-- was checked before is taken from the vote cache.
pub mod Reads
pub mod Signed
pub mod Fresh
pub mod Cached
use vocdoni.Base.{
  Bool, Bytes, List, Option, Slice, [], add32, content, drop, false, if◌then◌else◌, is_none, leb,
  length, ltb, none, not, some, take, true, ℕ, ◌&&◌, ◌==◌, ◌||◌, ◌∷◌,
}
use vocdoni.Account.{Address}
use vocdoni.Action.{
  Error, already_added, already_exists, already_in_cache, bad_proof, lift, malformed, missing_field,
  missing_signature, not_added, or_raise, pure, raise, raise_if, wrong_height, wrong_status, ◌>>=◌,
  ◌>>◌,
}
use vocdoni.CensusProof.{verify_proof}
use vocdoni.Crypto.{Env, addr_from_public_key, pub_key_from_signature}
use vocdoni.Models.{EnvelopeType, Process, Vote, ready}
use vocdoni.Models.Proofs.{Proof, VoteEnvelope, ZkProof, zk_proof}
use vocdoni.Processes.{is_empty, process, status_eq}
use vocdoni.State.{Run, current_height}
use vocdoni.VoteCache.{cache_add, cache_del, cache_get}
use vocdoni.Votes.{envelope_exists, generate_nullifier}

-- `defer f()`: `f` runs at the end, whatever the call returns.
abbrev pub deferred : {A : Type 0} → Run Unit → Run A → Run A
deferred f m s = let (r, u) = m s in (r, (f u).1)

-- `process.KeyIndex != nil && *process.KeyIndex < 1`
unfoldable pub without_keys : Option ℕ → Bool
without_keys none = false
without_keys (some n) = ltb n 1

-- The checks of the process: its time, on `uint32`, its status and its keys.
unfoldable pub open_check : Process → Run Unit
unfolding status_eq without_keys
open_check p = do
  height ← current_height
  raise_if (ltb height p.start_block) wrong_height
  raise_if (ltb (add32 p.start_block p.block_count) height) wrong_height
  raise_if (not (status_eq p.status ready)) wrong_status
  et ← or_raise p.envelope_type malformed
  raise_if (et.encrypted_votes && without_keys p.key_index) not_added

-- An encrypted vote names at least one key; other votes name none.
unfoldable pub key_indexes : EnvelopeType → VoteEnvelope → Run (List ℕ)
key_indexes et ve =
    if et.encrypted_votes
    then (if is_empty ve.encryption_key_indexes
        then raise missing_field
        else pure ve.encryption_key_indexes)
    else pure []

module _ (env : Env) where
  -- `if exist, err := EnvelopeExists(…); err != nil || exist`
  unfoldable pub new_vote_check : Bytes → Bytes → Run Unit
  unfolding envelope_exists
  new_vote_check pid nullifier = do
    found ← envelope_exists env pid nullifier
    raise_if found already_exists

  -- A vote that is in the cache, with the height of the block.
  unfoldable pub vote_again : Vote → Run (Vote × Bytes)
  unfolding new_vote_check
  vote_again cached = do
    height ← current_height
    new_vote_check cached.process_id cached.nullifier
    pure (record cached { height = height }, [])

  -- Only a block takes a vote from the cache, and takes it out.
  unfoldable pub cached_vote : Bytes → Bool → Error → Vote → Run (Vote × Bytes)
  unfolding vote_again cache_del
  cached_vote tx_id for_commit refusal cached =
      if for_commit then deferred (cache_del env tx_id) (vote_again cached) else raise refusal

  -- The public inputs of a circuit.
  unfoldable pub public_inputs : Process → VoteEnvelope → List ℕ
  public_inputs p ve =
      let pid = content p.process_id in
      let vote_hash = env.sha256 ve.vote_package in
      env.bytes_to_big_int (take 16 pid)
      ∷ env.bytes_to_big_int (drop 16 pid)
      ∷ env.bytes_to_big_int p.rolling_census_root
      ∷ env.bytes_to_big_int ve.nullifier
      ∷ env.bytes_to_big_int (take 16 vote_hash)
      ∷ env.bytes_to_big_int (drop 16 vote_hash)
      ∷ []

  -- `ve.Proof.GetZkSnark()`
  unfoldable pub get_zk_snark : Option Proof → Option ZkProof
  get_zk_snark (some (zk_proof p)) = some p
  get_zk_snark _ = none

  -- `zk.ProtobufZKProofToCircomProof` (crypto/zk/zk.go)
  unfoldable pub circom_proof : ZkProof → Run Bytes
  circom_proof z = do
    raise_if (not (length z.a == 3) || not (length z.b == 6) || not (length z.c == 3)) bad_proof
    let rows = take 2 z.b ∷ take 2 (drop 2 z.b) ∷ drop 4 z.b ∷ []
    or_raise (env.parse_zk z.a rows z.c) bad_proof

  -- The anonymous branch for a vote that is not in the cache. An index above 2 ^ 31 is negative.
  unfoldable pub anonymous_vote : Process → EnvelopeType → VoteEnvelope → Run (Vote × Bytes)
  unfolding new_vote_check public_inputs get_zk_snark circom_proof key_indexes
  anonymous_vote p et ve = do
    height ← current_height
    z ← or_raise (get_zk_snark ve.proof) missing_field
    proof ← circom_proof z
    new_vote_check ve.process_id ve.nullifier
    let index = z.circuit_parameters_index
    raise_if (leb env.vk_count index || leb 2147483648 index) bad_proof
    raise_if (not (env.zk_verify index proof (public_inputs p ve))) bad_proof
    keys ← key_indexes et ve
    pure (
      record {
        height = height;
        process_id = ve.process_id;
        vote_package = ve.vote_package;
        nullifier = ve.nullifier;
        weight = env.big_bytes 1;
        encryption_key_indexes = keys;
      },
      [],
    )

  -- A vote whose proof is checked against the census; 1 is `VoterIDTypeECDSA`.
  unfoldable pub census_vote :
      Process → VoteEnvelope → List ℕ → Bytes → Address → Proof → Bytes → Run (Vote × Bytes)
  census_vote p ve keys key addr proof nullifier = do
    height ← current_height
    (valid, weight) ← verify_proof env p proof key addr
    raise_if (not valid) bad_proof
    pure (
      record {
        height = height;
        process_id = ve.process_id;
        vote_package = ve.vote_package;
        nullifier = nullifier;
        weight = env.big_bytes weight;
        encryption_key_indexes = keys;
      },
      1 ∷ key,
    )

  -- The vote of a known signer.
  unfoldable pub signer_vote :
      Process → VoteEnvelope → List ℕ → Bytes → Address → Proof → Run (Vote × Bytes)
  unfolding new_vote_check generate_nullifier census_vote
  signer_vote p ve keys key addr proof = do
    let nullifier = generate_nullifier env addr ve.process_id
    new_vote_check ve.process_id nullifier
    census_vote p ve keys key addr proof nullifier

  -- The signed branch for a vote that is not in the cache.
  unfoldable pub signed_vote :
      Process → EnvelopeType → VoteEnvelope → Slice → Slice → Run (Vote × Bytes)
  unfolding signer_vote key_indexes
  signed_vote p et ve tx_bytes signature = do
    proof ← or_raise ve.proof missing_field
    keys ← key_indexes et ve
    key ← lift (pub_key_from_signature env (content tx_bytes) signature)
    addr ← lift (addr_from_public_key env key)
    signer_vote p ve keys key addr proof

  -- A vote that is checked for the mempool goes into the cache.
  unfoldable pub remember : Bytes → Bool → Vote × Bytes → Run (Vote × Bytes)
  unfolding cache_add
  remember tx_id true found = pure found
  remember tx_id false (vote, voter_id) = cache_add env tx_id vote >> pure (vote, voter_id)

  -- The anonymous branch, by the vote that is in the cache.
  unfoldable pub anonymous_branch :
      Process → EnvelopeType → VoteEnvelope → Bytes → Bool → Option Vote → Run (Vote × Bytes)
  unfolding cached_vote anonymous_vote remember
  anonymous_branch p et ve tx_id for_commit (some vote) =
      cached_vote tx_id for_commit already_in_cache vote
  anonymous_branch p et ve tx_id for_commit none = do
    found ← anonymous_vote p et ve
    remember tx_id for_commit found

  -- The signed branch, by the vote that is in the cache. The time and the status that the code tests
  -- again for a cached vote are those that were tested before.
  unfoldable pub signed_branch :
      Process
      → EnvelopeType
      → VoteEnvelope
      → Slice
      → Slice
      → Bytes
      → Bool
      → Option Vote
      → Run (Vote × Bytes)
  unfolding cached_vote signed_vote remember
  signed_branch p et ve tx_bytes signature tx_id for_commit (some vote) =
      cached_vote tx_id for_commit already_added vote
  signed_branch p et ve tx_bytes signature tx_id for_commit none = do
    found ← signed_vote p et ve tx_bytes signature
    remember tx_id for_commit found

  -- The two branches, by the type of the envelope.
  unfoldable pub vote_branch :
      Process → EnvelopeType → VoteEnvelope → Slice → Slice → Bytes → Bool → Run (Vote × Bytes)
  unfolding anonymous_branch signed_branch
  vote_branch p et ve tx_bytes signature tx_id for_commit =
      if et.anonymous
      then (do cached ← cache_get env tx_id; anonymous_branch p et ve tx_id for_commit cached)
      else (do
        raise_if (is_none signature) missing_signature
        cached ← cache_get env tx_id
        signed_branch p et ve tx_bytes signature tx_id for_commit cached)

  -- `VoteEnvelopeCheck`: the vote and the id of its voter.
  unfoldable pub vote_envelope_check :
      VoteEnvelope → Slice → Slice → Bytes → Bool → Run (Vote × Bytes)
  unfolding open_check vote_branch
  vote_envelope_check ve tx_bytes signature tx_id for_commit = do
    p ← process ve.process_id
    et ← or_raise p.envelope_type malformed
    mode ← or_raise p.mode malformed
    open_check p
    vote_branch p et ve tx_bytes signature tx_id for_commit
