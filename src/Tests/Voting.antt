-- ===== src/Tests/Voting.antt =====
-- Votes and voters of the small network.
use vocdoni.Base.{
  Bytes, List, Slice, [], arith, bytes_eq, false, if◌then◌else◌, length, none, pos, refl, replicate,
  some, true, ℕ, ◌++◌, ◌∷◌, ◌≡◌, ◌≤◌,
}
use vocdoni.Account.{Address}
use vocdoni.Action.{ok}
use vocdoni.AddTx.{add_tx, add_vote_tx}
use vocdoni.AddTx.Voting.{IsCast, add_tx-IsCast, votes_differ}
use vocdoni.CensusProof.{
  arbo_kind, arbo_proof_check, verify_by_origin, verify_proof, verify_proof_off_chain_tree,
}
use vocdoni.Crypto.{
  addr_from_public_key, decompress_pub_key, hash, pub_key_from_signature, recovery_byte,
}
use vocdoni.Models.{EnvelopeType, Process, ready}
use vocdoni.Models.Proofs.{RegisterKeyTx, VoteEnvelope, arbo_proof, poseidon}
use vocdoni.Processes.{process, status_eq}
use vocdoni.RollingCensus.{
  add_key, add_to_rolling_census, get_rolling_census_size, get_used_weight, is_one,
  need_census_root, register_key_tx_check, register_time_check, set_used_weight, weight_check,
}
use vocdoni.RollingCensus.Access.{IsVoter, MayRegister, register_key_tx_check_inv}
use vocdoni.RollingCensus.Bound.{add_to_rolling_census_inv}
use vocdoni.State.{State}
use vocdoni.Tests.{ballot, pid, signed_by, test_env, test_mode, test_state}
use vocdoni.Tx.{tx_vote}
use vocdoni.VoteCache.{cache_get, entry_vote, lru_lookup}
use vocdoni.VoteCheck.{
  census_vote, key_indexes, new_vote_check, open_check, remember, signed_branch, signed_vote,
  signer_vote, vote_branch, vote_envelope_check, without_keys,
}
use vocdoni.VoteCheck.Fresh.{IsCachedFor}
use vocdoni.VoteCheck.Signed.{BySigner, signed_vote_inv}
use vocdoni.Votes.{
  add_vote, deep_add_vote, envelope, envelope_exists, exists_of, generate_nullifier, vote_count_inc,
  vote_id,
}
use vocdoni.Votes.Stored.{IsNew}

abbrev pub plain : EnvelopeType
plain = record {
  serial = false;
  anonymous = false;
  encrypted_votes = false;
  unique_values = false;
  cost_from_weight = false;
}

abbrev open_process : Process
open_process = record (ballot ready) { envelope_type = some plain }

-- The process in its time.
abbrev pub voting : State
voting = record (test_state 15 ready) {
  processes = λ id.
      if bytes_eq id pid then some (record { process = open_process; votes_root = [] }) else none;
}

abbrev pub cast : VoteEnvelope
cast = record {
  process_id = pid;
  proof = some (arbo_proof (some (record { kind = poseidon; siblings = []; value = none })));
  vote_package = [];
  nullifier = [];
  encryption_key_indexes = [];
}

abbrev pub message : Slice
message = some (1 ∷ 2 ∷ [])

abbrev pub nullifier_of : Address → Bytes
nullifier_of a = a ∷ replicate 31 52

abbrev pub after_one : State
after_one = (add_tx test_env message (signed_by 1) (tx_vote cast (7 ∷ [])) true voting).1

abbrev after_two : State
after_two = (add_tx test_env message (signed_by 2) (tx_vote cast (8 ∷ [])) true after_one).1

pub cast_by_one :
    add_tx test_env message (signed_by 1) (tx_vote cast (7 ∷ [])) true voting
    ≡ (ok (nullifier_of 1), after_one)
unfolding add_tx add_vote_tx vote_envelope_check process open_check status_eq without_keys
    vote_branch cache_get signed_branch signed_vote key_indexes pub_key_from_signature
    addr_from_public_key signer_vote generate_nullifier new_vote_check envelope_exists envelope
    vote_id exists_of census_vote verify_proof verify_by_origin verify_proof_off_chain_tree
    arbo_proof_check arbo_kind remember add_vote deep_add_vote vote_count_inc recovery_byte
    decompress_pub_key bytes_eq hash lru_lookup entry_vote
cast_by_one = refl

cast_by_two :
    add_tx test_env message (signed_by 2) (tx_vote cast (8 ∷ [])) true after_one
    ≡ (ok (nullifier_of 2), after_two)
unfolding add_tx add_vote_tx vote_envelope_check process open_check status_eq without_keys
    vote_branch cache_get signed_branch signed_vote key_indexes pub_key_from_signature
    addr_from_public_key signer_vote generate_nullifier new_vote_check envelope_exists envelope
    vote_id exists_of census_vote verify_proof verify_by_origin verify_proof_off_chain_tree
    arbo_proof_check arbo_kind remember add_vote deep_add_vote vote_count_inc recovery_byte
    decompress_pub_key bytes_eq hash lru_lookup entry_vote
cast_by_two = refl

signed_by_one : signed_vote test_env open_process plain cast message (signed_by 1) voting ≡ (
  ok (
    record {
      height = 15;
      process_id = pid;
      vote_package = [];
      nullifier = nullifier_of 1;
      weight = 1 ∷ [];
      encryption_key_indexes = [];
    },
    1 ∷ 1 ∷ [],
  ),
  voting,
)
unfolding add_tx add_vote_tx vote_envelope_check process open_check status_eq without_keys
    vote_branch cache_get signed_branch signed_vote key_indexes pub_key_from_signature
    addr_from_public_key signer_vote generate_nullifier new_vote_check envelope_exists envelope
    vote_id exists_of census_vote verify_proof verify_by_origin verify_proof_off_chain_tree
    arbo_proof_check arbo_kind remember add_vote deep_add_vote vote_count_inc recovery_byte
    decompress_pub_key bytes_eq hash lru_lookup entry_vote
signed_by_one = refl

-- The cache has nothing for the two transactions.
pub voting-IsCachedFor : IsCachedFor test_env (7 ∷ []) pid voting
unfolding IsCachedFor
voting-IsCachedFor c h = absurd (ground arith)

after_one-IsCachedFor : IsCachedFor test_env (8 ∷ []) pid after_one
unfolding IsCachedFor add_tx add_vote_tx vote_envelope_check process open_check status_eq
    without_keys vote_branch cache_get signed_branch signed_vote key_indexes pub_key_from_signature
    addr_from_public_key signer_vote generate_nullifier new_vote_check envelope_exists envelope
    vote_id exists_of census_vote verify_proof verify_by_origin verify_proof_off_chain_tree
    arbo_proof_check arbo_kind remember add_vote deep_add_vote vote_count_inc recovery_byte
    decompress_pub_key bytes_eq hash lru_lookup entry_vote
after_one-IsCachedFor c h = absurd (ground arith)

add_tx-IsCast_example : IsCast test_env cast voting after_one (nullifier_of 1)
add_tx-IsCast_example =
    add_tx-IsCast test_env message (signed_by 1) cast (7 ∷ []) voting voting-IsCachedFor cast_by_one

votes_differ_example : ¬ ((pid ≡ pid) × (nullifier_of 1 ≡ nullifier_of 2))
votes_differ_example =
    votes_differ test_env cast cast message message (signed_by 1) (signed_by 2) (7 ∷ []) (8 ∷ [])
      voting voting-IsCachedFor after_one-IsCachedFor cast_by_one cast_by_two

signed_vote_inv_example :
    IsNew test_env voting pid (nullifier_of 1)
    × BySigner test_env open_process cast message (signed_by 1) voting (record {
      height = 15;
      process_id = pid;
      vote_package = [];
      nullifier = nullifier_of 1;
      weight = 1 ∷ [];
      encryption_key_indexes = [];
    })
signed_vote_inv_example =
    signed_vote_inv test_env open_process plain cast message (signed_by 1) voting signed_by_one

-- Keys of voters before the process starts.
abbrev registering : State
registering = record (test_state 5 ready) {
  processes = λ id.
      if bytes_eq id pid
      then some (record {
        process = record open_process {
          rolling_census_root = replicate 32 0;
          max_census_size = some 2;
        };
        votes_root = [];
      })
      else none;
  rolling_census = λ id. some ((3 ∷ []) ∷ []);
}

abbrev registered : State
registered = (add_to_rolling_census test_env pid (4 ∷ []) (pos 1) registering).1

key_added : add_to_rolling_census test_env pid (4 ∷ []) (pos 1) registering ≡ (ok tt, registered)
unfolding add_to_rolling_census need_census_root add_key process bytes_eq
key_added = refl

add_to_rolling_census_inv_example :
    (keys : List Bytes) × (p : Process) × (max : ℕ) × (process pid registering
      ≡ (ok p, registering))
    × (p.max_census_size ≡ some max)
    × (registering.rolling_census pid ≡ some keys)
    × (registered.rolling_census pid ≡ some (keys ++ (4 ∷ []) ∷ []))
    × (length (keys ++ (4 ∷ []) ∷ []) ≤ max)
add_to_rolling_census_inv_example =
    add_to_rolling_census_inv test_env pid (4 ∷ []) (pos 1) registering key_added

-- A voter registers a key for an anonymous process that has not started.
abbrev hidden : Process
hidden = record open_process {
  envelope_type = some (record plain { anonymous = true });
  mode = some (record test_mode { pre_register = true });
  rolling_census_root = replicate 32 0;
  nullifiers_root = replicate 32 0;
  max_census_size = some 5;
}

abbrev before_start : State
before_start = record (test_state 5 ready) {
  processes =
      λ id. if bytes_eq id pid then some (record { process = hidden; votes_root = [] }) else none;
  rolling_census = λ id. some [];
}

abbrev registration : RegisterKeyTx
registration = record {
  process_id = pid;
  proof = cast.proof;
  new_key = replicate 32 3;
  weight = 1 ∷ [];
}

abbrev after_registration : State
after_registration =
    (register_key_tx_check test_env registration message (signed_by 1) true before_start).1

registration_passes :
    register_key_tx_check test_env registration message (signed_by 1) true before_start
    ≡ (ok tt, after_registration)
unfolding register_key_tx_check process register_time_check status_eq get_rolling_census_size
    need_census_root pub_key_from_signature hash recovery_byte addr_from_public_key
    decompress_pub_key verify_proof verify_by_origin verify_proof_off_chain_tree arbo_proof_check
    arbo_kind get_used_weight generate_nullifier weight_check is_one set_used_weight bytes_eq
registration_passes = refl

register_key_tx_check_inv_example :
    (p : Process) × (process pid before_start ≡ (ok p, before_start))
    × MayRegister before_start p registration
    × IsVoter test_env registration message (signed_by 1) before_start p
register_key_tx_check_inv_example =
    register_key_tx_check_inv test_env registration message (signed_by 1) true before_start
      registration_passes

-- The voter who has used his weight passes again, with another key and the weight zero.
registration_again :
    (register_key_tx_check test_env
      (record registration { new_key = replicate 32 4; weight = 0 ∷ [] })
      message
      (signed_by 1)
      true
      after_registration).0
    ≡ ok tt
unfolding register_key_tx_check process register_time_check status_eq get_rolling_census_size
    need_census_root pub_key_from_signature hash recovery_byte addr_from_public_key
    decompress_pub_key verify_proof verify_by_origin verify_proof_off_chain_tree arbo_proof_check
    arbo_kind get_used_weight generate_nullifier weight_check is_one set_used_weight bytes_eq
registration_again = refl
