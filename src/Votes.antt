-- ===== src/Votes.antt =====
-- vochain/state.go, the votes of a process: the subtree of the votes is a map from the ids of votes.
pub mod Stored
use vocdoni.Base.{
  Bool, Bytes, add64, bytes_eq, false, if◌then◌else◌, is_none, length, not, true, ℕ, ◌++◌, ◌==◌,
}
use vocdoni.Account.{Address}
use vocdoni.Action.{
  Result, already_exists, bad_marshal, err, gets, modify, ok, or_raise, process_not_found, pure,
  raise_if, vote_does_not_exist, wrong_size, ◌>>=◌, ◌>>◌,
}
use vocdoni.Crypto.{Env, hash}
use vocdoni.Models.{StateDbVote, Vote}
use vocdoni.Processes.{put_at}
use vocdoni.State.{Run, current_height, notify, on_vote}

-- `VoteNullifierSize`
abbrev pub vote_nullifier_size : ℕ
vote_nullifier_size = 32

module _ (env : Env) where
  -- `voteID`
  unfoldable pub vote_id : Bytes → Bytes → Run Bytes
  vote_id pid nullifier = do
    raise_if (not (length pid == 32)) wrong_size
    raise_if (not (length nullifier == vote_nullifier_size)) wrong_size
    pure (env.sha256 (pid ++ nullifier))

  -- `GenerateNullifier` (vochain/apputils.go)
  unfoldable pub generate_nullifier : Address → Bytes → Bytes
  generate_nullifier addr pid = env.keccak (env.address_bytes addr ++ pid)

  -- `Envelope`: the hash of a stored vote.
  unfoldable pub envelope : Bytes → Bytes → Run Bytes
  unfolding vote_id
  envelope pid nullifier = do
    vid ← vote_id pid nullifier
    leaf ← or_raise (← gets (λ s. s.processes pid)) process_not_found
    vote ← or_raise (← gets (λ s. s.votes pid vid)) vote_does_not_exist
    pure vote.vote_hash

  -- What `EnvelopeExists` makes of the error of `Envelope`.
  unfoldable pub exists_of : Result Bytes → Result Bool
  exists_of (ok hash) = ok true
  exists_of (err process_not_found) = ok false
  exists_of (err vote_does_not_exist) = ok false
  exists_of (err e) = err e

  -- `EnvelopeExists`
  unfoldable pub envelope_exists : Bytes → Bytes → Run Bool
  unfolding envelope exists_of
  envelope_exists pid nullifier s = let (r, u) = envelope pid nullifier s in (exists_of r, u)

  -- `VoteCount`; nothing stored counts as zero.
  unfoldable pub vote_count_of : Run ℕ
  vote_count_of = gets (λ s. s.vote_count)

  -- `voteCountInc`
  unfoldable pub vote_count_inc : Run Unit
  vote_count_inc = modify (λ s. record s { vote_count = add64 s.vote_count 1 })

  -- `DeepAdd` of a leaf to the subtree of the votes: the process must be there, and the key must not.
  unfoldable pub deep_add_vote : Bytes → Bytes → StateDbVote → Run Unit
  deep_add_vote pid vid vote = do
    leaf ← or_raise (← gets (λ s. s.processes pid)) process_not_found
    old ← gets (λ s. s.votes pid vid)
    raise_if (not (is_none old)) already_exists
    modify (λ s. record s {
      votes = λ id. if bytes_eq id pid then put_at vid vote (s.votes id) else s.votes id;
    })

  -- `AddVote`
  unfoldable pub add_vote : Vote → Bytes → Run Unit
  unfolding vote_id deep_add_vote vote_count_inc
  add_vote given voter_id = do
    vid ← vote_id given.process_id given.nullifier
    height ← current_height
    let vote = record given { height = height }
    bytes ← or_raise (env.marshal_vote vote) bad_marshal
    deep_add_vote vote.process_id vid (record {
      vote_hash = env.keccak bytes;
      process_id = vote.process_id;
      nullifier = vote.nullifier;
    })
    vote_count_inc
    counter ← gets (λ s. s.tx_counter)
    notify (on_vote vote voter_id counter)
