-- ===== src/Votes/Stored.antt =====
-- `AddVote` and `EnvelopeExists` (vochain/state.go): a vote is stored once.
use vocdoni.Base.{
  Bytes, Option-cases, [], add64, arith, bytes_eq, bytes_eq_refl, false, if◌then◌else◌, inl, inr,
  length, none, some, ◌++◌, ◌∷◌, ◌≡◌, ◌⊎◌,
}
use vocdoni.Action.{ok}
use vocdoni.Crypto.{Env}
use vocdoni.Models.{StateDbVote, Vote}
use vocdoni.Processes.{put_at}
use vocdoni.State.{State, on_vote}
use vocdoni.Votes.{
  add_vote, deep_add_vote, envelope, envelope_exists, exists_of, vote_count_inc, vote_id,
}

-- The leaf of a vote.
abbrev pub leaf_of : Env → Vote → Bytes → StateDbVote
leaf_of env v bytes = record {
  vote_hash = env.keccak bytes;
  process_id = v.process_id;
  nullifier = v.nullifier;
}

-- The id of a vote of the right sizes.
abbrev pub vid_of : Env → Bytes → Bytes → Bytes
vid_of env pid nullifier = env.sha256 (pid ++ nullifier)

-- No vote with the nullifier is stored for the process.
pub record IsNew (env : Env) (s : State) (pid nullifier : Bytes) : Type 0 where
  pub pid_size : length pid ≡ 32
  pub nullifier_size : length nullifier ≡ 32
  pub absent : (s.processes pid ≡ none) ⊎ (s.votes pid (vid_of env pid nullifier) ≡ none)

module _ (env : Env) (pid nullifier : Bytes) (s : State) where
  -- Where `EnvelopeExists` answers false, without an error, no vote is stored.
  pub envelope_exists-IsNew :
      {u : State} → envelope_exists env pid nullifier s ≡ (ok false, u) → IsNew env s pid nullifier
  unfolding envelope_exists envelope vote_id exists_of
  envelope_exists-IsNew h = record {
    pid_size = ground arith;
    nullifier_size = ground arith;
    absent = ground arith;
  }

-- The state after a vote is stored.
abbrev pub with_vote : Env → Vote → Bytes → Bytes → State → State
with_vote env v bytes voter s = record s {
  votes = λ id.
      if bytes_eq id v.process_id
      then put_at (vid_of env v.process_id v.nullifier) (leaf_of env v bytes) (s.votes id)
      else s.votes id;
  vote_count = add64 s.vote_count 1;
  events = s.events ++ on_vote v voter s.tx_counter ∷ [];
}

module _ (env : Env) (v : Vote) (bytes voter : Bytes) (s : State) where
  pub with_vote_stored :
      (with_vote env v bytes voter s).votes v.process_id (vid_of env v.process_id v.nullifier)
      ≡ some (leaf_of env v bytes)
  with_vote_stored =
      rw (bytes_eq_refl v.process_id, bytes_eq_refl (vid_of env v.process_id v.nullifier))

module _ (env : Env) (given : Vote) (voter : Bytes) (s : State) where
  abbrev now : Vote
  now = record given { height = s.current_height }

  -- What a call of `AddVote` that returns has done: the vote was not stored before, and it is stored,
  -- counted and told to the listeners.
  pub add_vote_inv :
      {u : State}
      → add_vote env given voter s ≡ (ok tt, u)
      → (bytes : Bytes) × (env.marshal_vote now ≡ some bytes)
        × IsNew env s given.process_id given.nullifier
        × (s.votes given.process_id (vid_of env given.process_id given.nullifier) ≡ none)
        × (u ≡ with_vote env now bytes voter s)
  unfolding add_vote vote_id deep_add_vote vote_count_inc
  add_vote_inv h = elim (Option-cases (env.marshal_vote now)) [
    | inl e ↦ absurd (ground arith)
    | inr (bytes, e) ↦ (
      bytes,
      e,
      record {
        pid_size = ground arith;
        nullifier_size = ground arith;
        absent = inr (ground arith);
      },
      ground arith,
      ground arith,
    )
  ]
