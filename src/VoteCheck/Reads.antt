-- ===== src/VoteCheck/Reads.antt =====
-- What a vote that is only checked changes: the vote cache, and nothing else.
use vocdoni.Base.{Bool, Bytes, List, Option, Slice, false, none, some, true, ℕ, ◌≡◌}
use vocdoni.Account.{Address}
use vocdoni.Action.{Error, already_added, already_in_cache}
use vocdoni.Action.Preserve.{Preserves, preserve_rules, pure-Preserves}
use vocdoni.CensusProof.Reads.{verify_proof-Preserves}
use vocdoni.Crypto.{CacheKey, Env, nullifier_key}
use vocdoni.Models.{EnvelopeType, Process, Vote}
use vocdoni.Models.Proofs.{Proof, VoteEnvelope, ZkProof}
use vocdoni.Processes.{process}
use vocdoni.State.{State}
use vocdoni.VoteCache.{
  cache_add, cache_del, cache_get, drop_nullifier, lru_drop, lru_lookup, lru_store,
}
use vocdoni.VoteCheck.{
  anonymous_branch, anonymous_vote, cached_vote, census_vote, circom_proof, key_indexes,
  new_vote_check, open_check, remember, signed_branch, signed_vote, signer_vote, vote_again,
  vote_branch, vote_envelope_check,
}
use vocdoni.Votes.{envelope, envelope_exists, vote_id}

-- Two states that agree on all but the vote cache.
abbrev pub Uncached : State → State → Type 0
Uncached s u = record u { vote_cache = s.vote_cache } ≡ s

pub vote_id-Preserves :
    {P : State → Type 0} (env : Env) (pid n : Bytes) → Preserves P (vote_id env pid n)
unfolding vote_id
vote_id-Preserves env pid n = search preserve_rules

pub envelope-Preserves :
    {P : State → Type 0} (env : Env) (pid n : Bytes) → Preserves P (envelope env pid n)
unfolding envelope
envelope-Preserves env pid n = search (preserve_rules, vote_id-Preserves) depth 20

pub envelope_exists-Preserves :
    {P : State → Type 0} (env : Env) (pid n : Bytes) → Preserves P (envelope_exists env pid n)
unfolding envelope_exists
envelope_exists-Preserves {P} env pid n = record {
  run = λ s h. (envelope-Preserves {P = P} env pid n).run s h;
}

module _ {P : State → Type 0} (env : Env) where
  pub open_check-Preserves : (p : Process) → Preserves P (open_check p)
  unfolding open_check
  open_check-Preserves p = search preserve_rules depth 20

  new_vote_check-Preserves : (pid n : Bytes) → Preserves P (new_vote_check env pid n)
  unfolding new_vote_check
  new_vote_check-Preserves pid n = search (preserve_rules, envelope_exists-Preserves)

  pub vote_again-Preserves : (v : Vote) → Preserves P (vote_again env v)
  unfolding vote_again
  vote_again-Preserves v = search (preserve_rules, new_vote_check-Preserves) depth 20

  pub key_indexes-Preserves :
      (et : EnvelopeType) (ve : VoteEnvelope) → Preserves P (key_indexes et ve)
  unfolding key_indexes
  key_indexes-Preserves et ve = search preserve_rules

  circom_proof-Preserves : (z : ZkProof) → Preserves P (circom_proof env z)
  unfolding circom_proof
  circom_proof-Preserves z = search preserve_rules

  pub anonymous_vote-Preserves :
      (p : Process) (et : EnvelopeType) (ve : VoteEnvelope)
      → Preserves P (anonymous_vote env p et ve)
  unfolding anonymous_vote
  anonymous_vote-Preserves p et ve =
      search
        (preserve_rules, new_vote_check-Preserves, key_indexes-Preserves, circom_proof-Preserves)
        depth 40

  census_vote-Preserves :
      (p : Process) (ve : VoteEnvelope) (keys : List ℕ) (key : Bytes) (addr : Address)
      (proof : Proof) (n : Bytes)
      → Preserves P (census_vote env p ve keys key addr proof n)
  unfolding census_vote
  census_vote-Preserves p ve keys key addr proof n =
      search (preserve_rules, verify_proof-Preserves) depth 40

  signer_vote-Preserves :
      (p : Process) (ve : VoteEnvelope) (keys : List ℕ) (key : Bytes) (addr : Address)
      (proof : Proof)
      → Preserves P (signer_vote env p ve keys key addr proof)
  unfolding signer_vote
  signer_vote-Preserves p ve keys key addr proof =
      search (preserve_rules, new_vote_check-Preserves, census_vote-Preserves) depth 40

  pub signed_vote-Preserves :
      (p : Process) (et : EnvelopeType) (ve : VoteEnvelope) (tx_bytes signature : Slice)
      → Preserves P (signed_vote env p et ve tx_bytes signature)
  unfolding signed_vote
  signed_vote-Preserves p et ve tx_bytes signature =
      search (preserve_rules, key_indexes-Preserves, signer_vote-Preserves) depth 40

module _ (env : Env) (s : State) where
  pub cache_get-Uncached : (id : Bytes) → Preserves (Uncached s) (cache_get env id)
  unfolding cache_get
  cache_get-Uncached id = search (preserve_rules, lookup-Uncached) depth 20
    where
      lookup-Uncached : (key : CacheKey) → Preserves (Uncached s) (lru_lookup env key)
      lookup-Uncached key = record { run = λ u h. h }

  store-Uncached :
      (key : CacheKey) (vote : Option Vote) → Preserves (Uncached s) (lru_store env key vote)
  store-Uncached key vote = record { run = λ u h. h }

  remember-Uncached :
      (id : Bytes) (commit : Bool) (found : Vote × Bytes)
      → Preserves (Uncached s) (remember env id commit found)
  unfolding remember cache_add
  remember-Uncached id true found = search preserve_rules
  remember-Uncached id false (vote, voter) = search (preserve_rules, store-Uncached) depth 20

  drop-Uncached : (key : CacheKey) → Preserves (Uncached s) (lru_drop env key)
  drop-Uncached key = record { run = λ u h. h }

  drop_nullifier-Uncached : (vote : Option Vote) → Preserves (Uncached s) (drop_nullifier env vote)
  unfolding drop_nullifier
  drop_nullifier-Uncached none = pure-Preserves tt
  drop_nullifier-Uncached (some v) = drop-Uncached (nullifier_key v.nullifier)

  cache_del-Uncached : (id : Bytes) → Preserves (Uncached s) (cache_del env id)
  unfolding cache_del
  cache_del-Uncached id =
      search (preserve_rules, cache_get-Uncached, drop-Uncached, drop_nullifier-Uncached) depth 20

  cached_vote-Uncached :
      (id : Bytes) (commit : Bool) (e : Error) (cached : Vote)
      → Preserves (Uncached s) (cached_vote env id commit e cached)
  unfolding cached_vote
  cached_vote-Uncached id true e cached = record {
    run = λ u h.
        (cache_del-Uncached id).run (vote_again env cached u).1
          ((vote_again-Preserves {P = Uncached s} env cached).run u h);
  }
  cached_vote-Uncached id false e cached = search preserve_rules

  anonymous_branch-Uncached :
      (p : Process) (et : EnvelopeType) (ve : VoteEnvelope) (id : Bytes) (commit : Bool)
      (cached : Option Vote)
      → Preserves (Uncached s) (anonymous_branch env p et ve id commit cached)
  unfolding anonymous_branch
  anonymous_branch-Uncached p et ve id commit (some vote) =
      cached_vote-Uncached id commit already_in_cache vote
  anonymous_branch-Uncached p et ve id commit none =
      search (preserve_rules, anonymous_vote-Preserves, remember-Uncached) depth 20

  signed_branch-Uncached :
      (p : Process) (et : EnvelopeType) (ve : VoteEnvelope) (tx_bytes signature : Slice)
      (id : Bytes) (commit : Bool) (cached : Option Vote)
      → Preserves (Uncached s) (signed_branch env p et ve tx_bytes signature id commit cached)
  unfolding signed_branch
  signed_branch-Uncached p et ve tx_bytes signature id commit (some vote) =
      cached_vote-Uncached id commit already_added vote
  signed_branch-Uncached p et ve tx_bytes signature id commit none =
      search (preserve_rules, signed_vote-Preserves, remember-Uncached) depth 20

  vote_branch-Uncached :
      (p : Process) (et : EnvelopeType) (ve : VoteEnvelope) (tx_bytes signature : Slice)
      (id : Bytes) (commit : Bool)
      → Preserves (Uncached s) (vote_branch env p et ve tx_bytes signature id commit)
  unfolding vote_branch
  vote_branch-Uncached p et ve tx_bytes signature id commit =
      search (preserve_rules, cache_get-Uncached, anonymous_branch-Uncached, signed_branch-Uncached)
        depth 40

  pub vote_envelope_check-Uncached :
      (ve : VoteEnvelope) (tx_bytes signature : Slice) (id : Bytes) (commit : Bool)
      → Preserves (Uncached s) (vote_envelope_check env ve tx_bytes signature id commit)
  unfolding vote_envelope_check process
  vote_envelope_check-Uncached ve tx_bytes signature id commit =
      search (preserve_rules, open_check-Preserves, vote_branch-Uncached) depth 40
