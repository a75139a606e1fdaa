-- ===== src/VoteCheck/Cached.antt =====
-- Whose votes are in the cache: `VoteEnvelopeCheck` puts a vote there under the id of its transaction.
use vocdoni.Base.{
  Bool, Bytes, Option, Slice, ap, arith, false, if◌then◌else◌, inl, inr, none, some, sym, true, ◌∙◌,
  ◌≡◌, ◌⊎◌,
}
use vocdoni.Action.{Error, already_added, already_in_cache, gets, pure, some_inj, ◌>>◌}
use vocdoni.Action.Preserve.{
  >>=-Preserves, Preserves, bind_seen, gets-Preserves, if-Preserves, preserve_rules, pure-Preserves,
}
use vocdoni.Crypto.{CacheKey, Env, VoteCache, nullifier_key, tx_key}
use vocdoni.Models.{EnvelopeType, Process, Vote}
use vocdoni.Models.Proofs.{VoteEnvelope}
use vocdoni.Processes.{process}
use vocdoni.State.{State}
use vocdoni.VoteCache.{
  cache_add, cache_del, cache_get, drop_nullifier, lru_drop, lru_lookup, lru_store,
}
use vocdoni.VoteCheck.{
  anonymous_branch, anonymous_vote, cached_vote, remember, signed_branch, signed_vote, vote_again,
  vote_branch, vote_envelope_check,
}
use vocdoni.VoteCheck.Fresh.{IsCachedFor, anonymous_vote_inv}
use vocdoni.VoteCheck.Reads.{
  anonymous_vote-Preserves, open_check-Preserves, signed_vote-Preserves, vote_again-Preserves,
}
use vocdoni.VoteCheck.Signed.{BySigner, signed_vote_inv}

-- What the code relies on of golang-lru: an entry that is found was there before, or is the one that was
-- added; entries may be evicted.
pub record IsLru (env : Env) : Type 0 where
  pub get-get :
      (key j : CacheKey) (cache : VoteCache) {x : Option Vote}
      → (env.lru_get j (env.lru_get key cache).1).0 ≡ some x
      → (env.lru_get j cache).0 ≡ some x
  pub get-add :
      (key j : CacheKey) (vote : Option Vote) (cache : VoteCache) {x : Option Vote}
      → (env.lru_get j (env.lru_add key vote cache)).0 ≡ some x
      → ((j ≡ key) × (x ≡ vote)) ⊎ ((env.lru_get j cache).0 ≡ some x)
  pub get-remove :
      (key j : CacheKey) (cache : VoteCache) {x : Option Vote}
      → (env.lru_get j (env.lru_remove key cache)).0 ≡ some x
      → (env.lru_get j cache).0 ≡ some x

tx_key_inj : {a b : Bytes} → tx_key a ≡ tx_key b → a ≡ b
tx_key_inj e = cc

-- Each vote at the id of a transaction is for the process of that transaction.
unfoldable pub IsFitting : Env → (Bytes → Bytes) → State → Type 0
IsFitting env pid_of s = (id : Bytes) → IsCachedFor env id (pid_of id) s

module _ (env : Env) (lru : IsLru env) (pid_of : Bytes → Bytes) where
  lookup-IsFitting : (key : CacheKey) → Preserves (IsFitting env pid_of) (lru_lookup env key)
  unfolding lru_lookup IsFitting IsCachedFor
  lookup-IsFitting key = record {
    run = λ s h id c e. h id c (lru.get-get key (tx_key id) s.vote_cache e);
  }

  drop-IsFitting : (key : CacheKey) → Preserves (IsFitting env pid_of) (lru_drop env key)
  unfolding IsFitting IsCachedFor
  drop-IsFitting key = record {
    run = λ s h id c e. h id c (lru.get-remove key (tx_key id) s.vote_cache e);
  }

  store_vote-IsFitting :
      (id : Bytes) (v : Vote)
      → v.process_id ≡ pid_of id
      → Preserves (IsFitting env pid_of) (lru_store env (tx_key id) (some v))
  unfolding IsFitting IsCachedFor
  store_vote-IsFitting id v named = record {
    run = λ s h j c e. elim (lru.get-add (tx_key id) (tx_key j) (some v) s.vote_cache e) [
      | inl (same, made) ↦
          ap (λ (x : Vote). x.process_id) (some_inj made)
          ∙ named
          ∙ ap pid_of (sym (tx_key_inj same))
      | inr before ↦ h j c before
    ];
  }

  store_none-IsFitting :
      (key : CacheKey) → Preserves (IsFitting env pid_of) (lru_store env key none)
  unfolding IsFitting IsCachedFor
  store_none-IsFitting key = record {
    run = λ s h j c e. elim (lru.get-add key (tx_key j) none s.vote_cache e) [
      | inl (same, made) ↦ absurd (ground arith)
      | inr before ↦ h j c before
    ];
  }

  cache_get-IsFitting : (id : Bytes) → Preserves (IsFitting env pid_of) (cache_get env id)
  unfolding cache_get
  cache_get-IsFitting id = search (preserve_rules, lookup-IsFitting) depth 20

  drop_nullifier-IsFitting :
      (vote : Option Vote) → Preserves (IsFitting env pid_of) (drop_nullifier env vote)
  unfolding drop_nullifier
  drop_nullifier-IsFitting none = pure-Preserves tt
  drop_nullifier-IsFitting (some v) = drop-IsFitting (nullifier_key v.nullifier)

  cache_del-IsFitting : (id : Bytes) → Preserves (IsFitting env pid_of) (cache_del env id)
  unfolding cache_del
  cache_del-IsFitting id =
      search (preserve_rules, cache_get-IsFitting, drop-IsFitting, drop_nullifier-IsFitting) depth
        20

  cached_vote-IsFitting :
      (id : Bytes) (commit : Bool) (e : Error) (cached : Vote)
      → Preserves (IsFitting env pid_of) (cached_vote env id commit e cached)
  unfolding cached_vote
  cached_vote-IsFitting id true e cached = record {
    run = λ u h.
        (cache_del-IsFitting id).run (vote_again env cached u).1
          ((vote_again-Preserves {P = IsFitting env pid_of} env cached).run u h);
  }
  cached_vote-IsFitting id false e cached = search preserve_rules

  cache_add-IsFitting :
      (id : Bytes) (v : Vote)
      → v.process_id ≡ pid_of id
      → Preserves (IsFitting env pid_of) (cache_add env id v)
  unfolding cache_add
  cache_add-IsFitting id v named =
      let stores =
        lru_store env (tx_key id) (some v) >> lru_store env (nullifier_key v.nullifier) none in
      let kept : Preserves (IsFitting env pid_of) stores =
        >>=-Preserves (lru_store env (tx_key id) (some v))
          (λ _. lru_store env (nullifier_key v.nullifier) none) (store_vote-IsFitting id v named)
          (λ _. store_none-IsFitting (nullifier_key v.nullifier)) in
      >>=-Preserves (gets (λ s. s.cache_disabled))
        (λ disabled. if disabled then pure tt else stores) (gets-Preserves (λ s. s.cache_disabled))
        (λ disabled. if-Preserves disabled (pure tt) stores (pure-Preserves tt) kept)

  remember-IsFitting :
      (id : Bytes) (commit : Bool) (found : Vote × Bytes)
      → found.0.process_id ≡ pid_of id
      → Preserves (IsFitting env pid_of) (remember env id commit found)
  unfolding remember
  remember-IsFitting id true found named = search preserve_rules
  remember-IsFitting id false (vote, voter) named =
      search (preserve_rules, cache_add-IsFitting id vote named) depth 20

  module _ (ve : VoteEnvelope) (id : Bytes) (named : ve.process_id ≡ pid_of id) where
    anonymous_branch-IsFitting :
        (p : Process) (et : EnvelopeType) (commit : Bool) (cached : Option Vote)
        → Preserves (IsFitting env pid_of) (anonymous_branch env p et ve id commit cached)
    unfolding anonymous_branch
    anonymous_branch-IsFitting p et commit (some vote) =
        cached_vote-IsFitting id commit already_in_cache vote
    anonymous_branch-IsFitting p et commit none =
        bind_seen (anonymous_vote env p et ve) (remember env id commit)
          (anonymous_vote-Preserves env p et ve)
          (λ (v, voter) s t made h.
            (remember-IsFitting id commit (v, voter)
                ((anonymous_vote_inv env p et ve s made).1 ∙ named)).run
              t h)

    signed_branch-IsFitting :
        (p : Process) (et : EnvelopeType) (tx_bytes signature : Slice) (commit : Bool)
        (cached : Option Vote)
        → Preserves
            (IsFitting env pid_of)
            (signed_branch env p et ve tx_bytes signature id commit cached)
    unfolding signed_branch BySigner
    signed_branch-IsFitting p et tx_bytes signature commit (some vote) =
        cached_vote-IsFitting id commit already_added vote
    signed_branch-IsFitting p et tx_bytes signature commit none =
        bind_seen (signed_vote env p et ve tx_bytes signature) (remember env id commit)
          (signed_vote-Preserves env p et ve tx_bytes signature)
          (λ (v, voter) s t made h.
            let (fresh, (_, _, _, _, _, _, pid, _, _, _, _)) =
              signed_vote_inv env p et ve tx_bytes signature s made in
            (remember-IsFitting id commit (v, voter) (pid ∙ named)).run t h)

    -- `VoteEnvelopeCheck` of a transaction, for the mempool or a block and whatever it answers, keeps
    -- that each vote in the cache is for the process of the transaction at whose id it is. What is
    -- assumed of the LRU cache is that it finds only what was added.
    pub vote_envelope_check-IsFitting :
        (tx_bytes signature : Slice) (commit : Bool) (s : State)
        → IsFitting env pid_of s
        → IsFitting env pid_of (vote_envelope_check env ve tx_bytes signature id commit s).1
    unfolding vote_envelope_check process vote_branch
    vote_envelope_check-IsFitting tx_bytes signature commit s h = kept.run s h
      where
        kept :
            Preserves
              (IsFitting env pid_of)
              (vote_envelope_check env ve tx_bytes signature id commit)
        kept =
            search
              (
                preserve_rules, open_check-Preserves, cache_get-IsFitting,
                anonymous_branch-IsFitting, signed_branch-IsFitting,
              )
              depth 60
