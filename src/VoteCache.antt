-- ===== src/VoteCache.antt =====
-- vochain/cache.go: the votes that were checked and are not in a block yet. The cache is an LRU of
-- third-party code, whose operations are fields of `Env`.
use vocdoni.Base.{
  Bool, Bytes, List, Option, [], add32, false, if◌then◌else◌, is_none, leb, none, not, some, ℕ, ◌%◌,
  ◌++◌, ◌==◌, ◌||◌, ◌∷◌,
}
use vocdoni.Action.{gets, modify, ok, pure, ◌>>=◌, ◌>>◌}
use vocdoni.Crypto.{CacheKey, Env, VoteCache, nullifier_key, tx_key}
use vocdoni.Models.{Vote}
use vocdoni.State.{Run}

module _ (env : Env) where
  -- `v.voteCache.Get`, which moves the entry that it finds.
  unfoldable pub lru_lookup : CacheKey → Run (Option (Option Vote))
  lru_lookup key s =
      let (found, cache) = env.lru_get key s.vote_cache in
      (ok found, record s { vote_cache = cache })

  abbrev pub lru_store : CacheKey → Option Vote → Run Unit
  lru_store key vote = modify (λ s. record s { vote_cache = env.lru_add key vote s.vote_cache })

  abbrev pub lru_drop : CacheKey → Run Unit
  lru_drop key = modify (λ s. record s { vote_cache = env.lru_remove key s.vote_cache })

  -- `CacheAdd`, of a vote with its nullifier.
  unfoldable pub cache_add : Bytes → Vote → Run Unit
  cache_add id vote = do
    disabled ← gets (λ s. s.cache_disabled)
    if disabled
        then pure tt
        else do lru_store (tx_key id) (some vote); lru_store (nullifier_key vote.nullifier) none

  -- An entry without a vote counts as none.
  unfoldable pub entry_vote : Option (Option Vote) → Option Vote
  entry_vote none = none
  entry_vote (some vote) = vote

  -- `CacheGet`
  unfoldable pub cache_get : Bytes → Run (Option Vote)
  unfolding lru_lookup entry_vote
  cache_get id = do
    disabled ← gets (λ s. s.cache_disabled)
    if disabled
        then pure none
        else do found ← lru_lookup (tx_key id); pure (elim found [ none ↦ none | some vote ↦ vote ])

  -- The entry of the nullifier of a vote that `CacheDel` finds.
  unfoldable pub drop_nullifier : Option Vote → Run Unit
  drop_nullifier none = pure tt
  drop_nullifier (some v) = lru_drop (nullifier_key v.nullifier)

  -- `CacheDel`
  unfoldable pub cache_del : Bytes → Run Unit
  unfolding cache_get drop_nullifier
  cache_del id = do
    disabled ← gets (λ s. s.cache_disabled)
    if disabled
        then pure tt
        else (do vote ← cache_get id; drop_nullifier vote; lru_drop (tx_key id))

  -- `CacheHasNullifier`
  unfoldable pub cache_has_nullifier : Bytes → Run Bool
  unfolding lru_lookup
  cache_has_nullifier nullifier = do
    disabled ← gets (λ s. s.cache_disabled)
    if disabled
        then pure false
        else do found ← lru_lookup (nullifier_key nullifier); pure (not (is_none found))

  -- `voteCachePurgeThreshold`
  abbrev pub vote_cache_purge_threshold : ℕ
  vote_cache_purge_threshold = 180

  -- One round of the loop of `CachePurge`, at the key of a transaction: the id of a vote that is too
  -- old. The height is added on `uint32`.
  unfoldable pub purge_one : ℕ → Bytes → Run (List Bytes)
  unfolding lru_lookup
  purge_one height id = do
    found ← lru_lookup (tx_key id)
    elim found [
      | none ↦ pure []
      | some none ↦ pure []
      | some (some vote) ↦
          if leb (add32 vote.height vote_cache_purge_threshold) height
          then (do lru_drop (nullifier_key vote.nullifier); lru_drop (tx_key id); pure (id ∷ []))
          else pure []
    ]

  -- The loop over the keys. The record at the key of a nullifier is no vote.
  unfoldable pub purge_keys : ℕ → VoteCache → Run (List Bytes)
  unfolding purge_one
  purge_keys height [] = pure []
  purge_keys height ((tx_key id, v) ∷ rest) = do
    gone ← purge_one height id
    others ← purge_keys height rest
    pure (gone ++ others)
  purge_keys height ((nullifier_key n, v) ∷ rest) = do
    found ← lru_lookup (nullifier_key n)
    purge_keys height rest

  -- `CachePurge`: the ids that are taken out of the mempool.
  unfoldable pub cache_purge : ℕ → Run (List Bytes)
  unfolding purge_keys
  cache_purge height = do
    disabled ← gets (λ s. s.cache_disabled)
    if disabled || not (height % 18 == 0)
        then pure []
        else do entries ← gets (λ s. s.vote_cache); purge_keys height entries
