-- ===== src/KeyKeeper/Handlers.antt =====
-- vochain/keykeeper/keykeeper.go: the schedule of the keys to reveal, and what the keeper does on
-- the events of the state.
use vocdoni.Base.{
  Bool, Bytes, List, [], add32, false, if◌then◌else◌, is_none, none, not, some, true, ℕ, ◌&&◌, ◌++◌,
  ◌+◌, ◌||◌, ◌∷◌,
}
use vocdoni.Action.{Action, err, gets, modify, ok, or_raise, panic, pure, ◌>>=◌, ◌>>◌}
use vocdoni.Crypto.{decimal}
use vocdoni.Database.{Database}
use vocdoni.KeyKeeper.{Keeper, Node, at_index, db_prefix_block, generate_keys, pool_get, pool_put}
use vocdoni.KeyKeeper.Sending.{reveal_keys}
use vocdoni.Models.{Process, ProcessStatus, ended}
use vocdoni.Processes.{is_empty, process, status_eq}
use vocdoni.Processes.Results.{published}
use vocdoni.State.{State}
use vocdoni.State.Faucet.{stored}

module _ (D : Database) (node : Node) where
  -- `scheduleRevealKeys`, one process of the pool and then all of them: the process ids that were
  -- read, also with an error, are written back with one more.
  unfoldable pub scheduled_at : D.Data → ℕ → List Bytes
  scheduled_at storage height = elim (D.get storage (db_prefix_block ++ decimal height)) [
    | none ↦ []
    | some stored ↦ (node.unmarshal_pids stored).0
  ]

  unfoldable pub schedule_one : Bytes → ℕ → D.Data → D.Data
  unfolding scheduled_at
  schedule_one pid height storage =
      elim (node.marshal_pids (scheduled_at storage height ++ pid ∷ [])) [
        | none ↦ storage
        | some stored ↦ D.set (db_prefix_block ++ decimal height) stored storage
      ]

  unfoldable pub schedule_all : List (Bytes × ℕ) → D.Data → D.Data
  unfolding schedule_one
  schedule_all [] storage = storage
  schedule_all ((pid, height) ∷ rest) storage = schedule_all rest (schedule_one pid height storage)

  unfoldable pub schedule_reveal_keys : Action (Keeper D) Unit
  unfolding schedule_all
  schedule_reveal_keys = modify (λ k. record k { storage = schedule_all k.block_pool k.storage })

  -- `p.EnvelopeType.Anonymous || p.EnvelopeType.EncryptedVotes`
  unfoldable pub needs_keys : Process → Action (Keeper D) Bool
  needs_keys p = do
    kind ← or_raise p.envelope_type panic
    pure (kind.anonymous || kind.encrypted_votes)

  -- `p.EncryptionPublicKeys[k.myIndex] != ""`
  unfoldable pub key_given : Process → Action (Keeper D) Bool
  unfolding at_index
  key_given p = do
    key ← or_raise (at_index p.encryption_public_keys node.my_index) panic
    pure (not (is_empty key))

  -- The processes as the current state has them.
  module _ (chain : State) where
    -- The loop of `checkRevealProcess`: whether it came to its end.
    unfoldable pub reveal_all : List Bytes → Action (Keeper D) Bool
    unfolding needs_keys key_given
    reveal_all [] = pure true
    reveal_all (pid ∷ rest) =
        let later = reveal_all rest in
        elim ((process pid chain).0) [
          | err _ ↦ later
          | ok p ↦ do
            needed ← needs_keys p
            if not needed then pure false else do
              published ← key_given p
              if published then reveal_keys D node pid >> later else later
        ]

    -- `checkRevealProcess`, from the list of the block on.
    unfoldable pub reveal_found : ℕ → Bytes → Action (Keeper D) Unit
    unfolding reveal_all
    reveal_found height stored =
        let (pids, readable) = node.unmarshal_pids stored in
        if not readable then pure tt else do
          complete ← reveal_all pids
          if complete
              then modify (λ k. record k {
                storage = D.delete (db_prefix_block ++ decimal height) k.storage;
              })
              else pure tt

    -- `checkRevealProcess`
    unfoldable pub check_reveal_process : ℕ → Action (Keeper D) Unit
    unfolding reveal_found
    check_reveal_process height = do
      found ← gets (λ k. D.get k.storage (db_prefix_block ++ decimal height))
      elim found [ none ↦ pure tt | some stored ↦ reveal_found height stored ]

    -- `OnProcess`
    unfoldable pub on_process : Bytes → Action (Keeper D) Unit
    unfolding needs_keys key_given pool_get pool_put
    on_process pid = elim ((process pid chain).0) [
      | err _ ↦ pure tt
      | ok p ↦ do
        needed ← needs_keys p
        if not needed then pure tt else do
          published ← key_given p
          pool ← gets (λ k. k.key_pool)
          if published || not (is_none (pool_get pid pool)) then pure tt else do
            let keys = generate_keys node pid
            modify (λ k. record k { key_pool = pool_put pid keys k.key_pool })
            if is_none keys
                then pure tt
                else modify (λ k. record k {
                  block_pool = pool_put pid (add32 p.start_block p.block_count) k.block_pool;
                })
    ]

    -- The end of `OnCancel` and of `OnProcessStatusChange`.
    unfoldable pub reveal_next : Bytes → Action (Keeper D) Unit
    unfolding pool_put
    reveal_next pid =
        modify (λ k. record k { block_pool = pool_put pid (chain.current_height + 1) k.block_pool })

    -- `OnCancel`
    unfoldable pub on_cancel : Bytes → Action (Keeper D) Unit
    unfolding needs_keys key_given
    on_cancel pid = elim ((process pid chain).0) [
      | err _ ↦ pure tt
      | ok p ↦ do
        needed ← needs_keys p
        if not needed
            then pure tt
            else do published ← key_given p; if published then reveal_next pid else pure tt
    ]

    -- `OnProcessStatusChange`
    unfoldable pub on_process_status_change : Bytes → ProcessStatus → Action (Keeper D) Unit
    unfolding needs_keys key_given
    on_process_status_change pid status = elim ((process pid chain).0) [
      | err _ ↦ pure tt
      | ok p ↦ do
        needed ← needs_keys p
        if not needed then pure tt else do
          published ← key_given p
          if published && status_eq status ended then reveal_next pid else pure tt
    ]

  -- `Rollback`
  unfoldable pub rollback : Action (Keeper D) Unit
  rollback = modify (λ k. record k { key_pool = []; block_pool = [] })
