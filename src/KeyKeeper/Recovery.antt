-- ===== src/KeyKeeper/Recovery.antt =====
-- vochain/keykeeper/keykeeper.go, `RevealUnpublished`: keys that should be revealed already, after a
-- node was away. The height and the processes are those of the last committed state.
use vocdoni.Base.{
  Bool, Bytes, List, [], drop, if◌then◌else◌, leb, length, negsuc, none, not, pos, some, ℕ, ℤ, ◌&&◌,
  ◌+◌, ◌==◌, ◌||◌, ◌∷◌,
}
use vocdoni.Action.{Action, Result, err, gets, modify, ok, pure, ◌>>=◌, ◌>>◌}
use vocdoni.Database.{Database}
use vocdoni.KeyKeeper.{Keeper, Node, db_prefix_block, db_prefix_process}
use vocdoni.KeyKeeper.Sending.{reveal_keys}
use vocdoni.Models.{canceled, ended}
use vocdoni.Processes.{process, status_eq}
use vocdoni.State.{State}

-- `int64(height) <= h+1`
unfoldable pub not_due : ℕ → ℤ → Bool
not_due height (pos h) = leb height (h + 1)
not_due height (negsuc h) = height == 0 && h == 0

module _ (D : Database) (node : Node) where
  unfoldable pub reveal_each : List Bytes → Action (Keeper D) Unit
  reveal_each [] = pure tt
  reveal_each (pid ∷ rest) = reveal_keys D node pid >> reveal_each rest

  -- The lists of earlier blocks; what is returned are the keys of the lists to delete.
  unfoldable pub recover_lists : ℕ → List (Bytes × Bytes) → Action (Keeper D) (List Bytes)
  unfolding not_due reveal_each
  recover_lists height [] = pure []
  recover_lists height ((key, value) ∷ rest) =
      let later = recover_lists height rest in
      elim (node.parse_int (drop (length db_prefix_block) key)) [
        | none ↦ later
        | some h ↦
            let (pids, readable) = node.unmarshal_pids value in
            if not_due height h || not readable
            then later
            else do reveal_each pids; keys ← later; pure (key ∷ keys)
      ]

  unfoldable pub delete_all : List Bytes → D.Data → D.Data
  delete_all [] storage = storage
  delete_all (key ∷ rest) storage = delete_all rest (D.delete key storage)

  -- The stored keys of processes that ended or were canceled.
  unfoldable pub recover_processes : State → List (Bytes × Bytes) → Action (Keeper D) Unit
  recover_processes chain [] = pure tt
  recover_processes chain ((key, value) ∷ rest) =
      let later = recover_processes chain rest in
      let pid = drop (length db_prefix_process) key in
      elim ((process pid chain).0) [
        | err _ ↦ later
        | ok p ↦
            if status_eq p.status canceled || status_eq p.status ended
            then reveal_keys D node pid >> later
            else later
      ]

  -- `RevealUnpublished`
  unfoldable pub reveal_unpublished : Result ℕ → State → Action (Keeper D) Unit
  unfolding recover_lists delete_all recover_processes
  reveal_unpublished (err _) chain = pure tt
  reveal_unpublished (ok height) chain = do
    lists ← gets (λ k. D.entries db_prefix_block k.storage)
    keys ← recover_lists height lists
    modify (λ k. record k { storage = delete_all keys k.storage })
    kept ← gets (λ k. D.entries db_prefix_process k.storage)
    recover_processes chain kept
