-- ===== src/KeyKeeper/Steps.antt =====
-- vochain/keykeeper/keykeeper.go: the steps of a keeper. `Commit` schedules at once and leaves two
-- goroutines, which take the lock in either order and at any time, also in the next block.
use vocdoni.Base.{Bytes, List, [], ℕ, ◌++◌, ◌∷◌, ◌≡◌}
use vocdoni.Action.{Action, ok}
use vocdoni.Database.{Database}
use vocdoni.KeyKeeper.{Keeper, Node}
use vocdoni.KeyKeeper.Handlers.{
  check_reveal_process, on_cancel, on_process, on_process_status_change, rollback,
  schedule_reveal_keys,
}
use vocdoni.KeyKeeper.Sending.{publish_pending_keys}
use vocdoni.Models.{ProcessStatus}
use vocdoni.State.{State}
use Prim.{Unit, tt}

pub data Task : Type 0 where
  reveal : ℕ → Task
  publish : Task

pub record World (D : Database) : Type 0 where
  pub keeper : Keeper D
  pub tasks : List Task

module _ (D : Database) (node : Node) where
  unfoldable pub run_task : State → Task → Action (Keeper D) Unit
  run_task chain (reveal height) = check_reveal_process D node chain height
  run_task chain publish = publish_pending_keys D node

  -- `Commit`
  unfoldable pub commit : ℕ → World D → World D
  unfolding schedule_reveal_keys
  commit height w = record {
    keeper = (schedule_reveal_keys D node w.keeper).1;
    tasks = w.tasks ++ reveal height ∷ publish ∷ [];
  }

  -- A step is one that does not stop the node; the state of the chain may be another in each.
  pub data Step : World D → World D → Type 0 where
    begun : (w : World D) → Step w (record w { keeper = (rollback D node w.keeper).1 })
    told_process :
        (w : World D) (chain : State) (pid : Bytes) (k : Keeper D)
        → on_process D node chain pid w.keeper ≡ (ok tt, k)
        → Step w (record w { keeper = k })
    told_status :
        (w : World D) (chain : State) (pid : Bytes) (status : ProcessStatus) (k : Keeper D)
        → on_process_status_change D node chain pid status w.keeper ≡ (ok tt, k)
        → Step w (record w { keeper = k })
    told_cancel :
        (w : World D) (chain : State) (pid : Bytes) (k : Keeper D)
        → on_cancel D node chain pid w.keeper ≡ (ok tt, k)
        → Step w (record w { keeper = k })
    committed : (w : World D) (height : ℕ) → Step w (commit height w)
    ran :
        (w : World D) (chain : State) (before after : List Task) (t : Task) (k : Keeper D)
        → w.tasks ≡ before ++ t ∷ after
        → run_task chain t w.keeper ≡ (ok tt, k)
        → Step w (record { keeper = k; tasks = before ++ after })

  -- What a keeper comes to from a start without pools and goroutines.
  pub data Reached : World D → Type 0 where
    started :
        (storage : D.Data)
        → Reached (record {
          keeper = record { storage = storage; key_pool = []; block_pool = []; sent = [] };
          tasks = [];
        })
    stepped : (w v : World D) → Reached w → Step w v → Reached v

  -- A step that runs no other tasks than those of a kind.
  unfoldable pub RunsOnly : (Task → Type 0) → (w v : World D) → Step w v → Type 0
  RunsOnly allowed _ _ (ran w chain before after t k e done) = allowed t
  RunsOnly allowed _ _ _ = Unit
