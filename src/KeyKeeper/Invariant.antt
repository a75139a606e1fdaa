-- ===== src/KeyKeeper/Invariant.antt =====
-- What each handler and task of the keeper keeps, its steps keep.
use vocdoni.Base.{[]}
use vocdoni.Action.Preserve.{Preserves, after_call}
use vocdoni.Database.{Database}
use vocdoni.KeyKeeper.{Keeper, Node}
use vocdoni.KeyKeeper.Handlers.{rollback, schedule_all, schedule_reveal_keys}
use vocdoni.KeyKeeper.Kept.{
  IsKept, on_cancel-Preserves, on_process-Preserves, on_process_status_change-Preserves,
}
use vocdoni.KeyKeeper.Steps.{
  RunsOnly, Step, Task, World, begun, commit, committed, ran, run_task, told_cancel, told_process,
  told_status,
}
use vocdoni.State.{State}

module _ (D : Database) (node : Node) {P : Keeper D → Type 0} (kept : IsKept D node P) where
  -- A property that the handlers' writes, the start of a block, `Commit` and the tasks that are run
  -- keep holds after a step.
  pub step_lem :
      (allowed : Task → Type 0)
      → ((k : Keeper D) → P k → P (record k { key_pool = []; block_pool = [] }))
      → ((k : Keeper D)
          → P k
          → P (record k { storage = schedule_all D node k.block_pool k.storage }))
      → ((chain : State) (t : Task) → allowed t → Preserves P (run_task D node chain t))
      → (w v : World D) (step : Step D node w v) → RunsOnly D node allowed w v step
      → P w.keeper
      → P v.keeper
  unfolding commit rollback schedule_reveal_keys RunsOnly
  step_lem allowed begins commits runs _ _ (begun w) _ h = begins w.keeper h
  step_lem allowed begins commits runs _ _ (told_process w chain pid k e) _ h =
      after_call (on_process-Preserves D node kept chain pid) h e
  step_lem allowed begins commits runs _ _ (told_status w chain pid status k e) _ h =
      after_call (on_process_status_change-Preserves D node kept chain pid status) h e
  step_lem allowed begins commits runs _ _ (told_cancel w chain pid k e) _ h =
      after_call (on_cancel-Preserves D node kept chain pid) h e
  step_lem allowed begins commits runs _ _ (committed w height) _ h = commits w.keeper h
  step_lem allowed begins commits runs _ _ (ran w chain before rest t k same e) fits h =
      after_call (runs chain t fits) h e
