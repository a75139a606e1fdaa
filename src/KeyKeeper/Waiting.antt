-- ===== src/KeyKeeper/Waiting.antt =====
-- From the block that schedules a process to the one that reveals it: the lists in the storage wait,
-- whatever other steps the keeper takes.
use vocdoni.Base.{Bytes, ℕ, ◌≢◌}
use vocdoni.Database.{Database, IsLawful}
use vocdoni.KeyKeeper.{Keeper, Node}
use vocdoni.KeyKeeper.Schedule.{IsListed, PidCodec}
use vocdoni.KeyKeeper.Steps.{RunsOnly, Step, World, reveal}
use vocdoni.State.{State}

module _ (D : Database) (node : Node) where
  -- Steps of which none runs the check of a block.
  pub data Waits (height : ℕ) : World D → World D → Type 0 where
    ended_here : (w : World D) → Waits height w w
    waited :
        (w v u : World D) (step : Step D node w v)
        → RunsOnly D node (λ t. t ≢ reveal height) w v step
        → Waits height v u
        → Waits height w u

module _ (D : Database) (node : Node) (lawful : IsLawful D) (codec : PidCodec node) where
  -- A process waits on the list of a block.
  IsQueued : Bytes → ℕ → Keeper D → Type 0
  IsQueued pid height k = IsListed D node pid height k.storage
