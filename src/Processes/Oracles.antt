-- ===== src/Processes/Oracles.antt =====
-- The results of an oracle, in any sequence of `SetProcessResults` calls (vochain/process.go).
use vocdoni.Base.{Bytes, List, [], false, some, true, ◌++◌, ◌∷◌, ◌≡◌}
use vocdoni.Crypto.{Env}
use vocdoni.Models.{Process, ProcessMode, ProcessResult, results}
use vocdoni.Processes.{has_oracle, is_empty, set_process_results}
use vocdoni.Processes.Status.{Holds, updated}
use vocdoni.State.{State, on_process_results}

-- The calls that a process meets after one another. A refused call is passed over.
unfoldable pub later_results : Env → Bytes → List ProcessResult → State → State
later_results env pid [] s = s
later_results env pid (r ∷ rs) s = later_results env pid rs (set_process_results env pid r true s).1

module _ (env : Env) {pid : Bytes} {p : Process} {m : ProcessMode} (r : ProcessResult) (s : State)
    (held : Holds s pid p m) (full : is_empty p.results ≡ false) where
  abbrev longer : Process
  longer = record p { results = p.results ++ r ∷ []; status = results }

  abbrev longer_state : State
  longer_state = record (updated pid longer s) {
    events = s.events ++ on_process_results p.process_id r s.tx_counter ∷ [];
  }

-- An oracle has results in a process of an entity.
record HasResult (env : Env) (pid entity oracle : Bytes) (m : ProcessMode) (s : State)
    : Type 0 where
  p : Process
  held : Holds s pid p m
  of_entity : p.entity_id ≡ entity
  has_results : p.status ≡ results
  full : is_empty p.results ≡ false
  by_oracle : has_oracle (some oracle) p.results ≡ true
