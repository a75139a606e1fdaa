-- ===== src/Tests/Ballots.antt =====
-- The statuses and results of the process of Tests.antt (vochain/process.go).
use vocdoni.Base.{
  List, [], arith, bytes_eq, bytes_eq_refl, false, refl, replicate, some, ℕ, ◌<◌, ◌↔◌, ◌∷◌, ◌≡◌,
}
use vocdoni.Action.{err, ok, wrong_status}
use vocdoni.Models.{Process, ProcessResult, ProcessStatus, ended, paused, ready, results}
use vocdoni.Processes.{has_oracle, set_process_results, set_process_status}
use vocdoni.Processes.LifeCycle.{attempts, attempts_steps}
use vocdoni.Processes.Results.{Matches, held_results, oracle_count, ready_results_opposed}
use vocdoni.Processes.Status.{Holds, ◌⟶*◌}
use vocdoni.State.Oracles.{live}
use vocdoni.Tests.{ballot, pid, test_env, test_mode, test_state}

pub test-Holds :
    (height : ℕ) (st : ProcessStatus) → Holds (test_state height st) pid (ballot st) test_mode
test-Holds height st = record {
  stored = ([], ground (arith, bytes_eq_refl pid));
  named = refl;
  sized = refl;
  mode = refl;
}

abbrev requests : List (ℕ × ProcessStatus)
requests = (12, paused) ∷ (13, ended) ∷ (14, ready) ∷ (40, ended) ∷ []

attempts_steps_example :
    (q : Process) × Holds (attempts pid requests (test_state 12 ready)) pid q test_mode
    × (ready ⟶* q.status)
    × (q ≡ record (ballot ready) { status = q.status })
attempts_steps_example = attempts_steps pid requests (test_state 12 ready) (test-Holds 12 ready)

-- Results that the oracle 5 publishes.
abbrev pub outcome : ProcessResult
outcome = record {
  process_id = pid;
  entity_id = 1 ∷ replicate 19 0;
  oracle_address = some (5 ∷ []);
  votes = ((1 ∷ []) ∷ (2 ∷ []) ∷ []) ∷ [];
}

pub outcome-Matches : (st : ProcessStatus) → Matches outcome (ballot st) (5 ∷ [])
outcome-Matches st = record { of_process = refl; of_entity = refl; of_signer = refl }

pub nobody_yet :
    has_oracle (some (5 ∷ [])) (held_results test_env (ballot ended) (test_state 40 ended)) ≡ false
unfolding has_oracle live bytes_eq
nobody_yet = refl

pub one_oracle : 0 < oracle_count test_env (test_state 40 ended)
unfolding live
one_oracle = omega arith

-- Results that the oracle 6 publishes in between.
abbrev other_outcome : ProcessResult
other_outcome = record outcome { oracle_address = some (6 ∷ []) }

ready_results_opposed_example :
    ((set_process_status pid results false (test_state 40 ready)).0 ≡ ok tt)
    ↔ ((set_process_results test_env pid outcome false (test_state 40 ready)).0 ≡ err wrong_status)
ready_results_opposed_example =
    ready_results_opposed test_env outcome (test_state 40 ready) (test-Holds 40 ready)
      (outcome-Matches ready) refl
