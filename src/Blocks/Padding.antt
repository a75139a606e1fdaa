-- ===== src/Blocks/Padding.antt =====
-- The results of a process after the block that sets them (vochain/process.go and vochain/state.go).
use vocdoni.Base.{Bytes, List, [], ap, false, some, true, ℕ, ◌<◌, ◌∙◌, ◌≡◌}
use vocdoni.Action.{ok}
use vocdoni.Blocks.{App, Chain, finish_commit}
use vocdoni.Blocks.Commit.{finish_inv}
use vocdoni.Crypto.{Env}
use vocdoni.Models.{Process, ProcessMode, ProcessResult}
use vocdoni.Processes.{get_process_results, has_oracle, set_process_results}
use vocdoni.Processes.Results.{Matches, ResultsTime, held_results, oracle_count, read_padding}
use vocdoni.Processes.Status.{Holds}
use vocdoni.State.{State}

-- The first element of the slice that is made for a process without results is padding: once an oracle
-- is counted, and the state that `SetProcessResults` leaves is committed, reading the results gives
-- none, and not those that were set.
pub get_process_results_padding :
    (env : Env) (chain : Chain) {pid oracle : Bytes} {p : Process} {m : ProcessMode}
    (r : ProcessResult) (s : State) (height : ℕ) (starting : List Bytes) (app : App) {hash : Bytes}
    {last : App}
    → Holds s pid p m
    → Matches r p oracle
    → ResultsTime p s
    → p.results ≡ []
    → 0 < oracle_count env s
    → has_oracle (some oracle) (held_results env p s) ≡ false
    → app.state ≡ (set_process_results env pid r true s).1
    → finish_commit env chain height starting app ≡ (ok hash, last)
    → get_process_results pid last.committed ≡ ok []
get_process_results_padding env chain {pid} r s height starting app held fits time empty oracles
      fresh left saved =
    let (committed, _, _) = finish_inv env chain height starting app saved in
    ap (get_process_results pid) (committed ∙ left)
    ∙ read_padding env r s held fits time empty oracles fresh
