-- ===== src/Tests/Chains.antt =====
-- Blocks of the small network.
use vocdoni.Base.{Bytes, [], ap, bytes_eq, false, inl, none, refl, replicate, some, true, ◌∷◌, ◌≡◌}
use vocdoni.Action.{Result, ok}
use vocdoni.AddTx.{add_tx}
use vocdoni.Blocks.{
  App, Call, Chain, accepted, check_tx, commit, deliver_response, deliver_tx, finish_commit,
  set_census_size, set_rolling_census_size, write_process,
}
use vocdoni.Blocks.Aborted.{check_tx_changes, trees}
use vocdoni.Blocks.CensusSize.{HasSize}
use vocdoni.Blocks.Commit.{commit_inv, starting_next}
use vocdoni.Blocks.Padding.{get_process_results_padding}
use vocdoni.Blocks.Votes.{delivered_vote_stays}
use vocdoni.CensusProof.{verify_proof}
use vocdoni.Crypto.{addr_from_public_key, pub_key_from_signature}
use vocdoni.Models.{Process, StateDbVote, ended, ready}
use vocdoni.Processes.{get_process_results, process, set_process_results}
use vocdoni.RollingCensus.{get_rolling_census_size, need_census_root}
use vocdoni.State.{State}
use vocdoni.Tests.{ballot, pid, signed_by, test_env, test_mode, test_state}
use vocdoni.Tests.Ballots.{nobody_yet, one_oracle, outcome, outcome-Matches, test-Holds}
use vocdoni.Tests.Voting.{cast, cast_by_one, message, nullifier_of, voting, voting-IsCachedFor}
use vocdoni.Tx.{tx_vote}
use vocdoni.VoteCheck.{vote_envelope_check}
use vocdoni.Votes.{add_vote}
use vocdoni.Votes.Stored.{vid_of}
use mathlib.Core.List.{Memᴰ}

-- Each transaction is the same vote.
abbrev only_vote : Call
only_vote = record { tx_bytes = message; signature = signed_by 1; tx = tx_vote cast (7 ∷ []) }

abbrev chain : Chain
chain = record { unmarshal = λ raw. some only_vote; root = λ s. 3 ∷ []; halts = λ h. false }

abbrev app_of : State → App
app_of s = record {
  committed = s;
  state = s;
  height = 14;
  start_block_timestamp = 0;
  end_block_timestamp = 0;
}

check_tx_changes_example :
    let after = (check_tx test_env chain false (1 ∷ []) (app_of voting)).1 in
    record after { state = record after.state { vote_cache = voting.vote_cache } } ≡ app_of voting
check_tx_changes_example = check_tx_changes test_env chain false (1 ∷ []) (app_of voting)

-- A process with registration that starts in the next block, and a key in its census.
abbrev registered : Process
registered = record (ballot ready) {
  mode = some (record test_mode { pre_register = true });
  rolling_census_root = replicate 32 0;
}

abbrev before_start : State
before_start = record (test_state 9 ready) {
  processes = λ id. some (record { process = registered; votes_root = [] });
  rolling_census = λ id. some ((8 ∷ []) ∷ []);
  pids_by_start_block = λ b. pid ∷ [];
}

abbrev started_app : App
started_app = (commit test_env chain (app_of before_start)).1

committed_lem : commit test_env chain (app_of before_start) ≡ (ok (3 ∷ []), started_app)
unfolding commit finish_commit set_rolling_census_size set_census_size process write_process
    get_rolling_census_size need_census_root
committed_lem = refl

commit_inv_example :
    ((q : Bytes) → Memᴰ q (pid ∷ []) → HasSize started_app.committed q)
    × (started_app.committed.votes ≡ before_start.votes)
    × ((3 ∷ []) ≡ chain.root started_app.committed)
    × (trees test_env chain started_app.state ≡ trees test_env chain started_app.committed)
unfolding starting_next
commit_inv_example = commit_inv test_env chain (app_of before_start) committed_lem

abbrev delivered_app : App
delivered_app = (deliver_tx test_env chain (1 ∷ []) (app_of voting)).1

abbrev committed_app : App
committed_app = (commit test_env chain delivered_app).1

vote_delivered :
    deliver_tx test_env chain (1 ∷ []) (app_of voting)
    ≡ (ok (accepted (nullifier_of 1)), delivered_app)
unfolding deliver_tx deliver_response
vote_delivered =
    ap (λ (x : Result Bytes). (deliver_response x, delivered_app))
      (ap (λ (x : Result Bytes × State). x.0) cast_by_one)

vote_committed : commit test_env chain delivered_app ≡ (ok (3 ∷ []), committed_app)
unfolding commit finish_commit set_rolling_census_size deliver_tx add_tx vote_envelope_check
    bytes_eq pub_key_from_signature addr_from_public_key verify_proof add_vote
vote_committed = refl

delivered_vote_stays_example :
    (voting.votes pid (vid_of test_env pid (nullifier_of 1)) ≡ none)
    × (leaf : StateDbVote) × (committed_app.committed.votes pid
          (vid_of test_env pid (nullifier_of 1))
        ≡ some leaf)
    × (leaf.process_id ≡ pid)
    × (leaf.nullifier ≡ nullifier_of 1)
delivered_vote_stays_example =
    delivered_vote_stays test_env chain (1 ∷ []) (app_of voting) only_vote cast (7 ∷ []) refl refl
      voting-IsCachedFor vote_delivered vote_committed

-- The results of the process are set in a block that is saved.
abbrev results_app : App
results_app = app_of (set_process_results test_env pid outcome true (test_state 40 ended)).1

abbrev saved_app : App
saved_app = (finish_commit test_env chain 40 [] results_app).1

results_saved : finish_commit test_env chain 40 [] results_app ≡ (ok (3 ∷ []), saved_app)
unfolding finish_commit
results_saved = refl

get_process_results_padding_example : get_process_results pid saved_app.committed ≡ ok []
get_process_results_padding_example =
    get_process_results_padding test_env chain outcome (test_state 40 ended) 40 [] results_app
      (test-Holds 40 ended) (outcome-Matches ended) (inl refl) refl one_oracle nobody_yet refl
      results_saved
