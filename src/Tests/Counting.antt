-- ===== src/Tests/Counting.antt =====
-- A small election whose votes are counted.
use vocdoni.Base.{
  Bytes, List, [], arith, get_or, inr, length, refl, some, suc, true, u64_mod, zero, ℕ, ◌<◌, ◌∷◌,
  ◌≡◌, ◌≤◌,
}
use vocdoni.Action.{err, ok, panic}
use vocdoni.Models.Proofs.{VoteEnvelope}
use vocdoni.Results.{ProcessVoteOptions, Results, add, add_vote, ballot_check}
use vocdoni.Results.Count.{IsShaped, all_below}
use vocdoni.Results.Merge.{IsMerged, add-IsMerged}
use vocdoni.Results.Shape.{cell}
use vocdoni.Results.Stray.{stray_value_panics}
use vocdoni.Tally.{IndexedProcess, VoteCodec, compute_final_results, empty_results, envelope_vote}
use vocdoni.Tally.Final.{compute_final_results-IsSum, new_results-IsShaped}
use vocdoni.Tally.Order.{final_results_order}
use vocdoni.Tally.Sums.{IsSum, all_safe, is_safe, is_valid, valid_count}
use vocdoni.Tests.{pid}
use vocdoni.Tests.Voting.{cast, plain}
use mathlib.Core.List.Permᴰ

abbrev test_codec : VoteCodec
test_codec = record {
  decode_private = λ b. some b;
  decrypt = λ key b. some b;
  unmarshal = λ b. some b;
}

-- Two questions with the answers 0, 1 and 2.
abbrev two_questions : ProcessVoteOptions
two_questions = record { max_count = 2; max_value = 2; max_total_cost = 0; cost_exponent = 1 }

abbrev election : IndexedProcess
election = record {
  id = pid;
  vote_opts = some two_questions;
  envelope = some plain;
  private_keys = [];
}

abbrev envelope_of : Bytes → VoteEnvelope
envelope_of values = record cast { vote_package = values }

-- A voter of weight 5, one of weight 7 and one with an answer that does not exist.
abbrev envelopes : List (VoteEnvelope × ℕ)
envelopes =
    (envelope_of (1 ∷ 2 ∷ []), 5)
    ∷ (envelope_of (1 ∷ 0 ∷ []), 7)
    ∷ (envelope_of (3 ∷ 0 ∷ []), 9)
    ∷ []

abbrev reordered : List (VoteEnvelope × ℕ)
reordered =
    (envelope_of (1 ∷ 0 ∷ []), 7)
    ∷ (envelope_of (1 ∷ 2 ∷ []), 5)
    ∷ (envelope_of (3 ∷ 0 ∷ []), 9)
    ∷ []

envelopes_safe : all_safe test_codec election two_questions plain envelopes ≡ true
unfolding all_safe is_safe envelope_vote all_below
envelopes_safe = refl

envelopes_count : valid_count test_codec election two_questions plain envelopes < u64_mod
unfolding valid_count is_valid envelope_vote ballot_check
envelopes_count = omega arith

compute_final_results-IsSum_example :
    (u : Results) × (compute_final_results test_codec 40 election envelopes ≡ ok u)
    × IsSum test_codec election two_questions plain envelopes u
compute_final_results-IsSum_example =
    compute_final_results-IsSum test_codec election two_questions plain 40 envelopes refl refl
      (omega arith) (omega arith) (omega arith) (omega arith) envelopes_safe envelopes_count

final_results_order_example :
    (u u' : Results) × (compute_final_results test_codec 40 election envelopes ≡ ok u)
    × (compute_final_results test_codec 40 election reordered ≡ ok u')
    × ((q i : ℕ) → cell u q i ≡ cell u' q i)
    × (u.weight ≡ u'.weight)
    × (u.envelope_height ≡ u'.envelope_height)
final_results_order_example =
    final_results_order test_codec election two_questions plain 40 envelopes reordered
      (Permᴰ.swap refl refl) refl refl (omega arith) (omega arith) (omega arith) (omega arith)
      envelopes_safe envelopes_count

-- The count, by running it: 12 for the answer 1 to the first question, and two envelopes.
counted :
    compute_final_results test_codec 40 election envelopes
    ≡ ok (record {
      process_id = pid;
      votes = (0 ∷ 12 ∷ 0 ∷ []) ∷ (7 ∷ 0 ∷ 5 ∷ []) ∷ [];
      weight = 12;
      envelope_height = 2;
      envelope_type = some plain;
      vote_opts = some two_questions;
      final = true;
      block_height = 40;
    })
unfolding compute_final_results
counted = refl

abbrev running : Results
running = empty_results 40 election two_questions

running-IsShaped : IsShaped two_questions plain running
running-IsShaped =
    new_results-IsShaped test_codec election two_questions plain 40 refl (omega arith) (omega arith)

stray_passes : ballot_check two_questions plain (4294967296 ∷ []) (some 1) ≡ ok tt
unfolding ballot_check
stray_passes = refl

stray_value_panics_example : (add_vote (4294967296 ∷ []) (some 1) running).0 ≡ err panic
stray_value_panics_example =
    stray_value_panics two_questions plain (some 1) running 4294967296 running-IsShaped stray_passes
      (omega arith)

-- The live results of a block.
abbrev part : Results
part = record running {
  votes = (1 ∷ 2 ∷ 3 ∷ []) ∷ (4 ∷ 0 ∷ []) ∷ [];
  weight = 6;
  envelope_height = 2;
}

part_within : (j : ℕ) → length (get_or part.votes j []) ≤ 3
part_within zero = omega arith
part_within (suc zero) = omega arith
part_within (suc (suc j)) = omega arith

add-IsMerged_example :
    (u : Results) × (add part running ≡ (ok tt, u))
    × IsShaped two_questions plain u
    × IsMerged part running u
add-IsMerged_example =
    add-IsMerged two_questions plain part running running-IsShaped (inr refl) part_within
