-- ===== src/Results/Stray.antt =====
-- A value that `AddVote` (vochain/scrutinizer/indexertypes/results.go) lets pass but cannot count: the
-- maximum is compared with the low 32 bits, and the whole value is the index.
use vocdoni.Base.{
  Option, [], add64, ap, arith, false, length, refl, suc, ℕ, ◌+◌, ◌<◌, ◌==◌, ◌∙◌, ◌∷◌, ◌≡◌,
}
use vocdoni.Action.{err, ok, panic, ◌>>◌}
use vocdoni.Action.Preserve.{bind_err, bind_ok}
use vocdoni.Models.{EnvelopeType}
use vocdoni.Results.{
  ProcessVoteOptions, Results, add_cell, add_envelope, add_values, add_vote, ballot_check,
  indexed_votes, or_one, vote_check,
}
use vocdoni.Results.Count.{IsShaped, vote_check_lem}
use vocdoni.Results.Shape.{stray_cell, width}

module _ (opts : ProcessVoteOptions) (et : EnvelopeType) (given : Option ℕ) (r : Results) where
  -- A vote of one value above the maximum that the rules let pass stops the node.
  pub stray_value_panics :
      (v : ℕ)
      → IsShaped opts et r
      → ballot_check opts et (v ∷ []) given ≡ ok tt
      → opts.max_value < v
      → (add_vote (v ∷ []) given r).0 ≡ err panic
  unfolding add_vote add_envelope add_values indexed_votes
  stray_value_panics v shape passed above =
      let w = or_one given in
      let s : Results = record r {
        weight = r.weight + w;
        envelope_height = add64 r.envelope_height 1;
      } in
      let checked = vote_check_lem opts et (v ∷ []) given r (ok tt) passed shape in
      let rows : (length r.votes == 0) ≡ false =
        ground (arith, shape.questions, shape.some_questions) in
      let start : add_envelope opts w r ≡ (ok tt, s) = rw rows refl in
      let has_max : (opts.max_value == 0) ≡ false = ground (arith, shape.some_values) in
      let wide : width r 0 ≡ suc opts.max_value = shape.columns 0 shape.some_questions in
      let out =
        stray_cell 0 v w s (omega (arith, shape.questions, shape.some_questions)) (omega arith) in
      let last : add_values opts et w (v ∷ []) s ≡ (err panic, s) =
        rw has_max (bind_err (add_cell 0 v w) (λ _. indexed_votes w 1 []) s out) in
      ap (λ x. x.0)
        (bind_ok (vote_check (v ∷ []) given)
            (λ x. add_envelope x.0 w >> add_values x.0 x.1 w (v ∷ [])) r checked
          ∙ bind_ok (add_envelope opts w) (λ _. add_values opts et w (v ∷ [])) r start
          ∙ last)
