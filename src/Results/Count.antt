-- ===== src/Results/Count.antt =====
-- What `AddVote` (vochain/scrutinizer/indexertypes/results.go) counts.
use vocdoni.Base.{
  Bool, List, Option, [], add64, ap, arith, false, if◌then◌else◌, length, ltb, refl, some, suc,
  true, u32_mod, zero, ℕ, ◌%◌, ◌&&◌, ◌+◌, ◌<◌, ◌==◌, ◌∙◌, ◌∷◌, ◌≡◌, ◌≤◌,
}
use vocdoni.Action.{Error, Result, err, ok, ◌>>◌}
use vocdoni.Action.Preserve.{bind_err, bind_ok}
use vocdoni.Models.{EnvelopeType}
use vocdoni.Results.{
  ProcessVoteOptions, Results, add_cell, add_envelope, add_values, add_vote, ballot_check,
  indexed_votes, or_one, some_above, vote_check,
}
use vocdoni.Results.Shape.{Adds, add_cell_lem, at, cell, nothing-Adds, twice-Adds, width}

-- The answer to a question is the option.
unfoldable pub answers : List ℕ → ℕ → ℕ → Bool
answers [] q i = false
answers (v ∷ vs) zero i = v == i
answers (v ∷ vs) (suc q) i = answers vs q i

-- What a vote adds to the cell of a question and an option.
abbrev pub given_to : ℕ → List ℕ → ℕ → ℕ → ℕ
given_to w values q i = if answers values q i then w else 0

unfoldable pub all_below : ℕ → List ℕ → Bool
all_below n [] = true
all_below n (v ∷ vs) = ltb v n && all_below n vs

-- What the loop adds, from a question on.
share : ℕ → ℕ → List ℕ → ℕ → ℕ → ℕ
share w q [] j i = 0
share w q (v ∷ vs) j i = at q v w j i + share w (suc q) vs j i

pub plus_suc : (q j : ℕ) → q + suc j ≡ suc q + j
plus_suc q j = omega arith

pub zero_plus : (q : ℕ) → 0 + q ≡ q
zero_plus q = omega arith

share_before : (w q : ℕ) (vs : List ℕ) (j i : ℕ) → j < q → share w q vs j i ≡ 0
unfolding share
share_before w q [] j i h = refl
share_before w q (v ∷ vs) j i h = ground (arith, share_before w (suc q) vs j i)

share-answers : (w q : ℕ) (vs : List ℕ) (j i : ℕ) → share w q vs (q + j) i ≡ given_to w vs j i
unfolding share answers
share-answers w q [] j i = refl
share-answers w q (v ∷ vs) zero i =
    let later : share w (suc q) vs (q + 0) i ≡ 0 =
      share_before w (suc q) vs (q + 0) i (omega arith) in
    ground arith
share-answers w q (v ∷ vs) (suc j) i =
    let later : share w (suc q) vs (q + suc j) i ≡ given_to w vs j i =
      rw (plus_suc q j) (share-answers w (suc q) vs j i) in
    ground arith

indexed_votes_lem :
    (w q : ℕ) (vs : List ℕ) (r : Results) (n : ℕ)
    → q + length vs ≤ length r.votes
    → ((j : ℕ) → j < length r.votes → width r j ≡ n)
    → all_below n vs ≡ true
    → (u : Results) × (indexed_votes w q vs r ≡ (ok tt, u)) × Adds r u (share w q vs)
unfolding indexed_votes share all_below
indexed_votes_lem w q [] r n fit widths below = (r, refl, nothing-Adds r)
indexed_votes_lem w q (v ∷ vs) r n fit widths below =
    let wide = widths q (omega arith) in
    let (s, done, first) = add_cell_lem q v w r (omega arith) (ground arith) in
    let (u, rest, second) =
      indexed_votes_lem w (suc q) vs s n (omega (arith, first.same_rows))
        (λ j h. first.same_widths j ∙ widths j (omega (arith, first.same_rows))) (ground arith) in
    (
      u,
      bind_ok (add_cell q v w) (λ _. indexed_votes w (suc q) vs) r done ∙ rest,
      twice-Adds r s u (at q v w) (share w (suc q) vs) first second,
    )

some_above_below :
    (max : ℕ) (vs : List ℕ)
    → all_below u32_mod vs ≡ true
    → some_above max vs ≡ false
    → all_below (suc max) vs ≡ true
unfolding some_above all_below
some_above_below max [] small none_above = refl
some_above_below max (v ∷ vs) small none_above =
    let rest = some_above_below max vs (ground arith) (ground arith) in
    let word : v < u32_mod = ground arith in
    let same : v % u32_mod ≡ v = omega arith in
    let fits : ltb max (v % u32_mod) ≡ false = ground arith in ground arith

ballot_check_inv :
    (opts : ProcessVoteOptions) (et : EnvelopeType) (values : List ℕ) (w : Option ℕ)
    → ballot_check opts et values w ≡ ok tt
    → (length values ≤ opts.max_count)
      × (0 < opts.max_value → some_above opts.max_value values ≡ false)
unfolding ballot_check
ballot_check_inv opts et values w h = (ground arith, λ pos. ground arith)

-- The matrix has a row for each question and a column for each option.
pub record IsShaped (opts : ProcessVoteOptions) (et : EnvelopeType) (r : Results) : Type 0 where
  pub kind : r.envelope_type ≡ some et
  pub options : r.vote_opts ≡ some opts
  pub questions : length r.votes ≡ opts.max_count
  pub columns : (q : ℕ) → q < opts.max_count → width r q ≡ suc opts.max_value
  pub some_questions : 0 < opts.max_count
  pub some_values : 0 < opts.max_value

-- What a vote that is counted changes.
pub record IsCounted (values : List ℕ) (w : ℕ) (r u : Results) : Type 0 where
  pub cells : (q i : ℕ) → cell u q i ≡ cell r q i + given_to w values q i
  pub weighed : u.weight ≡ r.weight + w
  pub height : u.envelope_height ≡ add64 r.envelope_height 1

module _ (opts : ProcessVoteOptions) (et : EnvelopeType) (values : List ℕ) (given : Option ℕ)
    (r : Results) where
  -- With results of the right shape, the checks are the rules of the ballot.
  pub vote_check_lem :
      (b : Result Unit)
      → ballot_check opts et values given ≡ b
      → IsShaped opts et r
      → vote_check values given r
        ≡ elim b as (λ _. Result (ProcessVoteOptions × EnvelopeType) × Results) [
          | ok _ ↦ (ok (opts, et), r)
          | err e ↦ (err e, r)
        ]
  unfolding vote_check
  vote_check_lem (ok tt) e shape = ground (arith, shape.options, shape.questions, shape.kind, e)
  vote_check_lem (err x) e shape = ground (arith, shape.options, shape.questions, shape.kind, e)

  -- A vote that the rules refuse changes nothing.
  pub refused_vote_lem :
      (e : Error)
      → ballot_check opts et values given ≡ err e
      → IsShaped opts et r
      → add_vote values given r ≡ (err e, r)
  unfolding add_vote
  refused_vote_lem e refused shape =
      bind_err (vote_check values given)
        (λ x. add_envelope x.0 (or_one given) >> add_values x.0 x.1 (or_one given) values) r
        (vote_check_lem (err e) refused shape)

  -- A vote that the rules let pass, with values below 2 ^ 32, is counted.
  pub add_vote_lem :
      IsShaped opts et r
      → all_below u32_mod values ≡ true
      → ballot_check opts et values given ≡ ok tt
      → (u : Results) × (add_vote values given r ≡ (ok tt, u))
        × IsShaped opts et u
        × IsCounted values (or_one given) r u
  unfolding add_vote add_envelope add_values
  add_vote_lem shape small passed =
      let (short, none_above) = ballot_check_inv opts et values given passed in
      let w = or_one given in
      let checked = vote_check_lem (ok tt) passed shape in
      let rows : (length r.votes == 0) ≡ false =
        ground (arith, shape.questions, shape.some_questions) in
      let s : Results = record r {
        weight = r.weight + w;
        envelope_height = add64 r.envelope_height 1;
      } in
      let start : add_envelope opts w r ≡ (ok tt, s) = rw rows refl in
      let has_max : (opts.max_value == 0) ≡ false = ground (arith, shape.some_values) in
      let (u, looped, adds) =
        indexed_votes_lem w 0 values s (suc opts.max_value) (omega (arith, shape.questions))
          (λ j h. shape.columns j (rw shape.questions at h))
          (some_above_below opts.max_value values small (none_above shape.some_values)) in
      let last : add_values opts et w values s ≡ (ok tt, u) = rw has_max looped in
      (
        u,
        bind_ok (vote_check values given) (λ x. add_envelope x.0 w >> add_values x.0 x.1 w values) r
              checked
            ∙ bind_ok (add_envelope opts w) (λ _. add_values opts et w values) r start
            ∙ last,
        record {
          kind = ap (λ x. x.envelope_type) adds.only_votes ∙ shape.kind;
          options = ap (λ x. x.vote_opts) adds.only_votes ∙ shape.options;
          questions = adds.same_rows ∙ shape.questions;
          columns = λ q h. adds.same_widths q ∙ shape.columns q h;
          some_questions = shape.some_questions;
          some_values = shape.some_values;
        },
        record {
          cells = λ q i.
              adds.added q i
              ∙ ap (λ x. cell r q i + x) (rw (zero_plus q) at (share-answers w 0 values q i));
          weighed = ap (λ x. x.weight) adds.only_votes;
          height = ap (λ x. x.envelope_height) adds.only_votes;
        },
      )
