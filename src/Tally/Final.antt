-- ===== src/Tally/Final.antt =====
-- The final results of a process are sums over its envelopes (vochain/scrutinizer/vote.go).
use vocdoni.Base.{
  Bool, List, [], add64, ap, arith, false, if◌then◌else◌, inl, inr, length-replicate, ltb, not,
  refl, replicate, some, suc, true, u32_mod, u64_mod, ℕ, ◌+◌, ◌<◌, ◌==◌, ◌||◌, ◌∙◌, ◌∷◌, ◌≡◌, ◌≤◌,
}
use vocdoni.Action.{Result, err, ok}
use vocdoni.Action.Preserve.{bind_ok}
use vocdoni.Models.{EnvelopeType}
use vocdoni.Models.Proofs.{VoteEnvelope}
use vocdoni.Results.{
  ProcessVoteOptions, Results, add_vote, ballot_check, max_options, max_questions, or_one,
}
use vocdoni.Results.Count.{IsShaped, add_vote_lem, all_below, given_to, refused_vote_lem}
use vocdoni.Results.Shape.{cell}
use vocdoni.Tally.{
  IndexedProcess, VoteCodec, compute_final_results, count_envelope, count_envelopes,
  counted_results, empty_results, envelope_vote, is_panic, logged,
}
use vocdoni.Tally.Rules.{
  Mild, ballot_check-Mild, get_or-replicate, new_empty_votes_lem, next_count, zero_rows,
}
use vocdoni.Tally.Sums.{IsSum, all_safe, gives, is_safe, is_valid, total, valid_count, valid_weight}

module _ (codec : VoteCodec) (p : IndexedProcess) (opts : ProcessVoteOptions)
    (et : EnvelopeType) where
  count_envelope_lem :
      (e : VoteEnvelope × ℕ) (r : Results)
      → IsShaped opts et r
      → is_safe codec p opts et e ≡ true
      → (u : Results) × (count_envelope codec p e r ≡ (ok (is_valid codec p opts et e), u))
        × IsShaped opts et u
        × ((q i : ℕ) → cell u q i ≡ cell r q i + gives codec p opts et e q i)
        × (u.weight ≡ r.weight + (if is_valid codec p opts et e then e.1 else 0))
  unfolding Mild count_envelope logged is_valid gives is_safe or_one
  count_envelope_lem (ve, w) r shape safe = by_vote (envelope_vote codec p ve) safe
    where
      by_vote :
          (d : Result (List ℕ))
          → elim d as (λ _. Bool) [ err x ↦ not (is_panic x) | ok vs ↦ all_below u32_mod vs ] ≡ true
          → (u : Results) × (logged (elim d as (λ _. Result Unit × Results) [
            | err e ↦ (err e, r)
            | ok values ↦ add_vote values (some w) r
          ])
              ≡ (
                ok (elim d as (λ _. Bool) [
                  | err x ↦ false
                  | ok vs ↦ elim (ballot_check opts et vs (some w)) [ ok _ ↦ true | err _ ↦ false ]
                ]),
                u,
              ))
            × IsShaped opts et u
            × ((q i : ℕ)
                → cell u q i
                  ≡ cell r q i + elim d as (λ _. ℕ) [
                    | err x ↦ 0
                    | ok vs ↦ elim (ballot_check opts et vs (some w)) [
                      | ok _ ↦ given_to w vs q i
                      | err _ ↦ 0
                    ]
                  ])
            × (u.weight
                ≡ r.weight
                  + (if elim d as (λ _. Bool) [
                    | err x ↦ false
                    | ok vs ↦ elim (ballot_check opts et vs (some w)) [
                      | ok _ ↦ true
                      | err _ ↦ false
                    ]
                  ]
                      then w
                      else 0))
      by_vote (err x) h = (r, ground arith, shape, λ q i. omega arith, omega arith)
      by_vote (ok vs) h = elim (ballot_check-Mild opts et vs w) [
        | inl passed ↦
            let (u, done, shape', counted) = add_vote_lem opts et vs (some w) r shape h passed in
            (
              u,
              rw (passed, done) refl,
              shape',
              λ q i. rw passed (counted.cells q i),
              rw passed counted.weighed,
            )
        | inr (x, refused, mild) ↦
            let kept = refused_vote_lem opts et vs (some w) r x refused shape in
            (
              r,
              rw (refused, kept, mild) refl,
              shape,
              λ q i. rw refused (omega arith),
              rw refused (omega arith),
            )
      ]

  count_envelopes_lem :
      (es : List (VoteEnvelope × ℕ)) (n : ℕ) (r : Results)
      → IsShaped opts et r
      → all_safe codec p opts et es ≡ true
      → n + valid_count codec p opts et es < u64_mod
      → (u : Results) × (count_envelopes codec p es n r
          ≡ (ok (n + valid_count codec p opts et es), u))
        × ((q i : ℕ) → cell u q i ≡ cell r q i + total codec p opts et es q i)
        × (u.weight ≡ r.weight + valid_weight codec p opts et es)
  unfolding count_envelopes total valid_count valid_weight all_safe
  count_envelopes_lem [] n r shape safe bound =
      let plus_zero : n ≡ n + 0 = omega arith in
      (r, ap (λ k. (ok k, r)) plus_zero, λ q i. omega arith, omega arith)
  count_envelopes_lem (e ∷ es) n r shape safe bound =
      let (s, done, shape', cells, weighed) = count_envelope_lem e r shape (ground arith) in
      let m = if is_valid codec p opts et e then add64 n 1 else n in
      let next_n : m ≡ n + (if is_valid codec p opts et e then 1 else 0) =
        next_count (is_valid codec p opts et e) n (valid_count codec p opts et es) bound in
      let sums : m + valid_count codec p opts et es
          ≡ n + ((if is_valid codec p opts et e then 1 else 0) + valid_count codec p opts et es) =
        omega (arith, next_n) in
      let (u, rest, cells', weighed') =
        count_envelopes_lem es m s shape' (ground arith) (omega (arith, next_n)) in
      (
        u,
        bind_ok (count_envelope codec p e)
              (λ c. count_envelopes codec p es (if c then add64 n 1 else n)) r done
            ∙ rest
            ∙ ap (λ k. (ok k, u)) sums,
        λ q i. omega (arith, cells q i, cells' q i),
        omega (arith, weighed, weighed'),
      )

  pub new_results-IsShaped :
      (height : ℕ)
      → p.envelope ≡ some et
      → 0 < opts.max_count
      → 0 < opts.max_value
      → IsShaped opts et (empty_results height p opts)
  unfolding empty_results
  new_results-IsShaped height kind questions values =
      let o = suc opts.max_value in
      let empty = new_empty_votes_lem opts.max_count o questions (omega arith) in
      record {
        kind = kind;
        options = refl;
        questions = rw empty (length-replicate opts.max_count (replicate o 0));
        columns = λ q h.
            rw (empty, get_or-replicate opts.max_count (replicate o 0) q h) (length-replicate o 0);
        some_questions = questions;
        some_values = values;
      }

  final_of :
      (height : ℕ) (es : List (VoteEnvelope × ℕ)) (k : ℕ) (u : Results)
      → p.vote_opts ≡ some opts
      → 0 < opts.max_count
      → opts.max_count ≤ max_questions
      → 0 < opts.max_value
      → opts.max_value ≤ max_options
      → count_envelopes codec p es 0 (empty_results height p opts) ≡ (ok k, u)
      → compute_final_results codec height p es ≡ ok (record u { envelope_height = k })
  unfolding compute_final_results counted_results
  final_of height es k u options questions max_q values max_v done =
      let present : (opts.max_count == 0 || opts.max_value == 0) ≡ false = ground arith in
      let fits : (ltb max_questions opts.max_count || ltb max_options opts.max_value) ≡ false =
        ground arith in
      rw (options, present, fits, done) refl

  -- For an envelope type and at least one question and one value above zero, within the maxima,
  -- envelopes that decode without stopping the node to values below 2 ^ 32 and valid votes fewer than
  -- 2 ^ 64: the final results are computed, each cell is the weight of the valid envelopes with that
  -- answer, the weight is that of all valid envelopes, and the height is their number.
  pub compute_final_results-IsSum :
      (height : ℕ) (es : List (VoteEnvelope × ℕ))
      → p.vote_opts ≡ some opts
      → p.envelope ≡ some et
      → 0 < opts.max_count
      → opts.max_count ≤ max_questions
      → 0 < opts.max_value
      → opts.max_value ≤ max_options
      → all_safe codec p opts et es ≡ true
      → valid_count codec p opts et es < u64_mod
      → (u : Results) × (compute_final_results codec height p es ≡ ok u)
        × IsSum codec p opts et es u
  unfolding empty_results
  compute_final_results-IsSum height es options kind questions max_q values max_v safe bound =
      let r = empty_results height p opts in
      let (u, done, cells, weighed) =
        count_envelopes_lem es 0 r (new_results-IsShaped height kind questions values) safe
          (omega arith) in
      let all_zero : (q i : ℕ) → cell r q i ≡ 0 = λ q i.
        rw (new_empty_votes_lem opts.max_count (suc opts.max_value) questions (omega arith))
          (zero_rows opts.max_count (suc opts.max_value) q i) in
      (
        record u { envelope_height = 0 + valid_count codec p opts et es },
        final_of height es (0 + valid_count codec p opts et es) u options questions max_q values
            max_v done,
        record {
          cells = λ q i. omega (arith, cells q i, all_zero q i);
          weighed = omega (arith, weighed);
          height = omega arith;
        },
      )
