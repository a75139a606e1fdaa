-- ===== src/Tally/Order.antt =====
-- The order in which the envelopes are handled does not matter (vochain/scrutinizer/vote.go).
use vocdoni.Base.{
  Bool, List, ap, arith, false, if◌then◌else◌, refl, some, sym, true, u64_mod, ℕ, ◌&&◌, ◌<◌, ◌∙◌,
  ◌≡◌, ◌≤◌,
}
use vocdoni.Action.{ok}
use vocdoni.Models.{EnvelopeType}
use vocdoni.Models.Proofs.{VoteEnvelope}
use vocdoni.Results.{ProcessVoteOptions, Results, max_options, max_questions}
use vocdoni.Results.Shape.{cell}
use vocdoni.Tally.{IndexedProcess, VoteCodec, compute_final_results}
use vocdoni.Tally.Final.{compute_final_results-IsSum}
use vocdoni.Tally.Sums.{all_safe, gives, is_safe, is_valid, total, valid_count, valid_weight}
use mathlib.Core.List.{Permᴰ}
use mathlib.Core.List.Permᴰ.{nil, cons, swap, trans}

module _ (codec : VoteCodec) (p : IndexedProcess) (opts : ProcessVoteOptions)
    (et : EnvelopeType) where
  total-Perm :
      {es es' : List (VoteEnvelope × ℕ)} (q i : ℕ)
      → Permᴰ es es'
      → total codec p opts et es q i ≡ total codec p opts et es' q i
  unfolding total
  total-Perm q i nil = refl
  total-Perm q i (cons e d) =
      omega (arith, ap (λ x. gives codec p opts et x q i) e, total-Perm q i d)
  total-Perm q i (swap e e') =
      omega
        (arith, ap (λ x. gives codec p opts et x q i) e, ap (λ x. gives codec p opts et x q i) e')
  total-Perm q i (trans d d') = total-Perm q i d ∙ total-Perm q i d'

  count_of : VoteEnvelope × ℕ → ℕ
  count_of e = if is_valid codec p opts et e then 1 else 0

  weight_of : VoteEnvelope × ℕ → ℕ
  weight_of e = if is_valid codec p opts et e then e.1 else 0

  valid_count-Perm :
      {es es' : List (VoteEnvelope × ℕ)}
      → Permᴰ es es'
      → valid_count codec p opts et es ≡ valid_count codec p opts et es'
  unfolding valid_count count_of
  valid_count-Perm nil = refl
  valid_count-Perm (cons e d) = omega (arith, ap count_of e, valid_count-Perm d)
  valid_count-Perm (swap e e') = omega (arith, ap count_of e, ap count_of e')
  valid_count-Perm (trans d d') = valid_count-Perm d ∙ valid_count-Perm d'

  valid_weight-Perm :
      {es es' : List (VoteEnvelope × ℕ)}
      → Permᴰ es es'
      → valid_weight codec p opts et es ≡ valid_weight codec p opts et es'
  unfolding valid_weight weight_of
  valid_weight-Perm nil = refl
  valid_weight-Perm (cons e d) = omega (arith, ap weight_of e, valid_weight-Perm d)
  valid_weight-Perm (swap e e') = omega (arith, ap weight_of e, ap weight_of e')
  valid_weight-Perm (trans d d') = valid_weight-Perm d ∙ valid_weight-Perm d'

  and_swap : (a b c : Bool) → (a && (b && c)) ≡ (b && (a && c))
  and_swap true b c = refl
  and_swap false true c = refl
  and_swap false false c = refl

  all_safe-Perm :
      {es es' : List (VoteEnvelope × ℕ)}
      → Permᴰ es es'
      → all_safe codec p opts et es ≡ all_safe codec p opts et es'
  unfolding all_safe
  all_safe-Perm nil = refl
  all_safe-Perm (cons e d) = rw (e, all_safe-Perm d) refl
  all_safe-Perm (swap {a' = a'} {b' = b'} {l = l} e e') =
      rw (e, e')
        (and_swap (is_safe codec p opts et b') (is_safe codec p opts et a')
          (all_safe codec p opts et l))
  all_safe-Perm (trans d d') = all_safe-Perm d ∙ all_safe-Perm d'

  -- For an envelope type and at least one question and one value above zero, within the maxima,
  -- envelopes that decode without stopping the node to values below 2 ^ 32 and valid votes fewer than
  -- 2 ^ 64: the same envelopes in two orders have final results with the same cells, weight and height.
  pub final_results_order :
      (height : ℕ) (es es' : List (VoteEnvelope × ℕ))
      → Permᴰ es es'
      → p.vote_opts ≡ some opts
      → p.envelope ≡ some et
      → 0 < opts.max_count
      → opts.max_count ≤ max_questions
      → 0 < opts.max_value
      → opts.max_value ≤ max_options
      → all_safe codec p opts et es ≡ true
      → valid_count codec p opts et es < u64_mod
      → (u u' : Results) × (compute_final_results codec height p es ≡ ok u)
        × (compute_final_results codec height p es' ≡ ok u')
        × ((q i : ℕ) → cell u q i ≡ cell u' q i)
        × (u.weight ≡ u'.weight)
        × (u.envelope_height ≡ u'.envelope_height)
  final_results_order height es es' perm options kind questions max_q values max_v safe bound =
      let (u, done, sums) =
        compute_final_results-IsSum codec p opts et height es options kind questions max_q values
          max_v safe bound in
      let (u', done', sums') =
        compute_final_results-IsSum codec p opts et height es' options kind questions max_q values
          max_v (rw (all_safe-Perm perm) at safe) (rw (valid_count-Perm perm) at bound) in
      (
        u,
        u',
        done,
        done',
        λ q i. sums.cells q i ∙ total-Perm q i perm ∙ sym (sums'.cells q i),
        sums.weighed ∙ valid_weight-Perm perm ∙ sym sums'.weighed,
        sums.height ∙ valid_count-Perm perm ∙ sym sums'.height,
      )
