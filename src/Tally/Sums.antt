-- ===== src/Tally/Sums.antt =====
-- What the final results of a process are meant to be: sums over its valid envelopes.
use vocdoni.Base.{
  Bool, List, [], false, if◌then◌else◌, not, some, true, u32_mod, ℕ, ◌&&◌, ◌+◌, ◌∷◌, ◌≡◌,
}
use vocdoni.Action.{err, ok}
use vocdoni.Models.{EnvelopeType}
use vocdoni.Models.Proofs.{VoteEnvelope}
use vocdoni.Results.{ProcessVoteOptions, Results, ballot_check}
use vocdoni.Results.Count.{all_below, given_to}
use vocdoni.Results.Shape.{cell}
use vocdoni.Tally.{IndexedProcess, VoteCodec, envelope_vote, is_panic}

module _ (codec : VoteCodec) (p : IndexedProcess) (opts : ProcessVoteOptions)
    (et : EnvelopeType) where
  -- The envelope has a vote that the rules of the ballot let pass.
  unfoldable pub is_valid : VoteEnvelope × ℕ → Bool
  is_valid (ve, w) = elim (envelope_vote codec p ve) [
    | err x ↦ false
    | ok vs ↦ elim (ballot_check opts et vs (some w)) [ ok _ ↦ true | err _ ↦ false ]
  ]

  -- What a valid envelope gives to an option of a question: its weight, if that is the answer.
  unfoldable pub gives : VoteEnvelope × ℕ → ℕ → ℕ → ℕ
  gives (ve, w) q i = elim (envelope_vote codec p ve) [
    | err x ↦ 0
    | ok vs ↦ elim (ballot_check opts et vs (some w)) [ ok _ ↦ given_to w vs q i | err _ ↦ 0 ]
  ]

  -- Decoding the envelope does not stop the node, and its values are below 2 ^ 32.
  unfoldable pub is_safe : VoteEnvelope × ℕ → Bool
  is_safe (ve, w) = elim (envelope_vote codec p ve) [
    | err x ↦ not (is_panic x)
    | ok vs ↦ all_below u32_mod vs
  ]

  -- The sums over envelopes.
  unfoldable pub total : List (VoteEnvelope × ℕ) → ℕ → ℕ → ℕ
  total [] q i = 0
  total (e ∷ es) q i = gives e q i + total es q i

  unfoldable pub valid_count : List (VoteEnvelope × ℕ) → ℕ
  valid_count [] = 0
  valid_count (e ∷ es) = (if is_valid e then 1 else 0) + valid_count es

  unfoldable pub valid_weight : List (VoteEnvelope × ℕ) → ℕ
  valid_weight [] = 0
  valid_weight (e ∷ es) = (if is_valid e then e.1 else 0) + valid_weight es

  unfoldable pub all_safe : List (VoteEnvelope × ℕ) → Bool
  all_safe [] = true
  all_safe (e ∷ es) = is_safe e && all_safe es

  -- What the final results are.
  pub record IsSum (es : List (VoteEnvelope × ℕ)) (u : Results) : Type 0 where
    pub cells : (q i : ℕ) → cell u q i ≡ total es q i
    pub weighed : u.weight ≡ valid_weight es
    pub height : u.envelope_height ≡ valid_count es
