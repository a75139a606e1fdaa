-- ===== src/Tally.antt =====
-- vochain/scrutinizer/vote.go: the results of a process from its envelopes. The envelopes come from
-- the block store, in any order, since each is handled in a goroutine of its own; handling one holds
-- the lock of the results while it writes them.
pub mod Rules
pub mod Sums
pub mod Final
pub mod Order
use vocdoni.Base.{
  Bool, Bytes, List, Option, [], add64, false, get_or, if◌then◌else◌, leb, length, ltb, map, none,
  some, suc, true, ℕ, ◌==◌, ◌||◌, ◌∷◌,
}
use vocdoni.Action.{
  Error, Result, err, invalid_value, malformed, missing_field, ok, panic, pure, ◌>>=◌, ◌>>◌,
}
use vocdoni.Crypto.{Env}
use vocdoni.Keys.{max_key_index}
use vocdoni.Models.{EnvelopeType, ProcessResult}
use vocdoni.Models.Proofs.{VoteEnvelope}
use vocdoni.Results.{
  Count, ProcessVoteOptions, Results, add_vote, max_options, max_questions, new_empty_votes,
}

-- The packages that decode a vote: the keys, their decryption and the JSON of a vote package.
pub record VoteCodec : Type 0 where
  pub decode_private : Bytes → Option Bytes
  pub decrypt : Bytes → Bytes → Option Bytes
  pub unmarshal : Bytes → Option (List ℕ)

-- The process as the indexer keeps it, as far as the results need it.
pub record IndexedProcess : Type 0 where
  pub id : Bytes
  pub vote_opts : Option ProcessVoteOptions
  pub envelope : Option EnvelopeType
  pub private_keys : List Bytes

-- `p.Envelope.GetEncryptedVotes()`
unfoldable pub has_encrypted_votes : Option EnvelopeType → Bool
has_encrypted_votes none = false
has_encrypted_votes (some et) = et.encrypted_votes

-- The results that `computeFinalResults` starts from.
unfoldable pub empty_results : ℕ → IndexedProcess → ProcessVoteOptions → Results
unfolding new_empty_votes
empty_results height p opts = record {
  process_id = p.id;
  votes = new_empty_votes opts.max_count (suc opts.max_value);
  weight = 0;
  envelope_height = 0;
  envelope_type = p.envelope;
  vote_opts = some opts;
  final = true;
  block_height = height;
}

-- The height of the results is the number of envelopes that were counted.
unfoldable pub counted_results : Result ℕ × Results → Result Results
counted_results (err e, r) = err e
counted_results (ok n, r) = ok (record r { envelope_height = n })

unfoldable pub is_panic : Error → Bool
is_panic panic = true
is_panic _ = false

-- An error other than a panic is logged; the answer is whether the envelope is counted.
unfoldable pub logged : Result Unit × Results → Result Bool × Results
unfolding is_panic
logged (ok tt, u) = (ok true, u)
logged (err e, u) = if is_panic e then (err e, u) else (ok false, u)

module _ (codec : VoteCodec) where
  -- The keys are used from the last to the first.
  unfoldable pub decrypt_all : List Bytes → Bytes → Option Bytes
  decrypt_all [] raw = some raw
  decrypt_all (key ∷ keys) raw = elim (decrypt_all keys raw) [
    | none ↦ none
    | some inner ↦ elim (codec.decode_private key) [
      | none ↦ none
      | some priv ↦ codec.decrypt priv inner
    ]
  ]

  -- `unmarshalVote`
  unfoldable pub unmarshal_vote : Bytes → List Bytes → Result (List ℕ)
  unfolding decrypt_all
  unmarshal_vote vote_package keys = elim (decrypt_all keys vote_package) [
    | none ↦ err malformed
    | some raw ↦ elim (codec.unmarshal raw) [ none ↦ err malformed | some values ↦ ok values ]
  ]

  -- The loop that collects the keys; an index out of range stops the node.
  unfoldable pub vote_keys : List Bytes → List ℕ → Result (List Bytes)
  vote_keys private_keys [] = ok []
  vote_keys private_keys (k ∷ ks) =
      let rest = vote_keys private_keys ks in
      if leb max_key_index k
      then err invalid_value
      else if leb (length private_keys) k
      then err panic
      else elim rest [ err e ↦ err e | ok keys ↦ ok (get_or private_keys k [] ∷ keys) ]

  -- The callback of `computeFinalResults`, the vote of an envelope.
  unfoldable pub envelope_vote : IndexedProcess → VoteEnvelope → Result (List ℕ)
  unfolding has_encrypted_votes vote_keys unmarshal_vote
  envelope_vote p ve =
      if has_encrypted_votes p.envelope
      then (if ltb (length p.private_keys) (length ve.encryption_key_indexes)
          then err invalid_value
          else elim (vote_keys p.private_keys ve.encryption_key_indexes) [
            | err e ↦ err e
            | ok [] ↦ err missing_field
            | ok (key ∷ keys) ↦ unmarshal_vote ve.vote_package (key ∷ keys)
          ])
      else unmarshal_vote ve.vote_package []

  -- The callback of `computeFinalResults`
  unfoldable pub count_envelope : IndexedProcess → VoteEnvelope × ℕ → Count Bool
  unfolding envelope_vote logged add_vote
  count_envelope p (ve, weight) r = logged (elim (envelope_vote p ve) [
    | err e ↦ (err e, r)
    | ok values ↦ add_vote values (some weight) r
  ])

  -- `WalkEnvelopes` with that callback, and the number of envelopes that were counted.
  unfoldable pub count_envelopes : IndexedProcess → List (VoteEnvelope × ℕ) → ℕ → Count ℕ
  unfolding count_envelope
  count_envelopes p [] n = pure n
  count_envelopes p (e ∷ es) n = do
    counted ← count_envelope p e
    count_envelopes p es (if counted then add64 n 1 else n)

  -- `computeFinalResults`, at the height of the chain.
  unfoldable pub compute_final_results :
      ℕ → IndexedProcess → List (VoteEnvelope × ℕ) → Result Results
  unfolding count_envelopes empty_results counted_results
  compute_final_results height p envelopes = elim p.vote_opts [
    | none ↦ err panic
    | some opts ↦
        if opts.max_count == 0 || opts.max_value == 0
        then err invalid_value
        else if ltb max_questions opts.max_count || ltb max_options opts.max_value
        then err invalid_value
        else counted_results (count_envelopes p envelopes 0 (empty_results height p opts))
  ]

-- `BuildProcessResult`: a row of byte strings for each question.
unfoldable pub build_process_result : Env → Results → Bytes → ProcessResult
build_process_result env r entity = record {
  process_id = r.process_id;
  entity_id = entity;
  oracle_address = none;
  votes = map (map env.big_bytes) r.votes;
}
