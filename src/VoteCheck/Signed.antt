-- ===== src/VoteCheck/Signed.antt =====
-- The signed branch of `VoteEnvelopeCheck` (vochain/transaction.go) for a vote that is not in the cache.
use vocdoni.Base.{Bytes, List, Slice, arith, content, false, refl, some, true, ℕ, ◌≡◌}
use vocdoni.Account.{Address}
use vocdoni.Action.{lift, missing_field, ok, ok_of, or_raise, ◌>>=◌}
use vocdoni.Action.Preserve.{bind_inv, or_raise_inv}
use vocdoni.CensusProof.{verify_proof}
use vocdoni.Crypto.{Env, addr_from_public_key, pub_key_from_signature}
use vocdoni.Models.{EnvelopeType, Process, Vote}
use vocdoni.Models.Proofs.{Proof, VoteEnvelope}
use vocdoni.State.{State}
use vocdoni.VoteCheck.{census_vote, key_indexes, new_vote_check, signed_vote, signer_vote}
use vocdoni.VoteCheck.Reads.{envelope_exists-Preserves, key_indexes-Preserves}
use vocdoni.Votes.{envelope_exists, generate_nullifier}
use vocdoni.Votes.Stored.{IsNew, envelope_exists-IsNew}
use mathlib.Core.Path.{ap, sym, ◌∙◌}

module _ (env : Env) where
  pub new_vote_check_inv :
      (pid n : Bytes) (s : State) {u : State}
      → new_vote_check env pid n s ≡ (ok tt, u)
      → IsNew env s pid n × (u ≡ s)
  unfolding new_vote_check
  new_vote_check_inv pid n s h =
      let same : (envelope_exists env pid n s).1 ≡ s =
        (envelope_exists-Preserves {P = λ v. v ≡ s} env pid n).run s refl in
      let found : envelope_exists env pid n s ≡ (ok false, s) = ground arith in
      (envelope_exists-IsNew env pid n s found, ground arith)

  -- A signed vote for the process of its envelope: the nullifier is that of the signer, and the weight that of its census proof.
  unfoldable pub BySigner : Process → VoteEnvelope → Slice → Slice → State → Vote → Type 0
  BySigner p ve tx_bytes signature s v =
      (key : Bytes) × (addr : Address) × (proof : Proof) × (weight : ℕ) × (pub_key_from_signature
          env (content tx_bytes) signature
        ≡ ok key)
      × (addr_from_public_key env key ≡ ok addr)
      × (v.process_id ≡ ve.process_id)
      × (v.nullifier ≡ generate_nullifier env addr ve.process_id)
      × (ve.proof ≡ some proof)
      × ((verify_proof env p proof key addr s).0 ≡ ok (true, weight))
      × (v.weight ≡ env.big_bytes weight)

  census_vote_inv :
      (p : Process) (ve : VoteEnvelope) (keys : List ℕ) (key : Bytes) (addr : Address)
      (proof : Proof) (n : Bytes) (s : State) {v : Vote} {w : Bytes} {u : State}
      → census_vote env p ve keys key addr proof n s ≡ (ok (v, w), u)
      → (v.process_id ≡ ve.process_id)
        × (v.nullifier ≡ n)
        × (weight : ℕ) × ((verify_proof env p proof key addr s).0 ≡ ok (true, weight))
        × (v.weight ≡ env.big_bytes weight)
  unfolding census_vote
  census_vote_inv p ve keys key addr proof n s {v} h =
      let ((valid, weight), counted) =
        ok_of (verify_proof env p proof key addr s).0 (λ e bad. ground arith) in
      let held : valid ≡ true = ground arith in
      (ground arith, ground arith, weight, rw (← held) counted, ground arith)

  signer_vote_inv :
      (p : Process) (ve : VoteEnvelope) (keys : List ℕ) (key : Bytes) (addr : Address)
      (proof : Proof) (s : State) {v : Vote} {w : Bytes} {u : State}
      → signer_vote env p ve keys key addr proof s ≡ (ok (v, w), u)
      → IsNew env s v.process_id v.nullifier
        × (v.process_id ≡ ve.process_id)
        × (v.nullifier ≡ generate_nullifier env addr ve.process_id)
        × (weight : ℕ) × ((verify_proof env p proof key addr s).0 ≡ ok (true, weight))
        × (v.weight ≡ env.big_bytes weight)
  unfolding signer_vote
  signer_vote_inv p ve keys key addr proof s {v} {w} {u} h =
      let n = generate_nullifier env addr ve.process_id in
      bind_inv (new_vote_check env ve.process_id n)
        (λ _. census_vote env p ve keys key addr proof n) s h
        (λ _ t passed rest.
          let (fresh, same) = new_vote_check_inv ve.process_id n s passed in
          let (pid, nullifier, weight, valid, weighed) =
            census_vote_inv p ve keys key addr proof n s (rw same at rest) in
          (rw (pid, nullifier) fresh, pid, nullifier, weight, valid, weighed))

  -- A signed vote that is checked with success, and is not taken from the cache, is for the process of
  -- its envelope and is not stored yet; its nullifier is that of the signer of the transaction for the process, and its weight is the one
  -- that the census proof of that signer has.
  pub signed_vote_inv :
      (p : Process) (et : EnvelopeType) (ve : VoteEnvelope) (tx_bytes signature : Slice) (s : State)
      {v : Vote} {w : Bytes} {u : State}
      → signed_vote env p et ve tx_bytes signature s ≡ (ok (v, w), u)
      → IsNew env s v.process_id v.nullifier × BySigner p ve tx_bytes signature s v
  unfolding signed_vote BySigner
  signed_vote_inv p et ve tx_bytes signature s {v} {w} {u} h =
      let signer = pub_key_from_signature env (content tx_bytes) signature in
      let by_addr = λ (proof : Proof) (keys : List ℕ) (key : Bytes) (addr : Address).
        signer_vote env p ve keys key addr proof in
      let by_key = λ (proof : Proof) (keys : List ℕ) (key : Bytes).
        lift (addr_from_public_key env key) >>= by_addr proof keys key in
      let by_keys = λ (proof : Proof) (keys : List ℕ). lift signer >>= by_key proof keys in
      bind_inv (or_raise ve.proof missing_field) (λ proof. key_indexes et ve >>= by_keys proof) s h
        (λ proof s1 given h1.
          bind_inv (key_indexes et ve) (by_keys proof) s1 h1 (λ keys s2 listed h2.
            bind_inv (lift signer) (by_key proof keys) s2 h2 (λ key s3 signed h3.
              bind_inv (lift (addr_from_public_key env key)) (by_addr proof keys key) s3 h3
                (λ addr s4 named h4.
                  let (is_proof, same) = or_raise_inv ve.proof missing_field s given in
                  let kept = (key_indexes-Preserves {P = λ t. t ≡ s1} env et ve).run s1 refl in
                  let same4 : s4 ≡ s =
                    sym (ap (λ x. x.1) named)
                    ∙ sym (ap (λ x. x.1) signed)
                    ∙ sym (ap (λ x. x.1) listed)
                    ∙ kept
                    ∙ sym same in
                  let (fresh, pid, nullifier, weight, valid, weighed) =
                    signer_vote_inv p ve keys key addr proof s (rw same4 at h4) in
                  (
                    fresh,
                    (
                      key,
                      addr,
                      proof,
                      weight,
                      ap (λ x. x.0) signed,
                      ap (λ x. x.0) named,
                      pid,
                      nullifier,
                      is_proof,
                      valid,
                      weighed,
                    ),
                  )))))
