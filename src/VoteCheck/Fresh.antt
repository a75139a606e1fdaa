-- ===== src/VoteCheck/Fresh.antt =====
-- What a vote that passes `VoteEnvelopeCheck` for a block is known to be. A vote that is checked for
-- the mempool is put in the cache under the id of its transaction, so the vote at an id is for the
-- process of that transaction.
use vocdoni.Base.{
  Bool-cases, Bytes, Option, Option-cases, Slice, add32, arith, inl, inr, is_none, none, refl, some,
  true, ◌≡◌, ◌≤◌,
}
use vocdoni.Action.{
  Error, already_added, already_in_cache, malformed, missing_signature, ok, or_raise, raise_if,
  ◌>>=◌, ◌>>◌,
}
use vocdoni.Action.Preserve.{bind_inv, bind_pure, or_raise_inv, raise_if_inv}
use vocdoni.Crypto.{Env, tx_key}
use vocdoni.Models.{EnvelopeType, Process, Vote, ready}
use vocdoni.Models.Proofs.{VoteEnvelope}
use vocdoni.Processes.{process}
use vocdoni.Processes.Reads.{process-Preserves}
use vocdoni.State.{State}
use vocdoni.VoteCache.{cache_get, lru_lookup}
use vocdoni.VoteCheck.{
  anonymous_branch, anonymous_vote, cached_vote, circom_proof, key_indexes, new_vote_check,
  open_check, remember, signed_branch, signed_vote, vote_again, vote_branch, vote_envelope_check,
}
use vocdoni.VoteCheck.Reads.{Uncached, cache_get-Uncached, open_check-Preserves}
use vocdoni.VoteCheck.Signed.{BySigner, new_vote_check_inv, signed_vote_inv}
use vocdoni.Votes.Stored.{IsNew}
use mathlib.Core.Path.{ap, subst, sym, ◌∙◌}

module _ (env : Env) where
  -- A vote from the cache is new.
  cached_vote_inv :
      (id : Bytes) (e : Error) (cached : Vote) (s : State) {v : Vote} {w : Bytes} {u : State}
      → cached_vote env id true e cached s ≡ (ok (v, w), u)
      → IsNew env s v.process_id v.nullifier × (v.process_id ≡ cached.process_id)
  unfolding cached_vote vote_again
  cached_vote_inv id e cached s {v} h =
      let passed : (new_vote_check env cached.process_id cached.nullifier s).0 ≡ ok tt =
        ground arith in
      let (fresh, same) =
        new_vote_check_inv env cached.process_id cached.nullifier s
          {u = (new_vote_check env cached.process_id cached.nullifier s).1} (ground arith) in
      let pid : v.process_id ≡ cached.process_id = ground arith in
      let nullifier : v.nullifier ≡ cached.nullifier = ground arith in
      (rw (pid, nullifier) fresh, pid)

  -- A vote that is proved by a circuit is new.
  pub anonymous_vote_inv :
      (p : Process) (et : EnvelopeType) (ve : VoteEnvelope) (s : State) {v : Vote} {w : Bytes}
      {u : State}
      → anonymous_vote env p et ve s ≡ (ok (v, w), u)
      → IsNew env s v.process_id v.nullifier × (v.process_id ≡ ve.process_id)
  unfolding anonymous_vote circom_proof key_indexes
  anonymous_vote_inv p et ve s {v} h =
      let passed : (new_vote_check env ve.process_id ve.nullifier s).0 ≡ ok tt = ground arith in
      let pid : v.process_id ≡ ve.process_id = ground arith in
      let nullifier : v.nullifier ≡ ve.nullifier = ground arith in
      let (fresh, same) =
        new_vote_check_inv env ve.process_id ve.nullifier s
          {u = (new_vote_check env ve.process_id ve.nullifier s).1} (ground arith) in
      (rw (pid, nullifier) fresh, pid)

  -- A vote of either branch that passes for a block is new.
  anonymous_branch_inv :
      (p : Process) (et : EnvelopeType) (ve : VoteEnvelope) (id : Bytes) (cached : Option Vote)
      (s : State) {v : Vote} {w : Bytes} {u : State}
      → ((c : Vote) → cached ≡ some c → c.process_id ≡ ve.process_id)
      → anonymous_branch env p et ve id true cached s ≡ (ok (v, w), u)
      → IsNew env s v.process_id v.nullifier × (v.process_id ≡ ve.process_id)
  unfolding anonymous_branch remember
  anonymous_branch_inv p et ve id (some vote) s matches h =
      let (fresh, pid) = cached_vote_inv id already_in_cache vote s h in
      (fresh, pid ∙ matches vote refl)
  anonymous_branch_inv p et ve id none s matches h =
      anonymous_vote_inv p et ve s (bind_pure (anonymous_vote env p et ve) h)

  signed_branch_inv :
      (p : Process) (et : EnvelopeType) (ve : VoteEnvelope) (tx_bytes signature : Slice)
      (id : Bytes) (cached : Option Vote) (s : State) {v : Vote} {w : Bytes} {u : State}
      → ((c : Vote) → cached ≡ some c → c.process_id ≡ ve.process_id)
      → signed_branch env p et ve tx_bytes signature id true cached s ≡ (ok (v, w), u)
      → IsNew env s v.process_id v.nullifier × (v.process_id ≡ ve.process_id)
  unfolding signed_branch remember BySigner
  signed_branch_inv p et ve tx_bytes signature id (some vote) s matches h =
      let (fresh, pid) = cached_vote_inv id already_added vote s h in
      (fresh, pid ∙ matches vote refl)
  signed_branch_inv p et ve tx_bytes signature id none s matches h =
      let (fresh, (_, _, _, _, _, _, pid, _, _, _, _)) =
        signed_vote_inv env p et ve tx_bytes signature s
          (bind_pure (signed_vote env p et ve tx_bytes signature) h) in
      (fresh, pid)

-- The process is ready and the block is within its time, the end included.
pub record IsOpen (s : State) (p : Process) : Type 0 where
  pub started : p.start_block ≤ s.current_height
  pub not_ended : s.current_height ≤ add32 p.start_block p.block_count
  pub is_ready : p.status ≡ ready

open_check_inv : (p : Process) (s : State) {u : State} → open_check p s ≡ (ok tt, u) → IsOpen s p
unfolding open_check
open_check_inv p s h = record {
  started = ground arith;
  not_ended = ground arith;
  is_ready = ground arith;
}

module _ (env : Env) where
  -- What the vote cache holds does not matter.
  Uncached-IsNew :
      {s t : State} (pid n : Bytes) → Uncached s t → IsNew env t pid n → IsNew env s pid n
  Uncached-IsNew {s} {t} pid n same fresh =
      let moved : IsNew env (record t { vote_cache = s.vote_cache }) pid n = record {
        pid_size = fresh.pid_size;
        nullifier_size = fresh.nullifier_size;
        absent = fresh.absent;
      } in
      subst (λ x. IsNew env x pid n) same moved

  -- The vote that the cache has at the id of a transaction is for a process.
  unfoldable pub IsCachedFor : Bytes → Bytes → State → Type 0
  IsCachedFor id pid s =
      (c : Vote) → (env.lru_get (tx_key id) s.vote_cache).0 ≡ some (some c) → c.process_id ≡ pid

  cache_get_inv :
      (id pid : Bytes) (s : State) {cached : Option Vote} {t : State}
      → IsCachedFor id pid s
      → cache_get env id s ≡ (ok cached, t)
      → (c : Vote) → cached ≡ some c
      → c.process_id ≡ pid
  unfolding cache_get IsCachedFor lru_lookup
  cache_get_inv id pid s {cached} {t} matches found c e =
      elim (Option-cases (env.lru_get (tx_key id) s.vote_cache).0) [
        | inl absent ↦ absurd (ground arith)
        | inr (some v, held) ↦
            let same : some v ≡ some c = ground arith in
            matches c (held ∙ ap (λ (o : Option Vote). some o) same)
        | inr (none, held) ↦ absurd (ground arith)
      ]

  vote_branch_inv :
      (p : Process) (et : EnvelopeType) (ve : VoteEnvelope) (tx_bytes signature : Slice)
      (id : Bytes) (s : State) {v : Vote} {w : Bytes} {u : State}
      → IsCachedFor id ve.process_id s
      → vote_branch env p et ve tx_bytes signature id true s ≡ (ok (v, w), u)
      → IsNew env s v.process_id v.nullifier × (v.process_id ≡ ve.process_id)
  unfolding vote_branch
  vote_branch_inv p et ve tx_bytes signature id s {v} matches h = elim (Bool-cases et.anonymous) [
    | inl e ↦
        bind_inv (cache_get env id) (λ c. anonymous_branch env p et ve id true c) s (rw e at h)
          (λ cached t found rest.
            let (fresh, pid) =
              anonymous_branch_inv env p et ve id cached t
                (cache_get_inv id ve.process_id s matches found) rest in
            (
              Uncached-IsNew v.process_id v.nullifier
                  (rw (ap (λ x. x.1) found) at ((cache_get-Uncached env s id).run s refl)) fresh,
              pid,
            ))
    | inr e ↦
        let by_cache =
          λ (c : Option Vote). signed_branch env p et ve tx_bytes signature id true c in
        bind_inv (raise_if (is_none signature) missing_signature)
          (λ _. cache_get env id >>= by_cache) s (rw e at h)
          (λ _ s1 signed h1. bind_inv (cache_get env id) by_cache s1 h1 (λ cached t found rest.
            let same : s ≡ s1 = (raise_if_inv (is_none signature) missing_signature s signed).1 in
            let (fresh, pid) =
              signed_branch_inv env p et ve tx_bytes signature id cached t
                (cache_get_inv id ve.process_id s1
                  (subst (IsCachedFor id ve.process_id) same matches) found)
                rest in
            (
              rw same (
                  Uncached-IsNew {s = s1} v.process_id v.nullifier
                    (rw (ap (λ x. x.1) found) at ((cache_get-Uncached env s1 id).run s1 refl))
                    fresh),
              pid,
            )))
  ]

  -- A vote that passes for a block, where the cache has for its transaction no vote of another process:
  -- its process is stored and open, it is for that process, and it was not stored before.
  pub vote_envelope_check_inv :
      (ve : VoteEnvelope) (tx_bytes signature : Slice) (id : Bytes) (s : State) {v : Vote}
      {w : Bytes} {u : State}
      → IsCachedFor id ve.process_id s
      → vote_envelope_check env ve tx_bytes signature id true s ≡ (ok (v, w), u)
      → (p : Process) × (process ve.process_id s ≡ (ok p, s))
        × IsOpen s p
        × IsNew env s v.process_id v.nullifier
        × (v.process_id ≡ ve.process_id)
  unfolding vote_envelope_check
  vote_envelope_check_inv ve tx_bytes signature id s {v} matches h =
      let last = λ (p : Process) (et : EnvelopeType).
        open_check p >> vote_branch env p et ve tx_bytes signature id true in
      let typed =
        λ (p : Process) (et : EnvelopeType). or_raise p.mode malformed >>= λ mode. last p et in
      let found = λ (p : Process). or_raise p.envelope_type malformed >>= typed p in
      bind_inv (process ve.process_id) found s h (λ p s1 e1 h1.
        bind_inv (or_raise p.envelope_type malformed) (typed p) s1 h1 (λ et s2 e2 h2.
          bind_inv (or_raise p.mode malformed) (λ mode. last p et) s2 h2
            (λ mode s3 e3 h3.
              bind_inv (open_check p) (λ _. vote_branch env p et ve tx_bytes signature id true) s3
                h3
                (λ _ s4 e4 h4.
                  let same1 : s1 ≡ s =
                    sym (ap (λ x. x.1) e1)
                    ∙ (process-Preserves {P = λ t. t ≡ s} ve.process_id).run s refl in
                  let same2 = (or_raise_inv p.envelope_type malformed s1 e2).1 in
                  let same3 : s3 ≡ s =
                    sym (or_raise_inv p.mode malformed s2 e3).1 ∙ sym same2 ∙ same1 in
                  let same4 : s4 ≡ s =
                    sym (ap (λ x. x.1) e4)
                    ∙ (open_check-Preserves {P = λ t. t ≡ s3} env p).run s3 refl
                    ∙ same3 in
                  let (fresh, pid) =
                    vote_branch_inv p et ve tx_bytes signature id s4
                      (subst (IsCachedFor id ve.process_id) (sym same4) matches) h4 in
                  (
                    p,
                    rw same1 at e1,
                    rw same3 at (open_check_inv p s3 e4),
                    subst (λ x. IsNew env x v.process_id v.nullifier) same4 fresh,
                    pid,
                  )))))
