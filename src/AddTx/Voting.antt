-- ===== src/AddTx/Voting.antt =====
-- `AddTx` (vochain/transaction.go) of a vote in a block.
use vocdoni.Base.{Bytes, Slice, add64, none, refl, some, true, ◌≡◌}
use vocdoni.Action.{ok, ok_inj, pure, ◌>>◌}
use vocdoni.Action.Preserve.{bind_inv}
use vocdoni.AddTx.{add_tx, add_vote_tx}
use vocdoni.Crypto.{Env}
use vocdoni.Models.{Process, StateDbVote, Vote}
use vocdoni.Models.Proofs.{VoteEnvelope}
use vocdoni.Processes.{process}
use vocdoni.Votes.{add_vote}
use vocdoni.State.{State}
use vocdoni.Tx.{tx_vote}
use vocdoni.VoteCheck.{vote_envelope_check}
use vocdoni.VoteCheck.Fresh.{IsCachedFor, IsOpen, vote_envelope_check_inv}
use vocdoni.VoteCheck.Reads.{Uncached, vote_envelope_check-Uncached}
use vocdoni.Votes.Stored.{add_vote_inv, leaf_of, vid_of, with_vote_stored}
use mathlib.Core.Path.{ap, sym, ◌∙◌}

-- A vote that a block accepts: its process is open, no vote was stored for it under the nullifier that
-- is returned, and now one is, and is counted.
pub record IsCast (env : Env) (ve : VoteEnvelope) (s u : State) (nullifier : Bytes) : Type 0 where
  pub process_is_open : (p : Process) × (process ve.process_id s ≡ (ok p, s)) × IsOpen s p
  pub fresh : s.votes ve.process_id (vid_of env ve.process_id nullifier) ≡ none
  pub stored :
      (leaf : StateDbVote) × (u.votes ve.process_id (vid_of env ve.process_id nullifier)
        ≡ some leaf)
      × (leaf.process_id ≡ ve.process_id)
      × (leaf.nullifier ≡ nullifier)
  pub counted : u.vote_count ≡ add64 s.vote_count 1

module _ (env : Env) (tx_bytes signature : Slice) where
  -- A vote transaction that a block accepts casts a vote for its process, where the vote cache has for
  -- the transaction no vote of another process: the process was ready and within its time, the end
  -- included, no vote was stored for it under the nullifier that is returned, and now one is, and the
  -- count of votes goes up by one, on 64 bits.
  pub add_tx-IsCast :
      (ve : VoteEnvelope) (id : Bytes) (s : State) {r : Bytes} {u : State}
      → IsCachedFor env id ve.process_id s
      → add_tx env tx_bytes signature (tx_vote ve id) true s ≡ (ok r, u)
      → IsCast env ve s u r
  unfolding add_tx add_vote_tx
  add_tx-IsCast ve id s {r} {u} cached h =
      let put = λ (x : Vote × Bytes). add_vote env x.0 x.1 >> pure x.0.nullifier in
      bind_inv (vote_envelope_check env ve tx_bytes signature id true) put s h
        (λ (v, voter) t checked rest.
          bind_inv (add_vote env v voter) (λ _. pure v.nullifier) t rest
            (λ _ w added last.
              let same : Uncached s t =
                rw (ap (λ x. x.1) checked) at
                  ((vote_envelope_check-Uncached env s ve tx_bytes signature id true).run s refl) in
              let (p, found, opened, fresh, pid) =
                vote_envelope_check_inv env ve tx_bytes signature id s cached checked in
              let (bytes, e, new_vote, absent, done) = add_vote_inv env v voter t added in
              let made = sym (ap (λ x. x.1) last) ∙ done in
              let named : v.nullifier ≡ r = ok_inj (ap (λ x. x.0) last) in
              record {
                process_is_open = (p, found, opened);
                fresh = rw (pid, named, ap (λ x. x.votes) same) at absent;
                stored = (
                  leaf_of env v bytes,
                  sym (
                        ap (λ (i : Bytes). u.votes i (vid_of env i v.nullifier)) pid
                        ∙ ap (λ (n : Bytes). u.votes ve.process_id (vid_of env ve.process_id n))
                            named)
                      ∙ rw made (
                          with_vote_stored env (record v { height = t.current_height }) bytes voter
                            t),
                  pid,
                  named,
                );
                counted = rw made (ap (λ x. add64 x.vote_count 1) same);
              }))

module _ (env : Env) where
  clash :
      {a b : VoteEnvelope} {s t u : State} {r r' : Bytes}
      → IsCast env a s t r
      → IsCast env b t u r'
      → ¬ ((a.process_id ≡ b.process_id) × (r ≡ r'))
  clash first second (pid, same) =
      let (leaf, stored, _, _) = first.stored in let fresh = second.fresh in cc

  -- Of two vote transactions that blocks accept, the second on the state that the first leaves, the
  -- processes or the nullifiers differ, where the vote cache has for neither transaction a vote of
  -- another process.
  pub votes_differ :
      (a b : VoteEnvelope) (a_bytes b_bytes a_signature b_signature : Slice) (a_id b_id : Bytes)
      (s : State) {r r' : Bytes} {t u : State}
      → IsCachedFor env a_id a.process_id s
      → IsCachedFor env b_id b.process_id t
      → add_tx env a_bytes a_signature (tx_vote a a_id) true s ≡ (ok r, t)
      → add_tx env b_bytes b_signature (tx_vote b b_id) true t ≡ (ok r', u)
      → ¬ ((a.process_id ≡ b.process_id) × (r ≡ r'))
  votes_differ a b a_bytes b_bytes a_signature b_signature a_id b_id s {t = t} cached cached' h h' =
      clash (add_tx-IsCast env a_bytes a_signature a a_id s cached h)
        (add_tx-IsCast env b_bytes b_signature b b_id t cached' h')
