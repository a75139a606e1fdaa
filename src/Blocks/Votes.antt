-- ===== src/Blocks/Votes.antt =====
-- A vote that a block delivers and commits.
use vocdoni.Base.{Bytes, Option, add32, ap, arith, none, refl, some, sym, true, ◌∙◌, ◌≡◌}
use vocdoni.Action.{Result, err, ok, ok_inj}
use vocdoni.AddTx.{add_tx}
use vocdoni.AddTx.Voting.{add_tx-IsCast}
use vocdoni.Blocks.{
  App, Call, Chain, Response, accepted, commit, deliver_response, deliver_tx, tell_new_tx,
  tx_counter_add,
}
use vocdoni.Blocks.Aborted.{trees}
use vocdoni.Blocks.Commit.{commit_inv}
use vocdoni.Crypto.{Env}
use vocdoni.Models.{StateDbVote}
use vocdoni.Models.Proofs.{VoteEnvelope}
use vocdoni.State.{State}
use vocdoni.Tx.{Tx, tx_vote}
use vocdoni.VoteCheck.Fresh.{IsCachedFor}
use vocdoni.Votes.Stored.{vid_of}

deliver_response_inv :
    (r : Result Bytes) {x : Bytes} → deliver_response r ≡ ok (accepted x) → r ≡ ok x
unfolding deliver_response
deliver_response_inv (ok bytes) {x} h = ap (λ (b : Bytes). ok b) (accepted_inj (ok_inj h))
  where
    accepted_inj : {a b : Bytes} → accepted a ≡ accepted b → a ≡ b
    accepted_inj e = cc
deliver_response_inv (err _) h = absurd (ground arith)

module _ (env : Env) (chain : Chain) where
  -- What `DeliverTx` makes of the result and the state of `AddTx`.
  abbrev delivered : Bytes → App → Result Bytes → State → Result Response × App
  delivered raw app r s = (
    deliver_response r,
    record app { state = tx_counter_add (tell_new_tx r (env.sha256 raw) (add32 app.height 1) s) },
  )

  trees-delivered :
      (raw : Bytes) (app : App) (r : Result Bytes) (s : State)
      → trees env chain (delivered raw app r s).1.state ≡ trees env chain s
  unfolding trees tx_counter_add tell_new_tx
  trees-delivered raw app (ok _) s = refl
  trees-delivered raw app (err _) s = refl

  -- A transaction that `DeliverTx` accepts is one that `AddTx` accepts.
  deliver_tx_inv :
      (raw : Bytes) (app : App) {x : Bytes} {after : App} (call : Call)
      → chain.unmarshal raw ≡ some call
      → deliver_tx env chain raw app ≡ (ok (accepted x), after)
      → (s : State) × (add_tx env call.tx_bytes call.signature call.tx true app.state ≡ (ok x, s))
        × (trees env chain after.state ≡ trees env chain s)
  unfolding deliver_tx
  deliver_tx_inv raw app {x} {after} call read h =
      let added = add_tx env call.tx_bytes call.signature call.tx true app.state in
      let done : delivered raw app added.0 added.1 ≡ (ok (accepted x), after) =
        rw (deliver_tx, read) at h in
      let same = deliver_response_inv added.0 (ap (λ (y : Result Response × App). y.0) done) in
      (
        added.1,
        ap (λ (o : Result Bytes). (o, added.1)) same,
        ap (λ (y : Result Response × App). trees env chain y.1.state) (sym done)
            ∙ trees-delivered raw app added.0 added.1,
      )

  -- A vote transaction that a block accepts, as its last one, is committed with the block, where the
  -- vote cache has for the transaction no vote of another process: of its process, no vote was stored
  -- under the nullifier that is returned, and one is in the committed state.
  pub delivered_vote_stays :
      (raw : Bytes) (app : App) (call : Call) (ve : VoteEnvelope) (id : Bytes) {x hash : Bytes}
      {after last : App}
      → chain.unmarshal raw ≡ some call
      → call.tx ≡ tx_vote ve id
      → IsCachedFor env id ve.process_id app.state
      → deliver_tx env chain raw app ≡ (ok (accepted x), after)
      → commit env chain after ≡ (ok hash, last)
      → (app.state.votes ve.process_id (vid_of env ve.process_id x) ≡ none)
        × (leaf : StateDbVote) × (last.committed.votes ve.process_id (vid_of env ve.process_id x)
            ≡ some leaf)
        × (leaf.process_id ≡ ve.process_id)
        × (leaf.nullifier ≡ x)
  unfolding trees
  delivered_vote_stays raw app call ve id {x} {hash} {after} {last} read is_vote cached done
        committed =
      let (s, added, same) = deliver_tx_inv raw app call read done in
      let (_, votes, _, _) = commit_inv env chain after committed in
      let cast_by = λ (tx : Tx). add_tx env call.tx_bytes call.signature tx true app.state in
      let cast =
        add_tx-IsCast env call.tx_bytes call.signature ve id app.state cached
          (ap cast_by (sym is_vote) ∙ added) in
      let (leaf, stored, pid, nullifier) = cast.stored in
      (
        cast.fresh,
        leaf,
        ap
              (λ (m : Bytes → Bytes → Option StateDbVote).
                m ve.process_id (vid_of env ve.process_id x))
              (votes ∙ ap (λ (t : State). t.votes) same)
            ∙ stored,
        pid,
        nullifier,
      )
