-- ===== src/KeyKeeper/Reveal.antt =====
-- What the keeper reveals at a block: the keys of each process on the list of the block.
use vocdoni.Base.{
  Bool, Bool-cases, Bytes, List, Option, [], arith, false, if◌then◌else◌, inl, inr, none, not, refl,
  some, sym, true, ℕ, ◌++◌, ◌||◌, ◌∙◌, ◌∷◌, ◌≡◌,
}
use vocdoni.AccountCheck.{signed}
use vocdoni.Action.{Action, modify, ok, pure, ◌>>◌}
use vocdoni.Action.Preserve.{bind_ok}
use vocdoni.Database.{Database}
use vocdoni.KeyKeeper.{Keeper, Node, ProcessKeys, at_index, db_prefix_process, generate_keys}
use vocdoni.KeyKeeper.Handlers.{key_given, needs_keys, reveal_all}
use vocdoni.KeyKeeper.Sending.{
  is_accepted, reveal_keys, reveal_keys_tx, send_private, sign_and_send_tx,
}
use vocdoni.Models.{EnvelopeType, Process}
use vocdoni.Processes.{is_empty, process}
use vocdoni.Processes.Results.{published}
use vocdoni.State.{State}
use vocdoni.Tx.{AdminTx}
use mathlib.Core.List.{append-nil}

-- A transaction's bytes and signature, as they are sent.
pub record IsSigned (node : Node) (tx : AdminTx) (signed : Bytes) : Type 0 where
  pub bytes : Bytes
  pub signature : Bytes
  pub marshalled : node.marshal_admin tx ≡ some bytes
  pub by_signer : node.sign_tx bytes ≡ some signature
  pub enveloped : node.marshal_signed bytes signature ≡ some signed

-- What protobuf and the signer promise: each transaction can be signed.
pub record Signs (node : Node) : Type 0 where
  pub total : (tx : AdminTx) → (signed : Bytes) × IsSigned node tx signed

-- A process whose keys are to be revealed: it is there, it needs keys, and it has the keeper's slot.
pub record IsDue (node : Node) (chain : State) (pid : Bytes) : Type 0 where
  pub p : Process
  pub kind : EnvelopeType
  pub key : Bytes
  pub found : (process pid chain).0 ≡ ok p
  pub is_kind : p.envelope_type ≡ some kind
  pub needed : (kind.anonymous || kind.encrypted_votes) ≡ true
  pub slot : at_index p.encryption_public_keys node.my_index ≡ some key

module _ (D : Database) (node : Node) where
  -- `SendTx` accepts the transactions that reveal the keys of a process, with any nonce and after
  -- whatever was sent before.
  unfoldable pub IsTaken : Bytes → Type 0
  IsTaken pid =
      (keys : ProcessKeys) (nonce : ℕ) (before : List Bytes) (signed : Bytes)
      → IsSigned node (reveal_keys_tx D node pid keys nonce) signed
      → is_accepted D node (node.send_tx before signed) ≡ true

  -- `SendTx` accepted, with the code zero, a signed transaction with the private key of a process.
  unfoldable pub IsRevealed : Bytes → Keeper D → Type 0
  IsRevealed pid k =
      (keys : ProcessKeys) × (nonce : ℕ) × (signed : Bytes) × (before : List Bytes) × (after : List
        Bytes)
      × (generate_keys node pid ≡ some keys)
      × IsSigned node (reveal_keys_tx D node pid keys nonce) signed
      × (k.sent ≡ before ++ signed ∷ after)
      × (is_accepted D node (node.send_tx before signed) ≡ true)

  -- What was sent stays sent, in its order.
  unfoldable pub Extends : Keeper D → Keeper D → Type 0
  Extends k k' = (more : List Bytes) × (k'.sent ≡ k.sent ++ more)

  sign_and_send_tx_lem :
      (tx : AdminTx) (k : Keeper D) {signed : Bytes}
      → IsSigned node tx signed
      → (b : Bool) × (sign_and_send_tx D node tx k
          ≡ (ok b, record k { sent = k.sent ++ signed ∷ [] }))
  unfolding sign_and_send_tx
  sign_and_send_tx_lem tx k {signed} s = (
    is_accepted D node (node.send_tx k.sent signed),
    rw (sign_and_send_tx, s.marshalled, s.by_signer, s.enveloped),
  )

  send_private_lem :
      (pid : Bytes) (keys : ProcessKeys) (k : Keeper D) {signed : Bytes}
      → IsSigned node (reveal_keys_tx D node pid keys (node.random k.sent)) signed
      → (k' : Keeper D) × (send_private D node pid keys k ≡ (ok tt, k'))
        × (k'.sent ≡ k.sent ++ signed ∷ [])
  unfolding send_private
  send_private_lem pid keys k {signed} s =
      let tx = reveal_keys_tx D node pid keys (node.random k.sent) in
      let (answer, sent) = sign_and_send_tx_lem tx k s in
      by_answer answer (
        bind_ok (sign_and_send_tx D node tx) (λ (b : Bool). if not b then pure tt else forget) k
          sent)
    where
      forget : Action (Keeper D) Unit
      forget = modify (λ k. record k { storage = D.delete (db_prefix_process ++ pid) k.storage })

      by_answer :
          (b : Bool)
          → send_private D node pid keys k
            ≡ (if not b then pure tt else forget) (record k { sent = k.sent ++ signed ∷ [] })
          → (k' : Keeper D) × (send_private D node pid keys k ≡ (ok tt, k'))
            × (k'.sent ≡ k.sent ++ signed ∷ [])
      by_answer true e = (_, e, refl)
      by_answer false e = (_, e, refl)

  -- The keys of a process are revealed, where the keeper can make them and `SendTx` accepts
  -- them.
  reveal_keys_lem :
      (pid : Bytes) (k : Keeper D)
      → Signs node
      → (k' : Keeper D) × (reveal_keys D node pid k ≡ (ok tt, k'))
        × Extends k k'
        × ((keys : ProcessKeys)
            → generate_keys node pid ≡ some keys
            → IsTaken pid
            → IsRevealed pid k')
  unfolding reveal_keys Extends IsRevealed IsTaken
  reveal_keys_lem pid k signs = by_keys (generate_keys node pid) refl
    where
      by_keys :
          (o : Option ProcessKeys)
          → generate_keys node pid ≡ o
          → (k' : Keeper D) × ((elim o as (λ _. Action (Keeper D) Unit) [
            | none ↦ pure tt
            | some keys ↦ send_private D node pid keys
          ])
                k
              ≡ (ok tt, k'))
            × Extends k k'
            × ((keys : ProcessKeys)
                → generate_keys node pid ≡ some keys
                → IsTaken pid
                → IsRevealed pid k')
      by_keys none e =
          (k, refl, ([], sym (append-nil k.sent)), λ keys made taken. absurd (ground arith))
      by_keys (some own) e =
          let (signed, s) = signs.total (reveal_keys_tx D node pid own (node.random k.sent)) in
          let (k', done, sent) = send_private_lem pid own k s in
          (
            k',
            done,
            (signed ∷ [], sent),
            λ keys made taken. (
              own,
              node.random k.sent,
              signed,
              k.sent,
              [],
              e,
              s,
              sent,
              taken own (node.random k.sent) k.sent signed s,
            ),
          )

  -- A process that is due takes the loop on.
  reveal_due_lem :
      (chain : State) (pid : Bytes) (rest : List Bytes) (k : Keeper D) (due : IsDue node chain pid)
      → reveal_all D node chain (pid ∷ rest) k
        ≡ (if not (is_empty due.key)
              then reveal_keys D node pid >> reveal_all D node chain rest
              else reveal_all D node chain rest)
            k
  unfolding reveal_all needs_keys key_given
  reveal_due_lem chain pid rest k due =
      rw (reveal_all, due.found, due.is_kind, due.needed, due.slot)

  module _ (chain : State) (signs : Signs node) where
    pub reveal_one_lem :
        (pid : Bytes) (rest : List Bytes) (k : Keeper D) (due : IsDue node chain pid)
        → (k' : Keeper D) × (reveal_all D node chain (pid ∷ rest) k
            ≡ reveal_all D node chain rest k')
          × Extends k k'
          × (is_empty due.key ≡ false
              → (keys : ProcessKeys) → generate_keys node pid ≡ some keys
              → IsTaken pid
              → IsRevealed pid k')
    unfolding Extends
    reveal_one_lem pid rest k due =
        let step = reveal_due_lem chain pid rest k due in
        elim (Bool-cases (is_empty due.key)) [
          | inl unpublished ↦ (
            k,
            step ∙ rw unpublished refl,
            ([], sym (append-nil k.sent)),
            λ published. absurd (ground arith),
          )
          | inr published ↦
              let (k', revealed, extends, is_revealed) = reveal_keys_lem pid k signs in
              let then_rest =
                bind_ok (reveal_keys D node pid) (λ _. reveal_all D node chain rest) k revealed in
              (k', step ∙ rw published then_rest, extends, λ _. is_revealed)
        ]
