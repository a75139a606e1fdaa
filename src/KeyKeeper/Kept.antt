-- ===== src/KeyKeeper/Kept.antt =====
-- A property of the keeper that each write of its handlers keeps holds on.
use vocdoni.Base.{
  Bool, Bool-cases, Bytes, List, Option, Option-cases, [], if◌then◌else◌, inl, inr, is_none, none,
  not, some, ℕ, ◌++◌, ◌+◌, ◌∷◌,
}
use vocdoni.Action.{Action, Result, err, gets, modify, ok, pure, ◌>>=◌}
use vocdoni.Action.Preserve.{>>=-Preserves, Preserves, if-Preserves, preserve_rules}
use vocdoni.Crypto.{decimal}
use vocdoni.Database.{Database}
use vocdoni.KeyKeeper.{
  Keeper, Node, ProcessKeys, db_prefix_block, db_prefix_process, encode, generate_keys, pool_put,
}
use vocdoni.KeyKeeper.Handlers.{
  check_reveal_process, key_given, needs_keys, on_cancel, on_process, on_process_status_change,
  reveal_all, reveal_found, reveal_next,
}
use vocdoni.KeyKeeper.Sending.{
  publish_all, publish_keys, publish_pending_keys, reveal_keys, send_private, sign_and_send_tx,
  store_keys,
}
use vocdoni.Models.{Process, ProcessStatus}
use vocdoni.Processes.{process}
use vocdoni.State.{State}
use vocdoni.Tx.{AdminTx}

-- The writes of the handlers, but for the lists of the blocks.
pub record IsKept (D : Database) (node : Node) (P : Keeper D → Type 0) : Type 0 where
  pub sends : (k : Keeper D) (tx : Bytes) → P k → P (record k { sent = k.sent ++ tx ∷ [] })
  pub stores :
      (k : Keeper D) (pid value : Bytes)
      → P k
      → P (record k { storage = D.set (db_prefix_process ++ pid) value k.storage })
  pub forgets :
      (k : Keeper D) (pid : Bytes)
      → P k
      → P (record k { storage = D.delete (db_prefix_process ++ pid) k.storage })
  pub pools :
      (k : Keeper D) (pid : Bytes)
      → P k
      → P (record k { key_pool = pool_put pid (generate_keys node pid) k.key_pool })
  pub schedules :
      (k : Keeper D) (pid : Bytes) (height : ℕ)
      → P k
      → P (record k { block_pool = pool_put pid height k.block_pool })

module _ (D : Database) (node : Node) {P : Keeper D → Type 0} (kept : IsKept D node P) where
  pool-Preserves :
      (pid : Bytes)
      → Preserves P
          (modify (λ k. record k { key_pool = pool_put pid (generate_keys node pid) k.key_pool }))
  pool-Preserves pid = record { run = λ k h. kept.pools k pid h }

  sign_and_send_tx-Preserves : (tx : AdminTx) → Preserves P (sign_and_send_tx D node tx)
  unfolding sign_and_send_tx
  sign_and_send_tx-Preserves tx = record { run = λ k h. sent k h }
    where
      sent : (k : Keeper D) → P k → P (sign_and_send_tx D node tx k).1
      sent k h = elim (Option-cases (node.marshal_admin tx)) [
        | inl none_there ↦ rw (sign_and_send_tx, none_there) h
        | inr (bytes, e) ↦ elim (Option-cases (node.sign_tx bytes)) [
          | inl unsigned ↦ rw (sign_and_send_tx, e, unsigned) h
          | inr (signature, e') ↦ elim (Option-cases (node.marshal_signed bytes signature)) [
            | inl unsent ↦ rw (sign_and_send_tx, e, e', unsent) h
            | inr (tx_bytes, e'') ↦ rw (sign_and_send_tx, e, e', e'') (kept.sends k tx_bytes h)
          ]
        ]
      ]

  store_keys-Preserves :
      (pid : Bytes) (keys : ProcessKeys) → Preserves P (modify (λ k. store_keys D node pid keys k))
  unfolding store_keys
  store_keys-Preserves pid keys = record {
    run = λ k h. elim (Bool-cases (is_none (D.get k.storage (db_prefix_process ++ pid)))) [
      | inl fresh ↦ rw (store_keys, fresh) (kept.stores k pid (encode keys) h)
      | inr there ↦ rw (store_keys, there) h
    ];
  }

  forget_keys-Preserves :
      (pid : Bytes)
      → Preserves P
          (modify (λ k. record k { storage = D.delete (db_prefix_process ++ pid) k.storage }))
  forget_keys-Preserves pid = record { run = λ k h. kept.forgets k pid h }

  ruleset keeper_rules =
      (preserve_rules, sign_and_send_tx-Preserves, store_keys-Preserves, forget_keys-Preserves)

  publish_keys-Preserves :
      (keys : Option ProcessKeys) (pid : Bytes) → Preserves P (publish_keys D node keys pid)
  unfolding publish_keys
  publish_keys-Preserves keys pid = search keeper_rules depth 20

  publish_all-Preserves :
      (pool : List (Bytes × Option ProcessKeys)) → Preserves P (publish_all D node pool)
  unfolding publish_all
  publish_all-Preserves [] = search keeper_rules
  publish_all-Preserves ((pid, keys) ∷ rest) =
      >>=-Preserves (publish_keys D node keys pid) (λ _. publish_all D node rest)
        (publish_keys-Preserves keys pid) (λ _. publish_all-Preserves rest)

  send_private-Preserves :
      (pid : Bytes) (keys : ProcessKeys) → Preserves P (send_private D node pid keys)
  unfolding send_private
  send_private-Preserves pid keys = search keeper_rules depth 20

  option-Preserves :
      {A : Type 0} (o : Option A) (m : Action (Keeper D) Unit) (f : A → Action (Keeper D) Unit)
      → Preserves P m
      → ((a : A) → Preserves P (f a))
      → Preserves P (elim o [ none ↦ m | some a ↦ f a ])
  option-Preserves none m f hm hf = hm
  option-Preserves (some a) m f hm hf = hf a

  reveal_keys-Preserves : (pid : Bytes) → Preserves P (reveal_keys D node pid)
  unfolding reveal_keys
  reveal_keys-Preserves pid =
      option-Preserves (generate_keys node pid) (pure tt) (λ keys. send_private D node pid keys)
        (search preserve_rules) (λ keys. send_private-Preserves pid keys)

  -- What is done with a process of the state, and without one.
  on_found-Preserves :
      {A : Type 0} (r : Result Process) (m : Action (Keeper D) A)
      (f : Process → Action (Keeper D) A)
      → Preserves P m
      → ((p : Process) → Preserves P (f p))
      → Preserves P (elim r [ err _ ↦ m | ok p ↦ f p ])
  on_found-Preserves (err _) m f hm hf = hm
  on_found-Preserves (ok p) m f hm hf = hf p

  needs_keys-Preserves : (p : Process) → Preserves P (needs_keys D node p)
  unfolding needs_keys
  needs_keys-Preserves p = search preserve_rules

  key_given-Preserves : (p : Process) → Preserves P (key_given D node p)
  unfolding key_given
  key_given-Preserves p = search preserve_rules

  -- The list of a block may be deleted.
  unfoldable pub Forgets : ℕ → Type 0
  Forgets height =
      (k : Keeper D)
      → P k
      → P (record k { storage = D.delete (db_prefix_block ++ decimal height) k.storage })

  module _ (chain : State) where
    reveal_next-Preserves : (pid : Bytes) → Preserves P (reveal_next D node chain pid)
    unfolding reveal_next
    reveal_next-Preserves pid = record {
      run = λ k h. kept.schedules k pid (chain.current_height + 1) h;
    }

    block-Preserves :
        (pid : Bytes) (height : ℕ)
        → Preserves P (modify (λ k. record k { block_pool = pool_put pid height k.block_pool }))
    block-Preserves pid height = record { run = λ k h. kept.schedules k pid height h }

    ruleset handler_rules = (
      preserve_rules, needs_keys-Preserves, key_given-Preserves, reveal_next-Preserves,
      block-Preserves, pool-Preserves, reveal_keys-Preserves,
    )

    pub on_cancel-Preserves : (pid : Bytes) → Preserves P (on_cancel D node chain pid)
    unfolding on_cancel
    on_cancel-Preserves pid =
        on_found-Preserves (process pid chain).0 (pure tt) _ (search preserve_rules)
          (λ p. search handler_rules depth 20)

    pub on_process_status_change-Preserves :
        (pid : Bytes) (status : ProcessStatus)
        → Preserves P (on_process_status_change D node chain pid status)
    unfolding on_process_status_change
    on_process_status_change-Preserves pid status =
        on_found-Preserves (process pid chain).0 (pure tt) _ (search preserve_rules)
          (λ p. search handler_rules depth 20)

    pub on_process-Preserves : (pid : Bytes) → Preserves P (on_process D node chain pid)
    unfolding on_process
    on_process-Preserves pid =
        on_found-Preserves (process pid chain).0 (pure tt) _ (search preserve_rules)
          (λ p. search handler_rules depth 20)

    reveal_all-Preserves : (pids : List Bytes) → Preserves P (reveal_all D node chain pids)
    unfolding reveal_all
    reveal_all-Preserves [] = search preserve_rules
    reveal_all-Preserves (pid ∷ rest) =
        let later = reveal_all-Preserves rest in
        on_found-Preserves (process pid chain).0 (reveal_all D node chain rest) _ later
          (λ p. search handler_rules depth 20)

    forget_block-Preserves :
        (height : ℕ)
        → Forgets height
        → Preserves P (
            modify
              (λ k. record k { storage = D.delete (db_prefix_block ++ decimal height) k.storage }))
    unfolding Forgets
    forget_block-Preserves height deletes = record { run = deletes }

    reveal_found-Preserves :
        (height : ℕ) (bytes : Bytes)
        → Forgets height
        → Preserves P (reveal_found D node chain height bytes)
    unfolding reveal_found
    reveal_found-Preserves height bytes deletes =
        let pids = (node.unmarshal_pids bytes).0 in
        let finish = λ (complete : Bool).
          if complete
          then modify (λ (k : Keeper D). record k {
            storage = D.delete (db_prefix_block ++ decimal height) k.storage;
          })
          else pure tt in
        if-Preserves (not ((node.unmarshal_pids bytes).1)) (pure tt)
          (reveal_all D node chain pids >>= finish) (search preserve_rules)
          (>>=-Preserves (reveal_all D node chain pids) finish (reveal_all-Preserves pids)
            (λ complete.
              if-Preserves complete _ (pure tt) (forget_block-Preserves height deletes)
                (search preserve_rules)))

    pub check_reveal_process-Preserves :
        (height : ℕ) → Forgets height → Preserves P (check_reveal_process D node chain height)
    unfolding check_reveal_process
    check_reveal_process-Preserves height deletes =
        >>=-Preserves (gets (λ k. D.get k.storage (db_prefix_block ++ decimal height))) _
          (search preserve_rules)
          (λ found.
            option-Preserves found (pure tt) (λ stored. reveal_found D node chain height stored)
              (search preserve_rules) (λ stored. reveal_found-Preserves height stored deletes))

  pub publish_pending_keys-Preserves : Preserves P (publish_pending_keys D node)
  unfolding publish_pending_keys
  publish_pending_keys-Preserves = search (preserve_rules, publish_all-Preserves) depth 20
