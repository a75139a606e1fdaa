-- ===== src/KeyKeeper/Sending.antt =====
-- vochain/keykeeper/keykeeper.go: what the keeper sends, the keys that it publishes and reveals.
use vocdoni.Base.{
  Bool, Bytes, List, Option, [], false, if◌then◌else◌, is_none, none, not, some, ℕ, ◌++◌, ◌==◌, ◌∷◌,
}
use vocdoni.AccountCheck.{signed}
use vocdoni.Action.{Action, gets, modify, ok, or_raise, panic, pure, ◌>>=◌, ◌>>◌}
use vocdoni.Database.{Database}
use vocdoni.KeyKeeper.{Keeper, Node, ProcessKeys, db_prefix_process, encode, generate_keys, u32_of}
use vocdoni.Models.{add_process_keys_type, reveal_process_keys_type}
use vocdoni.Tx.{AdminTx}

module _ (D : Database) (node : Node) where
  -- Whether `SendTx` gave no error and the code of the result is zero.
  unfoldable pub is_accepted : Option ℕ → Bool
  is_accepted none = false
  is_accepted (some code) = code == 0

  -- `signAndSendTx`: whether there was no error.
  unfoldable pub sign_and_send_tx : AdminTx → Action (Keeper D) Bool
  sign_and_send_tx tx k = elim (node.marshal_admin tx) [
    | none ↦ (ok false, k)
    | some bytes ↦ elim (node.sign_tx bytes) [
      | none ↦ (ok false, k)
      | some signature ↦ elim (node.marshal_signed bytes signature) [
        | none ↦ (ok false, k)
        | some signed ↦ (
          ok (is_accepted (node.send_tx k.sent signed)),
          record k { sent = k.sent ++ signed ∷ [] },
        )
      ]
    ]
  ]

  -- The transactions of `publishKeys` and `revealKeys`.
  unfoldable pub add_keys_tx : Bytes → ProcessKeys → ℕ → AdminTx
  unfolding u32_of
  add_keys_tx pid keys nonce = record {
    txtype = add_process_keys_type;
    nonce = nonce;
    address = [];
    process_id = some pid;
    key_index = some (u32_of keys.index);
    encryption_public_key = some keys.pub_key;
    encryption_private_key = none;
  }

  unfoldable pub reveal_keys_tx : Bytes → ProcessKeys → ℕ → AdminTx
  unfolding u32_of
  reveal_keys_tx pid keys nonce = record {
    txtype = reveal_process_keys_type;
    nonce = nonce;
    address = [];
    process_id = some pid;
    key_index = some (u32_of keys.index);
    encryption_public_key = none;
    encryption_private_key = some keys.priv_key;
  }

  -- The end of `publishKeys`: keys that are stored already stay.
  unfoldable pub store_keys : Bytes → ProcessKeys → Keeper D → Keeper D
  unfolding encode
  store_keys pid keys k =
      let key = db_prefix_process ++ pid in
      if is_none (D.get k.storage key)
      then record k { storage = D.set key (encode keys) k.storage }
      else k

  -- `publishKeys`; its error is only logged. A nil pointer in the pool stops the node.
  unfoldable pub publish_keys : Option ProcessKeys → Bytes → Action (Keeper D) Unit
  unfolding add_keys_tx store_keys
  publish_keys pooled pid = do
    keys ← or_raise pooled panic
    nonce ← gets (λ k. node.random k.sent)
    answer ← sign_and_send_tx (add_keys_tx pid keys nonce)
    if not answer then pure tt else modify (λ k. store_keys pid keys k)

  -- `revealKeys`, from the keys on.
  unfoldable pub send_private : Bytes → ProcessKeys → Action (Keeper D) Unit
  unfolding reveal_keys_tx
  send_private pid keys = do
    nonce ← gets (λ k. node.random k.sent)
    answer ← sign_and_send_tx (reveal_keys_tx pid keys nonce)
    if not answer
        then pure tt
        else modify (λ k. record k { storage = D.delete (db_prefix_process ++ pid) k.storage })

  -- `revealKeys`
  unfoldable pub reveal_keys : Bytes → Action (Keeper D) Unit
  unfolding send_private
  reveal_keys pid = elim (generate_keys node pid) [
    | none ↦ pure tt
    | some keys ↦ send_private pid keys
  ]

  -- `publishPendingKeys`
  unfoldable pub publish_all : List (Bytes × Option ProcessKeys) → Action (Keeper D) Unit
  publish_all [] = pure tt
  publish_all ((pid, keys) ∷ rest) = publish_keys keys pid >> publish_all rest

  unfoldable pub publish_pending_keys : Action (Keeper D) Unit
  unfolding publish_all
  publish_pending_keys = do pool ← gets (λ k. k.key_pool); publish_all pool
