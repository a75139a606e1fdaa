-- ===== src/AccountCheck/Sends.antt =====
-- `SendTokensTxCheck` (vochain/account.go): what it says when it passes, and of another state.
use vocdoni.Base.{Slice, add64, arith, some, ℕ, ◌<◌, ◌≡◌, ◌≢◌, ◌≤◌}
use vocdoni.Account.{Account}
use vocdoni.AccountCheck.{send_accounts, send_parties, send_tokens_tx_check}
use vocdoni.Action.{err, invalid_nonce, ok}
use vocdoni.Crypto.{Env}
use vocdoni.Models.{send_tokens_type}
use vocdoni.State.{State}
use vocdoni.State.Extra.{tx_cost}
use vocdoni.Tx.{SendTokensTx}

module _ (env : Env) (tx_bytes signature : Slice) (tx : SendTokensTx) {from to amount : ℕ}
    (s : State)
    (checked : send_tokens_tx_check env tx_bytes signature (some tx) s
      ≡ (ok (from, to, amount), s)) where
  -- The message and its signature name the parties, in this state and in any other.
  pub send_parties_inv :
      (u : State) → send_parties env tx_bytes signature (some tx) u ≡ (ok (tx, from, to), u)
  unfolding send_tokens_tx_check send_parties send_accounts
  send_parties_inv u = ground arith

  -- What a passed check says of the sender. The sum of value and cost is taken on `uint64`.
  pub send_check_inv :
      {a : Account} {cost : ℕ}
      → s.accounts from ≡ some a
      → tx_cost send_tokens_type s ≡ (ok cost, s)
      → (tx.value ≡ amount) × (0 < amount) × (tx.nonce ≡ a.nonce) × (add64 amount cost ≤ a.balance)
  unfolding send_tokens_tx_check send_parties send_accounts
  send_check_inv ea ec = ground arith

  -- In a state in which the sender's nonce is another, the transaction is refused for it.
  pub send_check_replay :
      {a d : Account} (u : State)
      → u.accounts from ≡ some a
      → u.accounts to ≡ some d
      → tx.nonce ≢ a.nonce
      → send_tokens_tx_check env tx_bytes signature (some tx) u ≡ (err invalid_nonce, u)
  unfolding send_tokens_tx_check send_accounts
  send_check_replay u ea ed ne = ground (arith, send_parties_inv u)
