-- ===== src/Tests/Tokens.antt =====
-- The token transfers and fees of the network of Tests.antt (vochain/transaction.go).
use vocdoni.Base.{List, Slice, [], arith, bytes_eq, refl, replicate, some, true, ◌∷◌, ◌≡◌}
use vocdoni.Account.{Address}
use vocdoni.AccountCheck.{send_accounts, send_parties, send_tokens_tx_check}
use vocdoni.Action.{err, invalid_nonce, ok}
use vocdoni.AddTx.{add_tx}
use vocdoni.AddTx.Tokens.{
  send_tokens_commits, send_tokens_conserves, send_tokens_replay, send_tokens_to_self,
}
use vocdoni.Crypto.{addr_from_signature, burn_address}
use vocdoni.Ledger.Fees.{after_fee}
use vocdoni.Ledger.Supply.{Fits, balance_of, occurrences, supply}
use vocdoni.Models.{ready, send_tokens_type}
use vocdoni.State.{State, put}
use vocdoni.State.Extra.{tx_cost, tx_type_cost_to_state_key}
use vocdoni.Tests.{holding, signed_by, test_env, test_state}
use vocdoni.Tx.{SendTokensTx, tx_send_tokens}

abbrev small : State
small = test_state 12 ready

-- A transfer of 30 tokens from account 1.
abbrev payment : Address → SendTokensTx
payment to = record {
  nonce = 0;
  from = some (1 ∷ replicate 19 0);
  to = some (to ∷ replicate 19 0);
  value = 30;
}

abbrev message : Slice
message = some (1 ∷ 2 ∷ [])

payment_checked :
    send_tokens_tx_check test_env message (signed_by 1) (some (payment 2)) small
    ≡ (ok (1, 2, 30), small)
unfolding send_tokens_tx_check send_accounts send_parties addr_from_signature tx_cost
    tx_type_cost_to_state_key bytes_eq
payment_checked = refl

self_checked :
    send_tokens_tx_check test_env message (signed_by 1) (some (payment 1)) small
    ≡ (ok (1, 1, 30), small)
unfolding send_tokens_tx_check send_accounts send_parties addr_from_signature tx_cost
    tx_type_cost_to_state_key bytes_eq
self_checked = refl

cost_of_sending : tx_cost send_tokens_type small ≡ (ok 10, small)
unfolding tx_cost tx_type_cost_to_state_key
cost_of_sending = refl

abbrev everyone : List Address
everyone = 1 ∷ 2 ∷ burn_address ∷ []

listed_once :
    (occurrences 1 everyone ≡ 1)
    × (occurrences 2 everyone ≡ 1)
    × (occurrences burn_address everyone ≡ 1)
unfolding occurrences
listed_once = (refl, refl, refl)

small-Fits : Fits small.accounts
small-Fits a acc h = ground arith

send_tokens_commits_example :
    add_tx test_env message (signed_by 1) (tx_send_tokens (payment 2)) true small ≡ (
      ok [],
      record small {
        accounts =
            after_fee 1 send_tokens_type 10
              (holding 70)
              (holding 0)
              (put 2 (holding 80) (put 1 (holding 70) small.accounts));
      },
    )
send_tokens_commits_example =
    send_tokens_commits test_env message (signed_by 1) (payment 2) small {a = holding 100}
      {d = holding 50} {b = holding 0} payment_checked (omega arith) (omega arith) (omega arith)
      refl refl refl cost_of_sending (omega arith) (omega arith) (omega arith)

send_tokens_conserves_example :
    supply everyone
      (add_tx test_env message (signed_by 1) (tx_send_tokens (payment 2)) true small).1.accounts
    ≡ supply everyone small.accounts
send_tokens_conserves_example =
    send_tokens_conserves test_env message (signed_by 1) (payment 2) small {a = holding 100}
      {d = holding 50} {b = holding 0} payment_checked (omega arith) (omega arith) (omega arith)
      refl refl refl cost_of_sending (omega arith) (omega arith) (omega arith) everyone
      listed_once.0 listed_once.1 listed_once.2

send_tokens_replay_example :
    (add_tx test_env message
      (signed_by 1)
      (tx_send_tokens (payment 2))
      true
      (add_tx test_env message (signed_by 1) (tx_send_tokens (payment 2)) true small).1).0
    ≡ err invalid_nonce
send_tokens_replay_example =
    send_tokens_replay test_env message (signed_by 1) (payment 2) small {a = holding 100}
      {d = holding 50} {b = holding 0} payment_checked (omega arith) (omega arith) (omega arith)
      refl refl refl cost_of_sending (omega arith) (omega arith) (omega arith) true (omega arith)

send_tokens_to_self_example :
    let (r, s') = add_tx test_env message (signed_by 1) (tx_send_tokens (payment 1)) true small in
    (r ≡ ok []) × (balance_of (s'.accounts 1) ≡ 120) × (balance_of (s'.accounts burn_address) ≡ 10)
send_tokens_to_self_example =
    send_tokens_to_self test_env message (signed_by 1) (payment 1) small {a = holding 100}
      {b = holding 0} self_checked (omega arith) refl refl cost_of_sending (omega arith)
      (omega arith) (omega arith)
