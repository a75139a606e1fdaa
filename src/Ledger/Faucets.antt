-- ===== src/Ledger/Faucets.antt =====
-- `ConsumeFaucetPayload` (vochain/account.go): the amount goes from issuer to receiver, the fee to
-- the burn account, and the package is marked as used.
use vocdoni.Base.{add32, arith, some, u64_mod, ℕ, ◌+◌, ◌-◌, ◌<◌, ◌≡◌, ◌≢◌, ◌≤◌}
use vocdoni.Account.{Account, Address}
use vocdoni.Action.{err, ok, zero_amount}
use vocdoni.Crypto.{Env, burn_address, zero_address}
use vocdoni.Ledger.{consume_faucet_payload, faucet_key}
use vocdoni.Ledger.Supply.{Accounts}
use vocdoni.Models.{FaucetPayload, collect_faucet_type, set_account_info_type}
use vocdoni.State.{State, put}
use vocdoni.State.Extra.{tx_cost}
use vocdoni.State.Faucet.{stored}

module _ (env : Env) (from to : Address) (payload : FaucetPayload) {a d b : Account} (s : State)
    (receiver : env.bytes_to_address payload.to ≡ to) (issuer_set : from ≢ zero_address)
    (ne : from ≢ to) (from_burn : from ≢ burn_address) (to_burn : to ≢ burn_address)
    (ea : s.accounts from ≡ some a) (ed : s.accounts to ≡ some d)
    (eb : s.accounts burn_address ≡ some b) (pos : 0 < payload.amount)
    (room : d.balance + payload.amount < u64_mod) where
  -- The accounts once a package is collected.
  abbrev collected : Accounts
  collected = put burn_address b (
      put to (record d { balance = d.balance + payload.amount; nonce = add32 d.nonce 1 })
        (put from (record a { balance = a.balance - payload.amount }) s.accounts))

  -- The accounts once a package has paid for the creation of an account.
  abbrev granted : ℕ → Accounts
  granted cost =
      put burn_address (record b { balance = b.balance + cost })
        (put to (record d { balance = d.balance + payload.amount })
          (put from (record a { balance = a.balance - payload.amount - cost }) s.accounts))

  -- Between two different accounts that are not the burn account, with an amount that is not zero,
  -- is covered and does not overflow: a package that is collected moves its amount, increments the
  -- receiver's nonce and is stored.
  pub consume_collected :
      payload.amount ≤ a.balance
      → consume_faucet_payload env from (some payload) collect_faucet_type s ≡ (
        ok tt,
        record s {
          accounts = collected;
          faucet = stored (faucet_key env from payload.identifier) s.faucet;
        },
      )
  unfolding consume_faucet_payload
  consume_collected cover = ground arith

  -- Between such accounts, with a fee that is not zero and an amount and a fee that are covered and
  -- do not overflow: a package that pays for a new account moves its amount, burns the fee from the
  -- issuer and is stored.
  pub consume_granted :
      {cost : ℕ}
      → tx_cost collect_faucet_type s ≡ (ok cost, s)
      → 0 < cost
      → payload.amount + cost ≤ a.balance
      → b.balance + cost < u64_mod
      → consume_faucet_payload env from (some payload) set_account_info_type s ≡ (
        ok tt,
        record s {
          accounts = granted cost;
          faucet = stored (faucet_key env from payload.identifier) s.faucet;
        },
      )
  unfolding consume_faucet_payload
  consume_granted ec charge cover burn_room = ground arith

  -- Between such accounts, without a fee to burn, a package that pays for a new account is refused: a transfer of zero is
  -- an error.
  pub consume_free_refused :
      tx_cost collect_faucet_type s ≡ (ok 0, s)
      → payload.amount ≤ a.balance
      → consume_faucet_payload env from (some payload) set_account_info_type s
        ≡ (err zero_amount, s)
  unfolding consume_faucet_payload
  consume_free_refused ec cover = ground arith
