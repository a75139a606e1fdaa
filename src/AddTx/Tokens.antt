-- ===== src/AddTx/Tokens.antt =====
-- `AddTx` of the transactions that move tokens (vochain/transaction.go).
use vocdoni.Base.{
  Bool, List, Slice, [], arith, refl, some, true, u32_mod, u64_mod, ℕ, ◌+◌, ◌-◌, ◌<◌, ◌∙◌, ◌≡◌, ◌≢◌,
  ◌≤◌,
}
use vocdoni.Account.{Account, Address}
use vocdoni.AccountCheck.{send_tokens_tx_check}
use vocdoni.AccountCheck.Sends.{send_check_inv, send_check_replay}
use vocdoni.Action.{err, invalid_nonce, ok}
use vocdoni.AddTx.{add_send_tokens, add_tx}
use vocdoni.Crypto.{Env, burn_address}
use vocdoni.Ledger.{is_collect_faucet, transfer_balance}
use vocdoni.Ledger.Fees.{after_fee, charged, subtract_cost_ok, supply-after_fee}
use vocdoni.Ledger.Supply.{Accounts, balance_of, occurrences, supply}
use vocdoni.Ledger.Transfers.{supply_moved, transfer_balance_ok}
use vocdoni.Models.{send_tokens_type}
use vocdoni.State.{State, put}
use vocdoni.State.Extra.{tx_cost, tx_cost_same}
use vocdoni.Tx.{SendTokensTx, tx_send_tokens}

module _ (env : Env) (tx_bytes signature : Slice) (tx : SendTokensTx) {from to amount : ℕ}
    (s : State) where
  module _ {a d b : Account} {cost : ℕ}
      (checked : send_tokens_tx_check env tx_bytes signature (some tx) s
        ≡ (ok (from, to, amount), s))
      (ne : from ≢ to) (from_burn : from ≢ burn_address) (to_burn : to ≢ burn_address)
      (ea : s.accounts from ≡ some a) (ed : s.accounts to ≡ some d)
      (eb : s.accounts burn_address ≡ some b) (ec : tx_cost send_tokens_type s ≡ (ok cost, s))
      (no_wrap : amount + cost < u64_mod) (room : d.balance + amount < u64_mod)
      (burn_room : b.balance + cost < u64_mod) where
    -- The sender after the transfer, before the fee.
    abbrev sent : Account
    sent = record a { balance = a.balance - amount }

    abbrev moved : Accounts
    moved = put to (record d { balance = d.balance + amount }) (put from sent s.accounts)

    -- The state after a committed transfer.
    abbrev send_result : State
    send_result = record s { accounts = after_fee from send_tokens_type cost sent b moved }

    -- A transfer that passed its check, between two different accounts that are not the burn
    -- account, is committed whole when no sum wraps: the amount moves, the fee is burnt, the nonce
    -- goes up by one and the rest of the state stays.
    pub send_tokens_commits :
        add_tx env tx_bytes signature (tx_send_tokens tx) true s ≡ (ok [], send_result)
    unfolding add_tx add_send_tokens
    send_tokens_commits =
        let (value, pos, nonce_eq, cover) =
          send_check_inv env tx_bytes signature tx s checked ea ec in
        let covered : amount + cost ≤ a.balance = omega arith in
        ground (
          arith,
          transfer_balance_ok from to amount s ne ea ed pos (omega arith) room,
          subtract_cost_ok from send_tokens_type {cost = cost} {acc = sent} {burn = b}
              (record s { accounts = moved }) from_burn
              (tx_cost_same send_tokens_type s (record s { accounts = moved }) ec refl)
              (ground arith) (ground arith) (omega arith) burn_room,
        )

    -- Such a committed transfer creates and destroys nothing: the sum over any list that names sender,
    -- receiver and burn account once is the same before and after.
    pub send_tokens_conserves :
        (l : List Address)
        → occurrences from l ≡ 1
        → occurrences to l ≡ 1
        → occurrences burn_address l ≡ 1
        → supply l (add_tx env tx_bytes signature (tx_send_tokens tx) true s).1.accounts
          ≡ supply l s.accounts
    send_tokens_conserves l once_from once_to once_burn =
        let (value, pos, nonce_eq, cover) =
          send_check_inv env tx_bytes signature tx s checked ea ec in
        let covered : amount + cost ≤ a.balance = omega arith in
        rw send_tokens_commits (
          supply-after_fee from send_tokens_type {cost = cost} {acc = sent} {burn = b}
            (record s { accounts = moved }) l from_burn (ground arith) (ground arith) (omega arith)
            once_from once_burn
          ∙ supply_moved from to amount l s.accounts a d ne once_from once_to ea ed (omega arith))

    -- Once such a transfer is committed, it is refused for its nonce, whether it is only checked or
    -- delivered again.
    pub send_tokens_replay :
        (commit : Bool)
        → a.nonce < u32_mod
        → (add_tx env tx_bytes signature
            (tx_send_tokens tx)
            commit
            (add_tx env tx_bytes signature (tx_send_tokens tx) true s).1).0
          ≡ err invalid_nonce
    unfolding add_tx add_send_tokens is_collect_faucet
    send_tokens_replay commit small =
        let (value, pos, nonce_eq, cover) =
          send_check_inv env tx_bytes signature tx s checked ea ec in
        let again : send_tokens_tx_check env tx_bytes signature (some tx) send_result
            ≡ (err invalid_nonce, send_result) =
          send_check_replay env tx_bytes signature tx s checked
            {a = charged send_tokens_type cost sent} {d = record d { balance = d.balance + amount }}
            send_result (ground arith) (ground arith) (ground arith) in
        rw send_tokens_commits (ground (arith, again))

module _ (env : Env) (tx_bytes signature : Slice) (tx : SendTokensTx) {from amount : ℕ}
    (s : State) where
  -- A sender other than the burn account who names himself as the receiver passes the check as any
  -- other, and, when no sum wraps, ends up with the amount more than he had, less the fee.
  pub send_tokens_to_self :
      {a b : Account} {cost : ℕ}
      → send_tokens_tx_check env tx_bytes signature (some tx) s ≡ (ok (from, from, amount), s)
      → from ≢ burn_address
      → s.accounts from ≡ some a
      → s.accounts burn_address ≡ some b
      → tx_cost send_tokens_type s ≡ (ok cost, s)
      → amount + cost < u64_mod
      → a.balance + amount < u64_mod
      → b.balance + cost < u64_mod
      → let (r, s') = add_tx env tx_bytes signature (tx_send_tokens tx) true s in
        (r ≡ ok [])
        × (balance_of (s'.accounts from) ≡ a.balance + amount - cost)
        × (balance_of (s'.accounts burn_address) ≡ b.balance + cost)
  unfolding add_tx add_send_tokens transfer_balance
  send_tokens_to_self {a} {b} {cost} checked ne ea eb ec wrap room burn_room =
      let (value, pos, nonce_eq, cover) =
        send_check_inv env tx_bytes signature tx s checked ea ec in
      let rich : Account = record a { balance = a.balance + amount } in
      let held : Accounts =
        put from rich (put from (record a { balance = a.balance - amount }) s.accounts) in
      ground (
        arith,
        subtract_cost_ok from send_tokens_type {cost = cost} {acc = rich} {burn = b}
            (record s { accounts = held }) ne
            (tx_cost_same send_tokens_type s (record s { accounts = held }) ec refl) (ground arith)
            (ground arith) (omega arith) burn_room,
      )
