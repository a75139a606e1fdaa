-- ===== src/Ledger/Fees.antt =====
-- `SubtractCostIncrementNonce` (vochain/account.go): the fee goes to the burn account.
use vocdoni.Base.{
  Bool-cases, List, add32, ap, arith, if◌then◌else◌, inl, inr, some, u64_mod, ℕ, ◌+◌, ◌-◌, ◌<◌,
  ◌==◌, ◌≡◌, ◌≢◌, ◌≤◌,
}
use vocdoni.Account.{Account, Address}
use vocdoni.Action.{err, not_enough_balance, ok}
use vocdoni.Crypto.{burn_address}
use vocdoni.Ledger.{is_collect_faucet, subtract_cost_increment_nonce}
use vocdoni.Ledger.Supply.{Accounts, balance_of, occurrences, supply, supply-put}
use vocdoni.Models.{TxType}
use vocdoni.State.{State, put}
use vocdoni.State.Extra.{tx_cost}

-- The payer after the fee.
abbrev pub charged : TxType → ℕ → Account → Account
charged t cost acc = record acc {
  balance = acc.balance - cost;
  nonce = if is_collect_faucet t then acc.nonce else add32 acc.nonce 1;
}

-- The accounts after the fee; without a cost the burn account is not written.
abbrev pub after_fee : Address → TxType → ℕ → Account → Account → Accounts → Accounts
after_fee address t cost acc burn m =
    put address (charged t cost acc)
      (if cost == 0 then m else put burn_address (record burn { balance = burn.balance + cost }) m)

module _ (address : Address) (t : TxType) {cost : ℕ} {acc burn : Account} (s : State) where
  -- For a payer other than the burn account, a fee that the balance covers and that does not
  -- overflow the burn account moves from the payer to the burn account, the payer's nonce goes
  -- up by one (not for a faucet transaction), and nothing else changes.
  pub subtract_cost_ok :
      address ≢ burn_address
      → tx_cost t s ≡ (ok cost, s)
      → s.accounts address ≡ some acc
      → s.accounts burn_address ≡ some burn
      → cost ≤ acc.balance
      → burn.balance + cost < u64_mod
      → subtract_cost_increment_nonce address t s
        ≡ (ok tt, record s { accounts = after_fee address t cost acc burn s.accounts })
  unfolding subtract_cost_increment_nonce
  subtract_cost_ok ne ec ea eb cover room = ground arith

  -- A fee that the balance does not cover is refused before anything is written.
  pub subtract_cost_short :
      tx_cost t s ≡ (ok cost, s)
      → s.accounts address ≡ some acc
      → s.accounts burn_address ≡ some burn
      → acc.balance < cost
      → subtract_cost_increment_nonce address t s ≡ (err not_enough_balance, s)
  unfolding subtract_cost_increment_nonce
  subtract_cost_short ec ea eb short = ground arith

  -- The fee keeps the sum of any list that names payer and burn account once.
  pub supply-after_fee :
      (l : List Address)
      → address ≢ burn_address
      → s.accounts address ≡ some acc
      → s.accounts burn_address ≡ some burn
      → cost ≤ acc.balance
      → occurrences address l ≡ 1
      → occurrences burn_address l ≡ 1
      → supply l (after_fee address t cost acc burn s.accounts) ≡ supply l s.accounts
  supply-after_fee l ne ea eb cover once_payer once_burn =
      let burnt : Account = record burn { balance = burn.balance + cost } in
      let held : balance_of (s.accounts address) ≡ acc.balance = ap balance_of ea in
      let held_burn : balance_of (s.accounts burn_address) ≡ burn.balance = ap balance_of eb in
      elim (Bool-cases (cost == 0)) [
        | inl free ↦
            rw free (
              ground (arith, held, supply-put address (charged t cost acc) l s.accounts once_payer))
        | inr paid ↦
            let kept : balance_of (put burn_address burnt s.accounts address) ≡ acc.balance =
              ground arith in
            rw paid (
              omega (
                arith,
                held,
                held_burn,
                kept,
                supply-put burn_address burnt l s.accounts once_burn,
                supply-put address (charged t cost acc) l (put burn_address burnt s.accounts)
                    once_payer,
              ))
      ]
