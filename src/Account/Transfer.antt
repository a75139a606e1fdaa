-- ===== src/Account/Transfer.antt =====
-- `Account.Transfer` (vochain/account.go): it moves the amount and nothing else, or refuses.
use vocdoni.Base.{ℕ, ◌+◌, ◌-◌, ◌<◌, ◌≤◌, ◌≡◌, some, arith, u64_mod}
use vocdoni.Action.{ok}
use vocdoni.Account.{Account, transfer}

-- The conditions under which `transfer` succeeds, and its result, for balances that fit 64 bits.
pub transfer_ok :
    (a d : Account) (amount : ℕ)
    → d.balance < u64_mod
    → amount < u64_mod
    → 0 < amount
    → amount ≤ a.balance
    → d.balance + amount < u64_mod
    → transfer a (some d) amount
      ≡ ok (record a { balance = a.balance - amount }, record d { balance = d.balance + amount })
unfolding transfer
transfer_ok a d amount hd hx pos cover fits = ground arith

-- What a successful `transfer` says of the balances.
pub transfer_inv :
    (a d a' d' : Account) (amount : ℕ)
    → d.balance < u64_mod
    → amount < u64_mod
    → transfer a (some d) amount ≡ ok (a', d')
    → (0 < amount)
      × (amount ≤ a.balance)
      × (d.balance + amount < u64_mod)
      × (a' ≡ record a { balance = a.balance - amount })
      × (d' ≡ record d { balance = d.balance + amount })
unfolding transfer
transfer_inv a d a' d' amount hd hx h = ground arith
