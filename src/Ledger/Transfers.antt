-- ===== src/Ledger/Transfers.antt =====
-- `TransferBalance` and `MintBalance` (vochain/account.go): what they do to the balances.
use vocdoni.Base.{
  List, Option-cases, ap, arith, dec_le, dec_lt, if◌then◌else◌, inl, inr, leb, refl, some, u64_mod,
  ℕ, ◌+◌, ◌-◌, ◌<◌, ◌==◌, ◌≡◌, ◌≢◌, ◌≤◌, ◌⊎◌,
}
use vocdoni.Account.{Account, Address}
use vocdoni.Action.{balance_overflow, err, ok, zero_amount}
use vocdoni.Ledger.{mint_balance, transfer_balance}
use vocdoni.Ledger.Supply.{Accounts, Fits, Fits-put, balance_of, occurrences, supply, supply-put}
use vocdoni.State.{State, put}

-- A transfer between two accounts that exist, covered and without overflow, moves the amount; the
-- rest of the state stays.
pub transfer_balance_ok :
    (from to : Address) (amount : ℕ) {a d : Account} (s : State)
    → from ≢ to
    → s.accounts from ≡ some a
    → s.accounts to ≡ some d
    → 0 < amount
    → amount ≤ a.balance
    → d.balance + amount < u64_mod
    → transfer_balance from to amount s ≡ (
      ok tt,
      record s {
        accounts =
            put to
              (record d { balance = d.balance + amount })
              (put from (record a { balance = a.balance - amount }) s.accounts);
      },
    )
unfolding transfer_balance
transfer_balance_ok from to amount s ne ea ed pos cover fits = ground arith

-- The two writes of a transfer keep the sum.
pub supply_moved :
    (from to : Address) (amount : ℕ) (l : List Address) (m : Accounts) (a d : Account)
    → from ≢ to
    → occurrences from l ≡ 1
    → occurrences to l ≡ 1
    → m from ≡ some a
    → m to ≡ some d
    → amount ≤ a.balance
    → supply l (
        put to
          (record d { balance = d.balance + amount })
          (put from (record a { balance = a.balance - amount }) m))
      ≡ supply l m
supply_moved from to amount l m a d ne once_from once_to ea ed cover =
    let paid : Account = record a { balance = a.balance - amount } in
    let got : Account = record d { balance = d.balance + amount } in
    let middle : balance_of (put from paid m to) ≡ d.balance = ground arith in
    let first : balance_of (m from) ≡ a.balance = ap balance_of ea in
    omega (
      arith,
      middle,
      first,
      supply-put from paid l m once_from,
      supply-put to got l (put from paid m) once_to,
    )

-- A transfer changes nothing, or it meets all of its conditions.
transfer_balance_cases :
    (from to : Address) (amount : ℕ) (s : State)
    → Fits s.accounts
    → amount < u64_mod
    → ((transfer_balance from to amount s).1 ≡ s)
      ⊎ ((a : Account) × (d : Account) × (s.accounts from ≡ some a)
          × (s.accounts to ≡ some d)
          × (0 < amount)
          × (amount ≤ a.balance)
          × (d.balance + amount < u64_mod))
unfolding transfer_balance
transfer_balance_cases from to amount s fits small = elim (Option-cases (s.accounts from)) [
  | inl e ↦ inl (ground arith)
  | inr (a, ea) ↦ elim (Option-cases (s.accounts to)) [
    | inl e ↦ inl (ground arith)
    | inr (d, ed) ↦ elim (dec_lt 0 amount) [
      | no zero_case ↦ inl (ground arith)
      | yes pos ↦ elim (dec_le amount a.balance) [
        | no short ↦ inl (ground arith)
        | yes cover ↦ elim (dec_lt (d.balance + amount) u64_mod) [
          | no over ↦ inl (ground (arith, fits to d ed))
          | yes room ↦ inr (a, d, ea, ed, pos, cover, room)
        ]
      ]
    ]
  ]
]

-- Between two different accounts a transfer keeps the sum of any list that names both once, or it
-- is refused and changes nothing.
pub transfer_balance_conserves :
    (from to : Address) (amount : ℕ) (l : List Address) (s : State)
    → from ≢ to
    → amount < u64_mod
    → Fits s.accounts
    → occurrences from l ≡ 1
    → occurrences to l ≡ 1
    → let (r, s') = transfer_balance from to amount s in
      ((r ≡ ok tt) × (supply l s'.accounts ≡ supply l s.accounts) × Fits s'.accounts) ⊎ (s' ≡ s)
transfer_balance_conserves from to amount l s ne small fits once_from once_to =
    elim (transfer_balance_cases from to amount s fits small) [
      | inl e ↦ inr e
      | inr (a, d, ea, ed, pos, cover, room) ↦ inl (
          rw (transfer_balance_ok from to amount s ne ea ed pos cover room) (
            refl,
            supply_moved from to amount l s.accounts a d ne once_from once_to ea ed cover,
            Fits-put to (record d { balance = d.balance + amount })
                (put from (record a { balance = a.balance - amount }) s.accounts) room
                (Fits-put from (record a { balance = a.balance - amount }) s.accounts
                  (omega (arith, fits from a ea)) fits),
          ))
    ]

-- A covered transfer to oneself that does not overflow is not refused: the receiver's copy is written last, and the amount is
-- created out of nothing.
pub transfer_balance_to_self :
    (from : Address) (amount : ℕ) {a : Account} (s : State)
    → s.accounts from ≡ some a
    → 0 < amount
    → amount ≤ a.balance
    → a.balance + amount < u64_mod
    → let (r, s') = transfer_balance from from amount s in
      (r ≡ ok tt) × (s'.accounts from ≡ some (record a { balance = a.balance + amount }))
unfolding transfer_balance
transfer_balance_to_self from amount s ea pos cover room = ground arith

-- Minting adds the amount to one account that exists, and refuses zero and an overflow.
pub mint_balance_lem :
    (to : Address) (amount : ℕ) {d : Account} (s : State)
    → d.balance < u64_mod
    → amount < u64_mod
    → s.accounts to ≡ some d
    → mint_balance to amount s ≡ (
        if amount == 0
        then (err zero_amount, s)
        else if leb u64_mod (d.balance + amount)
        then (err balance_overflow, s)
        else (
          ok tt,
          record s { accounts = put to (record d { balance = d.balance + amount }) s.accounts },
        ))
unfolding mint_balance
mint_balance_lem to amount s hd small ed = ground arith
