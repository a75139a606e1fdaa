-- ===== src/Account.antt =====
-- vochain/account.go, the methods of `Account`: balances are `uint64`, nonce and process index are
-- `uint32`, an address is the number that its 20 bytes spell.
pub mod Transfer
pub mod Delegates
use vocdoni.Base.{
  ℕ, zero, suc, ◌+◌, ◌-◌, Bool, true, false, ◌||◌, List, [], ◌∷◌, ◌++◌, Option, none, some, ltb,
  leb, ◌==◌, if◌then◌else◌, add64, Bytes, bytes_eq, length, get_or, set, take,
}
use vocdoni.Action.{
  Result, ok, err, zero_amount, dest_nil, not_enough_balance, balance_overflow, already_delegate,
  panic,
}

abbrev pub Address : Type 0
Address = ℕ

-- `models.Account`
pub record Account : Type 0 where
  pub balance : ℕ
  pub nonce : ℕ
  pub info_uri : Bytes
  pub process_index : ℕ
  pub delegate_addrs : List Bytes

-- `&Account{}`
abbrev pub empty_account : Account
empty_account = record {
  balance = 0;
  nonce = 0;
  info_uri = [];
  process_index = 0;
  delegate_addrs = [];
}

-- `Account.Transfer`: the accounts afterwards, the sender first.
unfoldable pub transfer : Account → Option Account → ℕ → Result (Account × Account)
transfer a none amount = if amount == 0 then err zero_amount else err dest_nil
transfer a (some dest) amount =
    if amount == 0
    then err zero_amount
    else if ltb a.balance amount
    then err not_enough_balance
    else if leb (add64 dest.balance amount) dest.balance
    then err balance_overflow
    else ok (
      record a { balance = a.balance - amount },
      record dest { balance = add64 dest.balance amount },
    )

-- The search of `Account.IsDelegate`.
unfoldable pub contains : Bytes → List Bytes → Bool
contains addr [] = false
contains addr (d ∷ ds) = bytes_eq addr d || contains addr ds

-- `Account.IsDelegate`
unfoldable pub is_delegate : Bytes → Account → Bool
unfolding contains
is_delegate addr a = contains addr a.delegate_addrs

-- `Account.AddDelegate`
unfoldable pub add_delegate : Bytes → Account → Result Account
unfolding is_delegate
add_delegate addr a =
    if is_delegate addr a
    then err already_delegate
    else ok (record a { delegate_addrs = a.delegate_addrs ++ addr ∷ [] })

-- The loop of `Account.DelDelegate`. It ranges over the slice as it was at the start, `arr`, of
-- which `m` entries are left; both share the array, and a write past the `m` entries panics.
del_loop : ℕ → ℕ → ℕ → Bytes → List Bytes → Result (List Bytes)
del_loop zero i m addr arr = ok (take m arr)
del_loop (suc r) i m addr arr =
    let keep = del_loop r (i + 1) m addr arr in
    let drop_it = del_loop r (i + 1) (m - 1) addr (set arr i (get_or arr (m - 1) [])) in
    if bytes_eq addr (get_or arr i []) then if ltb i m then drop_it else err panic else keep

-- `Account.DelDelegate`
unfoldable pub del_delegate : Bytes → Account → Result Account
unfolding del_loop
del_delegate addr a =
    elim (del_loop (length a.delegate_addrs) 0 (length a.delegate_addrs) addr a.delegate_addrs) [
      | ok ds ↦ ok (record a { delegate_addrs = ds })
      | err e ↦ err e
    ]
