-- ===== src/Ledger/Supply.antt =====
-- The tokens that a set of accounts holds, and how a write to one account changes that sum.
use vocdoni.Base.{
  List, Option, [], arith, if◌then◌else◌, none, refl, some, u64_mod, ℕ, ◌+◌, ◌<◌, ◌==◌, ◌∷◌, ◌≡◌,
}
use vocdoni.Account.{Account, Address}
use vocdoni.State.{put}

abbrev pub Accounts : Type 0
Accounts = Address → Option Account

abbrev pub balance_of : Option Account → ℕ
balance_of none = 0
balance_of (some acc) = acc.balance

-- The sum of the balances of the listed addresses.
unfoldable pub supply : List Address → Accounts → ℕ
supply [] m = 0
supply (a ∷ l) m = balance_of (m a) + supply l m

-- How often an address is listed.
unfoldable pub occurrences : Address → List Address → ℕ
occurrences a [] = 0
occurrences a (b ∷ l) = (if a == b then 1 else 0) + occurrences a l

-- Every balance is a `uint64`.
abbrev pub Fits : Accounts → Type 0
Fits m = (a : Address) (acc : Account) → m a ≡ some acc → acc.balance < u64_mod

-- A write to an address that is not listed does not show.
pub supply-put_absent :
    (a : Address) (acc : Account) (l : List Address) (m : Accounts)
    → occurrences a l ≡ 0
    → supply l (put a acc m) ≡ supply l m
unfolding supply occurrences
supply-put_absent a acc [] m h = refl
supply-put_absent a acc (b ∷ l) m h = ground (arith, supply-put_absent a acc l m)

-- A write to an address that is listed once puts the new balance in the place of the old one.
pub supply-put :
    (a : Address) (acc : Account) (l : List Address) (m : Accounts)
    → occurrences a l ≡ 1
    → supply l (put a acc m) + balance_of (m a) ≡ supply l m + acc.balance
unfolding supply occurrences
supply-put a acc [] m h = absurd (omega arith)
supply-put a acc (b ∷ l) m h = ground (arith, supply-put_absent a acc l m, supply-put a acc l m)

pub Fits-put :
    (a : Address) (acc : Account) (m : Accounts)
    → acc.balance < u64_mod
    → Fits m
    → Fits (put a acc m)
Fits-put a acc m small h b held e = ground (arith, h b held)
