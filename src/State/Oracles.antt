-- ===== src/State/Oracles.antt =====
-- vochain/state.go, the Oracles subtree. A removed oracle keeps its leaf, with an empty value.
-- Which leaves an iteration visits is the parameter `Env.walk`.
pub mod Membership
use vocdoni.Base.{
  Bool, List, [], false, if◌then◌else◌, length, not, replicate, take, true, ◌==◌, ◌||◌, ◌∷◌,
}
use vocdoni.Account.{Address}
use vocdoni.Action.{gets, modify, oracle_not_found, pure, raise_if, unauthorized, ◌>>=◌, ◌>>◌}
use vocdoni.Crypto.{Env}
use vocdoni.State.{Run}

-- A write to a leaf: in its place, or as a new one.
unfoldable pub set_leaf : Address → Bool → List (Address × Bool) → List (Address × Bool)
set_leaf a v [] = (a, v) ∷ []
set_leaf a v ((b, w) ∷ l) = if a == b then (a, v) ∷ l else (b, w) ∷ set_leaf a v l

unfoldable pub has_leaf : Address → List (Address × Bool) → Bool
has_leaf a [] = false
has_leaf a ((b, w) ∷ l) = a == b || has_leaf a l

-- `AddOracle`
unfoldable pub add_oracle : Address → Run Unit
unfolding set_leaf
add_oracle a = modify (λ s. record s { oracles = set_leaf a true s.oracles })

-- `RemoveOracle`
unfoldable pub remove_oracle : Address → Run Unit
unfolding set_leaf has_leaf
remove_oracle a = do
  found ← gets (λ s. has_leaf a s.oracles)
  raise_if (not found) oracle_not_found
  modify (λ s. record s { oracles = set_leaf a false s.oracles })

-- The addresses whose leaf has a value.
unfoldable pub live : List (Address × Bool) → List Address
live [] = []
live ((a, v) ∷ l) = if v then a ∷ live l else live l

-- The search of `IsOracle` and of `AdminTxCheck`.
unfoldable pub listed : Address → List Address → Bool
listed a [] = false
listed a (b ∷ l) = b == a || listed a l

module _ (env : Env) where
  -- `Oracles`; its callback answers true on every leaf.
  unfoldable pub get_oracles : Run (List Address)
  unfolding live
  get_oracles = gets (λ s. live (take (env.walk (replicate (length s.oracles) true)) s.oracles))

  -- `IsOracle`; without oracles the answer is an error.
  unfoldable pub is_oracle : Address → Run Bool
  unfolding get_oracles listed
  is_oracle a = do
    oracles ← get_oracles
    raise_if (length oracles == 0) unauthorized
    pure (listed a oracles)
