-- ===== src/State/Faucet.antt =====
-- vochain/state.go, the Faucet subtree: the hashes of the faucet packages that were consumed.
use vocdoni.Base.{
  Bool, Bool-cases, Bytes, List, [], arith, bytes_eq, bytes_eq_refl, false, if◌then◌else◌, inl, inr,
  length, replicate, take, true, ◌++◌, ◌||◌, ◌∷◌, ◌≡◌,
}
use vocdoni.Action.{gets, modify}
use vocdoni.Crypto.{Env}
use vocdoni.State.{Run}

pub has_key : Bytes → List Bytes → Bool
has_key key [] = false
has_key key (k ∷ l) = bytes_eq key k || has_key key l

-- `SetFaucetNonce`
unfoldable pub set_faucet_nonce : Bytes → Run Unit
unfolding has_key
set_faucet_nonce key =
    modify
      (λ s. record s { faucet = if has_key key s.faucet then s.faucet else s.faucet ++ key ∷ [] })

module _ (env : Env) where
  -- `FaucetNonce`; its callback answers true on every leaf.
  unfoldable pub faucet_nonce : Bytes → Run Bool
  unfolding has_key
  faucet_nonce key =
      gets (λ s. has_key key (take (env.walk (replicate (length s.faucet) true)) s.faucet))

has_key-append : (key : Bytes) (l : List Bytes) → has_key key (l ++ key ∷ []) ≡ true
unfolding has_key
has_key-append key [] = ground (arith, bytes_eq_refl key)
has_key-append key (k ∷ l) = ground (arith, has_key-append key l)

-- The Faucet subtree after a key is stored.
abbrev pub stored : Bytes → List Bytes → List Bytes
stored key l = if has_key key l then l else l ++ key ∷ []

pub has_key-stored : (key : Bytes) (l : List Bytes) → has_key key (stored key l) ≡ true
has_key-stored key l = elim (Bool-cases (has_key key l)) [
  | inl old ↦ rw old old
  | inr new ↦ rw new (has_key-append key l)
]
