-- ===== src/Action.antt =====
-- Go calls that return an error and change a shared state (vochain/types.go has the named errors).
-- The state comes back after an error too: what was written before it stays written.
pub mod Preserve
use vocdoni.Base.{Bool, Option, false, none, refl, some, true, ◌≡◌}

pub data Error : Type 0 where
  -- the named errors of vochain/types.go
  vote_does_not_exist not_enough_balance account_nonce_invalid process_not_found : Error
  balance_overflow account_not_exist account_already_exists nil_tx : Error
  -- errors made where they are returned
  zero_amount dest_nil already_delegate invalid_address payload_nil invalid_tx_type : Error
  no_cost_key cost_not_found treasurer_not_found burn_not_exist oracle_not_found : Error
  missing_signature bad_public_key bad_address bad_marshal : Error
  invalid_uri to_mismatch faucet_used issuer_not_exist issuer_balance not_delegate : Error
  invalid_nonce invalid_value invalid_from invalid_to not_treasurer from_mismatch : Error
  self_delegate already_added not_added missing_field : Error
  already_exists wrong_status wrong_result unauthorized not_allowed bad_process : Error
  already_in_cache bad_proof wrong_height wrong_size census_full malformed key_not_found : Error
  -- an index out of range or a nil pointer, which stops the node
  panic : Error

pub data Result (A : Type 0) : Type 0 where
  ok : A → Result A
  err : Error → Result A

-- The value of a result that is no error, and of an option that is not empty.
pub ok_of : {A : Type 0} (r : Result A) → ((e : Error) → ¬ (r ≡ err e)) → (a : A) × (r ≡ ok a)
ok_of (ok a) h = (a, refl)
ok_of (err e) h = absurd (h e refl)

pub ok_inj : {A : Type 0} {a b : A} → ok a ≡ ok b → a ≡ b
ok_inj h = cc

pub some_inj : {A : Type 0} {a b : A} → some a ≡ some b → a ≡ b
some_inj h = cc

pub some_of : {A : Type 0} (o : Option A) → ¬ (o ≡ none) → (a : A) × (o ≡ some a)
some_of none h = absurd (h refl)
some_of (some a) h = (a, refl)

abbrev pub Action : Type 0 → Type 0 → Type 0
Action S A = S → Result A × S

module _ {S A : Type 0} where
  abbrev pub pure : A → Action S A
  pure a s = (ok a, s)

  abbrev pub raise : Error → Action S A
  raise e s = (err e, s)

  abbrev pub gets : (S → A) → Action S A
  gets f s = (ok (f s), s)

  -- `if x == nil { return err }`
  abbrev pub or_raise : Option A → Error → Action S A
  or_raise none e s = (err e, s)
  or_raise (some a) e s = (ok a, s)

  -- A call that reads and writes no state.
  abbrev pub lift : Result A → Action S A
  lift r s = (r, s)

module _ {S : Type 0} where
  -- `if b { return err }`
  abbrev pub raise_if : Bool → Error → Action S Unit
  raise_if true e s = (err e, s)
  raise_if false e s = (ok tt, s)

  abbrev pub modify : (S → S) → Action S Unit
  modify f s = (ok tt, f s)

infixl 5 ◌>>=◌ ◌>>◌
abbrev pub ◌>>=◌ : {S A B : Type 0} → Action S A → (A → Action S B) → Action S B
◌>>=◌ m f s = let (r, s') = m s in elim r [ ok a ↦ f a s' | err e ↦ (err e, s') ]

abbrev pub ◌>>◌ : {S A B : Type 0} → Action S A → Action S B → Action S B
m >> k = m >>= λ _. k

-- `x, err := f(); if err != nil { return e }`: another error takes the place of the callee's.
abbrev pub recast : {S A : Type 0} → Error → Action S A → Action S A
recast e m s = let (r, s') = m s in elim r [ ok a ↦ (ok a, s') | err _ ↦ (err e, s') ]
