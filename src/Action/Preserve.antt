-- ===== src/Action/Preserve.antt =====
-- Properties of the state that a call preserves, whether it returns a value or an error, with a
-- rule for each way in which calls are put together.
use vocdoni.Base.{Bool, Option, ap, arith, false, if◌then◌else◌, none, refl, some, true, ◌∙◌, ◌≡◌}
use vocdoni.Action.{
  Action, Error, Result, err, gets, lift, ok, or_raise, pure, raise, raise_if, recast, ◌>>=◌,
}
use mathlib.Core.Path.{subst}

pub record Preserves {S A : Type 0} (P : S → Type 0) (call : Action S A) : Type 0 where
  pub run : (s : S) → P s → P (call s).1

-- The state that a call was seen to leave.
pub after_call :
    {S A : Type 0} {P : S → Type 0} {call : Action S A} {s u : S} {r : Result A}
    → Preserves P call
    → P s
    → call s ≡ (r, u)
    → P u
after_call {S} {A} {P} {call} {s} kept h e = subst (λ (x : Result A × S). P x.1) e (kept.run s h)

module _ {S A : Type 0} {P : S → Type 0} where
  pub pure-Preserves : (a : A) → Preserves P (pure a)
  pure-Preserves a = record { run = λ s h. h }

  pub raise-Preserves : (e : Error) → Preserves P (raise {A = A} e)
  raise-Preserves e = record { run = λ s h. h }

  pub gets-Preserves : (f : S → A) → Preserves P (gets f)
  gets-Preserves f = record { run = λ s h. h }

  pub lift-Preserves : (r : Result A) → Preserves P (lift r)
  lift-Preserves r = record { run = λ s h. h }

  pub or_raise-Preserves : (o : Option A) (e : Error) → Preserves P (or_raise o e)
  or_raise-Preserves none e = record { run = λ s h. h }
  or_raise-Preserves (some a) e = record { run = λ s h. h }

  pub if-Preserves :
      (b : Bool) (m n : Action S A)
      → Preserves P m
      → Preserves P n
      → Preserves P (if b then m else n)
  if-Preserves true m n hm hn = hm
  if-Preserves false m n hm hn = hn

  pub recast-Preserves : (e : Error) (m : Action S A) → Preserves P m → Preserves P (recast e m)
  recast-Preserves e m hm = record { run = λ s h. ended (m s).0 (m s).1 (hm.run s h) }
    where
      ended :
          (r : Result A) (u : S)
          → P u
          → P (elim r as (λ _. Result A × S) [ ok a ↦ (ok a, u) | err _ ↦ (err e, u) ]).1
      ended (ok a) u h = h
      ended (err _) u h = h

module _ {S : Type 0} {P : S → Type 0} where
  pub raise_if-Preserves : (b : Bool) (e : Error) → Preserves P (raise_if b e)
  raise_if-Preserves true e = record { run = λ s h. h }
  raise_if-Preserves false e = record { run = λ s h. h }

module _ {S A B : Type 0} {P : S → Type 0} where
  pub >>=-Preserves :
      (m : Action S A) (f : A → Action S B)
      → Preserves P m
      → ((a : A) → Preserves P (f a))
      → Preserves P (m >>= f)
  >>=-Preserves m f hm hf = record { run = λ s h. rest (m s).0 (m s).1 (hm.run s h) }
    where
      rest :
          (r : Result A) (u : S)
          → P u
          → P (elim r as (λ _. Result B × S) [ ok a ↦ f a u | err e ↦ (err e, u) ]).1
      rest (ok a) u h = (hf a).run u h
      rest (err e) u h = h

-- A sequence of calls that returns a value is a call that does and a rest that does.
module _ {S A B : Type 0} where
  pub bind_inv :
      {C : Type 0} (m : Action S A) (f : A → Action S B) (s : S) {b : B} {u : S}
      → (m >>= f) s ≡ (ok b, u)
      → ((a : A) (t : S) → m s ≡ (ok a, t) → f a t ≡ (ok b, u) → C)
      → C
  bind_inv {C} m f s {b} {u} h k = by_result (m s).0 (m s).1 refl h
    where
      by_result :
          (r : Result A) (t : S)
          → m s ≡ (r, t)
          → elim r as (λ _. Result B × S) [ ok a ↦ f a t | err e ↦ (err e, t) ] ≡ (ok b, u)
          → C
      by_result (ok a) t e h = k a t e h
      by_result (err x) t e h = absurd (ground arith)

  pub bind_ok :
      (m : Action S A) (f : A → Action S B) (s : S) {a : A} {t : S}
      → m s ≡ (ok a, t)
      → (m >>= f) s ≡ f a t
  bind_ok m f s e =
      ap
        (λ (x : Result A × S). elim x.0 as (λ _. Result B × S) [
          | ok a ↦ f a x.1
          | err e ↦ (err e, x.1)
        ])
        e

  pub bind_err :
      (m : Action S A) (f : A → Action S B) (s : S) {e : Error} {t : S}
      → m s ≡ (err e, t)
      → (m >>= f) s ≡ (err e, t)
  bind_err m f s h =
      ap
        (λ (x : Result A × S). elim x.0 as (λ _. Result B × S) [
          | ok a ↦ f a x.1
          | err e ↦ (err e, x.1)
        ])
        h

-- A last call that only returns what it is given.
module _ {S A : Type 0} where
  pub bind_pure :
      (m : Action S A) {s : S} {a : A} {u : S} → (m >>= pure) s ≡ (ok a, u) → m s ≡ (ok a, u)
  bind_pure m {s} h = bind_inv m pure s h (λ b t first last. first ∙ last)

  pub or_raise_inv :
      (o : Option A) (e : Error) (s : S) {a : A} {u : S}
      → or_raise o e s ≡ (ok a, u)
      → (o ≡ some a) × (s ≡ u)
  or_raise_inv none e s h = absurd (ground arith)
  or_raise_inv (some b) e s h = (ground arith, ground arith)

module _ {S : Type 0} where
  pub raise_if_inv :
      (b : Bool) (e : Error) (s : S) {a : Unit} {u : S}
      → raise_if b e s ≡ (ok a, u)
      → (b ≡ false) × (s ≡ u)
  raise_if_inv true e s h = absurd (ground arith)
  raise_if_inv false e s h = (refl, ground arith)

-- A call that changes nothing and returns a value, and the rest on the same state.
pub bind_reads :
    {S A B : Type 0} (m : Action S A) (f : A → Action S B) (s : S) {b : B} {u : S}
    → Preserves (λ t. t ≡ s) m
    → (m >>= f) s ≡ (ok b, u)
    → (a : A) × (m s ≡ (ok a, s)) × (f a s ≡ (ok b, u))
bind_reads m f s {b} {u} kept h = bind_inv m f s h (λ a t first rest.
    let same : t ≡ s = after_call kept refl first in
    (a, subst (λ x. m s ≡ (ok a, x)) same first, subst (λ x. f a x ≡ (ok b, u)) same rest))

-- A sequence whose rest preserves what its first call leaves, for the value that it returns.
pub bind_seen :
    {S A B : Type 0} {P : S → Type 0} (m : Action S A) (f : A → Action S B)
    → Preserves P m
    → ((a : A) (s t : S) → m s ≡ (ok a, t) → P t → P (f a t).1)
    → Preserves P (m >>= f)
bind_seen {S} {A} {B} {P} m f hm hf = record {
  run = λ s h. rest s (m s).0 (m s).1 refl (hm.run s h);
}
  where
    rest :
        (s : S) (r : Result A) (t : S)
        → m s ≡ (r, t)
        → P t
        → P (elim r as (λ _. Result B × S) [ ok a ↦ f a t | err e ↦ (err e, t) ]).1
    rest s (ok a) t e h = hf a s t e h
    rest s (err x) t e h = h

pub ruleset preserve_rules = (
  pure-Preserves, raise-Preserves, gets-Preserves, lift-Preserves, or_raise-Preserves, if-Preserves,
  recast-Preserves, raise_if-Preserves, >>=-Preserves,
)
