-- ===== src/Base/Splits.antt =====
-- Byte strings that are put together and taken apart.
use Prim.Native.Nat.{ℕ, zero, suc, ◌+◌}
use mathlib.Core.Path.{◌≡◌, refl, ap}
use mathlib.Core.List.{[], ◌∷◌, ◌++◌}
use native.Mathlib.Omega.{arith}
use vocdoni.Base.Lists.{length, take, drop, get_or, set}
use vocdoni.Base.Slices.{Bytes}

pub take-append : (xs ys : Bytes) (n : ℕ) → length xs ≡ n → take n (xs ++ ys) ≡ xs
take-append [] ys n e = rw (← e)
take-append (x ∷ xs) ys zero e = absurd (omega arith)
take-append (x ∷ xs) ys (suc n) e = ap (λ l. x ∷ l) (take-append xs ys n (omega arith))

pub take_all : (xs : Bytes) (n : ℕ) → length xs ≡ n → take n xs ≡ xs
take_all [] zero e = refl
take_all [] (suc n) e = refl
take_all (x ∷ xs) zero e = absurd (omega arith)
take_all (x ∷ xs) (suc n) e = ap (λ l. x ∷ l) (take_all xs n (omega arith))

pub drop-append : (xs ys : Bytes) (n k : ℕ) → length xs ≡ n → drop (n + k) (xs ++ ys) ≡ drop k ys
drop-append [] ys n k e = let none_left : n + k ≡ k = omega arith in rw none_left
drop-append (x ∷ xs) ys zero k e = absurd (omega arith)
drop-append (x ∷ xs) ys (suc n) k e =
    let step : suc n + k ≡ suc (n + k) = omega arith in
    rw step (drop-append xs ys n k (omega arith))

pub get_or-append_right :
    (xs ys : Bytes) (n k : ℕ) → length xs ≡ n → get_or (xs ++ ys) (n + k) 0 ≡ get_or ys k 0
get_or-append_right [] ys n k e = let none_left : n + k ≡ k = omega arith in rw none_left
get_or-append_right (x ∷ xs) ys zero k e = absurd (omega arith)
get_or-append_right (x ∷ xs) ys (suc n) k e =
    let step : suc n + k ≡ suc (n + k) = omega arith in
    rw step (get_or-append_right xs ys n k (omega arith))

pub set_append : (xs ys : Bytes) (n x v : ℕ) → length xs ≡ n → set (xs ++ x ∷ ys) n v ≡ xs ++ v ∷ ys
set_append [] ys n x v e = rw (← e)
set_append (b ∷ bs) ys zero x v e = absurd (omega arith)
set_append (b ∷ bs) ys (suc n) x v e =
    ap (λ (l : Bytes). b ∷ l) (set_append bs ys n x v (omega arith))
