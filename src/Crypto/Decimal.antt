-- ===== src/Crypto/Decimal.antt =====
-- Numbers written out with `%d`.
use vocdoni.Base.{
  Bool-cases, Bytes, [], ap, arith, inl, inr, ltb, suc, sym, zero, ℕ, ◌%◌, ◌*◌, ◌+◌, ◌-◌, ◌/◌, ◌<◌,
  ◌∙◌, ◌∷◌, ◌≡◌,
}
use vocdoni.Crypto.{decimal, decimal_digits}

-- The number that digits stand for, after those that were read.
abbrev pub value : ℕ → Bytes → ℕ
value a [] = a
value a (d ∷ ds) = value (a * 10 + (d - 48)) ds

decimal_digits_lem :
    (fuel n : ℕ) (acc : Bytes) → n < fuel → value 0 (decimal_digits fuel n acc) ≡ value n acc
unfolding decimal_digits
decimal_digits_lem zero n acc h = elim h [ ]
decimal_digits_lem (suc fuel) n acc h =
    let later = decimal_digits_lem fuel (n / 10) ((48 + n % 10) ∷ acc) in
    elim (Bool-cases (ltb n 10)) [
      | inl last ↦
          let digit : 0 + (48 + n % 10 - 48) ≡ n = ground arith in
          rw last (ap (λ d. value d acc) digit)
      | inr more ↦
          let shifted : n / 10 * 10 + (48 + n % 10 - 48) ≡ n = omega arith in
          rw more (later (ground arith) ∙ ap (λ d. value d acc) shifted)
    ]

-- A number is the value of its digits, so that the fuel is enough.
pub value-decimal : (n : ℕ) → value 0 (decimal n) ≡ n
unfolding decimal
value-decimal n = decimal_digits_lem (suc n) n [] (omega arith)

pub decimal_inj : (n m : ℕ) → decimal n ≡ decimal m → n ≡ m
decimal_inj n m e = sym (value-decimal n) ∙ ap (value 0) e ∙ value-decimal m
