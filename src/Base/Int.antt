-- ===== src/Base/Int.antt =====
-- Integers over the native numbers (`big.Int`).
use Prim.Native.Nat.{ℕ, suc, ◌+◌, ◌-◌, compare, Ordering}

pub data ℤ : Type 0 where
  pos : ℕ → ℤ
  negsuc : ℕ → ℤ

infixl 60 ◌+ℤ◌
abbrev pub ◌+ℤ◌ : ℤ → ℤ → ℤ
pos a +ℤ pos b = pos (a + b)
pos a +ℤ negsuc b = elim (compare b a) [ Ordering.lt ↦ pos (a - suc b) | _ ↦ negsuc (b - a) ]
negsuc a +ℤ pos b = elim (compare a b) [ Ordering.lt ↦ pos (b - suc a) | _ ↦ negsuc (a - b) ]
negsuc a +ℤ negsuc b = negsuc (suc (a + b))
