-- ===== src/Tally/Rules.antt =====
-- The rules of the ballot and the empty matrix, for the final results.
use vocdoni.Base.{
  Bool, List, [], add64, arith, false, get_or, if◌then◌else◌, inl, inr, length, ltb, refl,
  replicate, some, suc, true, u64_mod, zero, ℕ, ◌&&◌, ◌+◌, ◌<◌, ◌==◌, ◌||◌, ◌∷◌, ◌≡◌, ◌⊎◌,
}
use vocdoni.Action.{Error, Result, err, invalid_value, not_allowed, ok, wrong_size}
use vocdoni.Models.{EnvelopeType}
use vocdoni.Results.{
  ProcessVoteOptions, ballot_check, cost_check, max_options, new_empty_votes, repeats, some_above,
}
use vocdoni.Tally.{is_panic}
use Prim.Native.Nat.{◌^◌}

-- A result that does not stop the node.
unfoldable pub Mild : Result Unit → Type 0
Mild b = (b ≡ ok tt) ⊎ ((x : Error) × (b ≡ err x) × (is_panic x ≡ false))

pub if-Mild : (c : Bool) (a b : Result Unit) → Mild a → Mild b → Mild (if c then a else b)
if-Mild true a b ha hb = ha
if-Mild false a b ha hb = hb

cost_check-Mild : (m exponent cost : ℕ) (vs : List ℕ) → Mild (cost_check (some m) exponent cost vs)
unfolding cost_check Mild is_panic
cost_check-Mild m exponent cost [] = inl refl
cost_check-Mild m exponent cost (v ∷ vs) =
    if-Mild (ltb m (cost + v ^ exponent)) (err not_allowed)
      (cost_check (some m) exponent (cost + v ^ exponent) vs) (inr (not_allowed, refl, refl))
      (cost_check-Mild m exponent (cost + v ^ exponent) vs)

max_cost-Mild :
    (by_weight : Bool) (w max exponent : ℕ) (vs : List ℕ)
    → Mild (cost_check (if by_weight then some w else some max) exponent 0 vs)
max_cost-Mild true w max exponent vs = cost_check-Mild w exponent 0 vs
max_cost-Mild false w max exponent vs = cost_check-Mild max exponent 0 vs

-- With a weight, the rules of the ballot do not stop the node.
pub ballot_check-Mild :
    (opts : ProcessVoteOptions) (et : EnvelopeType) (vs : List ℕ) (w : ℕ)
    → Mild (ballot_check opts et vs (some w))
unfolding ballot_check Mild is_panic
ballot_check-Mild opts et vs w =
    if-Mild (ltb opts.max_count (length vs) || ltb max_options (length vs)) _ _
      (inr (wrong_size, refl, refl))
      (if-Mild (et.unique_values && repeats [] vs) _ _ (inr (invalid_value, refl, refl)) (
        if-Mild (ltb 0 opts.max_value && some_above opts.max_value vs) _ _
          (inr (invalid_value, refl, refl))
          (if-Mild (ltb 0 opts.max_total_cost || et.cost_from_weight) _ _
            (max_cost-Mild et.cost_from_weight w opts.max_total_cost opts.cost_exponent vs)
            (inl refl))))

pub next_count :
    (b : Bool) (n k : ℕ)
    → n + ((if b then 1 else 0) + k) < u64_mod
    → (if b then add64 n 1 else n) ≡ n + (if b then 1 else 0)
next_count true n k h = omega arith
next_count false n k h = omega arith

pub get_or-replicate : (n : ℕ) (row : List ℕ) (q : ℕ) → q < n → get_or (replicate n row) q [] ≡ row
get_or-replicate zero row q h = absurd (omega arith)
get_or-replicate (suc n) row zero h = refl
get_or-replicate (suc n) row (suc q) h = get_or-replicate n row q (omega arith)

zeros : (n i : ℕ) → get_or {A = ℕ} (replicate n 0) i 0 ≡ 0
zeros zero i = refl
zeros (suc n) zero = refl
zeros (suc n) (suc i) = zeros n i

pub zero_rows : (n m q i : ℕ) → get_or {A = ℕ} (get_or (replicate n (replicate m 0)) q []) i 0 ≡ 0
zero_rows zero m q i = refl
zero_rows (suc n) m zero i = zeros m i
zero_rows (suc n) m (suc q) i = zero_rows n m q i

pub new_empty_votes_lem :
    (n m : ℕ) → 0 < n → 0 < m → new_empty_votes n m ≡ replicate n (replicate m 0)
unfolding new_empty_votes
new_empty_votes_lem n m hn hm = let full : (n == 0 || m == 0) ≡ false = ground arith in rw full refl
