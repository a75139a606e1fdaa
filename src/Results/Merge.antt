-- ===== src/Results/Merge.antt =====
-- `Add` (vochain/scrutinizer/indexertypes/results.go): the results of a part are added to the whole.
use vocdoni.Base.{
  List, [], add64, ap, arith, false, get_or, if◌then◌else◌, inl, inr, length, ltb, not, refl, suc,
  true, zero, ℕ, ◌+◌, ◌<◌, ◌==◌, ◌∙◌, ◌∷◌, ◌≡◌, ◌≢◌, ◌≤◌, ◌⊎◌,
}
use vocdoni.Action.{balance_overflow, ok, raise_if, wrong_size, ◌>>◌}
use vocdoni.Action.Preserve.{bind_ok}
use vocdoni.Models.{EnvelopeType}
use vocdoni.Results.{ProcessVoteOptions, Results, add, add_cell, add_row, add_rows}
use vocdoni.Results.Count.{IsShaped, plus_suc, zero_plus}
use vocdoni.Results.Shape.{Adds, add_cell_lem, at, cell, nothing-Adds, twice-Adds, width}

-- What a row adds, and what several rows add.
row_share : ℕ → ℕ → List ℕ → ℕ → ℕ → ℕ
row_share q i [] j k = 0
row_share q i (x ∷ xs) j k = at q i x j k + row_share q (suc i) xs j k

rows_share : ℕ → List (List ℕ) → ℕ → ℕ → ℕ
rows_share q [] j k = 0
rows_share q (row ∷ rows) j k = row_share q 0 row j k + rows_share (suc q) rows j k

row_share_other : (q i : ℕ) (xs : List ℕ) (j k : ℕ) → j ≢ q → row_share q i xs j k ≡ 0
unfolding row_share
row_share_other q i [] j k n = refl
row_share_other q i (x ∷ xs) j k n = ground (arith, row_share_other q (suc i) xs j k n)

row_share_before : (q i : ℕ) (xs : List ℕ) (k : ℕ) → k < i → row_share q i xs q k ≡ 0
unfolding row_share
row_share_before q i [] k h = refl
row_share_before q i (x ∷ xs) k h = ground (arith, row_share_before q (suc i) xs k (omega arith))

row_share_lem : (q i : ℕ) (xs : List ℕ) (k : ℕ) → row_share q i xs q (i + k) ≡ get_or xs k 0
unfolding row_share
row_share_lem q i [] k = refl
row_share_lem q i (x ∷ xs) zero =
    let later : row_share q (suc i) xs q (i + 0) ≡ 0 =
      row_share_before q (suc i) xs (i + 0) (omega arith) in
    ground arith
row_share_lem q i (x ∷ xs) (suc k) =
    let later : row_share q (suc i) xs q (i + suc k) ≡ get_or xs k 0 =
      rw (plus_suc i k) (row_share_lem q (suc i) xs k) in
    ground arith

rows_share_before : (q : ℕ) (rows : List (List ℕ)) (j k : ℕ) → j < q → rows_share q rows j k ≡ 0
unfolding rows_share
rows_share_before q [] j k h = refl
rows_share_before q (row ∷ rows) j k h = omega (
  arith,
  row_share_other q 0 row j k (λ e. omega arith),
  rows_share_before (suc q) rows j k (omega arith),
)

rows_share_lem :
    (q : ℕ) (rows : List (List ℕ)) (j k : ℕ)
    → rows_share q rows (q + j) k ≡ get_or (get_or rows j []) k 0
unfolding rows_share
rows_share_lem q [] j k = refl
rows_share_lem q (row ∷ rows) zero k =
    let here : q + 0 ≡ q = omega arith in
    rw here (
      omega (
        arith,
        rw (zero_plus k) at (row_share_lem q 0 row k),
        rows_share_before (suc q) rows q k (omega arith),
      ))
rows_share_lem q (row ∷ rows) (suc j) k =
    let later : rows_share (suc q) rows (q + suc j) k ≡ get_or (get_or rows j []) k 0 =
      rw (plus_suc q j) (rows_share_lem (suc q) rows j k) in
    omega (arith, later, row_share_other q 0 row (q + suc j) k (λ e. omega arith))

add_row_lem :
    (q i : ℕ) (xs : List ℕ) (r : Results)
    → q < length r.votes
    → i + length xs ≤ width r q
    → (u : Results) × (add_row q i xs r ≡ (ok tt, u)) × Adds r u (row_share q i xs)
unfolding add_row row_share
add_row_lem q i [] r hq fit = (r, refl, nothing-Adds r)
add_row_lem q i (x ∷ xs) r hq fit =
    let (s, done, first) = add_cell_lem q i x r hq (omega arith) in
    let (u, rest, second) =
      add_row_lem q (suc i) xs s (omega (arith, first.same_rows))
        (omega (arith, first.same_widths q)) in
    (
      u,
      bind_ok (add_cell q i x) (λ _. add_row q (suc i) xs) r done ∙ rest,
      twice-Adds r s u (at q i x) (row_share q (suc i) xs) first second,
    )

-- Every row has at most as many columns.
abbrev Within : ℕ → List (List ℕ) → Type 0
Within n rows = (j : ℕ) → length (get_or rows j []) ≤ n

add_rows_lem :
    (q n : ℕ) (rows : List (List ℕ)) (r : Results)
    → q + length rows ≤ length r.votes
    → ((j : ℕ) → j < length r.votes → width r j ≡ n)
    → Within n rows
    → (u : Results) × (add_rows q rows r ≡ (ok tt, u)) × Adds r u (rows_share q rows)
unfolding add_rows rows_share
add_rows_lem q n [] r fit widths small = (r, refl, nothing-Adds r)
add_rows_lem q n (row ∷ rows) r fit widths small =
    let wide = widths q (omega arith) in
    let (s, done, first) = add_row_lem q 0 row r (omega arith) (omega (arith, wide, small 0)) in
    let (u, rest, second) =
      add_rows_lem (suc q) n rows s (omega (arith, first.same_rows))
        (λ j h. first.same_widths j ∙ widths j (omega (arith, first.same_rows)))
        (λ j. small (suc j)) in
    let fits : ltb (width r q) (length row) ≡ false = ground (arith, wide, small 0) in
    (
      u,
      bind_ok (raise_if (ltb (width r q) (length row)) balance_overflow)
            (λ _. add_row q 0 row >> add_rows (suc q) rows) r (rw fits refl)
          ∙ bind_ok (add_row q 0 row) (λ _. add_rows (suc q) rows) r done
          ∙ rest,
      twice-Adds r s u (row_share q 0 row) (rows_share (suc q) rows) first second,
    )

-- What adding the results of a part changes.
pub record IsMerged (other r u : Results) : Type 0 where
  pub cells : (q i : ℕ) → cell u q i ≡ cell r q i + cell other q i
  pub weighed : u.weight ≡ r.weight + other.weight
  pub height : u.envelope_height ≡ add64 r.envelope_height other.envelope_height
  pub latest : (r.block_height ≤ u.block_height) × (other.block_height ≤ u.block_height)

no_rows : (rows : List (List ℕ)) (q : ℕ) → length rows ≡ 0 → get_or rows q [] ≡ []
no_rows [] q h = refl
no_rows (row ∷ rows) q h = absurd (omega arith)

latest_lem : (a b : ℕ) → (a ≤ (if ltb a b then b else a)) × (b ≤ (if ltb a b then b else a))
latest_lem a b = (ground arith, ground arith)

-- The results once their counters are added.
abbrev with_counters : Results → Results → Results
with_counters other r = record r {
  weight = r.weight + other.weight;
  block_height =
      if ltb r.block_height other.block_height then other.block_height else r.block_height;
  envelope_height = add64 r.envelope_height other.envelope_height;
}

-- With a whole of the right shape and a part whose matrix is empty or has as many rows, none longer
-- than a row of the whole: the part is added, cell by cell, weight to weight and, on 64 bits, height to
-- height, the block height is at least that of both, and the whole keeps its shape.
pub add-IsMerged :
    (opts : ProcessVoteOptions) (et : EnvelopeType) (other r : Results)
    → IsShaped opts et r
    → (length other.votes ≡ 0) ⊎ (length other.votes ≡ opts.max_count)
    → Within (suc opts.max_value) other.votes
    → (u : Results) × (add other r ≡ (ok tt, u)) × IsShaped opts et u × IsMerged other r u
unfolding add
add-IsMerged opts et other r shape (inl empty) small =
    let none_there : (length other.votes == 0) ≡ true = ground arith in
    (
      with_counters other r,
      rw none_there refl,
      record {
        kind = shape.kind;
        options = shape.options;
        questions = shape.questions;
        columns = shape.columns;
        some_questions = shape.some_questions;
        some_values = shape.some_values;
      },
      record {
        cells = λ q i. rw (no_rows other.votes q empty) (omega arith);
        weighed = refl;
        height = refl;
        latest = latest_lem r.block_height other.block_height;
      },
    )
add-IsMerged opts et other r shape (inr full) small =
    let s = with_counters other r in
    let (u, done, adds) =
      add_rows_lem 0 (suc opts.max_value) other.votes s (omega (arith, shape.questions))
        (λ j h. shape.columns j (rw shape.questions at h)) small in
    let present : (length other.votes == 0) ≡ false = ground (arith, shape.some_questions) in
    let same : not (length other.votes == length r.votes) ≡ false =
      ground (arith, shape.questions) in
    let latest = latest_lem r.block_height other.block_height in
    let kept = adds.only_votes in
    (
      u,
      rw present (
          bind_ok (raise_if (not (length other.votes == length r.votes)) wrong_size)
            (λ _. add_rows 0 other.votes) s (rw same refl)
          ∙ done),
      record {
        kind = ap (λ x. x.envelope_type) kept ∙ shape.kind;
        options = ap (λ x. x.vote_opts) kept ∙ shape.options;
        questions = adds.same_rows ∙ shape.questions;
        columns = λ q h. adds.same_widths q ∙ shape.columns q h;
        some_questions = shape.some_questions;
        some_values = shape.some_values;
      },
      record {
        cells = λ q i.
            adds.added q i
            ∙ ap (λ x. cell r q i + x) (rw (zero_plus q) at (rows_share_lem 0 other.votes q i));
        weighed = ap (λ x. x.weight) kept;
        height = ap (λ x. x.envelope_height) kept;
        latest = rw (ap (λ x. x.block_height) kept) latest;
      },
    )
