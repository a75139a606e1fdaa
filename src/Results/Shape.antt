-- ===== src/Results/Shape.antt =====
-- Adding to the cells of the matrix of results (vochain/scrutinizer/indexertypes/results.go).
use vocdoni.Base.{
  ==_refl, List, [], ap, arith, false, get_or, get_or-set_ne, get_or-set_self, if◌then◌else◌,
  length, length-set, refl, set, sym, ℕ, ℕ_discrete, ◌&&◌, ◌+◌, ◌<◌, ◌==◌, ◌∙◌, ◌≡◌, ◌≢◌, ◌≤◌,
}
use vocdoni.Action.{err, ok, panic}
use vocdoni.Results.{Results, add_cell}

-- The cell of a question and an option.
abbrev pub cell : Results → ℕ → ℕ → ℕ
cell r q i = get_or (get_or r.votes q []) i 0

-- The length of a row.
abbrev pub width : Results → ℕ → ℕ
width r q = length (get_or r.votes q [])

-- The results differ by what is added to each cell, and in nothing else.
pub record Adds (r u : Results) (f : ℕ → ℕ → ℕ) : Type 0 where
  pub same_rows : length u.votes ≡ length r.votes
  pub same_widths : (q : ℕ) → width u q ≡ width r q
  pub added : (q i : ℕ) → cell u q i ≡ cell r q i + f q i
  pub only_votes : u ≡ record r { votes = u.votes }

-- What one call adds.
abbrev pub at : ℕ → ℕ → ℕ → ℕ → ℕ → ℕ
at q i w j k = if j == q && k == i then w else 0

==_ne : (a b : ℕ) → a ≢ b → (a == b) ≡ false
==_ne a b n = ground arith

set_row :
    (votes : List (List ℕ)) (q : ℕ) (row : List ℕ) (j : ℕ)
    → q < length votes
    → get_or (set votes q row) j [] ≡ (if j == q then row else get_or votes j [])
set_row votes q row j h = elim (ℕ_discrete q j) [
  | yes e ↦ rw (← e, ==_refl q) (get_or-set_self votes q row [] h)
  | no n ↦ get_or-set_ne votes q j row [] n ∙ ground arith
]

set_cell :
    (row : List ℕ) (i w k : ℕ)
    → i < length row
    → get_or (set row i (get_or row i 0 + w)) k 0 ≡ get_or row k 0 + (if k == i then w else 0)
set_cell row i w k h = elim (ℕ_discrete i k) [
  | yes e ↦ rw (← e, ==_refl i) (get_or-set_self row i _ 0 h)
  | no n ↦ get_or-set_ne row i k _ 0 n ∙ ground arith
]

new_width :
    (r : Results) (q i j v : ℕ)
    → length (if j == q then set (get_or r.votes q []) i v else get_or r.votes j []) ≡ width r j
new_width r q i j v = elim (ℕ_discrete q j) [
  | yes e ↦ rw (← e, ==_refl q) (length-set (get_or r.votes q []) i v)
  | no n ↦ rw (==_ne j q (λ e. n (sym e))) refl
]

new_cell :
    (r : Results) (q i w j k : ℕ)
    → i < width r q
    → get_or
        (if j == q
          then set (get_or r.votes q []) i (get_or (get_or r.votes q []) i 0 + w)
          else get_or r.votes j [])
        k
        0
      ≡ cell r j k + at q i w j k
new_cell r q i w j k h = elim (ℕ_discrete q j) [
  | yes e ↦ rw (← e, ==_refl q) (set_cell (get_or r.votes q []) i w k h)
  | no n ↦ rw (==_ne j q (λ e. n (sym e))) (omega arith)
]

pub add_cell_lem :
    (q i w : ℕ) (r : Results)
    → q < length r.votes
    → i < width r q
    → (u : Results) × (add_cell q i w r ≡ (ok tt, u)) × Adds r u (at q i w)
unfolding add_cell
add_cell_lem q i w r hq hi =
    let row = get_or r.votes q [] in
    let new_row = set row i (get_or row i 0 + w) in
    let u : Results = record r { votes = set r.votes q new_row } in
    (
      u,
      ground arith,
      record {
        same_rows = length-set r.votes q new_row;
        same_widths =
            λ j. rw (set_row r.votes q new_row j hq) (new_width r q i j (get_or row i 0 + w));
        added = λ j k. rw (set_row r.votes q new_row j hq) (new_cell r q i w j k hi);
        only_votes = refl;
      },
    )

pub stray_cell :
    (q i w : ℕ) (r : Results)
    → q < length r.votes
    → width r q ≤ i
    → add_cell q i w r ≡ (err panic, r)
unfolding add_cell
stray_cell q i w r hq hi = ground arith

-- Adding nothing, and adding twice.
pub nothing-Adds : (r : Results) → Adds r r (λ q i. 0)
nothing-Adds r = record {
  same_rows = refl;
  same_widths = λ q. refl;
  added = λ q i. omega arith;
  only_votes = refl;
}

pub twice-Adds :
    (r s u : Results) (f g : ℕ → ℕ → ℕ) → Adds r s f → Adds s u g → Adds r u (λ q i. f q i + g q i)
twice-Adds r s u f g first second = record {
  same_rows = second.same_rows ∙ first.same_rows;
  same_widths = λ q. second.same_widths q ∙ first.same_widths q;
  added = λ q i. omega (arith, first.added q i, second.added q i);
  only_votes =
      second.only_votes ∙ ap (λ (x : Results). record x { votes = u.votes }) first.only_votes;
}
