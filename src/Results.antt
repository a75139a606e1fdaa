-- ===== src/Results.antt =====
-- The results of a process (vochain/scrutinizer/indexertypes/results.go): how a vote is checked
-- against the rules of the ballot and counted. A Go `int` is its word of 64 bits, so the conversion
-- to `uint32` keeps the low half, that to `uint64` changes nothing, and a negative index is one that
-- is too large. A `big.Int` here is never negative.
pub mod Shape
pub mod Count
pub mod Stray
pub mod Merge
use vocdoni.Base.{
  Bool, Bytes, List, Option, [], add64, false, get_or, if◌then◌else◌, leb, length, ltb, none, not,
  replicate, set, some, suc, u32_mod, ℕ, ◌%◌, ◌&&◌, ◌*◌, ◌+◌, ◌==◌, ◌||◌, ◌∷◌,
}
use vocdoni.Action.{
  Action, Result, balance_overflow, err, gets, invalid_value, lift, missing_field, modify,
  not_allowed, ok, or_raise, panic, pure, raise_if, wrong_size, ◌>>=◌, ◌>>◌,
}
use vocdoni.Models.{EnvelopeType}
use Prim.Native.Nat.{◌^◌}

-- `MaxOptions` and `MaxQuestions`
abbrev pub max_options : ℕ
max_options = 128

abbrev pub max_questions : ℕ
max_questions = 64

pub record ProcessVoteOptions : Type 0 where
  pub max_count : ℕ
  pub max_value : ℕ
  pub max_total_cost : ℕ
  pub cost_exponent : ℕ

pub record Results : Type 0 where
  pub process_id : Bytes
  pub votes : List (List ℕ)
  pub weight : ℕ
  pub envelope_height : ℕ
  pub envelope_type : Option EnvelopeType
  pub vote_opts : Option ProcessVoteOptions
  pub final : Bool
  pub block_height : ℕ

-- A call on results, which it changes in place.
abbrev pub Count : Type 0 → Type 0
Count A = Action Results A

-- `NewEmptyVotes`; a nil matrix is an empty one.
unfoldable pub new_empty_votes : ℕ → ℕ → List (List ℕ)
new_empty_votes questions options =
    if questions == 0 || options == 0 then [] else replicate questions (replicate options 0)

-- `r.Votes[q][i].Add(r.Votes[q][i], w)`; an index out of range stops the node.
unfoldable pub add_cell : ℕ → ℕ → ℕ → Count Unit
add_cell q i w = do
  votes ← gets (λ r. r.votes)
  let row = get_or votes q []
  raise_if (leb (length votes) q) panic
  raise_if (leb (length row) i) panic
  modify (λ r. record r { votes = set votes q (set row i (get_or row i 0 + w)) })

-- The loop over the values where there is no maximum: the first column adds them up.
unfoldable pub discrete_votes : ℕ → ℕ → List ℕ → Count Unit
unfolding add_cell
discrete_votes w q [] = pure tt
discrete_votes w q (v ∷ vs) = add_cell q 0 (v * w) >> discrete_votes w (suc q) vs

-- The loop over the values where there is a maximum: each is a column.
unfoldable pub indexed_votes : ℕ → ℕ → List ℕ → Count Unit
unfolding add_cell
indexed_votes w q [] = pure tt
indexed_votes w q (v ∷ vs) = add_cell q v w >> indexed_votes w (suc q) vs

-- The loop that looks for a value that was met before.
unfoldable pub is_among : ℕ → List ℕ → Bool
is_among v [] = false
is_among v (x ∷ xs) = v == x || is_among v xs

unfoldable pub repeats : List ℕ → List ℕ → Bool
unfolding is_among
repeats seen [] = false
repeats seen (v ∷ vs) = is_among v seen || repeats (v ∷ seen) vs

-- The loop that looks for a value whose `uint32` is above the maximum.
unfoldable pub some_above : ℕ → List ℕ → Bool
some_above max [] = false
some_above max (v ∷ vs) = ltb max (v % u32_mod) || some_above max vs

-- The loop on the cost; a maximum that is nil stops the node.
unfoldable pub cost_check : Option ℕ → ℕ → ℕ → List ℕ → Result Unit
cost_check max exponent cost [] = ok tt
cost_check none exponent cost (v ∷ vs) = err panic
cost_check (some m) exponent cost (v ∷ vs) =
    let rest = cost_check (some m) exponent (cost + v ^ exponent) vs in
    if ltb m (cost + v ^ exponent) then err not_allowed else rest

-- The rules of the ballot.
unfoldable pub ballot_check : ProcessVoteOptions → EnvelopeType → List ℕ → Option ℕ → Result Unit
unfolding repeats some_above cost_check
ballot_check opts et values weight =
    if ltb opts.max_count (length values) || ltb max_options (length values)
    then err wrong_size
    else if et.unique_values && repeats [] values
    then err invalid_value
    else if ltb 0 opts.max_value && some_above opts.max_value values
    then err invalid_value
    else if ltb 0 opts.max_total_cost || et.cost_from_weight
    then cost_check (if et.cost_from_weight then weight else some opts.max_total_cost)
        opts.cost_exponent 0 values
    else ok tt

-- The checks of `AddVote`, which change nothing.
unfoldable pub vote_check : List ℕ → Option ℕ → Count (ProcessVoteOptions × EnvelopeType)
unfolding ballot_check
vote_check values weight = do
  opts ← or_raise (← gets (λ r. r.vote_opts)) missing_field
  votes ← gets (λ r. r.votes)
  raise_if (ltb 0 (length votes) && not (length votes == opts.max_count)) wrong_size
  et ← or_raise (← gets (λ r. r.envelope_type)) missing_field
  lift (ballot_check opts et values weight)
  pure (opts, et)

-- What `AddVote` adds: the weight, the empty matrix where there is none, and one envelope.
unfoldable pub add_envelope : ProcessVoteOptions → ℕ → Count Unit
unfolding new_empty_votes
add_envelope opts weight = modify (λ r. record r {
  weight = r.weight + weight;
  votes =
      if length r.votes == 0 then new_empty_votes opts.max_count (suc opts.max_value) else r.votes;
  envelope_height = add64 r.envelope_height 1;
})

-- A weight that is nil is one.
unfoldable pub or_one : Option ℕ → ℕ
or_one none = 1
or_one (some w) = w

-- The values are added up where there is no maximum, and counted where there is one.
unfoldable pub add_values : ProcessVoteOptions → EnvelopeType → ℕ → List ℕ → Count Unit
unfolding discrete_votes indexed_votes
add_values opts et weight values =
    if opts.max_value == 0
    then discrete_votes (if et.cost_from_weight then 1 else weight) 0 values
    else indexed_votes weight 0 values

-- `AddVote`
unfoldable pub add_vote : List ℕ → Option ℕ → Count Unit
unfolding vote_check add_envelope or_one add_values
add_vote values given = do
  (opts, et) ← vote_check values given
  add_envelope opts (or_one given)
  add_values opts et (or_one given) values

-- `Add`, the loops over the rows and over the columns.
unfoldable pub add_row : ℕ → ℕ → List ℕ → Count Unit
unfolding add_cell
add_row q i [] = pure tt
add_row q i (x ∷ xs) = add_cell q i x >> add_row q (suc i) xs

unfoldable pub add_rows : ℕ → List (List ℕ) → Count Unit
unfolding add_row
add_rows q [] = pure tt
add_rows q (row ∷ rows) = do
  votes ← gets (λ r. r.votes)
  raise_if (ltb (length (get_or votes q [])) (length row)) balance_overflow
  add_row q 0 row
  add_rows (suc q) rows

-- `Add`
unfoldable pub add : Results → Count Unit
unfolding add_rows
add other = do
  modify (λ r. record r {
    weight = r.weight + other.weight;
    block_height =
        if ltb r.block_height other.block_height then other.block_height else r.block_height;
    envelope_height = add64 r.envelope_height other.envelope_height;
  })
  votes ← gets (λ r. r.votes)
  if length other.votes == 0
      then pure tt
      else do raise_if (not (length other.votes == length votes)) wrong_size; add_rows 0 other.votes
