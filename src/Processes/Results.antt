-- ===== src/Processes/Results.antt =====
-- `SetProcessResults` and `GetProcessResults` (vochain/process.go).
use vocdoni.Base.{
  Bytes, List, [], add32, ap, arith, bytes_eq_refl, content, false, if◌then◌else◌, inl, inr, length,
  refl, replicate, some, suc, sym, take, true, ℕ, ◌*◌, ◌++◌, ◌-◌, ◌<◌, ◌↔◌, ◌∷◌, ◌≡◌, ◌≤◌, ◌⊎◌,
}
use vocdoni.Action.{already_added, err, ok, wrong_status}
use vocdoni.Crypto.{Env}
use vocdoni.Database.Prefixed.{full}
use vocdoni.Models.{Process, ProcessMode, ProcessResult, empty_result, ended, ready, results}
use vocdoni.Processes.{
  get_process_results, has_oracle, is_empty, process, results_check, results_commit,
  set_process_results, set_process_status, status_check, update_process,
}
use vocdoni.Processes.Status.{Holds, updated}
use vocdoni.State.{State, on_process_results}
use vocdoni.State.Faucet.{stored}
use vocdoni.State.Oracles.{get_oracles, live}
use mathlib.Core.Path.{subst}

-- A result that names its process, its entity and an oracle.
pub record Matches (r : ProcessResult) (p : Process) (oracle : Bytes) : Type 0 where
  pub of_process : r.process_id ≡ content p.process_id
  pub of_entity : r.entity_id ≡ p.entity_id
  pub of_signer : r.oracle_address ≡ some oracle

-- The results before the new one: those of the process, or the padding of a fresh slice.
abbrev pub held_results : Env → Process → State → List ProcessResult
held_results env p s =
    if is_empty p.results
    then replicate
        (length (live (take (env.walk (replicate (length s.oracles) true)) s.oracles)) * 2)
        empty_result
    else p.results

-- The process with a result added.
abbrev pub with_result : Env → Process → ProcessResult → State → Process
with_result env p r s = record p { results = held_results env p s ++ r ∷ []; status = results }

-- When results may be set: the process has ended or has results, or its time is over.
abbrev pub ResultsTime : Process → State → Type 0
ResultsTime p s =
    (p.status ≡ ended)
    ⊎ (p.status ≡ results)
    ⊎ ((p.status ≡ ready) × (add32 p.start_block p.block_count ≤ s.current_height))

pub has_oracle-append :
    (o : Bytes) (l : List ProcessResult) (r : ProcessResult)
    → r.oracle_address ≡ some o
    → has_oracle (some o) (l ++ r ∷ []) ≡ true
unfolding has_oracle
has_oracle-append o [] r e = ground (arith, bytes_eq_refl o)
has_oracle-append o (q ∷ l) r e = ground (arith, has_oracle-append o l r e)

module _ (env : Env) {pid oracle : Bytes} {p : Process} {m : ProcessMode} (r : ProcessResult)
    (s : State) (held : Holds s pid p m) (fits : Matches r p oracle) where
  results_check_ok : ResultsTime p s → results_check p r s ≡ (ok tt, s)
  unfolding results_check
  results_check_ok h = ground (
    arith,
    fits.of_process,
    fits.of_entity,
    bytes_eq_refl p.entity_id,
    bytes_eq_refl (content p.process_id),
  )

  -- The state after a first result of an oracle.
  abbrev pub published : State
  published = record (updated pid (with_result env p r s) s) {
    events = s.events ++ on_process_results p.process_id r s.tx_counter ∷ [];
  }

  -- A first result of an oracle is appended, the status is set to results, the listeners are told,
  -- and nothing else changes.
  pub set_process_results_ok :
      ResultsTime p s
      → has_oracle (some oracle) (held_results env p s) ≡ false
      → set_process_results env pid r true s ≡ (ok tt, published)
  unfolding set_process_results process update_process results_commit get_oracles
  set_process_results_ok h fresh =
      let (root, stored) = held.stored in
      let named : content p.process_id ≡ pid = held.named in
      let sized : length pid ≡ 32 = held.sized in
      let passed : results_check p r s ≡ (ok tt, s) = results_check_ok h in
      rw (← named) (ground (arith, passed, fits.of_signer))

  pub published-Holds : Holds published pid (with_result env p r s) m
  published-Holds = record {
    stored = (held.stored.0, ground (arith, held.stored.1, bytes_eq_refl pid));
    named = held.named;
    sized = held.sized;
    mode = held.mode;
  }

pub refused_twice :
    (env : Env) {pid oracle : Bytes} {p : Process} {m : ProcessMode} (r : ProcessResult) (s : State)
    → Holds s pid p m
    → Matches r p oracle
    → p.status ≡ results
    → is_empty p.results ≡ false
    → has_oracle (some oracle) p.results ≡ true
    → (set_process_results env pid r true s).0 ≡ err already_added
unfolding set_process_results process results_commit get_oracles
refused_twice env {pid} {oracle} {p} r s held fits ended_now full twice =
    let (root, stored) = held.stored in
    let passed : results_check p r s ≡ (ok tt, s) =
      results_check_ok env r s held fits (inr (inl ended_now)) in
    ground (arith, passed, fits.of_signer)

pub not_empty-append {ℓ} : {A : Type ℓ} (l : List A) (x : A) → is_empty (l ++ x ∷ []) ≡ false
not_empty-append [] x = refl
not_empty-append (y ∷ l) x = refl

-- The number of oracles that `SetProcessResults` counts.
abbrev pub oracle_count : Env → State → ℕ
oracle_count env s = length (live (take (env.walk (replicate (length s.oracles) true)) s.oracles))

read_first :
    {pid : Bytes} {p : Process} {m : ProcessMode} (q : ProcessResult) (rest : List ProcessResult)
    (s : State)
    → Holds s pid p m
    → p.results ≡ q ∷ rest
    → get_process_results pid s ≡ ok q.votes
unfolding get_process_results process
read_first q rest s held e = ground (arith, held.stored.1)

padded :
    (n : ℕ) (l : List ProcessResult)
    → 0 < n
    → (rest : List ProcessResult) × (replicate (n * 2) empty_result ++ l ≡ empty_result ∷ rest)
padded n l h =
    let e : n * 2 ≡ suc (n * 2 - 1) = omega arith in
    (replicate (n * 2 - 1) empty_result ++ l, ap (λ k. replicate k empty_result ++ l) e)

padded_results :
    (env : Env) (p : Process) (r : ProcessResult) (s : State)
    → p.results ≡ []
    → 0 < oracle_count env s
    → (rest : List ProcessResult) × ((with_result env p r s).results ≡ empty_result ∷ rest)
padded_results env p r s empty oracles =
    let (rest, e) = padded (oracle_count env s) (r ∷ []) oracles in
    let none_yet : is_empty p.results ≡ true = ap is_empty empty in (rest, rw none_yet e)

-- The results that were set for a process without results begin with padding.
pub read_padding :
    (env : Env) {pid oracle : Bytes} {p : Process} {m : ProcessMode} (r : ProcessResult) (s : State)
    → Holds s pid p m
    → Matches r p oracle
    → ResultsTime p s
    → p.results ≡ []
    → 0 < oracle_count env s
    → has_oracle (some oracle) (held_results env p s) ≡ false
    → get_process_results pid (set_process_results env pid r true s).1 ≡ ok []
read_padding env {pid} {oracle} {p} r s held fits h empty oracles fresh =
    let (rest, e) = padded_results env p r s empty oracles in
    subst (λ x. get_process_results pid x.1 ≡ ok [])
      (sym (set_process_results_ok env r s held fits h fresh))
      (read_first empty_result rest (published env r s held fits)
        (published-Holds env r s held fits) e)

-- Of a ready process the two ways to its results are opposed: `SetProcessStatus` accepts the status
-- exactly while `SetProcessResults` refuses the results because the process is still alive.
pub ready_results_opposed :
    (env : Env) {pid oracle : Bytes} {p : Process} {m : ProcessMode} (r : ProcessResult) (s : State)
    → Holds s pid p m
    → Matches r p oracle
    → p.status ≡ ready
    → ((set_process_status pid results false s).0 ≡ ok tt)
      ↔ ((set_process_results env pid r false s).0 ≡ err wrong_status)
unfolding set_process_status set_process_results process status_check results_check
ready_results_opposed env {pid} {oracle} {p} r s held fits is_ready = (
  λ h. ground (
    arith,
    held.stored.1,
    fits.of_process,
    fits.of_entity,
    fits.of_signer,
    bytes_eq_refl p.entity_id,
    bytes_eq_refl (content p.process_id),
  ),
  λ h. ground (
    arith,
    held.stored.1,
    fits.of_process,
    fits.of_entity,
    fits.of_signer,
    bytes_eq_refl p.entity_id,
    bytes_eq_refl (content p.process_id),
  ),
)
