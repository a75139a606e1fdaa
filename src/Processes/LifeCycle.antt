-- ===== src/Processes/LifeCycle.antt =====
-- Any sequence of `SetProcessStatus` calls at any heights (vochain/process.go).
use vocdoni.Base.{Bytes, List, [], ap, arith, inl, inr, refl, sym, true, ℕ, ◌∙◌, ◌∷◌, ◌≡◌, ◌⊎◌}
use vocdoni.Models.{Process, ProcessMode, ProcessStatus, canceled, results}
use vocdoni.Processes.{set_process_status}
use vocdoni.Processes.Status.{
  Holds, cancel, finish, here, next, pause, publish_ended, publish_ready, resume,
  set_process_status_cases, ◌⟶*◌, ◌⟶◌,
}
use vocdoni.State.{State}
use mathlib.Core.Path.{subst}

-- The calls that a process meets: each at a height, with the status that is asked for. A refused
-- call is passed over.
unfoldable pub attempts : Bytes → List (ℕ × ProcessStatus) → State → State
attempts pid [] s = s
attempts pid ((height, st) ∷ calls) s =
    attempts pid calls (set_process_status pid st true (record s { current_height = height })).1

-- The statuses without a way out.
abbrev pub IsFinal : ProcessStatus → Type 0
IsFinal st = (st ≡ canceled) ⊎ (st ≡ results)

IsFinal-stays : {a b : ProcessStatus} → a ⟶ b → ¬ IsFinal a
IsFinal-stays resume f = ground arith
IsFinal-stays pause f = ground arith
IsFinal-stays finish f = ground arith
IsFinal-stays (cancel c e r) f = ground arith
IsFinal-stays publish_ended f = ground arith
IsFinal-stays publish_ready f = ground arith

steps_from_final : {a b : ProcessStatus} → IsFinal a → a ⟶* b → a ≡ b
steps_from_final f here = refl
steps_from_final f (next steps step) =
    let same = steps_from_final f steps in absurd (IsFinal-stays step (subst IsFinal same f))

-- Whatever is asked for and when, the process stays in the state under its id with its mode and
-- its census, and its status has moved along the diagram.
pub attempts_steps :
    (pid : Bytes) {p : Process} {m : ProcessMode} (calls : List (ℕ × ProcessStatus)) (s : State)
    → Holds s pid p m
    → (q : Process) × Holds (attempts pid calls s) pid q m
      × (p.status ⟶* q.status)
      × (q ≡ record p { status = q.status })
unfolding attempts
attempts_steps pid {p} [] s held = (p, held, here, refl)
attempts_steps pid {p} {m} ((height, st) ∷ calls) s held =
    let u : State = record s { current_height = height } in
    let placed : Holds u pid p m = record {
      stored = held.stored;
      named = held.named;
      sized = held.sized;
      mode = held.mode;
    } in
    elim (set_process_status_cases st u placed) [
      | inl same ↦ rw same (attempts_steps pid calls u placed)
      | inr (step, moved) ↦
          let (q, kept, steps, rest) =
            attempts_steps pid calls (set_process_status pid st true u).1 moved in
          (q, kept, before step steps, rest)
    ]
  where
    before : {a b c : ProcessStatus} → a ⟶ b → b ⟶* c → a ⟶* c
    before step here = next here step
    before step (next steps last) = next (before step steps) last

-- A process that is canceled or has its results keeps that status for ever.
pub attempts_final :
    (pid : Bytes) {p : Process} {m : ProcessMode} (calls : List (ℕ × ProcessStatus)) (s : State)
    → Holds s pid p m
    → IsFinal p.status
    → Holds (attempts pid calls s) pid p m
attempts_final pid {p} {m} calls s held final =
    let (q, kept, steps, rest) = attempts_steps pid calls s held in
    let same : p.status ≡ q.status = steps_from_final final steps in
    subst (λ x. Holds (attempts pid calls s) pid x m)
      (rest ∙ ap (λ st. record p { status = st }) (sym same)) kept
