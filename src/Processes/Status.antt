-- ===== src/Processes/Status.antt =====
-- `SetProcessStatus` (vochain/process.go) as a state machine.
use vocdoni.Base.{
  Bytes, [], add32, ap, arith, bytes_eq_refl, content, inl, inr, length, none, refl, some, sym,
  true, ℕ, ◌++◌, ◌<◌, ◌∷◌, ◌≡◌, ◌≢◌, ◌⊎◌,
}
use vocdoni.Action.{Result, err, ok}
use vocdoni.Models.{
  Process, ProcessMode, ProcessStatus, canceled, ended, paused, process_unknown, ready, results,
  status_other,
}
use vocdoni.Processes.{process, put_at, set_process_status, status_check, update_process}
use vocdoni.Processes.Reads.{status_check-Reads}
use vocdoni.State.{State, on_process_status_change}
use mathlib.Core.Path.{subst}

-- The transitions between statuses, whatever the block and the mode of the process.
infix 40 ◌⟶◌ ◌⟶*◌
pub data ◌⟶◌ : ProcessStatus → ProcessStatus → Type 0 where
  resume : paused ⟶ ready
  pause : ready ⟶ paused
  finish : ready ⟶ ended
  cancel : {st : ProcessStatus} → st ≢ canceled → st ≢ ended → st ≢ results → st ⟶ canceled
  publish_ended : ended ⟶ results
  publish_ready : ready ⟶ results

pub data ◌⟶*◌ (a : ProcessStatus) : ProcessStatus → Type 0 where
  here : a ⟶* a
  next : {b c : ProcessStatus} → a ⟶* b → b ⟶ c → a ⟶* c

-- A process that is stored under its own id, of 32 bytes, with a mode.
pub record Holds (s : State) (pid : Bytes) (p : Process) (m : ProcessMode) : Type 0 where
  pub stored : (root : Bytes) × (s.processes pid ≡ some (record { process = p; votes_root = root }))
  pub named : content p.process_id ≡ pid
  pub sized : length pid ≡ 32
  pub mode : p.mode ≡ some m

-- What `update_process` leaves.
abbrev pub updated : Bytes → Process → State → State
updated pid p s = record s {
  processes =
      put_at pid
        (record {
          process = p;
          votes_root = elim (s.processes pid) [ none ↦ [] | some leaf ↦ leaf.votes_root ];
        })
        s.processes;
}

-- The condition of a transition at a height, for a process and its mode.
abbrev pub Allowed : ℕ → Process → ProcessMode → ProcessStatus → Type 0
Allowed height p m ready = p.status ≡ paused
Allowed height p m paused = (p.status ≡ ready) × (m.interruptible ≡ true)
Allowed height p m ended =
    (p.status ≡ ready) × ((m.interruptible ≡ true) ⊎ (add32 p.block_count p.start_block < height))
Allowed height p m canceled =
    (p.status ≢ canceled)
    × (p.status ≢ ended)
    × (p.status ≢ results)
    × ((p.status ≡ paused) ⊎ (m.interruptible ≡ true))
Allowed height p m results =
    (p.status ≡ ended) ⊎ ((p.status ≡ ready) × (height < add32 p.start_block p.block_count))
Allowed height p m process_unknown = ⊥
Allowed height p m (status_other n) = ⊥

status_check_sound :
    (st : ProcessStatus) (p : Process) (m : ProcessMode) (s : State)
    → p.mode ≡ some m
    → (status_check st p s).0 ≡ ok tt
    → Allowed s.current_height p m st
unfolding status_check
status_check_sound ready p m s e h = ground arith
status_check_sound paused p m s e h = ground arith
status_check_sound ended p m s e h = ground arith
status_check_sound canceled p m s e h = ground arith
status_check_sound results p m s e h = ground arith
status_check_sound _ p m s e h = cc

status_check_complete :
    (st : ProcessStatus) (p : Process) (m : ProcessMode) (s : State)
    → p.mode ≡ some m
    → Allowed s.current_height p m st
    → status_check st p s ≡ (ok tt, s)
unfolding status_check
status_check_complete ready p m s e h = ground arith
status_check_complete paused p m s e h = ground arith
status_check_complete ended p m s e h = ground arith
status_check_complete canceled p m s e h = ground arith
status_check_complete results p m s e h = ground arith
status_check_complete _ p m s e h = absurd h

-- The notification of a change of status.
abbrev pub status_event : Process → ProcessStatus → State → State
status_event p st s = record s {
  events = s.events ++ on_process_status_change p.process_id st s.tx_counter ∷ [];
}

module _ {pid : Bytes} {p : Process} {m : ProcessMode} (st : ProcessStatus) (s : State)
    (held : Holds s pid p m) where
  -- A change of status that is allowed changes that status, tells the listeners, and changes
  -- nothing else.
  pub set_process_status_ok :
      Allowed s.current_height p m st
      → set_process_status pid st true s
        ≡ (ok tt, status_event p st (updated pid (record p { status = st }) s))
  unfolding set_process_status process update_process
  set_process_status_ok h =
      let (root, stored) = held.stored in
      let named : content p.process_id ≡ pid = held.named in
      let sized : length pid ≡ 32 = held.sized in
      let passed : status_check st p s ≡ (ok tt, s) = status_check_complete st p m s held.mode h in
      rw (← named) (ground (arith, passed))

  -- One that is not allowed is refused and changes nothing.
  pub set_process_status_refused :
      ¬ (Allowed s.current_height p m st)
      → ((set_process_status pid st true s).0 ≢ ok tt) × ((set_process_status pid st true s).1 ≡ s)
  unfolding set_process_status process update_process
  set_process_status_refused never =
      let (root, stored) = held.stored in
      let same : (status_check st p s).1 ≡ s = (status_check-Reads st p s).run s refl in
      let failed : (status_check st p s).0 ≢ ok tt =
        λ e. never (status_check_sound st p m s held.mode e) in
      ground (arith, stored, same, failed)

Allowed-step :
    (height : ℕ) (p : Process) (m : ProcessMode) (st : ProcessStatus)
    → Allowed height p m st
    → p.status ⟶ st
Allowed-step height p m ready h = subst (λ a. a ⟶ ready) (sym h) resume
Allowed-step height p m paused h = subst (λ a. a ⟶ paused) (sym h.0) pause
Allowed-step height p m ended h = subst (λ a. a ⟶ ended) (sym h.0) finish
Allowed-step height p m canceled h = cancel h.0 h.1 h.2
Allowed-step height p m results (inl h) = subst (λ a. a ⟶ results) (sym h) publish_ended
Allowed-step height p m results (inr h) = subst (λ a. a ⟶ results) (sym h.0) publish_ready
Allowed-step height p m process_unknown h = absurd h
Allowed-step height p m (status_other n) h = absurd h

ok-or_not : (r : Result Unit) → (r ≡ ok tt) ⊎ (r ≢ ok tt)
ok-or_not (ok tt) = inl refl
ok-or_not (err e) = inr (λ q. cc)

-- One call either leaves the state alone or moves the status along the diagram.
pub set_process_status_cases :
    {pid : Bytes} {p : Process} {m : ProcessMode} (st : ProcessStatus) (s : State)
    → Holds s pid p m
    → ((set_process_status pid st true s).1 ≡ s)
      ⊎ ((p.status ⟶ st)
          × Holds (set_process_status pid st true s).1 pid (record p { status = st }) m)
set_process_status_cases {pid} {p} {m} st s held = elim (ok-or_not (status_check st p s).0) [
  | inl passed ↦
      let allowed : Allowed s.current_height p m st =
        status_check_sound st p m s held.mode passed in
      inr (
        Allowed-step s.current_height p m st allowed,
        rw (set_process_status_ok st s held allowed) (record {
          stored = (held.stored.0, ground (arith, held.stored.1, bytes_eq_refl pid));
          named = held.named;
          sized = held.sized;
          mode = held.mode;
        }),
      )
  | inr failed ↦
      inl
        (set_process_status_refused st s held
          (λ a. failed (ap (λ r. r.0) (status_check_complete st p m s held.mode a)))).1
]
