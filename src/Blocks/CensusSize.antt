-- ===== src/Blocks/CensusSize.antt =====
-- The sizes of rolling censuses that a commit writes, `setRollingCensusSize` (vochain/state.go).
use vocdoni.Base.{
  Bool-cases, Bytes, List, Option, [], ap, arith, bytes_eq, bytes_eq_refl, eq_of_bytes_eq, false,
  if◌then◌else◌, inl, inr, length, not, refl, some, sym, true, ℕ, ◌∙◌, ◌∷◌, ◌≡◌, ◌⊎◌,
}
use vocdoni.Action.{
  Result, gets, missing_field, modify, ok, ok_inj, or_raise, panic, process_not_found, pure, ◌>>=◌,
}
use vocdoni.Action.Preserve.{bind_inv, or_raise_inv}
use vocdoni.Blocks.{Chain, set_census_size, set_rolling_census_size, write_process}
use vocdoni.Crypto.{Env}
use vocdoni.Models.{Process, ProcessMode, StateDbProcess}
use vocdoni.Processes.{need_mode, process, put_at}
use vocdoni.RollingCensus.{get_rolling_census_size, need_census_root}
use vocdoni.RollingCensus.Reads.{need_census_root-Preserves}
use vocdoni.State.{Run, State}
use mathlib.Core.List.{Memᴰ}
use mathlib.Core.Path.{subst}
use mathlib.Core.List.Memᴰ

-- A process that is there, whose size is that of its census where keys were registered.
pub HasSize : State → Bytes → Type 0
HasSize s pid =
    (leaf : StateDbProcess) × (m : ProcessMode) × (s.processes pid ≡ some leaf)
    × (leaf.process.mode ≡ some m)
    × (m.pre_register ≡ true
        → (keys : List Bytes) × (s.rolling_census pid ≡ some keys)
          × (leaf.process.rolling_census_size ≡ some (length keys)))

module _ (env : Env) (chain : Chain) where
  -- What `set_census_size` does where it gives no error.
  record SizeSet (pid : Bytes) (s u : State) : Type 0 where
    has_size : HasSize u pid
    others : (q : Bytes) → bytes_eq q pid ≡ false → u.processes q ≡ s.processes q
    census : u.rolling_census ≡ s.rolling_census
    votes : u.votes ≡ s.votes

  process_inv :
      (pid : Bytes) (s : State) {p : Process} {t : State}
      → process pid s ≡ (ok p, t)
      → (leaf : StateDbProcess) × (s.processes pid ≡ some leaf) × (leaf.process ≡ p) × (s ≡ t)
  unfolding process
  process_inv pid s {p} {t} h =
      bind_inv (gets (λ x. x.processes pid))
        (λ o. or_raise o process_not_found >>= λ leaf. pure leaf.process) s h
        (λ o s' got rest.
          bind_inv (or_raise o process_not_found) (λ leaf. pure leaf.process) s' rest
            (λ leaf s'' stored last.
              let (is_some, same) = or_raise_inv o process_not_found s' stored in
              let got_value = ok_inj (ap (λ x. x.0) got) in
              let got_state = ap (λ x. x.1) got in
              (
                leaf,
                got_value ∙ is_some,
                ok_inj (ap (λ x. x.0) last),
                got_state ∙ same ∙ ap (λ x. x.1) last,
              )))

  size_inv :
      (pid : Bytes) (s : State) {n : ℕ} {t : State}
      → get_rolling_census_size env pid s ≡ (ok n, t)
      → (keys : List Bytes) × (s.rolling_census pid ≡ some keys) × (n ≡ length keys) × (s ≡ t)
  unfolding get_rolling_census_size
  size_inv pid s {n} {t} h =
      let kept = (need_census_root-Preserves {P = λ x. x ≡ s} env pid).run s refl in
      bind_inv (need_census_root env pid)
        (λ p. gets (λ x. x.rolling_census pid) >>= λ o.
          or_raise o missing_field >>= λ keys. pure (length keys))
        s h
        (λ p s' first rest.
          let same : s' ≡ s = sym (ap (λ x. x.1) first) ∙ kept in
          bind_inv (or_raise (s'.rolling_census pid) missing_field) (λ keys. pure (length keys)) s'
            rest
            (λ keys s'' stored last.
              let (is_some, same') = or_raise_inv (s'.rolling_census pid) missing_field s' stored in
              (
                keys,
                ap (λ x. x.rolling_census pid) (sym same) ∙ is_some,
                sym (ok_inj (ap (λ x. x.0) last)),
                sym same ∙ same' ∙ ap (λ x. x.1) last,
              )))

  abbrev written : Process → Bytes → StateDbProcess → State → State
  written p pid leaf s = record s {
    processes = put_at pid (record { process = p; votes_root = leaf.votes_root }) s.processes;
  }

  write_inv :
      (p : Process) (pid : Bytes) (s : State) {u : State}
      → write_process env chain p pid s ≡ (ok tt, u)
      → (leaf : StateDbProcess) × (u ≡ written p pid leaf s)
  unfolding write_process
  write_inv p pid s {u} h =
      bind_inv (or_raise (s.processes pid) process_not_found) (λ leaf. modify (written p pid leaf))
        s h
        (λ leaf s' stored last.
          let (_, same) = or_raise_inv (s.processes pid) process_not_found s stored in
          (leaf, sym (ap (λ x. x.1) last) ∙ ap (written p pid leaf) (sym same)))

  -- The state that a size is written to.
  sized-SizeSet :
      (pid : Bytes) (s : State) (p : Process) (m : ProcessMode) (leaf : StateDbProcess)
      (keys : List Bytes)
      → p.mode ≡ some m
      → s.rolling_census pid ≡ some keys
      → SizeSet pid s (written (record p { rolling_census_size = some (length keys) }) pid leaf s)
  unfolding HasSize
  sized-SizeSet pid s p m leaf keys is_mode census = record {
    has_size = (
      record {
        process = record p { rolling_census_size = some (length keys) };
        votes_root = leaf.votes_root;
      },
      m,
      rw (bytes_eq_refl pid) refl,
      is_mode,
      λ registered. (keys, census, refl),
    );
    others = λ q other. rw other refl;
    census = refl;
    votes = refl;
  }

  -- The end of `setRollingCensusSize` of a process.
  abbrev size_written : Bytes → Process → Run Unit
  size_written pid p = get_rolling_census_size env pid >>= λ size.
      write_process env chain (record p { rolling_census_size = some size }) pid

  size_written-SizeSet :
      (pid : Bytes) (s : State) (p : Process) (m : ProcessMode) {u : State}
      → p.mode ≡ some m
      → size_written pid p s ≡ (ok tt, u)
      → SizeSet pid s u
  size_written-SizeSet pid s p m {u} is_mode h =
      let write =
        λ (size : ℕ). write_process env chain (record p { rolling_census_size = some size }) pid in
      bind_inv (get_rolling_census_size env pid) write s h (λ size t sized last.
        let (keys, census, is_size, same) = size_inv pid s sized in
        let step : write (length keys) s ≡ (ok tt, u) =
          ap (λ (n : ℕ). write n s) (sym is_size) ∙ ap (λ (x : State). write size x) same ∙ last in
        let (leaf, is_written) =
          write_inv (record p { rolling_census_size = some (length keys) }) pid s step in
        subst (SizeSet pid s) (sym is_written) (sized-SizeSet pid s p m leaf keys is_mode census))

  size_step :
      (pid : Bytes) (s : State) (p : Process) (m : ProcessMode) (leaf : StateDbProcess) {u : State}
      → s.processes pid ≡ some leaf
      → leaf.process ≡ p
      → p.mode ≡ some m
      → (if not m.pre_register then pure tt else size_written pid p) s ≡ (ok tt, u)
      → SizeSet pid s u
  unfolding HasSize
  size_step pid s p m leaf {u} found same is_mode h = elim (Bool-cases m.pre_register) [
    | inl registered ↦ size_written-SizeSet pid s p m is_mode (rw registered at h)
    | inr unlisted ↦
        let unchanged : s ≡ u = ap (λ (x : Result Unit × State). x.1) (rw unlisted at h) in
        subst (SizeSet pid s) unchanged (record {
          has_size = (
            leaf,
            m,
            found,
            ap (λ (x : Process). x.mode) same ∙ is_mode,
            λ registered. absurd (ground arith),
          );
          others = λ q other. refl;
          census = refl;
          votes = refl;
        })
  ]

  set_census_size_inv :
      (pid : Bytes) (s : State) {u : State}
      → set_census_size env chain pid s ≡ (ok tt, u)
      → SizeSet pid s u
  unfolding set_census_size
  set_census_size_inv pid s {u} h =
      let with_mode = λ (p : Process) (m : ProcessMode).
        if not m.pre_register then pure tt else size_written pid p in
      bind_inv (process pid) (λ p. need_mode p >>= with_mode p) s h
        (λ p t found rest.
          let (leaf, is_there, same_p, same) = process_inv pid s found in
          bind_inv (need_mode p) (with_mode p) t rest (λ m t' mode last.
            let (is_mode, same') = or_raise_inv p.mode panic t mode in
            size_step pid s p m leaf is_there same_p is_mode
              (ap (λ (x : State). with_mode p m x) (same ∙ same') ∙ last)))

  -- A size that is written stays, also where another process of the block is written.
  census_size_stays : (pid q : Bytes) (s u : State) → SizeSet q s u → HasSize s pid → HasSize u pid
  unfolding HasSize
  census_size_stays pid q s u done (leaf, m, found, mode, size) =
      elim (Bool-cases (bytes_eq pid q)) [
        | inl same ↦ subst (HasSize u) (sym (eq_of_bytes_eq pid q same)) done.has_size
        | inr other ↦ (
          leaf,
          m,
          done.others pid other ∙ found,
          mode,
          λ registered.
              let (keys, census, is_size) = size registered in
              (keys, ap (λ (c : Bytes → Option (List Bytes)). c pid) done.census ∙ census, is_size),
        )
      ]

  after_first :
      (q : Bytes) (rest : List Bytes) (s t : State)
      → SizeSet q s t
      → (pid : Bytes) → Memᴰ pid (q ∷ rest) ⊎ HasSize s pid
      → Memᴰ pid rest ⊎ HasSize t pid
  after_first q rest s t done pid (inl m) = elim (Memᴰ.cases_cons m) [
    | inl e ↦ inr (subst (HasSize t) (sym e) done.has_size)
    | inr m' ↦ inl m'
  ]
  after_first q rest s t done pid (inr size) = inr (census_size_stays pid q s t done size)

  -- The loop of `setRollingCensusSize`.
  pub set_rolling_census_size_lem :
      (pids : List Bytes) (s : State) {u : State}
      → set_rolling_census_size env chain pids s ≡ (ok tt, u)
      → ((pid : Bytes) → Memᴰ pid pids ⊎ HasSize s pid → HasSize u pid) × (u.votes ≡ s.votes)
  unfolding set_rolling_census_size
  set_rolling_census_size_lem [] s {u} h =
      let same : s ≡ u = ap (λ (x : Result Unit × State). x.1) h in
      (
        λ pid w. elim w [
          | inl m ↦ absurd (Memᴰ.not-nil m)
          | inr size ↦ subst (λ (x : State). HasSize x pid) same size
        ],
        ap (λ (x : State). x.votes) (sym same),
      )
  set_rolling_census_size_lem (q ∷ rest) s {u} h =
      bind_inv (set_census_size env chain q) (λ _. set_rolling_census_size env chain rest) s h
        (λ _ t first last.
          let done = set_census_size_inv q s first in
          let (sizes, votes) = set_rolling_census_size_lem rest t last in
          (λ pid w. sizes pid (after_first q rest s t done pid w), votes ∙ done.votes))
