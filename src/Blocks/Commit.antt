-- ===== src/Blocks/Commit.antt =====
-- What a commit of a block leaves.
use vocdoni.Base.{
  Bool-cases, Bytes, List, [], add32, ap, arith, if◌then◌else◌, inl, inr, refl, sym, ℕ, ◌++◌, ◌∙◌,
  ◌∷◌, ◌≡◌,
}
use vocdoni.Action.{Result, err, gets, ok, ok_inj, panic, pure, recast, ◌>>=◌}
use vocdoni.Action.Preserve.{bind_inv}
use vocdoni.Blocks.{App, Chain, commit, finish_commit, in_state, set_rolling_census_size}
use vocdoni.Blocks.Aborted.{trees}
use vocdoni.Blocks.CensusSize.{HasSize, set_rolling_census_size_lem}
use vocdoni.Crypto.{Env}
use vocdoni.Processes.{is_empty}
use vocdoni.State.{State, notify, on_commit, on_processes_start}
use mathlib.Core.List.{Memᴰ}
use mathlib.Core.Path.{subst}

module _ (env : Env) (chain : Chain) where
  -- The processes that start in the next block.
  unfoldable pub starting_next : App → List Bytes
  starting_next app = app.state.pids_by_start_block (add32 app.state.current_height 1)

  pub finish_inv :
      (height : ℕ) (starting : List Bytes) (app : App) {r : Bytes} {u : App}
      → finish_commit env chain height starting app ≡ (ok r, u)
      → (u.committed ≡ app.state)
        × (r ≡ chain.root app.state)
        × (trees env chain u.state ≡ trees env chain app.state)
  unfolding finish_commit trees
  finish_inv height starting app {r} {u} h = elim (Bool-cases (chain.halts height)) [
    | inl halted ↦ absurd (ground arith)
    | inr goes_on ↦ by_list starting (rw (finish_commit, goes_on) at h)
  ]
    where
      told : App
      told = record app {
        committed = app.state;
        state = record app.state { events = app.state.events ++ on_commit height ∷ [] };
      }

      by_list :
          (pids : List Bytes)
          → ((if is_empty pids then pure tt else in_state (notify (on_processes_start pids)))
                >>= λ _. gets (λ (a : App). chain.root a.committed))
              told
            ≡ (ok r, u)
          → (u.committed ≡ app.state)
            × (r ≡ chain.root app.state)
            × (trees env chain u.state ≡ trees env chain app.state)
      by_list [] e =
          let done = ap (λ (x : Result Bytes × App). x.1) (sym e) in
          (
            ap (λ (a : App). a.committed) done,
            ok_inj (ap (λ (x : Result Bytes × App). x.0) (sym e)),
            ap (λ (a : App). trees env chain a.state) done,
          )
      by_list (pid ∷ rest) e =
          let done = ap (λ (x : Result Bytes × App). x.1) (sym e) in
          (
            ap (λ (a : App). a.committed) done,
            ok_inj (ap (λ (x : Result Bytes × App). x.0) (sym e)),
            ap (λ (a : App). trees env chain a.state) done,
          )

  sizes_inv :
      (starting : List Bytes) (app : App) {u : App}
      → recast panic (in_state (set_rolling_census_size env chain starting)) app ≡ (ok tt, u)
      → set_rolling_census_size env chain starting app.state ≡ (ok tt, u.state)
  sizes_inv starting app {u} h =
      by_result (set_rolling_census_size env chain starting app.state).0
        (set_rolling_census_size env chain starting app.state).1 refl h
    where
      by_result :
          (r : Result Unit) (s : State)
          → set_rolling_census_size env chain starting app.state ≡ (r, s)
          → (elim r as (λ _. Result Unit × App) [
            | ok a ↦ (ok a, record app { state = s })
            | err _ ↦ (err panic, record app { state = s })
          ])
            ≡ (ok tt, u)
          → set_rolling_census_size env chain starting app.state ≡ (ok tt, u.state)
      by_result (ok tt) s e done = e ∙ ap (λ (x : Result Unit × App). (ok tt, x.1.state)) done
      by_result (err _) s e done = absurd (ground arith)

  -- A commit that does not stop the node: of each process that starts in the next block with
  -- registration, the committed size is that of its census; the votes are committed as they were; the
  -- hash that is returned is that of the committed trees, and the open transaction holds these trees.
  pub commit_inv :
      (app : App) {r : Bytes} {after : App}
      → commit env chain app ≡ (ok r, after)
      → ((pid : Bytes) → Memᴰ pid (starting_next app) → HasSize after.committed pid)
        × (after.committed.votes ≡ app.state.votes)
        × (r ≡ chain.root after.committed)
        × (trees env chain after.state ≡ trees env chain after.committed)
  unfolding commit starting_next
  commit_inv app {r} {after} h =
      let pids = starting_next app in
      let height = app.state.current_height in
      bind_inv (recast panic (in_state (set_rolling_census_size env chain pids)))
        (λ _. finish_commit env chain height pids) app h
        (λ _ mid sized last.
          let (sizes, votes) =
            set_rolling_census_size_lem env chain pids app.state (sizes_inv pids app sized) in
          let (is_committed, root, same) = finish_inv height pids mid last in
          (
            λ pid m. subst (λ (s : State). HasSize s pid) (sym is_committed) (sizes pid (inl m)),
            ap (λ (s : State). s.votes) is_committed ∙ votes,
            root ∙ ap chain.root (sym is_committed),
            same ∙ ap (trees env chain) (sym is_committed),
          ))
