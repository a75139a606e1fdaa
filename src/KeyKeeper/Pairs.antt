-- ===== src/KeyKeeper/Pairs.antt =====
-- What a keeper publishes of a process, over all of its steps.
use vocdoni.Base.{
  Bool, Bytes, Option, [], ap, arith, false, if◌then◌else◌, length, none, not, refl, replicate,
  some, sym, take, true, ◌++◌, ◌==◌, ◌∙◌, ◌∷◌, ◌≡◌,
}
use vocdoni.Action.{some_inj}
use vocdoni.Action.Preserve.{Preserves}
use vocdoni.Database.{Database}
use vocdoni.KeyKeeper.{
  Node, ProcessKeys, byte_of, copy_at, encryption_key_size, generate_keys, pool_get,
}
use vocdoni.KeyKeeper.Derived.{HasDerived, HasDerived-IsKept, IsDerived, pool_get-IsDerived}
use vocdoni.KeyKeeper.Invariant.{step_lem}
use vocdoni.KeyKeeper.Kept.{
  Forgets, IsKept, check_reveal_process-Preserves, publish_pending_keys-Preserves,
}
use vocdoni.KeyKeeper.Steps.{
  Reached, RunsOnly, Step, Task, World, begun, committed, publish, ran, reveal, run_task, started,
  stepped, told_cancel, told_process, told_status,
}
use vocdoni.State.{State}

module _ (D : Database) (node : Node) where
  kept : IsKept D node (HasDerived D node)
  kept = HasDerived-IsKept D node

  run_task-Preserves :
      (chain : State) (t : Task) → Preserves (HasDerived D node) (run_task D node chain t)
  unfolding run_task HasDerived Forgets
  run_task-Preserves chain (reveal height) =
      check_reveal_process-Preserves D node kept chain height (λ k h. h)
  run_task-Preserves chain publish = publish_pending_keys-Preserves D node kept

  all_steps : (w v : World D) (step : Step D node w v) → RunsOnly D node (λ _. Unit) w v step
  unfolding RunsOnly
  all_steps _ _ (begun w) = tt
  all_steps _ _ (told_process w chain pid k e) = tt
  all_steps _ _ (told_status w chain pid status k e) = tt
  all_steps _ _ (told_cancel w chain pid k e) = tt
  all_steps _ _ (committed w height) = tt
  all_steps _ _ (ran w chain before rest t k same e) = tt

  reached_lem : (w : World D) → Reached D node w → HasDerived D node w.keeper
  unfolding HasDerived IsDerived
  reached_lem _ (started storage) = tt
  reached_lem _ (stepped w v h step) =
      step_lem D node kept (λ _. Unit) (λ k _. tt) (λ k d. d)
        (λ chain t _. run_task-Preserves chain t) w v step (all_steps w v step) (reached_lem w h)

  -- The keys that the keeper makes for a process: the public one is that of the private one.
  generate_keys_inv :
      (pid : Bytes) {keys : ProcessKeys}
      → generate_keys node pid ≡ some keys
      → (key : Bytes) × (node.x25519_base keys.priv_key ≡ some key)
        × (keys.pub_key ≡ copy_at 0 (take 32 key) (replicate 32 0))
  unfolding generate_keys
  generate_keys_inv pid {keys} h =
      by_base (not (length priv == encryption_key_size)) (node.x25519_base priv) priv refl h
    where
      priv : Bytes
      priv = node.keccak (node.secret ++ (pid ++ byte_of node.my_index ∷ []))

      by_base :
          (short : Bool) (o : Option Bytes) (priv : Bytes)
          → node.x25519_base priv ≡ o
          → (if short then none else elim o as (λ _. Option ProcessKeys) [
            | none ↦ none
            | some key ↦ some (record {
              pub_key = copy_at 0 (take 32 key) (replicate 32 0);
              priv_key = priv;
              index = node.my_index;
            })
          ])
            ≡ some keys
          → (key : Bytes) × (node.x25519_base keys.priv_key ≡ some key)
            × (keys.pub_key ≡ copy_at 0 (take 32 key) (replicate 32 0))
      by_base true o priv e h = absurd (ground arith)
      by_base false none priv e h = absurd (ground arith)
      by_base false (some key) priv e h =
          let own = some_inj h in
          (
            key,
            ap (λ (k : ProcessKeys). node.x25519_base k.priv_key) (sym own) ∙ e,
            ap (λ (k : ProcessKeys). k.pub_key) (sym own),
          )

  -- Whatever steps a keeper has taken, the keys that wait to be published for a process are those
  -- that it makes for it at the time to reveal, and the public one is that of the private one.
  pub pooled_keys-IsPair :
      (w : World D) (pid : Bytes) {keys : ProcessKeys}
      → Reached D node w
      → pool_get pid w.keeper.key_pool ≡ some (some keys)
      → (generate_keys node pid ≡ some keys)
        × ((key : Bytes) × (node.x25519_base keys.priv_key ≡ some key)
            × (keys.pub_key ≡ copy_at 0 (take 32 key) (replicate 32 0)))
  unfolding HasDerived
  pooled_keys-IsPair w pid h found =
      let made = pool_get-IsDerived node pid w.keeper.key_pool (reached_lem w h) found in
      (sym made, generate_keys_inv pid (sym made))
