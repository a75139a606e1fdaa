-- ===== src/RollingCensus/Bound.antt =====
-- The size of the rolling census (vochain/census.go).
use vocdoni.Base.{
  Bytes, List, Option, [], ap, arith, bytes_eq_refl, length, length-append, refl, some, sym, ℕ, ℤ,
  ◌++◌, ◌<◌, ◌∙◌, ◌∷◌, ◌≡◌, ◌≤◌,
}
use vocdoni.Action.{gets, missing_field, ok, or_raise, some_of, ◌>>=◌}
use vocdoni.Action.Preserve.{bind_inv, or_raise_inv}
use vocdoni.Crypto.{Env}
use vocdoni.Models.{Process}
use vocdoni.Processes.{process}
use vocdoni.RollingCensus.{add_key, add_to_rolling_census, need_census_root}
use vocdoni.RollingCensus.Reads.{need_census_root-Preserves}
use vocdoni.State.{State}

add_key_inv :
    (env : Env) (p : Process) (pid key : Bytes) (keys : List Bytes) (s : State) {u : State}
    → add_key env p pid keys key s ≡ (ok tt, u)
    → (max : ℕ) × (p.max_census_size ≡ some max)
      × (u.rolling_census pid ≡ some (keys ++ key ∷ []))
      × (length (keys ++ key ∷ []) ≤ max)
unfolding add_key
add_key_inv env p pid key keys s h =
    let (max, bound) = some_of p.max_census_size (λ bad. ground arith) in
    let room : length keys < max = ground arith in
    (
      max,
      bound,
      ground (arith, bytes_eq_refl pid),
      omega (arith, length-append keys (key ∷ []), room),
    )

need_census_root_inv :
    (env : Env) (pid : Bytes) (s : State) {p : Process}
    → need_census_root env pid s ≡ (ok p, s)
    → process pid s ≡ (ok p, s)
unfolding need_census_root process
need_census_root_inv env pid s {p} h = ground arith

-- A key that `AddToRollingCensus` adds is the last of the census of the process, which then holds at
-- most as many keys as the stored process allows.
pub add_to_rolling_census_inv :
    (env : Env) (pid key : Bytes) (weight : ℤ) (s : State) {u : State}
    → add_to_rolling_census env pid key weight s ≡ (ok tt, u)
    → (keys : List Bytes) × (p : Process) × (max : ℕ) × (process pid s ≡ (ok p, s))
      × (p.max_census_size ≡ some max)
      × (s.rolling_census pid ≡ some keys)
      × (u.rolling_census pid ≡ some (keys ++ key ∷ []))
      × (length (keys ++ key ∷ []) ≤ max)
unfolding add_to_rolling_census
add_to_rolling_census_inv env pid key weight s {u} h =
    let with_keys = λ (p : Process) (keys : List Bytes). add_key env p pid keys key in
    let with_old =
      λ (p : Process) (old : Option (List Bytes)). or_raise old missing_field >>= with_keys p in
    let same = (need_census_root-Preserves {P = λ t. t ≡ s} env pid).run s refl in
    bind_inv (need_census_root env pid) (λ p. gets (λ x. x.rolling_census pid) >>= with_old p) s h
      (λ p t found h1.
        bind_inv (or_raise (t.rolling_census pid) missing_field) (with_keys p) t h1
          (λ keys t' stored h2.
            let (is_stored, kept) = or_raise_inv (t.rolling_census pid) missing_field t stored in
            let (max, bound, added, fits) = add_key_inv env p pid key keys t' h2 in
            let back : t ≡ s = sym (ap (λ x. x.1) found) ∙ same in
            (
              keys,
              p,
              max,
              need_census_root_inv env pid s (rw back at found),
              bound,
              rw back at is_stored,
              added,
              fits,
            )))
