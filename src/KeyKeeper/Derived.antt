-- ===== src/KeyKeeper/Derived.antt =====
-- The keys that a keeper has in its pool, and so publishes, are those that it reveals later.
use vocdoni.Base.{
  Bool, Bytes, List, Option, [], ap, arith, bytes_eq, eq_of_bytes_eq, false, if◌then◌else◌, refl,
  some, sym, true, ◌∙◌, ◌∷◌, ◌≡◌,
}
use vocdoni.Action.{some_inj}
use vocdoni.Database.{Database}
use vocdoni.KeyKeeper.{Keeper, Node, ProcessKeys, generate_keys, pool_get, pool_put}
use vocdoni.KeyKeeper.Kept.{IsKept}

module _ (node : Node) where
  -- Each pooled key is the one that the keeper makes for the process.
  unfoldable pub IsDerived : List (Bytes × Option ProcessKeys) → Type 0
  IsDerived [] = Unit
  IsDerived ((pid, keys) ∷ rest) = (keys ≡ generate_keys node pid) × IsDerived rest

  pub pool_put-IsDerived :
      (pid : Bytes) (pool : List (Bytes × Option ProcessKeys))
      → IsDerived pool
      → IsDerived (pool_put pid (generate_keys node pid) pool)
  unfolding pool_put IsDerived
  pool_put-IsDerived pid [] h = (refl, tt)
  pool_put-IsDerived pid ((key, keys) ∷ rest) (h, hs) =
      by_test (bytes_eq pid key) refl (pool_put-IsDerived pid rest hs)
    where
      by_test :
          (b : Bool)
          → bytes_eq pid key ≡ b
          → IsDerived (pool_put pid (generate_keys node pid) rest)
          → IsDerived (
              if b
              then (key, generate_keys node pid) ∷ rest
              else (key, keys) ∷ pool_put pid (generate_keys node pid) rest)
      by_test true e later = (ap (generate_keys node) (eq_of_bytes_eq pid key e), hs)
      by_test false e later = (h, later)

  pub pool_get-IsDerived :
      (pid : Bytes) (pool : List (Bytes × Option ProcessKeys)) {keys : Option ProcessKeys}
      → IsDerived pool
      → pool_get pid pool ≡ some keys
      → keys ≡ generate_keys node pid
  unfolding pool_get IsDerived
  pool_get-IsDerived pid [] h e = absurd (ground arith)
  pool_get-IsDerived pid ((key, pooled) ∷ rest) {keys} (h, hs) e =
      by_test (bytes_eq pid key) refl e (pool_get-IsDerived pid rest hs)
    where
      by_test :
          (b : Bool)
          → bytes_eq pid key ≡ b
          → (if b then some pooled else pool_get pid rest) ≡ some keys
          → (pool_get pid rest ≡ some keys → keys ≡ generate_keys node pid)
          → keys ≡ generate_keys node pid
      by_test true same e later =
          sym (some_inj e) ∙ h ∙ ap (generate_keys node) (sym (eq_of_bytes_eq pid key same))
      by_test false same e later = later e

module _ (D : Database) (node : Node) where
  -- The pool of keys holds derived keys.
  unfoldable pub HasDerived : Keeper D → Type 0
  HasDerived k = IsDerived node k.key_pool

  pub HasDerived-IsKept : IsKept D node HasDerived
  unfolding HasDerived
  HasDerived-IsKept = record {
    sends = λ k tx h. h;
    stores = λ k pid value h. h;
    forgets = λ k pid h. h;
    pools = λ k pid h. pool_put-IsDerived node pid k.key_pool h;
    schedules = λ k pid height h. h;
  }
