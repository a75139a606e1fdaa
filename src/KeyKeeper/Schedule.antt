-- ===== src/KeyKeeper/Schedule.antt =====
-- The storage of the keeper: a process that is put on the list of a block stays there.
use vocdoni.Base.{
  Bool, Bool-cases, Bytes, List, Option, [], ap, bytes_eq, bytes_eq_refl, eq_of_bytes_eq, false,
  inl, inr, none, refl, some, sym, true, ℕ, ◌++◌, ◌∙◌, ◌∷◌, ◌≡◌,
}
use vocdoni.Crypto.{decimal}
use vocdoni.Database.{Database, IsLawful}
use vocdoni.KeyKeeper.{Node, db_prefix_block}
use vocdoni.KeyKeeper.Handlers.{schedule_all, schedule_one, scheduled_at}
use vocdoni.State.Faucet.{stored}
use mathlib.Core.List.{Memᴰ}
use mathlib.Core.List.Memᴰ
use mathlib.Core.Path.{subst}

-- What protobuf promises of a list of process ids.
pub record PidCodec (node : Node) : Type 0 where
  pub total : (pids : List Bytes) → (stored : Bytes) × (node.marshal_pids pids ≡ some stored)
  pub back :
      (pids : List Bytes) {stored : Bytes}
      → node.marshal_pids pids ≡ some stored
      → node.unmarshal_pids stored ≡ (pids, true)

-- The key of the list of a block.
abbrev pub block_key : ℕ → Bytes
block_key height = db_prefix_block ++ decimal height

-- A process stands on the list of a block.
unfoldable pub IsListed : (D : Database) → Node → Bytes → ℕ → D.Data → Type 0
IsListed D node pid height storage =
    (stored : Bytes) × (pids : List Bytes) × (D.get storage (block_key height) ≡ some stored)
    × (node.unmarshal_pids stored ≡ (pids, true))
    × Memᴰ pid pids

module _ (D : Database) (node : Node) (lawful : IsLawful D) (codec : PidCodec node) where
  get-set_self :
      (key value : Bytes) (storage : D.Data) → D.get (D.set key value storage) key ≡ some value
  get-set_self key value storage = rw (lawful.get-set storage key value key, bytes_eq_refl key)

  schedule_one_lem :
      (pid : Bytes) (height : ℕ) (storage : D.Data)
      → (stored : Bytes) × (schedule_one D node pid height storage
          ≡ D.set (block_key height) stored storage)
        × (node.unmarshal_pids stored ≡ (scheduled_at D node storage height ++ pid ∷ [], true))
  unfolding schedule_one
  schedule_one_lem pid height storage =
      let pids = scheduled_at D node storage height ++ pid ∷ [] in
      let (stored, written) = codec.total pids in
      (
        stored,
        ap
            (λ (o : Option Bytes). elim o as (λ _. D.Data) [
              | none ↦ storage
              | some x ↦ D.set (block_key height) x storage
            ])
            written,
        codec.back pids written,
      )

  -- The process that is scheduled is on the list.
  schedule_one-IsListed :
      (pid : Bytes) (height : ℕ) (storage : D.Data)
      → IsListed D node pid height (schedule_one D node pid height storage)
  unfolding IsListed
  schedule_one-IsListed pid height storage =
      let old = scheduled_at D node storage height in
      let (stored, written, readable) = schedule_one_lem pid height storage in
      (
        stored,
        old ++ pid ∷ [],
        ap (λ (s : D.Data). D.get s (block_key height)) written
            ∙ get-set_self (block_key height) stored storage,
        readable,
        Memᴰ.append_right old (Memᴰ.head refl),
      )

  -- A write at another key.
  pub set-IsListed :
      (pid : Bytes) (height : ℕ) (key value : Bytes) (storage : D.Data)
      → bytes_eq (block_key height) key ≡ false
      → IsListed D node pid height storage
      → IsListed D node pid height (D.set key value storage)
  unfolding IsListed
  set-IsListed pid height key value storage other (stored, pids, found, readable, m) = (
    stored,
    pids,
    rw (lawful.get-set storage key value (block_key height), other, found),
    readable,
    m,
  )

  pub delete-IsListed :
      (pid : Bytes) (height : ℕ) (key : Bytes) (storage : D.Data)
      → bytes_eq (block_key height) key ≡ false
      → IsListed D node pid height storage
      → IsListed D node pid height (D.delete key storage)
  unfolding IsListed
  delete-IsListed pid height key storage other (stored, pids, found, readable, m) = (
    stored,
    pids,
    rw (lawful.get-delete storage key (block_key height), other, found),
    readable,
    m,
  )

  scheduled_at_lem :
      (height : ℕ) (storage : D.Data) {stored : Bytes} {pids : List Bytes}
      → D.get storage (block_key height) ≡ some stored
      → node.unmarshal_pids stored ≡ (pids, true)
      → scheduled_at D node storage height ≡ pids
  unfolding scheduled_at
  scheduled_at_lem height storage found readable =
      ap
        (λ (o : Option Bytes). elim o as (λ _. List Bytes) [
          | none ↦ []
          | some x ↦ (node.unmarshal_pids x).0
        ])
        found
      ∙ ap (λ (x : List Bytes × Bool). x.0) readable

  -- A process that is scheduled, for this block or another, leaves the list as it was or longer.
  schedule_one-keeps :
      (pid q : Bytes) (height other : ℕ) (storage : D.Data)
      → IsListed D node pid height storage
      → IsListed D node pid height (schedule_one D node q other storage)
  unfolding IsListed
  schedule_one-keeps pid q height other storage (stored, pids, found, readable, m) =
      let (new, written, new_readable) = schedule_one_lem q other storage in
      elim (Bool-cases (bytes_eq (block_key height) (block_key other))) [
        | inl same ↦
            let e = eq_of_bytes_eq (block_key height) (block_key other) same in
            let old : scheduled_at D node storage other ≡ pids =
              scheduled_at_lem other storage (ap (D.get storage) (sym e) ∙ found) readable in
            (
              new,
              pids ++ q ∷ [],
              ap (λ (s : D.Data). D.get s (block_key height)) written
                  ∙ ap (D.get (D.set (block_key other) new storage)) e
                  ∙ get-set_self (block_key other) new storage,
              new_readable ∙ ap (λ (l : List Bytes). (l ++ q ∷ [], true)) old,
              Memᴰ.append_left (q ∷ []) m,
            )
        | inr different ↦ subst (IsListed D node pid height) (sym written) (
            set-IsListed pid height (block_key other) new storage different
              (stored, pids, found, readable, m))
      ]

  pub schedule_all-keeps :
      (pid : Bytes) (height : ℕ) (pool : List (Bytes × ℕ)) (storage : D.Data)
      → IsListed D node pid height storage
      → IsListed D node pid height (schedule_all D node pool storage)
  unfolding schedule_all
  schedule_all-keeps pid height [] storage h = h
  schedule_all-keeps pid height ((q, other) ∷ rest) storage h =
      schedule_all-keeps pid height rest (schedule_one D node q other storage)
        (schedule_one-keeps pid q height other storage h)

  -- Each process of the pool is put on the list of its block.
  pub schedule_all-IsListed :
      (pid : Bytes) (height : ℕ) (pool : List (Bytes × ℕ)) (storage : D.Data)
      → Memᴰ (pid, height) pool
      → IsListed D node pid height (schedule_all D node pool storage)
  unfolding schedule_all
  schedule_all-IsListed pid height _ storage (Memᴰ.head {x = (q, other)} {xs = rest} e) =
      let next_storage = schedule_one D node q other storage in
      schedule_all-keeps pid height rest next_storage (
        subst (λ (x : Bytes × ℕ). IsListed D node x.0 x.1 next_storage) (sym e)
          (schedule_one-IsListed q other storage))
  schedule_all-IsListed pid height _ storage (Memᴰ.tail {x = (q, other)} {xs = rest} m) =
      schedule_all-IsListed pid height rest (schedule_one D node q other storage) m
