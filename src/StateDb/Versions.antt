-- ===== src/StateDb/Versions.antt =====
-- The versions of the state database: what a commit writes and leaves.
use vocdoni.Base.{
  Bool-cases, Bytes, Option, ap, arith, bytes_eq, bytes_eq_refl, bytes_eq_sym, eq_of_bytes_eq,
  false, if◌then◌else◌, inl, inr, none, refl, replicate, some, sym, u32_mod, ℕ, ◌<◌, ◌==◌, ◌∙◌, ◌≡◌,
  ◌≢◌,
}
use vocdoni.Action.{Result, err, key_not_found, ok, ok_inj}
use vocdoni.Database.{Database, IsLawful}
use vocdoni.Database.Prefixed.{get_at, set_at, through, through-IsLawful}
use vocdoni.Ledger.{little_endian}
use vocdoni.StateDb.{
  commit_version, get_root, get_version, get_version_root, key_cur_version, meta_handle,
  set_version_root, u32_to_bytes,
}
use vocdoni.StateDb.Words.{little_endian_inj, power256, read_word-little_endian}
use mathlib.Core.Path.{subst}

-- A version is four bytes, and the key of the current version is not one.
module _ (D : Database) (lawful : IsLawful D) where
  meta_lawful : IsLawful (through D (meta_handle D))
  meta_lawful = through-IsLawful D (meta_handle D) lawful

  get_set :
      (key given j : Bytes) (stored : D.Data)
      → get_at D (meta_handle D) (set_at D (meta_handle D) key given stored) j
        ≡ (if bytes_eq j key then some given else get_at D (meta_handle D) stored j)
  unfolding through
  get_set key given j stored = meta_lawful.get-set stored key given j

  current_differs : (v : ℕ) → bytes_eq key_cur_version (u32_to_bytes v) ≡ false
  unfolding bytes_eq u32_to_bytes little_endian
  current_differs v = ground arith

  versions_differ :
      (v w : ℕ)
      → v < u32_mod
      → w < u32_mod
      → v ≢ w
      → bytes_eq (u32_to_bytes v) (u32_to_bytes w) ≡ false
  unfolding u32_to_bytes power256
  versions_differ v w h h' differ = elim (Bool-cases (bytes_eq (u32_to_bytes v) (u32_to_bytes w))) [
    | inl same ↦ absurd (
        differ
          (little_endian_inj 4 v w h h' (eq_of_bytes_eq (u32_to_bytes v) (u32_to_bytes w) same)))
    | inr other ↦ other
  ]

  -- The version keys after a version was set.
  read_meta :
      (v : ℕ) (root j : Bytes) (stored : D.Data)
      → get_at D (meta_handle D) (set_version_root D v root stored) j ≡ (
          if bytes_eq j key_cur_version
          then some (u32_to_bytes v)
          else if bytes_eq j (u32_to_bytes v)
          then some root
          else get_at D (meta_handle D) stored j)
  unfolding set_version_root
  read_meta v root j stored =
      get_set key_cur_version (u32_to_bytes v) j
        (set_at D (meta_handle D) (u32_to_bytes v) root stored)
      ∙ ap (λ (o : Option Bytes). if bytes_eq j key_cur_version then some (u32_to_bytes v) else o)
          (get_set (u32_to_bytes v) root j stored)

  abbrev root_of : ℕ → Option Bytes → Result Bytes
  root_of version none = if version == 0 then ok (replicate 32 0) else err key_not_found
  root_of version (some root) = ok root

  get_version_root_lem :
      (w : ℕ) (stored : D.Data)
      → get_version_root D stored w ≡ root_of w (get_at D (meta_handle D) stored (u32_to_bytes w))
  unfolding get_version_root
  get_version_root_lem w stored = by_value (get_at D (meta_handle D) stored (u32_to_bytes w)) refl
    where
      by_value :
          (o : Option Bytes)
          → get_at D (meta_handle D) stored (u32_to_bytes w) ≡ o
          → get_version_root D stored w
            ≡ root_of w (get_at D (meta_handle D) stored (u32_to_bytes w))
      by_value none e = rw (get_version_root, e) refl
      by_value (some root) e = rw (get_version_root, e) refl

  -- The version that is set has its root.
  set_root :
      (v : ℕ) (root : Bytes) (stored : D.Data)
      → get_version_root D (set_version_root D v root stored) v ≡ ok root
  set_root v root stored =
      let key = u32_to_bytes v in
      let not_current = bytes_eq_sym key_cur_version key (current_differs v) in
      let found : get_at D (meta_handle D) (set_version_root D v root stored) key ≡ some root =
        read_meta v root key stored ∙ rw (not_current, bytes_eq_refl key) refl in
      get_version_root_lem v (set_version_root D v root stored) ∙ ap (root_of v) found

  -- The others keep theirs.
  other_root :
      (v w : ℕ) (root : Bytes) (stored : D.Data)
      → v < u32_mod
      → w < u32_mod
      → w ≢ v
      → get_version_root D (set_version_root D v root stored) w ≡ get_version_root D stored w
  other_root v w root stored h h' differ =
      let key = u32_to_bytes w in
      let not_current = bytes_eq_sym key_cur_version key (current_differs w) in
      let other = versions_differ w v h' h differ in
      get_version_root_lem w (set_version_root D v root stored)
      ∙ ap (root_of w) (read_meta v root key stored ∙ rw (not_current, other) refl)
      ∙ sym (get_version_root_lem w stored)

  set_current :
      (v : ℕ) (root : Bytes) (stored : D.Data)
      → v < u32_mod
      → get_version D (set_version_root D v root stored) ≡ ok v
  unfolding get_version u32_to_bytes power256
  set_current v root stored h =
      let found : get_at D (meta_handle D) (set_version_root D v root stored) key_cur_version
          ≡ some (u32_to_bytes v) =
        read_meta v root key_cur_version stored ∙ rw (bytes_eq_refl key_cur_version) refl in
      rw (get_version, found) (read_word-little_endian 4 v h)

  -- What a commit of a root leaves.
  pub HasRoot : ℕ → Bytes → D.Data → D.Data → Type 0
  HasRoot v root stored after =
      (get_version D after ≡ ok v)
      × (get_root D after ≡ ok root)
      × ((w : ℕ) → w < u32_mod → w ≢ v → get_version_root D after w ≡ get_version_root D stored w)

  set_version_root-HasRoot :
      (v : ℕ) (root : Bytes) (stored : D.Data)
      → v < u32_mod
      → HasRoot v root stored (set_version_root D v root stored)
  unfolding HasRoot get_root
  set_version_root-HasRoot v root stored h =
      let current = set_current v root stored h in
      (
        current,
        rw (get_root, current) (set_root v root stored),
        λ w h' differ. other_root v w root stored h h' differ,
      )

  -- A commit of a root that was propagated, with a version of 32 bits: where it gives no error, the
  -- version is the current one, the hash is the root, and the other versions have their roots as before.
  pub commit_root-HasRoot :
      (root : Bytes) (v : ℕ) (stored : D.Data) {after : D.Data}
      → v < u32_mod
      → commit_version D (some root) v stored ≡ ok after
      → HasRoot v root stored after
  unfolding commit_version
  commit_root-HasRoot root v stored {after} h done = by_version (get_version D stored) done
    where
      by_version :
          (r : Result ℕ)
          → (elim r as (λ _. Result D.Data) [
            | err e ↦ err e
            | ok current ↦ ok (set_version_root D v root stored)
          ])
            ≡ ok after
          → HasRoot v root stored after
      by_version (err e) made = absurd (ground arith)
      by_version (ok current) made =
          subst (HasRoot v root stored) (ok_inj made) (set_version_root-HasRoot v root stored h)

  -- A commit where nothing was written, with a version of 32 bits: where it gives no error, the version
  -- is the current one, the hash is the one from before, and the other versions have their roots as
  -- before.
  pub commit_none-HasRoot :
      (v : ℕ) (stored : D.Data) {after : D.Data}
      → v < u32_mod
      → commit_version D none v stored ≡ ok after
      → (root : Bytes) × (get_root D stored ≡ ok root) × HasRoot v root stored after
  unfolding commit_version get_root
  commit_none-HasRoot v stored {after} h done = by_version (get_version D stored) refl done
    where
      by_root :
          (r : Result Bytes)
          → get_root D stored ≡ r
          → (elim r as (λ _. Result D.Data) [
            | err e ↦ err e
            | ok root ↦ ok (set_version_root D v root stored)
          ])
            ≡ ok after
          → (root : Bytes) × (get_root D stored ≡ ok root) × HasRoot v root stored after
      by_root (err e) is_root made = absurd (ground arith)
      by_root (ok root) is_root made = (
        root,
        is_root,
        subst (HasRoot v root stored) (ok_inj made) (set_version_root-HasRoot v root stored h),
      )

      by_version :
          (r : Result ℕ)
          → get_version D stored ≡ r
          → (elim r as (λ _. Result D.Data) [
            | err e ↦ err e
            | ok current ↦ elim (get_version_root D stored current) as (λ _. Result D.Data) [
              | err e ↦ err e
              | ok root ↦ ok (set_version_root D v root stored)
            ]
          ])
            ≡ ok after
          → (root : Bytes) × (get_root D stored ≡ ok root) × HasRoot v root stored after
      by_version (err e) is_version made = absurd (ground arith)
      by_version (ok current) is_version made =
          by_root (get_version_root D stored current) (rw (get_root, is_version) refl) made
