-- ===== src/Database/Prefixed.antt =====
-- db/prefixeddb/prefixeddb.go: databases and transactions whose keys get a prefix. What is wrapped is
-- passed on by Go as an interface; a wrapper of a wrapper has one prefix.
use vocdoni.Base.{
  ==_refl, Bool, Bool-cases, Bytes, List, Option, [], ap, arith, bytes_eq, drop, false,
  if◌then◌else◌, inl, inr, length, refl, true, ◌&&◌, ◌++◌, ◌==◌, ◌∷◌, ◌≡◌,
}
use vocdoni.Crypto.Decimal.{value}
use vocdoni.Database.{Database, IsLawful}
use mathlib.Core.List.{append_assoc}

pub data Handle : Type 0 where
  plain : Handle
  prefixed : Bytes → Handle

-- `prefixSlice`
unfoldable pub prefix_slice : Bytes → Bytes → Bytes
prefix_slice prefix v = prefix ++ v

-- `NewPrefixedDatabase`, `NewPrefixedReadTx` and `NewPrefixedWriteTx`
unfoldable pub new_prefixed : Bytes → Handle → Handle
unfolding prefix_slice
new_prefixed prefix plain = prefixed prefix
new_prefixed prefix (prefixed p) = prefixed (prefix_slice p prefix)

unfoldable pub starts_with : Bytes → Bytes → Bool
starts_with [] key = true
starts_with (x ∷ xs) [] = false
starts_with (x ∷ xs) (y ∷ ys) = x == y && starts_with xs ys

-- `bytes.TrimPrefix`
unfoldable pub trim_prefix : Bytes → Bytes → Bytes
unfolding starts_with
trim_prefix key prefix = if starts_with prefix key then drop (length prefix) key else key

-- The keys as `Iterate` gives them to its callback.
unfoldable pub trimmed : Bytes → List (Bytes × Bytes) → List (Bytes × Bytes)
unfolding trim_prefix
trimmed prefix [] = []
trimmed prefix ((key, value) ∷ rest) = (trim_prefix key prefix, value) ∷ trimmed prefix rest

-- The key of the database below.
unfoldable pub full : Handle → Bytes → Bytes
unfolding prefix_slice
full plain key = key
full (prefixed p) key = prefix_slice p key

module _ (D : Database) where
  -- `Get`, `Set`, `Delete` and `Iterate` of a handle.
  unfoldable pub get_at : Handle → D.Data → Bytes → Option Bytes
  unfolding full
  get_at h stored key = D.get stored (full h key)

  unfoldable pub set_at : Handle → Bytes → Bytes → D.Data → D.Data
  unfolding full
  set_at h key given stored = D.set (full h key) given stored

  unfoldable pub delete_at : Handle → Bytes → D.Data → D.Data
  unfolding full
  delete_at h key stored = D.delete (full h key) stored

  unfoldable pub entries_at : Handle → Bytes → D.Data → List (Bytes × Bytes)
  unfolding prefix_slice trimmed
  entries_at plain q stored = D.entries q stored
  entries_at (prefixed p) q stored = trimmed p (D.entries (prefix_slice p q) stored)

-- The database that is seen through a handle.
unfoldable pub through : Database → Handle → Database
unfolding get_at set_at delete_at entries_at
through D h = record {
  Data = D.Data;
  get = λ s key. get_at D h s key;
  set = λ key given s. set_at D h key given s;
  delete = λ key s. delete_at D h key s;
  entries = λ q s. entries_at D h q s;
}

bytes_eq-append : (p j k : Bytes) → bytes_eq (p ++ j) (p ++ k) ≡ bytes_eq j k
unfolding bytes_eq
bytes_eq-append [] j k = refl
bytes_eq-append (x ∷ xs) j k = rw (==_refl x) (bytes_eq-append xs j k)

-- What is read, set and deleted through a handle keeps the promises of `Get`, `Set` and `Delete`, where
-- the database does.
pub through-IsLawful : (D : Database) (h : Handle) → IsLawful D → IsLawful (through D h)
unfolding through get_at set_at delete_at full prefix_slice
through-IsLawful D plain lawful = record {
  get-set = λ s key given j. lawful.get-set s key given j;
  get-delete = λ s key j. lawful.get-delete s key j;
}
through-IsLawful D (prefixed p) lawful = record {
  get-set = λ s key given j.
      rw (lawful.get-set s (p ++ key) given (p ++ j), bytes_eq-append p j key) refl;
  get-delete =
      λ s key j. rw (lawful.get-delete s (p ++ key) (p ++ j), bytes_eq-append p j key) refl;
}

-- Neither of two prefixes begins with the other.
abbrev pub AreApart : Bytes → Bytes → Type 0
AreApart p q = (starts_with p q ≡ false) × (starts_with q p ≡ false)

apart_keys : (p q j k : Bytes) → AreApart p q → bytes_eq (p ++ j) (q ++ k) ≡ false
unfolding bytes_eq starts_with
apart_keys [] q j k h = absurd (ground arith)
apart_keys (x ∷ xs) [] j k h = absurd (ground arith)
apart_keys (x ∷ xs) (y ∷ ys) j k (h, h') = elim (Bool-cases (x == y)) [
  | inl same ↦
      let back : (y == x) ≡ true = ground arith in
      rw same (apart_keys xs ys j k (rw same at h, rw back at h'))
  | inr differ ↦ rw differ refl
]

module _ (D : Database) (lawful : IsLawful D) where
  -- What is written or deleted through one prefix is not seen through another one, where neither begins
  -- with the other.
  pub apart_reads :
      (p q key given j : Bytes) (stored : D.Data)
      → AreApart q p
      → (get_at D (prefixed q) (set_at D (prefixed p) key given stored) j
          ≡ get_at D (prefixed q) stored j)
        × (get_at D (prefixed q) (delete_at D (prefixed p) key stored) j
            ≡ get_at D (prefixed q) stored j)
  unfolding get_at set_at delete_at full prefix_slice
  apart_reads p q key given j stored apart =
      let other = apart_keys q p j key apart in
      (
        rw (lawful.get-set stored (p ++ key) given (q ++ j), other) refl,
        rw (lawful.get-delete stored (p ++ key) (q ++ j), other) refl,
      )

module _ (D : Database) where
  -- A handle that is wrapped in a prefix reads, writes and deletes the keys with that prefix of the
  -- handle.
  pub wrapped_twice :
      (h : Handle) (p key given : Bytes) (stored : D.Data)
      → (get_at D (new_prefixed p h) stored key ≡ get_at D h stored (prefix_slice p key))
        × (set_at D (new_prefixed p h) key given stored
            ≡ set_at D h (prefix_slice p key) given stored)
        × (delete_at D (new_prefixed p h) key stored ≡ delete_at D h (prefix_slice p key) stored)
  unfolding get_at set_at delete_at full prefix_slice new_prefixed
  wrapped_twice plain p key given stored = (refl, refl, refl)
  wrapped_twice (prefixed q) p key given stored =
      let same = append_assoc q p key in
      (
        ap (λ (k : Bytes). D.get stored k) same,
        ap (λ (k : Bytes). D.set k given stored) same,
        ap (λ (k : Bytes). D.delete k stored) same,
      )
