-- ===== src/StateDb.antt =====
-- statedb/statedb.go, statedb/treeupdate.go and statedb/utils.go: the versions of the state database,
-- each with the root of its main tree, in the transaction's keys that begin with `m/v/`.
pub mod Versions
pub mod Words
pub mod Trees
pub mod Clean
pub mod Closing
pub mod Groups
pub mod Leaves
use vocdoni.Base.{
  Bytes, Option, [], if◌then◌else◌, length, ltb, none, replicate, set, some, suc, zero, ℕ, ◌*◌,
  ◌++◌, ◌+◌, ◌==◌, ◌∷◌,
}
use vocdoni.Action.{Result, err, key_not_found, ok, panic}
use vocdoni.Database.{Database}
use vocdoni.Database.Prefixed.{Handle, get_at, new_prefixed, plain, set_at}
use vocdoni.Ledger.{little_endian}
use vocdoni.State.Faucet.{stored}

-- `binary.LittleEndian`, read
unfoldable pub read_little_endian : ℕ → Bytes → ℕ
read_little_endian zero b = 0
read_little_endian (suc k) [] = 0
read_little_endian (suc k) (x ∷ xs) = let rest = read_little_endian k xs in x + 256 * rest

-- A word of some bytes; fewer are an index out of range.
unfoldable pub read_word : ℕ → Bytes → Result ℕ
unfolding read_little_endian
read_word size b = if ltb (length b) size then err panic else ok (read_little_endian size b)

-- `uint32ToBytes`
unfoldable pub u32_to_bytes : ℕ → Bytes
unfolding little_endian
u32_to_bytes v = little_endian 4 v

-- `subDB`, `subWriteTx` and `subReadTx`: the path and a slash
unfoldable pub sub_handle : Bytes → Handle → Handle
unfolding new_prefixed
sub_handle path h = new_prefixed (path ++ 47 ∷ []) h

-- `subKeyTree`, `subKeyNoState`, `subKeySubTree`, and `subKeyMeta` with `pathVersion`
abbrev pub sub_key_tree : Bytes
sub_key_tree = 116 ∷ []

abbrev pub sub_key_no_state : Bytes
sub_key_no_state = 110 ∷ []

abbrev pub sub_key_sub_tree : Bytes
sub_key_sub_tree = 115 ∷ []

abbrev pub meta_path : Bytes
meta_path = 109 ∷ 47 ∷ 118 ∷ []

-- `current`
abbrev pub key_cur_version : Bytes
key_cur_version = 99 ∷ 117 ∷ 114 ∷ 114 ∷ 101 ∷ 110 ∷ 116 ∷ []

module _ (D : Database) where
  -- `SetUint64` and `GetUint64`
  unfoldable pub set_uint64 : Bytes → ℕ → D.Data → D.Data
  unfolding little_endian
  set_uint64 key n stored = D.set key (little_endian 8 n) stored

  unfoldable pub get_uint64 : Bytes → D.Data → Result ℕ
  unfolding read_word
  get_uint64 key stored = elim (D.get stored key) [
    | none ↦ err key_not_found
    | some b ↦ read_word 8 b
  ]

  -- The handle of the versions.
  unfoldable pub meta_handle : Handle
  unfolding sub_handle
  meta_handle = sub_handle meta_path plain

  -- `setVersionRoot`
  unfoldable pub set_version_root : ℕ → Bytes → D.Data → D.Data
  unfolding set_at u32_to_bytes meta_handle
  set_version_root version root stored =
      set_at D meta_handle key_cur_version (u32_to_bytes version)
        (set_at D meta_handle (u32_to_bytes version) root stored)

  -- `getVersion`: zero where there is none
  unfoldable pub get_version : D.Data → Result ℕ
  unfolding get_at read_word meta_handle
  get_version stored = elim (get_at D meta_handle stored key_cur_version) [
    | none ↦ ok 0
    | some b ↦ read_word 4 b
  ]

  -- `getVersionRoot`: version zero is the empty tree where it was not written; a hash has 32 bytes
  unfoldable pub get_version_root : D.Data → ℕ → Result Bytes
  unfolding get_at u32_to_bytes meta_handle
  get_version_root stored version = elim (get_at D meta_handle stored (u32_to_bytes version)) [
    | none ↦ if version == 0 then ok (replicate 32 0) else err key_not_found
    | some root ↦ ok root
  ]

  -- `getRoot`, which is `Hash`
  unfoldable pub get_root : D.Data → Result Bytes
  unfolding get_version get_version_root
  get_root stored = elim (get_version stored) [
    | err e ↦ err e
    | ok version ↦ get_version_root stored version
  ]

  -- `TreeTx.Commit` after `propagateRoot`, whose root is nil where nothing was written.
  unfoldable pub commit_version : Option Bytes → ℕ → D.Data → Result D.Data
  unfolding get_root set_version_root
  commit_version (some root) version stored = elim (get_version stored) [
    | err e ↦ err e
    | ok current ↦ ok (set_version_root version root stored)
  ]
  commit_version none version stored = elim (get_version stored) [
    | err e ↦ err e
    | ok current ↦ elim (get_version_root stored current) [
      | err e ↦ err e
      | ok root ↦ ok (set_version_root version root stored)
    ]
  ]
