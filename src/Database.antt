-- ===== src/Database.antt =====
-- db/interface.go: a key-value database and its transactions. The
-- code calls badger, so the operations are fields. `none` is `ErrKeyNotFound`.
pub mod Prefixed
use vocdoni.Base.{Bytes, List, Option, bytes_eq, if◌then◌else◌, none, some, ◌≡◌}

pub record Database : Type 1 where
  pub Data : Type 0
  pub get : Data → Bytes → Option Bytes
  pub set : Bytes → Bytes → Data → Data
  pub delete : Bytes → Data → Data
  -- the keys with a prefix and their values, in the order of `Iterate`
  pub entries : Bytes → Data → List (Bytes × Bytes)

-- What `Get`, `Set` and `Delete` of a transaction promise. The promise of `Iterate` is not part of it:
-- badger gives the callback whole keys and pebble gives them without the prefix.
pub record IsLawful (D : Database) : Type 0 where
  pub get-set :
      (stored : D.Data) (key value j : Bytes)
      → D.get (D.set key value stored) j ≡ (if bytes_eq j key then some value else D.get stored j)
  pub get-delete :
      (stored : D.Data) (key j : Bytes)
      → D.get (D.delete key stored) j ≡ (if bytes_eq j key then none else D.get stored j)
