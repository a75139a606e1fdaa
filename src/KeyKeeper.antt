-- ===== src/KeyKeeper.antt =====
-- vochain/keykeeper/keykeeper.go: the keeper of an encryption key of each process. Two pools, of
-- what the current block asks for, and a storage of keys and of process ids by block. The pools
-- are lists in the order in which Go ranges over the maps. Errors of the disk are not modelled.
pub mod Codec
pub mod Sending
pub mod Handlers
pub mod Recovery
pub mod Schedule
pub mod Reveal
pub mod Liveness
pub mod Steps
pub mod Kept
pub mod Invariant
pub mod Derived
pub mod Waiting
pub mod Pairs
use vocdoni.Base.{
  Bool, Bytes, List, Option, [], bytes_eq, drop, get_or, if◌then◌else◌, length, ltb, negsuc, none,
  not, pos, replicate, set, some, suc, take, ℕ, ℤ, ◌%◌, ◌*◌, ◌++◌, ◌+◌, ◌-◌, ◌==◌, ◌∷◌,
}
use vocdoni.Action.{Result, err, malformed, ok}
use vocdoni.Database.{Database}
use vocdoni.State.Faucet.{stored}
use vocdoni.Tx.{AdminTx}

pub record ProcessKeys : Type 0 where
  pub pub_key : Bytes
  pub priv_key : Bytes
  pub index : ℤ

-- The signer, its index, and the calls of Go's standard library, protobuf, go-ethereum and
-- tendermint.
pub record Node : Type 0 where
  -- `SignKeys.Private.D.Bytes()` and the index of the keeper, an `int8`
  pub secret : Bytes
  pub my_index : ℤ
  pub keccak : Bytes → Bytes
  -- `curve25519.X25519` of a key and the base point
  pub x25519_base : Bytes → Option Bytes
  -- the bytes of a list of process ids, and what is read back, with whether that gives no error
  pub marshal_pids : List Bytes → Option Bytes
  pub unmarshal_pids : Bytes → List Bytes × Bool
  -- `proto.Marshal` of a transaction and, with its signature, of the signed one
  pub marshal_admin : AdminTx → Option Bytes
  pub sign_tx : Bytes → Option Bytes
  pub marshal_signed : Bytes → Bytes → Option Bytes
  -- after what was sent before: a random nonce, and the code that `SendTx` returns
  pub random : List Bytes → ℕ
  pub send_tx : List Bytes → Bytes → Option ℕ
  -- `strconv.ParseInt`
  pub parse_int : Bytes → Option ℤ

pub record Keeper (D : Database) : Type 0 where
  pub storage : D.Data
  pub key_pool : List (Bytes × Option ProcessKeys)
  pub block_pool : List (Bytes × ℕ)
  -- what was handed to `SendTx`
  pub sent : List Bytes

abbrev pub encryption_key_size : ℕ
encryption_key_size = 32

-- `p_` and `b_`
abbrev pub db_prefix_process : Bytes
db_prefix_process = 112 ∷ 95 ∷ []

abbrev pub db_prefix_block : Bytes
db_prefix_block = 98 ∷ 95 ∷ []

-- `byte(i)` of an `int8` and `int8(b)` of a byte
unfoldable pub byte_of : ℤ → ℕ
byte_of (pos n) = n % 256
byte_of (negsuc n) = 255 - n % 256

unfoldable pub int8_of : ℕ → ℤ
int8_of b = if ltb b 128 then pos b else negsuc (255 - b)

-- `uint32(i)` of an `int8`
unfoldable pub u32_of : ℤ → ℕ
u32_of (pos n) = n
u32_of (negsuc n) = 4294967295 - n

-- `copy(data[i:], src)`
unfoldable pub copy_at : ℕ → Bytes → Bytes → Bytes
copy_at i [] stored = stored
copy_at i (x ∷ xs) stored = let rest = copy_at (suc i) xs (set stored i x) in rest

-- `processKeys.Encode`
unfoldable pub encode : ProcessKeys → Bytes
unfolding copy_at byte_of
encode keys =
    let stored = copy_at 0 keys.pub_key (replicate (encryption_key_size * 2 + 1) 0) in
    let both = copy_at encryption_key_size keys.priv_key stored in
    set both (encryption_key_size * 2) (byte_of keys.index)

-- `processKeys.Decode`
unfoldable pub decode : Bytes → Result ProcessKeys
unfolding int8_of
decode stored =
    if ltb (length stored) (encryption_key_size * 2 + 1)
    then err malformed
    else ok (record {
      pub_key = take encryption_key_size stored;
      priv_key = take encryption_key_size (drop encryption_key_size stored);
      index = int8_of (get_or stored (encryption_key_size * 2) 0);
    })

-- Reading and writing a pool, `map[string]…`.
unfoldable pub pool_get : {V : Type 0} → Bytes → List (Bytes × V) → Option V
pool_get pid [] = none
pool_get pid ((key, v) ∷ rest) = if bytes_eq pid key then some v else pool_get pid rest

unfoldable pub pool_put : {V : Type 0} → Bytes → V → List (Bytes × V) → List (Bytes × V)
pool_put pid v [] = (pid, v) ∷ []
pool_put pid v ((key, w) ∷ rest) =
    if bytes_eq pid key then (key, v) ∷ rest else (key, w) ∷ pool_put pid v rest

-- `keys[k.myIndex]`, out of range below 0 and from the length on.
unfoldable pub at_index : List Bytes → ℤ → Option Bytes
at_index keys (pos i) = if ltb i (length keys) then some (get_or keys i []) else none
at_index keys (negsuc i) = none

module _ (node : Node) where
  -- `generateKeys`, with `DecodePrivate` of the hash's hexadecimal form.
  unfoldable pub generate_keys : Bytes → Option ProcessKeys
  unfolding byte_of
  generate_keys pid =
      let priv = node.keccak (node.secret ++ (pid ++ byte_of node.my_index ∷ [])) in
      if not (length priv == encryption_key_size) then none else elim (node.x25519_base priv) [
        | none ↦ none
        | some key ↦ some (record {
          pub_key = copy_at 0 (take encryption_key_size key) (replicate encryption_key_size 0);
          priv_key = priv;
          index = node.my_index;
        })
      ]
