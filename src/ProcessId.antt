-- ===== src/ProcessId.antt =====
-- vochain/process_id.go: the 32 bytes of a process id, and the byte that encodes an envelope type.
use vocdoni.Base.{
  Bool, Bytes, Option, [], drop, false, get_or, if◌then◌else◌, length, ltb, none, not, some, take,
  true, ℕ, ◌%◌, ◌*◌, ◌++◌, ◌+◌, ◌/◌, ◌==◌, ◌||◌, ◌∷◌,
}
use vocdoni.Account.{Address}
use vocdoni.Action.{Result, bad_process, err, lift, ok, or_raise, panic, pure, ◌>>=◌, ◌>>◌}
use vocdoni.Crypto.{Env}
use vocdoni.Models.{EnvelopeType, Process}
use vocdoni.Processes.{hex}
use vocdoni.State.{Run, get_account}
use Prim.Native.Nat.{bit_or, bit_and}
pub mod RoundTrip

pub record ProcessId : Type 0 where
  pub chain_id : Bytes
  pub organization_addr : Address
  pub census_origin : ℕ
  pub env_type : ℕ
  pub nonce : ℕ

-- `binary.BigEndian.PutUint32` and `Uint32`
unfoldable pub big_endian32 : ℕ → Bytes
big_endian32 n = (n / 16777216 % 256) ∷ (n / 65536 % 256) ∷ (n / 256 % 256) ∷ (n % 256) ∷ []

unfoldable pub read_big_endian32 : Bytes → ℕ
read_big_endian32 b =
    get_or b 0 0 * 16777216 + get_or b 1 0 * 65536 + get_or b 2 0 * 256 + get_or b 3 0

-- `ProcessesContractMaxEnvelopeType`
abbrev pub max_envelope_type : ℕ
max_envelope_type = 31

module _ (env : Env) where
  -- `ProcessID.Marshal`
  unfoldable pub marshal : ProcessId → Bytes
  unfolding big_endian32
  marshal p =
      take 6 (env.keccak p.chain_id)
      ++ (take 20 (env.address_bytes p.organization_addr)
          ++ ((p.census_origin % 256) ∷ (p.env_type % 256) ∷ big_endian32 p.nonce))

  -- `ProcessID.Unmarshal`; `pid[a:b]` is `take (b - a) (drop a pid)`.
  unfoldable pub unmarshal : Bytes → Result ProcessId
  unfolding read_big_endian32 hex
  unmarshal pid =
      if not (length pid == 32)
      then err bad_process
      else if get_or pid 26 0 == 0
      then err bad_process
      else if ltb max_envelope_type (get_or pid 27 0)
      then err bad_process
      else ok (record {
        chain_id = hex (take 4 pid);
        organization_addr = env.bytes_to_address (take 20 (drop 6 pid));
        census_origin = get_or pid 26 0;
        env_type = get_or pid 27 0;
        nonce = read_big_endian32 (drop 28 pid);
      })

-- `SetCensusOrigin`, of the number of an origin.
unfoldable pub set_census_origin : ℕ → ProcessId → Result ProcessId
set_census_origin origin p =
    if origin == 0 || ltb 255 origin
    then err bad_process
    else ok (record p { census_origin = origin })

-- `if b { envType |= mask }`
abbrev pub add_flag : Bool → ℕ → ℕ → ℕ
add_flag true mask t = bit_or t mask
add_flag false mask t = t

-- The byte that `SetEnvelopeType` computes.
unfoldable pub envelope_code : EnvelopeType → ℕ
envelope_code et = add_flag et.cost_from_weight 0b00010000 (
    add_flag et.unique_values 0b00001000 (
      add_flag et.encrypted_votes 0b00000100
        (add_flag et.anonymous 0b00000010 (add_flag et.serial 0b00000001 0))))

-- `SetEnvelopeType`
unfoldable pub set_envelope_type : Option EnvelopeType → ProcessId → Result ProcessId
unfolding envelope_code
set_envelope_type none p = err bad_process
set_envelope_type (some et) p = ok (record p { env_type = envelope_code et })

-- `ProcessID.EnvelopeType`
unfoldable pub envelope_type : ProcessId → EnvelopeType
envelope_type p = record {
  serial = ltb 0 (bit_and p.env_type 0b00000001);
  anonymous = ltb 0 (bit_and p.env_type 0b00000010);
  encrypted_votes = ltb 0 (bit_and p.env_type 0b00000100);
  unique_values = ltb 0 (bit_and p.env_type 0b00001000);
  cost_from_weight = ltb 0 (bit_and p.env_type 0b00010000);
}

-- `BuildProcessID` of a process for the account of its entity; a missing account is a nil pointer.
unfoldable pub build_process_id : Env → Process → Run ProcessId
unfolding set_envelope_type set_census_origin
build_process_id env p = do
  typed ← lift (
      set_envelope_type p.envelope_type (record {
        chain_id = env.chain_id;
        organization_addr = 0;
        census_origin = 0;
        env_type = 0;
        nonce = 0;
      }))
  placed ← lift (set_census_origin (env.origin_number p.census_origin) typed)
  let addr = env.bytes_to_address p.entity_id
  acc ← or_raise (← get_account addr) panic
  pure (record placed { organization_addr = addr; nonce = acc.process_index })
