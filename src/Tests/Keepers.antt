-- ===== src/Tests/Keepers.antt =====
-- A keeper of keys with a small database.
use vocdoni.Base.{
  Bytes, List, Option, [], arith, bytes_eq, content, false, if◌then◌else◌, none, pos, refl,
  replicate, some, suc, take, true, zero, ◌++◌, ◌∷◌, ◌≡◌,
}
use vocdoni.Action.{ok}
use vocdoni.Database.{Database, IsLawful}
use vocdoni.KeyKeeper.{
  Keeper, Node, ProcessKeys, at_index, byte_of, copy_at, decode, encode, generate_keys, pool_get,
  pool_put,
}
use vocdoni.KeyKeeper.Codec.{decode-encode}
use vocdoni.KeyKeeper.Handlers.{key_given, needs_keys, on_process}
use vocdoni.KeyKeeper.Pairs.{pooled_keys-IsPair}
use vocdoni.KeyKeeper.Steps.{Reached, World, commit, started, stepped, told_process}
use vocdoni.Models.{EnvelopeType, Process, ready}
use vocdoni.Processes.{process, put_at}
use vocdoni.State.{State}
use vocdoni.Tests.{ballot, pid, test_state}
use mathlib.Core.List.Memᴰ

abbrev pub small_database : Database
small_database = record {
  Data = Bytes → Option Bytes;
  get = λ stored key. stored key;
  set = λ key value stored. put_at key value stored;
  delete = λ key stored j. if bytes_eq j key then none else stored j;
  entries = λ prefix stored. [];
}

pub small_database-IsLawful : IsLawful small_database
small_database-IsLawful = record {
  get-set = λ stored key value j. refl;
  get-delete = λ stored key j. refl;
}

-- Lists of byte strings, each with its bytes raised by one and a zero at its end.
abbrev raised : Bytes → Bytes → Bytes
raised [] rest = 0 ∷ rest
raised (b ∷ bs) rest = suc b ∷ raised bs rest

abbrev write_pids : List Bytes → Bytes
write_pids [] = []
write_pids (pid ∷ rest) = raised pid (write_pids rest)

abbrev read_pids : Bytes → Bytes → List Bytes
read_pids acc [] = []
read_pids acc (zero ∷ rest) = acc ∷ read_pids [] rest
read_pids acc (suc b ∷ rest) = read_pids (acc ++ b ∷ []) rest

abbrev node : Node
node = record {
  secret = 1 ∷ [];
  my_index = pos 1;
  keccak = λ b. replicate 32 7;
  x25519_base = λ b. some (replicate 32 9);
  marshal_pids = λ pids. some (write_pids pids);
  unmarshal_pids = λ b. (read_pids [] b, true);
  marshal_admin = λ tx. some (content tx.process_id);
  sign_tx = λ b. some (1 ∷ []);
  marshal_signed = λ b s. some (s ++ b);
  random = λ sent. 5;
  send_tx = λ sent b. some 0;
  parse_int = λ b. none;
}

-- An encrypted process, with the slots of the first two keepers.
abbrev encrypted : EnvelopeType
encrypted = record {
  serial = false;
  anonymous = false;
  encrypted_votes = true;
  unique_values = false;
  cost_from_weight = false;
}

abbrev secret_ballot : List Bytes → Process
secret_ballot keys = record (ballot ready) {
  envelope_type = some encrypted;
  encryption_public_keys = keys;
}

abbrev with_keys : List Bytes → State
with_keys keys = record (test_state 15 ready) {
  processes = λ id. some (record { process = secret_ballot keys; votes_root = [] });
}

abbrev published_keys : List Bytes
published_keys = [] ∷ (5 ∷ []) ∷ []

abbrev keyed : State
keyed = with_keys published_keys

abbrev unkeyed : State
unkeyed = with_keys ([] ∷ [] ∷ [])

abbrev own_keys : ProcessKeys
own_keys = record { pub_key = replicate 32 9; priv_key = replicate 32 7; index = pos 1 }

decode-encode_example : decode (encode own_keys) ≡ ok own_keys
decode-encode_example = decode-encode own_keys refl refl (omega arith)

abbrev start : World small_database
start = record {
  keeper = record { storage = λ key. none; key_pool = []; block_pool = []; sent = [] };
  tasks = [];
}

abbrev told : Keeper small_database
told = record {
  storage = λ key. none;
  key_pool = (pid, some own_keys) ∷ [];
  block_pool = (pid, 30) ∷ [];
  sent = [];
}

told_lem : on_process small_database node unkeyed pid start.keeper ≡ (ok tt, told)
unfolding on_process process needs_keys key_given pool_get pool_put generate_keys at_index byte_of
    copy_at
told_lem = refl

abbrev after_process : World small_database
after_process = record { keeper = told; tasks = [] }

after_process-Reached : Reached small_database node after_process
after_process-Reached =
    stepped start after_process (started (λ key. none))
      (told_process start unkeyed pid told told_lem)

pooled_keys-IsPair_example :
    (generate_keys node pid ≡ some own_keys)
    × ((key : Bytes) × (node.x25519_base own_keys.priv_key ≡ some key)
        × (own_keys.pub_key ≡ copy_at 0 (take 32 key) (replicate 32 0)))
unfolding pool_get bytes_eq
pooled_keys-IsPair_example =
    pooled_keys-IsPair small_database node after_process pid after_process-Reached refl

-- The next block starts.
abbrev later : World small_database
later =
    let w = commit small_database node 9 after_process in
    record { keeper = record w.keeper { key_pool = []; block_pool = [] }; tasks = w.tasks }
