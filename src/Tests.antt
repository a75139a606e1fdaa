-- ===== src/Tests.antt =====
-- A small network on which the theorems are applied: two accounts, the burn account, an oracle and
-- a process. Here an address is spelt by its first byte, and a signature starts with its signer.
pub mod Tokens
pub mod Rights
pub mod Trusted
pub mod Ballots
pub mod Books
pub mod Voting
pub mod Keepers
pub mod Stores
pub mod Chains
pub mod Caches
pub mod Counting
use vocdoni.Base.{
  Bool, Bytes, Option, Slice, [], bytes_eq, false, get_or, if◌then◌else◌, length, none, pos,
  replicate, some, true, ℕ, ◌==◌, ◌∷◌,
}
use vocdoni.Account.{Account, Address, empty_account}
use vocdoni.Crypto.{CacheKey, Env, VoteCache, burn_address, nullifier_key, tx_key}
use vocdoni.Models.{
  CensusOrigin, Process, ProcessMode, ProcessStatus, Vote, erc20, mini_me, off_chain_ca,
  off_chain_tree, off_chain_tree_weighted, origin_other,
}
use vocdoni.Processes.{pre_register, process}
use vocdoni.Processes.Status.{next}
use vocdoni.State.{State}

-- The number of a census origin.
abbrev number_of : CensusOrigin → ℕ
number_of off_chain_tree = 1
number_of off_chain_tree_weighted = 2
number_of off_chain_ca = 3
number_of erc20 = 11
number_of mini_me = 12
number_of (origin_other n) = n

abbrev pub same_key : CacheKey → CacheKey → Bool
same_key (tx_key a) (tx_key b) = bytes_eq a b
same_key (nullifier_key a) (nullifier_key b) = bytes_eq a b
same_key _ _ = false

abbrev pub find_entry : CacheKey → VoteCache → Option (Option Vote)
find_entry key [] = none
find_entry key ((k, v) ∷ rest) = if same_key key k then some v else find_entry key rest

abbrev pub test_env : Env
test_env = record {
  keccak = λ b. get_or b 0 0 ∷ replicate 31 (length b);
  sha256 = λ b. b;
  sig_to_pub = λ h s. some (get_or s 0 0 ∷ []);
  decompress = λ b. some b;
  unmarshal_address = λ b. some (get_or b 0 0);
  bytes_to_address = λ b. get_or b 0 0;
  address_bytes = λ a. a ∷ replicate 19 0;
  marshal_payload = λ p. some (p.identifier ∷ p.to);
  marshal_vote = λ v. some v.nullifier;
  nacl_public = λ b. some b;
  arbo_hash = λ kind b. some b;
  arbo_check = λ kind key value root siblings. some true;
  bytes_to_big_int = λ b. get_or b 0 0;
  poseidon_accepts = λ b. true;
  set_bytes = λ b. get_or b 0 0;
  big_bytes = λ n. n ∷ [];
  set_string = λ b. some (pos (get_or b 0 0));
  marshal_bundle = λ b. some b.process_id;
  unmarshal_pub_key = λ b. some b;
  add_base_mult = λ key salt. key;
  from_ecdsa_pub = λ key. key;
  blind_key = λ b. some b;
  blind_signature = λ b. b;
  blind_add = λ key salt. key;
  blind_verify = λ n signature key. true;
  mapbased_verify = λ addr root p slot balance. true;
  minime_balance = λ b. get_or b 0 0;
  minime_verify = λ addr root prev next slot balance source. true;
  parse_zk = λ a b c. some [];
  zk_verify = λ vk proof inputs. true;
  vk_count = 1;
  lru_get = λ key cache. (find_entry key cache, cache);
  lru_add = λ key vote cache. (key, vote) ∷ cache;
  lru_remove = λ key cache. cache;
  walk = λ answers. length answers;
  chain_id = 118 ∷ 111 ∷ [];
  origin_number = number_of;
  biggest_circuit = none;
}

-- The 65 bytes of a signature of an address.
abbrev pub signed_by : Address → Slice
signed_by a = some (a ∷ replicate 64 0)

abbrev pub holding : ℕ → Account
holding n = record empty_account { balance = n }

abbrev pub pid : Bytes
pid = replicate 32 4

abbrev pub test_mode : ProcessMode
test_mode = record { interruptible = true; dynamic_census = false; pre_register = false }

-- A process of entity 1 in blocks 10 to 30, with the status that is given.
abbrev pub ballot : ProcessStatus → Process
ballot st = record {
  process_id = some pid;
  entity_id = 1 ∷ replicate 19 0;
  start_block = 10;
  block_count = 20;
  census_root = 6 ∷ [];
  census_uri = none;
  census_origin = off_chain_tree;
  status = st;
  envelope_type = none;
  mode = some test_mode;
  max_count = none;
  key_index = none;
  encryption_public_keys = [];
  encryption_private_keys = [];
  results = [];
  max_census_size = none;
  rolling_census_root = [];
  nullifiers_root = [];
  rolling_census_size = none;
  eth_index_slot = none;
  source_block_height = none;
}

abbrev pub test_accounts : Address → Option Account
test_accounts a =
    if a == 1
    then some (holding 100)
    else if a == 2
    then some (holding 50)
    else if a == burn_address
    then some (holding 0)
    else none

-- A state at a height, in which the process has a status.
abbrev pub test_state : ℕ → ProcessStatus → State
test_state height st = record {
  accounts = test_accounts;
  costs = λ k. some 10;
  treasurer = some (record { address = 9 ∷ replicate 19 0; nonce = 0 });
  oracles = (5, true) ∷ [];
  faucet = [];
  processes = λ id.
      if bytes_eq id pid then some (record { process = ballot st; votes_root = [] }) else none;
  votes = λ id n. none;
  rolling_census = λ id. none;
  used_weights = λ id n. none;
  pids_by_start_block = λ n. [];
  vote_count = 0;
  current_height = height;
  tx_counter = 0;
  events = [];
  vote_cache = [];
  cache_disabled = false;
}
