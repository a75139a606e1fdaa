-- ===== src/Tests/Rights.antt =====
-- The treasurer's transactions, the changes of the process and its keys, in the network of
-- Tests.antt (vochain/transaction.go, vochain/process.go and vochain/state.go).
use vocdoni.Base.{
  Slice, [], arith, bytes_eq, bytes_eq_refl, content, false, if◌then◌else◌, inl, none, refl,
  replicate, some, true, ℕ, ◌<◌, ◌∷◌, ◌≡◌,
}
use vocdoni.Account.{Address}
use vocdoni.AccountCheck.{
  account_from_signature, mint_tokens_tx_check, set_transaction_costs_tx_check, signer,
}
use vocdoni.Action.{err, ok, panic, unauthorized}
use vocdoni.AddTx.{add_tx}
use vocdoni.AddTx.Ballots.{add_tx-IsAllowed, status_commits, status_result}
use vocdoni.AddTx.Mint.{mint_commits, mint_signed}
use vocdoni.AddTx.Slots.{add_keys_panics}
use vocdoni.Crypto.{addr_from_public_key, addr_from_signature, pub_key_from_signature}
use vocdoni.Keys.{max_key_index, oracle_check}
use vocdoni.Models.{
  EnvelopeType, Process, Treasurer, add_process_keys_type, new_process_type, paused, ready,
  set_process_results_type, set_process_status_type,
}
use vocdoni.ProcessCheck.{set_process_tx_check, set_process_type_check}
use vocdoni.ProcessCheck.Access.{IsAllowed, owner_results_refused}
use vocdoni.Processes.{process, set_process_status, status_check}
use vocdoni.Processes.Status.{Holds}
use vocdoni.State.{State, put}
use vocdoni.State.Extra.{treasurer, tx_cost, tx_type_cost_to_state_key}
use vocdoni.State.Oracles.{get_oracles, listed, live}
use vocdoni.Tests.{ballot, holding, pid, signed_by, test_env, test_mode, test_state}
use vocdoni.Tx.{
  AdminTx, MintTokensTx, SetProcessTx, SetTransactionCostsTx, tx_admin, tx_mint_tokens,
  tx_set_process,
}

abbrev small : State
small = test_state 12 ready

abbrev message : Slice
message = some (1 ∷ 2 ∷ [])

abbrev minting : MintTokensTx
minting = record { nonce = 0; to = 2 ∷ replicate 19 0; value = 30 }

minting_checked :
    mint_tokens_tx_check test_env message (signed_by 9) (some minting) small ≡ (ok (2, 30), small)
unfolding mint_tokens_tx_check treasurer pub_key_from_signature addr_from_public_key bytes_eq
minting_checked = refl

mint_accepted :
    add_tx test_env message (signed_by 9) (tx_mint_tokens minting) false small ≡ (ok [], small)
unfolding add_tx mint_tokens_tx_check treasurer pub_key_from_signature addr_from_public_key bytes_eq
mint_accepted = refl

mint_signed_example :
    (t : Treasurer) × (small.treasurer ≡ some t)
    × (signer test_env message (signed_by 9) small
        ≡ (ok (test_env.bytes_to_address t.address), small))
    × (minting.nonce ≡ t.nonce)
    × (0 < 30)
mint_signed_example = mint_signed test_env message (signed_by 9) minting false small mint_accepted

mint_commits_example : add_tx test_env message (signed_by 9) (tx_mint_tokens minting) true small ≡ (
  ok [],
  record small {
    accounts = put 2 (holding 80) small.accounts;
    treasurer = some (record { address = 9 ∷ replicate 19 0; nonce = 1 });
  },
)
mint_commits_example =
    mint_commits test_env message (signed_by 9) minting small minting_checked refl {d = holding 50}
      refl (omega arith)

abbrev pricing : SetTransactionCostsTx
pricing = record { txtype = new_process_type; nonce = 0; value = 77 }

pricing_checked :
    set_transaction_costs_tx_check test_env message (signed_by 9) (some pricing) small
    ≡ (ok 77, small)
unfolding set_transaction_costs_tx_check treasurer tx_type_cost_to_state_key pub_key_from_signature
    addr_from_public_key bytes_eq
pricing_checked = refl

abbrev pausing : SetProcessTx
pausing = record {
  txtype = set_process_status_type;
  nonce = 0;
  process_id = pid;
  status = some paused;
  results = none;
  census_root = none;
  census_uri = [];
}

account_of :
    account_from_signature test_env (1 ∷ 2 ∷ []) (signed_by 1) small ≡ (ok (1, holding 100), small)
unfolding account_from_signature pub_key_from_signature addr_from_public_key
account_of = refl

cost_of_process :
    (tx_cost set_process_status_type small ≡ (ok 10, small))
    × (tx_cost set_process_results_type small ≡ (ok 10, small))
unfolding tx_cost tx_type_cost_to_state_key
cost_of_process = (refl, refl)

owner_test :
    (bytes_eq (1 ∷ replicate 19 0) (1 ∷ replicate 19 0) ≡ true)
    × (small.processes pid ≡ some (record { process = ballot ready; votes_root = [] }))
unfolding bytes_eq
owner_test = (refl, refl)

pausing_checked :
    set_process_tx_check test_env message (signed_by 1) (some pausing) small ≡ (ok 1, small)
unfolding set_process_tx_check account_from_signature pub_key_from_signature addr_from_public_key
    tx_cost tx_type_cost_to_state_key process set_process_type_check set_process_status status_check
    bytes_eq
pausing_checked = refl

pausing_accepted :
    add_tx test_env message (signed_by 1) (tx_set_process pausing) false small ≡ (ok [], small)
unfolding add_tx set_process_tx_check account_from_signature pub_key_from_signature
    addr_from_public_key tx_cost tx_type_cost_to_state_key process set_process_type_check
    set_process_status status_check bytes_eq
pausing_accepted = refl

add_tx-IsAllowed_example :
    (addr : Address) × IsAllowed test_env message (signed_by 1) pausing small addr
add_tx-IsAllowed_example =
    add_tx-IsAllowed test_env message (signed_by 1) pausing false small pausing_accepted

owner_results_refused_example :
    set_process_tx_check test_env message
      (signed_by 1)
      (some (record pausing { txtype = set_process_results_type }))
      small
    ≡ (err unauthorized, small)
owner_results_refused_example =
    owner_results_refused test_env message (signed_by 1)
      (record pausing { txtype = set_process_results_type })
      {leaf = record { process = ballot ready; votes_root = [] }} {acc = holding 100} small
      cost_of_process.1 account_of owner_test.1 refl owner_test.0 refl refl (omega arith) refl

small-Holds : Holds small pid (ballot ready) test_mode
small-Holds = record { stored = ([], owner_test.1); named = refl; sized = refl; mode = refl }

status_commits_example :
    add_tx test_env message (signed_by 1) (tx_set_process pausing) true small
    ≡ (ok [], status_result 1 pausing (ballot ready) paused 10 (holding 100) (holding 0) small)
status_commits_example =
    status_commits test_env message (signed_by 1) pausing {m = test_mode} small pausing_checked refl
      refl (λ e. cc) small-Holds (refl, refl) (omega arith) refl refl cost_of_process.0
      (omega arith) (omega arith)

-- The process with slots for keys, one of which is open.
abbrev keyed : Process
keyed = record (ballot ready) {
  encryption_public_keys = replicate max_key_index [];
  encryption_private_keys = replicate max_key_index [];
  key_index = some 1;
}

abbrev sealed : State
sealed = record (test_state 5 ready) {
  processes =
      λ id. if bytes_eq id pid then some (record { process = keyed; votes_root = [] }) else none;
}

sealed-Holds : Holds sealed pid keyed test_mode
sealed-Holds = record {
  stored = ([], ground (arith, bytes_eq_refl pid));
  named = refl;
  sized = refl;
  mode = refl;
}

abbrev key_tx : ℕ → AdminTx
key_tx index = record {
  txtype = add_process_keys_type;
  nonce = 0;
  address = [];
  process_id = some pid;
  key_index = some index;
  encryption_public_key = some (171 ∷ []);
  encryption_private_key = some (205 ∷ []);
}

abbrev secret : EnvelopeType
secret = record {
  serial = false;
  anonymous = false;
  encrypted_votes = true;
  unique_values = false;
  cost_from_weight = false;
}

abbrev guarded_keys : Process
guarded_keys = record keyed { envelope_type = some secret }

abbrev guarded : State
guarded = record sealed {
  oracles = (1, true) ∷ [];
  processes = λ id.
      if bytes_eq id pid then some (record { process = guarded_keys; votes_root = [] }) else none;
}

guarded_found : process pid guarded ≡ (ok guarded_keys, guarded)
unfolding process bytes_eq
guarded_found = refl

guarded-signer : signer test_env message (signed_by 1) guarded ≡ (ok 1, guarded)
unfolding pub_key_from_signature addr_from_public_key bytes_eq
guarded-signer = refl

guarded_oracle : oracle_check test_env (content message) (signed_by 1) guarded ≡ (ok tt, guarded)
unfolding oracle_check get_oracles live listed addr_from_signature pub_key_from_signature
    addr_from_public_key bytes_eq
guarded_oracle = refl

add_keys_panics_example :
    add_tx test_env message (signed_by 1) (tx_admin (key_tx 16)) false guarded
    ≡ (err panic, guarded)
add_keys_panics_example =
    add_keys_panics test_env message (signed_by 1) (key_tx 16) {et = secret} guarded refl refl
      guarded_found refl refl false refl refl guarded-signer guarded_oracle refl (inl refl)
      (omega arith) (omega arith)
