-- ===== src/Tests/Trusted.antt =====
-- The oracles and a new process in the network of Tests.antt (vochain/state.go and
-- vochain/process.go).
use vocdoni.Base.{
  Slice, [], arith, bytes_eq, false, none, refl, replicate, some, true, ◌<◌, ◌∷◌, ◌≡◌, ◌≤◌,
}
use vocdoni.AccountCheck.{account_from_signature}
use vocdoni.Action.{ok}
use vocdoni.Crypto.{addr_from_public_key, pub_key_from_signature}
use vocdoni.Keys.{max_key_index}
use vocdoni.Models.{Process, ready}
use vocdoni.ProcessCheck.{
  census_size, implemented_check, new_process_tx_check, required_fields, start_block_check,
  with_built_id, with_key_slots,
}
use vocdoni.ProcessCheck.Creation.{new_process_inv}
use vocdoni.ProcessId.{
  big_endian32, build_process_id, envelope_code, marshal, set_census_origin, set_envelope_type,
}
use vocdoni.State.{State}
use vocdoni.State.Extra.{tx_cost, tx_type_cost_to_state_key}
use vocdoni.State.Oracles.{get_oracles, has_leaf, is_oracle, listed, live}
use vocdoni.State.Oracles.Membership.{AreDistinct}
use vocdoni.Tests.{ballot, signed_by, test_env, test_state}
use vocdoni.Tx.{NewProcessTx}
use mathlib.Core.Bool.{xor}

abbrev small : State
small = test_state 12 ready

small_oracles : AreDistinct small.oracles × (has_leaf 5 small.oracles ≡ true)
unfolding has_leaf
small_oracles = ((refl, tt), refl)

abbrev message : Slice
message = some (1 ∷ 2 ∷ [])

abbrev fresh : Process
fresh = record (ballot ready) {
  process_id = none;
  start_block = 0;
  envelope_type = some (record {
    serial = false;
    anonymous = false;
    encrypted_votes = true;
    unique_values = false;
    cost_from_weight = false;
  });
  max_count = some 1;
}

abbrev creating : NewProcessTx
creating = record { nonce = 0; process = some fresh }

-- The process that is stored for it.
abbrev accepted : Process
accepted = record fresh {
  process_id = some (
      marshal test_env (record {
        chain_id = 118 ∷ 111 ∷ [];
        organization_addr = 1;
        census_origin = 1;
        env_type = 4;
        nonce = 0;
      }));
  start_block = 13;
  encryption_public_keys = replicate max_key_index [];
  encryption_private_keys = replicate max_key_index [];
}

creating_checked :
    new_process_tx_check test_env message (signed_by 1) (some creating) small
    ≡ (ok (accepted, 1), small)
unfolding new_process_tx_check required_fields start_block_check implemented_check census_size
    with_key_slots with_built_id build_process_id set_envelope_type set_census_origin envelope_code
    account_from_signature pub_key_from_signature addr_from_public_key tx_cost
    tx_type_cost_to_state_key is_oracle get_oracles live listed bytes_eq marshal big_endian32 xor
creating_checked = refl

new_process_example : (0 < accepted.block_count) × (small.current_height ≤ accepted.start_block)
new_process_example =
    new_process_inv test_env message (signed_by 1) creating {p = accepted} small creating_checked
      (omega arith)
