-- ===== src/Tests/Books.antt =====
-- The accounts and the process ids of the network of Tests.antt (vochain/account.go and
-- vochain/process_id.go).
use vocdoni.Base.{
  List, [], arith, bytes_eq, false, refl, replicate, some, suc, take, true, zero, ◌<◌, ◌∷◌, ◌≡◌,
}
use vocdoni.Account.{Account, Address, is_delegate}
use vocdoni.Account.Delegates.{IsDistinct}
use vocdoni.Action.{err, ok, zero_amount}
use vocdoni.Crypto.{Env, burn_address}
use vocdoni.Ledger.{consume_faucet_payload, faucet_key, little_endian}
use vocdoni.Ledger.Faucets.{consume_collected, consume_free_refused, consume_granted}
use vocdoni.Ledger.Supply.{Fits, occurrences}
use vocdoni.Models.{
  EnvelopeType, FaucetPayload, collect_faucet_type, ready, send_tokens_type, set_account_info_type,
}
use vocdoni.ProcessId.{ProcessId, marshal, unmarshal}
use vocdoni.ProcessId.RoundTrip.{Codec, unmarshal-marshal}
use vocdoni.Processes.{hex}
use vocdoni.State.{State, put}
use vocdoni.State.Extra.{tx_cost, tx_type_cost_to_state_key}
use vocdoni.State.Faucet.{stored}
use vocdoni.StateDb.{read_little_endian}
use vocdoni.StateDb.Words.{length-little_endian, power256, read_little_endian-little_endian}
use vocdoni.Tests.{holding, test_env, test_state}

abbrev small : State
small = test_state 12 ready

-- With an account that cannot pay a fee.
abbrev poor : State
poor = record small { accounts = put 3 (holding 9) small.accounts }

cost_of_sending :
    (tx_cost send_tokens_type small ≡ (ok 10, small))
    × (tx_cost send_tokens_type poor ≡ (ok 10, poor))
unfolding tx_cost tx_type_cost_to_state_key
cost_of_sending = (refl, refl)

abbrev everyone : List Address
everyone = 1 ∷ 2 ∷ burn_address ∷ []

listed_once : (occurrences 1 everyone ≡ 1) × (occurrences 2 everyone ≡ 1)
unfolding occurrences
listed_once = (refl, refl)

small-Fits : Fits small.accounts
small-Fits a acc h = ground arith

abbrev followed : Account
followed = record (holding 5) { delegate_addrs = (1 ∷ []) ∷ (2 ∷ []) ∷ (3 ∷ []) ∷ [] }

followed-IsDistinct : IsDistinct followed.delegate_addrs
followed-IsDistinct zero zero h k e = refl
followed-IsDistinct (suc zero) (suc zero) h k e = refl
followed-IsDistinct (suc (suc zero)) (suc (suc zero)) h k e = refl
followed-IsDistinct i j h k e = ground arith

followed_tests : (is_delegate (1 ∷ []) followed ≡ true) × (is_delegate (4 ∷ []) followed ≡ false)
unfolding is_delegate bytes_eq
followed_tests = (refl, refl)

abbrev gift : FaucetPayload
gift = record { identifier = 8; to = 2 ∷ replicate 19 0; amount = 20 }

-- The same network without a charge for collecting.
abbrev free : State
free = record small { costs = λ k. some 0 }

collect_costs :
    (tx_cost collect_faucet_type small ≡ (ok 10, small))
    × (tx_cost collect_faucet_type free ≡ (ok 0, free))
unfolding tx_cost tx_type_cost_to_state_key
collect_costs = (refl, refl)

consume_collected_example :
    consume_faucet_payload test_env 1 (some gift) collect_faucet_type small ≡ (
      ok tt,
      record small {
        accounts =
            put burn_address
              (holding 0)
              (put 2 (record (holding 70) { nonce = 1 }) (put 1 (holding 80) small.accounts));
        faucet = stored (faucet_key test_env 1 8) [];
      },
    )
consume_collected_example =
    consume_collected test_env 1 2 gift {a = holding 100} {d = holding 50} {b = holding 0} small
      refl (omega arith) (omega arith) (omega arith) (omega arith) refl refl refl (omega arith)
      (omega arith) (omega arith)

consume_granted_example :
    consume_faucet_payload test_env 1 (some gift) set_account_info_type small ≡ (
      ok tt,
      record small {
        accounts =
            put burn_address (holding 10) (put 2 (holding 70) (put 1 (holding 70) small.accounts));
        faucet = stored (faucet_key test_env 1 8) [];
      },
    )
consume_granted_example =
    consume_granted test_env 1 2 gift {a = holding 100} {d = holding 50} {b = holding 0} small refl
      (omega arith) (omega arith) (omega arith) (omega arith) refl refl refl (omega arith)
      (omega arith) collect_costs.0 (omega arith) (omega arith) (omega arith)

consume_free_example :
    consume_faucet_payload test_env 1 (some gift) set_account_info_type free
    ≡ (err zero_amount, free)
consume_free_example =
    consume_free_refused test_env 1 2 gift {a = holding 100} {d = holding 50} {b = holding 0} free
      refl (omega arith) (omega arith) (omega arith) (omega arith) refl refl refl (omega arith)
      (omega arith) collect_costs.1 (omega arith)

-- Addresses as 20 bytes, each below 256.
abbrev byte_env : Env
byte_env = record test_env {
  address_bytes = little_endian 20;
  bytes_to_address = read_little_endian 20;
}

byte-Codec : Codec byte_env
byte-Codec = record {
  address_size = length-little_endian 20;
  address_back = read_little_endian-little_endian 20;
  hash_size = λ b. omega arith;
}

address_one : 1 < power256 20
unfolding power256
address_one = omega arith

abbrev first_id : ProcessId
first_id = record {
  chain_id = 118 ∷ [];
  organization_addr = 1;
  census_origin = 2;
  env_type = 5;
  nonce = 70000;
}

unmarshal-marshal_example :
    unmarshal byte_env (marshal byte_env first_id)
    ≡ ok (record first_id { chain_id = hex (take 4 (byte_env.keccak (118 ∷ []))) })
unmarshal-marshal_example =
    unmarshal-marshal byte_env byte-Codec first_id (omega arith) (omega arith) (omega arith)
      (omega arith) address_one

abbrev secret : EnvelopeType
secret = record {
  serial = false;
  anonymous = true;
  encrypted_votes = true;
  unique_values = false;
  cost_from_weight = true;
}
