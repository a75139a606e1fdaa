-- ===== src/RollingCensus.antt =====
-- vochain/census.go: the keys that voters register before an anonymous process, and the weight that
-- each address has used. A key's index in the tree is its place in the list.
pub mod Reads
pub mod Bound
pub mod Access
use vocdoni.Base.{
  Bool, Bytes, List, Slice, [], bytes_eq, content, false, if◌then◌else◌, is_none, leb, length, ltb,
  negsuc, none, not, pos, some, ℕ, ℤ, ◌&&◌, ◌++◌, ◌+ℤ◌, ◌==◌, ◌∷◌,
}
use vocdoni.Account.{Address}
use vocdoni.Action.{
  bad_proof, census_full, gets, lift, malformed, missing_field, missing_signature, modify,
  not_allowed, or_raise, panic, pure, raise_if, wrong_height, wrong_size, wrong_status, ◌>>=◌, ◌>>◌,
}
use vocdoni.CensusProof.{verify_proof}
use vocdoni.Crypto.{Env, addr_from_public_key, pub_key_from_signature}
use vocdoni.Models.{Process, ready}
use vocdoni.Models.Proofs.{RegisterKeyTx}
use vocdoni.Processes.{pre_register, process, put_at, status_eq}
use vocdoni.State.{Run, current_height}
use vocdoni.Votes.{generate_nullifier}

module _ (env : Env) where
  -- Opening the subtree of the rolling census: the process must be there with a root of 32 bytes.
  unfoldable pub need_census_root : Bytes → Run Process
  unfolding process
  need_census_root pid = do
    p ← process pid
    raise_if (not (length p.rolling_census_root == 32)) malformed
    pure p

  -- `GetRollingCensusSize`; the size is set when the process is added.
  unfoldable pub get_rolling_census_size : Bytes → Run ℕ
  unfolding need_census_root
  get_rolling_census_size pid = do
    p ← need_census_root pid
    keys ← or_raise (← gets (λ s. s.rolling_census pid)) missing_field
    pure (length keys)

  -- A key is added at the end of its census, if there is room for it.
  unfoldable pub add_key : Process → Bytes → List Bytes → Bytes → Run Unit
  add_key p pid keys key = do
    max ← or_raise p.max_census_size panic
    raise_if (leb max (length keys)) census_full
    raise_if (not (env.poseidon_accepts key)) bad_proof
    modify (λ s. record s { rolling_census = put_at pid (keys ++ key ∷ []) s.rolling_census })

  -- `AddToRollingCensus`; the weight is not used.
  unfoldable pub add_to_rolling_census : Bytes → Bytes → ℤ → Run Unit
  unfolding need_census_root add_key
  add_to_rolling_census pid key weight = do
    p ← need_census_root pid
    old ← gets (λ s. s.rolling_census pid)
    keys ← or_raise old missing_field
    add_key p pid keys key

  -- `GetPreRegisterAddrUsedWeight`
  unfoldable pub get_used_weight : Process → Address → Run ℕ
  unfolding generate_nullifier
  get_used_weight p addr = do
    raise_if (not (length p.nullifiers_root == 32)) malformed
    let pid = content p.process_id
    used ← gets (λ s. s.used_weights pid (generate_nullifier env addr pid))
    pure (elim used [ none ↦ 0 | some b ↦ env.set_bytes b ])

  -- `setPreRegisterAddrUsedWeight`; its error is dropped by the caller.
  unfoldable pub set_used_weight : Process → Address → ℕ → Run Unit
  unfolding generate_nullifier
  set_used_weight p addr weight = do
    let pid = content p.process_id
    modify (λ s. record s {
      used_weights = λ id.
          if bytes_eq id pid
          then put_at (generate_nullifier env addr pid) (env.big_bytes weight) (s.used_weights id)
          else s.used_weights id;
    })

  -- `RegisterKeyTxCheck`, the checks of the process and of the message.
  unfoldable pub register_time_check : RegisterKeyTx → Process → Slice → Run Unit
  unfolding status_eq get_rolling_census_size
  register_time_check tx p signature = do
    et ← or_raise p.envelope_type malformed
    m ← or_raise p.mode malformed
    height ← current_height
    raise_if (leb p.start_block height) wrong_height
    raise_if (not (m.pre_register && et.anonymous)) not_allowed
    raise_if (not (status_eq p.status ready)) wrong_status
    raise_if (is_none tx.proof) missing_field
    raise_if (is_none signature) missing_signature
    raise_if (not (length tx.new_key == 32)) wrong_size
    size ← get_rolling_census_size tx.process_id
    max ← or_raise p.max_census_size panic
    raise_if (leb max size) census_full

  -- `usedWeight.Cmp(bigOne) == 0`
  unfoldable pub is_one : ℤ → Bool
  is_one (pos n) = n == 1
  is_one (negsuc n) = false

  -- `RegisterKeyTxCheck`, the weight: what was used with what is asked for must be one, and not above
  -- the weight of the proof. So the sum that the code goes on with is one.
  unfoldable pub weight_check : RegisterKeyTx → ℕ → ℕ → Run Unit
  unfolding is_one
  weight_check tx used weight = do
    asked ← or_raise (env.set_string tx.weight) bad_proof
    raise_if (not (is_one (pos used +ℤ asked))) not_allowed
    raise_if (ltb weight 1) not_allowed

  -- `RegisterKeyTxCheck`, which on commit also stores the weight.
  unfoldable pub register_key_tx_check : RegisterKeyTx → Slice → Slice → Bool → Run Unit
  unfolding process register_time_check weight_check get_used_weight set_used_weight
  register_key_tx_check tx tx_bytes signature for_commit = do
    p ← process tx.process_id
    register_time_check tx p signature
    proof ← or_raise tx.proof missing_field
    key ← lift (pub_key_from_signature env (content tx_bytes) signature)
    addr ← lift (addr_from_public_key env key)
    (valid, weight) ← verify_proof env p proof key addr
    raise_if (not valid) bad_proof
    used ← get_used_weight p addr
    weight_check tx used weight
    if for_commit then set_used_weight p addr 1 else pure tt
