-- ===== src/RollingCensus/Access.antt =====
-- Who passes `RegisterKeyTxCheck` (vochain/census.go).
use vocdoni.Base.{
  Bool, Bytes, Slice, ap, arith, content, false, if◌then◌else◌, length, negsuc, not, pos, refl,
  some, sym, true, ℕ, ℤ, ◌+ℤ◌, ◌<◌, ◌∙◌, ◌≡◌, ◌≤◌,
}
use vocdoni.Account.{Address}
use vocdoni.Action.{
  bad_proof, lift, missing_field, ok, or_raise, pure, raise_if, some_of, ◌>>=◌, ◌>>◌,
}
use vocdoni.Action.Preserve.{bind_inv, or_raise_inv, raise_if_inv}
use vocdoni.CensusProof.{verify_proof}
use vocdoni.CensusProof.Reads.{verify_proof-Preserves}
use vocdoni.Crypto.{Env, addr_from_public_key, pub_key_from_signature}
use vocdoni.Models.{EnvelopeType, Process, ProcessMode, ready}
use vocdoni.Models.Proofs.{Proof, RegisterKeyTx}
use vocdoni.Processes.{process, status_eq}
use vocdoni.Processes.Reads.{process-Preserves}
use vocdoni.RollingCensus.{
  get_used_weight, is_one, register_key_tx_check, register_time_check, set_used_weight,
  weight_check,
}
use vocdoni.RollingCensus.Reads.{register_time_check-Preserves}
use vocdoni.State.{State}

-- The process is anonymous with registration, ready, and has not started; the key has 32 bytes.
pub record MayRegister (s : State) (p : Process) (tx : RegisterKeyTx) : Type 0 where
  pub not_started : s.current_height < p.start_block
  pub is_ready : p.status ≡ ready
  pub is_anonymous : (et : EnvelopeType) × (p.envelope_type ≡ some et) × (et.anonymous ≡ true)
  pub registers : (m : ProcessMode) × (p.mode ≡ some m) × (m.pre_register ≡ true)
  pub key_size : length tx.new_key ≡ 32

register_time_check_inv :
    (env : Env) (tx : RegisterKeyTx) (p : Process) (signature : Slice) (s : State) {u : State}
    → register_time_check env tx p signature s ≡ (ok tt, u)
    → MayRegister s p tx
unfolding register_time_check status_eq
register_time_check_inv env tx p signature s h =
    let (et, typed) = some_of p.envelope_type (λ bad. ground arith) in
    let (m, moded) = some_of p.mode (λ bad. ground arith) in
    record {
      not_started = ground arith;
      is_ready = ground arith;
      is_anonymous = (et, typed, ground arith);
      registers = (m, moded, ground arith);
      key_size = ground arith;
    }

passes_test : (b : Bool) → not b ≡ false → b ≡ true
passes_test b h = ground arith

is_one_inv : (env : Env) (z : ℤ) → is_one env z ≡ true → z ≡ pos 1
unfolding is_one
is_one_inv env (pos n) h = ap pos (ground arith)
is_one_inv env (negsuc n) h = absurd (ground arith)

weight_check_inv :
    (env : Env) (tx : RegisterKeyTx) (used weight : ℕ) (s : State) {u : State}
    → weight_check env tx used weight s ≡ (ok tt, u)
    → (asked : ℤ) × (env.set_string tx.weight ≡ some asked)
      × (pos used +ℤ asked ≡ pos 1)
      × (1 ≤ weight)
unfolding weight_check
weight_check_inv env tx used weight s h =
    let (asked, read) = some_of (env.set_string tx.weight) (λ bad. ground arith) in
    let one : is_one env (pos used +ℤ asked) ≡ true = ground arith in
    (asked, read, is_one_inv env (pos used +ℤ asked) one, ground arith)

module _ (env : Env) (tx : RegisterKeyTx) (tx_bytes signature : Slice) where
  -- The voter whose key passes: the signer of the transaction, with a proof of belonging to the census
  -- of the process and a weight that is still his.
  pub record IsVoter (s : State) (p : Process) : Type 0 where
    pub key : Bytes
    pub addr : Address
    pub proof : Proof
    pub weight : ℕ
    pub used : ℕ
    pub asked : ℤ
    pub has_signed : pub_key_from_signature env (content tx_bytes) signature ≡ ok key
    pub is_named : addr_from_public_key env key ≡ ok addr
    pub is_given : tx.proof ≡ some proof
    pub in_census : (verify_proof env p proof key addr s).0 ≡ ok (true, weight)
    pub some_weight : 1 ≤ weight
    pub was_used : (get_used_weight env p addr s).0 ≡ ok used
    pub is_asked : env.set_string tx.weight ≡ some asked
    pub sum_is_one : pos used +ℤ asked ≡ pos 1

module _ (env : Env) (tx : RegisterKeyTx) (tx_bytes signature : Slice) where
  -- Who registers a key: the process is anonymous with registration, ready, and has not started; the
  -- signer of the transaction has a proof of belonging to its census with a weight of at least one, and
  -- the weight that he has used and the one that he asks for make one.
  pub register_key_tx_check_inv :
      (commit : Bool) (s : State) {u : State}
      → register_key_tx_check env tx tx_bytes signature commit s ≡ (ok tt, u)
      → (p : Process) × (process tx.process_id s ≡ (ok p, s))
        × MayRegister s p tx
        × IsVoter env tx tx_bytes signature s p
  unfolding register_key_tx_check
  register_key_tx_check_inv commit s h =
      let signer = pub_key_from_signature env (content tx_bytes) signature in
      let last = λ (p : Process) (addr : Address).
        if commit then set_used_weight env p addr 1 else pure tt in
      let by_used = λ (p : Process) (addr : Address) (weight used : ℕ).
        weight_check env tx used weight >> last p addr in
      let by_valid = λ (p : Process) (addr : Address) (weight : ℕ).
        get_used_weight env p addr >>= by_used p addr weight in
      let by_weight = λ (p : Process) (addr : Address) (x : Bool × ℕ).
        raise_if (not x.0) bad_proof >> by_valid p addr x.1 in
      let by_addr = λ (p : Process) (proof : Proof) (key : Bytes) (addr : Address).
        verify_proof env p proof key addr >>= by_weight p addr in
      let by_key = λ (p : Process) (proof : Proof) (key : Bytes).
        lift (addr_from_public_key env key) >>= by_addr p proof key in
      let by_proof = λ (p : Process) (proof : Proof). lift signer >>= by_key p proof in
      let by_time = λ (p : Process). or_raise tx.proof missing_field >>= by_proof p in
      bind_inv (process tx.process_id) (λ p. register_time_check env tx p signature >> by_time p) s
        h
        (λ p s1 e1 h1.
          bind_inv (register_time_check env tx p signature) (λ _. by_time p) s1 h1
            (λ _ s2 e2 h2.
              bind_inv (or_raise tx.proof missing_field) (by_proof p) s2 h2 (λ proof s3 e3 h3.
                bind_inv (lift signer) (by_key p proof) s3 h3 (λ key s4 e4 h4.
                  bind_inv (lift (addr_from_public_key env key)) (by_addr p proof key) s4 h4
                    (λ addr s5 e5 h5.
                      bind_inv (verify_proof env p proof key addr) (by_weight p addr) s5 h5
                        (λ (valid, weight) s6 e6 h6.
                          bind_inv (raise_if (not valid) bad_proof) (λ _. by_valid p addr weight) s6
                            h6
                            (λ _ s7 e7 h7.
                              bind_inv (get_used_weight env p addr) (by_used p addr weight) s7 h7
                                (λ used s8 e8 h8.
                                  bind_inv (weight_check env tx used weight) (λ _. last p addr) s8
                                    h8
                                    (λ _ s9 e9 h9.
                                      let k1 : s1 ≡ s =
                                        sym (ap (λ x. x.1) e1)
                                        ∙ (process-Preserves {P = λ t. t ≡ s} tx.process_id).run s
                                            refl in
                                      let k2 : s2 ≡ s =
                                        sym (ap (λ x. x.1) e2)
                                        ∙ (register_time_check-Preserves {P = λ t. t ≡ s1} env tx p
                                              signature).run
                                            s1 refl
                                        ∙ k1 in
                                      let (given, kept3) =
                                        or_raise_inv tx.proof missing_field s2 e3 in
                                      let k5 : s5 ≡ s =
                                        sym (ap (λ x. x.1) e5)
                                        ∙ sym (ap (λ x. x.1) e4)
                                        ∙ sym kept3
                                        ∙ k2 in
                                      let k6 : s6 ≡ s =
                                        sym (ap (λ x. x.1) e6)
                                        ∙ (verify_proof-Preserves {P = λ t. t ≡ s5} env p proof key
                                              addr).run
                                            s5 refl
                                        ∙ k5 in
                                      let (held, kept7) =
                                        raise_if_inv (not valid) bad_proof s6 e7 in
                                      let k7 : s7 ≡ s = sym kept7 ∙ k6 in
                                      let is_valid : valid ≡ true = passes_test valid held in
                                      let (asked, read, one, some_weight) =
                                        weight_check_inv env tx used weight s8 e9 in
                                      (
                                        p,
                                        rw k1 at e1,
                                        rw k1 at (register_time_check_inv env tx p signature s1 e2),
                                        record {
                                          key = key;
                                          addr = addr;
                                          proof = proof;
                                          weight = weight;
                                          used = used;
                                          asked = asked;
                                          has_signed = ap (λ x. x.0) e4;
                                          is_named = ap (λ x. x.0) e5;
                                          is_given = given;
                                          in_census = rw is_valid at (rw k5 at (ap (λ x. x.0) e6));
                                          some_weight = some_weight;
                                          was_used = rw k7 at (ap (λ x. x.0) e8);
                                          is_asked = read;
                                          sum_is_one = one;
                                        },
                                      ))))))))))
