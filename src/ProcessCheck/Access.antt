-- ===== src/ProcessCheck/Access.antt =====
-- Who may change a process: `SetProcessTxCheck` (vochain/process.go).
use vocdoni.Base.{
  Bool, Slice, ap, arith, bytes_eq, content, false, if◌then◌else◌, inl, inr, is_none, ltb, not,
  refl, some, true, ℕ, ◌&&◌, ◌==◌, ◌≡◌, ◌≤◌, ◌⊎◌,
}
use vocdoni.Account.{Account, Address}
use vocdoni.AccountCheck.{account_from_signature, signed}
use vocdoni.AccountCheck.Reads.{account_from_signature-Reads}
use vocdoni.Action.{
  Error, account_nonce_invalid, err, not_enough_balance, ok, ok_inj, pure, raise_if, unauthorized,
  ◌>>=◌, ◌>>◌,
}
use vocdoni.Action.Preserve.{
  bind_reads, if-Preserves, preserve_rules, pure-Preserves, raise_if-Preserves, raise_if_inv,
}
use vocdoni.Crypto.{Env}
use vocdoni.Models.{Process, StateDbProcess, set_process_results_type}
use vocdoni.ProcessCheck.{set_process_tx_check, set_process_type_check}
use vocdoni.ProcessCheck.Reads.{is_oracle-Reads, set_process_type_check-Reads}
use vocdoni.Processes.{process}
use vocdoni.Processes.Reads.{process-Preserves}
use vocdoni.State.{State}
use vocdoni.State.Extra.{tx_cost}
use vocdoni.State.Oracles.{is_oracle}
use vocdoni.Tx.{SetProcessTx}
use mathlib.Core.Path.{subst}

module _ (env : Env) (tx_bytes signature : Slice) (tx : SetProcessTx) {addr : Address}
    {leaf : StateDbProcess} {acc : Account} {cost : ℕ} (s : State)
    (ec : tx_cost tx.txtype s ≡ (ok cost, s))
    (from : account_from_signature env (content tx_bytes) signature s ≡ (ok (addr, acc), s))
    (stored : s.processes tx.process_id ≡ some leaf) where
  -- The entity of a process cannot set its results, even if it is an oracle: an owner is not looked
  -- up in the list of oracles.
  pub owner_results_refused :
      tx.txtype ≡ set_process_results_type
      → bytes_eq leaf.process.entity_id (env.address_bytes addr) ≡ true
      → is_none signature ≡ false
      → is_none tx_bytes ≡ false
      → cost ≤ acc.balance
      → acc.nonce ≡ tx.nonce
      → set_process_tx_check env tx_bytes signature (some tx) s ≡ (err unauthorized, s)
  unfolding set_process_tx_check process set_process_type_check
  owner_results_refused typed owner signature_set bytes_set cover nonce_eq = ground arith

module _ (env : Env) (tx_bytes signature : Slice) where
  -- What is known of a `SetProcess` transaction that passes its check.
  pub record IsAllowed (tx : SetProcessTx) (s : State) (addr : Address) : Type 0 where
    pub p : Process
    pub acc : Account
    pub cost : ℕ
    pub found : process tx.process_id s ≡ (ok p, s)
    pub signed_by : account_from_signature env (content tx_bytes) signature s ≡ (ok (addr, acc), s)
    pub owner_or_oracle :
        (bytes_eq p.entity_id (env.address_bytes addr) ≡ true)
        ⊎ (is_oracle env addr s ≡ (ok true, s))
    pub nonce : acc.nonce ≡ tx.nonce
    pub costs : tx_cost tx.txtype s ≡ (ok cost, s)
    pub covered : cost ≤ acc.balance

  signed_inv :
      (tx : SetProcessTx) (s : State) {t : SetProcessTx}
      → signed env tx_bytes signature (some tx) s ≡ (ok t, s)
      → t ≡ tx
  signed_inv tx s h = ground arith

  either :
      (owner oracle : Bool) (a : Address) {s : State}
      → (if owner then pure false else is_oracle env a) s ≡ (ok oracle, s)
      → (not owner && not oracle) ≡ false
      → (owner ≡ true) ⊎ (is_oracle env a s ≡ (ok true, s))
  either true oracle a looked h = inl refl
  either false true a looked h = inr looked
  either false false a looked h = absurd (ground arith)

  same_nonce : (a b : ℕ) → (not (a == b)) ≡ false → a ≡ b
  same_nonce a b h = ground arith

  enough : (a b : ℕ) → ltb a b ≡ false → b ≤ a
  enough a b h = ground arith

  raised_not : (b : Bool) (e : Error) (s : State) → raise_if b e s ≡ (ok tt, s) → b ≡ false
  raised_not b e s h = (raise_if_inv b e s h).0

  pub set_process_tx_check_inv :
      (tx : SetProcessTx) (s : State) {addr : Address} {u : State}
      → set_process_tx_check env tx_bytes signature (some tx) s ≡ (ok addr, u)
      → IsAllowed tx s addr
  unfolding set_process_tx_check tx_cost
  set_process_tx_check_inv tx s {addr} {u} h =
      let message = content tx_bytes in
      let owner = λ (t : SetProcessTx) (p : Process) (a : Address).
        bytes_eq p.entity_id (env.address_bytes a) in
      let typed = λ (t : SetProcessTx) (p : Process) (a : Address) (oracle : Bool).
        raise_if (not (owner t p a) && not oracle) unauthorized
        >> (set_process_type_check env tx_bytes signature t p a oracle t.txtype >> pure a) in
      let with_process = λ (t : SetProcessTx) (a : Address) (p : Process).
        (if owner t p a then pure false else is_oracle env a) >>= typed t p a in
      let with_nonce = λ (t : SetProcessTx) (x : Address × Account).
        raise_if (not (x.1.nonce == t.nonce)) account_nonce_invalid
        >> (process t.process_id >>= with_process t x.0) in
      let with_account = λ (t : SetProcessTx) (cost : ℕ) (x : Address × Account).
        raise_if (ltb x.1.balance cost) not_enough_balance >> with_nonce t x in
      let with_cost = λ (t : SetProcessTx) (cost : ℕ).
        account_from_signature env message signature >>= with_account t cost in
      let with_tx = λ (t : SetProcessTx). tx_cost t.txtype >>= with_cost t in
      let (t, is_signed, h1) =
        bind_reads (signed env tx_bytes signature (some tx)) with_tx s
          (search preserve_rules depth 20) h in
      let same : t ≡ tx = signed_inv tx s is_signed in
      let (cost, costs, h2) =
        bind_reads (tx_cost tx.txtype) (with_cost tx) s (search preserve_rules depth 20)
          (subst (λ x. with_tx x s ≡ (ok addr, u)) same h1) in
      let ((a, acc), from, h3) =
        bind_reads (account_from_signature env message signature) (with_account tx cost) s
          (account_from_signature-Reads env message signature s) h2 in
      let (_, cover, h4) =
        bind_reads (raise_if (ltb acc.balance cost) not_enough_balance)
          (λ _. with_nonce tx (a, acc)) s
          (raise_if-Preserves (ltb acc.balance cost) not_enough_balance) h3 in
      let (_, nonce, h5) =
        bind_reads (raise_if (not (acc.nonce == tx.nonce)) account_nonce_invalid)
          (λ _. process tx.process_id >>= with_process tx a) s
          (raise_if-Preserves (not (acc.nonce == tx.nonce)) account_nonce_invalid) h4 in
      let (p, found, h6) =
        bind_reads (process tx.process_id) (with_process tx a) s (process-Preserves tx.process_id)
          h5 in
      let (oracle, looked, h7) =
        bind_reads (if owner tx p a then pure false else is_oracle env a) (typed tx p a) s
          (if-Preserves (owner tx p a) (pure false) (is_oracle env a) (pure-Preserves false)
            (is_oracle-Reads env a s))
          h6 in
      let (_, allowed, h8) =
        bind_reads (raise_if (not (owner tx p a) && not oracle) unauthorized)
          (λ _. set_process_type_check env tx_bytes signature tx p a oracle tx.txtype >> pure a) s
          (raise_if-Preserves (not (owner tx p a) && not oracle) unauthorized) h7 in
      let (_, _, last) =
        bind_reads (set_process_type_check env tx_bytes signature tx p a oracle tx.txtype)
          (λ _. pure a) s
          (set_process_type_check-Reads env tx_bytes signature tx p a oracle tx.txtype s) h8 in
      let sent : a ≡ addr = ok_inj (ap (λ x. x.0) last) in
      subst (IsAllowed tx s) sent (record {
        p = p;
        acc = acc;
        cost = cost;
        found = found;
        signed_by = from;
        owner_or_oracle =
            either (owner tx p a) oracle a looked
              (raised_not (not (owner tx p a) && not oracle) unauthorized s allowed);
        nonce =
            same_nonce acc.nonce tx.nonce
              (raised_not (not (acc.nonce == tx.nonce)) account_nonce_invalid s nonce);
        costs = costs;
        covered =
            enough acc.balance cost (raised_not (ltb acc.balance cost) not_enough_balance s cover);
      })
