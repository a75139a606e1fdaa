-- ===== src/AddTx/Mint.antt =====
-- `AddTx` of the treasurer's token mints (vochain/transaction.go).
use vocdoni.Base.{
  Bool, Bytes, Slice, [], add32, arith, if◌then◌else◌, some, true, u32_mod, u64_mod, ℕ, ◌+◌, ◌<◌,
  ◌≡◌,
}
use vocdoni.Account.{Account, Address}
use vocdoni.AccountCheck.{mint_tokens_tx_check, signer}
use vocdoni.AccountCheck.Reads.{mint_tokens_tx_check-Reads}
use vocdoni.Action.{err, invalid_nonce, ok, pure, some_of, ◌>>◌}
use vocdoni.Action.Preserve.{bind_reads}
use vocdoni.AddTx.{add_mint_tokens, add_tx}
use vocdoni.Crypto.{Env}
use vocdoni.Crypto.Decimal.{value}
use vocdoni.Ledger.{mint_balance}
use vocdoni.Models.{Treasurer}
use vocdoni.State.{State, put}
use vocdoni.State.Extra.{increment_treasurer_nonce, is_treasurer, treasurer}
use vocdoni.Tx.{MintTokensTx, tx_mint_tokens}

module _ (env : Env) (tx_bytes signature : Slice) (tx : MintTokensTx) {to amount : ℕ}
    {t : Treasurer} (s : State)
    (checked : mint_tokens_tx_check env tx_bytes signature (some tx) s ≡ (ok (to, amount), s))
    (et : s.treasurer ≡ some t) where
  -- Tokens are minted only by a message that the treasurer signed, under the treasurer's nonce.
  mint_access :
      (signer env tx_bytes signature s ≡ (ok (env.bytes_to_address t.address), s))
      × (tx.nonce ≡ t.nonce)
      × (tx.value ≡ amount)
      × (0 < amount)
  unfolding mint_tokens_tx_check treasurer
  mint_access = ground arith

  -- A mint that passed its check adds the amount to the receiver and one to the treasurer's nonce,
  -- and changes nothing else.
  pub mint_commits :
      {d : Account}
      → s.accounts to ≡ some d
      → d.balance + amount < u64_mod
      → add_tx env tx_bytes signature (tx_mint_tokens tx) true s ≡ (
        ok [],
        record s {
          accounts = put to (record d { balance = d.balance + amount }) s.accounts;
          treasurer = some (record t { nonce = add32 t.nonce 1 });
        },
      )
  unfolding add_tx add_mint_tokens increment_treasurer_nonce treasurer mint_balance
  mint_commits ed room = let (by, nonce_eq, value, positive) = mint_access in ground arith

  -- Once committed, the same mint is refused for its nonce.
  pub mint_replay :
      {d : Account} (commit : Bool)
      → s.accounts to ≡ some d
      → d.balance + amount < u64_mod
      → t.nonce < u32_mod
      → (add_tx env tx_bytes signature
          (tx_mint_tokens tx)
          commit
          (add_tx env tx_bytes signature (tx_mint_tokens tx) true s).1).0
        ≡ err invalid_nonce
  unfolding add_tx add_mint_tokens mint_tokens_tx_check treasurer
  mint_replay commit ed room small =
      let (by, nonce_eq, value, positive) = mint_access in rw (mint_commits ed room) (ground arith)

module _ (env : Env) (tx_bytes signature : Slice) where
  -- The treasurer of a mint that passes its check is there.
  mint_treasurer :
      (tx : MintTokensTx) (s : State) {x : Address × ℕ}
      → mint_tokens_tx_check env tx_bytes signature (some tx) s ≡ (ok x, s)
      → (t : Treasurer) × (s.treasurer ≡ some t)
  unfolding mint_tokens_tx_check treasurer
  mint_treasurer tx s h = some_of s.treasurer (λ bad. ground arith)

  -- A mint transaction that is accepted, checked or delivered: the treasurer of the state signed it,
  -- under the treasurer's nonce, and for a positive amount.
  pub mint_signed :
      (tx : MintTokensTx) (commit : Bool) (s : State) {r : Bytes} {u : State}
      → add_tx env tx_bytes signature (tx_mint_tokens tx) commit s ≡ (ok r, u)
      → (t : Treasurer) × (s.treasurer ≡ some t)
        × (signer env tx_bytes signature s ≡ (ok (env.bytes_to_address t.address), s))
        × (tx.nonce ≡ t.nonce)
        × (0 < tx.value)
  unfolding add_tx add_mint_tokens
  mint_signed tx commit s h =
      let check = mint_tokens_tx_check env tx_bytes signature (some tx) in
      let effect = λ (x : Address × ℕ).
        if commit
        then (mint_balance x.0 x.1 >> increment_treasurer_nonce) >> pure []
        else pure [] in
      let ((to, amount), passed, rest) =
        bind_reads check effect s (mint_tokens_tx_check-Reads env tx_bytes signature (some tx) s)
          h in
      let (t, is_treasurer) = mint_treasurer tx s passed in
      let (by, nonce, value, positive) =
        mint_access env tx_bytes signature tx s passed is_treasurer in
      (t, is_treasurer, by, nonce, omega (arith, value, positive))
