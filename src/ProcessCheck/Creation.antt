-- ===== src/ProcessCheck/Creation.antt =====
-- What `NewProcessTxCheck` (vochain/process.go) says of a process that it accepts.
use vocdoni.Base.{
  Option-cases, Slice, add32, arith, dec_lt, inl, inr, refl, some, u32_mod, ℕ, ℕ_discrete, ◌+◌, ◌<◌,
  ◌≡◌, ◌≤◌, ◌⊎◌,
}
use vocdoni.Account.{Address}
use vocdoni.Action.{bad_process, err, ok}
use vocdoni.Crypto.{Env}
use vocdoni.Models.{Process}
use vocdoni.ProcessCheck.{
  new_process_tx_check, required_fields, start_block_check, with_built_id, with_key_slots,
}
use vocdoni.ProcessCheck.Reads.{required_fields-Reads}
use vocdoni.State.{State}
use vocdoni.Tx.{NewProcessTx}

start_block_cases :
    (p : Process) (s : State)
    → ((start_block_check p s).0 ≡ err bad_process)
      ⊎ ((n : ℕ) × (start_block_check p s ≡ (ok (record p { start_block = n }), s))
          × ((s.current_height + 1 < u32_mod) → s.current_height ≤ n))
unfolding start_block_check
start_block_cases p s = elim (ℕ_discrete p.start_block 0) [
  | yes zero_block ↦ inr (add32 s.current_height 1, ground arith, λ h. omega (arith))
  | no e0 ↦ elim (ℕ_discrete p.start_block 1) [
    | yes one_block ↦ inr (add32 s.current_height 1, ground arith, λ h. omega (arith))
    | no e1 ↦ elim (dec_lt p.start_block s.current_height) [
      | yes past ↦ inl (ground arith)
      | no later ↦ inr (p.start_block, ground arith, λ h. omega (arith))
    ]
  ]
]

module _ (env : Env) (tx_bytes signature : Slice) (tx : NewProcessTx) {p : Process} {addr : Address}
    (s : State)
    (checked : new_process_tx_check env tx_bytes signature (some tx) s ≡ (ok (p, addr), s)) where
  -- A new process that passes its check lasts at least one block and does not start in the past.
  pub new_process_inv :
      s.current_height + 1 < u32_mod → (0 < p.block_count) × (s.current_height ≤ p.start_block)
  unfolding new_process_tx_check with_key_slots with_built_id
  new_process_inv small = elim (Option-cases tx.process) [
    | inl e ↦ ground arith
    | inr (given, e) ↦
        let req : (required_fields given s).1 ≡ s = (required_fields-Reads given s).run s refl in
        elim (start_block_cases given s) [
          | inl bad ↦ ground arith
          | inr (n, started, late) ↦ ground (arith, late small)
        ]
  ]
