-- ===== src/Keys/Slots.antt =====
-- The key slots of a process (vochain/state.go and vochain/transaction.go).
use vocdoni.Base.{
  Bytes, [], ap, arith, content, length, none, set, some, ℕ, ◌++◌, ◌-◌, ◌<◌, ◌∷◌, ◌≡◌, ◌≤◌, ◌⊎◌,
}
use vocdoni.Action.{err, not_added, ok, panic}
use vocdoni.Keys.{
  add_keys_check, add_process_keys_commit, next_key_index, reveal_process_keys_commit, write_given,
}
use vocdoni.Models.{Process, ProcessMode, paused, ready}
use vocdoni.Processes.{hex, process, status_eq, update_process}
use vocdoni.Processes.Status.{Holds, updated}
use vocdoni.State.{State, on_process_keys, on_reveal_keys}
use vocdoni.State.Faucet.{stored}
use vocdoni.Tx.{AdminTx}

-- The process with a public key in a slot.
abbrev with_public : ℕ → Bytes → Process → Process
with_public index key p = record p {
  encryption_public_keys = set p.encryption_public_keys index (hex key);
  key_index = some (next_key_index p.key_index);
}

module _ {pid : Bytes} {p : Process} {m : ProcessMode} (index : ℕ) (key : Bytes) (tx : AdminTx)
    (s : State) (held : Holds s pid p m) (for_process : tx.process_id ≡ some pid)
    (at : tx.key_index ≡ some index) where
  -- A public key goes into its slot, the counter of open keys goes up by one, the listeners are
  -- told, and nothing else changes.
  add_process_keys_ok :
      tx.encryption_public_key ≡ some key
      → index < length p.encryption_public_keys
      → add_process_keys_commit tx s ≡ (
        ok tt,
        record (updated pid (with_public index key p) s) {
          events = s.events ++ on_process_keys tx.process_id (some key) s.tx_counter ∷ [];
        },
      )
  unfolding add_process_keys_commit process update_process write_given
  add_process_keys_ok given inside =
      let (root, stored) = held.stored in
      let named : content p.process_id ≡ pid = held.named in
      let sized : length (content p.process_id) ≡ 32 = omega (arith, ap length named, held.sized) in
      ground (arith, stored, sized)

-- The process with a private key in a slot, and one open key less.
abbrev pub with_private : ℕ → Bytes → ℕ → Process → Process
with_private index key open_keys p = record p {
  encryption_private_keys = set p.encryption_private_keys index (hex key);
  key_index = some (open_keys - 1);
}

module _ {pid : Bytes} {p : Process} {m : ProcessMode} (index : ℕ) (key : Bytes) (tx : AdminTx)
    (s : State) (held : Holds s pid p m) (for_process : tx.process_id ≡ some pid)
    (at : tx.key_index ≡ some index) (given : tx.encryption_private_key ≡ some key) where
  -- A private key goes into its slot, the counter of open keys goes down by one, the listeners are
  -- told, and nothing else changes.
  pub reveal_process_keys_ok :
      {open_keys : ℕ}
      → p.key_index ≡ some open_keys
      → 0 < open_keys
      → index < length p.encryption_private_keys
      → reveal_process_keys_commit tx s ≡ (
        ok tt,
        record (updated pid (with_private index key open_keys p) s) {
          events = s.events ++ on_reveal_keys tx.process_id (some key) s.tx_counter ∷ [];
        },
      )
  unfolding reveal_process_keys_commit process update_process write_given
  reveal_process_keys_ok opened some_open inside =
      let (root, stored) = held.stored in
      let named : content p.process_id ≡ pid = held.named in
      let sized : length (content p.process_id) ≡ 32 = omega (arith, ap length named, held.sized) in
      ground (arith, stored, sized)

  -- Without an open key nothing is revealed.
  pub reveal_process_keys_none :
      (p.key_index ≡ none) ⊎ (p.key_index ≡ some 0)
      → reveal_process_keys_commit tx s ≡ (err not_added, s)
  unfolding reveal_process_keys_commit process
  reveal_process_keys_none closed = let (root, stored) = held.stored in ground (arith, stored)

module _ {index : ℕ} (p : Process) (tx : AdminTx) (s : State) (at : tx.key_index ≡ some index) where
  -- A key index beyond the slots stops the node while the transaction is checked, when the process
  -- has not started and is ready or paused. The slots are 16, and the index 16 is beyond them.
  pub add_keys_check_panics :
      (p.status ≡ ready) ⊎ (p.status ≡ paused)
      → s.current_height ≤ p.start_block
      → length p.encryption_public_keys ≤ index
      → add_keys_check tx p s ≡ (err panic, s)
  unfolding add_keys_check status_eq
  add_keys_check_panics alive early outside = ground arith
