-- ===== src/Keys.antt =====
-- vochain/state.go and vochain/transaction.go, the encryption keys of a process: 16 slots
-- (`KeyKeeperMaxKeyIndex`), and the counter `KeyIndex` of the keys that are not revealed.
pub mod Slots
use vocdoni.Base.{
  Bytes, List, Option, Slice, [], add32, bytes_eq, content, get_or, if◌then◌else◌, is_none, length,
  ltb, none, not, set, some, ℕ, ◌&&◌, ◌-◌, ◌||◌,
}
use vocdoni.Action.{
  already_added, gets, lift, missing_field, not_added, not_allowed, or_raise, panic, pure, raise,
  raise_if, unauthorized, wrong_status, ◌>>=◌, ◌>>◌,
}
use vocdoni.Crypto.{Env, addr_from_signature}
use vocdoni.Models.{Process, canceled, ended, results}
use vocdoni.Processes.{hex, is_empty, process, status_eq, update_process}
use vocdoni.State.{Run, current_height, need_account, notify, on_process_keys, on_reveal_keys}
use vocdoni.State.Oracles.{get_oracles, listed}
use vocdoni.Tx.{AdminTx}

abbrev pub max_key_index : ℕ
max_key_index = 16

-- `keys[i]`, which panics out of range.
abbrev pub key_at : List Bytes → ℕ → Run Bytes
key_at keys i = if ltb i (length keys) then pure (get_or keys i []) else raise panic

-- `keys[i] = k`
abbrev pub write_key : List Bytes → ℕ → Bytes → Run (List Bytes)
write_key keys i k = if ltb i (length keys) then pure (set keys i k) else raise panic

-- `keys[i] = fmt.Sprintf("%x", key)`, where a key is given.
unfoldable pub write_given : List Bytes → ℕ → Slice → Run (List Bytes)
write_given keys i none = pure keys
write_given keys i (some key) = write_key keys i (hex key)

-- `*process.KeyIndex++`, from 0 where the pointer is nil.
abbrev pub next_key_index : Option ℕ → ℕ
next_key_index none = 1
next_key_index (some n) = add32 n 1

-- `AddProcessKeys`
unfoldable pub add_process_keys_commit : AdminTx → Run Unit
unfolding process update_process write_given
add_process_keys_commit tx = do
  pid ← or_raise tx.process_id missing_field
  index ← or_raise tx.key_index missing_field
  p ← process pid
  keys ← write_given p.encryption_public_keys index tx.encryption_public_key
  update_process
      (record p { encryption_public_keys = keys; key_index = some (next_key_index p.key_index) })
      pid
  counter ← gets (λ s. s.tx_counter)
  notify (on_process_keys tx.process_id tx.encryption_public_key counter)

-- `RevealProcessKeys`
unfoldable pub reveal_process_keys_commit : AdminTx → Run Unit
unfolding process update_process write_given
reveal_process_keys_commit tx = do
  pid ← or_raise tx.process_id missing_field
  index ← or_raise tx.key_index missing_field
  p ← process pid
  open_keys ← or_raise p.key_index not_added
  raise_if (ltb open_keys 1) not_added
  keys ← write_given p.encryption_private_keys index tx.encryption_private_key
  update_process (record p { encryption_private_keys = keys; key_index = some (open_keys - 1) }) pid
  counter ← gets (λ s. s.tx_counter)
  notify (on_reveal_keys tx.process_id tx.encryption_private_key counter)

-- `checkAddProcessKeys`, of an index that is given.
unfoldable pub check_add_process_keys : AdminTx → ℕ → Process → Run Unit
check_add_process_keys tx index p = do
  raise_if (is_none tx.encryption_public_key || ltb index 1 || ltb max_key_index index) not_allowed
  held ← key_at p.encryption_public_keys index
  raise_if (not (is_empty held)) already_added

-- `checkRevealProcessKeys`, of an index that is given.
unfoldable pub check_reveal_process_keys : Env → AdminTx → ℕ → Process → Run Unit
unfolding hex
check_reveal_process_keys env tx index p = do
  raise_if (is_none tx.encryption_private_key || ltb index 1 || ltb max_key_index index) not_allowed
  held ← key_at p.encryption_public_keys index
  raise_if (is_empty held) not_added
  public ← or_raise (env.nacl_public (content tx.encryption_private_key)) not_allowed
  raise_if (not (bytes_eq (hex public) held)) not_allowed

-- The branch of `AdminTxCheck` for `ADD_PROCESS_KEYS`.
unfoldable pub add_keys_check : AdminTx → Process → Run Unit
unfolding status_eq
add_keys_check tx p = do
  index ← or_raise tx.key_index missing_field
  height ← current_height
  raise_if (ltb p.start_block height) wrong_status
  raise_if (status_eq p.status canceled || status_eq p.status ended || status_eq p.status results)
      wrong_status
  held ← key_at p.encryption_public_keys index
  raise_if (not (is_empty held)) already_added
  check_add_process_keys tx index p

-- The branch of `AdminTxCheck` for `REVEAL_PROCESS_KEYS`.
unfoldable pub reveal_keys_check : Env → AdminTx → Process → Run Unit
unfolding status_eq
reveal_keys_check env tx p = do
  index ← or_raise tx.key_index missing_field
  height ← current_height
  raise_if
      (ltb height (add32 p.start_block p.block_count)
        && not (status_eq p.status ended || status_eq p.status canceled))
      wrong_status
  held ← key_at p.encryption_private_keys index
  raise_if (not (is_empty held)) already_added
  check_reveal_process_keys env tx index p

-- The authorisation of the keys' transactions: the signer is an oracle that has an account.
unfoldable pub oracle_check : Env → Bytes → Slice → Run Unit
unfolding get_oracles listed
oracle_check env message signature = do
  oracles ← get_oracles env
  raise_if (is_empty oracles) unauthorized
  addr ← lift (addr_from_signature env message signature)
  raise_if (not (listed addr oracles)) unauthorized
  oracle_acc ← need_account addr
  pure tt
