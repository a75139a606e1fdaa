-- ===== src/Ledger.antt =====
-- vochain/account.go, the methods of `State` on accounts. `GetAccount` gives a fresh copy at each
-- call, so two copies of one account are written back one after the other.
pub mod Supply
pub mod Transfers
pub mod Fees
pub mod Faucets
use vocdoni.Base.{
  Bool, Bytes, List, Option, [], add32, add64, bytes_eq, false, if◌then◌else◌, is_none, leb, length,
  ltb, not, replicate, some, suc, true, zero, ℕ, ◌%◌, ◌++◌, ◌/◌, ◌==◌, ◌∷◌,
}
use vocdoni.Account.{Account, Address, add_delegate, del_delegate, empty_account, transfer}
use vocdoni.Action.{
  Result, account_already_exists, balance_overflow, burn_not_exist, err, invalid_address,
  invalid_from, invalid_tx_type, lift, or_raise, payload_nil, pure, raise_if, zero_amount, ◌>>=◌,
  ◌>>◌,
}
use vocdoni.Crypto.{Env, burn_address, zero_address}
use vocdoni.Models.{
  FaucetPayload, TxType, add_delegate_for_account_type, collect_faucet_type,
  del_delegate_for_account_type, set_account_info_type,
}
use vocdoni.State.{Run, get_account, need_account, set_account}
use vocdoni.State.Extra.{tx_cost}
use vocdoni.State.Faucet.{set_faucet_nonce}

-- `TransferBalance`
unfoldable pub transfer_balance : Address → Address → ℕ → Run Unit
unfolding transfer
transfer_balance from to amount = do
  acc_from ← need_account from
  acc_to ← need_account to
  (paid, received) ← lift (transfer acc_from (some acc_to) amount)
  set_account from paid
  set_account to received

-- `MintBalance`
unfoldable pub mint_balance : Address → ℕ → Run Unit
mint_balance address amount = do
  raise_if (amount == 0) zero_amount
  acc ← need_account address
  raise_if (leb (add64 acc.balance amount) acc.balance) balance_overflow
  set_account address (record acc { balance = add64 acc.balance amount })

-- `SetAccountInfoURI`
unfoldable pub set_account_info_uri : Address → Bytes → Run Unit
set_account_info_uri address info_uri = do
  acc ← need_account address
  set_account address (record acc { info_uri = info_uri })

-- The process index after `IncrementAccountProcessIndex`, which starts again above 2 ^ 22.
unfoldable pub next_process_index : ℕ → ℕ
next_process_index i = add32 (if ltb 4194304 i then 0 else i) 1

-- `IncrementAccountProcessIndex`
unfoldable pub increment_account_process_index : Address → Run Unit
unfolding next_process_index
increment_account_process_index address = do
  acc ← need_account address
  set_account address (record acc { process_index = next_process_index acc.process_index })

-- `txType == models.TxType_SET_ACCOUNT_INFO`, and the same of `COLLECT_FAUCET`.
unfoldable pub is_set_account_info : TxType → Bool
is_set_account_info set_account_info_type = true
is_set_account_info _ = false

unfoldable pub is_collect_faucet : TxType → Bool
is_collect_faucet collect_faucet_type = true
is_collect_faucet _ = false

-- `SubtractCostIncrementNonce`
unfoldable pub subtract_cost_increment_nonce : Address → TxType → Run Unit
unfolding transfer tx_cost is_collect_faucet
subtract_cost_increment_nonce address t = do
  acc ← need_account address
  cost ← tx_cost t
  let counted = if is_collect_faucet t then acc else record acc { nonce = add32 acc.nonce 1 }
  if cost == 0 then set_account address counted else do
    burn ← or_raise (← get_account burn_address) burn_not_exist
    (paid, burnt) ← lift (transfer counted (some burn) cost)
    set_account burn_address burnt
    set_account address paid

-- `binary.LittleEndian.PutUint64`
unfoldable pub little_endian : ℕ → ℕ → Bytes
little_endian zero n = []
little_endian (suc k) n = (n % 256) ∷ little_endian k (n / 256)

-- The change that `SetAccountDelegate` makes for a transaction's type.
unfoldable pub delegate_change : TxType → Bytes → Account → Result Account
unfolding add_delegate del_delegate
delegate_change add_delegate_for_account_type delegate acc = add_delegate delegate acc
delegate_change del_delegate_for_account_type delegate acc = del_delegate delegate acc
delegate_change _ delegate acc = err invalid_tx_type

module _ (env : Env) where
  -- The delegates of a new account: `make` fills the slice with as many nil entries as there are
  -- delegates, and the addresses are appended behind those.
  unfoldable pub nonzero_delegates : List Address → List Bytes
  nonzero_delegates [] = []
  nonzero_delegates (d ∷ ds) =
      let rest = nonzero_delegates ds in
      if bytes_eq (env.address_bytes d) (replicate 20 0) then rest else env.address_bytes d ∷ rest

  unfoldable pub initial_delegates : List Address → List Bytes
  unfolding nonzero_delegates
  initial_delegates [] = []
  initial_delegates (d ∷ ds) = replicate (length (d ∷ ds)) [] ++ nonzero_delegates (d ∷ ds)

  -- `CreateAccount`
  unfoldable pub create_account : Address → Bytes → List Address → ℕ → Run Unit
  unfolding initial_delegates
  create_account address info_uri delegates init_balance = do
    raise_if (address == zero_address) invalid_address
    acc ← get_account address
    raise_if (not (is_none acc)) account_already_exists
    set_account address (record empty_account {
      balance = init_balance;
      info_uri = info_uri;
      delegate_addrs = initial_delegates delegates;
    })

  -- The key under which a consumed package is stored.
  unfoldable pub faucet_key : Address → ℕ → Bytes
  unfolding little_endian
  faucet_key issuer identifier = env.sha256 (env.address_bytes issuer ++ little_endian 8 identifier)

  -- The fee of a package: burnt from the issuer, or, where it is burnt elsewhere, only the
  -- receiver's nonce is incremented.
  unfoldable pub faucet_fee :
      TxType → Account → Account → Account → Run (Account × Account × Account)
  unfolding transfer tx_cost is_set_account_info
  faucet_fee t acc_from acc_to burn =
      if is_set_account_info t
      then (do
        cost ← tx_cost collect_faucet_type
        (paid, burnt) ← lift (transfer acc_from (some burn) cost)
        pure (paid, acc_to, burnt))
      else pure (acc_from, record acc_to { nonce = add32 acc_to.nonce 1 }, burn)

  -- `ConsumeFaucetPayload`
  unfoldable pub consume_faucet_payload : Address → Option FaucetPayload → TxType → Run Unit
  unfolding transfer faucet_fee faucet_key set_faucet_nonce
  consume_faucet_payload from faucet_payload t = do
    payload ← or_raise faucet_payload payload_nil
    raise_if (from == zero_address) invalid_from
    acc_from ← need_account from
    let to = env.bytes_to_address payload.to
    acc_to ← need_account to
    burn ← need_account burn_address
    (paid, received) ← lift (transfer acc_from (some acc_to) payload.amount)
    (last_from, last_to, last_burn) ← faucet_fee t paid received burn
    set_faucet_nonce (faucet_key from payload.identifier)
    set_account from last_from
    set_account to last_to
    set_account burn_address last_burn

  -- `SetAccountDelegate`
  unfoldable pub set_account_delegate : Address → Address → TxType → Run Unit
  unfolding delegate_change
  set_account_delegate account delegate t = do
    acc ← need_account account
    changed ← lift (delegate_change t (env.address_bytes delegate) acc)
    set_account account changed
