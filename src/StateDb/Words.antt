-- ===== src/StateDb/Words.antt =====
-- Words in little endian.
use vocdoni.Base.{
  Bytes, ap, arith, bytes_eq_refl, false, length, ltb, refl, suc, sym, u64_mod, zero, ℕ, ◌*◌, ◌/◌,
  ◌<◌, ◌∙◌, ◌≡◌,
}
use vocdoni.Action.{ok}
use vocdoni.Database.{Database, IsLawful}
use vocdoni.Ledger.{little_endian}
use vocdoni.State.Faucet.{stored}
use vocdoni.StateDb.{get_uint64, read_little_endian, read_word, set_uint64}

pub length-little_endian : (k n : ℕ) → length (little_endian k n) ≡ k
unfolding little_endian
length-little_endian zero n = refl
length-little_endian (suc k) n = ap suc (length-little_endian k (n / 256))

-- A power of 256.
unfoldable pub power256 : ℕ → ℕ
power256 zero = 1
power256 (suc k) = 256 * power256 k

pub read_little_endian-little_endian :
    (k n : ℕ) → n < power256 k → read_little_endian k (little_endian k n) ≡ n
unfolding read_little_endian little_endian power256
read_little_endian-little_endian zero n h = omega arith
read_little_endian-little_endian (suc k) n h =
    let later = read_little_endian-little_endian k (n / 256) (omega arith) in omega (arith, later)

-- A word that is written is read back.
pub read_word-little_endian : (k n : ℕ) → n < power256 k → read_word k (little_endian k n) ≡ ok n
unfolding read_word
read_word-little_endian k n h =
    let long : ltb k k ≡ false = ground arith in
    rw (length-little_endian k n, long, read_little_endian-little_endian k n h) refl

pub little_endian_inj :
    (k n m : ℕ) → n < power256 k → m < power256 k → little_endian k n ≡ little_endian k m → n ≡ m
little_endian_inj k n m h h' e =
    sym (read_little_endian-little_endian k n h)
    ∙ ap (read_little_endian k) e
    ∙ read_little_endian-little_endian k m h'

-- A number of 64 bits that is stored is read back.
pub get_uint64-set_uint64 :
    (D : Database) (key : Bytes) (n : ℕ) (stored : D.Data)
    → IsLawful D
    → n < u64_mod
    → get_uint64 D key (set_uint64 D key n stored) ≡ ok n
unfolding get_uint64 set_uint64 power256
get_uint64-set_uint64 D key n stored lawful h =
    rw
      (get_uint64, set_uint64, lawful.get-set stored key (little_endian 8 n) key, bytes_eq_refl key)
      (read_word-little_endian 8 n h)
