-- ===== src/Crypto.antt =====
-- crypto/ethereum/ethereum.go, the recovery of an address from a signature, over the functions of
-- go-ethereum, protobuf and arbo that the code calls. Those are the fields of `Env`.
pub mod Decimal
use vocdoni.Base.{
  Bool, Bytes, List, Option, Slice, [], content, get_or, if◌then◌else◌, leb, length, ltb, none, set,
  some, suc, zero, ℕ, ℤ, ◌%◌, ◌++◌, ◌+◌, ◌-◌, ◌/◌, ◌||◌, ◌∷◌,
}
use vocdoni.Account.{Address}
use vocdoni.Action.{Result, bad_address, bad_public_key, err, ok}
use vocdoni.Models.{CensusOrigin, FaucetPayload, Vote}
use vocdoni.Models.Proofs.{ArboHash, CaBundle, StorageProof}

-- The keys of the vote cache: a transaction's id, or a nullifier behind `cacheNullPrefix`. The cache
-- is a list of entries in the order of the library.
pub data CacheKey : Type 0 where
  tx_key : Bytes → CacheKey
  nullifier_key : Bytes → CacheKey

abbrev pub VoteCache : Type 0
VoteCache = List (CacheKey × Option Vote)

pub record Env : Type 0 where
  -- `ethcrypto.Keccak256` and the SHA-256 of the standard library and of tendermint
  pub keccak : Bytes → Bytes
  pub sha256 : Bytes → Bytes
  -- `ethcrypto.SigToPub` of a hash and a signature, then `ethcrypto.CompressPubkey`
  pub sig_to_pub : Bytes → Bytes → Option Bytes
  -- `ethcrypto.DecompressPubkey`, then `ethcrypto.FromECDSAPub`
  pub decompress : Bytes → Option Bytes
  -- `ethcrypto.UnmarshalPubkey`, then `ethcrypto.PubkeyToAddress`
  pub unmarshal_address : Bytes → Option Address
  -- `common.BytesToAddress` and `Address.Bytes`
  pub bytes_to_address : Bytes → Address
  pub address_bytes : Address → Bytes
  -- `proto.Marshal` of a faucet payload and of a vote
  pub marshal_payload : FaucetPayload → Option Bytes
  pub marshal_vote : Vote → Option Bytes
  -- the public key of a private key, by `nacl.DecodePrivate`
  pub nacl_public : Bytes → Option Bytes
  -- arbo's hash functions, `arbo.CheckProof` of key, value, root and siblings, and
  -- `arbo.BytesToBigInt`
  pub arbo_hash : ArboHash → Bytes → Option Bytes
  pub arbo_check : ArboHash → Bytes → Slice → Bytes → Bytes → Option Bool
  pub bytes_to_big_int : Bytes → ℕ
  -- whether a Poseidon tree of arbo takes a value
  pub poseidon_accepts : Bytes → Bool
  -- `big.Int`: `SetBytes`, `Bytes` and `SetString` with base ten
  pub set_bytes : Bytes → ℕ
  pub big_bytes : ℕ → Bytes
  pub set_string : Bytes → Option ℤ
  -- `proto.Marshal` of a bundle, `ethcrypto.UnmarshalPubkey`, the addition of a multiple of the base
  -- point, and `ethcrypto.FromECDSAPub`
  pub marshal_bundle : CaBundle → Option Bytes
  pub unmarshal_pub_key : Bytes → Option Bytes
  pub add_base_mult : Bytes → Bytes → Bytes
  pub from_ecdsa_pub : Bytes → Bytes
  -- go-blindsecp256k1: a key of a key, a signature of its bytes, the addition of a multiple of the
  -- base point, and the verification of a hash
  pub blind_key : Bytes → Option Bytes
  pub blind_signature : Slice → Option Bytes
  pub blind_add : Bytes → Bytes → Bytes
  pub blind_verify : ℕ → Bytes → Bytes → Bool
  -- storage-proofs-eth-go: whether `mapbased.VerifyProof` and `minime.VerifyProof` give no error, and
  -- the balance of `minime.ParseMinimeValue`
  pub mapbased_verify : Address → Bytes → StorageProof → ℕ → ℕ → Bool
  pub minime_balance : Bytes → ℕ
  pub minime_verify : Address → Bytes → StorageProof → StorageProof → ℕ → ℕ → ℕ → Bool
  -- go-circom-prover-verifier: the parser of a proof's three groups of numbers, the verifier by the
  -- index of its key, and how many keys there are
  pub parse_zk : List Bytes → List (List Bytes) → List Bytes → Option Bytes
  pub zk_verify : ℕ → Bytes → List ℕ → Bool
  pub vk_count : ℕ
  -- golang-lru: `Get`, `Add` and `Remove`
  pub lru_get : CacheKey → VoteCache → Option (Option Vote) × VoteCache
  pub lru_add : CacheKey → Option Vote → VoteCache → VoteCache
  pub lru_remove : CacheKey → VoteCache → VoteCache
  -- On how many leaves arbo calls an iteration's callback, given its answers on the leaves in order.
  pub walk : List Bool → ℕ
  -- the chain id, the number of a census origin, and the parameter of the biggest circuit, if any
  pub chain_id : Bytes
  pub origin_number : CensusOrigin → ℕ
  pub biggest_circuit : Option ℕ

-- `types.EthereumZeroAddress` and `BurnAddress`
abbrev pub zero_address : Address
zero_address = 0

abbrev pub burn_address : Address
burn_address = 0xffffffffffffffffffffffffffffffffffffffff

-- `%d` of `fmt`; the fuel is more than the number of digits.
unfoldable pub decimal_digits : ℕ → ℕ → Bytes → Bytes
decimal_digits zero n acc = acc
decimal_digits (suc fuel) n acc =
    let rest = decimal_digits fuel (n / 10) ((48 + n % 10) ∷ acc) in
    if ltb n 10 then (48 + n % 10) ∷ acc else rest

unfoldable pub decimal : ℕ → Bytes
unfolding decimal_digits
decimal n = decimal_digits (suc n) n []

-- `SigningPrefix`: byte 0x19, "Ethereum Signed Message:" and a line feed.
abbrev pub signing_prefix : Bytes
signing_prefix =
    0x19 ∷ 69 ∷ 116 ∷ 104 ∷ 101 ∷ 114 ∷ 101 ∷ 117 ∷ 109 ∷ 32 ∷ 83 ∷ 105 ∷ 103 ∷ 110 ∷ 101 ∷ 100 ∷ 32
    ∷ 77 ∷ 101 ∷ 115 ∷ 115 ∷ 97 ∷ 103 ∷ 101 ∷ 58 ∷ 10 ∷ []

module _ (env : Env) where
  -- `Hash`
  unfoldable pub hash : Bytes → Bytes
  unfolding decimal
  hash message = env.keccak (signing_prefix ++ (decimal (length message) ++ message))

  -- The recovery byte of a signature: 27 is taken off on a byte, when it is above 1.
  unfoldable pub recovery_byte : ℕ → ℕ
  recovery_byte b = if ltb 1 b then (b + 256 - 27) % 256 else b

  -- `PubKeyFromSignature`; 65 is `SignatureLength`.
  unfoldable pub pub_key_from_signature : Bytes → Slice → Result Bytes
  unfolding hash recovery_byte
  pub_key_from_signature message signature =
      let sig = content signature in
      if ltb (length sig) 65 || ltb 77 (length sig)
      then err bad_public_key
      else if ltb 1 (recovery_byte (get_or sig 64 0))
      then err bad_public_key
      else elim (env.sig_to_pub (hash message) (set sig 64 (recovery_byte (get_or sig 64 0)))) [
        | none ↦ err bad_public_key
        | some key ↦ ok key
      ]

  -- `DecompressPubKey`
  unfoldable pub decompress_pub_key : Bytes → Option Bytes
  decompress_pub_key key = if ltb 33 (length key) then some key else env.decompress key

  -- `AddrFromPublicKey`
  unfoldable pub addr_from_public_key : Bytes → Result Address
  unfolding decompress_pub_key
  addr_from_public_key key =
      let full = if leb (length key) 33 then decompress_pub_key key else some key in
      elim full [
        | none ↦ err bad_address
        | some k ↦ elim (env.unmarshal_address k) [ none ↦ err bad_address | some a ↦ ok a ]
      ]

  -- `AddrFromSignature`
  unfoldable pub addr_from_signature : Bytes → Slice → Result Address
  unfolding pub_key_from_signature addr_from_public_key
  addr_from_signature message signature = elim (pub_key_from_signature message signature) [
    | err e ↦ err e
    | ok key ↦ addr_from_public_key key
  ]
