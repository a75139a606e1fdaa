-- ===== src/ProcessId/RoundTrip.antt =====
-- Encoding and decoding of process ids (vochain/process_id.go).
use vocdoni.Base.{
  Bool, Bytes, [], ap, arith, drop, drop-append, false, get_or, get_or-append_right, length,
  length-append, length-take, refl, some, suc, take, take-append, take_all, true, u32_mod, zero, ℕ,
  ◌%◌, ◌++◌, ◌+◌, ◌<◌, ◌∙◌, ◌∷◌, ◌≡◌, ◌≤◌,
}
use vocdoni.Account.{Address}
use vocdoni.Action.{ok}
use vocdoni.Crypto.{Env}
use vocdoni.Models.{EnvelopeType}
use vocdoni.ProcessId.{
  ProcessId, big_endian32, envelope_code, envelope_type, marshal, max_envelope_type,
  read_big_endian32, set_envelope_type, unmarshal,
}
use vocdoni.Processes.{hex}
use vocdoni.StateDb.Words.{power256}

-- What the code relies on of go-ethereum: an address, a number below 2 ^ 160, has 20 bytes that are
-- read back to it, and a hash has at least six.
pub record Codec (env : Env) : Type 0 where
  pub address_size : (a : Address) → length (env.address_bytes a) ≡ 20
  pub address_back :
      (a : Address) → a < power256 20 → env.bytes_to_address (env.address_bytes a) ≡ a
  pub hash_size : (b : Bytes) → 6 ≤ length (env.keccak b)

take-take-append :
    (xs ys : Bytes) (m n : ℕ) → m ≤ n → n ≤ length xs → take m (take n xs ++ ys) ≡ take m xs
take-take-append xs ys zero n h k = refl
take-take-append [] ys (suc m) n h k = absurd (omega arith)
take-take-append (x ∷ xs) ys (suc m) zero h k = absurd (omega arith)
take-take-append (x ∷ xs) ys (suc m) (suc n) h k =
    ap (λ l. x ∷ l) (take-take-append xs ys m n (omega arith) (omega arith))

-- The four bytes of a `uint32` are read back to it.
pub read_big_endian32-big_endian32 : (n : ℕ) → n < u32_mod → read_big_endian32 (big_endian32 n) ≡ n
unfolding read_big_endian32 big_endian32
read_big_endian32-big_endian32 n h = omega arith

abbrev flags : Bool → Bool → Bool → Bool → Bool → EnvelopeType
flags a b c d e = record {
  serial = a;
  anonymous = b;
  encrypted_votes = c;
  unique_values = d;
  cost_from_weight = e;
}

flags_back :
    (p : ProcessId) (a b c d e : Bool)
    → (envelope_code (flags a b c d e) ≤ max_envelope_type)
      × (envelope_type (record p { env_type = envelope_code (flags a b c d e) }) ≡ flags a b c d e)
unfolding envelope_type envelope_code
flags_back p true true true true true = (omega arith, refl)
flags_back p true true true true false = (omega arith, refl)
flags_back p true true true false true = (omega arith, refl)
flags_back p true true true false false = (omega arith, refl)
flags_back p true true false true true = (omega arith, refl)
flags_back p true true false true false = (omega arith, refl)
flags_back p true true false false true = (omega arith, refl)
flags_back p true true false false false = (omega arith, refl)
flags_back p true false true true true = (omega arith, refl)
flags_back p true false true true false = (omega arith, refl)
flags_back p true false true false true = (omega arith, refl)
flags_back p true false true false false = (omega arith, refl)
flags_back p true false false true true = (omega arith, refl)
flags_back p true false false true false = (omega arith, refl)
flags_back p true false false false true = (omega arith, refl)
flags_back p true false false false false = (omega arith, refl)
flags_back p false true true true true = (omega arith, refl)
flags_back p false true true true false = (omega arith, refl)
flags_back p false true true false true = (omega arith, refl)
flags_back p false true true false false = (omega arith, refl)
flags_back p false true false true true = (omega arith, refl)
flags_back p false true false true false = (omega arith, refl)
flags_back p false true false false true = (omega arith, refl)
flags_back p false true false false false = (omega arith, refl)
flags_back p false false true true true = (omega arith, refl)
flags_back p false false true true false = (omega arith, refl)
flags_back p false false true false true = (omega arith, refl)
flags_back p false false true false false = (omega arith, refl)
flags_back p false false false true true = (omega arith, refl)
flags_back p false false false true false = (omega arith, refl)
flags_back p false false false false true = (omega arith, refl)
flags_back p false false false false false = (omega arith, refl)

-- The byte of an envelope type is at most 31, and is decoded to the same flags.
pub envelope_type-set_envelope_type :
    (et : EnvelopeType) (p : ProcessId)
    → (q : ProcessId) × (set_envelope_type (some et) p ≡ ok q)
      × (q.env_type ≤ max_envelope_type)
      × (envelope_type q ≡ et)
unfolding set_envelope_type
envelope_type-set_envelope_type et p =
    let (small, back) =
      flags_back p et.serial et.anonymous et.encrypted_votes et.unique_values et.cost_from_weight in
    (record p { env_type = envelope_code et }, refl, small, back)

-- Decoding succeeds with the parts that the bytes hold.
unmarshal_parts :
    (env : Env) (b : Bytes) (q : ProcessId)
    → length b ≡ 32
    → hex (take 4 b) ≡ q.chain_id
    → env.bytes_to_address (take 20 (drop 6 b)) ≡ q.organization_addr
    → get_or b 26 0 ≡ q.census_origin
    → get_or b 27 0 ≡ q.env_type
    → read_big_endian32 (drop 28 b) ≡ q.nonce
    → 0 < q.census_origin
    → q.env_type ≤ max_envelope_type
    → unmarshal env b ≡ ok q
unfolding unmarshal
unmarshal_parts env b q size chain addr origin kind nonce origin_pos type_small =
    rw (size, origin, kind, chain, addr, nonce) (ground arith)

module _ (env : Env) (codec : Codec env) (p : ProcessId) where
  abbrev chain_part : Bytes
  chain_part = take 6 (env.keccak p.chain_id)

  abbrev address_part : Bytes
  address_part = take 20 (env.address_bytes p.organization_addr)

  abbrev number_part : Bytes
  number_part = (p.census_origin % 256) ∷ (p.env_type % 256) ∷ big_endian32 p.nonce

  chain_size : length chain_part ≡ 6
  chain_size = omega (arith, length-take 6 (env.keccak p.chain_id), codec.hash_size p.chain_id)

  address_size : length address_part ≡ 20
  address_size = omega (
    arith,
    length-take 20 (env.address_bytes p.organization_addr),
    codec.address_size p.organization_addr,
  )

  part_of :
      (k : ℕ)
      → get_or (chain_part ++ (address_part ++ number_part)) (6 + (20 + k)) 0
        ≡ get_or number_part k 0
  part_of k =
      get_or-append_right chain_part (address_part ++ number_part) 6 (20 + k) chain_size
      ∙ get_or-append_right address_part number_part 20 k address_size

  -- A process id is read back: the organisation, the census origin, the envelope type and the nonce
  -- as they were. Of the chain id, only the hexadecimal form of the first four bytes of its hash is
  -- read, though six bytes are written.
  pub unmarshal-marshal :
      0 < p.census_origin
      → p.census_origin < 256
      → p.env_type ≤ max_envelope_type
      → p.nonce < u32_mod
      → p.organization_addr < power256 20
      → unmarshal env (marshal env p)
        ≡ ok (record p { chain_id = hex (take 4 (env.keccak p.chain_id)) })
  unfolding unmarshal marshal
  unmarshal-marshal origin_pos origin_small type_small nonce_small addr_small =
      let size : length (chain_part ++ (address_part ++ number_part)) ≡ 32 = omega (
        arith,
        length-append chain_part (address_part ++ number_part),
        length-append address_part number_part,
        chain_size,
        address_size,
      ) in
      let origin : get_or (chain_part ++ (address_part ++ number_part)) 26 0 ≡ p.census_origin =
        part_of 0 ∙ omega arith in
      let kind : get_or (chain_part ++ (address_part ++ number_part)) 27 0 ≡ p.env_type =
        part_of 1 ∙ omega arith in
      let addr : env.bytes_to_address
            (take 20 (drop 6 (chain_part ++ (address_part ++ number_part))))
          ≡ p.organization_addr =
        ap env.bytes_to_address (
          ap (take 20) (drop-append chain_part (address_part ++ number_part) 6 0 chain_size)
          ∙ take-append address_part number_part 20 address_size
          ∙ take_all (env.address_bytes p.organization_addr) 20
              (codec.address_size p.organization_addr))
        ∙ codec.address_back p.organization_addr addr_small in
      let number : read_big_endian32 (drop 28 (chain_part ++ (address_part ++ number_part)))
          ≡ p.nonce =
        ap read_big_endian32 (
          drop-append chain_part (address_part ++ number_part) 6 22 chain_size
          ∙ drop-append address_part number_part 20 2 address_size)
        ∙ read_big_endian32-big_endian32 p.nonce nonce_small in
      let chain : take 4 (chain_part ++ (address_part ++ number_part))
          ≡ take 4 (env.keccak p.chain_id) =
        take-take-append (env.keccak p.chain_id) (address_part ++ number_part) 4 6 (omega arith)
          (codec.hash_size p.chain_id) in
      unmarshal_parts env (chain_part ++ (address_part ++ number_part))
        (record p { chain_id = hex (take 4 (env.keccak p.chain_id)) }) size (ap hex chain) addr
        origin kind number origin_pos type_small
