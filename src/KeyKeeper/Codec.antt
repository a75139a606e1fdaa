-- ===== src/KeyKeeper/Codec.antt =====
-- The bytes of the keys of a process, `processKeys.Encode` and `Decode`.
use vocdoni.Base.{
  Bytes, [], ap, arith, drop-append, get_or-append_right, length, length-append, negsuc, pos, refl,
  replicate, set, set_append, suc, sym, take-append, ℕ, ℤ, ◌++◌, ◌<◌, ◌∙◌, ◌∷◌, ◌≡◌,
}
use vocdoni.Action.{ok}
use vocdoni.KeyKeeper.{ProcessKeys, byte_of, copy_at, decode, encode, int8_of}
use mathlib.Core.List.{append_assoc}

copy_at-append :
    (before source old after : Bytes) (n : ℕ)
    → length before ≡ n
    → length old ≡ length source
    → copy_at n source (before ++ (old ++ after)) ≡ before ++ (source ++ after)
unfolding copy_at
copy_at-append before [] [] after n e h = refl
copy_at-append before [] (o ∷ os) after n e h = absurd (omega arith)
copy_at-append before (x ∷ xs) [] after n e h = absurd (omega arith)
copy_at-append before (x ∷ xs) (o ∷ os) after n e h =
    let longer : length (before ++ x ∷ []) ≡ suc n = omega (arith, length-append before (x ∷ [])) in
    ap (λ (l : Bytes). copy_at (suc n) xs l)
      (set_append before (os ++ after) n o x e ∙ sym (append_assoc before (x ∷ []) (os ++ after)))
    ∙ copy_at-append (before ++ x ∷ []) xs os after (suc n) longer (omega arith)
    ∙ append_assoc before (x ∷ []) (xs ++ after)

-- An index as an `int8`.
abbrev pub IsInt8 : ℤ → Type 0
IsInt8 (pos n) = n < 128
IsInt8 (negsuc n) = n < 128

int8_of-byte_of : (i : ℤ) → IsInt8 i → int8_of (byte_of i) ≡ i
unfolding int8_of byte_of
int8_of-byte_of (pos n) h = ground arith
int8_of-byte_of (negsuc n) h = ground arith

encode_lem :
    (keys : ProcessKeys)
    → length keys.pub_key ≡ 32
    → length keys.priv_key ≡ 32
    → encode keys ≡ keys.pub_key ++ (keys.priv_key ++ byte_of keys.index ∷ [])
unfolding encode
encode_lem keys h k =
    let byte = byte_of keys.index in
    let both = keys.pub_key ++ keys.priv_key in
    let both_size : length both ≡ 64 = omega (arith, length-append keys.pub_key keys.priv_key) in
    ap (λ (l : Bytes). set (copy_at 32 keys.priv_key l) 64 byte)
      (copy_at-append [] keys.pub_key (replicate 32 0) (replicate 33 0) 0 refl (sym h))
    ∙ ap (λ (l : Bytes). set l 64 byte)
        (copy_at-append keys.pub_key keys.priv_key (replicate 32 0) (0 ∷ []) 32 h (sym k))
    ∙ ap (λ (l : Bytes). set l 64 byte) (sym (append_assoc keys.pub_key keys.priv_key (0 ∷ [])))
    ∙ set_append both [] 64 0 byte both_size
    ∙ append_assoc keys.pub_key keys.priv_key (byte ∷ [])

-- Keys of 32 bytes with an index of eight bits are read back from their bytes.
pub decode-encode :
    (keys : ProcessKeys)
    → length keys.pub_key ≡ 32
    → length keys.priv_key ≡ 32
    → IsInt8 keys.index
    → decode (encode keys) ≡ ok keys
unfolding decode
decode-encode keys h k small =
    let tail = byte_of keys.index ∷ [] in
    let rest = keys.priv_key ++ tail in
    let rest_size : length rest ≡ 33 = omega (arith, k, length-append keys.priv_key tail) in
    let size : length (keys.pub_key ++ rest) ≡ 65 =
      omega (arith, h, rest_size, length-append keys.pub_key rest) in
    let dropped = drop-append keys.pub_key rest 32 0 h in
    rw (
      encode_lem keys h k,
      size,
      take-append keys.pub_key rest 32 h,
      dropped,
      take-append keys.priv_key tail 32 k,
      get_or-append_right keys.pub_key rest 32 32 h,
      get_or-append_right keys.priv_key tail 32 0 k,
      int8_of-byte_of keys.index small,
    )
