-- ===== src/Tls/Psk.antt =====
-- src/AsyncTCP_TLS_Context.cpp, _startSSLClient: the pre-shared key, from hex to binary.
use Prim.Native.Nat.{bit_or}
use async_tcpsock.Base.{
  refl, ℕ, ◌+◌, ◌-◌, ◌*◌, ◌/◌, ◌%◌, ◌≤◌, ◌<◌, ◌≡◌, Bool, true, false, not, ◌&&◌, ◌||◌, Option, none,
  some, List, [], ◌∷◌, length, ltb, leb, ◌==◌, if◌then◌else◌, passes, passes_at, arith,
}

-- '0' to '9', 'A' to 'F' and 'a' to 'f'
unfoldable pub hex_digit : ℕ → Option ℕ
hex_digit c =
    if leb 48 c && leb c 57
    then some (c - 48)
    else if leb 65 c && leb c 70
    then some (c - 55)
    else if leb 97 c && leb c 102
    then some (c - 87)
    else none

-- `psk[j/2] = c<<4` and `psk[j/2] |= c`, in an unsigned char.
abbrev pub join_digits : ℕ → ℕ → ℕ
join_digits high low = bit_or (high * 16 % 256) low

-- The byte of two digits, put in front of those that follow.
unfoldable pub put_byte : Option ℕ → Option ℕ → Option (List ℕ) → Option (List ℕ)
put_byte (some high) (some low) (some bytes) = some (join_digits high low ∷ bytes)
put_byte _ _ _ = none

-- The loop. Of a single character the second digit would be the end of the string, which is none.
unfoldable pub decode_pairs : List ℕ → Option (List ℕ)
decode_pairs [] = some []
decode_pairs (a ∷ []) = none
decode_pairs (a ∷ b ∷ rest) = put_byte (hex_digit a) (hex_digit b) (decode_pairs rest)

-- The test of the length, and the loop. `psk_max_len` is MBEDTLS_PSK_MAX_LEN.
unfoldable pub decode_psk : ℕ → List ℕ → Option (List ℕ)
decode_psk psk_max_len key =
    if not (length key % 2 == 0) || ltb (2 * psk_max_len) (length key)
    then none
    else decode_pairs key

-- The characters for 10 to 15 in the two cases, and a digit in one of them.
abbrev digit_of : Bool → ℕ → ℕ
digit_of upper n = if ltb n 10 then 48 + n else if upper then 55 + n else 87 + n

-- A byte with the cases in which its two digits are written.
pub record Written : Type 0 where
  pub byte : ℕ
  pub upper_high : Bool
  pub upper_low : Bool

-- How a key is written down: two digits for each byte.
abbrev pub encode : List Written → List ℕ
encode [] = []
encode (b ∷ bs) =
    digit_of b.upper_high (b.byte / 16) ∷ digit_of b.upper_low (b.byte % 16) ∷ encode bs

abbrev pub bytes_of : List Written → List ℕ
bytes_of [] = []
bytes_of (b ∷ bs) = b.byte ∷ bytes_of bs

abbrev pub AllBytes : List ℕ → Type 0
AllBytes [] = Unit {0}
AllBytes (b ∷ bs) = (b < 256) × AllBytes bs

hex_digit-digit_of : (upper : Bool) (n : ℕ) → n < 16 → hex_digit (digit_of upper n) ≡ some n
unfolding hex_digit
hex_digit-digit_of true n h = ground arith
hex_digit-digit_of false n h = ground arith

is_joined : ℕ → Bool
is_joined b = join_digits (b / 16) (b % 16) == b

joined_table : passes is_joined 256 ≡ true
unfolding passes is_joined
joined_table = refl

join_digits_lem : (b : ℕ) → b < 256 → join_digits (b / 16) (b % 16) ≡ b
unfolding is_joined
join_digits_lem b h = ground (arith, passes_at is_joined 256 b h joined_table)

decode_pairs-encode :
    (bs : List Written) → AllBytes (bytes_of bs) → decode_pairs (encode bs) ≡ some (bytes_of bs)
unfolding decode_pairs put_byte
decode_pairs-encode [] h = refl
decode_pairs-encode (b ∷ bs) h = ground (
  arith,
  hex_digit-digit_of b.upper_high (b.byte / 16),
  hex_digit-digit_of b.upper_low (b.byte % 16),
  join_digits_lem b.byte h.0,
  decode_pairs-encode bs h.1,
)

length-encode : (bs : List Written) → length (encode bs) ≡ 2 * length bs
length-encode [] = refl
length-encode (b ∷ bs) = omega (arith, length-encode bs)

-- Bytes below 256, no more than MBEDTLS_PSK_MAX_LEN of them, and each written as two hexadecimal
-- digits, every digit above 9 in upper or in lower case, decode to themselves.
pub decode_psk-encode :
    (psk_max_len : ℕ) (key : List Written)
    → AllBytes (bytes_of key)
    → length key ≤ psk_max_len
    → decode_psk psk_max_len (encode key) ≡ some (bytes_of key)
unfolding decode_psk
decode_psk-encode psk_max_len key h k = ground (arith, length-encode key, decode_pairs-encode key h)

hex_digit-bound : (c n : ℕ) → hex_digit c ≡ some n → n < 16
unfolding hex_digit
hex_digit-bound c n h = ground arith

join_digits-bound : (high low : ℕ) → high < 16 → low < 16 → join_digits high low < 256
join_digits-bound high low h k =
    let b = high * 16 + low in
    let e1 : b / 16 ≡ high = omega arith in
    let e2 : b % 16 ≡ low = omega arith in ground (arith, e1, e2, join_digits_lem b (omega arith))

-- The bytes of a text of digits, two for each.
Decoded : List ℕ → List ℕ → Type 0
Decoded key bytes = (2 * length bytes ≡ length key) × AllBytes bytes

put_byte-Decoded :
    (a b : ℕ) (rest : List ℕ) (high low : Option ℕ) (tail : Option (List ℕ)) (bytes : List ℕ)
    → hex_digit a ≡ high
    → hex_digit b ≡ low
    → ((bs : List ℕ) → tail ≡ some bs → Decoded rest bs)
    → put_byte high low tail ≡ some bytes
    → Decoded (a ∷ b ∷ rest) bytes
unfolding put_byte Decoded
put_byte-Decoded a b rest none low tail bytes p q ih h = cc
put_byte-Decoded a b rest (some x) none tail bytes p q ih h = cc
put_byte-Decoded a b rest (some x) (some y) none bytes p q ih h = cc
put_byte-Decoded a b rest (some x) (some y) (some bs) bytes p q ih h =
    ground
      (arith, ih bs refl, join_digits-bound x y (hex_digit-bound a x p) (hex_digit-bound b y q))

decode_pairs-Decoded : (key bytes : List ℕ) → decode_pairs key ≡ some bytes → Decoded key bytes
unfolding decode_pairs Decoded
decode_pairs-Decoded [] bytes h = ground arith
decode_pairs-Decoded (a ∷ []) bytes h = cc
decode_pairs-Decoded (a ∷ b ∷ rest) bytes h =
    put_byte-Decoded a b rest (hex_digit a) (hex_digit b) (decode_pairs rest) bytes refl refl
      (decode_pairs-Decoded rest) h

-- If a pre-shared key is decoded, there is a byte for each two digits, the bytes fit the buffer of
-- MBEDTLS_PSK_MAX_LEN, and each is below 256.
decode_psk_fits :
    (psk_max_len : ℕ) (key bytes : List ℕ)
    → decode_psk psk_max_len key ≡ some bytes
    → (2 * length bytes ≡ length key) × (length bytes ≤ psk_max_len) × AllBytes bytes
unfolding decode_psk Decoded
decode_psk_fits psk_max_len key bytes h = ground (arith, decode_pairs-Decoded key bytes)
