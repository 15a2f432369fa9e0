-- ===== src/Elfcopy/Hex.antt =====
-- Numbers in hexadecimal digits: hex_digit, hex_value, ishexdigit, read_num and write_num of
-- elfcopy/ascii.c. A position in a line is the rest of the line, up to its NUL.
pub mod RoundTrip
use elftoolchain.Base.{
  ℕ, zero, suc, ◌+◌, ◌-◌, ◌*◌, ◌/◌, ◌%◌, ◌^◌, Bool, ◌&&◌, ◌||◌, Option, none, some, [], ◌∷◌, ◌++◌,
  Bytes, ◌>>=◌, ltb, leb, if◌then◌else◌, bit_or,
}

unfoldable pub is_digit : ℕ → Bool
is_digit x = leb b'0' x && leb x b'9'

unfoldable pub is_hex_digit : ℕ → Bool
unfolding is_digit
is_hex_digit x = is_digit x || (leb b'a' x && leb x b'f') || (leb b'A' x && leb x b'F')

unfoldable pub hex_digit : ℕ → ℕ
hex_digit n = if ltb n 10 then b'0' + n else b'A' + (n - 10)

unfoldable pub hex_value : ℕ → ℕ
unfolding is_digit
hex_value x =
    if is_digit x
    then x - b'0'
    else if leb b'a' x && leb x b'f'
    then x - b'a' + 10
    else x - b'A' + 10

-- The byte of the next two digits; `none` is the return of -1.
unfoldable pub read_byte : Bytes → Option (ℕ × Bytes)
read_byte [] = none
read_byte (x ∷ []) = none
read_byte (x ∷ y ∷ l) =
    if is_hex_digit x && is_hex_digit y
    then some (bit_or (hex_value x * 16) (hex_value y) % 256, l)
    else none

-- What read_num leaves: the rest of the line, `*num` and `*checksum`.
pub record Number : Type 0 where
  pub rest : Bytes
  pub num : ℕ
  pub checksum : ℕ

-- read_num, with the number so far.
unfoldable pub read_digits : ℕ → Bytes → ℕ → ℕ → Option Number
read_digits zero l num checksum = some (record { rest = l; num = num; checksum = checksum })
read_digits (suc n) l num checksum =
    read_byte l >>= λ r. read_digits n r.1 ((num * 256 + r.0) % 2 ^ 64) ((checksum + r.0) % 256)

-- A caller that passes NULL for the checksum does not use the one that is returned.
unfoldable pub read_num : Bytes → ℕ → ℕ → Option Number
read_num l sz checksum = read_digits sz l 0 checksum

-- What write_num appends to the line, and `*checksum`.
pub record Text : Type 0 where
  pub text : Bytes
  pub checksum : ℕ

unfoldable pub write_num : ℕ → ℕ → ℕ → Text
write_num num zero checksum = record { text = []; checksum = checksum }
write_num num (suc n) checksum =
    let b = num / 256 ^ n % 256 in
    let r = write_num num n ((checksum + b) % 256) in
    record { text = hex_digit (b / 16) ∷ hex_digit (b % 16) ∷ r.text; checksum = r.checksum }

-- The loop over the bytes of a record.
unfoldable pub write_bytes : Bytes → ℕ → Text
write_bytes [] checksum = record { text = []; checksum = checksum }
write_bytes (b ∷ buf) checksum =
    let d = write_num b 1 checksum in
    let r = write_bytes buf d.checksum in record { text = d.text ++ r.text; checksum = r.checksum }
