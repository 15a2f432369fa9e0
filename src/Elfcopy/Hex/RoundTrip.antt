-- ===== src/Elfcopy/Hex/RoundTrip.antt =====
-- Reading what was written.
use elftoolchain.Base.{
  ℕ, zero, suc, ◌+◌, ◌*◌, ◌/◌, ◌%◌, ◌^◌, ◌≤◌, ◌<◌, ◌≡◌, refl, sym, ap, ◌∙◌, true, some, [], ◌∷◌,
  ◌++◌, Bytes, arith, length, length-append,
}
use native.Mathlib.Nat.{
  pow-suc, one-le-pow, pow-le-pow_right, mod-lt, mod-eq_of_lt, div-add-mod', mul-add-mod_self_right,
}
use elftoolchain.Base.Bits.{bit_or_high}
use elftoolchain.Elfcopy.Hex.{
  is_hex_digit, hex_digit, hex_value, read_byte, read_digits, read_num, write_num, write_bytes,
}

is_hex_digit-hex_digit : (n : ℕ) → n < 16 → is_hex_digit (hex_digit n) ≡ true
unfolding is_hex_digit hex_digit
is_hex_digit-hex_digit n h = ground arith

hex_value-hex_digit : (n : ℕ) → n < 16 → hex_value (hex_digit n) ≡ n
unfolding hex_value hex_digit
hex_value-hex_digit n h = ground arith

pub read_byte-hex_digit :
    (b : ℕ) (l : Bytes)
    → b < 256
    → read_byte (hex_digit (b / 16) ∷ hex_digit (b % 16) ∷ l) ≡ some (b, l)
unfolding read_byte
read_byte-hex_digit b l h =
    let hi : b / 16 < 16 = omega arith in
    let lo : b % 16 < 16 = omega arith in
    rw
      (
        is_hex_digit-hex_digit (b / 16) hi,
        is_hex_digit-hex_digit (b % 16) lo,
        hex_value-hex_digit (b / 16) hi,
        hex_value-hex_digit (b % 16) lo,
        bit_or_high 4 (b / 16) (b / 16 * 16) (b % 16) refl lo,
      )
      (ground arith)

expand : (a r p : ℕ) → (a * 256 + r) * p ≡ a * (p * 256) + r * p
expand a r p = grind arith

-- The digits of a number in base `p * 256` are its digits in base `p` behind one more.
cut : (p v : ℕ) → 1 ≤ p → v % (p * 256) ≡ v / p % 256 * p + v % p
cut p v pos =
    let q = v / p in
    let low : q % 256 * p + v % p < p * 256 = grind (arith, mod-lt v pos) in
    let whole : q / 256 * (p * 256) + (q % 256 * p + v % p) ≡ v = omega (
      arith,
      expand (q / 256) (q % 256) p,
      ap (λ (x : ℕ). x * p) (div-add-mod' q 256),
      div-add-mod' v p,
    ) in
    ap (λ (x : ℕ). x % (p * 256)) (sym whole)
    ∙ mul-add-mod_self_right (q / 256) (p * 256) (q % 256 * p + v % p)
    ∙ mod-eq_of_lt low

pub mod-pow-suc : (n v : ℕ) → v % 256 ^ suc n ≡ v / 256 ^ n % 256 * 256 ^ n + v % 256 ^ n
mod-pow-suc n v = rw (pow-suc 256 n) (cut (256 ^ n) v (one-le-pow n 256 (omega arith)))

pub read_digits-write_num :
    (n k v checksum num : ℕ) (rest : Bytes)
    → num < 256 ^ k
    → k + n ≤ 8
    → read_digits n ((write_num v n checksum).text ++ rest) num checksum
      ≡ some (record {
        rest = rest;
        num = num * 256 ^ n + v % 256 ^ n;
        checksum = (write_num v n checksum).checksum;
      })
unfolding read_digits write_num
read_digits-write_num zero k v checksum num rest fits short =
    let e : num ≡ num * 1 + v % 1 = omega arith in ground arith
read_digits-write_num (suc n) k v checksum num rest fits short =
    let b = v / 256 ^ n % 256 in
    let fits' : num * 256 + b < 256 ^ suc k = omega (arith, pow-suc 256 k) in
    let word : num * 256 + b < 2 ^ 64 =
      omega (
        arith,
        fits',
        pow-le-pow_right {n = 256} (omega arith) {i = suc k} {j = 8} (omega arith),
      ) in
    rw
      (
        read_byte-hex_digit b ((write_num v n ((checksum + b) % 256)).text ++ rest) (omega arith),
        mod-eq_of_lt word,
      )
      (read_digits-write_num n (suc k) v ((checksum + b) % 256) (num * 256 + b) rest fits'
          (omega arith)
        ∙ ap
            (λ (x : ℕ). some (record {
              rest = rest;
              num = x;
              checksum = (write_num v n ((checksum + b) % 256)).checksum;
            }))
            shift)
  where
    shift :
        (num * 256 + v / 256 ^ n % 256) * 256 ^ n + v % 256 ^ n
        ≡ num * 256 ^ suc n + v % 256 ^ suc n
    shift = omega (
      arith,
      mod-pow-suc n v,
      expand num (v / 256 ^ n % 256) (256 ^ n),
      ap (λ (x : ℕ). num * x) (pow-suc 256 n),
    )

-- A number of at most eight bytes is read back modulo its size, with the checksum of the writer.
pub read_num-write_num :
    (n v checksum : ℕ) (rest : Bytes)
    → n ≤ 8
    → read_num ((write_num v n checksum).text ++ rest) n checksum
      ≡ some
          (record { rest = rest; num = v % 256 ^ n; checksum = (write_num v n checksum).checksum })
unfolding read_num
read_num-write_num n v checksum rest short =
    read_digits-write_num n 0 v checksum 0 rest (omega arith) (omega arith)
    ∙ ap
        (λ (x : ℕ).
          some (record { rest = rest; num = x; checksum = (write_num v n checksum).checksum }))
        drop_zero
  where
    drop_zero : 0 * 256 ^ n + v % 256 ^ n ≡ v % 256 ^ n
    drop_zero = omega arith

pub length-write_num : (n v checksum : ℕ) → length (write_num v n checksum).text ≡ 2 * n
unfolding write_num
length-write_num zero v checksum = refl
length-write_num (suc n) v checksum =
    omega (arith, length-write_num n v ((checksum + v / 256 ^ n % 256) % 256))

pub length-write_bytes :
    (buf : Bytes) (checksum : ℕ) → length (write_bytes buf checksum).text ≡ 2 * length buf
unfolding write_bytes
length-write_bytes [] checksum = refl
length-write_bytes (b ∷ buf) checksum = omega (
  arith,
  length-append (write_num b 1 checksum).text
      (write_bytes buf (write_num b 1 checksum).checksum).text,
  length-write_num 1 b checksum,
  length-write_bytes buf (write_num b 1 checksum).checksum,
)

pub write_num_bound : (n v checksum : ℕ) → checksum < 256 → (write_num v n checksum).checksum < 256
unfolding write_num
write_num_bound zero v checksum h = h
write_num_bound (suc n) v checksum h =
    write_num_bound n v ((checksum + v / 256 ^ n % 256) % 256) (omega arith)

pub write_bytes_bound :
    (buf : Bytes) (checksum : ℕ) → checksum < 256 → (write_bytes buf checksum).checksum < 256
unfolding write_bytes
write_bytes_bound [] checksum h = h
write_bytes_bound (b ∷ buf) checksum h =
    write_bytes_bound buf (write_num b 1 checksum).checksum (write_num_bound 1 b checksum h)
