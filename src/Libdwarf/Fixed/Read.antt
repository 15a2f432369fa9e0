-- ===== src/Libdwarf/Fixed/Read.antt =====
-- What the readers of fixed-width integers return: the number that the bytes stand for.
use elftoolchain.Base.{
  ℕ, ◌+◌, ◌*◌, ◌^◌, ◌<◌, ◌≡◌, some, [], ◌∷◌, arith, Bytes, All, IsByte, length, bit_or, ◌⊎◌,
}
use elftoolchain.Base.Bits.{bit_or_high, bit_or_low, shl64}
use elftoolchain.Base.Mem.{load_n, Loaded, load_n-Loaded}
use elftoolchain.Libdwarf.Fixed.{
  read_lsb, read_msb, decode_lsb, decode_msb, lsb_case_1, lsb_case_2, lsb_case_3, lsb_case_4,
  lsb_case_8, msb_case_2, msb_case_3, msb_case_4, msb_case_8, advance,
}

-- The number that bytes stand for, least or most significant byte first.
abbrev pub le_value : Bytes → ℕ
le_value [] = 0
le_value (b ∷ bs) = b + 256 * le_value bs

abbrev pub be_value_from : ℕ → Bytes → ℕ
be_value_from acc [] = acc
be_value_from acc (b ∷ bs) = be_value_from (acc * 256 + b) bs

abbrev pub be_value : Bytes → ℕ
be_value = be_value_from 0

-- The widths that the readers have a case for.
abbrev pub IsWidth : ℕ → Type 0
IsWidth n = (n ≡ 1) ⊎ (n ≡ 2) ⊎ (n ≡ 3) ⊎ (n ≡ 4) ⊎ (n ≡ 8)

-- From `case 1` to `case 8`, each on a `ret` that holds the bytes above its own.
lsb_case_1-sum :
    (m : Bytes) (i q b0 : ℕ)
    → Loaded m i (b0 ∷ [])
    → lsb_case_1 m i (q * 2 ^ 8) ≡ some (q * 2 ^ 8 + b0)
unfolding lsb_case_1
lsb_case_1-sum m i q b0 l = ground (arith, bit_or_high 8 q (q * 2 ^ 8) b0)

lsb_case_2-sum :
    (m : Bytes) (i q b0 b1 : ℕ)
    → Loaded m i (b0 ∷ b1 ∷ [])
    → lsb_case_2 m i (q * 2 ^ 16) ≡ some (q * 2 ^ 16 + b1 * 2 ^ 8 + b0)
unfolding lsb_case_2
lsb_case_2-sum m i q b0 b1 l = ground (
  arith,
  bit_or_high 16 q (q * 2 ^ 16) (shl64 b1 8),
  lsb_case_1-sum m i (q * 256 + b1) b0 (l.0, l.1, tt),
)

lsb_case_3-sum :
    (m : Bytes) (i q b0 b1 b2 : ℕ)
    → Loaded m i (b0 ∷ b1 ∷ b2 ∷ [])
    → lsb_case_3 m i (q * 2 ^ 24) ≡ some (q * 2 ^ 24 + b2 * 2 ^ 16 + b1 * 2 ^ 8 + b0)
unfolding lsb_case_3
lsb_case_3-sum m i q b0 b1 b2 l =
    ground
      (arith, bit_or_high 24 q (q * 2 ^ 24) (shl64 b2 16), lsb_case_2-sum m i (q * 256 + b2) b0 b1)

lsb_case_4-sum :
    (m : Bytes) (i q b0 b1 b2 b3 : ℕ)
    → Loaded m i (b0 ∷ b1 ∷ b2 ∷ b3 ∷ [])
    → lsb_case_4 m i (q * 2 ^ 32) ≡ some (q * 2 ^ 32 + b3 * 2 ^ 24 + b2 * 2 ^ 16 + b1 * 2 ^ 8 + b0)
unfolding lsb_case_4
lsb_case_4-sum m i q b0 b1 b2 b3 l =
    ground (
      arith,
      bit_or_high 32 q (q * 2 ^ 32) (shl64 b3 24),
      lsb_case_3-sum m i (q * 256 + b3) b0 b1 b2,
    )

-- The two pairs that `case 8` joins above the low four bytes.
upper_pairs :
    (b4 b5 b6 b7 : ℕ)
    → b4 < 256
    → b5 < 256
    → b6 < 256
    → b7 < 256
    → bit_or (bit_or 0 (bit_or (shl64 b4 32) (shl64 b5 40))) (bit_or (shl64 b6 48) (shl64 b7 56))
      ≡ (b7 * 2 ^ 24 + b6 * 2 ^ 16 + b5 * 2 ^ 8 + b4) * 2 ^ 32
upper_pairs b4 b5 b6 b7 h4 h5 h6 h7 = ground (
  arith,
  bit_or_low 40 b5 (shl64 b4 32) (shl64 b5 40) (omega arith) (omega arith),
  bit_or_low 56 b7 (shl64 b6 48) (shl64 b7 56) (omega arith) (omega arith),
  bit_or_low 32 (b5 * 2 ^ 8 + b4) 0 (b5 * 2 ^ 40 + b4 * 2 ^ 32) (omega arith) (omega arith),
  bit_or_low 48 (b7 * 2 ^ 8 + b6) (b5 * 2 ^ 40 + b4 * 2 ^ 32) (b7 * 2 ^ 56 + b6 * 2 ^ 48)
      (omega arith) (omega arith),
)

lsb_case_8-sum :
    (m : Bytes) (i b0 b1 b2 b3 b4 b5 b6 b7 : ℕ)
    → Loaded m i (b0 ∷ b1 ∷ b2 ∷ b3 ∷ b4 ∷ b5 ∷ b6 ∷ b7 ∷ [])
    → lsb_case_8 m i 0 ≡ some (le_value (b0 ∷ b1 ∷ b2 ∷ b3 ∷ b4 ∷ b5 ∷ b6 ∷ b7 ∷ []))
unfolding lsb_case_8
lsb_case_8-sum m i b0 b1 b2 b3 b4 b5 b6 b7 l = ground (
  arith,
  upper_pairs b4 b5 b6 b7,
  lsb_case_4-sum m i (b7 * 2 ^ 24 + b6 * 2 ^ 16 + b5 * 2 ^ 8 + b4) b0 b1 b2 b3,
)

-- `_dwarf_read_msb` joins the low part first, so each `|` has its left side below the right.
msb_case_2-sum :
    (m : Bytes) (i b0 b1 : ℕ)
    → Loaded m i (b0 ∷ b1 ∷ [])
    → msb_case_2 m i ≡ some (be_value (b0 ∷ b1 ∷ []))
unfolding msb_case_2
msb_case_2-sum m i b0 b1 l = ground (arith, bit_or_low 8 b0 b1 (shl64 b0 8))

msb_case_3-sum :
    (m : Bytes) (i b0 b1 b2 : ℕ)
    → Loaded m i (b0 ∷ b1 ∷ b2 ∷ [])
    → msb_case_3 m i ≡ some (be_value (b0 ∷ b1 ∷ b2 ∷ []))
unfolding msb_case_3
msb_case_3-sum m i b0 b1 b2 l =
    ground
      (arith, bit_or_low 8 b1 b2 (shl64 b1 8), bit_or_low 16 b0 (b1 * 2 ^ 8 + b2) (shl64 b0 16))

-- `a | b << 8`, and the two pairs above it.
pair : (a b : ℕ) → a < 256 → b < 256 → bit_or a (shl64 b 8) ≡ b * 2 ^ 8 + a
pair a b ha hb = ground (arith, bit_or_low 8 b a (shl64 b 8))

pair_16 :
    (a b : ℕ) → a < 256 → b < 256 → bit_or (shl64 a 16) (shl64 b 24) ≡ (b * 2 ^ 8 + a) * 2 ^ 16
pair_16 a b ha hb = ground (arith, bit_or_low 24 b (shl64 a 16) (shl64 b 24))

pair_32 :
    (a b : ℕ) → a < 256 → b < 256 → bit_or (shl64 a 32) (shl64 b 40) ≡ (b * 2 ^ 8 + a) * 2 ^ 32
pair_32 a b ha hb = ground (arith, bit_or_low 40 b (shl64 a 32) (shl64 b 40))

pair_48 :
    (a b : ℕ) → a < 256 → b < 256 → bit_or (shl64 a 48) (shl64 b 56) ≡ (b * 2 ^ 8 + a) * 2 ^ 48
pair_48 a b ha hb = ground (arith, bit_or_low 56 b (shl64 a 48) (shl64 b 56))

msb_case_4-sum :
    (m : Bytes) (i b0 b1 b2 b3 : ℕ)
    → Loaded m i (b0 ∷ b1 ∷ b2 ∷ b3 ∷ [])
    → msb_case_4 m i ≡ some (be_value (b0 ∷ b1 ∷ b2 ∷ b3 ∷ []))
unfolding msb_case_4
msb_case_4-sum m i b0 b1 b2 b3 l = ground (
  arith,
  pair b3 b2,
  pair_16 b1 b0,
  bit_or_low 16 (b0 * 2 ^ 8 + b1) (b2 * 2 ^ 8 + b3) ((b0 * 2 ^ 8 + b1) * 2 ^ 16),
)

-- The four pairs of `case 8`.
four_pairs :
    (p q r s : ℕ)
    → p < 2 ^ 16
    → q < 2 ^ 16
    → r < 2 ^ 16
    → bit_or (bit_or (bit_or p (q * 2 ^ 16)) (r * 2 ^ 32)) (s * 2 ^ 48)
      ≡ s * 2 ^ 48 + r * 2 ^ 32 + q * 2 ^ 16 + p
four_pairs p q r s hp hq hr = ground (
  arith,
  bit_or_low 16 q p (q * 2 ^ 16),
  bit_or_low 32 r (q * 2 ^ 16 + p) (r * 2 ^ 32),
  bit_or_low 48 s (r * 2 ^ 32 + q * 2 ^ 16 + p) (s * 2 ^ 48),
)

msb_case_8-sum :
    (m : Bytes) (i b0 b1 b2 b3 b4 b5 b6 b7 : ℕ)
    → Loaded m i (b0 ∷ b1 ∷ b2 ∷ b3 ∷ b4 ∷ b5 ∷ b6 ∷ b7 ∷ [])
    → msb_case_8 m i ≡ some (be_value (b0 ∷ b1 ∷ b2 ∷ b3 ∷ b4 ∷ b5 ∷ b6 ∷ b7 ∷ []))
unfolding msb_case_8
msb_case_8-sum m i b0 b1 b2 b3 b4 b5 b6 b7 l = ground (
  arith,
  pair b7 b6,
  pair_16 b5 b4,
  pair_32 b3 b2,
  pair_48 b1 b0,
  four_pairs (b6 * 2 ^ 8 + b7) (b4 * 2 ^ 8 + b5) (b2 * 2 ^ 8 + b3) (b0 * 2 ^ 8 + b1),
)

-- On 1, 2, 3, 4 or 8 bytes inside the buffer `_dwarf_read_lsb` and `_dwarf_decode_lsb` return the
-- number that the bytes stand for, least significant first, and the position behind them.
pub read_lsb-le_value :
    (m : Bytes) (i : ℕ) (bs : Bytes)
    → IsWidth (length bs)
    → All IsByte bs
    → load_n m i (length bs) ≡ some bs
    → (read_lsb m i (length bs) ≡ some (le_value bs, i + length bs))
      × (decode_lsb m i (length bs) ≡ some (le_value bs, i + length bs))
unfolding read_lsb decode_lsb advance
read_lsb-le_value m i (b0 ∷ []) w a h =
    let l = load_n-Loaded m i _ a h in ground (arith, lsb_case_1-sum m i 0 b0 l)
read_lsb-le_value m i (b0 ∷ b1 ∷ []) w a h =
    let l = load_n-Loaded m i _ a h in ground (arith, lsb_case_2-sum m i 0 b0 b1 l)
read_lsb-le_value m i (b0 ∷ b1 ∷ b2 ∷ []) w a h =
    let l = load_n-Loaded m i _ a h in ground (arith, lsb_case_3-sum m i 0 b0 b1 b2 l)
read_lsb-le_value m i (b0 ∷ b1 ∷ b2 ∷ b3 ∷ []) w a h =
    let l = load_n-Loaded m i _ a h in ground (arith, lsb_case_4-sum m i 0 b0 b1 b2 b3 l)
read_lsb-le_value m i (b0 ∷ b1 ∷ b2 ∷ b3 ∷ b4 ∷ b5 ∷ b6 ∷ b7 ∷ []) w a h =
    let l = load_n-Loaded m i _ a h in ground (arith, lsb_case_8-sum m i b0 b1 b2 b3 b4 b5 b6 b7 l)
read_lsb-le_value m i _ w a h = absurd (omega arith)

-- On 1, 2, 3, 4 or 8 bytes inside the buffer `_dwarf_read_msb` and `_dwarf_decode_msb` return the
-- number that the bytes stand for, most significant first, and the position behind them.
pub read_msb-be_value :
    (m : Bytes) (i : ℕ) (bs : Bytes)
    → IsWidth (length bs)
    → All IsByte bs
    → load_n m i (length bs) ≡ some bs
    → (read_msb m i (length bs) ≡ some (be_value bs, i + length bs))
      × (decode_msb m i (length bs) ≡ some (be_value bs, i + length bs))
unfolding read_msb decode_msb advance
read_msb-be_value m i (b0 ∷ []) w a h = let l = load_n-Loaded m i _ a h in ground arith
read_msb-be_value m i (b0 ∷ b1 ∷ []) w a h =
    let l = load_n-Loaded m i _ a h in ground (arith, msb_case_2-sum m i b0 b1 l)
read_msb-be_value m i (b0 ∷ b1 ∷ b2 ∷ []) w a h =
    let l = load_n-Loaded m i _ a h in ground (arith, msb_case_3-sum m i b0 b1 b2 l)
read_msb-be_value m i (b0 ∷ b1 ∷ b2 ∷ b3 ∷ []) w a h =
    let l = load_n-Loaded m i _ a h in ground (arith, msb_case_4-sum m i b0 b1 b2 b3 l)
read_msb-be_value m i (b0 ∷ b1 ∷ b2 ∷ b3 ∷ b4 ∷ b5 ∷ b6 ∷ b7 ∷ []) w a h =
    let l = load_n-Loaded m i _ a h in ground (arith, msb_case_8-sum m i b0 b1 b2 b3 b4 b5 b6 b7 l)
read_msb-be_value m i _ w a h = absurd (omega arith)
