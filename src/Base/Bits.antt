-- ===== src/Base/Bits.antt =====
-- `&`, `|` and shifts of unsigned words as arithmetic. The libraries have no laws of the native bit
-- operations at variables; here they come from the recursion on binary digits that defines them.
use Prim.Native.Nat.{
  ℕ, zero, suc, ◌+◌, ◌-◌, ◌*◌, ◌/◌, ◌%◌, ◌^◌, ◌≤◌, ◌<◌, min, max, bit_and, bit_or, bit_xor, differ,
  digits, bitwise, bit_and-bitwise, bit_or-bitwise, bit_xor-bitwise,
}
use mathlib.Core.Path.{◌≡◌, refl, ap, sym, ◌∙◌}
use native.Mathlib.Decide.{dec_le, dec_lt}
use native.Mathlib.Nat.{pow-suc, one-le-pow, div-div-eq-div-mul}
use native.Mathlib.Numerals.{towards_suc}
use native.Mathlib.Omega.{arith}

-- `x << k` and `x >> k` on a uint64_t.
abbrev pub shl64 : ℕ → ℕ → ℕ
shl64 x k = x * 2 ^ k % 2 ^ 64

abbrev pub shr : ℕ → ℕ → ℕ
shr x k = x / 2 ^ k

-- Both operations are one recursion on binary digits, `digits`, with the left argument for its fuel.
-- A round more changes nothing, so any fuel from the argument on gives the same.
module _ (end : ℕ → ℕ) (bit : ℕ → ℕ → ℕ) where
  one_more_round : (n a b : ℕ) → a ≤ n → digits end bit (suc n) a b ≡ digits end bit n a b
  one_more_round zero zero b h = refl
  one_more_round (suc n) zero b h = refl
  one_more_round zero (suc a) b h = elim h [ ]
  one_more_round (suc n) (suc a) b h =
      ap (λ (t : ℕ). t * 2 + bit (suc a % 2) (b % 2))
        (one_more_round n (suc a / 2) (b / 2) (omega arith))

  enough_rounds : (n a b : ℕ) → a ≤ n → digits end bit n a b ≡ bitwise end bit a b
  enough_rounds n zero b h = at_zero n
    where
      at_zero : (k : ℕ) → digits end bit k zero b ≡ end b
      at_zero zero = refl
      at_zero (suc k) = refl
  enough_rounds zero (suc a) b h = elim h [ ]
  enough_rounds (suc n) (suc a) b h = elim (dec_le (suc a) n) [
    | yes below ↦ one_more_round n (suc a) b below ∙ enough_rounds n (suc a) b below
    | no above ↦ let e : suc n ≡ suc a = omega arith in ap (λ k. digits end bit k (suc a) b) e
  ]

  lowest_digit :
      (a b : ℕ)
      → 0 < a
      → bitwise end bit a b ≡ bitwise end bit (a / 2) (b / 2) * 2 + bit (a % 2) (b % 2)
  lowest_digit zero b h = elim h [ ]
  lowest_digit (suc a) b h =
      ap (λ (t : ℕ). t * 2 + bit (suc a % 2) (b % 2))
        (enough_rounds a (suc a / 2) (b / 2) (omega arith))

zero-bit_or : (b : ℕ) → bit_or 0 b ≡ b
zero-bit_or b = bit_or-bitwise 0 b

zero-bit_and : (b : ℕ) → bit_and 0 b ≡ 0
zero-bit_and b = bit_and-bitwise 0 b

-- The law for the lowest digit.
pub bit_or_step : (a b : ℕ) → bit_or a b ≡ bit_or (a / 2) (b / 2) * 2 + max (a % 2) (b % 2)
bit_or_step a b = elim (dec_lt 0 a) [
  | yes pos ↦ simp bit_or-bitwise (lowest_digit (λ y. y) max a b pos)
  | no nil ↦ let e : a ≡ 0 = omega arith in rw e (omega (arith, zero-bit_or b, zero-bit_or (b / 2)))
]

pub bit_and_step : (a b : ℕ) → bit_and a b ≡ bit_and (a / 2) (b / 2) * 2 + min (a % 2) (b % 2)
bit_and_step a b = elim (dec_lt 0 a) [
  | yes pos ↦ simp bit_and-bitwise (lowest_digit (λ y. 0) min a b pos)
  | no nil ↦
      let e : a ≡ 0 = omega arith in rw e (omega (arith, zero-bit_and b, zero-bit_and (b / 2)))
]

-- An operation with such a law, of a symmetric `bit`, is commutative.
module _ (op bit : ℕ → ℕ → ℕ)
    (step : (a b : ℕ) → op a b ≡ op (a / 2) (b / 2) * 2 + bit (a % 2) (b % 2))
    (symmetric : (a b : ℕ) → bit a b ≡ bit b a) where
  comm_below : (n a b : ℕ) → a + b ≤ n → op a b ≡ op b a
  comm_below zero a b h = let (p, q) = let r : (a ≡ 0) × (b ≡ 0) = omega arith in r in rw (p, q)
  comm_below (suc n) a b h = omega (
    arith,
    step a b,
    step b a,
    symmetric (a % 2) (b % 2),
    comm_below n (a / 2) (b / 2) (omega arith),
  )

pub bit_or_comm : (a b : ℕ) → bit_or a b ≡ bit_or b a
bit_or_comm a b = comm_below bit_or max bit_or_step (λ x y. omega arith) (a + b) a b (omega arith)

pub bit_or-zero : (a : ℕ) → bit_or a 0 ≡ a
bit_or-zero a = bit_or_comm a 0 ∙ zero-bit_or a

pub bit_and-zero : (a : ℕ) → bit_and a 0 ≡ 0
bit_and-zero a =
    comm_below bit_and min bit_and_step (λ x y. omega arith) (a + 0) a 0 (omega arith)
    ∙ zero-bit_and a

pub mul-pow-suc : (q k : ℕ) → q * 2 ^ suc k ≡ 2 * (q * 2 ^ k)
mul-pow-suc q k = omega (arith, ap (λ (t : ℕ). q * t) (pow-suc 2 k))

-- `(q << k) | r` is a sum when `r` fits `k` bits.
pub bit_or-add : (k q r : ℕ) → r < 2 ^ k → bit_or (q * 2 ^ k) r ≡ q * 2 ^ k + r
bit_or-add zero q r fits = ground (arith, bit_or-zero q)
bit_or-add (suc k) q r fits = ground (
  arith,
  bit_or_step (q * 2 ^ suc k) r,
  mul-pow-suc q k,
  bit_or-add k q (r / 2) (omega (arith, pow-suc 2 k)),
)

-- The same with the low part on the left.
pub bit_or-add_low : (k q r : ℕ) → r < 2 ^ k → bit_or r (q * 2 ^ k) ≡ r + q * 2 ^ k
bit_or-add_low k q r fits = omega (arith, bit_or_comm r (q * 2 ^ k), bit_or-add k q r fits)

-- A mask of `k` low bits keeps the remainder by `2 ^ k`.
bit_and-add : (k q r : ℕ) → r < 2 ^ k → bit_and (q * 2 ^ k + r) (2 ^ k - 1) ≡ r
bit_and-add zero q r fits = rw bit_and-zero (omega arith)
bit_and-add (suc k) q r fits = ground (
  arith,
  bit_and_step (q * 2 ^ suc k + r) (2 ^ suc k - 1),
  mul-pow-suc q k,
  pow-suc 2 k,
  bit_and-add k q (r / 2) (omega (arith, pow-suc 2 k)),
)

pub bit_and_mask : (k a : ℕ) → bit_and a (2 ^ k - 1) ≡ a % 2 ^ k
bit_and_mask k a = ground (arith, one-le-pow k 2, bit_and-add k (a / 2 ^ k) (a % 2 ^ k))

pub bit_and-0xff : (a : ℕ) → bit_and a 0xff ≡ a % 256
bit_and-0xff a = bit_and_mask 8 a

pub bit_and-0x7f : (a : ℕ) → bit_and a 0x7f ≡ a % 128
bit_and-0x7f a = bit_and_mask 7 a

-- `x | y` is a sum where `x` is a multiple of a power of two that `y` lies below.
pub bit_or_high : (k q x y : ℕ) → x ≡ q * 2 ^ k → y < 2 ^ k → bit_or x y ≡ x + y
bit_or_high k q x y e fits = rw e (bit_or-add k q y fits)

-- The same with the low part on the left.
pub bit_or_low : (k q x y : ℕ) → y ≡ q * 2 ^ k → x < 2 ^ k → bit_or x y ≡ x + y
bit_or_low k q x y e fits = omega (arith, bit_or_comm x y, bit_or_high k q y x e fits)

-- A mask of one bit.
pub bit_and_bit : (k a : ℕ) → bit_and a (2 ^ k) ≡ a / 2 ^ k % 2 * 2 ^ k
bit_and_bit zero a = omega (arith, bit_and_mask 1 a)
bit_and_bit (suc k) a =
    let half : 2 ^ suc k ≡ 2 * 2 ^ k = omega (arith, pow-suc 2 k) in
    let quot : a / 2 ^ suc k ≡ a / 2 / 2 ^ k =
      ap (λ (t : ℕ). a / t) half ∙ sym (div-div-eq-div-mul a 2 (2 ^ k)) in
    ground (
      arith,
      half,
      quot,
      bit_and_step a (2 ^ suc k),
      bit_and_bit k (a / 2),
      ap (λ (t : ℕ). a / 2 / 2 ^ k % 2 * t) half,
    )

pub bit_and-0x80 : (b : ℕ) → b < 256 → bit_and b 0x80 ≡ b / 128 * 128
bit_and-0x80 b h = omega (arith, bit_and_bit 7 b)

pub bit_and-0x40 : (b : ℕ) → bit_and b 0x40 ≡ b / 64 % 2 * 64
bit_and-0x40 b = bit_and_bit 6 b

pub bit_or-0x80 : (b : ℕ) → b < 128 → bit_or b 0x80 ≡ b + 128
bit_or-0x80 b h = bit_or_low 7 1 b 128 refl h

pub two-pow-add-seven : (s : ℕ) → 2 ^ (s + 7) ≡ 128 * 2 ^ s
two-pow-add-seven s = simp towards_suc (omega arith)

zero-bit_xor : (b : ℕ) → bit_xor 0 b ≡ b
zero-bit_xor b = bit_xor-bitwise 0 b

pub bit_xor_step : (a b : ℕ) → bit_xor a b ≡ bit_xor (a / 2) (b / 2) * 2 + differ (a % 2) (b % 2)
bit_xor_step a b = elim (dec_lt 0 a) [
  | yes pos ↦ simp bit_xor-bitwise (lowest_digit (λ y. y) differ a b pos)
  | no nil ↦
      let e : a ≡ 0 = omega arith in rw e (omega (arith, zero-bit_xor b, zero-bit_xor (b / 2)))
]
