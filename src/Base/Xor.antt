-- ===== src/Base/Xor.antt =====
-- Exclusive or, and a mask that clears bits, on a number cut in two.
use Prim.Native.Nat.{ℕ, zero, suc, ◌+◌, ◌-◌, ◌*◌, ◌/◌, ◌%◌, ◌^◌, ◌≤◌, ◌<◌, bit_and, bit_xor, differ}
use mathlib.Core.Path.{◌≡◌, refl, ap}
use native.Mathlib.Nat.{pow-suc}
use native.Mathlib.Omega.{arith}
use elftoolchain.Base.Bits.{bit_xor_step, bit_and_step, mul-pow-suc}

differ_bound : (x y : ℕ) → x < 2 → y < 2 → differ x y < 2
differ_bound zero y a b = b
differ_bound (suc x) zero a b = a
differ_bound (suc zero) (suc y) a b = omega (arith, b)
differ_bound (suc (suc x)) (suc y) a b = absurd (omega (arith, a))

differ-zero : (x : ℕ) → differ x 0 ≡ x
differ-zero zero = refl
differ-zero (suc x) = refl

bit_xor-zero_below : (n a : ℕ) → a ≤ n → bit_xor a 0 ≡ a
bit_xor-zero_below zero a h = let e : a ≡ 0 = omega arith in rw e refl
bit_xor-zero_below (suc n) a h =
    omega (arith, bit_xor_step a 0, differ-zero (a % 2), bit_xor-zero_below n (a / 2) (omega arith))

pub bit_xor-zero : (a : ℕ) → bit_xor a 0 ≡ a
bit_xor-zero a = bit_xor-zero_below a a (omega arith)

pub bit_xor_bound : (k x y : ℕ) → x < 2 ^ k → y < 2 ^ k → bit_xor x y < 2 ^ k
bit_xor_bound zero x y a b =
    let (p, q) = let r : (x ≡ 0) × (y ≡ 0) = omega arith in r in rw (p, q) (omega arith)
bit_xor_bound (suc k) x y a b = omega (
  arith,
  pow-suc 2 k,
  bit_xor_step x y,
  differ_bound (x % 2) (y % 2) (omega arith) (omega arith),
  bit_xor_bound k (x / 2) (y / 2) (omega (arith, pow-suc 2 k)) (omega (arith, pow-suc 2 k)),
)

-- Only the low part is changed by a number that fits in it.
pub bit_xor_split :
    (k q r y : ℕ) → r < 2 ^ k → y < 2 ^ k → bit_xor (q * 2 ^ k + r) y ≡ q * 2 ^ k + bit_xor r y
bit_xor_split zero q r y a b =
    let (e, f) = let p : (r ≡ 0) × (y ≡ 0) = omega arith in p in
    rw (e, f) (omega (arith, bit_xor-zero (q * 1 + 0), bit_xor-zero 0))
bit_xor_split (suc k) q r y a b =
    let half : (q * 2 ^ suc k + r) / 2 ≡ q * 2 ^ k + r / 2 = omega (arith, mul-pow-suc q k) in
    let parity : (q * 2 ^ suc k + r) % 2 ≡ r % 2 = omega (arith, mul-pow-suc q k) in
    omega (
      arith,
      bit_xor_step (q * 2 ^ suc k + r) y,
      ap (λ (t : ℕ). bit_xor t (y / 2)) half,
      ap (λ (t : ℕ). differ t (y % 2)) parity,
      bit_xor_step r y,
      mul-pow-suc q k,
      bit_xor_split k q (r / 2) (y / 2) (omega (arith, pow-suc 2 k)) (omega (arith, pow-suc 2 k)),
    )

-- `&` goes part by part.
pub bit_and_split :
    (k q r m u : ℕ)
    → r < 2 ^ k
    → u < 2 ^ k
    → bit_and (q * 2 ^ k + r) (m * 2 ^ k + u) ≡ bit_and q m * 2 ^ k + bit_and r u
bit_and_split zero q r m u a b =
    let (e, e') = let p : (r ≡ 0) × (u ≡ 0) = omega arith in p in
    let f : q * 2 ^ 0 + 0 ≡ q = omega arith in
    let g : m * 2 ^ 0 + 0 ≡ m = omega arith in rw (e, e', f, g) (omega arith)
bit_and_split (suc k) q r m u a b =
    let half : (q * 2 ^ suc k + r) / 2 ≡ q * 2 ^ k + r / 2 = omega (arith, mul-pow-suc q k) in
    let half' : (m * 2 ^ suc k + u) / 2 ≡ m * 2 ^ k + u / 2 = omega (arith, mul-pow-suc m k) in
    let parity : (q * 2 ^ suc k + r) % 2 ≡ r % 2 = omega (arith, mul-pow-suc q k) in
    let parity' : (m * 2 ^ suc k + u) % 2 ≡ u % 2 = omega (arith, mul-pow-suc m k) in
    omega (
      arith,
      bit_and_step (q * 2 ^ suc k + r) (m * 2 ^ suc k + u),
      ap (λ (t : ℕ). bit_and t ((m * 2 ^ suc k + u) / 2)) half,
      ap (λ (t : ℕ). bit_and (q * 2 ^ k + r / 2) t) half',
      parity,
      parity',
      bit_and_step r u,
      mul-pow-suc (bit_and q m) k,
      bit_and_split k q (r / 2) m (u / 2) (omega (arith, pow-suc 2 k)) (omega (arith, pow-suc 2 k)),
    )

-- A number and its complement have no bit in common.
pub bit_and-complement : (k t : ℕ) → t < 2 ^ k → bit_and t (2 ^ k - 1 - t) ≡ 0
bit_and-complement zero t h = let e : t ≡ 0 = omega arith in rw e refl
bit_and-complement (suc k) t h =
    let half : (2 ^ suc k - 1 - t) / 2 ≡ 2 ^ k - 1 - t / 2 = omega (arith, pow-suc 2 k) in
    omega (
      arith,
      pow-suc 2 k,
      bit_and_step t (2 ^ suc k - 1 - t),
      ap (λ (u : ℕ). bit_and (t / 2) u) half,
      bit_and-complement k (t / 2) (omega (arith, pow-suc 2 k)),
    )
