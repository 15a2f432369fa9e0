-- ===== src/Libdwarf/Leb/Groups.antt =====
-- What the readers of LEB128 make of a sequence of bytes, whatever wrote it.
use elftoolchain.Base.{
  ℕ, ◌+◌, ◌*◌, ◌%◌, ◌^◌, ◌≤◌, ◌<◌, ◌≡◌, refl, ap, none, some, [], ◌∷◌, ◌++◌, ◌⊎◌, inl, inr, Bytes,
  length, arith, ltb, if◌then◌else◌,
}
use elftoolchain.Base.Bits.{bit_or_low, bit_and-0x7f, bit_and-0x80, two-pow-add-seven}
use elftoolchain.Libdwarf.Leb.{scan, shl_int}

-- Every byte but the last has its top bit set.
abbrev pub IsTerminated : Bytes → Type 0
IsTerminated [] = ⊥
IsTerminated (b ∷ []) = b < 128
IsTerminated (b ∷ c ∷ bs) = (128 ≤ b) × (b < 256) × IsTerminated (c ∷ bs)

-- The number that the groups of seven bits spell, the lowest first.
abbrev pub value : Bytes → ℕ
value [] = 0
value (b ∷ bs) = b % 128 + 128 * value bs

abbrev pub last_byte : Bytes → ℕ
last_byte [] = 0
last_byte (b ∷ []) = b
last_byte (b ∷ c ∷ bs) = last_byte (c ∷ bs)

-- Each group, shifted to its place, is an `int`.
abbrev pub Fits : ℕ → Bytes → Type 0
Fits shift [] = Unit
Fits shift (b ∷ bs) = (shift < 32) × (b % 128 * 2 ^ shift < 2 ^ 31) × Fits (shift + 7) bs

shl_int-some : (x s : ℕ) → s < 32 → x * 2 ^ s < 2 ^ 31 → shl_int x s ≡ some (x * 2 ^ s)
unfolding shl_int
shl_int-some x s h k = ground arith

shl_int-cases : (x s : ℕ) → ((s < 32) × (x * 2 ^ s < 2 ^ 31)) ⊎ (shl_int x s ≡ none)
unfolding shl_int
shl_int-cases x s = ground arith

-- One round on a byte whose group fits.
scan_round :
    (b : ℕ) (src : Bytes) (ret shift count : ℕ)
    → b < 256
    → shift < 32
    → b % 128 * 2 ^ shift < 2 ^ 31
    → ret < 2 ^ shift
    → scan (b ∷ src) ret shift count ≡ (
        if ltb b 128
        then some (record {
          ret = ret + b % 128 * 2 ^ shift;
          shift = shift + 7;
          last = b;
          count = count + 1;
        })
        else scan src (ret + b % 128 * 2 ^ shift) (shift + 7) (count + 1))
unfolding scan
scan_round b src ret shift count hb hs fits low = ground (
  arith,
  bit_and-0x7f b,
  bit_and-0x80 b hb,
  shl_int-some (b % 128) shift hs fits,
  bit_or_low shift (b % 128) ret (b % 128 * 2 ^ shift) refl low,
)

-- The lowest group and the rest, both at their places.
split_group : (g v s : ℕ) → (g + 128 * v) * 2 ^ s ≡ g * 2 ^ s + v * 2 ^ (s + 7)
split_group g v s = omega (arith, ap (λ (t : ℕ). v * t) (two-pow-add-seven s))

-- The sum so far stays below the place of the next group.
low_sum : (ret g s : ℕ) → ret < 2 ^ s → g < 128 → ret + g * 2 ^ s < 2 ^ (s + 7)
low_sum ret g s h k = rw two-pow-add-seven (grind arith)

-- On bytes of which all but the last have the top bit set, each with its group of seven bits inside
-- an `int` at its place, the loop of the LEB128 readers stops behind them; `ret` has grown by the
-- number that the groups spell, and `shift`, the last byte and the count are those of the sequence.
pub scan-value :
    (bs rest : Bytes) (ret shift count : ℕ)
    → IsTerminated bs
    → Fits shift bs
    → ret < 2 ^ shift
    → scan (bs ++ rest) ret shift count
      ≡ some (record {
        ret = ret + value bs * 2 ^ shift;
        shift = shift + 7 * length bs;
        last = last_byte bs;
        count = count + length bs;
      })
scan-value [] rest ret shift count t f low = absurd t
scan-value (b ∷ []) rest ret shift count t f low = ground (arith, scan_round b rest ret shift count)
scan-value (b ∷ c ∷ bs) rest ret shift count t f low = ground (
  arith,
  scan_round b (c ∷ bs ++ rest) ret shift count,
  split_group (b % 128) (value (c ∷ bs)) shift,
  scan-value (c ∷ bs) rest (ret + b % 128 * 2 ^ shift) (shift + 7) (count + 1) t.2 f.2
      (low_sum ret (b % 128) shift low (omega arith)),
)

scan_overflow :
    (b : ℕ) (src : Bytes) (ret shift count : ℕ)
    → shl_int (b % 128) shift ≡ none
    → scan (b ∷ src) ret shift count ≡ none
unfolding scan
scan_overflow b src ret shift count e = rw (bit_and-0x7f b, e)

-- Where a group does not fit, the loop runs into undefined behaviour.
pub scan-none :
    (bs rest : Bytes) (ret shift count : ℕ)
    → IsTerminated bs
    → ret < 2 ^ shift
    → Fits shift bs ⊎ (scan (bs ++ rest) ret shift count ≡ none)
scan-none [] rest ret shift count t low = absurd t
scan-none (b ∷ []) rest ret shift count t low = elim (shl_int-cases (b % 128) shift) [
  | inl (h, k) ↦ inl (h, k, tt)
  | inr e ↦ inr (scan_overflow b rest ret shift count e)
]
scan-none (b ∷ c ∷ bs) rest ret shift count t low = elim (shl_int-cases (b % 128) shift) [
  | inl (h, k) ↦ onward h k (
      scan-none (c ∷ bs) rest (ret + b % 128 * 2 ^ shift) (shift + 7) (count + 1) t.2
        (low_sum ret (b % 128) shift low (omega arith)))
  | inr e ↦ inr (scan_overflow b (c ∷ bs ++ rest) ret shift count e)
]
  where
    onward :
        shift < 32
        → b % 128 * 2 ^ shift < 2 ^ 31
        → Fits (shift + 7) (c ∷ bs)
          ⊎ (scan (c ∷ bs ++ rest) (ret + b % 128 * 2 ^ shift) (shift + 7) (count + 1) ≡ none)
        → Fits shift (b ∷ c ∷ bs) ⊎ (scan (b ∷ c ∷ bs ++ rest) ret shift count ≡ none)
    onward h k (inl f) = inl (h, k, f)
    onward h k (inr e) = inr (ground (arith, scan_round b (c ∷ bs ++ rest) ret shift count))
