-- ===== src/Libelf/Ar/Number/Laws.antt =====
-- What _libelf_ar_get_number accepts, and what it returns.
use elftoolchain.Base.{
  ℕ, zero, suc, ◌+◌, ◌-◌, ◌*◌, ◌%◌, ◌^◌, ◌≤◌, ◌<◌, ◌≡◌, ◌≢◌, refl, ap, ◌⊎◌, inl, inr, some, [], ◌∷◌,
  ◌++◌, Bytes, All, length, arith, replicate,
}
use native.Mathlib.Decide.{ℕ_discrete}
use native.Mathlib.Nat.{pow-suc, pow-le-pow_right, mod-eq_of_lt}
use elftoolchain.Libelf.Ar.Number.{digits, skip_blanks, get_number}

-- A digit of the base.
abbrev pub IsDigit : ℕ → ℕ → Type 0
IsDigit base c = (b'0' ≤ c) × (c ≤ b'9') × (c - b'0' < base)

-- The number that digits spell behind `n`.
abbrev pub value : ℕ → ℕ → Bytes → ℕ
value base n [] = n
value base n (c ∷ s) = value base (n * base + (c - b'0')) s

-- The end of the field, or a blank with anything behind it.
abbrev pub IsEnd : Bytes → Type 0
IsEnd [] = Unit
IsEnd (c ∷ s) = c ≡ b' '

le-mul : (n base : ℕ) → 1 ≤ base → n ≤ n * base
le-mul n base h = grind arith

le-value : (base : ℕ) (s : Bytes) (n : ℕ) → 1 ≤ base → n ≤ value base n s
le-value base [] n h = omega arith
le-value base (c ∷ s) n h =
    omega (arith, le-value base s (n * base + (c - b'0')) h, le-mul n base h)

digits-value :
    (base : ℕ) (ds end : Bytes) (n : ℕ)
    → 1 ≤ base
    → All (IsDigit base) ds
    → IsEnd end
    → value base n ds < 2 ^ 64
    → digits base (ds ++ end) n ≡ some (value base n ds)
unfolding digits
digits-value base [] [] n b d e fits = refl
digits-value base [] (c ∷ end) n b d e fits = ground arith
digits-value base (c ∷ ds) end n b d e fits = ground (
  arith,
  le-value base ds (n * base + (c - b'0')) b,
  digits-value base ds end (n * base + (c - b'0')) b d.1 e fits,
)

skip_blanks-replicate : (k : ℕ) (s : Bytes) → skip_blanks (replicate k b' ' ++ s) ≡ skip_blanks s
unfolding skip_blanks
skip_blanks-replicate zero s = refl
skip_blanks-replicate (suc k) s = skip_blanks-replicate k s

skip_blanks-digit : (base c : ℕ) (s : Bytes) → IsDigit base c → skip_blanks (c ∷ s) ≡ c ∷ s
unfolding skip_blanks
skip_blanks-digit base c s d = ground arith

-- On blanks, then at least one digit of the base, then the end of the field or a blank,
-- `_libelf_ar_get_number` returns the number that the digits spell, if that is below 2 ^ 64.
pub get_number-value :
    (base k : ℕ) (ds end : Bytes)
    → 1 ≤ base
    → ds ≢ []
    → All (IsDigit base) ds
    → IsEnd end
    → value base 0 ds < 2 ^ 64
    → get_number (replicate k b' ' ++ (ds ++ end)) base ≡ some (value base 0 ds)
unfolding get_number
get_number-value base k [] end b ne d e fits = absurd (ne refl)
get_number-value base k (c ∷ ds) end b ne d e fits =
    rw (skip_blanks-replicate k (c ∷ ds ++ end), skip_blanks-digit base c (ds ++ end) d.0)
      (digits-value base (c ∷ ds) end 0 b d e fits)

-- What is left behind the blanks in front.
skip_blanks_split :
    (s : Bytes)
    → (k : ℕ) × (s ≡ replicate k b' ' ++ skip_blanks s) × (length (skip_blanks s) ≤ length s)
unfolding skip_blanks
skip_blanks_split [] = (0, refl, omega arith)
skip_blanks_split (c ∷ s) = elim (ℕ_discrete c b' ') [
  | yes e ↦ let (k, p, l) = skip_blanks_split s in rw e (suc k, ap (λ t. b' ' ∷ t) p, omega arith)
  | no ne ↦ (0, ground arith, ground arith)
]

-- A number of at most `k` decimal digits, with one more.
digit_bound :
    (base k n c : ℕ) → base ≤ 10 → n < 10 ^ k → c ≤ b'9' → n * base + (c - b'0') < 10 ^ suc k
digit_bound base k n c b h d = omega (arith, pow-suc 10 k, grow)
  where
    grow : n * base ≤ n * 10
    grow = grind arith

digits_step :
    (base c : ℕ) (s : Bytes) (n r : ℕ)
    → digits base (c ∷ s) n ≡ some r
    → ((c ≡ b' ') × (r ≡ n))
      ⊎ (IsDigit base c × (digits base s ((n * base + (c - b'0')) % 2 ^ 64) ≡ some r))
unfolding digits
digits_step base c s n r e = ground arith

-- Digits to the end or to a blank, whose number is returned.
abbrev pub Spells : ℕ → Bytes → ℕ → ℕ → Type 0
Spells base s n r =
    (ds : Bytes) × (end : Bytes) × (s ≡ ds ++ end)
    × All (IsDigit base) ds
    × IsEnd end
    × (r ≡ value base n ds)

digits_sound :
    (base k : ℕ) (s : Bytes) (n r : ℕ)
    → base ≤ 10
    → n < 10 ^ k
    → length s + k ≤ 19
    → digits base s n ≡ some r
    → Spells base s n r
digits_sound base k [] n r b h l e = ([], [], refl, tt, tt, unfold digits in ground arith)
digits_sound base k (c ∷ s) n r b h l e = elim (digits_step base c s n r e) [
  | inl (blank, same) ↦ ([], c ∷ s, refl, tt, blank, same)
  | inr (d, e') ↦
      let small = digit_bound base k n c b h d.1 in
      let fits : n * base + (c - b'0') < 2 ^ 64 = omega (
        arith,
        small,
        pow-le-pow_right {n = 10} (omega arith) {i = suc k} {j = 19} (omega arith),
      ) in
      let (ds, end, q, all, stop, v) =
        digits_sound base (suc k) s (n * base + (c - b'0')) r b small (omega arith)
          (rw (mod-eq_of_lt fits) at e') in
      (c ∷ ds, end, ap (λ t. c ∷ t) q, (d, all), stop, v)
]

-- What `_libelf_ar_get_number` accepts in a field of at most 19 bytes, in a base of at most ten, is
-- blanks, then digits of the base, then the end or a blank; the result is the number that the
-- digits spell, with no wrap-around.
pub get_number_sound :
    (s : Bytes) (base r : ℕ)
    → base ≤ 10
    → length s ≤ 19
    → get_number s base ≡ some r
    → (k : ℕ) × (t : Bytes) × (s ≡ replicate k b' ' ++ t) × Spells base t 0 r
unfolding get_number
get_number_sound s base r b l e =
    let (k, p, shorter) = skip_blanks_split s in
    (k, skip_blanks s, p, digits_sound base 0 (skip_blanks s) 0 r b (omega arith) (omega arith) e)

digits_bound : (base : ℕ) (s : Bytes) (n r : ℕ) → n < 2 ^ 64 → digits base s n ≡ some r → r < 2 ^ 64
unfolding digits
digits_bound base [] n r b e = ground arith
digits_bound base (c ∷ s) n r b e = elim (digits_step base c s n r e) [
  | inl (blank, same) ↦ omega arith
  | inr (d, e') ↦ digits_bound base s ((n * base + (c - b'0')) % 2 ^ 64) r (omega arith) e'
]

pub get_number_bound : (s : Bytes) (base r : ℕ) → get_number s base ≡ some r → r < 2 ^ 64
unfolding get_number
get_number_bound s base r e = digits_bound base (skip_blanks s) 0 r (omega arith) e
