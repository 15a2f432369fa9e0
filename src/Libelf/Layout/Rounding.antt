-- ===== src/Libelf/Layout/Rounding.antt =====
-- Rounding up, and the alignments of files.
use elftoolchain.Base.{
  ℕ, ◌+◌, ◌-◌, ◌*◌, ◌/◌, ◌%◌, ◌^◌, ◌≤◌, ◌<◌, ◌≡◌, some, List, [], ◌∷◌, leb, ◌==◌, All, arith,
}
use mathlib.Core.Path.{subst}
use native.Mathlib.Nat.{mul-mod_left, div-mul-le_self, lt-div-mul-add}
use elftoolchain.Libdwarf.Lineno.Advance.{some_injective, pick}
use elftoolchain.Libelf.Layout.{
  Class, class32, class64, roundup, known_types, switch, xlate_shtype, align_at, falign,
}

pub roundup_aligned : (x y : ℕ) → roundup x y % y ≡ 0
unfolding roundup
roundup_aligned x y = mul-mod_left ((x + (y - 1)) % 2 ^ 64 / y) y

round_bounds : (x z y : ℕ) → 0 < y → z ≡ x + (y - 1) → (x ≤ z / y * y) × (z / y * y < x + y)
round_bounds x z y pos e =
    (omega (arith, lt-div-mul-add {a = z} pos, e), omega (arith, div-mul-le_self z y, e, pos))

pub roundup_bounds : (x y : ℕ) → 0 < y → x + y ≤ 2 ^ 64 → (x ≤ roundup x y) × (roundup x y < x + y)
unfolding roundup
roundup_bounds x y pos fits =
    round_bounds x ((x + (y - 1)) % 2 ^ 64) y pos (omega (arith, pos, fits))

pub roundup_le : (x y : ℕ) → x + y ≤ 2 ^ 64 → roundup x y ≤ x + y
unfolding roundup
roundup_le x y fits = omega (arith, div-mul-le_self ((x + (y - 1)) % 2 ^ 64) y, fits)

-- The alignments that the known types of sections have are from 1 to 8.
abbrev pub IsAlign : ℕ → Type 0
IsAlign a = (0 < a) × (a ≤ 8)

switch-IsAlign :
    (c : Class) (l : List (ℕ × ℕ)) (sht ty : ℕ)
    → All (λ (p : ℕ × ℕ). IsAlign (falign p.1 c)) l
    → IsAlign (falign 1 c)
    → switch l sht ≡ some ty
    → IsAlign (falign ty c)
unfolding switch
switch-IsAlign c [] sht ty all byte h =
    pick (leb 0x60000000 sht) _ _ h
      (λ e. subst (λ t. IsAlign (falign t c)) (some_injective 1 ty e) byte) (λ e. ground (arith, e))
switch-IsAlign c (p ∷ l) sht ty (one, all) byte h =
    pick (sht == p.0) _ _ h (λ e. subst (λ t. IsAlign (falign t c)) (some_injective p.1 ty e) one)
      (λ e. switch-IsAlign c l sht ty all byte e)

pub xlate_shtype-IsAlign :
    (c : Class) (sht ty : ℕ) → xlate_shtype sht ≡ some ty → IsAlign (falign ty c)
unfolding xlate_shtype falign align_at
xlate_shtype-IsAlign class32 sht ty h =
    switch-IsAlign class32 known_types sht ty (ground arith) (ground arith) h
xlate_shtype-IsAlign class64 sht ty h =
    switch-IsAlign class64 known_types sht ty (ground arith) (ground arith) h
