-- ===== src/Elfcopy/Image/Pieces.antt =====
-- Data that are loaded piece by piece.
use elftoolchain.Base.{
  ℕ, zero, suc, ◌+◌, ◌≤◌, ◌<◌, ◌≡◌, refl, ap, sym, List, [], ◌∷◌, ◌++◌, append-nil, Bytes, length,
  take, drop, All, IsByte, arith,
}
use elftoolchain.Elfcopy.Image.Segments.{
  Segment, add_segment, add_segment_twice, total, total-add_segment,
}

-- `take` and `drop` of a non-empty piece.
pub split :
    (n : ℕ) (buf : Bytes)
    → n ≤ length buf
    → (length (take n buf) ≡ n)
      × (length (drop n buf) + n ≡ length buf)
      × (take n buf ++ drop n buf ≡ buf)
split zero buf h = (refl, omega arith, refl)
split (suc n) [] h = ground arith
split (suc n) (b ∷ buf) h =
    let (x, y, z) = split n buf (omega arith) in
    (ap suc x, omega (arith, y), ap (λ (l : Bytes). b ∷ l) z)

pub split_bytes :
    (n : ℕ) (buf : Bytes) → All IsByte buf → All IsByte (take n buf) × All IsByte (drop n buf)
split_bytes zero buf h = (_, h)
split_bytes (suc n) [] h = (h, h)
split_bytes (suc n) (b ∷ buf) h = let (x, y) = split_bytes n buf h.1 in ((h.0, x), y)

-- The effect of data, which may be none.
abbrev pub add_bytes : ℕ → Bytes → List Segment → List Segment
add_bytes addr [] l = l
add_bytes addr (b ∷ bytes) l = add_segment addr (b ∷ bytes) l

pub add_bytes_some :
    (addr : ℕ) (buf : Bytes) (l : List Segment)
    → 0 < length buf
    → add_bytes addr buf l ≡ add_segment addr buf l
add_bytes_some addr [] l h = ground (arith, h)
add_bytes_some addr (b ∷ buf) l h = refl

pub add_bytes_rest :
    (addr : ℕ) (c rest : Bytes) (l : List Segment)
    → add_bytes (addr + length c) rest (add_segment addr c l) ≡ add_segment addr (c ++ rest) l
add_bytes_rest addr c [] l = ap (λ (x : Bytes). add_segment addr x l) (sym (append-nil c))
add_bytes_rest addr c (b ∷ rest) l = add_segment_twice addr c (b ∷ rest) l

pub total-add_bytes :
    (addr : ℕ) (b : Bytes) (l : List Segment) → total (add_bytes addr b l) ≡ length b + total l
total-add_bytes addr [] l = omega arith
total-add_bytes addr (b ∷ bytes) l = total-add_segment addr (b ∷ bytes) l
