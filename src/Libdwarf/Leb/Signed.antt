-- ===== src/Libdwarf/Leb/Signed.antt =====
-- Signed LEB128: what is written, and reading it back. An int64_t is its bit pattern.
use elftoolchain.Base.{
  ◌∙◌, ℕ, zero, suc, ◌+◌, ◌-◌, ◌*◌, ◌%◌, ◌/◌, ◌^◌, ◌≤◌, ◌<◌, ◌≡◌, refl, none, some, [], ◌∷◌, ◌++◌,
  ◌⊎◌, inl, inr, Bytes, length, arith, ltb, leb, ◌>>=◌, if◌then◌else◌, true, false, Option, drop,
  ◌||◌,
}
use native.Mathlib.Nat.{pow-suc}
use elftoolchain.Base.Bits.{bit_and-0x7f, bit_and-0x40, bit_or_low}
use elftoolchain.Base.Mem.{load, load_n, load_n-drop}
use elftoolchain.Libdwarf.Leb.{
  Scan, scan, sign_extend, sar_7, sleb_done, read_sleb128, decode_sleb128, write_sleb128,
  write_sleb_loop,
}
use elftoolchain.Libdwarf.Leb.Cells.{Stored, Wrote, Wrote-nil, Wrote-cons, cell_last, cell_more}
use elftoolchain.Libdwarf.Leb.Groups.{IsTerminated, value, last_byte, Fits, scan-value, scan-none}

-- The numbers from -64 to 63, as bit patterns.
abbrev pub IsSmall : ℕ → Type 0
IsSmall w = (w < 64) ⊎ (2 ^ 64 - 64 ≤ w)

-- The bytes `bs` are the shortest signed LEB128 form of `w`.
abbrev pub IsSleb : Bytes → ℕ → Type 0
IsSleb [] w = ⊥
IsSleb (b ∷ []) w = IsSmall w × (w < 2 ^ 64) × (b ≡ w % 128)
IsSleb (b ∷ c ∷ bs) w =
    (64 ≤ w) × (w < 2 ^ 64 - 64) × (b ≡ w % 128 + 128) × IsSleb (c ∷ bs) (sar_7 w)

IsSleb-IsTerminated : (bs : Bytes) (w : ℕ) → IsSleb bs w → IsTerminated bs
IsSleb-IsTerminated [] w u = u
IsSleb-IsTerminated (b ∷ []) w u = omega arith
IsSleb-IsTerminated (b ∷ c ∷ bs) w u =
    (omega arith, omega arith, IsSleb-IsTerminated (c ∷ bs) (sar_7 w) u.3)

-- The integers that the readers can return: from -2 ^ 27 to 2 ^ 31 - 1.
abbrev pub IsReadable : ℕ → Type 0
IsReadable w = (w < 2 ^ 31) ⊎ (2 ^ 64 - 2 ^ 27 ≤ w)

-- The shift of a nonnegative and of a negative number.
sar_7-cases :
    (w : ℕ)
    → ((w < 2 ^ 63) × (sar_7 w ≡ w / 128))
      ⊎ ((2 ^ 63 ≤ w) × (sar_7 w ≡ w / 128 + (2 ^ 64 - 2 ^ 57)))
unfolding sar_7
sar_7-cases w = ground arith

sar_7-lt : (w : ℕ) → w < 2 ^ 64 → sar_7 w < 2 ^ 64
sar_7-lt w h = omega (arith, sar_7-cases w)

-- The numbers that are left after one to four shifts.
abbrev sar_14 : ℕ → ℕ
sar_14 w = sar_7 (sar_7 w)

abbrev sar_21 : ℕ → ℕ
sar_21 w = sar_7 (sar_14 w)

IsSleb-Fits : (bs : Bytes) (w : ℕ) → IsSleb bs w → IsReadable w → Fits 0 bs
IsSleb-Fits [] w u h = absurd u
IsSleb-Fits (a ∷ []) w u h = omega arith
IsSleb-Fits (a ∷ b ∷ []) w u h = omega arith
IsSleb-Fits (a ∷ b ∷ c ∷ []) w u h = omega arith
IsSleb-Fits (a ∷ b ∷ c ∷ d ∷ []) w u h = omega arith
IsSleb-Fits (a ∷ b ∷ c ∷ d ∷ e ∷ []) w u h =
    omega
      (arith, sar_7-cases w, sar_7-cases (sar_7 w), sar_7-cases (sar_14 w), sar_7-cases (sar_21 w))
IsSleb-Fits (a ∷ b ∷ c ∷ d ∷ e ∷ f ∷ bs) w u h = absurd (
    omega
      (arith, sar_7-cases w, sar_7-cases (sar_7 w), sar_7-cases (sar_14 w), sar_7-cases (sar_21 w)))

Fits-IsReadable : (bs : Bytes) (w : ℕ) → IsSleb bs w → Fits 0 bs → IsReadable w
Fits-IsReadable [] w u f = absurd u
Fits-IsReadable (a ∷ []) w u f = omega arith
Fits-IsReadable (a ∷ b ∷ []) w u f = omega (arith, sar_7-cases w)
Fits-IsReadable (a ∷ b ∷ c ∷ []) w u f = omega (arith, sar_7-cases w, sar_7-cases (sar_7 w))
Fits-IsReadable (a ∷ b ∷ c ∷ d ∷ []) w u f =
    omega (arith, sar_7-cases w, sar_7-cases (sar_7 w), sar_7-cases (sar_14 w))
Fits-IsReadable (a ∷ b ∷ c ∷ d ∷ e ∷ []) w u f =
    omega
      (arith, sar_7-cases w, sar_7-cases (sar_7 w), sar_7-cases (sar_14 w), sar_7-cases (sar_21 w))
Fits-IsReadable (a ∷ b ∷ c ∷ d ∷ e ∷ f ∷ bs) w u h = absurd (omega arith)

-- `ret |= ~0UL << shift` behind one to four groups.
extended :
    (k ret last count s : ℕ)
    → (k ≡ 1) ⊎ (k ≡ 2) ⊎ (k ≡ 3) ⊎ (k ≡ 4)
    → s ≡ 7 * k
    → ret < 2 ^ s
    → 64 ≤ last
    → last < 128
    → sign_extend (record { ret = ret; shift = s; last = last; count = count })
      ≡ ret + (2 ^ 64 - 2 ^ s)
unfolding sign_extend
extended k ret last count s (inl e) es =
    let e7 : s ≡ 7 = omega arith in
    rw e7
      λ low hi lo. ground (arith, bit_or_low 7 (2 ^ 57 - 1) ret (2 ^ 64 - 2 ^ 7), bit_and-0x40 last)
extended k ret last count s (inr (inl e)) es =
    let e7 : s ≡ 14 = omega arith in
    rw e7 λ low hi lo.
      ground (arith, bit_or_low 14 (2 ^ 50 - 1) ret (2 ^ 64 - 2 ^ 14), bit_and-0x40 last)
extended k ret last count s (inr (inr (inl e))) es =
    let e7 : s ≡ 21 = omega arith in
    rw e7 λ low hi lo.
      ground (arith, bit_or_low 21 (2 ^ 43 - 1) ret (2 ^ 64 - 2 ^ 21), bit_and-0x40 last)
extended k ret last count s (inr (inr (inr e))) es =
    let e7 : s ≡ 28 = omega arith in
    rw e7 λ low hi lo.
      ground (arith, bit_or_low 28 (2 ^ 36 - 1) ret (2 ^ 64 - 2 ^ 28), bit_and-0x40 last)

not_extended :
    (ret last count s : ℕ)
    → last < 64
    → sign_extend (record { ret = ret; shift = s; last = last; count = count }) ≡ ret
unfolding sign_extend
not_extended ret last count s h = ground (arith, bit_and-0x40 last)

-- The numbers whose form has five bytes and fits have a last byte below 8.
sleb_value :
    (bs : Bytes) (w count : ℕ)
    → IsSleb bs w
    → Fits 0 bs
    → sign_extend
        (record { ret = value bs; shift = 7 * length bs; last = last_byte bs; count = count })
      ≡ w
sleb_value [] w count u f = absurd u
sleb_value (a ∷ []) w count u f =
    ground (arith, not_extended (value (a ∷ [])) a count 7, extended 1 (value (a ∷ [])) a count 7)
sleb_value (a ∷ b ∷ []) w count u f = ground (
  arith,
  sar_7-cases w,
  not_extended (value (a ∷ b ∷ [])) b count 14,
  extended 2 (value (a ∷ b ∷ [])) b count 14,
)
sleb_value (a ∷ b ∷ c ∷ []) w count u f = ground (
  arith,
  sar_7-cases w,
  sar_7-cases (sar_7 w),
  not_extended (value (a ∷ b ∷ c ∷ [])) c count 21,
  extended 3 (value (a ∷ b ∷ c ∷ [])) c count 21,
)
sleb_value (a ∷ b ∷ c ∷ d ∷ []) w count u f = ground (
  arith,
  sar_7-cases w,
  sar_7-cases (sar_7 w),
  sar_7-cases (sar_14 w),
  not_extended (value (a ∷ b ∷ c ∷ d ∷ [])) d count 28,
  extended 4 (value (a ∷ b ∷ c ∷ d ∷ [])) d count 28,
)
sleb_value (a ∷ b ∷ c ∷ d ∷ e ∷ []) w count u f = ground (
  arith,
  sar_7-cases w,
  sar_7-cases (sar_7 w),
  sar_7-cases (sar_14 w),
  sar_7-cases (sar_21 w),
  not_extended (value (a ∷ b ∷ c ∷ d ∷ e ∷ [])) e count 35,
)
sleb_value (a ∷ b ∷ c ∷ d ∷ e ∷ f' ∷ bs) w count u f = absurd (omega arith)

-- What the readers return on the form of `w`.
abbrev pub sleb_result : ℕ → ℕ → Option (ℕ × ℕ)
sleb_result w i = if ltb w (2 ^ 31) || leb (2 ^ 64 - 2 ^ 27) w then some (w, i) else none

scan-IsSleb :
    (bs rest : Bytes) (w : ℕ)
    → IsSleb bs w
    → (scan (bs ++ rest) 0 0 0 >>= λ (s : Scan). some (sign_extend s, s.count))
      ≡ sleb_result w (length bs)
scan-IsSleb bs rest w u =
    elim (scan-none bs rest 0 0 0 (IsSleb-IsTerminated bs w u) (omega arith)) [
      | inl f ↦ ground (
        arith,
        scan-value bs rest 0 0 0 (IsSleb-IsTerminated bs w u) f,
        sleb_value bs w (length bs) u f,
        Fits-IsReadable bs w u f,
      )
      | inr e ↦
          ground
            (arith, e, IsSleb-Fits bs w u, scan-value bs rest 0 0 0 (IsSleb-IsTerminated bs w u))
    ]

-- On the form of `w` both readers return `w` and the position behind it, if it stands for an
-- integer from -2 ^ 27 to 2 ^ 31 - 1. For any other a shift overflows an `int`.
pub read_sleb128_form :
    (m : Bytes) (p : ℕ) (bs : Bytes) (w : ℕ)
    → IsSleb bs w
    → load_n m p (length bs) ≡ some bs
    → (read_sleb128 m p ≡ sleb_result w (p + length bs))
      × (decode_sleb128 m p ≡ sleb_result w (p + length bs))
unfolding read_sleb128 decode_sleb128
read_sleb128_form m p bs w u l =
    rw (load_n-drop m p bs l) (ground (arith, scan-IsSleb bs (drop (p + length bs) m) w u))

sleb_done-small : (w : ℕ) → w < 2 ^ 64 → IsSmall w → sleb_done (sar_7 w) (w % 128) ≡ true
unfolding sleb_done
sleb_done-small w h small = ground (arith, sar_7-cases w, bit_and-0x40 (w % 128))

sleb_done-large : (w : ℕ) → 64 ≤ w → w < 2 ^ 64 - 64 → sleb_done (sar_7 w) (w % 128) ≡ false
unfolding sleb_done
sleb_done-large w h large = ground (arith, sar_7-cases w, bit_and-0x40 (w % 128))

sleb_round_last :
    (room : ℕ) (m : Bytes) (p count w : ℕ)
    → IsSmall w
    → w < 2 ^ 64
    → p < length m
    → (m' : Bytes) × (write_sleb_loop (suc room) m p count w ≡ some (m', some (count + 1)))
      × Stored m p (w % 128) m'
unfolding write_sleb_loop
sleb_round_last room m p count w small lt h =
    let (m', e, s) = cell_last m p (w % 128) h in
    (m', rw (bit_and-0x7f w, e, s.here, sleb_done-small w lt small), s)

sleb_round_more :
    (room : ℕ) (m : Bytes) (p count w : ℕ)
    → 64 ≤ w
    → w < 2 ^ 64 - 64
    → p < length m
    → (m' : Bytes) × (write_sleb_loop (suc room) m p count w
        ≡ write_sleb_loop room m' (p + 1) (count + 1) (sar_7 w))
      × Stored m p (w % 128 + 128) m'
unfolding write_sleb_loop
sleb_round_more room m p count w lo hi h =
    let (m₁, m', e₁, l, e', s) = cell_more m p (w % 128) h (omega arith) in
    (m', rw (bit_and-0x7f w, e₁, l, sleb_done-large w lo hi, e'), s)

write_sleb_loop-Wrote :
    (bs : Bytes) (room : ℕ) (m : Bytes) (p count w : ℕ)
    → IsSleb bs w
    → length bs ≤ room
    → p + length bs ≤ length m
    → (m' : Bytes) × (write_sleb_loop room m p count w ≡ some (m', some (count + length bs)))
      × Wrote m p bs m'
write_sleb_loop-Wrote [] room m p count w u l h = absurd u
write_sleb_loop-Wrote (b ∷ bs) zero m p count w u l h = absurd (omega arith)
write_sleb_loop-Wrote (b ∷ []) (suc room) m p count w u l h =
    let (m', e, s) = sleb_round_last room m p count w u.0 u.1 (omega arith) in
    (m', e, Wrote-cons m m' m' p b [] (rw u.2 s) (Wrote-nil m' (p + 1)))
write_sleb_loop-Wrote (b ∷ c ∷ bs) (suc room) m p count w u l h =
    let (m₁, e₁, s) = sleb_round_more room m p count w u.0 u.1 (omega arith) in
    let (m', e, wr) =
      write_sleb_loop-Wrote (c ∷ bs) room m₁ (p + 1) (count + 1) (sar_7 w) u.3 (omega arith)
        (omega (arith, s.size)) in
    (m', ground arith, Wrote-cons m m₁ m' p b (c ∷ bs) (rw u.2 s) wr)

-- Every int64_t has a form of ten bytes at most: its distance from zero shrinks by 128.
pub IsSleb-total :
    (k w : ℕ)
    → w < 2 ^ 64
    → (w < 64 * 128 ^ k) ⊎ (2 ^ 64 ≤ w + 64 * 128 ^ k)
    → (bs : Bytes) × IsSleb bs w × (length bs ≤ suc k)
IsSleb-total zero w h near = ((w % 128) ∷ [], (omega arith, h, refl), omega arith)
IsSleb-total (suc k) w h near = elim (small_or_large w) [
  | inl small ↦ ((w % 128) ∷ [], (small, h, refl), omega arith)
  | inr (lo, hi) ↦
      longer lo hi
        (IsSleb-total k (sar_7 w) (sar_7-lt w h) (omega (arith, sar_7-cases w, pow-suc 128 k)))
]
  where
    small_or_large : (x : ℕ) → IsSmall x ⊎ ((64 ≤ x) × (x < 2 ^ 64 - 64))
    small_or_large x = ground arith

    longer :
        64 ≤ w
        → w < 2 ^ 64 - 64
        → ((bs : Bytes) × IsSleb bs (sar_7 w) × (length bs ≤ suc k))
        → (bs : Bytes) × IsSleb bs w × (length bs ≤ suc (suc k))
    longer lo hi ([], u, l) = absurd u
    longer lo hi (c ∷ bs, u, l) = ((w % 128 + 128) ∷ c ∷ bs, (lo, hi, refl, u), omega arith)

-- With room for the form the writer stores it, and returns its length.
pub write_sleb128-Wrote :
    (m : Bytes) (p end : ℕ) (bs : Bytes) (w : ℕ)
    → IsSleb bs w
    → p + length bs ≤ end
    → end ≤ length m
    → (m' : Bytes) × (write_sleb128 m p end w ≡ some (m', some (length bs))) × Wrote m p bs m'
unfolding write_sleb128
write_sleb128-Wrote m p end bs w u room h =
    let (m', e, wr) = write_sleb_loop-Wrote bs (end - p) m p 0 w u (omega arith) (omega arith) in
    (m', ground arith, wr)

-- Every int64_t, as a bit pattern, is written by `_dwarf_write_sleb128` into ten bytes at most,
-- where ten bytes fit between `p` and the end of the room, inside the buffer. On what was written
-- `_dwarf_read_sleb128` and `_dwarf_decode_sleb128` return the value and the position behind it if
-- the value is from -2 ^ 27 to 2 ^ 31 - 1, and run into undefined behaviour if it is not, since a
-- group is shifted out of an `int`.
pub read_sleb128-write_sleb128 :
    (m : Bytes) (p end w : ℕ)
    → w < 2 ^ 64
    → p + 10 ≤ end
    → end ≤ length m
    → (m' : Bytes) × (n : ℕ) × (write_sleb128 m p end w ≡ some (m', some n))
      × (n ≤ 10)
      × (read_sleb128 m' p ≡ sleb_result w (p + n))
      × (decode_sleb128 m' p ≡ sleb_result w (p + n))
read_sleb128-write_sleb128 m p end w h room inside =
    let (bs, u, short) = IsSleb-total 9 w h (omega arith) in
    let (m', e, wr) = write_sleb128-Wrote m p end bs w u (omega arith) inside in
    let (r, d) = read_sleb128_form m' p bs w u wr.back in (m', length bs, e, short, r, d)

write_sleb_loop-short :
    (bs : Bytes) (room : ℕ) (m : Bytes) (p count w : ℕ)
    → IsSleb bs w
    → room < length bs
    → p + room ≤ length m
    → (m' : Bytes) × (write_sleb_loop room m p count w ≡ some (m', none))
      × (length m' ≡ length m)
      × ((j : ℕ) → (j < p) ⊎ (p + room ≤ j) → load m' j ≡ load m j)
write_sleb_loop-short [] room m p count w u l h = absurd u
write_sleb_loop-short (b ∷ bs) zero m p count w u l h =
    (m, unfold write_sleb_loop in refl, refl, λ j out. refl)
write_sleb_loop-short (b ∷ []) (suc room) m p count w u l h = absurd (omega arith)
write_sleb_loop-short (b ∷ c ∷ bs) (suc room) m p count w u l h =
    let (m₁, e₁, s) = sleb_round_more room m p count w u.0 u.1 (omega arith) in
    let (m', e, len, out) =
      write_sleb_loop-short (c ∷ bs) room m₁ (p + 1) (count + 1) (sar_7 w) u.3 (omega arith)
        (omega (arith, s.size)) in
    (m', e₁ ∙ e, len ∙ s.size, λ j h. out j (omega arith) ∙ s.elsewhere j (omega arith))

-- Without room for the form the writer returns -1, and what lies outside of the room is as before.
pub write_sleb128_short :
    (m : Bytes) (p end : ℕ) (bs : Bytes) (w : ℕ)
    → IsSleb bs w
    → p ≤ end
    → end < p + length bs
    → end ≤ length m
    → (m' : Bytes) × (write_sleb128 m p end w ≡ some (m', none))
      × (length m' ≡ length m)
      × ((j : ℕ) → (j < p) ⊎ (end ≤ j) → load m' j ≡ load m j)
unfolding write_sleb128
write_sleb128_short m p end bs w u le short h =
    let (m', e, len, out) =
      write_sleb_loop-short bs (end - p) m p 0 w u (omega arith) (omega arith) in
    (m', e, len, λ j o. out j (omega arith))
