-- ===== src/Libdwarf/Leb/Unsigned.antt =====
-- Unsigned LEB128: what is written, and reading it back.
use elftoolchain.Base.{
  ℕ, zero, suc, ◌+◌, ◌-◌, ◌%◌, ◌/◌, ◌^◌, ◌≤◌, ◌<◌, ◌≡◌, refl, none, some, [], ◌∷◌, ◌++◌, ◌⊎◌, inl,
  inr, Bytes, length, arith, ltb, ◌>>=◌, if◌then◌else◌, Option, drop, ◌∙◌,
}
use elftoolchain.Base.Bits.{bit_and-0x7f}
use elftoolchain.Base.Mem.{load, load_n, load_n-drop}
use elftoolchain.Libdwarf.Leb.{
  Scan, scan, read_uleb128, decode_uleb128, write_uleb128, write_uleb_loop,
}
use native.Mathlib.Decide.{dec_lt}
use native.Mathlib.Nat.{pow-suc}
use elftoolchain.Libdwarf.Leb.Cells.{Stored, Wrote, Wrote-nil, Wrote-cons, cell_last, cell_more}
use elftoolchain.Libdwarf.Leb.Groups.{IsTerminated, value, Fits, scan-value, scan-none}

-- The bytes `bs` are the shortest unsigned LEB128 form of `v`.
abbrev pub IsUleb : Bytes → ℕ → Type 0
IsUleb [] v = ⊥
IsUleb (b ∷ []) v = (v < 128) × (b ≡ v)
IsUleb (b ∷ c ∷ bs) v = (128 ≤ v) × (b ≡ v % 128 + 128) × IsUleb (c ∷ bs) (v / 128)

IsUleb-IsTerminated : (bs : Bytes) (v : ℕ) → IsUleb bs v → IsTerminated bs
IsUleb-IsTerminated [] v u = u
IsUleb-IsTerminated (b ∷ []) v u = omega arith
IsUleb-IsTerminated (b ∷ c ∷ bs) v u =
    (omega arith, omega arith, IsUleb-IsTerminated (c ∷ bs) (v / 128) u.2)

IsUleb-value : (bs : Bytes) (v : ℕ) → IsUleb bs v → value bs ≡ v
IsUleb-value [] v u = absurd u
IsUleb-value (b ∷ []) v u = omega arith
IsUleb-value (b ∷ c ∷ bs) v u = omega (arith, IsUleb-value (c ∷ bs) (v / 128) u.2)

-- A value has such a form, of at most `k + 1` bytes below 128 ^ (k + 1).
pub IsUleb-total : (k v : ℕ) → v < 128 ^ suc k → (bs : Bytes) × IsUleb bs v × (length bs ≤ suc k)
IsUleb-total zero v h = (v ∷ [], (omega arith, refl), omega arith)
IsUleb-total (suc k) v h = elim (dec_lt v 128) [
  | yes small ↦ (v ∷ [], (small, refl), omega arith)
  | no large ↦ longer (omega arith) (IsUleb-total k (v / 128) (omega (arith, pow-suc 128 (suc k))))
]
  where
    longer :
        128 ≤ v
        → ((bs : Bytes) × IsUleb bs (v / 128) × (length bs ≤ suc k))
        → (bs : Bytes) × IsUleb bs v × (length bs ≤ suc (suc k))
    longer large ([], u, l) = absurd u
    longer large (c ∷ bs, u, l) = ((v % 128 + 128) ∷ c ∷ bs, (large, refl, u), omega arith)

IsUleb-Fits : (bs : Bytes) (v : ℕ) → IsUleb bs v → v < 2 ^ 31 → Fits 0 bs
IsUleb-Fits [] v u h = absurd u
IsUleb-Fits (a ∷ []) v u h = omega arith
IsUleb-Fits (a ∷ b ∷ []) v u h = omega arith
IsUleb-Fits (a ∷ b ∷ c ∷ []) v u h = omega arith
IsUleb-Fits (a ∷ b ∷ c ∷ d ∷ []) v u h = omega arith
IsUleb-Fits (a ∷ b ∷ c ∷ d ∷ e ∷ []) v u h = omega arith
IsUleb-Fits (a ∷ b ∷ c ∷ d ∷ e ∷ f ∷ bs) v u h = absurd (omega arith)

Fits-lt : (bs : Bytes) (v : ℕ) → IsUleb bs v → Fits 0 bs → v < 2 ^ 31
Fits-lt [] v u h = absurd u
Fits-lt (a ∷ []) v u h = omega arith
Fits-lt (a ∷ b ∷ []) v u h = omega arith
Fits-lt (a ∷ b ∷ c ∷ []) v u h = omega arith
Fits-lt (a ∷ b ∷ c ∷ d ∷ []) v u h = omega arith
Fits-lt (a ∷ b ∷ c ∷ d ∷ e ∷ []) v u h = omega arith
Fits-lt (a ∷ b ∷ c ∷ d ∷ e ∷ f ∷ bs) v u h = absurd (omega arith)

-- The rounds of the writer on the last byte and on one before it.
uleb_round_last :
    (room : ℕ) (m : Bytes) (p count v : ℕ)
    → v < 128
    → p < length m
    → (m' : Bytes) × (write_uleb_loop (suc room) m p count v ≡ some (m', some (count + 1)))
      × Stored m p v m'
unfolding write_uleb_loop
uleb_round_last room m p count v small h =
    let (m', e, s) = cell_last m p v h in (m', ground (arith, bit_and-0x7f v), s)

uleb_round_more :
    (room : ℕ) (m : Bytes) (p count v : ℕ)
    → 128 ≤ v
    → p < length m
    → (m' : Bytes) × (write_uleb_loop (suc room) m p count v
        ≡ write_uleb_loop room m' (p + 1) (count + 1) (v / 128))
      × Stored m p (v % 128 + 128) m'
unfolding write_uleb_loop
uleb_round_more room m p count v large h =
    let (m₁, m', e₁, l, e', s) = cell_more m p (v % 128) h (omega arith) in
    (m', ground (arith, bit_and-0x7f v), s)

write_uleb_loop-Wrote :
    (bs : Bytes) (room : ℕ) (m : Bytes) (p count v : ℕ)
    → IsUleb bs v
    → length bs ≤ room
    → p + length bs ≤ length m
    → (m' : Bytes) × (write_uleb_loop room m p count v ≡ some (m', some (count + length bs)))
      × Wrote m p bs m'
write_uleb_loop-Wrote [] room m p count v u l h = absurd u
write_uleb_loop-Wrote (b ∷ bs) zero m p count v u l h = absurd (omega arith)
write_uleb_loop-Wrote (b ∷ []) (suc room) m p count v u l h =
    let (m', e, s) = uleb_round_last room m p count v u.0 (omega arith) in
    (m', e, Wrote-cons m m' m' p b [] (rw u.1 s) (Wrote-nil m' (p + 1)))
write_uleb_loop-Wrote (b ∷ c ∷ bs) (suc room) m p count v u l h =
    let (m₁, e₁, s) = uleb_round_more room m p count v u.0 (omega arith) in
    let (m', e, w) =
      write_uleb_loop-Wrote (c ∷ bs) room m₁ (p + 1) (count + 1) (v / 128) u.2 (omega arith)
        (omega (arith, s.size)) in
    (m', ground arith, Wrote-cons m m₁ m' p b (c ∷ bs) (rw u.1 s) w)

-- In a smaller room the writer returns -1, and has changed nothing behind the room.
write_uleb_loop-short :
    (bs : Bytes) (room : ℕ) (m : Bytes) (p count v : ℕ)
    → IsUleb bs v
    → room < length bs
    → p + room ≤ length m
    → (m' : Bytes) × (write_uleb_loop room m p count v ≡ some (m', none))
      × (length m' ≡ length m)
      × ((j : ℕ) → (j < p) ⊎ (p + room ≤ j) → load m' j ≡ load m j)
write_uleb_loop-short [] room m p count v u l h = absurd u
write_uleb_loop-short (b ∷ bs) zero m p count v u l h =
    (m, unfold write_uleb_loop in refl, refl, λ j out. refl)
write_uleb_loop-short (b ∷ []) (suc room) m p count v u l h = absurd (omega arith)
write_uleb_loop-short (b ∷ c ∷ bs) (suc room) m p count v u l h =
    let (m₁, e₁, s) = uleb_round_more room m p count v u.0 (omega arith) in
    let (m', e, len, out) =
      write_uleb_loop-short (c ∷ bs) room m₁ (p + 1) (count + 1) (v / 128) u.2 (omega arith)
        (omega (arith, s.size)) in
    (m', e₁ ∙ e, len ∙ s.size, λ j h. out j (omega arith) ∙ s.elsewhere j (omega arith))

-- What the readers return on the form of `v`: `v` below 2 ^ 31, and undefined behaviour above.
abbrev pub uleb_result : ℕ → ℕ → Option (ℕ × ℕ)
uleb_result v i = if ltb v (2 ^ 31) then some (v, i) else none

scan-IsUleb :
    (bs rest : Bytes) (v : ℕ)
    → IsUleb bs v
    → (scan (bs ++ rest) 0 0 0 >>= λ (s : Scan). some (s.ret, s.count)) ≡ uleb_result v (length bs)
scan-IsUleb bs rest v u =
    elim (scan-none bs rest 0 0 0 (IsUleb-IsTerminated bs v u) (omega arith)) [
      | inl f ↦ ground (
        arith,
        scan-value bs rest 0 0 0 (IsUleb-IsTerminated bs v u) f,
        IsUleb-value bs v u,
        Fits-lt bs v u f,
      )
      | inr e ↦
          ground
            (arith, e, IsUleb-Fits bs v u, scan-value bs rest 0 0 0 (IsUleb-IsTerminated bs v u))
    ]

-- On the form of `v` both readers return `v` and the position behind it, if `v` is below 2 ^ 31.
-- From 2 ^ 31 on a shift overflows an `int`: the result is undefined.
pub read_uleb128_form :
    (m : Bytes) (p : ℕ) (bs : Bytes) (v : ℕ)
    → IsUleb bs v
    → load_n m p (length bs) ≡ some bs
    → (read_uleb128 m p ≡ uleb_result v (p + length bs))
      × (decode_uleb128 m p ≡ uleb_result v (p + length bs))
unfolding read_uleb128 decode_uleb128
read_uleb128_form m p bs v u l =
    rw (load_n-drop m p bs l) (ground (arith, scan-IsUleb bs (drop (p + length bs) m) v u))

-- With room for the form the writer stores it, and returns its length.
pub write_uleb128-Wrote :
    (m : Bytes) (p end : ℕ) (bs : Bytes) (v : ℕ)
    → IsUleb bs v
    → p + length bs ≤ end
    → end ≤ length m
    → (m' : Bytes) × (write_uleb128 m p end v ≡ some (m', some (length bs))) × Wrote m p bs m'
unfolding write_uleb128
write_uleb128-Wrote m p end bs v u room h =
    let (m', e, w) = write_uleb_loop-Wrote bs (end - p) m p 0 v u (omega arith) (omega arith) in
    (m', ground arith, w)

-- Where the shortest form of the value does not fit in the room, `_dwarf_write_uleb128` returns -1,
-- and the size of the buffer and every byte outside of the room are as before.
pub write_uleb128_short :
    (m : Bytes) (p end : ℕ) (bs : Bytes) (v : ℕ)
    → IsUleb bs v
    → p ≤ end
    → end < p + length bs
    → end ≤ length m
    → (m' : Bytes) × (write_uleb128 m p end v ≡ some (m', none))
      × (length m' ≡ length m)
      × ((j : ℕ) → (j < p) ⊎ (end ≤ j) → load m' j ≡ load m j)
unfolding write_uleb128
write_uleb128_short m p end bs v u le short h =
    let (m', e, len, out) =
      write_uleb_loop-short bs (end - p) m p 0 v u (omega arith) (omega arith) in
    (m', e, len, λ j o. out j (omega arith))

-- Every uint64_t is written by `_dwarf_write_uleb128` into ten bytes at most, where ten bytes fit
-- between `p` and the end of the room, inside the buffer. On what was written `_dwarf_read_uleb128`
-- and `_dwarf_decode_uleb128` return the value and the position behind it if the value is below 2 ^
-- 31, and run into undefined behaviour if it is not, since a group is shifted out of an `int`.
pub read_uleb128-write_uleb128 :
    (m : Bytes) (p end v : ℕ)
    → v < 2 ^ 64
    → p + 10 ≤ end
    → end ≤ length m
    → (m' : Bytes) × (n : ℕ) × (write_uleb128 m p end v ≡ some (m', some n))
      × (n ≤ 10)
      × (read_uleb128 m' p ≡ uleb_result v (p + n))
      × (decode_uleb128 m' p ≡ uleb_result v (p + n))
read_uleb128-write_uleb128 m p end v h room inside =
    let (bs, u, short) = IsUleb-total 9 v (omega arith) in
    let (m', e, w) = write_uleb128-Wrote m p end bs v u (omega arith) inside in
    let (r, d) = read_uleb128_form m' p bs v u w.back in (m', length bs, e, short, r, d)
