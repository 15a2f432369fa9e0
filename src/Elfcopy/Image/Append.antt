-- ===== src/Elfcopy/Image/Append.antt =====
-- append_data: the loop ends, and the data stands behind what the section had.
use elftoolchain.Base.{
  when_true, when_false, ℕ, zero, suc, ◌+◌, ◌*◌, ◌%◌, ◌^◌, ◌≤◌, ◌<◌, ◌≡◌, refl, ap, ◌∙◌, ◌⊎◌, inl,
  inr, true, false, none, some, [], ◌++◌, Bytes, ltb, length, arith, length-append,
}
use native.Mathlib.Decide.{dec_lt}
use native.Mathlib.Nat.{mod-eq_of_lt, pow-suc}
use elftoolchain.Elfcopy.Record.{ok}
use elftoolchain.Elfcopy.Image.{
  Section, double_cap, init_cap, initial_buf, initial_cap, append_data,
}

twice : (c p : ℕ) → c * (p * 2) ≡ c * 2 * p
twice c p = grind arith

-- Where `n` doublings bring the capacity to the size, and the size is at most 2 ^ 63, `n + 1`
-- rounds of the loop in `append_data` are enough: the capacity has room for the size, is not less
-- than before, and is unchanged or less than twice the size.
pub double_cap_lem :
    (n sz c : ℕ)
    → sz ≤ c * 2 ^ n
    → sz ≤ 2 ^ 63
    → (c' : ℕ) × (double_cap (suc n) sz c ≡ ok c')
      × (sz ≤ c')
      × (c ≤ c')
      × ((c' ≡ c) ⊎ (c' < 2 * sz))
unfolding double_cap
double_cap_lem zero sz c enough small =
    let e : ltb c sz ≡ false = ground arith in
    (c, when_false _ _ e, omega arith, omega arith, inl refl)
double_cap_lem (suc n) sz c enough small = elim (dec_lt c sz) [
  | yes h ↦
      let e : ltb c sz ≡ true = ground arith in
      let w : c * 2 % 2 ^ 64 ≡ c * 2 = mod-eq_of_lt (omega arith) in
      let (c', p, a, b, c) =
        double_cap_lem n sz (c * 2)
          (omega (arith, pow-suc 2 n, ap (λ (x : ℕ). c * x) (pow-suc 2 n), twice c (2 ^ n), enough))
          small in
      (
        c',
        when_true _ _ e ∙ ap (λ (x : ℕ). double_cap (suc n) sz x) w ∙ p,
        a,
        omega arith,
        inr (ground arith),
      )
  | no h ↦
      let e : ltb c sz ≡ false = ground arith in
      (c, when_false _ _ e, omega arith, omega arith, inl refl)
]

-- A section as the loops leave one: the capacity is the least at the first, and at most 2^63.
abbrev pub IsSection : Section → Type 0
IsSection s =
    (b : Bytes) × (s.buf ≡ some b) × (init_cap ≤ s.cap) × (s.cap ≤ 2 ^ 63) × (length b ≤ s.cap)

append :
    (s : Section) (old bytes : Bytes)
    → initial_buf s ≡ old
    → init_cap ≤ initial_cap s
    → initial_cap s ≤ 2 ^ 63
    → length old + length bytes ≤ 2 ^ 62
    → (s' : Section) × (append_data s bytes ≡ ok s')
      × IsSection s'
      × (s'.buf ≡ some (old ++ bytes))
      × (s'.vma ≡ s.vma)
      × (s'.off ≡ s.off)
      × (s'.index ≡ s.index)
unfolding append_data
append s old bytes e low high small =
    let sz = length bytes + length old in
    let (c, p, fits, grown, bound) =
      double_cap_lem 63 sz (initial_cap s) (omega arith) (omega arith) in
    (
      record s { buf = some (old ++ bytes); cap = c },
      rw (e, p) refl,
      (old ++ bytes, refl, omega arith, ground arith, omega (arith, length-append old bytes)),
      refl,
      refl,
      refl,
      refl,
    )

-- The first data of a section.
pub append_data_first :
    (index off addr : ℕ) (bytes : Bytes)
    → length bytes ≤ 2 ^ 62
    → (s : Section) × (append_data
          (record { index = index; off = off; vma = addr; buf = none; cap = 0 })
          bytes
        ≡ ok s)
      × IsSection s
      × (s.buf ≡ some bytes)
      × (s.vma ≡ addr)
      × (s.off ≡ off)
      × (s.index ≡ index)
unfolding initial_buf initial_cap
append_data_first index off addr bytes small =
    append (record { index = index; off = off; vma = addr; buf = none; cap = 0 }) [] bytes refl
      (omega arith) (omega arith) (omega arith)

pub append_data_lem :
    (s : Section) (old bytes : Bytes)
    → IsSection s
    → s.buf ≡ some old
    → length old + length bytes ≤ 2 ^ 62
    → (s' : Section) × (append_data s bytes ≡ ok s')
      × IsSection s'
      × (s'.buf ≡ some (old ++ bytes))
      × (s'.vma ≡ s.vma)
      × (s'.off ≡ s.off)
      × (s'.index ≡ s.index)
unfolding initial_buf initial_cap
append_data_lem s old bytes (b, e, low, high, _) buf small =
    append s old bytes (ground (arith, buf)) (ground (arith, buf)) (ground (arith, buf)) small
