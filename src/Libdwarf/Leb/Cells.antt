-- ===== src/Libdwarf/Leb/Cells.antt =====
-- One byte written by the writers of LEB128, and the buffer that a sequence of them leaves.
use elftoolchain.Base.{
  ℕ, ◌+◌, ◌≤◌, ◌<◌, ◌≡◌, ◌≢◌, refl, ◌∙◌, some, [], ◌∷◌, ◌⊎◌, inl, Bytes, length, arith, ◌>>=◌,
}
use elftoolchain.Base.Bits.{bit_or-0x80}
use elftoolchain.Base.Mem.{
  load, store, load_n, length-store, load-store_self, load-store_ne, store-total,
}
use elftoolchain.Libdwarf.Leb.{mark_more}

-- `m'` is `m` with the byte `b` at `p`.
pub record Stored (m : Bytes) (p b : ℕ) (m' : Bytes) : Type 0 where
  pub here : load m' p ≡ some b
  pub size : length m' ≡ length m
  pub elsewhere : (j : ℕ) → p ≢ j → load m' j ≡ load m j

-- `m'` is `m` with the bytes `bs` from `p` on.
pub record Wrote (m : Bytes) (p : ℕ) (bs : Bytes) (m' : Bytes) : Type 0 where
  pub back : load_n m' p (length bs) ≡ some bs
  pub size : length m' ≡ length m
  pub elsewhere : (j : ℕ) → (j < p) ⊎ (p + length bs ≤ j) → load m' j ≡ load m j

pub Wrote-nil : (m : Bytes) (p : ℕ) → Wrote m p [] m
unfolding load_n
Wrote-nil m p = record { back = refl; size = refl; elsewhere = λ j h. refl }

pub Wrote-cons :
    (m m₁ m' : Bytes) (p b : ℕ) (bs : Bytes)
    → Stored m p b m₁
    → Wrote m₁ (p + 1) bs m'
    → Wrote m p (b ∷ bs) m'
unfolding load_n
Wrote-cons m m₁ m' p b bs s w = record {
  back = rw (w.elsewhere p (inl (omega arith)), s.here, w.back);
  size = w.size ∙ s.size;
  elsewhere = λ j h. w.elsewhere j (omega arith) ∙ s.elsewhere j (omega arith);
}

-- `*p = b` inside the buffer.
pub cell_last :
    (m : Bytes) (p b : ℕ) → p < length m → (m' : Bytes) × (store m p b ≡ some m') × Stored m p b m'
cell_last m p b h =
    let (m', e) = store-total m p b h in
    (
      m',
      e,
      record {
        here = load-store_self m p b e;
        size = length-store m p b e;
        elsewhere = λ j ne. load-store_ne m p j b e ne;
      },
    )

-- `*p = b; *p |= 0x80` inside the buffer.
pub cell_more :
    (m : Bytes) (p b : ℕ)
    → p < length m
    → b < 128
    → (m₁ : Bytes) × (m' : Bytes) × (store m p b ≡ some m₁)
      × (load m₁ p ≡ some b)
      × (mark_more m₁ p ≡ some m')
      × Stored m p (b + 128) m'
unfolding mark_more
cell_more m p b h low =
    let (m₁, e₁, s₁) = cell_last m p b h in
    let (m', e', s') = cell_last m₁ p (b + 128) (omega (arith, s₁.size)) in
    (
      m₁,
      m',
      e₁,
      s₁.here,
      rw (s₁.here, ◌>>=◌, bit_or-0x80 b low) e',
      record {
        here = s'.here;
        size = s'.size ∙ s₁.size;
        elsewhere = λ j ne. s'.elsewhere j ne ∙ s₁.elsewhere j ne;
      },
    )
