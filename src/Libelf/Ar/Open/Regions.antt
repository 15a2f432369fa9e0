-- ===== src/Libelf/Ar/Open/Regions.antt =====
-- Where the special members lie, and where the first ordinary member is looked for.
use elftoolchain.Base.{
  ℕ, ◌+◌, ◌*◌, ◌/◌, ◌%◌, ◌^◌, ◌-◌, ◌≤◌, ◌<◌, ◌≡◌, ◌⊎◌, inl, inr, true, false, some, Bytes,
  if◌then◌else◌, length, arith, Option-cases, Bool-cases,
}
use elftoolchain.Base.Bits.{bit_and_step, bit_and_mask}
use elftoolchain.Libelf.Ar.Outcome.{is_at}
use elftoolchain.Libelf.Ar.Open.{
  Archive, adjust_size, read_header, start, open_svr4, with_symtab, with_strtab, scan_ahead,
  ar_open, is_bsd_symtab,
}

-- Below 2 ^ 32 - 1 the size is rounded up to an even number; above, the upper bits are lost.
pub adjust_size_lem : (sz : ℕ) → adjust_size sz ≡ (sz + 1) % 2 ^ 32 / 2 * 2
unfolding adjust_size
adjust_size_lem sz =
    omega (arith, bit_and_step (sz + 1) 0xffff_fffe, bit_and_mask 31 ((sz + 1) / 2))

read_header-some : (f : Bytes) (s sz : ℕ) → read_header f s ≡ some sz → s + 60 ≤ length f
unfolding read_header
read_header-some f s sz h = ground arith

scan_ahead-next :
    (a b : Archive)
    → scan_ahead a ≡ some b
    → a.next % 2 ≡ 0
    → 8 ≤ a.next
    → (b.rawfile ≡ a.rawfile)
      × (b.next % 2 ≡ 0)
      × (8 ≤ b.next)
      × (b.nchildren ≡ a.nchildren)
      × (b.rawsymtab ≡ a.rawsymtab)
      × (b.rawsymtabsz ≡ a.rawsymtabsz)
      × (a.next + 60 ≤ length a.rawfile)
unfolding scan_ahead with_strtab
scan_ahead-next a b h even behind = elim (Option-cases (read_header a.rawfile a.next)) [
  | inl e ↦ ground arith
  | inr (sz, e) ↦ ground (arith, adjust_size_lem sz, read_header-some a.rawfile a.next sz e)
]

-- The ways to open an archive.
abbrev Opening : Bytes → ℕ → Archive → Type 0
Opening f sz a =
    (scan_ahead (with_symtab (start true f) 8 sz) ≡ some a)
    ⊎ (a ≡ with_strtab (start true f) 8 sz)
    ⊎ (a ≡ start true f)
    ⊎ (a ≡ with_symtab (start false f) 8 sz)
    ⊎ (a ≡ start false f)

open_svr4-cases : (f : Bytes) (sz : ℕ) {a : Archive} → open_svr4 f sz ≡ some a → Opening f sz a
unfolding open_svr4
open_svr4-cases f sz h = ground arith

ar_open-cases :
    (f : Bytes) {a : Archive}
    → ar_open f ≡ some a
    → (sz : ℕ) × (read_header f 8 ≡ some sz) × Opening f sz a
unfolding ar_open
ar_open-cases f {a} h = elim (Option-cases (read_header f 8)) [
  | inl e ↦ cc (rw e at h)
  | inr (sz, e) ↦ (sz, e, by_name sz (Bool-cases (is_at f 8 b'/')) (rw e at h))
]
  where
    by_name :
        (sz : ℕ)
        → (is_at f 8 b'/' ≡ true) ⊎ (is_at f 8 b'/' ≡ false)
        → (if is_at f 8 b'/'
            then open_svr4 f sz
            else if is_bsd_symtab f 8
            then some (with_symtab (start false f) 8 sz)
            else some (start false f))
          ≡ some a
        → Opening f sz a
    by_name sz (inl e) h' = open_svr4-cases f sz (rw e at h')
    by_name sz (inr e) h' = let h'' = rw e at h' in ground arith

-- An opened archive: the file is the one that was opened, it has room for a header, and the offset
-- of the next member is even and behind the magic string.
pub record IsOpened (f : Bytes) (a : Archive) : Type 0 where
  pub same : a.rawfile ≡ f
  pub even : a.next % 2 ≡ 0
  pub behind : 8 ≤ a.next
  pub no_children : a.nchildren ≡ 0
  pub header : 68 ≤ length f

-- An archive that `_libelf_ar_open` accepts has room for a header behind the magic string; its
-- `e_next` is even and behind the magic string, it has no children yet, and its bytes are the file.
pub ar_open-IsOpened : (f : Bytes) {a : Archive} → ar_open f ≡ some a → IsOpened f a
unfolding with_symtab with_strtab start
ar_open-IsOpened f {a} h =
    let (sz, e, w) = ar_open-cases f h in
    ground (
      arith,
      adjust_size_lem sz,
      read_header-some f 8 sz e,
      scan_ahead-next (with_symtab (start true f) 8 sz) a,
    )

-- In an archive of the SVR4 format that `_libelf_ar_open` accepts, a symbol table of less than 2 ^
-- 32 - 1 bytes lies in the file.
pub ar_open-symtab_inside :
    (f : Bytes) {a : Archive}
    → ar_open f ≡ some a
    → a.svr4 ≡ true
    → a.rawsymtabsz < 2 ^ 32 - 1
    → a.rawsymtab + a.rawsymtabsz ≤ length f
unfolding with_symtab with_strtab start
ar_open-symtab_inside f {a} h v small =
    let (sz, e, w) = ar_open-cases f h in
    ground (
      arith,
      adjust_size_lem sz,
      read_header-some f 8 sz e,
      scan_ahead-next (with_symtab (start true f) 8 sz) a,
    )
