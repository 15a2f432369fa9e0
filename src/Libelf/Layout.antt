-- ===== src/Libelf/Layout.antt =====
-- The extents of a section: _libelf_compute_section_extents of libelf/elf_update.c, with
-- _libelf_xlate_shtype of libelf/libelf_data.c and _libelf_falign of libelf/libelf_align.c, where
-- the object is created afresh: the command of the descriptor is ELF_C_WRITE. Types are the numbers
-- of libelf/libelf.h. The sizes of a type in memory and in a file stand in tables that the build
-- generates, and are parameters, 0 where there is no such type.
pub mod Rounding
pub mod Placed
mod Tests
use elftoolchain.Base.{
  ℕ, zero, suc, ◌+◌, ◌-◌, ◌*◌, ◌/◌, ◌%◌, ◌^◌, Option, none, some, List, [], ◌∷◌, Bool, true, false,
  ◌&&◌, ◌||◌, not, ltb, leb, ◌==◌, if◌then◌else◌, bit_and,
}

pub data Class : Type 0 where
  class32 : Class
  class64 : Class

-- An Elf_Data; its buffer does not matter.
pub record Data : Type 0 where
  pub d_type : ℕ
  pub d_version : ℕ
  pub d_align : ℕ
  pub d_size : ℕ
  pub d_off : ℕ

pub record Shdr : Type 0 where
  pub sh_type : ℕ
  pub sh_addralign : ℕ
  pub sh_entsize : ℕ
  pub sh_offset : ℕ
  pub sh_size : ℕ

-- `is_dirty` is the flag ELF_F_DIRTY.
pub record Scn : Type 0 where
  pub s_shdr : Shdr
  pub s_data : List Data
  pub is_dirty : Bool
  pub s_size : ℕ
  pub s_offset : ℕ

-- `is_layout` is the flag ELF_F_LAYOUT.
pub record Elf : Type 0 where
  pub e_class : Class
  pub e_version : ℕ
  pub is_layout : Bool

-- The error that is set. The offsets of the descriptors before the one that fails, which have moved
-- by then, are not kept.
pub data Error : Type 0 where
  section : Error
  data_error : Error
  version : Error
  unimpl : Error
  layout : Error

pub data Result (A : Type 0) : Type 0 where
  ok : A → Result A
  fail : Error → Result A

-- `roundup (x, y)` on uint64_t, for a `y` that is not 0.
unfoldable pub roundup : ℕ → ℕ → ℕ
roundup x y = (x + (y - 1)) % 2 ^ 64 / y * y

-- The types of the known types of sections.
abbrev pub known_types : List (ℕ × ℕ)
known_types =
    (6, 3)
    ∷ (11, 18)
    ∷ (15, 0)
    ∷ (0x6FFFFFF6, 23)
    ∷ (0x6FFFFFF7, 21)
    ∷ (17, 21)
    ∷ (5, 21)
    ∷ (14, 0)
    ∷ (8, 1)
    ∷ (7, 9)
    ∷ (16, 0)
    ∷ (1, 1)
    ∷ (9, 12)
    ∷ (4, 13)
    ∷ (3, 1)
    ∷ (2, 18)
    ∷ (18, 21)
    ∷ (0x6FFFFFF4, 1)
    ∷ (0x6FFFFFFA, 7)
    ∷ (0x6FFFFFFC, 17)
    ∷ (0x6FFFFFFD, 19)
    ∷ (0x6FFFFFFE, 20)
    ∷ (0x6FFFFFFF, 5)
    ∷ []

-- The switch, with its default; -1 is `none`.
unfoldable pub switch : List (ℕ × ℕ) → ℕ → Option ℕ
switch [] sht = if leb 0x60000000 sht then some 1 else none
switch (c ∷ l) sht = if sht == c.0 then some c.1 else switch l sht

unfoldable pub xlate_shtype : ℕ → Option ℕ
xlate_shtype sht = switch known_types sht

-- The table `falign`: the alignments of each type in files of 32 and of 64 bits.
abbrev pub falign_table : List (ℕ × ℕ)
falign_table =
    (4, 8)
    ∷ (1, 1)
    ∷ (4, 8)
    ∷ (4, 8)
    ∷ (4, 8)
    ∷ (2, 2)
    ∷ (8, 8)
    ∷ (8, 8)
    ∷ (0, 0)
    ∷ (4, 4)
    ∷ (4, 8)
    ∷ (4, 8)
    ∷ (4, 8)
    ∷ (4, 8)
    ∷ (4, 8)
    ∷ (4, 4)
    ∷ (0, 8)
    ∷ (2, 2)
    ∷ (4, 8)
    ∷ (4, 4)
    ∷ (4, 4)
    ∷ (4, 4)
    ∷ (0, 8)
    ∷ (4, 8)
    ∷ []

unfoldable pub align_at : List (ℕ × ℕ) → ℕ → Class → ℕ
align_at [] t c = 0
align_at (a ∷ l) zero class32 = a.0
align_at (a ∷ l) zero class64 = a.1
align_at (a ∷ l) (suc t) c = align_at l t c

unfoldable pub falign : ℕ → Class → ℕ
falign t c = align_at falign_table t c

-- `(uint32_t) x` in a header of 32 bits
unfoldable pub field : Class → ℕ → ℕ
field class32 x = x % 2 ^ 32
field class64 x = x

-- `updatedescriptor`
unfoldable pub update_descriptor : Scn → List Data → ℕ → ℕ → Scn
update_descriptor s l size offset = record {
  s_shdr = s.s_shdr;
  s_data = l;
  is_dirty = s.is_dirty;
  s_size = size;
  s_offset = offset;
}

-- `computeoffset`, for the alignment, the entry size and the size given
unfoldable pub compute_offset : Class → Scn → List Data → ℕ → ℕ → ℕ → ℕ → Scn
compute_offset c s l align entsize size rc =
    let offset = roundup rc align in
    let shdr : Shdr = record {
      sh_type = s.s_shdr.sh_type;
      sh_addralign = field c align;
      sh_entsize = field c entsize;
      sh_offset = field c offset;
      sh_size = field c size;
    } in
    let s' : Scn = record {
      s_shdr = shdr;
      s_data = l;
      is_dirty = s.is_dirty;
      s_size = s.s_size;
      s_offset = s.s_offset;
    } in
    update_descriptor s' l size offset

-- The size and the alignment of the descriptors, with the descriptors.
pub record Placement : Type 0 where
  pub size : ℕ
  pub alignment : ℕ
  pub descriptors : List Data

module _ (msize fsize : ℕ → Class → ℕ) (e : Elf) where
  -- The error that a descriptor makes.
  unfoldable pub check_data : Data → Option Error
  check_data d =
      if leb 24 d.d_type
      then some data_error
      else (if not (d.d_version == e.e_version)
          then some version
          else (if d.d_align == 0 || not (bit_and d.d_align (d.d_align - 1) == 0)
              then some data_error
              else (if msize d.d_type e.e_class == 0
                  then some unimpl
                  else (if not (d.d_size % msize d.d_type e.e_class == 0)
                      then some data_error
                      else (if e.is_layout && not (bit_and d.d_off (d.d_align - 1) == 0)
                          then some layout
                          else none)))))

  -- `_libelf_fsize (d->d_type, ec, d->d_version, d->d_size / msz)`
  unfoldable pub file_size : Data → ℕ
  file_size d = fsize d.d_type e.e_class * (d.d_size / msize d.d_type e.e_class) % 2 ^ 64

  -- The descriptor and the size, behind the descriptors that have taken `size` bytes.
  unfoldable pub place : Bool → Data → ℕ → Data × ℕ
  place true d size =
      let end = (d.d_off + d.d_size) % 2 ^ 64 in (d, if ltb size end then end else size)
  place false d size =
      let off = roundup size d.d_align in
      let d' : Data = record {
        d_type = d.d_type;
        d_version = d.d_version;
        d_align = d.d_align;
        d_size = d.d_size;
        d_off = off;
      } in
      (d', (off + file_size d) % 2 ^ 64)

  unfoldable pub put : Option Error → Data → Result Placement → Result Placement
  put (some x) d r = fail x
  put none d (fail x) = fail x
  put none d (ok p) =
      ok (record { size = p.size; alignment = p.alignment; descriptors = d ∷ p.descriptors })

  -- The loop over the descriptors that are left.
  unfoldable pub place_all : List Data → ℕ → ℕ → Result Placement
  place_all [] size alignment = ok (record { size = size; alignment = alignment; descriptors = [] })
  place_all (d ∷ l) size alignment =
      let (d', size') = place e.is_layout d size in
      put (check_data d) d'
        (place_all l size' (if ltb alignment d.d_align then d.d_align else alignment))

  -- The checks of the layout that the application asks for.
  unfoldable pub is_misplaced : Scn → ℕ → ℕ → Placement → Bool
  is_misplaced s ty align p =
      ltb align p.alignment
      || not (s.s_shdr.sh_offset % align == 0)
      || ltb s.s_shdr.sh_size p.size
      || not (s.s_shdr.sh_offset % falign ty e.e_class == 0)

  unfoldable pub entry_size : ℕ → ℕ → ℕ
  entry_size ty entsize =
      if entsize == 0 then (if fsize ty e.e_class == 1 then 0 else fsize ty e.e_class) else entsize

  -- Behind the loop.
  unfoldable pub finish : Bool → Scn → ℕ → ℕ → ℕ → Result Placement → Result Scn
  finish b s ty align rc (fail x) = fail x
  finish true s ty align rc (ok p) =
      if is_misplaced s ty align p
      then fail layout
      else ok (update_descriptor s p.descriptors s.s_shdr.sh_size s.s_shdr.sh_offset)
  finish false s ty align rc (ok p) = ok (
      compute_offset e.e_class s p.descriptors
        (if ltb align p.alignment then p.alignment else align) (entry_size ty s.s_shdr.sh_entsize)
        p.size rc)

  -- A section without descriptors that is not dirty keeps its size.
  unfoldable pub keep_size : Bool → Scn → ℕ → ℕ → Scn
  keep_size true s align rc = update_descriptor s [] s.s_shdr.sh_size s.s_shdr.sh_offset
  keep_size false s align rc =
      compute_offset e.e_class s [] align s.s_shdr.sh_entsize s.s_shdr.sh_size rc

  unfoldable pub extents_of : Scn → ℕ → ℕ → ℕ → List Data → Result Scn
  extents_of s ty align rc [] =
      if s.is_dirty
      then finish e.is_layout s ty align rc (place_all [] 0 0)
      else ok (keep_size e.is_layout s align rc)
  extents_of s ty align rc (d ∷ l) = finish e.is_layout s ty align rc (place_all (d ∷ l) 0 0)

  unfoldable pub aligned_extents : Scn → ℕ → Option ℕ → Result Scn
  aligned_extents s rc none = fail section
  aligned_extents s rc (some ty) =
      let align = s.s_shdr.sh_addralign in
      extents_of s ty (if align == 0 then falign ty e.e_class else align) rc s.s_data

  unfoldable pub compute_section_extents : Scn → ℕ → Result Scn
  compute_section_extents s rc = aligned_extents s rc (xlate_shtype s.s_shdr.sh_type)
