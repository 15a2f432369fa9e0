-- ===== src/Libelf/Extents.antt =====
-- The extents of an ELF object, in the order of their offsets: struct _Elf_Extent,
-- _libelf_extent_is_unused and _libelf_insert_extent of libelf/elf_update.c. Offsets and sizes are
-- of 64 bits, and the sums of them wrap around. A list of extents is a list of their contents; the
-- pointer `prevt` into it is the number of extents up to the one it points at, 0 for NULL.
pub mod Insert
mod Tests
use elftoolchain.Base.{
  ℕ, zero, suc, ◌+◌, ◌^◌, ◌%◌, Option, none, some, List, [], ◌∷◌, Bool, true, false, leb,
  if◌then◌else◌,
}

pub data ExtentType : Type 0 where
  ehdr : ExtentType
  phdr : ExtentType
  section : ExtentType
  shdr : ExtentType

-- `ex_desc` is a pointer.
pub record Extent : Type 0 where
  pub ex_start : ℕ
  pub ex_size : ℕ
  pub ex_type : ExtentType
  pub ex_desc : ℕ

-- The extent overlaps, or it is unused and follows `prevt`, or the assertion failed.
pub data Check : Type 0 where
  used : Check
  unused : ℕ → Check
  aborted : Check

-- `start + size`, `tmin + t->ex_size`
abbrev pub end_of : ℕ → ℕ → ℕ
end_of start size = (start + size) % 2 ^ 64

-- `pt == NULL || pt->ex_start + pt->ex_size <= start`
abbrev pub is_after : Option Extent → ℕ → Bool
is_after none start = true
is_after (some pt) start = leb (end_of pt.ex_start pt.ex_size) start

-- The loop over the extents that are left, behind the `k` extents of which `pt` is the last.
unfoldable pub check_from : List Extent → ℕ → ℕ → Option Extent → ℕ → Check
check_from [] start smax pt k = unused k
check_from (t ∷ l) start smax pt k =
    let rest = check_from l start smax (some t) (k + 1) in
    if leb (end_of t.ex_start t.ex_size) start
    then rest
    else (if leb smax t.ex_start then (if is_after pt start then unused k else aborted) else used)

unfoldable pub extent_is_unused : List Extent → ℕ → ℕ → Check
extent_is_unused extents start size = check_from extents start (end_of start size) none 0

-- SLIST_INSERT_AFTER, and SLIST_INSERT_HEAD where `prevt` is NULL.
unfoldable pub insert_at : ℕ → Extent → List Extent → List Extent
insert_at zero ex l = ex ∷ l
insert_at (suc k) ex [] = ex ∷ []
insert_at (suc k) ex (t ∷ l) = t ∷ insert_at k ex l

-- The list that is left, or the error that is set; the last is a failed assertion.
pub data Inserted : Type 0 where
  inserted : List Extent → Inserted
  layout : Inserted
  resource : Inserted
  assertion : Inserted

unfoldable pub insert_checked : Bool → List Extent → Extent → Check → Inserted
insert_checked granted extents ex used = layout
insert_checked granted extents ex aborted = assertion
insert_checked true extents ex (unused k) = inserted (insert_at k ex extents)
insert_checked false extents ex (unused k) = resource

-- `granted` tells whether malloc() gives memory.
unfoldable pub insert_extent : Bool → List Extent → ExtentType → ℕ → ℕ → ℕ → Inserted
insert_extent granted extents ty start size desc =
    insert_checked granted extents
      (record { ex_start = start; ex_size = size; ex_type = ty; ex_desc = desc })
      (extent_is_unused extents start size)
