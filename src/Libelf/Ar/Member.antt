-- ===== src/Libelf/Ar/Member.antt =====
-- The members of an archive: _libelf_ar_gethdr and _libelf_ar_open_member of libelf/libelf_ar.c,
-- elf_next of libelf/elf_next.c and elf_rand of libelf/elf_rand.c.
pub mod Walk
pub mod Loop
pub mod Reach
pub mod Header
mod Tests
use elftoolchain.Base.{
  ℕ, ◌+◌, ◌-◌, ◌%◌, ◌/◌, ◌*◌, ◌^◌, Bool, true, false, ◌&&◌, ◌||◌, not, Option, none, some, Bytes,
  ltb, leb, ◌==◌, if◌then◌else◌, length, drop,
}
use elftoolchain.Libelf.Ar.Outcome.{
  Outcome, ok, err, undefined, archive, argument, resource, ◌>>=◌, or_archive, is_at, ar_name,
  ar_date, ar_uid, ar_gid, ar_mode, ar_size, ar_fmag, hdr_size, sarmag,
}
use elftoolchain.Libelf.Ar.Number.{get_number}
use elftoolchain.Libelf.Ar.Names.{get_translated_name, get_raw_name, is_bsd_name}
use elftoolchain.Libelf.Ar.Open.{Archive}
use elftoolchain.Libelf.Ar.Memory.{Image, elf_memory}

-- Elf_Arhdr
pub record Arhdr : Type 0 where
  pub name : Bytes
  pub rawname : Bytes
  pub uid : ℕ
  pub gid : ℕ
  pub mode : ℕ
  pub date : ℕ
  pub size : ℕ

-- The length of a name behind the header, which counts in the size of the member; 0 if there is none.
pub bsd_name_size : Bytes → ℕ → Outcome ℕ
bsd_name_size f h =
    if is_bsd_name (ar_name f h) then or_archive (get_number (drop 3 (ar_name f h)) 10) else ok 0

-- `n -= nlen` on a size_t
abbrev pub sub_size : ℕ → ℕ → ℕ
sub_size n k = (n + 2 ^ 64 - k) % 2 ^ 64

-- Every failure behind the first test ends at `error`, which sets ARCHIVE.
abbrev pub as_archive {ℓ} : {A : Type ℓ} → Outcome A → Outcome A
as_archive (ok a) = ok a
as_archive (err e) = err archive
as_archive undefined = undefined

-- sizeof(Elf_Arhdr)
abbrev arhdr_size : ℕ
arhdr_size = 48

module _ (alloc : ℕ → Bool) where
  pub read_arhdr : Archive → ℕ → Outcome Arhdr
  read_arhdr a h = do
    let f = a.rawfile
    name ← get_translated_name alloc f a.rawstrtab a.rawstrtabsz h
    uid ← or_archive (get_number (ar_uid f h) 10)
    gid ← or_archive (get_number (ar_gid f h) 10)
    mode ← or_archive (get_number (ar_mode f h) 8)
    date ← or_archive (get_number (ar_date f h) 10)
    n ← or_archive (get_number (ar_size f h) 10)
    nlen ← bsd_name_size f h
    rawname ← get_raw_name alloc f h
    ok (record {
      name = name;
      rawname = rawname;
      uid = uid % 2 ^ 32;
      gid = gid % 2 ^ 32;
      mode = mode % 2 ^ 32;
      date = date;
      size = sub_size n nlen;
    })

  -- `h` is e_hdr.e_rawhdr.
  pub gethdr : Archive → ℕ → Outcome Arhdr
  gethdr a h =
      if ltb (length a.rawfile) (h + hdr_size)
      then err archive
      else if alloc arhdr_size
      then as_archive (read_arhdr a h)
      else err resource

-- A member that was opened: what it is, its bytes as an offset and a size, and the offset of its header.
pub record Member : Type 0 where
  pub image : Image
  pub rawfile : ℕ
  pub rawsize : ℕ
  pub rawhdr : ℕ

pub make_member : Archive → ℕ → ℕ → Image → Option Member × Archive
make_member a at sz image = (
  some (record { image = image; rawfile = at; rawsize = sz; rawhdr = a.next }),
  record a { nchildren = a.nchildren + 1 },
)

-- The member at e_next, of which the size field holds `sz`: the name is taken off.
pub open_sized : Archive → ℕ → Outcome (Option Member × Archive)
open_sized a sz = do
  let f = a.rawfile
  let data_at = a.next + hdr_size
  nsz ← bsd_name_size f a.next
  image ← elf_memory (drop (data_at + nsz) f) (sub_size sz nsz)
  ok (make_member a (data_at + nsz) (sub_size sz nsz) image)

-- `none` in place of a member: the end of the archive, NULL without an error.
pub open_member : Archive → Outcome (Option Member × Archive)
open_member a =
    if a.next == 0
    then ok (none, a)
    else if ltb (length a.rawfile) (a.next + hdr_size)
    then err archive
    else (or_archive (get_number (ar_size a.rawfile a.next) 10) >>= λ sz.
        if ltb (length a.rawfile) (a.next + hdr_size + sz) then err archive else open_sized a sz)

-- `next = (next + 1) & ~1` on an off_t, of which a wrapped size wraps back.
pub next_offset : Member → ℕ
next_offset e = ((e.rawfile + e.rawsize) % 2 ^ 64 + 1) / 2 * 2

-- true is ELF_C_READ; false is ELF_C_NULL with ELF_E_ARGUMENT. e_next is set on both.
pub elf_next : Member → Archive → Bool × Archive
elf_next e a =
    let size = length a.rawfile in
    (
      not (ltb size (next_offset e)),
      record a { next = if leb size (next_offset e) then 0 else next_offset e },
    )

pub elf_rand : Archive → ℕ → Outcome ℕ × Archive
elf_rand a offset =
    let size = length a.rawfile in
    if not (offset % 2 == 0) || ltb offset sarmag || leb size offset
    then (err argument, a)
    else if leb size (offset + hdr_size)
    then (err argument, a)
    else if not (is_at a.rawfile (ar_fmag offset) b'`')
        || not (is_at a.rawfile (ar_fmag offset + 1) b'\n')
    then (err archive, a)
    else (ok offset, record a { next = offset })
