-- ===== src/Libelf/Ar/Member/Tests.antt =====
-- A walk over an archive, and the theorems at concrete archives.
use elftoolchain.Base.{
  ℕ, ◌+◌, ◌-◌, ◌*◌, ◌%◌, ◌^◌, ◌≤◌, ◌<◌, ◌≡◌, ◌⊎◌, refl, true, false, some, List, [], ◌∷◌, arith,
  length, Bool, replicate,
}
use elftoolchain.Libelf.Ar.Outcome.{ok}
use elftoolchain.Libelf.Ar.Number.{get_number}
use elftoolchain.Libelf.Ar.Names.{
  is_bsd_name, get_translated_name, translate, short_name, get_raw_name, copy_string, strip_blanks,
  strip_slash, is_svr4_name, digit_at, new_string,
}
use elftoolchain.Libelf.Ar.Samples.{two_members, bsd_member}
use elftoolchain.Libelf.Ar.Open.{
  Archive, start, ar_open, read_header, is_symtab, is_strtab, is_bsd_symtab, open_svr4,
}
use elftoolchain.Libelf.Ar.Memory.{unknown, elf_memory, libelf_memory, is_elf, is_ar}
use elftoolchain.Libelf.Ar.Member.{
  Arhdr, read_arhdr, gethdr, Member, open_member, open_sized, make_member, bsd_name_size,
  next_offset, elf_next, elf_rand,
}
use elftoolchain.Libelf.Ar.Member.Walk.{open_member_inside, elf_next-open_member}
use elftoolchain.Libelf.Ar.Member.Loop.{walk, member_opened, walk-ar_open}
use elftoolchain.Libelf.Ar.Member.Reach.{
  Reachable, opened, step, opens, moves, jumps, IsSound, Reachable-IsSound,
}

abbrev first : Member
first = record { image = unknown; rawfile = 68; rawsize = 3; rawhdr = 8 }

abbrev second : Member
second = record { image = unknown; rawfile = 132; rawsize = 2; rawhdr = 72 }

abbrev begun : Archive
begun = record {
  rawfile = two_members;
  rawsymtab = 0;
  rawsymtabsz = 0;
  rawstrtab = 0;
  rawstrtabsz = 0;
  next = 8;
  nchildren = 0;
  svr4 = false;
}

abbrev begun_bsd : ℕ → Archive
begun_bsd n = record {
  rawfile = bsd_member n;
  rawsymtab = 0;
  rawsymtabsz = 0;
  rawstrtab = 0;
  rawstrtabsz = 0;
  next = 8;
  nchildren = 0;
  svr4 = false;
}

open_first : open_member begun ≡ ok (some first, record begun { nchildren = 1 })
unfolding open_member open_sized make_member bsd_name_size is_bsd_name get_number elf_memory
    libelf_memory is_elf is_ar
open_first = refl

walk_runs : walk 3 begun ≡ some (first ∷ second ∷ [])
unfolding walk member_opened open_member open_sized make_member bsd_name_size is_bsd_name get_number
    elf_memory libelf_memory is_elf is_ar elf_next next_offset
walk_runs = refl

abbrev wrapped : Member
wrapped = record { image = unknown; rawfile = 73; rawsize = 2 ^ 64 - 3; rawhdr = 8 }

open_member_inside_example :
    (first.rawfile ≡ 8 + 60 + 0)
    × (first.rawfile + first.rawsize ≡ 8 + 60 + 3)
    × (first.rawfile + first.rawsize ≤ length two_members)
    × (1 ≤ first.rawsize)
    × ((record begun { nchildren = 1 }).nchildren ≡ begun.nchildren + 1)
    × ((record begun { nchildren = 1 }).next ≡ begun.next)
unfolding get_number bsd_name_size is_bsd_name
open_member_inside_example =
    open_member_inside begun first (record begun { nchildren = 1 }) 3 0 open_first refl refl
      (omega arith)

elf_next-open_member_example :
    ((elf_next first (record begun { nchildren = 1 })).1.next ≡ 0)
    ⊎ (((elf_next first (record begun { nchildren = 1 })).1.next % 2 ≡ 0)
        × (8 + 60 ≤ (elf_next first (record begun { nchildren = 1 })).1.next)
        × ((elf_next first (record begun { nchildren = 1 })).1.next < length two_members)
        × ((elf_next first (record begun { nchildren = 1 })).0 ≡ true))
elf_next-open_member_example =
    elf_next-open_member begun first (record begun { nchildren = 1 }) open_first (omega arith)

walk-ar_open_example :
    (es : List Member) × (walk (length two_members) begun ≡ some es)
    × (60 * length es + 8 ≤ length two_members)
unfolding ar_open read_header get_number is_symtab is_strtab is_bsd_symtab open_svr4 start
walk-ar_open_example = walk-ar_open two_members begun refl (omega arith)

reached : Reachable two_members (elf_rand (elf_next first (record begun { nchildren = 1 })).1 8).1
unfolding ar_open read_header get_number is_symtab is_strtab is_bsd_symtab open_svr4 start
reached =
    step (step (step (opened {a = begun} refl) (opens first open_first)) (moves first)) (jumps 8)

Reachable-IsSound_example :
    IsSound two_members (elf_rand (elf_next first (record begun { nchildren = 1 })).1 8).1
Reachable-IsSound_example = Reachable-IsSound two_members reached

abbrev always : ℕ → Bool
always n = true

-- The descriptor of "b/", whose numbers but the size are blank.
abbrev second_header : Arhdr
second_header = record {
  name = b'b' ∷ [];
  rawname = b'b' ∷ b'/' ∷ replicate 14 b' ';
  uid = 0;
  gid = 0;
  mode = 0;
  date = 0;
  size = 2;
}

abbrev moved : Archive
moved = record begun { next = 72; nchildren = 1 }

open_second : open_member moved ≡ ok (some second, record moved { nchildren = 2 })
unfolding open_member open_sized make_member bsd_name_size is_bsd_name get_number elf_memory
    libelf_memory is_elf is_ar
open_second = refl

gethdr_runs : gethdr always (record moved { nchildren = 2 }) 72 ≡ ok second_header
unfolding gethdr read_arhdr bsd_name_size is_bsd_name get_number get_translated_name translate
    short_name get_raw_name copy_string strip_blanks strip_slash is_svr4_name digit_at new_string
gethdr_runs = refl
