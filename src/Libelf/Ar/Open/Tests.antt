-- ===== src/Libelf/Ar/Open/Tests.antt =====
-- Opened archives, and the theorems at them.
use elftoolchain.Base.{◌≡◌, refl, true, false, none, some}
use elftoolchain.Libelf.Ar.Number.{get_number}
use elftoolchain.Libelf.Ar.Samples.{two_members, long_names, magic}
use elftoolchain.Libelf.Ar.Open.{
  Archive, start, read_header, is_symtab, is_strtab, is_bsd_symtab, open_svr4, scan_ahead,
  with_symtab, with_strtab, adjust_size, ar_open,
}

opened : Archive
opened = record {
  rawfile = long_names;
  rawsymtab = 68;
  rawsymtabsz = 4;
  rawstrtab = 132;
  rawstrtabsz = 6;
  next = 138;
  nchildren = 0;
  svr4 = true;
}

open_runs :
    (ar_open two_members ≡ some (start false two_members))
    × (ar_open long_names ≡ some opened)
    × (ar_open magic ≡ none)
unfolding ar_open read_header get_number is_symtab is_strtab is_bsd_symtab open_svr4 scan_ahead
    with_symtab with_strtab start adjust_size opened
open_runs = (refl, refl, refl)
