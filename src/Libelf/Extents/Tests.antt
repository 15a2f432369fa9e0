-- ===== src/Libelf/Extents/Tests.antt =====
-- Extents on concrete lists.
use elftoolchain.Base.{◌≡◌, refl, List, [], ◌∷◌, true, arith}
use elftoolchain.Libelf.Extents.{
  Extent, ehdr, section, shdr, layout, check_from, extent_is_unused, insert_checked, insert_extent,
}
use elftoolchain.Libelf.Extents.Insert.{IsInsertedOr, insert_extent-IsInserted}

-- An ELF header and a section behind a gap.
abbrev extents : List Extent
extents =
    record { ex_start = 0; ex_size = 64; ex_type = ehdr; ex_desc = 1 }
    ∷ record { ex_start = 80; ex_size = 16; ex_type = section; ex_desc = 2 }
    ∷ []

abbrev gap : Extent
gap = record { ex_start = 64; ex_size = 16; ex_type = shdr; ex_desc = 3 }

overlap : insert_extent true extents shdr 64 17 3 ≡ layout
unfolding insert_extent insert_checked extent_is_unused check_from
overlap = refl

insert_extent-IsInserted_example :
    IsInsertedOr 0 true gap extents (insert_extent true extents shdr 64 16 3)
insert_extent-IsInserted_example =
    insert_extent-IsInserted true extents shdr 64 16 3 (ground arith) (omega arith)
