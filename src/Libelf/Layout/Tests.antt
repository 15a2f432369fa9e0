-- ===== src/Libelf/Layout/Tests.antt =====
-- The layout of a section with two descriptors.
use elftoolchain.Base.{ℕ, ◌≡◌, refl, [], ◌∷◌, true, false, ◌==◌, if◌then◌else◌}
use elftoolchain.Libelf.Layout.{
  Class, class64, Data, Scn, Elf, ok, roundup, field, switch, xlate_shtype, align_at, falign,
  update_descriptor, compute_offset, check_data, file_size, place, put, place_all, finish,
  entry_size, extents_of, aligned_extents, compute_section_extents,
}

-- The sizes of the type of bytes.
abbrev bytes : ℕ → Class → ℕ
bytes t c = if t == 1 then 1 else 0

abbrev elf : Elf
elf = record { e_class = class64; e_version = 1; is_layout = false }

abbrev five_bytes : Data
five_bytes = record { d_type = 1; d_version = 1; d_align = 1; d_size = 5; d_off = 0 }

abbrev four_bytes : Data
four_bytes = record { d_type = 1; d_version = 1; d_align = 4; d_size = 4; d_off = 0 }

abbrev scn : Scn
scn = record {
  s_shdr = record { sh_type = 1; sh_addralign = 0; sh_entsize = 0; sh_offset = 0; sh_size = 0 };
  s_data = five_bytes ∷ four_bytes ∷ [];
  is_dirty = true;
  s_size = 0;
  s_offset = 0;
}

laid_out :
    compute_section_extents bytes bytes elf scn 66
    ≡ ok (record {
      s_shdr = record {
        sh_type = 1;
        sh_addralign = 4;
        sh_entsize = 0;
        sh_offset = 68;
        sh_size = 12;
      };
      s_data =
          five_bytes
          ∷ record { d_type = 1; d_version = 1; d_align = 4; d_size = 4; d_off = 8 }
          ∷ [];
      is_dirty = true;
      s_size = 12;
      s_offset = 68;
    })
unfolding compute_section_extents xlate_shtype switch aligned_extents falign align_at extents_of
    place_all check_data place roundup file_size put finish entry_size compute_offset field
    update_descriptor
laid_out = refl
