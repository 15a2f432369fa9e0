-- ===== src/Elfcopy/Scn/Samples.antt =====
-- An object for the tests of elfcopy's text formats: two sections that are loaded, and one between
-- them that is not.
use elftoolchain.Base.{some, List, [], ◌∷◌, Bytes}
use elftoolchain.Elfcopy.Scn.{Scn}

abbrev pub text_bytes : Bytes
text_bytes = 1 ∷ 2 ∷ 3 ∷ 4 ∷ 5 ∷ 6 ∷ 7 ∷ 8 ∷ 9 ∷ 10 ∷ 11 ∷ 12 ∷ 13 ∷ 14 ∷ 15 ∷ 16 ∷ 17 ∷ 18 ∷ []

abbrev pub text_scn : Scn
text_scn = record {
  shdr = some (record { sh_type = 1; sh_flags = 6; sh_addr = 0xfff8; sh_size = 18 });
  data' = some text_bytes;
}

abbrev pub symtab_scn : Scn
symtab_scn = record {
  shdr = some (record { sh_type = 2; sh_flags = 0; sh_addr = 0; sh_size = 1 });
  data' = some (7 ∷ []);
}

abbrev pub data_scn : Scn
data_scn = record {
  shdr = some (record { sh_type = 1; sh_flags = 3; sh_addr = 0x20000; sh_size = 2 });
  data' = some (255 ∷ 0 ∷ []);
}

abbrev pub sample_scns : List Scn
sample_scns = text_scn ∷ symtab_scn ∷ data_scn ∷ []

-- A section at the address 0 behind one at a higher address.
abbrev pub descending_scns : List Scn
descending_scns =
    data_scn
    ∷ record {
      shdr = some (record { sh_type = 1; sh_flags = 2; sh_addr = 0; sh_size = 1 });
      data' = some (7 ∷ []);
    }
    ∷ []
