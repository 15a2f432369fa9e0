-- ===== src/Libelf/Layout/Placed.antt =====
-- Where the library lays a section out, its descriptors stand one behind the other, aligned, within
-- the section, and the section is aligned.
use elftoolchain.Base.{ℕ, ◌+◌, ◌%◌, ◌≤◌, ◌<◌, ◌≡◌, List, [], ◌∷◌}
use elftoolchain.Libelf.Layout.{
  Class, Data, Scn, Elf, Result, ok, fail, field, Placement, file_size,
}

module _ (msize fsize : ℕ → Class → ℕ) (e : Elf) where
  -- The descriptors of the second list are those of the first with other offsets, each a multiple
  -- of its alignment, one behind the other, from `size` to `end`.
  abbrev pub IsPlaced : ℕ → List Data → List Data → ℕ → Type 0
  IsPlaced size [] [] end = size ≤ end
  IsPlaced size [] (d' ∷ l') end = ⊥
  IsPlaced size (d ∷ l) [] end = ⊥
  IsPlaced size (d ∷ l) (d' ∷ l') end =
      (d' ≡ record {
        d_type = d.d_type;
        d_version = d.d_version;
        d_align = d.d_align;
        d_size = d.d_size;
        d_off = d'.d_off;
      })
      × (size ≤ d'.d_off)
      × (d'.d_off % d.d_align ≡ 0)
      × IsPlaced (d'.d_off + file_size msize fsize e d) l l' end

  -- A bound of the size that the descriptors take.
  abbrev pub room : List Data → ℕ
  room [] = 0
  room (d ∷ l) = d.d_align + file_size msize fsize e d + room l

  -- The size is below the bound, and the alignment below that of the descriptors and `al`.
  abbrev IsPlacement : ℕ → List Data → ℕ → Result Placement → Type 0
  IsPlacement size l al (fail x) = Unit
  IsPlacement size l al (ok p) =
      IsPlaced size l p.descriptors p.size × (p.size ≤ size + room l) × (p.alignment ≤ al + room l)

  -- The section that is laid out behind `rc`.
  abbrev pub IsLaidOut : Scn → ℕ → Result Scn → Type 0
  IsLaidOut s rc (fail x) = Unit
  IsLaidOut s rc (ok s') =
      IsPlaced 0 s.s_data s'.s_data s'.s_size
      × (rc ≤ s'.s_offset)
      × ((a : ℕ) × (0 < a) × (s'.s_shdr.sh_addralign ≡ field e.e_class a) × (s'.s_offset % a ≡ 0))
      × (s'.s_shdr.sh_offset ≡ field e.e_class s'.s_offset)
      × (s'.s_shdr.sh_size ≡ field e.e_class s'.s_size)
