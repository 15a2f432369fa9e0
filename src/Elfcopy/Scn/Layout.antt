-- ===== src/Elfcopy/Scn/Layout.antt =====
-- The contents of an object: the data of its sections.
use elftoolchain.Base.{ℕ, ◌+◌, ◌≡◌, Option, none, some, List, [], ◌∷◌, Bytes, length, arith}
use elftoolchain.Elfcopy.Scn.{Scn, to_write}
use elftoolchain.Elfcopy.Image.Pieces.{add_bytes, total-add_bytes}
use elftoolchain.Elfcopy.Image.Segments.{Segment, total}

-- The data of a section behind the segments `l`.
abbrev pub add_piece : Option (ℕ × Bytes) → List Segment → List Segment
add_piece none l = l
add_piece (some d) l = add_bytes d.0 d.1 l

abbrev pub piece_size : Option (ℕ × Bytes) → ℕ
piece_size none = 0
piece_size (some d) = length d.1

-- The data of the sections, in their order.
abbrev pub write_all : List Scn → List Segment → List Segment
write_all [] l = l
write_all (scn ∷ scns) l = write_all scns (add_piece (to_write scn) l)

abbrev pub data_total : List Scn → ℕ
data_total [] = 0
data_total (scn ∷ scns) = piece_size (to_write scn) + data_total scns

pub total-add_piece :
    (d : Option (ℕ × Bytes)) (l : List Segment) → total (add_piece d l) ≡ piece_size d + total l
total-add_piece none l = omega arith
total-add_piece (some (addr, b)) l = total-add_bytes addr b l
