-- ===== src/Libelf/Ar/Number/Tests.antt =====
-- Fields of archive headers, and the theorems at concrete fields.
use elftoolchain.Base.{ℕ, ◌≡◌, refl, ◌++◌, [], ◌∷◌, some, none, Bytes, replicate, arith}
use elftoolchain.Libelf.Ar.Number.{get_number}
use elftoolchain.Libelf.Ar.Number.Laws.{Spells, get_number_sound}

-- `  644  `
abbrev mode : Bytes
mode = b' ' ∷ b' ' ∷ b'6' ∷ b'4' ∷ b'4' ∷ b' ' ∷ b' ' ∷ []

number_runs :
    (get_number mode 8 ≡ some 420)
    × (get_number (b'8' ∷ []) 8 ≡ none)
    × (get_number (b' ' ∷ b' ' ∷ []) 10 ≡ some 0)
    × (get_number (b'1' ∷ b' ' ∷ b'x' ∷ []) 10 ≡ some 1)
    × (get_number (b'1' ∷ b'x' ∷ []) 10 ≡ none)
unfolding get_number
number_runs = (refl, refl, refl, refl, refl)

get_number_sound_example : (k : ℕ) × (t : Bytes) × (mode ≡ replicate k b' ' ++ t) × Spells 8 t 0 420
unfolding get_number
get_number_sound_example = get_number_sound mode 8 420 (omega arith) (omega arith) refl
