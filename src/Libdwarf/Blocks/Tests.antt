-- ===== src/Libdwarf/Blocks/Tests.antt =====
-- Runs of the readers and writers of strings, and their theorems at concrete inputs.
use elftoolchain.Base.{◌≡◌, refl, some, none, [], ◌∷◌, Bytes, arith}
use elftoolchain.Base.Mem.{store, store_n}
use elftoolchain.Libdwarf.Blocks.{scan_string, read_string, write_string, write_padding}
use elftoolchain.Libdwarf.Blocks.Strings.{read_string_unterminated}

abbrev buffer : Bytes
buffer = 9 ∷ 9 ∷ 9 ∷ 9 ∷ 9 ∷ []

string_runs :
    (read_string (b'a' ∷ b'b' ∷ 0 ∷ []) 3 0 ≡ some (0, 3))
    × (read_string (b'a' ∷ b'b' ∷ 7 ∷ []) 2 0 ≡ some (0, 2))
    × (write_string buffer 1 (b'a' ∷ []) ≡ some (9 ∷ b'a' ∷ 0 ∷ 9 ∷ 9 ∷ [], 3))
    × (write_padding buffer 3 0 2 ≡ some (9 ∷ 9 ∷ 9 ∷ 0 ∷ 0 ∷ [], 5))
unfolding read_string scan_string write_string write_padding store_n store
string_runs = (refl, refl, refl, refl)

read_string_unterminated_example : read_string (b'a' ∷ b'b' ∷ []) 2 1 ≡ none
read_string_unterminated_example =
    read_string_unterminated (b'a' ∷ b'b' ∷ []) 1 (omega arith) (omega arith)
