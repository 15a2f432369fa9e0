-- ===== src/Elfcopy/Ihex/Create.antt =====
-- create_ihex of elfcopy/ascii.c: the records of an object.
pub mod Refines
mod Tests
use elftoolchain.Base.{
  ℕ, ◌+◌, Bool, ◌&&◌, not, Option, none, some, List, [], ◌∷◌, ◌++◌, Bytes, ltb, ◌==◌, if◌then◌else◌,
}
use elftoolchain.Elfcopy.Record.{Conversion, ok, ◌>>=◌}
use elftoolchain.Elfcopy.Scn.{Scn, to_write}
use elftoolchain.Elfcopy.Ihex.{high, ihex_write_00, ihex_write_01, ihex_write_04, ihex_write_05}

-- `addr_hi > 0 && addr_hi != old_addr_hi`
unfoldable pub is_new : ℕ → ℕ → Bool
is_new addr_hi old_addr_hi = ltb 0 addr_hi && not (addr_hi == old_addr_hi)

-- The 04 record before a section.
unfoldable pub base_record : ℕ → ℕ → Conversion (List Bytes)
base_record addr_hi old_addr_hi =
    if is_new addr_hi old_addr_hi then (ihex_write_04 addr_hi >>= λ line. ok (line ∷ [])) else ok []

-- The records of a section, for the `old_addr_hi` before it.
unfoldable pub section_data : ℕ → Option (ℕ × Bytes) → Conversion (List Bytes)
section_data old_addr_hi none = ok []
section_data old_addr_hi (some d) = base_record (high d.0) old_addr_hi >>= λ base.
    ihex_write_00 d.0 d.1 >>= λ lines. ok (base ++ lines)

-- `old_addr_hi` behind the section.
unfoldable pub next_high : ℕ → Option (ℕ × Bytes) → ℕ
next_high old_addr_hi none = old_addr_hi
next_high old_addr_hi (some d) = if is_new (high d.0) old_addr_hi then high d.0 else old_addr_hi

unfoldable pub ihex_data : ℕ → List Scn → Conversion (List Bytes)
ihex_data old_addr_hi [] = ok []
ihex_data old_addr_hi (scn ∷ l) =
    let d = to_write scn in
    section_data old_addr_hi d >>= λ lines.
    ihex_data (next_high old_addr_hi d) l >>= λ rest. ok (lines ++ rest)

unfoldable pub create_ihex : List Scn → ℕ → Conversion (List Bytes)
create_ihex scns e_entry = ihex_data 0 scns >>= λ lines. ihex_write_05 e_entry >>= λ start.
    ihex_write_01 >>= λ end_line. ok (lines ++ (start ++ (end_line ∷ [])))
