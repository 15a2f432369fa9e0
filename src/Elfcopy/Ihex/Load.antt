-- ===== src/Elfcopy/Ihex/Load.antt =====
-- The loop of create_elf_from_ihex of elfcopy/ascii.c that makes the data sections, over the lines
-- that fgets(3) returns.
pub mod Step
pub mod Pieces
use elftoolchain.Base.{
  ℕ, ◌+◌, ◌*◌, ◌%◌, ◌^◌, Bool, true, false, ◌||◌, not, List, [], ◌∷◌, Bytes, ◌==◌, if◌then◌else◌,
}
use elftoolchain.Elfcopy.Record.{Conversion, ok, invalid, overflow, unfinished, ◌>>=◌, char_at}
use elftoolchain.Elfcopy.Ihex.{Ihex, ihex_read}
use elftoolchain.Elfcopy.Image.{Image, add_data}

-- `addr_base`, and whether the end of file record was read.
pub record Scan : Type 0 where
  pub image : Image
  pub addr_base : ℕ
  pub ended : Bool

unfoldable pub ihex_record : Scan → Ihex → Conversion Scan
ihex_record sc r =
    if r.kind == b'0'
    then (add_data sc.image ((sc.addr_base + r.addr) % 2 ^ 64) r.bytes >>= λ img.
        ok (record sc { image = img }))
    else if r.kind == b'1'
    then ok (record sc { ended = true })
    else if r.kind == b'2'
    then ok (record sc { addr_base = r.addr * 2 ^ 4 % 2 ^ 64 })
    else if r.kind == b'4'
    then ok (record sc { addr_base = r.num * 2 ^ 16 % 2 ^ 64 })
    else if r.kind == b'5'
    then ok (record sc { image = record sc.image { entry = r.num } })
    else ok sc

-- An invalid record is skipped, with a warning.
unfoldable pub if_read : Scan → Conversion Ihex → Conversion Scan
if_read sc (ok r) = ihex_record sc r
if_read sc invalid = ok sc
if_read sc overflow = overflow
if_read sc unfinished = unfinished

unfoldable pub scan_line : Scan → Bytes → Conversion Scan
scan_line sc line =
    if char_at line 0 == b'\r' || char_at line 0 == b'\n'
    then ok sc
    else if not (char_at line 0 == b':')
    then ok sc
    else if_read sc (ihex_read line)

-- No line is read behind the end of file record.
unfoldable pub scan : Scan → List Bytes → Conversion Scan
scan sc [] = ok sc
scan sc (line ∷ lines) = elim (sc.ended) [
  | true ↦ ok sc
  | false ↦ scan_line sc line >>= λ sc'. scan sc' lines
]
