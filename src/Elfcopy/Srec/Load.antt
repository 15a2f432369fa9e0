-- ===== src/Elfcopy/Srec/Load.antt =====
-- The loop of create_elf_from_srec of elfcopy/ascii.c that makes the data sections, over the lines
-- that fgets(3) returns.
pub mod Step
pub mod Chunks
pub mod Pieces
use elftoolchain.Base.{
  ℕ, Bool, true, false, ◌||◌, ◌&&◌, not, List, [], ◌∷◌, Bytes, ltb, ◌==◌, if◌then◌else◌,
}
use elftoolchain.Elfcopy.Record.{Conversion, ok, invalid, overflow, unfinished, ◌>>=◌, char_at}
use elftoolchain.Elfcopy.Srec.{Srec, srec_read}
use elftoolchain.Elfcopy.Image.{Image, add_data}

-- Whether the loop is between the two `$$` lines of a symbol table, and SYMTAB_EXIST.
pub record Scan : Type 0 where
  pub image : Image
  pub in_symbols : Bool
  pub symtab_exist : Bool

unfoldable pub is_symbols : Bytes → Bool
is_symbols line = char_at line 0 == b'$' && char_at line 1 == b'$'

unfoldable pub srec_record : Image → Srec → Conversion Image
srec_record img r =
    if r.kind == b'1' || r.kind == b'2' || r.kind == b'3'
    then add_data img r.addr r.bytes
    else if r.kind == b'7' || r.kind == b'8' || r.kind == b'9'
    then ok (record img { entry = r.addr })
    else ok img

-- An invalid record is skipped, with a warning.
unfoldable pub if_read : Image → Conversion Srec → Conversion Image
if_read img (ok r) = srec_record img r
if_read img invalid = ok img
if_read img overflow = overflow
if_read img unfinished = unfinished

unfoldable pub data_line : Image → Bytes → Conversion Image
data_line img line =
    if not (char_at line 0 == b'S') || ltb (char_at line 1) b'0' || ltb b'9' (char_at line 1)
    then ok img
    else if_read img (srec_read line)

unfoldable pub scan_line : Scan → Bytes → Conversion Scan
scan_line sc line =
    if sc.in_symbols
    then ok (record sc { in_symbols = not (is_symbols line) })
    else if char_at line 0 == b'\r' || char_at line 0 == b'\n'
    then ok sc
    else if is_symbols line
    then ok (record sc { in_symbols = true; symtab_exist = true })
    else data_line sc.image line >>= λ img. ok (record sc { image = img })

unfoldable pub scan : Scan → List Bytes → Conversion Scan
scan sc [] = ok sc
scan sc (line ∷ lines) = scan_line sc line >>= λ sc'. scan sc' lines
