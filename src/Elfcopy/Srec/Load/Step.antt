-- ===== src/Elfcopy/Srec/Load/Step.antt =====
-- The loop on a line that srec_write wrote.
use elftoolchain.Base.{
  ℕ, ◌+◌, ◌-◌, ◌^◌, ◌≤◌, ◌<◌, ◌≡◌, ◌⊎◌, refl, ap, ◌∙◌, Bool, true, false, ◌||◌, not, [], ◌++◌,
  Bytes, ltb, leb, ◌==◌, if◌then◌else◌, length, length-append, All, IsByte, arith,
}
use elftoolchain.Elfcopy.Hex.{write_num, write_bytes}
use elftoolchain.Elfcopy.Hex.RoundTrip.{length-write_num, length-write_bytes}
use elftoolchain.Elfcopy.Record.{Conversion, ok, overflow, line_end, char_at}
use elftoolchain.Elfcopy.Srec.{Srec, srec_read, write_addr_sz, srec_line, srec_write}
use elftoolchain.Elfcopy.Srec.RoundTrip.{IsKind, write_addr_sz_bound, srec_read-srec_line}
use elftoolchain.Elfcopy.Srec.Load.{Scan, is_symbols, srec_record, if_read, data_line, scan_line}
use elftoolchain.Elfcopy.Image.{Image}

length-srec_line :
    (kind addr : ℕ) (buf : Bytes) → length buf ≤ 255 → length (srec_line kind addr buf) ≤ 1024
unfolding srec_line
length-srec_line kind addr buf short =
    let sz = write_addr_sz kind in
    let count = write_num (sz + length buf + 1) 1 0 in
    let a = write_num addr sz count.checksum in
    let d = write_bytes buf a.checksum in
    let sum = write_num (255 - d.checksum) 1 0 in
    omega (
      arith,
      write_addr_sz_bound kind,
      length-append count.text (a.text ++ (d.text ++ (sum.text ++ line_end))),
      length-write_num 1 (sz + length buf + 1) 0,
      length-append a.text (d.text ++ (sum.text ++ line_end)),
      length-write_num sz addr count.checksum,
      length-append d.text (sum.text ++ line_end),
      length-write_bytes buf a.checksum,
      length-append sum.text line_end,
      length-write_num 1 (255 - d.checksum) 0,
    )

-- Every record fits the line buffer.
pub srec_write_fits :
    (kind addr : ℕ) (buf : Bytes)
    → length buf ≤ 255
    → srec_write kind addr buf ≡ ok (srec_line kind addr buf)
unfolding srec_write
srec_write_fits kind addr buf short =
    ap (λ (x : Bool). if x then ok (srec_line kind addr buf) else overflow)
      (le→leb (length (srec_line kind addr buf)) 1024 (length-srec_line kind addr buf short))
  where
    le→leb : (a b : ℕ) → a ≤ b → leb a b ≡ true
    le→leb a b h = ground arith

data_line_lem :
    (img img' : Image) (line : Bytes) (r : Srec)
    → char_at line 0 ≡ b'S'
    → char_at line 1 ≡ r.kind
    → IsKind r.kind
    → srec_read line ≡ ok r
    → srec_record img r ≡ ok img'
    → data_line img line ≡ ok img'
unfolding data_line if_read
data_line_lem img img' line r c0 c1 known read effect =
    let e : (not (char_at line 0 == b'S') || ltb (char_at line 1) b'0' || ltb b'9' (char_at line 1))
        ≡ false =
      ground (arith, c0, c1, known) in
    ap (λ (x : Bool). if x then ok img else if_read img (srec_read line)) e
    ∙ ap (λ (x : Conversion Srec). if_read img x) read
    ∙ effect

-- The record of a line has its effect.
pub scan_line_record :
    (sc : Scan) (img : Image) (line : Bytes) (r : Srec)
    → sc.in_symbols ≡ false
    → char_at line 0 ≡ b'S'
    → char_at line 1 ≡ r.kind
    → IsKind r.kind
    → srec_read line ≡ ok r
    → srec_record sc.image r ≡ ok img
    → scan_line sc line ≡ ok (record sc { image = img })
unfolding scan_line is_symbols
scan_line_record sc img line r outside c0 c1 known read effect =
    rw (outside, c0, data_line_lem sc.image img line r c0 c1 known read effect) refl

-- A written line is read as its record.
pub scan_line-srec_line :
    (sc : Scan) (img : Image) (kind addr : ℕ) (buf : Bytes)
    → sc.in_symbols ≡ false
    → IsKind kind
    → (kind ≤ b'3') ⊎ (buf ≡ [])
    → addr < 256 ^ write_addr_sz kind
    → All IsByte buf
    → write_addr_sz kind + length buf + 1 < 256
    → srec_record sc.image (record { kind = kind; addr = addr; bytes = buf }) ≡ ok img
    → scan_line sc (srec_line kind addr buf) ≡ ok (record sc { image = img })
unfolding char_at srec_line
scan_line-srec_line sc img kind addr buf outside known fit low small short effect =
    scan_line_record sc img (srec_line kind addr buf)
      (record { kind = kind; addr = addr; bytes = buf }) outside refl refl known
      (srec_read-srec_line kind addr buf known fit low small short) effect
