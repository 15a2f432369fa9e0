-- ===== src/Elfcopy/Srec/Create/Whole.antt =====
-- What create_srec writes, the loop of create_elf_from_srec loads.
use elftoolchain.Base.{
  ℕ, ◌-◌, ◌^◌, ◌≤◌, ◌<◌, ◌≡◌, inl, inr, refl, ap, ◌∙◌, Bool, false, Option, some, List, [], ◌∷◌,
  ◌++◌, Bytes, ltb, length, All, IsByte, arith,
}
use elftoolchain.Elfcopy.Record.{ok}
use elftoolchain.Elfcopy.Srec.{write_addr_sz, srec_line, srec_write_S0, end_kind, srec_write_Se}
use elftoolchain.Elfcopy.Srec.RoundTrip.{write_addr_sz_bound}
use elftoolchain.Elfcopy.Srec.Create.{data_kind, record_len, create_srec}
use elftoolchain.Elfcopy.Scn.{Scn}
use elftoolchain.Elfcopy.Srec.Load.{Scan, scan, scan_line, srec_record}
use elftoolchain.Elfcopy.Srec.Load.Step.{srec_write_fits, scan_line-srec_line}
use elftoolchain.Elfcopy.Image.{Image, empty_image}
use elftoolchain.Elfcopy.Image.View.{
  segments, empty_image-IsImage, segments-empty_image, segments_entry,
}
use elftoolchain.Elfcopy.Image.Segments.{total}
use elftoolchain.Elfcopy.Scn.Layout.{write_all, data_total}
use elftoolchain.Elfcopy.Srec.Create.Refines.{
  data_kind-IsDataKind, record_len_bound, IsScnInReach, srec_data-IsLoaded,
}

abbrev pub start_scan : ℕ → Scan
start_scan off = record { image = empty_image off; in_symbols = false; symtab_exist = false }

-- The name of the file has no effect.
header_lem :
    (sc : Scan) (ofn : Bytes)
    → sc.in_symbols ≡ false
    → All IsByte ofn
    → length ofn ≤ 252
    → scan_line sc (srec_line b'0' 0 ofn) ≡ ok sc
unfolding srec_record write_addr_sz
header_lem sc ofn outside name_bytes short =
    scan_line-srec_line sc sc.image b'0' 0 ofn outside (inl (omega arith, omega arith))
      (inl (omega arith)) (omega arith) name_bytes (omega arith) refl

end_kind_lem :
    (e : ℕ) (force : Bool)
    → e < 2 ^ 32
    → ((b'7' ≤ end_kind e force) × (end_kind e force ≤ b'9'))
      × (e < 256 ^ write_addr_sz (end_kind e force))
unfolding end_kind write_addr_sz
end_kind_lem e force low = ground arith

srec_record-end :
    (img : Image) (kind e : ℕ)
    → (b'7' ≤ kind) × (kind ≤ b'9')
    → srec_record img (record { kind = kind; addr = e; bytes = [] }) ≡ ok (record img { entry = e })
unfolding srec_record
srec_record-end img kind e known = ground (arith, known)

end_lem :
    (sc : Scan) (e : ℕ) (force : Bool)
    → sc.in_symbols ≡ false
    → e < 2 ^ 32
    → (lines : List Bytes) × (srec_write_Se e force ≡ ok lines)
      × (scan sc lines ≡ ok (record sc { image = record sc.image { entry = e } }))
unfolding srec_write_Se scan
end_lem sc e force outside low =
    let kind = end_kind e force in
    let (known, fits) = end_kind_lem e force low in
    let e32 : ltb 0xffffffff e ≡ false = ground arith in
    let step =
      scan_line-srec_line sc (record sc.image { entry = e }) kind e [] outside (inr (inr known))
        (inr refl) fits _ (omega (arith, write_addr_sz_bound kind))
        (srec_record-end sc.image kind e known) in
    (srec_line kind e [] ∷ [], rw (e32, srec_write_fits kind e [] (omega arith)) refl, rw step refl)

-- For sections whose data end within the addresses of the record type, of 2 ^ 62 bytes in all, a
-- file name of at most 252 characters, an entry point below 2 ^ 32 and a forced record length below
-- 2 ^ 64 - 8, `create_srec` returns its lines, and the loop of `create_elf_from_srec` over them
-- ends with the segments of the abstract contents, in which data behind a segment extend it and
-- other data begin a new one, and with the entry point.
pub create_srec-IsLoaded :
    (off : ℕ) (force_s3 : Bool) (srec_len : Option ℕ) (ofn : Bytes) (scns : List Scn) (e_entry : ℕ)
    → ((n : ℕ) → srec_len ≡ some n → n < 2 ^ 64 - 8)
    → All IsByte ofn
    → length ofn ≤ 252
    → e_entry < 2 ^ 32
    → All (IsScnInReach (data_kind force_s3 scns)) scns
    → data_total scns ≤ 2 ^ 62
    → (lines : List Bytes) × (create_srec force_s3 srec_len ofn scns e_entry ≡ ok lines)
      × ((sc : Scan) × (scan (start_scan off) lines ≡ ok sc)
          × (segments sc.image ≡ write_all scns [])
          × (sc.image.entry ≡ e_entry))
unfolding create_srec srec_write_S0 scan
create_srec-IsLoaded off force_s3 srec_len ofn scns e_entry sane name_bytes short_name low reach
      room =
    let dr = data_kind force_s3 scns in
    let rlen = record_len dr srec_len in
    let known = data_kind-IsDataKind force_s3 scns in
    let (pos, short) = record_len_bound dr srec_len known sane in
    let start = start_scan off in
    let none_yet = segments-empty_image off in
    let p0 = srec_write_fits b'0' 0 ofn (omega arith) in
    let r0 = header_lem start ofn refl name_bytes short_name in
    let (sd, p1, (sc, r1, wf, view, entry)) =
      srec_data-IsLoaded scns start dr rlen (refl, empty_image-IsImage off) known pos short reach
        (omega (arith, ap total none_yet, room)) in
    let (se, p2, r2) = end_lem sc e_entry force_s3 wf.0 low in
    (
      srec_line b'0' 0 ofn ∷ (sd ++ se),
      rw (p0, p1, p2) refl,
      (
        record sc { image = record sc.image { entry = e_entry } },
        rw r0 (r1 se ∙ r2),
        segments_entry sc.image e_entry ∙ view ∙ ap (write_all scns) none_yet,
        refl,
      ),
    )
