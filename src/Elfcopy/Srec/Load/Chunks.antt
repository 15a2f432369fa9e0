-- ===== src/Elfcopy/Srec/Load/Chunks.antt =====
-- The records of srec_write_Sd are loaded as one piece of data.
use elftoolchain.Base.{
  ℕ, ◌+◌, ◌^◌, ◌≤◌, ◌<◌, ◌≡◌, inl, ap, ◌∙◌, Bool, true, false, ◌||◌, List, [], ◌∷◌, ◌++◌, Bytes,
  ◌==◌, if◌then◌else◌, length, append_assoc, All, IsByte, arith,
}
use elftoolchain.Elfcopy.Record.{Conversion, ok, ◌>>=◌}
use elftoolchain.Elfcopy.Srec.{write_addr_sz, srec_line}
use elftoolchain.Elfcopy.Srec.Load.{Scan, srec_record, scan}
use elftoolchain.Elfcopy.Srec.Load.Step.{scan_line-srec_line}
use elftoolchain.Elfcopy.Image.{Image, add_data}
use elftoolchain.Elfcopy.Image.View.{segments, IsImage, add_data_lem}
use elftoolchain.Elfcopy.Image.Segments.{Segment, add_segment, total}

-- The state of the loop between two records.
abbrev pub IsScan : Scan → Type 0
IsScan sc = (sc.in_symbols ≡ false) × IsImage sc.image

-- The lines take the loop from `sc` to a state with the segments `l` and the same entry point.
abbrev pub IsLoaded : Scan → List Bytes → List Segment → Type 0
IsLoaded sc lines l =
    (sc' : Scan) × ((more : List Bytes) → scan sc (lines ++ more) ≡ scan sc' more)
    × IsScan sc'
    × (segments sc'.image ≡ l)
    × (sc'.image.entry ≡ sc.image.entry)

-- A data record.
abbrev pub IsDataKind : ℕ → Type 0
IsDataKind dr = (b'1' ≤ dr) × (dr ≤ b'3')

srec_record-data :
    (img : Image) (dr addr : ℕ) (buf : Bytes)
    → IsDataKind dr
    → srec_record img (record { kind = dr; addr = addr; bytes = buf }) ≡ add_data img addr buf
unfolding srec_record
srec_record-data img dr addr buf known =
    let e : (dr == b'1' || dr == b'2' || dr == b'3') ≡ true = ground (arith, known) in
    ap
      (λ (x : Bool).
        if x
        then add_data img addr buf
        else if dr == b'7' || dr == b'8' || dr == b'9'
        then ok (record img { entry = addr })
        else ok img)
      e

pub chunk :
    (sc : Scan) (dr addr : ℕ) (buf : Bytes)
    → IsScan sc
    → IsDataKind dr
    → addr < 256 ^ write_addr_sz dr
    → addr < 2 ^ 32
    → All IsByte buf
    → 0 < length buf
    → write_addr_sz dr + length buf + 1 < 256
    → total (segments sc.image) + length buf ≤ 2 ^ 62
    → IsLoaded sc (srec_line dr addr buf ∷ []) (add_segment addr buf (segments sc.image))
unfolding scan
chunk sc dr addr [] start known low low' small some_data short room = ground (arith, some_data)
chunk sc dr addr (b ∷ buf) (outside, wf) known low low' small some_data short room =
    let (img, p, (wf', view, entry)) = add_data_lem sc.image addr b buf wf low' room in
    let step =
      scan_line-srec_line sc img dr addr (b ∷ buf) outside (inl (omega (arith, known.0), known.1))
        (inl known.1) low small short (srec_record-data sc.image dr addr (b ∷ buf) known ∙ p) in
    (
      record sc { image = img },
      (λ more. ap (λ (x : Conversion Scan). x >>= λ sc'. scan sc' more) step),
      (outside, wf'),
      view,
      entry,
    )

pub IsLoaded-append :
    (sc : Scan) (xs ys : List Bytes) (l m : List Segment)
    → (h : IsLoaded sc xs l) → IsLoaded h.0 ys m
    → IsLoaded sc (xs ++ ys) m
IsLoaded-append sc xs ys l m (sc', p, wf, view, entry) (sc'', p', wf', view', entry') = (
  sc'',
  (λ more. ap (λ (x : List Bytes). scan sc x) (append_assoc xs ys more) ∙ p (ys ++ more) ∙ p' more),
  wf',
  view',
  entry' ∙ entry,
)
