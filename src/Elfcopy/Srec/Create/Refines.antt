-- ===== src/Elfcopy/Srec/Create/Refines.antt =====
-- The records of the sections of an object load as their data.
use elftoolchain.Base.{
  ℕ, ◌+◌, ◌-◌, ◌^◌, ◌≤◌, ◌<◌, ◌≡◌, refl, ap, Bool, Option, none, some, List, [], ◌∷◌, ◌++◌, Bytes,
  length, All, IsByte, arith,
}
use mathlib.Core.Path.{subst}
use elftoolchain.Elfcopy.Srec.{write_addr_sz}
use elftoolchain.Elfcopy.Srec.Create.{data_kind, record_len, section_data, srec_data}
use elftoolchain.Elfcopy.Scn.{Scn, to_write}
use elftoolchain.Elfcopy.Srec.Load.{Scan}
use elftoolchain.Elfcopy.Srec.Load.Chunks.{IsScan, IsLoaded, IsDataKind, IsLoaded-append}
use elftoolchain.Elfcopy.Srec.Load.Pieces.{IsWritten, srec_write_Sd-IsLoaded}
use elftoolchain.Elfcopy.Scn.Layout.{add_piece, piece_size, write_all, data_total, total-add_piece}
use elftoolchain.Elfcopy.Image.View.{segments}
use elftoolchain.Elfcopy.Image.Segments.{total}

pub data_kind-IsDataKind : (force : Bool) (scns : List Scn) → IsDataKind (data_kind force scns)
unfolding data_kind
data_kind-IsDataKind force scns = ground arith

pub record_len_bound :
    (dr : ℕ) (srec_len : Option ℕ)
    → IsDataKind dr
    → ((n : ℕ) → srec_len ≡ some n → n < 2 ^ 64 - 8)
    → (1 ≤ record_len dr srec_len) × (write_addr_sz dr + record_len dr srec_len + 1 < 256)
unfolding record_len write_addr_sz
record_len_bound dr none known sane = ground (arith, known)
record_len_bound dr (some n) known sane = let h = sane n refl in ground (arith, known, h)

-- The data end within the addresses of the records.
abbrev pub IsInReach : ℕ → Option (ℕ × Bytes) → Type 0
IsInReach dr none = Unit
IsInReach dr (some d) = All IsByte d.1 × (d.0 + length d.1 ≤ 256 ^ write_addr_sz dr)

abbrev pub IsScnInReach : ℕ → Scn → Type 0
IsScnInReach dr scn = IsInReach dr (to_write scn)

section_data-IsLoaded :
    (d : Option (ℕ × Bytes)) (sc : Scan) (dr rlen : ℕ)
    → IsScan sc
    → IsDataKind dr
    → 1 ≤ rlen
    → write_addr_sz dr + rlen + 1 < 256
    → IsInReach dr d
    → total (segments sc.image) + piece_size d ≤ 2 ^ 62
    → IsWritten sc (section_data dr rlen d) (add_piece d (segments sc.image))
unfolding section_data
section_data-IsLoaded none sc dr rlen start known pos short reach room =
    ([], refl, (sc, (λ more. refl), start, refl, refl))
section_data-IsLoaded (some (addr, b)) sc dr rlen start known pos short reach room =
    srec_write_Sd-IsLoaded sc dr addr rlen b start known pos short reach.1 reach.0 room

pub srec_data-IsLoaded :
    (scns : List Scn) (sc : Scan) (dr rlen : ℕ)
    → IsScan sc
    → IsDataKind dr
    → 1 ≤ rlen
    → write_addr_sz dr + rlen + 1 < 256
    → All (IsScnInReach dr) scns
    → total (segments sc.image) + data_total scns ≤ 2 ^ 62
    → IsWritten sc (srec_data dr rlen scns) (write_all scns (segments sc.image))
unfolding srec_data
srec_data-IsLoaded [] sc dr rlen start known pos short reach room =
    ([], refl, (sc, (λ more. refl), start, refl, refl))
srec_data-IsLoaded (scn ∷ scns) sc dr rlen start known pos short reach room =
    let (lines, p, h) =
      section_data-IsLoaded (to_write scn) sc dr rlen start known pos short reach.0 (omega arith) in
    let sc' = h.0 in
    let room' : total (segments sc'.image) + data_total scns ≤ 2 ^ 62 =
      omega (arith, ap total h.3, total-add_piece (to_write scn) (segments sc.image), room) in
    let (rest, p', h') = srec_data-IsLoaded scns sc' dr rlen h.2 known pos short reach.1 room' in
    (
      lines ++ rest,
      rw (p, p') refl,
      subst (IsLoaded sc (lines ++ rest)) (ap (write_all scns) h.3) (
          IsLoaded-append sc lines rest (add_piece (to_write scn) (segments sc.image))
            (write_all scns (segments sc'.image)) h h'),
    )
