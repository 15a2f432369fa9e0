-- ===== src/Elfcopy/Ihex/Create/Refines.antt =====
-- What create_ihex writes for sections in ascending order, the loop of create_elf_from_ihex loads.
use elftoolchain.Base.{
  ℕ, ◌+◌, ◌*◌, ◌/◌, ◌^◌, ◌≤◌, ◌<◌, ◌≡◌, inl, inr, refl, ap, ◌∙◌, true, false, Bool-cases, Option,
  none, some, List, [], ◌∷◌, ◌++◌, append_assoc, Bytes, ltb, length, All, IsByte, arith,
}
use native.Mathlib.Nat.{mod-eq_of_lt}
use elftoolchain.Elfcopy.Record.{ok, char_at}
use elftoolchain.Elfcopy.Scn.{Scn, to_write}
use elftoolchain.Elfcopy.Scn.Layout.{add_piece, piece_size, write_all, data_total, total-add_piece}
use elftoolchain.Elfcopy.Ihex.{ihex_line, high, ihex_write_01, ihex_write_04, ihex_write_05}
use elftoolchain.Elfcopy.Ihex.RoundTrip.{ihex_read-number}
use elftoolchain.Elfcopy.Ihex.Create.{
  is_new, base_record, section_data, next_high, ihex_data, create_ihex,
}
use elftoolchain.Elfcopy.Ihex.Load.{Scan, ihex_record, scan}
use elftoolchain.Elfcopy.Ihex.Load.Step.{IsScan, high_scan, scan_record}
use elftoolchain.Elfcopy.Ihex.Load.Pieces.{IsWritten, ihex_write_short, ihex_write_00-IsLoaded}
use elftoolchain.Elfcopy.Image.{empty_image}
use elftoolchain.Elfcopy.Image.View.{
  segments, empty_image-IsImage, segments-empty_image, segments_entry,
}
use elftoolchain.Elfcopy.Image.Segments.{total}

-- A section from the address `low` on, below 4 GiB.
abbrev pub IsPlaced : ℕ → Option (ℕ × Bytes) → Type 0
IsPlaced low none = Unit
IsPlaced low (some d) = (low ≤ d.0) × (d.0 + length d.1 < 2 ^ 32) × All IsByte d.1

abbrev pub end_of : ℕ → Option (ℕ × Bytes) → ℕ
end_of low none = low
end_of low (some d) = d.0 + length d.1

-- Sections in ascending order that do not overlap.
abbrev pub IsAscending : ℕ → List Scn → Type 0
IsAscending low [] = Unit
IsAscending low (scn ∷ scns) =
    IsPlaced low (to_write scn) × IsAscending (end_of low (to_write scn)) scns

not_new : (h old hi : ℕ) → is_new h old ≡ false → old ≤ hi → hi ≤ h → h ≡ hi
unfolding is_new
not_new h old hi e after above = ground (arith, e)

base_lem :
    (sc : Scan) (old hi addr : ℕ)
    → IsScan sc hi
    → old ≤ hi
    → hi ≤ addr / 2 ^ 16
    → addr < 2 ^ 32
    → (lines : List Bytes) × (base_record (high addr) old ≡ ok lines)
      × ((more : List Bytes)
          → scan sc (lines ++ more) ≡ scan (record sc { addr_base = addr / 2 ^ 16 * 2 ^ 16 }) more)
unfolding base_record ihex_write_04
base_lem sc old hi addr (going, wf, base) after above low =
    let same : high addr ≡ addr / 2 ^ 16 = omega arith in
    elim (Bool-cases (is_new (high addr) old)) [
      | inl e ↦ (
        ihex_line 4 0 (high addr) none 2 ∷ [],
        rw (e, ihex_write_short 4 0 (high addr) 2 none (omega arith)) refl,
        (λ more.
            high_scan sc (high addr) more going (omega arith)
            ∙ ap (λ (x : ℕ). scan (record sc { addr_base = x * 2 ^ 16 }) more) same),
      )
      | inr e ↦
          let at : sc.addr_base ≡ addr / 2 ^ 16 * 2 ^ 16 =
            omega (arith, base, same, not_new (high addr) old hi e after (omega arith)) in
          ([], rw e refl, (λ more. ap (λ (x : ℕ). scan (record sc { addr_base = x }) more) at))
    ]

next_high_lem :
    (old hi addr : ℕ) (b : Bytes)
    → old ≤ hi
    → hi ≤ addr / 2 ^ 16
    → addr < 2 ^ 32
    → next_high old (some (addr, b)) ≤ addr / 2 ^ 16
unfolding next_high
next_high_lem old hi addr b after above low =
    let same : high addr ≡ addr / 2 ^ 16 = omega arith in
    elim (Bool-cases (is_new (high addr) old)) [
      | inl e ↦ rw (e, same) (omega arith)
      | inr e ↦ rw e (omega arith)
    ]

section_lem :
    (sc : Scan) (old hi addr : ℕ) (b : Bytes)
    → IsScan sc hi
    → old ≤ hi
    → hi * 2 ^ 16 ≤ addr
    → addr + length b < 2 ^ 32
    → All IsByte b
    → total (segments sc.image) + length b ≤ 2 ^ 62
    → IsWritten sc
        (section_data old (some (addr, b)))
        (add_piece (some (addr, b)) (segments sc.image))
        (addr / 2 ^ 16)
        (addr + length b)
unfolding section_data
section_lem sc old hi addr b start after above low small room =
    let (base, p, run) = base_lem sc old hi addr start after (omega (arith, above)) (omega arith) in
    let sc1 = record sc { addr_base = addr / 2 ^ 16 * 2 ^ 16 } in
    let (lines, p', (sc', run', at, view, entry)) =
      ihex_write_00-IsLoaded sc1 addr b (start.0, start.1, refl) low small room in
    (
      base ++ lines,
      rw (p, p') refl,
      (
        sc',
        (λ more.
            ap (λ (x : List Bytes). scan sc x) (append_assoc base lines more)
            ∙ run (lines ++ more)
            ∙ run' more),
        at,
        view,
        entry,
      ),
    )

piece_lem :
    (d : Option (ℕ × Bytes)) (sc : Scan) (old hi low : ℕ)
    → IsScan sc hi
    → old ≤ hi
    → hi * 2 ^ 16 ≤ low
    → IsPlaced low d
    → total (segments sc.image) + piece_size d ≤ 2 ^ 62
    → IsWritten sc
        (section_data old d)
        (add_piece d (segments sc.image))
        (next_high old d)
        (end_of low d)
unfolding section_data next_high
piece_lem none sc old hi low start after below placed room =
    ([], refl, (sc, (λ more. refl), (hi, start, after, below), refl, refl))
piece_lem (some (addr, b)) sc old hi low start after below (above, fits, small) room =
    let (lines, p, (sc', run, (hi', start', above', below'), view, entry)) =
      section_lem sc old hi addr b start after (omega (arith, below, above)) fits small room in
    let h = next_high_lem old hi addr b after (omega (arith, below, above)) (omega (arith, fits)) in
    (lines, p, (sc', run, (hi', start', omega (arith, h, above'), below'), view, entry))

-- `old` is `old_addr_hi`, and `low` the end of the section before.
ihex_data-IsLoaded :
    (scns : List Scn) (sc : Scan) (old hi low : ℕ)
    → IsScan sc hi
    → old ≤ hi
    → hi * 2 ^ 16 ≤ low
    → IsAscending low scns
    → total (segments sc.image) + data_total scns ≤ 2 ^ 62
    → (lines : List Bytes) × (ihex_data old scns ≡ ok lines)
      × ((sc' : Scan) × ((more : List Bytes) → scan sc (lines ++ more) ≡ scan sc' more)
          × (sc'.ended ≡ false)
          × (segments sc'.image ≡ write_all scns (segments sc.image))
          × (sc'.image.entry ≡ sc.image.entry))
unfolding ihex_data
ihex_data-IsLoaded [] sc old hi low start after below order room =
    ([], refl, (sc, (λ more. refl), start.0, refl, refl))
ihex_data-IsLoaded (scn ∷ scns) sc old hi low start after below order room =
    let room0 : total (segments sc.image) + piece_size (to_write scn) ≤ 2 ^ 62 =
      omega (arith, room) in
    let (lines, p, (sc1, run, (hi1, start1, above1, below1), view, entry)) =
      piece_lem (to_write scn) sc old hi low start after below order.0 room0 in
    let room' : total (segments sc1.image) + data_total scns ≤ 2 ^ 62 =
      omega (arith, ap total view, total-add_piece (to_write scn) (segments sc.image), room) in
    let (rest, p', (sc2, run', going, view', entry')) =
      ihex_data-IsLoaded scns sc1 (next_high old (to_write scn)) hi1 (end_of low (to_write scn))
        start1 above1 below1 order.1 room' in
    (
      lines ++ rest,
      rw (p, p') refl,
      (
        sc2,
        (λ more.
            ap (λ (x : List Bytes). scan sc x) (append_assoc lines rest more)
            ∙ run (rest ++ more)
            ∙ run' more),
        going,
        view' ∙ ap (write_all scns) view,
        entry' ∙ entry,
      ),
    )

abbrev pub start_scan : ℕ → Scan
start_scan off = record { image = empty_image off; addr_base = 0; ended = false }

start_lem :
    (sc : Scan) (e : ℕ) (more : List Bytes)
    → sc.ended ≡ false
    → e < 2 ^ 32
    → scan sc (ihex_line 5 0 e none 4 ∷ more)
      ≡ scan (record sc { image = record sc.image { entry = e } }) more
unfolding char_at ihex_record ihex_line
start_lem sc e more going low =
    scan_record sc (record sc { image = record sc.image { entry = e } }) (ihex_line 5 0 e none 4) _
      more going refl (ihex_read-number 5 0 e 4 (inr (inr (refl, refl))))
      (ap (λ (x : ℕ). ok (record sc { image = record sc.image { entry = x } })) (mod-eq_of_lt low))

end_lem :
    (sc : Scan)
    → sc.ended ≡ false
    → scan sc (ihex_line 1 0 0 none 0 ∷ []) ≡ ok (record sc { ended = true })
unfolding char_at ihex_record ihex_line scan
end_lem sc going =
    scan_record sc (record sc { ended = true }) (ihex_line 1 0 0 none 0) _ [] going refl
      (ihex_read-number 1 0 0 0 (inl (refl, refl))) refl

-- For sections in ascending order that do not overlap, below 4 GiB, of 2 ^ 62 bytes in all, and an
-- entry point below 2 ^ 32, `create_ihex` returns its lines, and the loop of `create_elf_from_ihex`
-- over them ends with the segments of the abstract contents, in which data behind a segment extend
-- it and other data begin a new one, and with the entry point.
pub create_ihex-IsLoaded :
    (off : ℕ) (scns : List Scn) (e_entry : ℕ)
    → e_entry < 2 ^ 32
    → IsAscending 0 scns
    → data_total scns ≤ 2 ^ 62
    → (lines : List Bytes) × (create_ihex scns e_entry ≡ ok lines)
      × ((sc : Scan) × (scan (start_scan off) lines ≡ ok sc)
          × (segments sc.image ≡ write_all scns [])
          × (sc.image.entry ≡ e_entry))
unfolding create_ihex ihex_write_01 ihex_write_05
create_ihex-IsLoaded off scns e_entry low order room =
    let start = start_scan off in
    let none_yet = segments-empty_image off in
    let (lines, p, (sc, run, going, view, entry)) =
      ihex_data-IsLoaded scns start 0 0 0 (refl, empty_image-IsImage off, refl) (omega arith)
        (omega arith) order (omega (arith, ap total none_yet, room)) in
    let sc' = record sc { image = record sc.image { entry = e_entry } } in
    let e32 : ltb 0xffffffff e_entry ≡ false = ground arith in
    let l5 = ihex_line 5 0 e_entry none 4 in
    let l1 = ihex_line 1 0 0 none 0 in
    (
      lines ++ (l5 ∷ [] ++ (l1 ∷ [])),
      rw
          (
            p,
            e32,
            ihex_write_short 5 0 e_entry 4 none (omega arith),
            ihex_write_short 1 0 0 0 none (omega arith),
          )
          refl,
      (
        record sc' { ended = true },
        run (l5 ∷ l1 ∷ []) ∙ start_lem sc e_entry (l1 ∷ []) going low ∙ end_lem sc' going,
        segments_entry sc.image e_entry ∙ view ∙ ap (write_all scns) none_yet,
        refl,
      ),
    )
