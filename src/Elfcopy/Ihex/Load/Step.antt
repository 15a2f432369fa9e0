-- ===== src/Elfcopy/Ihex/Load/Step.antt =====
-- The loop on a line that ihex_write wrote.
use elftoolchain.Base.{
  when_false, ℕ, ◌+◌, ◌*◌, ◌/◌, ◌%◌, ◌^◌, ◌≤◌, ◌<◌, ◌≡◌, inl, inr, refl, ap, ◌∙◌, false, none, some,
  List, ◌∷◌, ◌++◌, Bytes, length, All, IsByte, arith,
}
use elftoolchain.Elfcopy.Record.{Conversion, ok, ◌>>=◌, char_at}
use elftoolchain.Elfcopy.Ihex.{Ihex, ihex_read, ihex_line}
use elftoolchain.Elfcopy.Ihex.RoundTrip.{ihex_read-data, ihex_read-number}
use elftoolchain.Elfcopy.Ihex.Load.{Scan, ihex_record, if_read, scan_line, scan}
use elftoolchain.Elfcopy.Image.{Image, add_data}
use elftoolchain.Elfcopy.Image.View.{segments, IsImage, add_data_lem}
use elftoolchain.Elfcopy.Image.Segments.{Segment, add_segment, total}

-- The state of the loop between two records, for the upper half `hi` of the addresses.
abbrev pub IsScan : Scan → ℕ → Type 0
IsScan sc hi = (sc.ended ≡ false) × IsImage sc.image × (sc.addr_base ≡ hi * 2 ^ 16)

-- The lines take the loop from `sc` to a state with the segments `l` and the same entry point, and
-- with an upper half from `hi` on of an address up to `top`.
abbrev pub IsLoaded : Scan → List Bytes → List Segment → ℕ → ℕ → Type 0
IsLoaded sc lines l hi top =
    (sc' : Scan) × ((more : List Bytes) → scan sc (lines ++ more) ≡ scan sc' more)
    × ((hi' : ℕ) × IsScan sc' hi' × (hi ≤ hi') × (hi' * 2 ^ 16 ≤ top))
    × (segments sc'.image ≡ l)
    × (sc'.image.entry ≡ sc.image.entry)

-- The record of a line has its effect.
pub scan_record :
    (sc sc' : Scan) (line : Bytes) (r : Ihex) (more : List Bytes)
    → sc.ended ≡ false
    → char_at line 0 ≡ b':'
    → ihex_read line ≡ ok r
    → ihex_record sc r ≡ ok sc'
    → scan sc (line ∷ more) ≡ scan sc' more
unfolding scan scan_line if_read
scan_record sc sc' line r more going colon read effect =
    when_false _ _ going ∙ rw (colon, read, effect) refl

pub high_scan :
    (sc : Scan) (hi : ℕ) (more : List Bytes)
    → sc.ended ≡ false
    → hi < 2 ^ 16
    → scan sc (ihex_line 4 0 hi none 2 ∷ more) ≡ scan (record sc { addr_base = hi * 2 ^ 16 }) more
unfolding char_at ihex_record ihex_line
high_scan sc hi more going low =
    let e : hi % 256 ^ 2 * 2 ^ 16 % 2 ^ 64 ≡ hi * 2 ^ 16 = omega arith in
    scan_record sc (record sc { addr_base = hi * 2 ^ 16 }) (ihex_line 4 0 hi none 2) _ more going
      refl (ihex_read-number 4 0 hi 2 (inr (inl (refl, refl))))
      (ap (λ (x : ℕ). ok (record sc { addr_base = x })) e)

pub chunk :
    (sc : Scan) (addr b : ℕ) (buf : Bytes)
    → IsScan sc (addr / 2 ^ 16)
    → addr < 2 ^ 32
    → All IsByte (b ∷ buf)
    → length (b ∷ buf) < 256
    → total (segments sc.image) + length (b ∷ buf) ≤ 2 ^ 62
    → (img : Image) × ((more : List Bytes)
        → scan sc (ihex_line 0 addr 0 (some (b ∷ buf)) (length (b ∷ buf)) ∷ more)
          ≡ scan (record sc { image = img }) more)
      × IsImage img
      × (segments img ≡ add_segment addr (b ∷ buf) (segments sc.image))
      × (img.entry ≡ sc.image.entry)
unfolding char_at ihex_record ihex_line
chunk sc addr b buf (going, wf, base) low small short room =
    let (img, p, (wf', view, entry)) = add_data_lem sc.image addr b buf wf low room in
    let at : (sc.addr_base + addr % 2 ^ 16) % 2 ^ 64 ≡ addr = omega (arith, base) in
    (
      img,
      (λ more.
          scan_record sc (record sc { image = img })
            (ihex_line 0 addr 0 (some (b ∷ buf)) (length (b ∷ buf))) _ more going refl
            (ihex_read-data addr b buf small short)
            (ap (λ (x : ℕ). add_data sc.image x (b ∷ buf) >>= λ i. ok (record sc { image = i })) at
              ∙ ap (λ (x : Conversion Image). x >>= λ i. ok (record sc { image = i })) p)),
      wf',
      view,
      entry,
    )
