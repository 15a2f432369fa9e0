-- ===== src/Elfcopy/Image/View.antt =====
-- What the sections of an image are to a reader of the output: addresses and bytes.
use elftoolchain.Base.{
  ℕ, ◌+◌, ◌%◌, ◌^◌, ◌≤◌, ◌<◌, ◌≡◌, refl, ap, sym, ◌∙◌, inl, inr, true, false, ◌||◌, not, none, some,
  List, [], ◌∷◌, ◌++◌, map, Bytes, ◌==◌, if◌then◌else◌, Bool-cases, Bool, Option, length,
  length-append, arith,
}
use native.Mathlib.Nat.{mod-eq_of_lt}
use elftoolchain.Elfcopy.Record.{ok}
use elftoolchain.Elfcopy.Image.{
  Section, new_data_section, initial_buf, Image, empty_image, finalize, start_section, append_to,
  add_data,
}
use elftoolchain.Elfcopy.Image.Segments.{Segment, add_segment, total, add_beside, add_behind}
use elftoolchain.Elfcopy.Image.Append.{IsSection, append_data_first, append_data_lem}

unfoldable pub segment : Section → Segment
unfolding initial_buf
segment s = (s.vma, initial_buf s)

-- The segments, the latest first.
unfoldable pub segments : Image → List Segment
unfolding finalize
segments img = map segment (finalize img)

-- The image between two lines.
pub data IsImage (img : Image) : Type 0 where
  blank : img.first ≡ true → img.s ≡ none → img.done ≡ [] → IsImage img
  open_at :
      (s : Section) (b : Bytes)
      → img.first ≡ false
      → img.s ≡ some s
      → IsSection s
      → s.buf ≡ some b
      → img.sec_addr ≡ s.vma + length b
      → s.vma < 2 ^ 32
      → IsImage img

-- What add_data leaves of an image.
abbrev pub IsAdded : Image → ℕ → Bytes → Image → Type 0
IsAdded img addr bytes img' =
    IsImage img'
    × (segments img' ≡ add_segment addr bytes (segments img))
    × (img'.entry ≡ img.entry)

begin :
    (img : Image) (addr : ℕ) (bytes : Bytes)
    → addr < 2 ^ 32
    → length bytes ≤ 2 ^ 62
    → (img' : Image) × (append_to (start_section img addr) bytes ≡ ok img')
      × IsImage img'
      × (segments img' ≡ (addr, bytes) ∷ segments img)
      × (img'.entry ≡ img.entry)
unfolding append_to start_section new_data_section finalize initial_buf segments segment
begin img addr bytes low small =
    let (s, p, wf, buf, vma, off, index) =
      append_data_first img.sec_index img.off addr bytes small in
    let at : addr + length bytes < 2 ^ 64 = omega arith in
    (
      (record (start_section img addr) {
        s = some s;
        off = (img.off + length bytes) % 2 ^ 64;
        sec_addr = (addr + length bytes) % 2 ^ 64;
      }),
      rw p refl,
      open_at s bytes refl refl wf buf
          (mod-eq_of_lt at ∙ ap (λ (x : ℕ). x + length bytes) (sym vma)) (rw vma low),
      rw (vma, initial_buf, buf) refl,
      refl,
    )

extend :
    (img : Image) (s : Section) (old bytes : Bytes)
    → img.first ≡ false
    → img.s ≡ some s
    → IsSection s
    → s.buf ≡ some old
    → img.sec_addr ≡ s.vma + length old
    → s.vma < 2 ^ 32
    → length old + length bytes ≤ 2 ^ 62
    → (img' : Image) × (append_to img bytes ≡ ok img')
      × IsImage img'
      × (segments img' ≡ (s.vma, old ++ bytes) ∷ map segment img.done)
      × (img'.entry ≡ img.entry)
unfolding append_to finalize initial_buf segments segment
extend img s old bytes started e wf buf at low small =
    let (s', p, wf', buf', vma, off, index) = append_data_lem s old bytes wf buf small in
    let sum : (img.sec_addr + length bytes) % 2 ^ 64 ≡ s'.vma + length (old ++ bytes) =
      mod-eq_of_lt (omega arith) ∙ omega (arith, length-append old bytes, at, vma) in
    (
      record img {
        s = some s';
        off = (img.off + length bytes) % 2 ^ 64;
        sec_addr = (img.sec_addr + length bytes) % 2 ^ 64;
      },
      rw (e, p) refl,
      open_at s' (old ++ bytes) started refl wf' buf' sum (rw vma low),
      rw (vma, initial_buf, buf') refl,
      refl,
    )

begins :
    (img : Image) (addr b : ℕ) (bytes : Bytes)
    → (img.first || not (img.sec_addr == addr)) ≡ true
    → add_data img addr (b ∷ bytes) ≡ append_to (start_section img addr) (b ∷ bytes)
unfolding add_data
begins img addr b bytes e =
    ap
      (λ (x : Bool).
        if x then append_to (start_section img addr) (b ∷ bytes) else append_to img (b ∷ bytes))
      e

extends :
    (img : Image) (addr b : ℕ) (bytes : Bytes)
    → (img.first || not (img.sec_addr == addr)) ≡ false
    → add_data img addr (b ∷ bytes) ≡ append_to img (b ∷ bytes)
unfolding add_data
extends img addr b bytes e =
    ap
      (λ (x : Bool).
        if x then append_to (start_section img addr) (b ∷ bytes) else append_to img (b ∷ bytes))
      e

or_not : (x y : Bool) → x ≡ false → (x || not y) ≡ not y
or_not x y e = ap (λ (z : Bool). z || not y) e

segments_open :
    (img : Image) (s : Section) (old : Bytes)
    → img.s ≡ some s
    → s.buf ≡ some old
    → segments img ≡ (s.vma, old) ∷ map segment img.done
unfolding finalize initial_buf segments segment
segments_open img s old e buf = rw e (
    ap
      (λ (x : Option Bytes).
        (s.vma, elim x as (λ y. Bytes) [ none ↦ [] | some c ↦ c ]) ∷ map segment img.done)
      buf)

segments_blank : (img : Image) → img.s ≡ none → img.done ≡ [] → segments img ≡ []
unfolding finalize segments
segments_blank img e none_done = rw (e, none_done) refl

-- On an image as the loops leave it, a data record of at least a byte at an address below 2 ^ 32,
-- with room up to 2 ^ 62 bytes, is added: the segments of the sections are those of the abstract
-- contents with the data added, the image is again as the loops leave it, and the entry point is
-- the same.
pub add_data_lem :
    (img : Image) (addr b : ℕ) (bytes : Bytes)
    → IsImage img
    → addr < 2 ^ 32
    → total (segments img) + length (b ∷ bytes) ≤ 2 ^ 62
    → (img' : Image) × (add_data img addr (b ∷ bytes) ≡ ok img') × IsAdded img addr (b ∷ bytes) img'
add_data_lem img addr b bytes (blank e none_yet none_done) low small =
    let (img', p, wf, view, entry) = begin img addr (b ∷ bytes) low (omega arith) in
    let nothing : segments img ≡ [] = segments_blank img none_yet none_done in
    let new : (img.first || not (img.sec_addr == addr)) ≡ true =
      ap (λ (x : Bool). x || not (img.sec_addr == addr)) e in
    (img', begins img addr b bytes new ∙ p, (wf, view ∙ rw nothing refl, entry))
add_data_lem img addr b bytes (open_at s old started e wf buf at at_low) low small =
    let open_view = segments_open img s old e buf in
    let room : length old + length (b ∷ bytes) ≤ 2 ^ 62 = omega (arith, ap total open_view) in
    elim (Bool-cases (img.sec_addr == addr)) [
      | inl same ↦
          let (img', p, wf', view, entry) =
            extend img s old (b ∷ bytes) started e wf buf at at_low room in
          let old_one = or_not img.first (img.sec_addr == addr) started ∙ ap not same in
          (
            img',
            extends img addr b bytes old_one ∙ p,
            (
              wf',
              view
                  ∙ rw open_view (
                      add_behind addr s.vma (b ∷ bytes) old (map segment img.done)
                        (ap (λ (x : ℕ). x == addr) (sym at) ∙ same)),
              entry,
            ),
          )
      | inr differs ↦
          let (img', p, wf', view, entry) = begin img addr (b ∷ bytes) low (omega arith) in
          let new = or_not img.first (img.sec_addr == addr) started ∙ ap not differs in
          (
            img',
            begins img addr b bytes new ∙ p,
            (
              wf',
              view
                  ∙ rw open_view (
                      add_beside addr s.vma (b ∷ bytes) old (map segment img.done)
                        (ap (λ (x : ℕ). x == addr) (sym at) ∙ differs)),
              entry,
            ),
          )
    ]

pub empty_image-IsImage : (off : ℕ) → IsImage (empty_image off)
unfolding empty_image
empty_image-IsImage off = blank refl refl refl

pub segments-empty_image : (off : ℕ) → segments (empty_image off) ≡ []
unfolding empty_image finalize segments
segments-empty_image off = refl

pub segments_entry : (img : Image) (e : ℕ) → segments (record img { entry = e }) ≡ segments img
unfolding finalize segments
segments_entry img e = refl
