-- ===== src/Elfcopy/Ihex/Load/Pieces.antt =====
-- The records of ihex_write_00 are loaded as one piece of data.
use elftoolchain.Base.{
  when_true, when_false, ℕ, zero, suc, ◌+◌, ◌*◌, ◌/◌, ◌%◌, ◌^◌, ◌≤◌, ◌<◌, ◌≡◌, refl, ap, sym, ◌∙◌,
  inl, inr, true, false, Bool-cases, ==_iff, Option, none, some, List, [], ◌∷◌, ◌++◌, append_assoc,
  Bytes, ltb, leb, ◌==◌, length, take, drop, All, IsByte, arith,
}
use native.Mathlib.Nat.{mod-eq_of_lt}
use native.Mathlib.Decide.{dec_lt}
use elftoolchain.Elfcopy.Record.{Conversion, ok}
use elftoolchain.Elfcopy.Ihex.{
  ihex_line, ihex_write, ihex_write_04, high, high_record, ihex_write_last, ihex_write_loop,
  ihex_write_00,
}
use elftoolchain.Elfcopy.Ihex.Load.{Scan, scan}
use elftoolchain.Elfcopy.Ihex.Load.Step.{IsScan, IsLoaded, high_scan, chunk}
use elftoolchain.Elfcopy.Image.{Image}
use elftoolchain.Elfcopy.Image.View.{segments, IsImage}
use elftoolchain.Elfcopy.Image.Pieces.{
  split, split_bytes, add_bytes, add_bytes_some, add_bytes_rest,
}
use elftoolchain.Elfcopy.Image.Segments.{Segment, add_segment, total, total-add_segment}

pub ihex_write_short :
    (kind addr num sz : ℕ) (buf : Option Bytes)
    → sz ≤ 16
    → ihex_write kind addr num buf sz ≡ ok (ihex_line kind addr num buf sz)
unfolding ihex_write
ihex_write_short kind addr num sz buf short = let e : ltb 16 sz ≡ false = ground arith in rw e refl

-- A data record of any data.
piece :
    (sc : Scan) (addr n : ℕ) (c : Bytes)
    → IsScan sc (addr / 2 ^ 16)
    → addr < 2 ^ 32
    → All IsByte c
    → 0 < length c
    → n ≡ length c
    → n ≤ 16
    → total (segments sc.image) + length c ≤ 2 ^ 62
    → (img : Image) × (ihex_write 0 addr 0 (some c) n ≡ ok (ihex_line 0 addr 0 (some c) n))
      × ((more : List Bytes)
          → scan sc (ihex_line 0 addr 0 (some c) n ∷ more) ≡ scan (record sc { image = img }) more)
      × IsImage img
      × (segments img ≡ add_segment addr c (segments sc.image))
      × (img.entry ≡ sc.image.entry)
piece sc addr n [] start low small some_data size short room = ground (arith, some_data)
piece sc addr n (b ∷ buf) start low small some_data size short room =
    let (img, run, wf, view, entry) =
      chunk sc addr b buf start low small (omega (arith, size)) room in
    (
      img,
      ihex_write_short 0 addr 0 n (some (b ∷ buf)) short,
      (λ more.
          ap (λ (x : ℕ). scan sc (ihex_line 0 addr 0 (some (b ∷ buf)) x ∷ more)) size ∙ run more),
      wf,
      view,
      entry,
    )

-- The base moves on to the next address.
high_lem :
    (sc : Scan) (hi next : ℕ)
    → IsScan sc hi
    → next < 2 ^ 32
    → (lines : List Bytes) × (high_record (high next) hi ≡ ok lines)
      × ((more : List Bytes)
          → scan sc (lines ++ more) ≡ scan (record sc { addr_base = next / 2 ^ 16 * 2 ^ 16 }) more)
unfolding high_record ihex_write_04
high_lem sc hi next (going, wf, base) low =
    let same : high next ≡ next / 2 ^ 16 = omega arith in
    elim (Bool-cases (high next == hi)) [
      | inl e ↦
          let at : sc.addr_base ≡ next / 2 ^ 16 * 2 ^ 16 =
            omega (arith, base, same, (==_iff (high next) hi).0 e) in
          ([], rw e refl, (λ more. ap (λ (x : ℕ). scan (record sc { addr_base = x }) more) at))
      | inr e ↦ (
        ihex_line 4 0 (high next) none 2 ∷ [],
        rw (e, ihex_write_short 4 0 (high next) 2 none (omega arith)) refl,
        (λ more.
            high_scan sc (high next) more going (omega arith)
            ∙ ap (λ (x : ℕ). scan (record sc { addr_base = x * 2 ^ 16 }) more) same),
      )
    ]

abbrev pub IsWritten : Scan → Conversion (List Bytes) → List Segment → ℕ → ℕ → Type 0
IsWritten sc r l hi top = (lines : List Bytes) × (r ≡ ok lines) × IsLoaded sc lines l hi top

last_lem :
    (sc : Scan) (addr : ℕ) (buf : Bytes)
    → IsScan sc (addr / 2 ^ 16)
    → length buf ≤ 16
    → addr + length buf < 2 ^ 32
    → All IsByte buf
    → total (segments sc.image) + length buf ≤ 2 ^ 62
    → IsWritten sc
        (ihex_write_last addr buf)
        (add_bytes addr buf (segments sc.image))
        (addr / 2 ^ 16)
        (addr + length buf)
unfolding ihex_write_last
last_lem sc addr [] start short low small room =
    ([], refl, (sc, (λ more. refl), (addr / 2 ^ 16, start, omega arith, omega arith), refl, refl))
last_lem sc addr (b ∷ buf) start short low small room =
    let n = length (b ∷ buf) in
    let (img, p, run, wf, view, entry) =
      piece sc addr n (b ∷ buf) start (omega arith) small (omega arith) refl short room in
    (
      ihex_line 0 addr 0 (some (b ∷ buf)) n ∷ [],
      rw p refl,
      (
        record sc { image = img },
        run,
        (addr / 2 ^ 16, (start.0, wf, start.2), omega arith, omega arith),
        view,
        entry,
      ),
    )

loop_lem :
    (n : ℕ) (sc : Scan) (addr : ℕ) (buf : Bytes)
    → IsScan sc (addr / 2 ^ 16)
    → length buf < n
    → addr + length buf < 2 ^ 32
    → All IsByte buf
    → total (segments sc.image) + length buf ≤ 2 ^ 62
    → IsWritten sc
        (ihex_write_loop n (addr / 2 ^ 16) addr buf)
        (add_bytes addr buf (segments sc.image))
        (addr / 2 ^ 16)
        (addr + length buf)
unfolding ihex_write_loop
loop_lem zero sc addr buf start fuel low small room = ground (arith, fuel)
loop_lem (suc n) sc addr buf start fuel low small room = elim (dec_lt (length buf) 16) [
  | yes less ↦
      let e : leb 16 (length buf) ≡ false = ground arith in
      let (lines, p, h) = last_lem sc addr buf start (omega arith) low small room in
      (lines, when_false _ _ e ∙ p, h)
  | no enough ↦
      let (len, rest_len, whole) = split 16 buf (omega arith) in
      let (small', rest_small) = split_bytes 16 buf small in
      let c = take 16 buf in
      let rest = drop 16 buf in
      let next = addr + 16 in
      let e : leb 16 (length buf) ≡ true = ground arith in
      let at : next % 2 ^ 64 ≡ next = mod-eq_of_lt (omega arith) in
      let up : high next ≡ next / 2 ^ 16 = omega arith in
      let (img, p, run, wf, view, entry) =
        piece sc addr 16 c start (omega arith) small' (omega (arith, len)) (sym len) (omega arith)
          (omega (arith, len, room)) in
      let sc1 = record sc { image = img } in
      let (hi, p1, run1) = high_lem sc1 (addr / 2 ^ 16) next (start.0, wf, start.2) (omega arith) in
      let sc2 = record sc1 { addr_base = next / 2 ^ 16 * 2 ^ 16 } in
      let room' : total (segments img) + length rest ≤ 2 ^ 62 =
        omega (
          arith,
          ap total view,
          total-add_segment addr c (segments sc.image),
          len,
          rest_len,
          room,
        ) in
      let (lines, p2, (sc', run2, (hi', good, above, below), view2, entry2)) =
        loop_lem n sc2 next rest (start.0, wf, refl) (omega (arith, rest_len))
          (omega (arith, rest_len)) rest_small room' in
      let onward : ihex_write_loop n (high (next % 2 ^ 64)) (next % 2 ^ 64) rest ≡ ok lines =
        ap (λ (x : ℕ). ihex_write_loop n (high x) x rest) at
        ∙ ap (λ (x : ℕ). ihex_write_loop n x next rest) up
        ∙ p2 in
      let hi_on : high_record (high (next % 2 ^ 64)) (addr / 2 ^ 16) ≡ ok hi =
        ap (λ (x : ℕ). high_record (high x) (addr / 2 ^ 16)) at ∙ p1 in
      let joined : add_bytes next rest (segments img) ≡ add_bytes addr buf (segments sc.image) =
        ap (λ (x : ℕ). add_bytes (addr + x) rest (segments img)) (sym len)
        ∙ ap (add_bytes (addr + length c) rest) view
        ∙ add_bytes_rest addr c rest (segments sc.image)
        ∙ ap (λ (x : Bytes). add_segment addr x (segments sc.image)) whole
        ∙ sym (add_bytes_some addr buf (segments sc.image) (omega arith)) in
      (
        ihex_line 0 addr 0 (some c) 16 ∷ (hi ++ lines),
        when_true _ _ e ∙ rw (p, hi_on, onward) refl,
        (
          sc',
          (λ more.
              run ((hi ++ lines) ++ more)
              ∙ ap (λ (x : List Bytes). scan sc1 x) (append_assoc hi lines more)
              ∙ run1 (lines ++ more)
              ∙ run2 more),
          (hi', good, omega (arith, above), omega (arith, below, rest_len)),
          view2 ∙ joined,
          entry2 ∙ entry,
        ),
      )
]

-- The fuel is enough, and the lines load as the data.
pub ihex_write_00-IsLoaded :
    (sc : Scan) (addr : ℕ) (buf : Bytes)
    → IsScan sc (addr / 2 ^ 16)
    → addr + length buf < 2 ^ 32
    → All IsByte buf
    → total (segments sc.image) + length buf ≤ 2 ^ 62
    → IsWritten sc
        (ihex_write_00 addr buf)
        (add_bytes addr buf (segments sc.image))
        (addr / 2 ^ 16)
        (addr + length buf)
unfolding ihex_write_00
ihex_write_00-IsLoaded sc addr buf start low small room =
    let same : high addr ≡ addr / 2 ^ 16 = omega arith in
    let (lines, p, h) =
      loop_lem (suc (length buf)) sc addr buf start (omega arith) low small room in
    (lines, ap (λ (x : ℕ). ihex_write_loop (suc (length buf)) x addr buf) same ∙ p, h)
