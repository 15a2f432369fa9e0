-- ===== src/Elfcopy/Srec/Load/Pieces.antt =====
-- The records of srec_write_Sd are loaded as one piece of data.
use elftoolchain.Base.{
  when_true, when_false, ℕ, zero, suc, ◌+◌, ◌%◌, ◌^◌, ◌≤◌, ◌<◌, ◌≡◌, refl, ap, sym, ◌∙◌, Bool, true,
  false, List, [], ◌∷◌, Bytes, ltb, leb, if◌then◌else◌, length, take, drop, All, IsByte, arith,
}
use mathlib.Core.Path.{subst}
use native.Mathlib.Nat.{mod-eq_of_lt}
use native.Mathlib.Decide.{dec_lt}
use elftoolchain.Elfcopy.Record.{Conversion, ok, overflow, ◌>>=◌}
use elftoolchain.Elfcopy.Srec.{
  write_addr_sz, srec_line, srec_write, srec_write_last, at_least, srec_write_next, srec_write_loop,
  srec_write_Sd,
}
use elftoolchain.Elfcopy.Srec.Load.{Scan}
use elftoolchain.Elfcopy.Srec.Load.Step.{srec_write_fits}
use elftoolchain.Elfcopy.Srec.Load.Chunks.{IsScan, IsLoaded, IsDataKind, chunk, IsLoaded-append}
use elftoolchain.Elfcopy.Image.Pieces.{
  split, split_bytes, add_bytes, add_bytes_some, add_bytes_rest,
}
use elftoolchain.Elfcopy.Image.View.{segments}
use elftoolchain.Elfcopy.Image.Segments.{Segment, add_segment, total, total-add_segment}

write_addr_sz_data : (dr : ℕ) → IsDataKind dr → 256 ^ write_addr_sz dr ≤ 2 ^ 32
unfolding write_addr_sz
write_addr_sz_data dr known = ground (arith, known)

at_least_lem : (n rlen : ℕ) → rlen < 2 ^ 31 → at_least n rlen ≡ leb rlen n
unfolding at_least
at_least_lem n rlen small = ground arith

next_lem :
    (dr addr rlen : ℕ) (buf : Bytes)
    → rlen ≤ length buf
    → length (take rlen buf) ≤ 255
    → srec_write_next dr addr buf rlen ≡ ok (srec_line dr addr (take rlen buf))
unfolding srec_write_next
next_lem dr addr rlen buf enough short =
    let e : ltb (length buf) rlen ≡ false = ground arith in
    ap (λ (x : Bool). if x then overflow else srec_write dr addr (take rlen buf)) e
    ∙ srec_write_fits dr addr (take rlen buf) short

-- The lines exist, and load as the data at `addr`.
abbrev pub IsWritten : Scan → Conversion (List Bytes) → List Segment → Type 0
IsWritten sc r l = (lines : List Bytes) × (r ≡ ok lines) × IsLoaded sc lines l

last_lem :
    (sc : Scan) (dr addr : ℕ) (buf : Bytes)
    → IsScan sc
    → IsDataKind dr
    → write_addr_sz dr + length buf + 1 < 256
    → addr + length buf ≤ 256 ^ write_addr_sz dr
    → All IsByte buf
    → total (segments sc.image) + length buf ≤ 2 ^ 62
    → IsWritten sc (srec_write_last dr addr buf) (add_bytes addr buf (segments sc.image))
unfolding srec_write_last
last_lem sc dr addr [] start known short low small room =
    ([], refl, (sc, (λ more. refl), start, refl, refl))
last_lem sc dr addr (b ∷ buf) start known short low small room =
    let low' : addr < 256 ^ write_addr_sz dr = omega (arith, low) in
    (
      srec_line dr addr (b ∷ buf) ∷ [],
      ap (λ (x : Conversion Bytes). x >>= λ line. ok (line ∷ []))
          (srec_write_fits dr addr (b ∷ buf) (omega (arith, short))),
      chunk sc dr addr (b ∷ buf) start known low' (omega (arith, low', write_addr_sz_data dr known))
          small (omega arith) short room,
    )

loop_lem :
    (n : ℕ) (sc : Scan) (dr addr rlen : ℕ) (buf : Bytes)
    → IsScan sc
    → IsDataKind dr
    → 1 ≤ rlen
    → write_addr_sz dr + rlen + 1 < 256
    → length buf < n
    → addr + length buf ≤ 256 ^ write_addr_sz dr
    → All IsByte buf
    → total (segments sc.image) + length buf ≤ 2 ^ 62
    → IsWritten sc (srec_write_loop n dr addr buf rlen) (add_bytes addr buf (segments sc.image))
unfolding srec_write_loop
loop_lem zero sc dr addr rlen buf start known pos short fuel low small room = ground (arith, fuel)
loop_lem (suc n) sc dr addr rlen buf start known pos short fuel low small room =
    elim (dec_lt (length buf) rlen) [
      | yes less ↦
          let e : at_least (length buf) rlen ≡ false =
            at_least_lem (length buf) rlen (omega arith) ∙ ground arith in
          let (lines, p, h) = last_lem sc dr addr buf start known (omega arith) low small room in
          (lines, when_false _ _ e ∙ p, h)
      | no enough ↦
          let (len, rest_len, whole) = split rlen buf (omega arith) in
          let (small', rest_small) = split_bytes rlen buf small in
          let c = take rlen buf in
          let rest = drop rlen buf in
          let e : at_least (length buf) rlen ≡ true =
            at_least_lem (length buf) rlen (omega arith) ∙ ground arith in
          let low' : addr < 256 ^ write_addr_sz dr = omega (arith, low) in
          let below = write_addr_sz_data dr known in
          let first : IsLoaded sc (srec_line dr addr c ∷ [])
              (add_segment addr c (segments sc.image)) =
            chunk sc dr addr c start known low' (omega (arith, low', below)) small'
              (omega (arith, len)) (omega (arith, len)) (omega (arith, len, room)) in
          let sc' = first.0 in
          let room' : total (segments sc'.image) + length rest ≤ 2 ^ 62 = omega (
            arith,
            ap total first.3,
            total-add_segment addr c (segments sc.image),
            len,
            rest_len,
            room,
          ) in
          let at : (addr + rlen) % 2 ^ 64 ≡ addr + length c =
            mod-eq_of_lt (omega (arith, low, below)) ∙ omega (arith, len) in
          let (lines, p, h) =
            loop_lem n sc' dr (addr + length c) rlen rest first.2 known pos short
              (omega (arith, rest_len)) (omega (arith, len, rest_len, low)) rest_small room' in
          let onward : srec_write_loop n dr ((addr + rlen) % 2 ^ 64) rest rlen ≡ ok lines =
            ap (λ (x : ℕ). srec_write_loop n dr x rest rlen) at ∙ p in
          let view : add_bytes (addr + length c) rest (segments sc'.image)
              ≡ add_bytes addr buf (segments sc.image) =
            ap (add_bytes (addr + length c) rest) first.3
            ∙ add_bytes_rest addr c rest (segments sc.image)
            ∙ ap (λ (x : Bytes). add_segment addr x (segments sc.image)) whole
            ∙ sym (add_bytes_some addr buf (segments sc.image) (omega arith)) in
          (
            srec_line dr addr c ∷ lines,
            when_true _ _ e
                ∙ rw (next_lem dr addr rlen buf (omega arith) (omega (arith, len)), onward) refl,
            subst (IsLoaded sc (srec_line dr addr c ∷ lines)) view (
                IsLoaded-append sc (srec_line dr addr c ∷ []) lines
                  (add_segment addr c (segments sc.image))
                  (add_bytes (addr + length c) rest (segments sc'.image)) first h),
          )
    ]

-- For a record length from 1 on that keeps the count below 256, and bytes that end within the
-- addresses of the type, the fuel of `srec_write_Sd` is enough, and its lines take the loop of
-- `create_elf_from_srec` from any state between two records to one in which the segments have the
-- bytes at the address and the entry point is the same.
pub srec_write_Sd-IsLoaded :
    (sc : Scan) (dr addr rlen : ℕ) (buf : Bytes)
    → IsScan sc
    → IsDataKind dr
    → 1 ≤ rlen
    → write_addr_sz dr + rlen + 1 < 256
    → addr + length buf ≤ 256 ^ write_addr_sz dr
    → All IsByte buf
    → total (segments sc.image) + length buf ≤ 2 ^ 62
    → IsWritten sc (srec_write_Sd dr addr buf rlen) (add_bytes addr buf (segments sc.image))
unfolding srec_write_Sd
srec_write_Sd-IsLoaded sc dr addr rlen buf start known pos short low small room =
    loop_lem (suc (length buf)) sc dr addr rlen buf start known pos short (omega arith) low small
      room
