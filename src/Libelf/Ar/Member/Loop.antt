-- ===== src/Libelf/Ar/Member/Loop.antt =====
-- The loop of a client of an archive: open a member, move on by elf_next, until no member is left.
use elftoolchain.Base.{
  ℕ, zero, suc, ◌+◌, ◌*◌, ◌^◌, ◌≤◌, ◌<◌, ◌≡◌, refl, ap, ◌⊎◌, inl, inr, Option, none, some, Bytes,
  ◌>>=◌, length, List, [], ◌∷◌, arith, Option-cases,
}
use elftoolchain.Libelf.Ar.Outcome.{Outcome, ok, err, undefined}
use elftoolchain.Libelf.Ar.Open.{Archive, ar_open}
use elftoolchain.Libelf.Ar.Open.Regions.{ar_open-IsOpened}
use elftoolchain.Libelf.Ar.Member.{Member, open_member, elf_next}
use elftoolchain.Libelf.Ar.Member.Walk.{
  elf_next-open_member, open_member-behind, open_member-header, elf_next-rawfile,
}

-- The member that was opened, if one was.
unfoldable pub member_opened : Outcome (Option Member × Archive) → Option (Member × Archive)
member_opened (ok (some e, b)) = some (e, b)
member_opened (ok (none, b)) = none
member_opened (err x) = none
member_opened undefined = none

member_opened-some :
    (o : Outcome (Option Member × Archive)) (e : Member) (b : Archive)
    → member_opened o ≡ some (e, b)
    → o ≡ ok (some e, b)
unfolding member_opened
member_opened-some (ok (some x, c)) e b h = cc h
member_opened-some (ok (none, c)) e b h = cc h
member_opened-some (err x) e b h = cc h
member_opened-some undefined e b h = cc h

-- The members in order; `none` when the fuel runs out. The loop ends where no member is opened.
unfoldable pub walk : ℕ → Archive → Option (List Member)
walk zero a = none
walk (suc n) a = elim (member_opened (open_member a)) [
  | none ↦ some []
  | some (e, b) ↦ walk n (elf_next e b).1 >>= λ es. some (e ∷ es)
]

-- Each member takes a header of the file.
abbrev pub Fits : Archive → List Member → Type 0
Fits a es = (es ≡ []) ⊎ ((1 ≤ a.next) × (a.next + 60 * length es ≤ length a.rawfile))

walk-step :
    (n : ℕ) (a : Archive) (e : Member) (b : Archive) (es : List Member)
    → member_opened (open_member a) ≡ some (e, b)
    → walk n (elf_next e b).1 ≡ some es
    → walk (suc n) a ≡ some (e ∷ es)
unfolding walk
walk-step n a e b es h w = rw (h, walk) (rw (w) refl)

walk-end : (n : ℕ) (a : Archive) → member_opened (open_member a) ≡ none → walk (suc n) a ≡ some []
unfolding walk
walk-end n a h = rw (h, walk) refl

Fits-step :
    (a b : Archive) (e : Member) (es : List Member)
    → 1 ≤ a.next
    → a.next + 60 ≤ length a.rawfile
    → b.rawfile ≡ a.rawfile
    → (b.next ≡ 0) ⊎ (a.next + 60 ≤ b.next)
    → Fits b es
    → Fits a (e ∷ es)
Fits-step a b e es behind header same step (inl empty) =
    inr (behind, rw empty (omega (arith, header)))
Fits-step a b e es behind header same step (inr (behind', fits)) =
    inr (behind, omega (arith, step_on, ap length same))
  where
    step_on : a.next + 60 ≤ b.next
    step_on = ground arith

walk-total :
    (n : ℕ) (a : Archive)
    → length a.rawfile < 2 ^ 63
    → 1 ≤ n
    → (a.next ≡ 0) ⊎ (length a.rawfile < a.next + n)
    → (es : List Member) × (walk n a ≡ some es) × Fits a es
walk-total zero a small some_fuel enough = absurd (omega (arith, some_fuel))
walk-total (suc n) a small some_fuel enough = elim (Option-cases (member_opened (open_member a))) [
  | inl h ↦ ([], walk-end n a h, inl refl)
  | inr ((e, b), h) ↦
      let o = member_opened-some (open_member a) e b h in
      let step = elf_next-open_member a e b o small in
      let same = elf_next-rawfile a e b o in
      let header = open_member-header a e b o in
      let behind = open_member-behind a e b o in
      let (es, w, fits) =
        walk-total n (elf_next e b).1 (rw same small) (omega arith) (ground arith) in
      (
        e ∷ es,
        walk-step n a e b es h w,
        Fits-step a (elf_next e b).1 e es behind header same (ground arith) fits,
      )
]

Fits-length :
    (a : Archive) (es : List Member)
    → Fits a es
    → (length es ≡ 0) ⊎ (a.next + 60 * length es ≤ length a.rawfile)
Fits-length a es (inl empty) = inl (ap (λ s. length s) empty)
Fits-length a es (inr (behind, fits)) = inr fits

-- From `_libelf_ar_open` of a file below 2 ^ 63 bytes on, the loop that opens a member and moves on
-- by `elf_next` ends after as many rounds as the file has bytes; sixty bytes for each member that
-- was opened, and the eight in front, fit in the file.
pub walk-ar_open :
    (f : Bytes) (a : Archive)
    → ar_open f ≡ some a
    → length f < 2 ^ 63
    → (es : List Member) × (walk (length f) a ≡ some es) × (60 * length es + 8 ≤ length f)
walk-ar_open f a h small =
    let o = ar_open-IsOpened f h in
    let same : length a.rawfile ≡ length f = ap (λ s. length s) o.same in
    let (es, w, fits) =
      walk-total (length f) a (omega (arith, small, same)) (omega (arith, o.header))
        (inr (omega (arith, o.behind, same))) in
    (es, w, room (Fits-length a es fits))
  where
    room : {n : ℕ} → (n ≡ 0) ⊎ (a.next + 60 * n ≤ length a.rawfile) → 60 * n + 8 ≤ length f
    room (inl empty) = omega (arith, empty, (ar_open-IsOpened f h).header)
    room (inr fits) =
        omega (
          arith,
          fits,
          (ar_open-IsOpened f h).behind,
          ap (λ s. length s) (ar_open-IsOpened f h).same,
        )
