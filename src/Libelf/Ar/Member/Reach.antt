-- ===== src/Libelf/Ar/Member/Reach.antt =====
-- The states of an archive descriptor, over the calls that change it.
use elftoolchain.Base.{ℕ, ◌%◌, ◌≡◌, ap, ◌∙◌, some, Bytes, arith}
use elftoolchain.Libelf.Ar.Outcome.{ok}
use elftoolchain.Libelf.Ar.Open.{Archive, ar_open}
use elftoolchain.Libelf.Ar.Open.Regions.{ar_open-IsOpened}
use elftoolchain.Libelf.Ar.Member.{Member, open_member, elf_next, next_offset, elf_rand}
use elftoolchain.Libelf.Ar.Member.Walk.{open_member-Opened}

-- A call on the descriptor of an archive. elf_next may get any member, in any order.
pub data Step : Archive → Archive → Type 0 where
  opens : {a b : Archive} (e : Member) → open_member a ≡ ok (some e, b) → Step a b
  moves : {a : Archive} (e : Member) → Step a (elf_next e a).1
  jumps : {a : Archive} (offset : ℕ) → Step a (elf_rand a offset).1

-- The states reached from the opened file `f`.
pub data Reachable (f : Bytes) : Archive → Type 0 where
  opened : {a : Archive} → ar_open f ≡ some a → Reachable f a
  step : {a b : Archive} → Reachable f a → Step a b → Reachable f b

-- What no call changes, and what the assert() in _libelf_ar_open_member wants of e_next.
pub record IsSound (f : Bytes) (a : Archive) : Type 0 where
  pub same : a.rawfile ≡ f
  pub even : a.next % 2 ≡ 0

elf_next-even : (e : Member) (a : Archive) → (elf_next e a).1.next % 2 ≡ 0
unfolding elf_next next_offset
elf_next-even e a = ground arith

elf_rand-even : (a : Archive) (offset : ℕ) → a.next % 2 ≡ 0 → (elf_rand a offset).1.next % 2 ≡ 0
unfolding elf_rand
elf_rand-even a offset even = ground arith

elf_rand-rawfile : (a : Archive) (offset : ℕ) → (elf_rand a offset).1.rawfile ≡ a.rawfile
unfolding elf_rand
elf_rand-rawfile a offset = ground arith

Step-IsSound : (f : Bytes) {a b : Archive} → Step a b → IsSound f a → IsSound f b
unfolding elf_next
Step-IsSound f (opens {a} {b} e h) s =
    let o = open_member-Opened a e b h in
    record {
      same = ap (λ (c : Archive). c.rawfile) o.counted ∙ s.same;
      even = ap (λ (c : Archive). c.next % 2) o.counted ∙ s.even;
    }
Step-IsSound f (moves {a} e) s = record { same = s.same; even = elf_next-even e a }
Step-IsSound f (jumps {a} offset) s = record {
  same = elf_rand-rawfile a offset ∙ s.same;
  even = elf_rand-even a offset s.even;
}

-- Over every sequence of opened members, calls of `elf_next` with any member and calls of
-- `elf_rand` with any offset, from `_libelf_ar_open` on, the file is the one that was opened and
-- `e_next` is even, as the assert() in `_libelf_ar_open_member` wants.
pub Reachable-IsSound : (f : Bytes) {a : Archive} → Reachable f a → IsSound f a
Reachable-IsSound f (opened h) =
    let o = ar_open-IsOpened f h in record { same = o.same; even = o.even }
Reachable-IsSound f (step r s) = Step-IsSound f s (Reachable-IsSound f r)
