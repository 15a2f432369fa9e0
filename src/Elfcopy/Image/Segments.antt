-- ===== src/Elfcopy/Image/Segments.antt =====
-- The contents of an object as addresses and bytes.
use elftoolchain.Base.{
  ℕ, ◌+◌, ◌≡◌, refl, ap, sym, ◌∙◌, inl, inr, Bool, true, false, List, [], ◌∷◌, ◌++◌, Bytes, ◌==◌,
  if◌then◌else◌, Bool-cases, ==_iff, ==_self, length, length-append, append_assoc, arith,
}

-- An address and the bytes from there on.
abbrev pub Segment : Type 0
Segment = ℕ × Bytes

-- Data behind the latest segment extend it; other data begin a new one.
abbrev pub add_segment : ℕ → Bytes → List Segment → List Segment
add_segment addr bytes [] = (addr, bytes) ∷ []
add_segment addr bytes ((a, b) ∷ l) =
    if a + length b == addr then (a, b ++ bytes) ∷ l else (addr, bytes) ∷ (a, b) ∷ l

abbrev pub total : List Segment → ℕ
total [] = 0
total ((a, b) ∷ l) = length b + total l

pub add_beside :
    (addr a : ℕ) (bytes old : Bytes) (l : List Segment)
    → (a + length old == addr) ≡ false
    → (addr, bytes) ∷ (a, old) ∷ l ≡ add_segment addr bytes ((a, old) ∷ l)
add_beside addr a bytes old l e =
    sym (ap (λ (x : Bool). if x then (a, old ++ bytes) ∷ l else (addr, bytes) ∷ (a, old) ∷ l) e)

pub add_behind :
    (addr a : ℕ) (bytes old : Bytes) (l : List Segment)
    → (a + length old == addr) ≡ true
    → (a, old ++ bytes) ∷ l ≡ add_segment addr bytes ((a, old) ∷ l)
add_behind addr a bytes old l e =
    sym (ap (λ (x : Bool). if x then (a, old ++ bytes) ∷ l else (addr, bytes) ∷ (a, old) ∷ l) e)

-- Data that follow data.
pub add_segment_twice :
    (addr : ℕ) (b c : Bytes) (l : List Segment)
    → add_segment (addr + length b) c (add_segment addr b l) ≡ add_segment addr (b ++ c) l
add_segment_twice addr b c [] =
    sym (add_behind (addr + length b) addr c b [] (==_self (addr + length b)))
add_segment_twice addr b c ((a, old) ∷ l) = elim (Bool-cases (a + length old == addr)) [
  | inl behind ↦
      let e : addr + length b ≡ a + length (old ++ b) =
        omega (arith, length-append old b, (==_iff (a + length old) addr).0 behind) in
      ap (add_segment (addr + length b) c) (sym (add_behind addr a b old l behind))
      ∙ sym (
          add_behind (addr + length b) a c (old ++ b) l
            (ap (λ (x : ℕ). a + length (old ++ b) == x) e ∙ ==_self (a + length (old ++ b))))
      ∙ ap (λ (x : Bytes). (a, x) ∷ l) (append_assoc old b c)
      ∙ add_behind addr a (b ++ c) old l behind
  | inr beside ↦
      ap (add_segment (addr + length b) c) (sym (add_beside addr a b old l beside))
      ∙ sym (add_behind (addr + length b) addr c b ((a, old) ∷ l) (==_self (addr + length b)))
      ∙ add_beside addr a (b ++ c) old l beside
]

pub total-add_segment :
    (addr : ℕ) (b : Bytes) (l : List Segment) → total (add_segment addr b l) ≡ length b + total l
total-add_segment addr b [] = refl
total-add_segment addr b ((a, old) ∷ l) = elim (Bool-cases (a + length old == addr)) [
  | inl behind ↦
      ap total (sym (add_behind addr a b old l behind)) ∙ omega (arith, length-append old b)
  | inr beside ↦ ap total (sym (add_beside addr a b old l beside)) ∙ omega arith
]
