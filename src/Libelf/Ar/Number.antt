-- ===== src/Libelf/Ar/Number.antt =====
-- _libelf_ar_get_number of libelf/libelf_ar_util.c: the numbers of a header's fields.
pub mod Laws
mod Tests
use elftoolchain.Base.{
  ℕ, ◌+◌, ◌-◌, ◌*◌, ◌%◌, ◌^◌, Option, none, some, [], ◌∷◌, ◌||◌, Bytes, ltb, leb, ◌==◌,
  if◌then◌else◌,
}

-- The loop over the digits; `none` is the return of 0.
digits : ℕ → Bytes → ℕ → Option ℕ
digits base [] r = some r
digits base (c ∷ s) r =
    if c == b' '
    then some r
    else if ltb c b'0' || ltb b'9' c
    then none
    else if leb base (c - b'0')
    then none
    else digits base s ((r * base + (c - b'0')) % 2 ^ 64)

-- The field without its leading blanks.
skip_blanks : Bytes → Bytes
skip_blanks [] = []
skip_blanks (c ∷ s) = if c == b' ' then skip_blanks s else c ∷ s

unfoldable pub get_number : Bytes → ℕ → Option ℕ
unfolding digits skip_blanks
get_number s base = digits base (skip_blanks s) 0
