-- ===== src/Elfcopy/Record.antt =====
-- A line of a text format of elfcopy/ascii.c: how the reading or the writing of one ends, and the
-- bytes of a data record.
pub mod RoundTrip
pub mod Safe
use elftoolchain.Base.{
  ℕ, zero, suc, ◌+◌, ◌≡◌, ap, Bool, true, false, Option, none, some, [], ◌∷◌, Bytes, leb, get_elem?,
}
use elftoolchain.Elfcopy.Hex.{read_num}

-- A value; the return of -1; undefined behaviour, a write behind the end of a buffer; or a loop
-- that has used up its fuel.
pub data Conversion {ℓ} (A : Type ℓ) : Type ℓ where
  ok : A → Conversion A
  invalid : Conversion A
  overflow : Conversion A
  unfinished : Conversion A

infixl 5 ◌>>=◌
abbrev pub ◌>>=◌ {ℓ κ} :
    {A : Type ℓ} {B : Type κ} → Conversion A → (A → Conversion B) → Conversion B
ok a >>= f = f a
invalid >>= f = invalid
overflow >>= f = overflow
unfinished >>= f = unfinished

abbrev pub or_invalid {ℓ} : {A : Type ℓ} → Option A → Conversion A
or_invalid none = invalid
or_invalid (some a) = ok a

-- A chain goes on from a value.
pub ok_some {ℓ κ} :
    {A : Type ℓ} {B : Type κ} {o : Option A} {a : A} (f : A → Conversion B)
    → o ≡ some a
    → (or_invalid o >>= f) ≡ f a
ok_some f e = ap (λ x. or_invalid x >>= f) e

abbrev pub line_end : Bytes
line_end = b'\r' ∷ b'\n' ∷ []

-- _LINE_BUFSZ and _DATA_BUFSZ
abbrev pub line_size : ℕ
line_size = 1024

abbrev pub data_size : ℕ
data_size = 256

-- `line[i]`, which is NUL behind the text. No caller looks further than one behind it.
unfoldable pub char_at : Bytes → ℕ → ℕ
char_at line i = elim (get_elem? line i) [ none ↦ 0 | some c ↦ c ]

-- What the loop over the data leaves: the rest of the line, `data[0 .. count)` and the checksum.
pub record Data : Type 0 where
  pub rest : Bytes
  pub bytes : Bytes
  pub checksum : ℕ

abbrev pub add_byte : ℕ → Data → Data
add_byte b d = record { rest = d.rest; bytes = b ∷ d.bytes; checksum = d.checksum }

-- The loop from the index `i` on, with `count - i` rounds left.
unfoldable pub read_bytes : ℕ → ℕ → Bytes → ℕ → Conversion Data
read_bytes zero i line checksum = ok (record { rest = line; bytes = []; checksum = checksum })
read_bytes (suc n) i line checksum = or_invalid (read_num line 1 checksum) >>= λ b.
    elim (leb data_size i) [
      | true ↦ overflow
      | false ↦ read_bytes n (i + 1) b.rest b.checksum >>= λ d. ok (add_byte b.num d)
    ]
