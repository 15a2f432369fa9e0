-- ===== src/Libelf/Ar/Names/Long.antt =====
-- Names that stand outside of the header: in the archive string table, or behind the header.
use elftoolchain.Base.{
  ℕ, zero, suc, ◌+◌, ◌-◌, ◌^◌, ◌≤◌, ◌<◌, ◌≡◌, ◌≢◌, refl, Bool, true, [], ◌∷◌, ◌++◌, Bytes, drop,
  some, All, length, replicate, arith,
}
use elftoolchain.Libelf.Ar.Outcome.{ok, undefined, ar_name}
use elftoolchain.Libelf.Ar.Number.{get_number}
use elftoolchain.Libelf.Ar.Number.Laws.{IsDigit, IsEnd, value, get_number-value}
use elftoolchain.Libelf.Ar.Names.{
  copy_string, until_slash, new_string, svr4_name, bsd_name, translate, get_translated_name,
  is_svr4_name, is_bsd_name,
}
use elftoolchain.Libelf.Ar.Names.Short.{IsText, copy_string-IsText}

replicate-IsEnd : (k : ℕ) → IsEnd (replicate k b' ')
replicate-IsEnd zero = tt
replicate-IsEnd (suc k) = refl

-- A decimal number with blanks behind it.
field :
    (k : ℕ) (ds : Bytes)
    → ds ≢ []
    → All (IsDigit 10) ds
    → value 10 0 ds < 2 ^ 64
    → get_number (ds ++ replicate k b' ') 10 ≡ some (value 10 0 ds)
field k ds ne d fits =
    get_number-value 10 0 ds (replicate k b' ') (omega arith) ne d (replicate-IsEnd k) fits

until_slash-append :
    (t rest : Bytes) (n : ℕ)
    → All (λ c. c ≢ b'/') t
    → length t < n
    → until_slash n (t ++ b'/' ∷ rest) ≡ ok (length t)
unfolding until_slash
until_slash-append t rest zero a h = absurd (omega arith)
until_slash-append [] rest (suc n) a h = refl
until_slash-append (c ∷ t) rest (suc n) a h = ground (arith, a.0, until_slash-append t rest n a.1)

until_slash-undefined :
    (t : Bytes) (n : ℕ) → All (λ c. c ≢ b'/') t → length t < n → until_slash n t ≡ undefined
unfolding until_slash
until_slash-undefined t zero a h = absurd (omega arith)
until_slash-undefined [] (suc n) a h = refl
until_slash-undefined (c ∷ t) (suc n) a h = ground (arith, a.0, until_slash-undefined t n a.1)

copy_string-undefined : (t : Bytes) (n : ℕ) → IsText t → length t < n → copy_string n t ≡ undefined
unfolding copy_string
copy_string-undefined t zero a h = absurd (omega arith)
copy_string-undefined [] (suc n) a h = refl
copy_string-undefined (c ∷ t) (suc n) a h = ground (arith, a.0, copy_string-undefined t n a.1)

module _ (alloc : ℕ → Bool) (f : Bytes) (strtab strtabsz h k : ℕ) (ds : Bytes) (ne : ds ≢ [])
    (decimal : All (IsDigit 10) ds) (fits : value 10 0 ds < 2 ^ 64) where
  svr4_pattern : is_svr4_name (b'/' ∷ (ds ++ replicate k b' ')) ≡ true
  unfolding is_svr4_name
  svr4_pattern = first ds ne decimal
    where
      first :
          (es : Bytes)
          → es ≢ []
          → All (IsDigit 10) es
          → is_svr4_name (b'/' ∷ (es ++ replicate k b' ')) ≡ true
      first [] ne' d = absurd (ne' refl)
      first (c ∷ es) ne' d = ground arith

  module _ (named : ar_name f h ≡ b'/' ∷ (ds ++ replicate k b' '))
      (within : value 10 0 ds ≤ strtabsz) where
    -- For a slash and a decimal offset, padded with blanks, `_libelf_ar_get_translated_name`
    -- returns the bytes from that offset of the string table to the next slash inside it, if there
    -- is no NUL among them and malloc() grants their length and one.
    pub get_translated_name_svr4 :
        (t rest : Bytes)
        → drop (strtab + value 10 0 ds) f ≡ t ++ b'/' ∷ rest
        → value 10 0 ds + length t < strtabsz
        → IsText t
        → All (λ c. c ≢ b'/') t
        → alloc (length t + 1) ≡ true
        → get_translated_name alloc f strtab strtabsz h ≡ ok t
    unfolding get_translated_name translate svr4_name new_string
    get_translated_name_svr4 t rest at_t inside text plain room =
        rw (named, svr4_pattern, field k ds ne decimal fits, at_t)
          (ground (
            arith,
            until_slash-append t rest (strtabsz - value 10 0 ds) plain,
            copy_string-IsText t (b'/' ∷ rest) text,
          ))

    -- For a slash and a decimal offset within the size of a string table that sticks out of the
    -- file, where no slash stands from that offset to the end of the file,
    -- `_libelf_ar_get_translated_name` reads outside of the file.
    pub get_translated_name_svr4_outside :
        length (drop (strtab + value 10 0 ds) f) + value 10 0 ds < strtabsz
        → All (λ c. c ≢ b'/') (drop (strtab + value 10 0 ds) f)
        → get_translated_name alloc f strtab strtabsz h ≡ undefined
    unfolding get_translated_name translate svr4_name
    get_translated_name_svr4_outside outside plain =
        rw (named, svr4_pattern, field k ds ne decimal fits)
          (ground (
            arith,
            until_slash-undefined (drop (strtab + value 10 0 ds) f) (strtabsz - value 10 0 ds)
                plain,
          ))

  module _ (named : ar_name f h ≡ b'#' ∷ b'1' ∷ b'/' ∷ (ds ++ replicate k b' ')) where
    -- For "#1/" and a decimal length, padded with blanks, `_libelf_ar_get_translated_name` returns
    -- that many bytes from behind the header, if the file has them, there is no NUL among them and
    -- malloc() grants the length and one.
    pub get_translated_name_bsd :
        (t rest : Bytes)
        → drop (h + 60) f ≡ t ++ rest
        → length t ≡ value 10 0 ds
        → IsText t
        → alloc (length t + 1) ≡ true
        → get_translated_name alloc f strtab strtabsz h ≡ ok t
    unfolding get_translated_name translate bsd_name new_string is_svr4_name is_bsd_name
    get_translated_name_bsd t rest at_t len text room =
        rw (named, field k ds ne decimal fits, at_t, ← len, room) (copy_string-IsText t rest text)

    -- For "#1/" and a decimal length of more bytes than the file has behind the header, none of
    -- them NUL, `_libelf_ar_get_translated_name` reads outside of the file, if malloc() grants the
    -- length and one.
    pub get_translated_name_bsd_outside :
        length (drop (h + 60) f) < value 10 0 ds
        → IsText (drop (h + 60) f)
        → alloc (value 10 0 ds + 1) ≡ true
        → get_translated_name alloc f strtab strtabsz h ≡ undefined
    unfolding get_translated_name translate bsd_name new_string is_svr4_name is_bsd_name
    get_translated_name_bsd_outside outside text room =
        rw (named, field k ds ne decimal fits, room)
          (copy_string-undefined (drop (h + 60) f) (value 10 0 ds) text outside)
