-- ===== src/Libelf/Ar/Names/Short.antt =====
-- Names that stand in the header itself.
use elftoolchain.Base.{
  ℕ, zero, suc, ◌+◌, ◌-◌, ◌≤◌, ◌<◌, ◌≡◌, ◌≢◌, refl, Bool, true, false, [], ◌∷◌, ◌++◌, Bytes,
  get_elem?, some, All, length, replicate, arith, length-append, append_assoc,
}
use native.Mathlib.Decide.{dec_lt}
use elftoolchain.Libelf.Ar.Outcome.{ok, ar_name}
use elftoolchain.Libelf.Ar.Names.{
  copy_string, new_string, strip_blanks, strip_slash, short_name, translate, get_translated_name,
  is_svr4_name, is_bsd_name,
}

-- No byte is NUL.
abbrev pub IsText : Bytes → Type 0
IsText = All (λ c. c ≢ 0)

pub copy_string-IsText : (s rest : Bytes) → IsText s → copy_string (length s) (s ++ rest) ≡ ok s
unfolding copy_string
copy_string-IsText [] rest t = refl
copy_string-IsText (c ∷ s) rest t = ground (arith, t.0, copy_string-IsText s rest t.1)

-- The last byte of a name.
abbrev pub last_byte : Bytes → ℕ
last_byte [] = 0
last_byte (c ∷ []) = c
last_byte (c ∷ d ∷ s) = last_byte (d ∷ s)

get_elem?-last :
    (s rest : Bytes) (n : ℕ) → length s ≡ suc n → get_elem? (s ++ rest) n ≡ some (last_byte s)
get_elem?-last [] rest n e = absurd (omega arith)
get_elem?-last (c ∷ []) rest zero e = refl
get_elem?-last (c ∷ []) rest (suc n) e = absurd (omega arith)
get_elem?-last (c ∷ d ∷ s) rest zero e = absurd (omega arith)
get_elem?-last (c ∷ d ∷ s) rest (suc n) e = get_elem?-last (d ∷ s) rest n (omega arith)

get_elem?-blank :
    (s : Bytes) (k n : ℕ)
    → length s ≤ n
    → n < length s + k
    → get_elem? (s ++ replicate k b' ') n ≡ some b' '
get_elem?-blank [] zero n a b = absurd (omega arith)
get_elem?-blank [] (suc k) zero a b = refl
get_elem?-blank [] (suc k) (suc n) a b = get_elem?-blank [] k n (omega arith) (omega arith)
get_elem?-blank (c ∷ s) k zero a b = absurd (omega arith)
get_elem?-blank (c ∷ s) k (suc n) a b = get_elem?-blank s k n (omega arith) (omega arith)

-- Blanks behind a name that does not end in one are stripped.
strip_blanks-append :
    (s : Bytes) (k n : ℕ)
    → last_byte s ≢ b' '
    → length s ≤ n
    → n ≤ length s + k
    → strip_blanks (s ++ replicate k b' ') n ≡ length s
unfolding strip_blanks
strip_blanks-append s k zero l a b = omega arith
strip_blanks-append s k (suc n) l a b = elim (dec_lt n (length s)) [
  | yes e ↦ ground (arith, get_elem?-last s (replicate k b' ') n (omega arith))
  | no ne ↦ ground (arith, get_elem?-blank s k n, strip_blanks-append s k n l)
]

strip_slash-plain :
    (s rest : Bytes) → last_byte s ≢ b'/' → strip_slash (s ++ rest) (length s) ≡ length s
unfolding strip_slash
strip_slash-plain [] rest l = refl
strip_slash-plain (c ∷ s) rest l = ground (arith, get_elem?-last (c ∷ s) rest (length s) refl)

-- A name without NUL that ends neither in a blank nor in a slash, padded with blanks to the sixteen
-- bytes of the field, and that is no extended name, is returned by
-- `_libelf_ar_get_translated_name`, if malloc() grants its length and one.
pub get_translated_name_plain :
    (alloc : ℕ → Bool) (f : Bytes) (strtab strtabsz h : ℕ) (s : Bytes) (k : ℕ)
    → ar_name f h ≡ s ++ replicate k b' '
    → length s + k ≡ 16
    → IsText s
    → last_byte s ≢ b' '
    → last_byte s ≢ b'/'
    → is_svr4_name (s ++ replicate k b' ') ≡ false
    → is_bsd_name (s ++ replicate k b' ') ≡ false
    → alloc (length s + 1) ≡ true
    → get_translated_name alloc f strtab strtabsz h ≡ ok s
unfolding get_translated_name translate short_name new_string
get_translated_name_plain alloc f strtab strtabsz h s k e len t blank slash svr4 bsd room =
    rw
      (
        e,
        svr4,
        bsd,
        strip_blanks-append s k 16 blank (omega arith) (omega arith),
        strip_slash-plain s (replicate k b' ') slash,
        room,
      )
      (copy_string-IsText s (replicate k b' ') t)

last_byte-append : (s : Bytes) (c : ℕ) → last_byte (s ++ c ∷ []) ≡ c
last_byte-append [] c = refl
last_byte-append (a ∷ []) c = refl
last_byte-append (a ∷ b ∷ s) c = last_byte-append (b ∷ s) c

get_elem?-middle : (s rest : Bytes) (x : ℕ) → get_elem? (s ++ x ∷ rest) (length s) ≡ some x
get_elem?-middle [] rest x = refl
get_elem?-middle (c ∷ s) rest x = get_elem?-middle s rest x

strip_slash-ended :
    (c : ℕ) (s rest : Bytes)
    → c ≢ b'/'
    → strip_slash ((c ∷ s) ++ b'/' ∷ rest) (length (c ∷ s) + 1) ≡ length (c ∷ s)
unfolding strip_slash
strip_slash-ended c s rest h =
    let e : length (c ∷ s) + 1 - 1 ≡ suc (length s) = omega arith in
    ground (arith, e, get_elem?-middle s rest b'/')

-- Of a name of at least one byte without NUL that does not start with a slash, with a slash behind
-- it and padded with blanks to sixteen bytes, and that is no BSD name,
-- `_libelf_ar_get_translated_name` returns the name without the slash, if malloc() grants its
-- length and one.
pub get_translated_name_slash :
    (alloc : ℕ → Bool) (f : Bytes) (strtab strtabsz h c : ℕ) (s : Bytes) (k : ℕ)
    → ar_name f h ≡ (c ∷ s) ++ b'/' ∷ replicate k b' '
    → length s + 2 + k ≡ 16
    → IsText (c ∷ s)
    → c ≢ b'/'
    → is_bsd_name ((c ∷ s) ++ b'/' ∷ replicate k b' ') ≡ false
    → alloc (length (c ∷ s) + 1) ≡ true
    → get_translated_name alloc f strtab strtabsz h ≡ ok (c ∷ s)
unfolding get_translated_name translate short_name new_string
get_translated_name_slash alloc f strtab strtabsz h c s k e len t slash bsd room =
    let stripped =
      strip_blanks-append ((c ∷ s) ++ b'/' ∷ []) k 16 (rw last_byte-append (omega arith))
        (omega (arith, len')) (omega (arith, len')) in
    rw
      (
        e,
        not_svr4,
        bsd,
        rw (append_assoc, len') at stripped,
        strip_slash-ended c s (replicate k b' ') slash,
        room,
      )
      (copy_string-IsText (c ∷ s) (b'/' ∷ replicate k b' ') t)
  where
    len' : length ((c ∷ s) ++ b'/' ∷ []) ≡ length (c ∷ s) + 1
    len' = length-append (c ∷ s) (b'/' ∷ [])

    not_svr4 : is_svr4_name ((c ∷ s) ++ b'/' ∷ replicate k b' ') ≡ false
    not_svr4 = unfold is_svr4_name in ground arith
