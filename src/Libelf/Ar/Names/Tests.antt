-- ===== src/Libelf/Ar/Names/Tests.antt =====
-- Names of members, and the theorems at them.
use elftoolchain.Base.{ℕ, ◌≡◌, refl, true, Bool, [], ◌∷◌, arith, drop, Bytes}
use elftoolchain.Libelf.Ar.Outcome.{ok, undefined}
use elftoolchain.Libelf.Ar.Number.{get_number}
use elftoolchain.Libelf.Ar.Samples.{two_members, long_names, bsd_member}
use elftoolchain.Libelf.Ar.Names.{
  get_translated_name, translate, svr4_name, bsd_name, short_name, new_string, copy_string,
  until_slash, is_svr4_name, is_bsd_name, strip_blanks, strip_slash, digit_at,
}
use elftoolchain.Libelf.Ar.Names.Long.{
  get_translated_name_svr4, get_translated_name_svr4_outside, get_translated_name_bsd,
  get_translated_name_bsd_outside,
}

abbrev always : ℕ → Bool
always n = true

-- "0" and "1", decimal numbers.
abbrev digit_0 : Bytes
digit_0 = b'0' ∷ []

name_runs :
    (get_translated_name always two_members 0 0 8 ≡ ok (b'a' ∷ []))
    × (get_translated_name always long_names 132 6 138 ≡ ok (b'l' ∷ b'o' ∷ b'n' ∷ b'g' ∷ []))
    × (get_translated_name always (bsd_member b'2') 0 0 8 ≡ ok (b'n' ∷ b'o' ∷ []))
    × (get_translated_name always (bsd_member b'5') 0 0 8 ≡ undefined)
unfolding get_translated_name translate svr4_name bsd_name short_name new_string copy_string
    until_slash is_svr4_name is_bsd_name strip_blanks strip_slash digit_at get_number
name_runs = (refl, refl, refl, refl)

get_translated_name_svr4_example :
    get_translated_name always long_names 132 6 138 ≡ ok (b'l' ∷ b'o' ∷ b'n' ∷ b'g' ∷ [])
get_translated_name_svr4_example =
    get_translated_name_svr4 always long_names 132 6 138 14 digit_0 (cc) (omega arith) (omega arith)
      refl (omega arith) (b'l' ∷ b'o' ∷ b'n' ∷ b'g' ∷ []) (drop 137 long_names) refl (omega arith)
      (omega arith) (omega arith) refl

-- A string table of 100 bytes at the end of the file.
get_translated_name_svr4_outside_example :
    get_translated_name always long_names 190 100 138 ≡ undefined
get_translated_name_svr4_outside_example =
    get_translated_name_svr4_outside always long_names 190 100 138 14 digit_0 (cc) (omega arith)
      (omega arith) refl (omega arith) (omega arith) (omega arith)

get_translated_name_bsd_example :
    get_translated_name always (bsd_member b'2') 0 0 8 ≡ ok (b'n' ∷ b'o' ∷ [])
get_translated_name_bsd_example =
    get_translated_name_bsd always (bsd_member b'2') 0 0 8 12 (b'2' ∷ []) (cc) (omega arith)
      (omega arith) refl (b'n' ∷ b'o' ∷ []) [] refl refl (omega arith) refl

get_translated_name_bsd_outside_example :
    get_translated_name always (bsd_member b'5') 0 0 8 ≡ undefined
get_translated_name_bsd_outside_example =
    get_translated_name_bsd_outside always (bsd_member b'5') 0 0 8 12 (b'5' ∷ []) (cc) (omega arith)
      (omega arith) refl (omega arith) (omega arith) refl
