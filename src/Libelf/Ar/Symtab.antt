-- ===== src/Libelf/Ar/Symtab.antt =====
-- The symbol table of an archive: _libelf_ar_process_svr4_symtab and _libelf_ar_process_bsd_symtab
-- of libelf/libelf_ar.c, and elf_getarsym of libelf/elf_getarsym.c. A C `long` has 64 bits and is
-- stored least significant byte first.
pub mod Entries
pub mod Reads
mod Tests
use elftoolchain.Base.{
  ℕ, zero, suc, ◌+◌, ◌-◌, ◌*◌, ◌/◌, ◌%◌, ◌^◌, Bool, true, false, ◌||◌, not, Option, none, some,
  List, [], ◌∷◌, ◌++◌, Bytes, ltb, leb, ◌==◌, if◌then◌else◌, length, drop, get_elem?,
}
use elftoolchain.Libelf.Ar.Outcome.{Outcome, ok, err, undefined, archive, resource, ◌>>=◌}
use elftoolchain.Libelf.Ar.Open.{Archive}
use elftoolchain.Libelf.Ar.Hash.{elf_hash}

-- Elf_Arsym; a name is an offset into the file, `none` is NULL.
pub record Arsym : Type 0 where
  pub off : ℕ
  pub hash : ℕ
  pub name : Option ℕ

pub sentinel : Arsym
sentinel = record { off = 0; hash = 2 ^ 64 - 1; name = none }

pub read_byte : Bytes → ℕ → Outcome ℕ
read_byte f p = elim (get_elem? f p) [ none ↦ undefined | some b ↦ ok b ]

-- GET_WORD
pub get_word : Bytes → ℕ → Outcome ℕ
get_word f p = do
  b0 ← read_byte f p
  b1 ← read_byte f (p + 1)
  b2 ← read_byte f (p + 2)
  b3 ← read_byte f (p + 3)
  ok (((b0 * 256 + b1) * 256 + b2) * 256 + b3)

-- GET_LONG, as a bit pattern: `n` bytes from `p` on.
pub get_bytes : Bytes → ℕ → ℕ → Outcome ℕ
get_bytes f p zero = ok 0
get_bytes f p (suc n) = do b ← read_byte f p; rest ← get_bytes f (p + 1) n; ok (b + 256 * rest)

abbrev pub get_long : Bytes → ℕ → Outcome ℕ
get_long f p = get_bytes f p 8

abbrev pub is_negative : ℕ → Bool
is_negative n = leb (2 ^ 63) n

-- `for (; s < end && *s++ != '\\0';)`, with `n = end - s`
pub skip_string : Bytes → ℕ → ℕ → Outcome ℕ
skip_string f s zero = ok s
skip_string f s (suc n) = do
  c ← read_byte f s
  if c == 0 then ok (s + 1) else skip_string f (s + 1) n

-- The entry for the string at `s`, in front of the others.
pub add_entry : Bytes → ℕ → ℕ → Outcome (List Arsym) → Outcome (List Arsym)
add_entry f off s others = do
  h ← elf_hash (drop s f)
  syms ← others
  ok (record { off = off; hash = h; name = some s } ∷ syms)

-- The loop over `n` entries: offsets at `p`, strings at `s`.
pub svr4_entries : Bytes → ℕ → ℕ → ℕ → ℕ → Outcome (List Arsym)
svr4_entries f end p s zero = ok (sentinel ∷ [])
svr4_entries f end p s (suc n) =
    if leb end s
    then err archive
    else (get_word f p >>= λ off.
        if leb (length f) off
        then err archive
        else add_entry f off s
            (skip_string f s (end - s) >>= λ s'. svr4_entries f end (p + 4) s' n))

-- The loop over `n` pairs of `long`s at `p`, with the strings from `s0` on.
pub bsd_entries : Bytes → ℕ → ℕ → ℕ → ℕ → Outcome (List Arsym)
bsd_entries f end s0 p zero = ok (sentinel ∷ [])
bsd_entries f end s0 p (suc n) = get_long f p >>= λ stroffset.
    (get_long f (p + 8) >>= λ fileoffset.
    if is_negative stroffset || is_negative fileoffset || leb (length f) fileoffset
    then err archive
    else if leb end (s0 + stroffset)
    then err archive
    else add_entry f fileoffset (s0 + stroffset) (bsd_entries f end s0 (p + 16) n))

-- sizeof(Elf_Arsym)
abbrev pub arsym_size : ℕ
arsym_size = 24

-- The result, and e_symtab after it.
pub remember : Outcome (List Arsym) → Outcome (List Arsym) × Option (List Arsym)
remember (ok syms) = (ok syms, some syms)
remember (err e) = (err e, none)
remember undefined = (undefined, none)

module _ (alloc : ℕ → Bool) where
  pub process_svr4_symtab : Archive → Outcome (List Arsym)
  process_svr4_symtab a =
      if ltb a.rawsymtabsz 4
      then err archive
      else (get_word a.rawfile a.rawsymtab >>= λ n.
          if n == 0 || leb (a.rawsymtab + a.rawsymtabsz) (a.rawsymtab + 4 + n * 4)
          then err archive
          else if alloc (arsym_size * (n + 1))
          then svr4_entries a.rawfile (a.rawsymtab + a.rawsymtabsz) (a.rawsymtab + 4)
              (a.rawsymtab + 4 + n * 4) n
          else err resource)

  pub process_bsd_symtab : Archive → Outcome (List Arsym)
  process_bsd_symtab a =
      if ltb a.rawsymtabsz 16
      then err archive
      else (get_long a.rawfile a.rawsymtab >>= λ arraysize.
          if is_negative arraysize || leb a.rawsymtabsz arraysize || not (arraysize % 16 == 0)
          then err archive
          else (get_long a.rawfile (a.rawsymtab + 8 + arraysize) >>= λ strtabsize.
              if is_negative strtabsize || ltb a.rawsymtabsz (16 + arraysize + strtabsize)
              then err archive
              else if alloc (arsym_size * (arraysize / 16 + 1))
              then bsd_entries a.rawfile (a.rawsymtab + a.rawsymtabsz)
                  (a.rawsymtab + 16 + arraysize) (a.rawsymtab + 8) (arraysize / 16)
              else err resource))

  -- The first argument is e_symtab, NULL before a table was processed; the results are the table
  -- with e_symtab as it is then. The count is the length of the table. Only a descriptor of an
  -- archive is passed.
  pub elf_getarsym : Option (List Arsym) → Archive → Outcome (List Arsym) × Option (List Arsym)
  elf_getarsym (some syms) a = (ok syms, some syms)
  elf_getarsym none a =
      if a.rawsymtab == 0
      then (err archive, none)
      else remember (if a.svr4 then process_svr4_symtab a else process_bsd_symtab a)
