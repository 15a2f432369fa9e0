-- ===== src/Libdwarf/Lineno.antt =====
-- The line number program of libdwarf/libdwarf_lineno.c: the line table that it builds. malloc() is
-- a parameter, which grants or refuses the `n`th request.
pub mod Program
pub mod Generate
pub mod Advance
pub mod Ends
mod Tests
use elftoolchain.Base.{
  ℕ, zero, suc, ◌+◌, ◌-◌, ◌*◌, ◌/◌, ◌%◌, ◌^◌, Bool, true, false, Option, none, some, List, [], ◌∷◌,
  ◌++◌, Bytes, ◌>>=◌, ltb, ◌==◌, if◌then◌else◌, length, drop, get_elem?,
}
use elftoolchain.Libdwarf.Leb.{decode_uleb128}

-- The fields of a Dwarf_LineInfo that a program does not change. `li_lbase` is its 64-bit pattern;
-- `li_inclen` is the length of `li_incdirs`.
pub record LineInfo : Type 0 where
  pub minlen : ℕ
  pub defstmt : ℕ
  pub lbase : ℕ
  pub lrange : ℕ
  pub opbase : ℕ
  pub incdirs : List Bytes

-- struct _Dwarf_Line; `ln_symndx` is 0 in every row of a program.
pub record Line : Type 0 where
  pub addr : ℕ
  pub fileno : ℕ
  pub lineno : ℕ
  pub column : ℕ
  pub bblock : ℕ
  pub stmt : ℕ
  pub endseq : ℕ

-- struct _Dwarf_LineFile
pub record LineFile : Type 0 where
  pub fname : Bytes
  pub fullpath : Option Bytes
  pub dirndx : ℕ
  pub mtime : ℕ
  pub size : ℕ

-- The fields that a program changes, and the number of calls of malloc() so far.
pub record Table : Type 0 where
  pub lnlist : List Line
  pub lnlen : ℕ
  pub lflist : List LineFile
  pub lflen : ℕ
  pub mallocs : ℕ

-- DW_DLE_MEMORY and DW_DLE_DIR_INDEX_BAD
pub data Error : Type 0 where
  no_memory : Error
  bad_dir_index : Error

-- strlen() and the string: the bytes before the next NUL.
unfoldable pub c_string : Bytes → Option Bytes
c_string [] = none
c_string (b ∷ m) = let rest = c_string m in if b == 0 then some [] else rest >>= λ s. some (b ∷ s)

module _ (grants : ℕ → Bool) where
  -- `*lf->lf_fname != '/'`
  unfoldable pub is_relative : Bytes → Bool
  is_relative [] = true
  is_relative (c ∷ s) = if c == b'/' then false else true

  -- The directory of a file: `none` is an index outside of `li_incdirs`, `some none` is NULL.
  unfoldable pub dir_name : LineInfo → ℕ → Option Bytes → Option (Option Bytes)
  dir_name li zero compdir = some compdir
  dir_name li (suc i) compdir = get_elem? li.incdirs i >>= λ d. some (some d)

  -- `lf_fullpath` where a directory is put in front, and the calls of malloc(); else the error.
  unfoldable pub join_path : Option Bytes → Bytes → ℕ → Option (Option Bytes × ℕ)
  join_path none fname n = some (none, n)
  join_path (some d) fname n = if grants n then some (some (d ++ b'/' ∷ fname), suc n) else none

  -- The outer `none` is undefined behaviour, the inner one DW_DLE_MEMORY.
  unfoldable pub make_fullpath :
      LineInfo → Bytes → ℕ → Option Bytes → ℕ → Option (Option (Option Bytes × ℕ))
  make_fullpath li fname dirndx compdir n =
      let joined = dir_name li dirndx compdir >>= λ d. some (join_path d fname n) in
      if is_relative fname then joined else some (some (none, n))

  -- The end of a file entry: the table with the file, and the pointer; or an error.
  pub data Added : Type 0 where
    added : Table → ℕ → Added
    refused : Error → Table → Added

  unfoldable pub add_entry :
      Bytes → Table → Bytes → ℕ → ℕ → Option (Option Bytes × ℕ) → Option Added
  add_entry m t fname dirndx p none =
      some (refused no_memory (record t { mallocs = suc t.mallocs }))
  add_entry m t fname dirndx p (some (path, n)) = decode_uleb128 m p >>= λ time.
      decode_uleb128 m time.1 >>= λ sz. some (
        added
          (record t {
            lflist =
                t.lflist
                ++ record {
                  fname = fname;
                  fullpath = path;
                  dirndx = dirndx;
                  mtime = time.0;
                  size = sz.0;
                }
                  ∷ [];
            lflen = t.lflen + 1;
            mallocs = n;
          })
          sz.1)

  unfoldable pub lineno_add_file : LineInfo → Bytes → Option Bytes → Table → ℕ → Option Added
  lineno_add_file li m compdir t p =
      let entry = c_string (drop p m) >>= λ fname.
      decode_uleb128 m (p + length fname + 1) >>= λ dir.
      if ltb (length li.incdirs) dir.0
      then some (refused bad_dir_index (record t { mallocs = suc t.mallocs }))
      else (make_fullpath li fname dir.0 compdir (suc t.mallocs) >>= λ path.
          add_entry m (record t { mallocs = suc t.mallocs }) fname dir.0 dir.1 path) in
      if grants t.mallocs
      then entry
      else some (refused no_memory (record t { mallocs = suc t.mallocs }))
