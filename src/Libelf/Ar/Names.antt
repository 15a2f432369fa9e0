-- ===== src/Libelf/Ar/Names.antt =====
-- _libelf_ar_get_translated_name and _libelf_ar_get_raw_name of libelf/libelf_ar_util.c. A C string
-- is the list of its bytes before the NUL. `alloc n` says whether malloc(n) succeeds.
pub mod Short
pub mod Long
mod Tests
use elftoolchain.Base.{
  ℕ, zero, suc, ◌+◌, ◌-◌, Bool, true, false, ◌&&◌, ◌||◌, not, [], ◌∷◌, Bytes, ltb, leb, ◌==◌,
  if◌then◌else◌, take, drop, get_elem?, none, some,
}
use elftoolchain.Libelf.Ar.Outcome.{
  Outcome, ok, err, undefined, archive, resource, ◌>>=◌, or_archive, is_at, ar_name, hdr_size,
  name_size,
}
use elftoolchain.Libelf.Ar.Number.{get_number}

-- strncpy(s, q, n); s[n] = '\0': the bytes of `q` up to a NUL, `n` at most.
unfoldable pub copy_string : ℕ → Bytes → Outcome Bytes
copy_string zero q = ok []
copy_string (suc n) [] = undefined
copy_string (suc n) (c ∷ q) =
    let rest : Outcome Bytes = copy_string n q >>= λ s. ok (c ∷ s) in if c == 0 then ok [] else rest

-- `for (; p < r && *p != '/'; p++)`, with `n = r - p`: how far `p` moves.
unfoldable pub until_slash : ℕ → Bytes → Outcome ℕ
until_slash zero q = ok 0
until_slash (suc n) [] = undefined
until_slash (suc n) (c ∷ q) =
    let rest : Outcome ℕ = until_slash n q >>= λ k. ok (k + 1) in if c == b'/' then ok 0 else rest

-- `(c = buf[1]) >= '0' && c <= '9'`
unfoldable pub digit_at : Bytes → ℕ → Bool
digit_at buf i = elim (get_elem? buf i) [ none ↦ false | some c ↦ leb b'0' c && leb c b'9' ]

-- The patterns "^/[0-9]+" and "#1/".
unfoldable pub is_svr4_name : Bytes → Bool
unfolding digit_at
is_svr4_name buf = is_at buf 0 b'/' && digit_at buf 1

unfoldable pub is_bsd_name : Bytes → Bool
is_bsd_name buf = is_at buf 0 b'#' && is_at buf 1 b'1' && is_at buf 2 b'/'

-- `for (q = buf + bufsize - 1; q >= buf && *q == ' '; --q)`: the value is `q - buf + 1`.
unfoldable pub strip_blanks : Bytes → ℕ → ℕ
strip_blanks buf zero = zero
strip_blanks buf (suc n) = if is_at buf n b' ' then strip_blanks buf n else suc n

-- The '/' that ends an SVR4 name is dropped, but not from "/" and "//".
unfoldable pub strip_slash : Bytes → ℕ → ℕ
strip_slash buf n =
    if ltb 0 n && is_at buf (n - 1) b'/' && (ltb 2 n || (n == 2 && not (is_at buf 0 b'/')))
    then n - 1
    else n

module _ (alloc : ℕ → Bool) where
  -- malloc(n), then the copy of `n - 1` bytes at most.
  unfoldable pub new_string : ℕ → Bytes → Outcome Bytes
  new_string n q = if alloc (n + 1) then copy_string n q else err resource

  -- The name in the archive string table.
  unfoldable pub svr4_name : Bytes → ℕ → ℕ → Bytes → Outcome Bytes
  svr4_name f strtab strtabsz buf = do
    offset ← or_archive (get_number (drop 1 buf) 10)
    if ltb strtabsz offset
        then err archive
        else (until_slash (strtabsz - offset) (drop (strtab + offset) f) >>= λ n.
            new_string n (drop (strtab + offset) f))

  -- The name behind the header at `h`.
  unfoldable pub bsd_name : Bytes → ℕ → Bytes → Outcome Bytes
  bsd_name f h buf = do
    len ← or_archive (get_number (drop 3 buf) 10)
    new_string len (drop (h + hdr_size) f)

  -- The name in the header itself.
  unfoldable pub short_name : Bytes → Outcome Bytes
  short_name buf = new_string (strip_slash buf (strip_blanks buf name_size)) buf

  unfoldable pub translate : Bytes → ℕ → ℕ → ℕ → Bytes → Outcome Bytes
  translate f strtab strtabsz h buf =
      if is_svr4_name buf
      then svr4_name f strtab strtabsz buf
      else if is_bsd_name buf
      then bsd_name f h buf
      else short_name buf

  -- `strtab` and `strtabsz` are e_rawstrtab and e_rawstrtabsz, and `h` is the offset of the header.
  unfoldable pub get_translated_name : Bytes → ℕ → ℕ → ℕ → Outcome Bytes
  get_translated_name f strtab strtabsz h = translate f strtab strtabsz h (ar_name f h)

  unfoldable pub get_raw_name : Bytes → ℕ → Outcome Bytes
  get_raw_name f h = new_string name_size (ar_name f h)
