-- ===== src/Libelf/Ar/Symtab/Entries.antt =====
-- What the entries of a processed symbol table are.
use elftoolchain.Base.{
  ℕ, zero, suc, ◌+◌, ◌-◌, ◌*◌, ◌/◌, ◌%◌, ◌≤◌, ◌<◌, ◌≡◌, refl, ap, Bool, ◌||◌, not, Option, none,
  some, List, [], ◌∷◌, ◌++◌, All, Bytes, ltb, leb, ◌==◌, if◌then◌else◌, length, drop, arith,
}
use elftoolchain.Libelf.Ar.Outcome.{
  Outcome, ok, err, undefined, archive, resource, ok->>=, ok-if, ok-if_not,
}
use elftoolchain.Libelf.Ar.Open.{Archive}
use elftoolchain.Libelf.Ar.Hash.{elf_hash}
use elftoolchain.Libelf.Ar.Symtab.{
  Arsym, sentinel, read_byte, get_word, get_long, is_negative, skip_string, add_entry, svr4_entries,
  bsd_entries, arsym_size, process_svr4_symtab, process_bsd_symtab, remember, elf_getarsym,
}

-- An entry with its offset in the file, and its name from `lo` up to `end`, hashed.
pub record IsEntry (f : Bytes) (lo end : ℕ) (y : Arsym) : Type 0 where
  pub at : ℕ
  pub named : y.name ≡ some at
  pub behind : lo ≤ at
  pub before : at < end
  pub inside : y.off < length f
  pub hashed : elf_hash (drop at f) ≡ ok y.hash

-- `n` entries and the sentinel.
abbrev pub IsTable : Bytes → ℕ → ℕ → ℕ → List Arsym → Type 0
IsTable f lo end n syms =
    (ys : List Arsym) × (syms ≡ ys ++ sentinel ∷ []) × (length ys ≡ n) × All (IsEntry f lo end) ys

add_entry-IsTable :
    (f : Bytes) (lo end n off s : ℕ) (others : Outcome (List Arsym)) (syms : List Arsym)
    → add_entry f off s others ≡ ok syms
    → lo ≤ s
    → s < end
    → off < length f
    → ((ys : List Arsym) → others ≡ ok ys → IsTable f lo end n ys)
    → IsTable f lo end (suc n) syms
unfolding add_entry
add_entry-IsTable f lo end n off s others syms h behind before inside table =
    let (hash, hashed, h) = ok->>= (elf_hash (drop s f)) _ syms h in
    let (rest, rest_is, h) = ok->>= others _ syms h in
    let (ys, same, count, all) = table rest rest_is in
    let y : Arsym = record { off = off; hash = hash; name = some s } in
    let entry : IsEntry f lo end y = record {
      at = s;
      named = refl;
      behind = behind;
      before = before;
      inside = inside;
      hashed = hashed;
    } in
    (y ∷ ys, cc (h, same), ap suc count, (entry, all))

le-skip_string : (f : Bytes) (s n s' : ℕ) → skip_string f s n ≡ ok s' → s ≤ s'
unfolding skip_string
le-skip_string f s zero s' h = ground arith
le-skip_string f s (suc n) s' h =
    let (c, read, h) = ok->>= (read_byte f s) _ s' h in
    ground (arith, le-skip_string f (s + 1) n s')

svr4_entries-IsTable :
    (f : Bytes) (lo end p s n : ℕ) (syms : List Arsym)
    → lo ≤ s
    → svr4_entries f end p s n ≡ ok syms
    → IsTable f lo end n syms
unfolding svr4_entries
svr4_entries-IsTable f lo end p s zero syms behind h = ([], cc h, refl, tt)
svr4_entries-IsTable f lo end p s (suc n) syms behind h =
    let (before, h) = ok-if (leb end s) archive _ syms h in
    let (off, read, h) = ok->>= (get_word f p) _ syms h in
    let (inside, h) = ok-if (leb (length f) off) archive _ syms h in
    add_entry-IsTable f lo end n off s _ syms h behind (ground arith) (ground arith) (λ ys q.
      let (s', skipped, q) = ok->>= (skip_string f s (end - s)) _ ys q in
      svr4_entries-IsTable f lo end (p + 4) s' n ys
        (omega (arith, behind, le-skip_string f s (end - s) s' skipped)) q)

bsd_entries-IsTable :
    (f : Bytes) (end s0 p n : ℕ) (syms : List Arsym)
    → bsd_entries f end s0 p n ≡ ok syms
    → IsTable f s0 end n syms
unfolding bsd_entries
bsd_entries-IsTable f end s0 p zero syms h = ([], cc h, refl, tt)
bsd_entries-IsTable f end s0 p (suc n) syms h =
    let (stroffset, read, h) = ok->>= (get_long f p) _ syms h in
    let (off, read', h) = ok->>= (get_long f (p + 8)) _ syms h in
    let (inside, h) =
      ok-if (is_negative stroffset || is_negative off || leb (length f) off) archive _ syms h in
    let (before, h) = ok-if (leb end (s0 + stroffset)) archive _ syms h in
    add_entry-IsTable f s0 end n off (s0 + stroffset) _ syms h (omega arith) (ground arith)
      (ground arith) (λ ys q. bsd_entries-IsTable f end s0 (p + 16) n ys q)

module _ (alloc : ℕ → Bool) where
  -- A table that `_libelf_ar_process_svr4_symtab` returns has as many entries as the word in front
  -- says, at least one, and a sentinel; the offsets fit in the raw table with room behind them,
  -- each entry has an offset inside the file, a name behind the offsets and before the end of the
  -- raw table, and the `elf_hash` of that name.
  pub process_svr4_symtab-IsTable :
      (a : Archive) (syms : List Arsym)
      → process_svr4_symtab alloc a ≡ ok syms
      → (n : ℕ) × (get_word a.rawfile a.rawsymtab ≡ ok n)
        × (1 ≤ n)
        × (4 + n * 4 < a.rawsymtabsz)
        × IsTable a.rawfile (a.rawsymtab + 4 + n * 4) (a.rawsymtab + a.rawsymtabsz) n syms
  unfolding process_svr4_symtab
  process_svr4_symtab-IsTable a syms h =
      let f = a.rawfile in
      let end = a.rawsymtab + a.rawsymtabsz in
      let (room, h) = ok-if (ltb a.rawsymtabsz 4) archive _ syms h in
      let (n, read, h) = ok->>= (get_word f a.rawsymtab) _ syms h in
      let (inside, h) = ok-if (n == 0 || leb end (a.rawsymtab + 4 + n * 4)) archive _ syms h in
      let (granted, h) = ok-if_not (alloc (arsym_size * (n + 1))) resource _ syms h in
      (
        n,
        read,
        ground arith,
        ground arith,
        svr4_entries-IsTable f (a.rawsymtab + 4 + n * 4) end (a.rawsymtab + 4)
            (a.rawsymtab + 4 + n * 4) n syms (omega arith) h,
      )

  -- A table that `_libelf_ar_process_bsd_symtab` returns has one entry for every sixteen bytes of
  -- the size in front, which is a multiple of sixteen and fits in the raw table, and a sentinel;
  -- each entry has an offset inside the file, a name behind the ranlib structures and before the
  -- end of the raw table, and the `elf_hash` of that name.
  pub process_bsd_symtab-IsTable :
      (a : Archive) (syms : List Arsym)
      → process_bsd_symtab alloc a ≡ ok syms
      → (size : ℕ) × (get_long a.rawfile a.rawsymtab ≡ ok size)
        × (size % 16 ≡ 0)
        × (16 + size ≤ a.rawsymtabsz)
        × IsTable a.rawfile (a.rawsymtab + 16 + size) (a.rawsymtab + a.rawsymtabsz) (size / 16) syms
  unfolding process_bsd_symtab
  process_bsd_symtab-IsTable a syms h =
      let f = a.rawfile in
      let (room, h) = ok-if (ltb a.rawsymtabsz 16) archive _ syms h in
      let (size, read, h) = ok->>= (get_long f a.rawsymtab) _ syms h in
      let (inside, h) =
        ok-if (is_negative size || leb a.rawsymtabsz size || not (size % 16 == 0)) archive _ syms
          h in
      let (strsize, read', h) = ok->>= (get_long f (a.rawsymtab + 8 + size)) _ syms h in
      let (within, h) =
        ok-if (is_negative strsize || ltb a.rawsymtabsz (16 + size + strsize)) archive _ syms h in
      let (granted, h) = ok-if_not (alloc (arsym_size * (size / 16 + 1))) resource _ syms h in
      (
        size,
        read,
        ground arith,
        ground arith,
        bsd_entries-IsTable f (a.rawsymtab + a.rawsymtabsz) (a.rawsymtab + 16 + size)
            (a.rawsymtab + 8) (size / 16) syms h,
      )

  remember-ok :
      (o : Outcome (List Arsym)) (syms : List Arsym)
      → (remember o).0 ≡ ok syms
      → (remember o).1 ≡ some syms
  unfolding remember
  remember-ok (ok x) syms h = cc h
  remember-ok (err e) syms h = cc h
  remember-ok undefined syms h = cc h

  elf_getarsym-kept :
      (kept : Option (List Arsym)) (a : Archive) (syms : List Arsym)
      → (elf_getarsym alloc kept a).0 ≡ ok syms
      → (elf_getarsym alloc kept a).1 ≡ some syms
  unfolding elf_getarsym
  elf_getarsym-kept (some kept) a syms h = cc h
  elf_getarsym-kept none a syms h = ground (
    arith,
    remember-ok (if a.svr4 then process_svr4_symtab alloc a else process_bsd_symtab alloc a) syms,
  )

  -- A table that `elf_getarsym` returned is returned again by the next call, whatever malloc()
  -- grants then.
  pub elf_getarsym_again :
      (alloc' : ℕ → Bool) (kept : Option (List Arsym)) (a : Archive) (syms : List Arsym)
      → (elf_getarsym alloc kept a).0 ≡ ok syms
      → elf_getarsym alloc' (elf_getarsym alloc kept a).1 a ≡ (ok syms, some syms)
  unfolding elf_getarsym
  elf_getarsym_again alloc' kept a syms h = rw (elf_getarsym-kept kept a syms h) refl
