-- ===== src/Libdwarf/Lineno/Ends.antt =====
-- A line number program ends, and the table stays well-formed.
use elftoolchain.Base.{
  ℕ, zero, suc, ◌+◌, ◌-◌, ◌≤◌, ◌<◌, ◌≡◌, inl, inr, refl, ap, sym, ◌∙◌, Bool, Bool-cases, ltb→lt,
  when_true, when_false, Option, none, some, List, [], ◌∷◌, ◌++◌, append-nil, append_assoc, Bytes,
  ltb, ◌==◌, length, length-append, drop, All-append, arith,
}
use mathlib.Core.Path.{subst}
use elftoolchain.Base.Mem.{load}
use elftoolchain.Libdwarf.Leb.{decode_uleb128}
use elftoolchain.Libdwarf.Leb.Forward.{decode_uleb128-forward}
use elftoolchain.Libdwarf.Lineno.{
  LineInfo, Line, LineFile, Table, Added, added, refused, c_string, make_fullpath, add_entry,
  lineno_add_file,
}
use elftoolchain.Libdwarf.Lineno.Program.{
  Machine, Round, going, failed, reset_registers, decode, file_round, extended_opcode, extended,
  opcode, round, Run, finished, stopped, undefined, unfinished, run_on, run_loop,
  lineno_run_program,
}
use elftoolchain.Libdwarf.Lineno.Advance.{
  IsTable, IsExtended, IsOnward, some_bind, some_injective, decode-forward, pick, same_table,
  append_row-IsOnward, standard-IsOnward, special-IsOnward,
}

module _ (grants : ℕ → Bool) (li : LineInfo) where
  -- An added file, from the pointer `p`.
  abbrev IsFile : ℕ → Table → Added grants → Type 0
  IsFile p t (added t' q) = (p < q) × IsTable li t' × (t'.lnlist ≡ t.lnlist)
  IsFile p t (refused e t') = Unit

  add_entry-IsFile :
      (m : Bytes) (t : Table) (fname : Bytes) (dirndx p : ℕ) (path : Option (Option Bytes × ℕ))
      (a : Added grants)
      → IsTable li t
      → dirndx ≤ length li.incdirs
      → add_entry grants m t fname dirndx p path ≡ some a
      → IsFile p t a
  unfolding add_entry
  add_entry-IsFile m t fname dirndx p none a table dir h =
      subst (IsFile p t) (some_injective _ a h) _
  add_entry-IsFile m t fname dirndx p (some (path, n)) a (lines, files, dirs) dir h =
      let (time, e, h1) = some_bind (decode_uleb128 m p) _ a h in
      let (sz, e', h2) = some_bind (decode_uleb128 m time.1) _ a h1 in
      let onward = decode_uleb128-forward m p time.0 time.1 e in
      let onward' = decode_uleb128-forward m time.1 sz.0 sz.1 e' in
      let file : LineFile = record {
        fname = fname;
        fullpath = path;
        dirndx = dirndx;
        mtime = time.0;
        size = sz.0;
      } in
      subst (IsFile p t) (some_injective _ a h2) (
        omega (arith, onward, onward'),
        (
          lines,
          omega (arith, files, length-append t.lflist (file ∷ [])),
          All-append (λ (f : LineFile). f.dirndx ≤ length li.incdirs) t.lflist (file ∷ []) dirs
              (dir, _),
        ),
        refl,
      )

  lineno_add_file-IsFile :
      (m : Bytes) (compdir : Option Bytes) (t : Table) (p : ℕ) (a : Added grants)
      → IsTable li t
      → lineno_add_file grants li m compdir t p ≡ some a
      → IsFile p t a
  unfolding lineno_add_file
  lineno_add_file-IsFile m compdir t p a table h =
      pick (grants t.mallocs) _ _ h
        (λ h.
          let (fname, e, h1) = some_bind (c_string (drop p m)) _ a h in
          let (dir, e1, h2) = some_bind (decode_uleb128 m (p + length fname + 1)) _ a h1 in
          elim (Bool-cases (ltb (length li.incdirs) dir.0)) [
            | inl bad ↦ subst (IsFile p t) (some_injective _ a (rw bad at h2)) _
            | inr good ↦
                let inside : dir.0 ≤ length li.incdirs = ground (arith, good) in
                let (path, e2, h3) =
                  some_bind (make_fullpath grants li fname dir.0 compdir (suc t.mallocs)) _ a
                    (rw good at h2) in
                let f =
                  add_entry-IsFile m (record t { mallocs = suc t.mallocs }) fname dir.0 dir.1 path a
                    table inside h3 in
                earlier p dir.1 t a
                  (omega (arith, decode_uleb128-forward m (p + length fname + 1) dir.0 dir.1 e1)) f
          ])
        (λ h. subst (IsFile p t) (some_injective _ a h) _)
    where
      earlier :
          (p q : ℕ) (t : Table) (a : Added grants)
          → p ≤ q
          → IsFile q (record t { mallocs = suc t.mallocs }) a
          → IsFile p t a
      earlier p q t (added t' q') le (x, y, z) = (omega (arith, le, x), y, z)
      earlier p q t (refused e t') le x = _

module _ (grants : ℕ → Bool) (big_endian : Bool) (pointer_size : ℕ) (li : LineInfo) where
  file_round-IsOnward :
      (s : Machine) (q : ℕ) (a : Added grants)
      → s.p ≤ q
      → IsFile grants li q s.table a
      → IsOnward li s.p s.table (file_round grants big_endian pointer_size s.regs a)
  unfolding file_round
  file_round-IsOnward s q (added t p) le (onward, table, rows) =
      (omega (arith, le, onward), table, ([], rows ∙ sym (append-nil s.table.lnlist)))
  file_round-IsOnward s q (refused e t) le h = _

  extended-IsOnward :
      (m : Bytes) (compdir : Option Bytes) (s : Machine) (r : Round)
      → IsTable li s.table
      → extended grants big_endian pointer_size li m compdir s ≡ some r
      → IsOnward li s.p s.table r
  unfolding extended extended_opcode
  extended-IsOnward m compdir s r table h =
      let (size, e, h1) = some_bind (decode_uleb128 m (s.p + 1)) _ r h in
      let (op, e1, h2) = some_bind (load m size.1) _ r h1 in
      let behind = decode_uleb128-forward m (s.p + 1) size.0 size.1 e in
      pick (op == 1) _ _ h2
        (λ h. subst (IsOnward li s.p s.table) (some_injective _ r h) (
          append_row-IsOnward grants big_endian pointer_size li s.table s.p (size.1 + 1) _ _ table
            (omega (arith, behind))))
        (λ h.
          pick (op == 2) _ _ h
            (λ h.
              let (a, e2, h3) = some_bind (decode big_endian m (size.1 + 1) pointer_size) _ r h in
              let past = decode-forward big_endian m (size.1 + 1) pointer_size a e2 in
              subst (IsOnward li s.p s.table) (some_injective _ r h3)
                (omega (arith, behind, past), table, same_table s.table))
            (λ h.
              pick (op == 3) _ _ h
                (λ h.
                  let (a, e2, h3) =
                    some_bind (lineno_add_file grants li m compdir s.table (size.1 + 1)) _ r h in
                  subst (IsOnward li s.p s.table) (some_injective _ r h3) (
                    file_round-IsOnward s (size.1 + 1) a (omega (arith, behind))
                      (lineno_add_file-IsFile grants li m compdir s.table (size.1 + 1) a table e2)))
                (λ h.
                  subst (IsOnward li s.p s.table) (some_injective _ r h)
                    (omega (arith, behind), table, same_table s.table))))

  round-IsOnward :
      (m : Bytes) (compdir : Option Bytes) (s : Machine) (r : Round)
      → IsTable li s.table
      → round grants big_endian pointer_size li m compdir s ≡ some r
      → IsOnward li s.p s.table r
  unfolding round opcode
  round-IsOnward m compdir s r table h =
      let (op, e, h1) = some_bind (load m s.p) _ r h in
      pick (op == 0) _ _ h1 (extended-IsOnward m compdir s r table) (λ h.
        pick (ltb op li.opbase) _ _ h
          (standard-IsOnward grants big_endian pointer_size li m s op r table)
          (special-IsOnward grants big_endian pointer_size li s op r table))

  -- How a run can end: it ends, and a run without an error leaves `p` at the end, the table
  -- well-formed, and the rows there were in front of those of the program.
  abbrev pub IsRun : ℕ → Table → Run grants big_endian pointer_size → Type 0
  IsRun pe t (finished s) = (pe ≤ s.p) × IsTable li s.table × IsExtended t s.table
  IsRun pe t (stopped e t') = Unit
  IsRun pe t undefined = Unit
  IsRun pe t unfinished = ⊥

  IsRun-extended :
      (pe : ℕ) (t u : Table) (r : Run grants big_endian pointer_size)
      → IsExtended t u
      → IsRun pe u r
      → IsRun pe t r
  IsRun-extended pe t u (finished s) (rows, e) (ended, table, (more, e')) = (
    ended,
    table,
    (rows ++ more, e' ∙ ap (λ (l : List Line). l ++ more) e ∙ append_assoc t.lnlist rows more),
  )
  IsRun-extended pe t u (stopped e' t') e h = _
  IsRun-extended pe t u undefined e h = _
  IsRun-extended pe t u unfinished e h = elim h [ ]

  run_on-IsRun :
      (pe : ℕ) (s : Machine) (o : Option Round)
      (next : Machine → Run grants big_endian pointer_size)
      → ((r : Round) → o ≡ some r → IsOnward li s.p s.table r)
      → ((s' : Machine) → s.p < s'.p → IsTable li s'.table → IsRun pe s'.table (next s'))
      → IsRun pe s.table (run_on grants big_endian pointer_size o next)
  unfolding run_on
  run_on-IsRun pe s none next onward rest = _
  run_on-IsRun pe s (some (failed e t)) next onward rest = _
  run_on-IsRun pe s (some (going s')) next onward rest =
      let (on, table, rows) = onward (going s') refl in
      IsRun-extended pe s.table s'.table (next s') rows (rest s' on table)

  run_loop-IsRun :
      (n : ℕ) (m : Bytes) (pe : ℕ) (compdir : Option Bytes) (s : Machine)
      → pe - s.p < n
      → IsTable li s.table
      → IsRun pe s.table (run_loop grants big_endian pointer_size n li m pe compdir s)
  unfolding run_loop
  run_loop-IsRun zero m pe compdir s fuel table = ground (arith, fuel)
  run_loop-IsRun (suc n) m pe compdir s fuel table = elim (Bool-cases (ltb s.p pe)) [
    | inl more ↦ subst (IsRun pe s.table) (sym (when_true _ _ more)) (
        run_on-IsRun pe s (round grants big_endian pointer_size li m compdir s) _
          (λ r e. round-IsOnward m compdir s r table e)
          (λ s' on table'.
            run_loop-IsRun n m pe compdir s' (omega (arith, on, ltb→lt s.p pe more, fuel)) table'))
    | inr end ↦
        let ended : pe ≤ s.p = ground (arith, end) in
        subst (IsRun pe s.table) (sym (when_false _ _ end)) (ended, table, same_table s.table)
  ]

  -- On a table whose counts are the lengths of its lists and whose files have directories of the
  -- header, `_dwarf_lineno_run_program` ends, whatever the program: in an error, in undefined
  -- behaviour, or at the end of the program or behind it with such a table, in which the rows there
  -- were stand in front of those of the program.
  pub lineno_run_program-IsRun :
      (m : Bytes) (p pe : ℕ) (compdir : Option Bytes) (t : Table)
      → IsTable li t
      → IsRun pe t (lineno_run_program grants big_endian pointer_size li m p pe compdir t)
  unfolding lineno_run_program
  lineno_run_program-IsRun m p pe compdir t table =
      run_loop-IsRun (suc (pe - p)) m pe compdir
        (record { p = p; regs = reset_registers li; table = t }) (omega arith) table
