-- ===== src/Libelf/Ar/Symtab/Tests.antt =====
-- Symbol tables, and the theorems at them.
use elftoolchain.Base.{
  ℕ, ◌+◌, ◌*◌, ◌/◌, ◌%◌, ◌≤◌, ◌<◌, ◌≡◌, refl, Bool, true, false, none, some, List, [], ◌∷◌, ◌++◌,
  Bytes, replicate, arith,
}
use elftoolchain.Libelf.Ar.Outcome.{ok, err, undefined, archive}
use elftoolchain.Libelf.Ar.Samples.{magic}
use elftoolchain.Libelf.Ar.Open.{Archive}
use elftoolchain.Libelf.Ar.Hash.{elf_hash, hash_loop, hash_step, fold_top}
use elftoolchain.Libelf.Ar.Symtab.{
  Arsym, sentinel, read_byte, get_word, get_bytes, get_long, skip_string, add_entry, svr4_entries,
  bsd_entries, process_svr4_symtab, process_bsd_symtab, remember, elf_getarsym,
}
use elftoolchain.Libelf.Ar.Symtab.Entries.{
  IsTable, process_svr4_symtab-IsTable, process_bsd_symtab-IsTable,
}
use elftoolchain.Libelf.Ar.Symtab.Reads.{
  IsDefined, process_svr4_symtab-IsDefined, process_bsd_symtab_outside,
}

abbrev always : ℕ → Bool
always n = true

-- A symbol table behind the magic string and sixty bytes.
abbrev with_table : Bytes → Bytes
with_table t = magic ++ (replicate 60 b' ' ++ t)

-- An archive whose symbol table has `n` bytes.
abbrev table_of : Bool → ℕ → Bytes → Archive
table_of v n t = record {
  rawfile = with_table t;
  rawsymtab = 68;
  rawsymtabsz = n;
  rawstrtab = 0;
  rawstrtabsz = 0;
  next = 8;
  nchildren = 0;
  svr4 = v;
}

-- "a" in the member at 8 and "b" in that at 16.
abbrev svr4_table : Bytes
svr4_table = 0 ∷ 0 ∷ 0 ∷ 2 ∷ 0 ∷ 0 ∷ 0 ∷ 8 ∷ 0 ∷ 0 ∷ 0 ∷ 16 ∷ b'a' ∷ 0 ∷ b'b' ∷ 0 ∷ []

-- "a" in the member at 8.
abbrev bsd_table : Bytes
bsd_table =
    16 ∷ replicate 7 0
    ++ (replicate 8 0 ++ (8 ∷ replicate 7 0 ++ (2 ∷ replicate 7 0 ++ (b'a' ∷ 0 ∷ []))))

abbrev cut_table : Bytes
cut_table = 16 ∷ replicate 23 0

abbrev svr4_symbols : List Arsym
svr4_symbols =
    record { off = 8; hash = b'a'; name = some 80 }
    ∷ record { off = 16; hash = b'b'; name = some 82 }
    ∷ sentinel
    ∷ []

abbrev bsd_symbols : List Arsym
bsd_symbols = record { off = 8; hash = b'a'; name = some 100 } ∷ sentinel ∷ []

symtab_runs :
    (process_svr4_symtab always (table_of true 16 svr4_table) ≡ ok svr4_symbols)
    × (process_bsd_symtab always (table_of false 34 bsd_table) ≡ ok bsd_symbols)
    × (process_svr4_symtab always (table_of true 3 svr4_table) ≡ err archive)
    × (process_svr4_symtab always (table_of true 12 svr4_table) ≡ err archive)
unfolding process_svr4_symtab process_bsd_symtab svr4_entries bsd_entries add_entry skip_string
    get_word get_bytes read_byte elf_hash hash_loop hash_step fold_top
symtab_runs = (refl, refl, refl, refl)

getarsym_runs : (elf_getarsym always none (table_of true 16 svr4_table)).0 ≡ ok svr4_symbols
unfolding elf_getarsym remember process_svr4_symtab svr4_entries add_entry skip_string get_word
    read_byte elf_hash hash_loop hash_step fold_top
getarsym_runs = refl

process_svr4_symtab-IsTable_example :
    (n : ℕ) × (get_word (with_table svr4_table) 68 ≡ ok n)
    × (1 ≤ n)
    × (4 + n * 4 < 16)
    × IsTable (with_table svr4_table) (68 + 4 + n * 4) (68 + 16) n svr4_symbols
process_svr4_symtab-IsTable_example =
    process_svr4_symtab-IsTable always (table_of true 16 svr4_table) svr4_symbols symtab_runs.0

process_bsd_symtab-IsTable_example :
    (size : ℕ) × (get_long (with_table bsd_table) 68 ≡ ok size)
    × (size % 16 ≡ 0)
    × (16 + size ≤ 34)
    × IsTable (with_table bsd_table) (68 + 16 + size) (68 + 34) (size / 16) bsd_symbols
process_bsd_symtab-IsTable_example =
    process_bsd_symtab-IsTable always (table_of false 34 bsd_table) bsd_symbols symtab_runs.1

process_svr4_symtab-IsDefined_example :
    IsDefined (process_svr4_symtab always (table_of true 16 svr4_table))
process_svr4_symtab-IsDefined_example =
    process_svr4_symtab-IsDefined always (table_of true 16 svr4_table) (omega arith) refl

process_bsd_symtab_outside_example :
    process_bsd_symtab always (table_of false 24 cut_table) ≡ undefined
unfolding get_bytes read_byte
process_bsd_symtab_outside_example =
    process_bsd_symtab_outside always (table_of false 24 cut_table) 16 (omega arith) refl
      (omega arith) (omega arith) refl (omega arith)
