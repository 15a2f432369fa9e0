-- ===== src/Libelftc/StringTable/Tests.antt =====
-- String tables, and the theorems at them.
use elftoolchain.Base.{
  ℕ, ◌≡◌, ◌⊎◌, refl, Bool, true, false, Option, none, some, [], ◌∷◌, Bytes, replicate, arith,
}
use elftoolchain.Libelftc.StringTable.{
  StringTable, same, find, assign, hash_round, hash_from, hash_string, hash_index, find_hash_entry,
  with_bucket, assign_entry, grown, put, lookup, remove, to_string, fresh, create, default_size,
  add_to_pool, insert_new, insert,
}
use elftoolchain.Libelftc.StringTable.Buckets.{IsValid}
use elftoolchain.Libelftc.StringTable.Insert.{Inserted, insert-Inserted}
use elftoolchain.Libelftc.StringTable.Remove.{Removed, RemoveEnds, create-IsValid, remove-Removed}

abbrev always : ℕ → Bool
always n = true

abbrev ab : Bytes
ab = b'a' ∷ b'b' ∷ []

abbrev cd : Bytes
cd = b'c' ∷ b'd' ∷ []

-- "ab" in the only bucket.
abbrev one_string : StringTable
one_string = record {
  pool = 0 ∷ b'a' ∷ b'b' ∷ 0 ∷ [];
  compaction = false;
  nbuckets = 1;
  pool_size = 4096;
  buckets = λ j. record { idx = 1; deleted = false } ∷ [];
}

one_string-IsValid : IsValid one_string
one_string-IsValid = record {
  ended = refl;
  entries = λ j. (record { positive = omega arith; inside = omega arith; behind_nul = refl }, tt);
  fits = omega arith;
}

abbrev table : Option (ℕ × StringTable) → StringTable
table none = fresh 4096
table (some r) = r.1

-- The long string overflows the pool, which grows by one step only.
table_runs :
    (hash_string ab ≡ 0x4d2505ca)
    × (lookup one_string ab ≡ 1)
    × (lookup one_string cd ≡ 0)
    × (lookup (table (insert always one_string cd)) cd ≡ 4)
    × ((remove one_string ab).0 ≡ true)
    × (lookup (remove one_string ab).1 ab ≡ 0)
    × (to_string one_string 1 ≡ some 1)
    × (to_string one_string 2 ≡ none)
    × (add_to_pool always one_string (replicate 8192 b'a') ≡ none)
unfolding hash_round hash_from hash_string lookup find_hash_entry find same hash_index insert
    insert_new add_to_pool put with_bucket remove assign_entry assign to_string grown
table_runs = (refl, refl, refl, refl, refl, refl, refl, refl, refl)

insert-Inserted_example :
    (n : ℕ) × (st' : StringTable) × (insert always one_string cd ≡ some (n, st'))
    × (((n ≡ 0) × (st' ≡ one_string)) ⊎ Inserted one_string cd n st')
insert-Inserted_example =
    insert-Inserted always one_string cd one_string-IsValid (omega arith) (omega arith)
      (omega arith)

remove-Removed_example : Removed one_string ab (remove one_string ab).1 × RemoveEnds one_string ab
remove-Removed_example = remove-Removed one_string ab one_string-IsValid (omega arith)

fresh_table-IsValid : IsValid (fresh 4096)
unfolding create default_size
fresh_table-IsValid = create-IsValid always 0 (fresh 4096) refl
