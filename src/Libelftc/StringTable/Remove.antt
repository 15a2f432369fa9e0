-- ===== src/Libelftc/StringTable/Remove.antt =====
-- Removal from a string table, and a fresh table.
use elftoolchain.Base.{
  ℕ, ◌≤◌, ◌≡◌, ◌≢◌, refl, ap, ◌⊎◌, inl, inr, Bool, true, false, none, some, Bytes, ltb, arith,
  Bool-cases, Option-cases,
}
use elftoolchain.Libelftc.StringTable.{
  Entry, StringTable, hash_index, find_hash_entry, with_bucket, assign_entry, lookup, remove,
  create, default_size, fresh,
}
use elftoolchain.Libelftc.StringTable.Search.{IsText, find-some}
use elftoolchain.Libelftc.StringTable.Buckets.{
  lookup-same, find_hash_entry-assign_entry, find_hash_entry-assign_entry_other,
  assign_entry-IsValid, IsValid,
}

fresh-IsValid : (n : ℕ) → 1 ≤ n → IsValid (fresh n)
unfolding fresh
fresh-IsValid n h = record { ended = refl; entries = λ j. tt; fits = h }

create-fresh :
    (alloc : ℕ → Bool) (n : ℕ) (st : StringTable)
    → create alloc n ≡ some st
    → (m : ℕ) × (fresh m ≡ st) × (4096 ≤ m)
unfolding create default_size
create-fresh alloc n st h = elim (Bool-cases (ltb n 4096)) [
  | inl e ↦ (4096, ground arith, omega arith)
  | inr e ↦ (n, ground arith, ground arith)
]

-- A table that was created is valid.
pub create-IsValid :
    (alloc : ℕ → Bool) (n : ℕ) (st : StringTable) → create alloc n ≡ some st → IsValid st
create-IsValid alloc n st h =
    let (m, e, large) = create-fresh alloc n st h in rw (← e) (fresh-IsValid m (omega arith))

-- What a table holds after the string `s` was removed, next to the table before.
pub record Removed (st : StringTable) (s : Bytes) (st' : StringTable) : Type 0 where
  pub valid : IsValid st'
  pub gone : lookup st' s ≡ 0
  pub pool : st'.pool ≡ st.pool
  pub others : (t : Bytes) → IsText t → t ≢ s → lookup st' t ≡ lookup st t

lookup-deleted :
    (st : StringTable) (s : Bytes) (n : ℕ)
    → find_hash_entry st s ≡ some (record { idx = n; deleted = true })
    → lookup st s ≡ 0
unfolding lookup
lookup-deleted st s n h = rw (h, lookup) refl

lookup-none : (st : StringTable) (s : Bytes) → find_hash_entry st s ≡ none → lookup st s ≡ 0
unfolding lookup
lookup-none st s h = rw (h, lookup) refl

-- The two ways a removal ends.
abbrev pub RemoveEnds : StringTable → Bytes → Type 0
RemoveEnds st s =
    ((lookup st s ≡ 0) × (remove st s ≡ (false, st)))
    ⊎ ((1 ≤ lookup st s) × ((remove st s).0 ≡ true) × ((remove st s).1.compaction ≡ true))

not_found :
    (st : StringTable) (s : Bytes)
    → IsValid st
    → lookup st s ≡ 0
    → remove st s ≡ (false, st)
    → Removed st s (remove st s).1 × RemoveEnds st s
not_found st s v l r =
    let kept : Removed st s st = record {
      valid = v;
      gone = l;
      pool = refl;
      others = λ t ht ne. refl;
    } in
    (rw r kept, inl (l, r))

removed : StringTable → Bytes → StringTable
removed st s = record (assign_entry st s true) { compaction = true }

removed-Removed :
    (st : StringTable) (s : Bytes) (e : Entry)
    → IsValid st
    → IsText s
    → find_hash_entry st s ≡ some e
    → Removed st s (removed st s)
unfolding removed find_hash_entry hash_index assign_entry with_bucket
removed-Removed st s e v t h =
    let w = assign_entry-IsValid st s true v in
    record {
      valid = record { ended = w.ended; entries = w.entries; fits = w.fits };
      gone = lookup-deleted (removed st s) s e.idx (find_hash_entry-assign_entry st s true e h);
      pool = refl;
      others = λ u hu ne.
          lookup-same st (removed st s) u (find_hash_entry-assign_entry_other st s u true t hu ne);
    }

remove-dead :
    (st : StringTable) (s : Bytes) (e : Entry)
    → find_hash_entry st s ≡ some e
    → e.deleted ≡ true
    → (remove st s ≡ (false, st)) × (lookup st s ≡ 0)
unfolding remove lookup
remove-dead st s e h d = (rw (h, remove) (rw d refl), rw (h, lookup) (rw d refl))

remove-live :
    (st : StringTable) (s : Bytes) (e : Entry)
    → find_hash_entry st s ≡ some e
    → e.deleted ≡ false
    → (remove st s ≡ (true, removed st s)) × (lookup st s ≡ e.idx)
unfolding remove lookup removed
remove-live st s e h d = (rw (h, remove) (rw d refl), rw (h, lookup) (rw d refl))

remove-none :
    (st : StringTable) (s : Bytes) → find_hash_entry st s ≡ none → remove st s ≡ (false, st)
unfolding remove
remove-none st s h = rw (h, remove) refl

found-positive :
    (st : StringTable) (s : Bytes) (e : Entry)
    → IsValid st
    → find_hash_entry st s ≡ some e
    → 1 ≤ e.idx
unfolding find_hash_entry
found-positive st s e v h =
    (find-some st.pool s (st.buckets (hash_index st s)) e h
      (v.entries (hash_index st s))).0.positive

-- On a valid string table `elftc_string_table_remove` leaves a valid table with the same pool in
-- which the string is not found and every other string is looked up as before; it fails and leaves
-- the table as it was where the string was not found, and else succeeds and sets the compaction
-- flag.
pub remove-Removed :
    (st : StringTable) (s : Bytes)
    → IsValid st
    → IsText s
    → Removed st s (remove st s).1 × RemoveEnds st s
unfolding removed
remove-Removed st s v t = elim (Option-cases (find_hash_entry st s)) [
  | inl h ↦ not_found st s v (lookup-none st s h) (remove-none st s h)
  | inr (e, h) ↦ elim (Bool-cases e.deleted) [
    | inl d ↦ let (r, l) = remove-dead st s e h d in not_found st s v l r
    | inr d ↦
        let (r, l) = remove-live st s e h d in
        (
          rw r (removed-Removed st s e v t h),
          inr (
            rw l (found-positive st s e v h),
            ap (λ (p : Bool × StringTable). p.0) r,
            ap (λ (p : Bool × StringTable). p.1.compaction) r,
          ),
        )
  ]
]
