-- ===== src/Libelftc/StringTable/Insert.antt =====
-- Insertion into a string table.
use elftoolchain.Base.{
  ℕ, ◌+◌, ◌^◌, ◌≤◌, ◌<◌, ◌≡◌, ◌≢◌, refl, ◌∙◌, ◌⊎◌, inl, inr, Bool, true, false, none, some, [], ◌∷◌,
  Bytes, ◌==◌, length, drop, arith, Bool-cases, Option-cases,
}
use elftoolchain.Libelftc.StringTable.{
  Entry, StringTable, same, hash_index, find_hash_entry, with_bucket, assign_entry, entry_size,
  lookup, to_string, insert_new, insert,
}
use elftoolchain.Libelftc.StringTable.Search.{
  IsText, IsEntry, IsEnded-length, find-some, same-first,
}
use elftoolchain.Libelftc.StringTable.Buckets.{
  lookup-some, lookup-same, find_hash_entry-assign_entry, find_hash_entry-assign_entry_other,
  assign_entry-IsValid, IsValid,
}
use elftoolchain.Libelftc.StringTable.NewEntry.{
  added, add_to_pool-added, new_entry, with_new, stored-new, find_hash_entry-with_new,
  find_hash_entry-with_new_other, IsEntry-new, with_new-IsValid,
}

to_string-IsEntry :
    (st : StringTable) (e : Entry) (s : Bytes)
    → IsEntry st.pool e
    → same (drop e.idx st.pool) s ≡ true
    → IsText s
    → s ≢ []
    → to_string st e.idx ≡ some e.idx
unfolding to_string
to_string-IsEntry st e [] i h t ne = absurd (ne refl)
to_string-IsEntry st e (c ∷ s) i h t ne =
    let first = same-first st.pool e.idx c s h in
    rw (first, i.behind_nul) (ground (arith, t.0, i.positive, i.inside))

-- What a table holds after the string `s` was inserted at `n`, next to the table before.
pub record Inserted (st : StringTable) (s : Bytes) (n : ℕ) (st' : StringTable) : Type 0 where
  pub valid : IsValid st'
  pub positive : 1 ≤ n
  pub found : lookup st' s ≡ n
  pub stored : same (drop n st'.pool) s ≡ true
  pub named : s ≢ [] → to_string st' n ≡ some n
  pub others : (t : Bytes) → IsText t → t ≢ s → lookup st' t ≡ lookup st t

insert_known :
    (st : StringTable) (s : Bytes) (e : Entry)
    → IsValid st
    → IsText s
    → find_hash_entry st s ≡ some e
    → Inserted st s e.idx (assign_entry st s false)
unfolding find_hash_entry assign_entry with_bucket
insert_known st s e v t h =
    let (i, stored) =
      find-some st.pool s (st.buckets (hash_index st s)) e h (v.entries (hash_index st s)) in
    record {
      valid = assign_entry-IsValid st s false v;
      positive = i.positive;
      found =
          lookup-some (assign_entry st s false) s e.idx
            (find_hash_entry-assign_entry st s false e h);
      stored = stored;
      named = λ ne. to_string-IsEntry (assign_entry st s false) e s i stored t ne;
      others = λ u hu ne.
          lookup-same st (assign_entry st s false) u
            (find_hash_entry-assign_entry_other st s u false t hu ne);
    }

with_new-Inserted :
    (st : StringTable) (s : Bytes) (m : ℕ)
    → IsValid st
    → IsText s
    → length st.pool + (length s + 1) ≤ m
    → Inserted st s (length st.pool) (with_new st s m)
unfolding with_new with_bucket added
with_new-Inserted st s m v t fits = record {
  valid = with_new-IsValid st s m v fits;
  positive = IsEnded-length st.pool v.ended;
  found = lookup-some (with_new st s m) s (length st.pool) (find_hash_entry-with_new st s m);
  stored = stored-new st s;
  named = λ ne.
      to_string-IsEntry (with_new st s m) (new_entry st) s (IsEntry-new st s v.ended)
        (stored-new st s) t ne;
  others = λ u hu ne.
      lookup-same st (with_new st s m) u (find_hash_entry-with_new_other st s u m v t hu ne);
}

insert_new-Inserted :
    (alloc : ℕ → Bool) (st : StringTable) (s : Bytes)
    → IsValid st
    → IsText s
    → length s < 4096
    → st.pool_size < 2 ^ 31
    → (n : ℕ) × (st' : StringTable) × (insert_new alloc st s ≡ some (n, st'))
      × (((n ≡ 0) × (st' ≡ st)) ⊎ Inserted st s n st')
unfolding insert_new with_new added hash_index
insert_new-Inserted alloc st s v t short small =
    elim (add_to_pool-added alloc st s v.fits short small) [
      | inl e ↦ (0, st, rw e refl, inl (refl, refl))
      | inr (m, e, fits) ↦
          let e' : (length st.pool == 0) ≡ false = ground (arith, IsEnded-length st.pool v.ended) in
          (
            length st.pool,
            with_new st s m,
            rw e (rw e' refl),
            inr (with_new-Inserted st s m v t fits),
          )
    ]

insert-insert_new :
    (alloc : ℕ → Bool) (st : StringTable) (s : Bytes)
    → find_hash_entry st s ≡ none
    → alloc entry_size ≡ true
    → insert alloc st s ≡ insert_new alloc st s
unfolding insert
insert-insert_new alloc st s h granted = rw (h, insert) (rw granted refl)

-- On a valid string table (the pool ends in NUL and is within its size, each entry points behind a
-- NUL of it) with a pool below 2 ^ 31 bytes, `elftc_string_table_insert` of a string below 4096
-- bytes either returns 0 and leaves the table as it was, or returns a positive index with a valid
-- table in which `elftc_string_table_lookup` finds the string at that index, the string stands in
-- the pool there, `elftc_string_table_to_string` returns that place unless the string is empty, and
-- every other string is looked up as before.
pub insert-Inserted :
    (alloc : ℕ → Bool) (st : StringTable) (s : Bytes)
    → IsValid st
    → IsText s
    → length s < 4096
    → st.pool_size < 2 ^ 31
    → (n : ℕ) × (st' : StringTable) × (insert alloc st s ≡ some (n, st'))
      × (((n ≡ 0) × (st' ≡ st)) ⊎ Inserted st s n st')
unfolding insert
insert-Inserted alloc st s v t short small = elim (Option-cases (find_hash_entry st s)) [
  | inr (e, h) ↦
      (e.idx, assign_entry st s false, rw (h, insert) refl, inr (insert_known st s e v t h))
  | inl h ↦ elim (Bool-cases (alloc entry_size)) [
    | inl granted ↦
        let (n, st', e, r) = insert_new-Inserted alloc st s v t short small in
        (n, st', insert-insert_new alloc st s h granted ∙ e, r)
    | inr refused ↦ (0, st, rw (h, insert, refused) refl, inl (refl, refl))
  ]
]
