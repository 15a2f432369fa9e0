-- ===== src/Libelftc/StringTable/Buckets.antt =====
-- The buckets of a valid string table, and an assignment to an entry.
use elftoolchain.Base.{
  ℕ, ◌%◌, ◌≤◌, ◌≡◌, ◌≢◌, refl, sym, ap, ◌∙◌, ◌⊎◌, inl, inr, Bool, false, some, List, All, Bytes,
  ◌==◌, length, arith, Bool-cases,
}
use elftoolchain.Libelftc.StringTable.{
  Entry, StringTable, find, assign, hash_index, find_hash_entry, hash_string, with_bucket,
  assign_entry, lookup,
}
use elftoolchain.Libelftc.StringTable.Search.{
  IsText, IsEnded, IsEntry, find-assign, find-assign_other, assign-IsEntry,
}

pub record IsValid (st : StringTable) : Type 0 where
  pub ended : IsEnded st.pool
  pub entries : (j : ℕ) → All (IsEntry st.pool) (st.buckets j)
  pub fits : length st.pool ≤ st.pool_size

pub bucket-with_bucket :
    (st : StringTable) (i : ℕ) (es : List Entry) → (with_bucket st i es).buckets i ≡ es
unfolding with_bucket
bucket-with_bucket st i es = ground arith

-- A search in the new bucket, or in one that is as it was.
pub find_hash_entry-with_bucket :
    (st : StringTable) (i : ℕ) (es : List Entry) (t : Bytes)
    → (find_hash_entry (with_bucket st i es) t ≡ find st.pool t es) × (hash_index st t ≡ i)
      ⊎ (find_hash_entry (with_bucket st i es) t ≡ find_hash_entry st t) × (hash_index st t ≢ i)
unfolding with_bucket find_hash_entry hash_index
find_hash_entry-with_bucket st i es t = elim (Bool-cases (hash_string t % st.nbuckets == i)) [
  | inl e ↦ inl (rw e refl, ground arith)
  | inr e ↦ inr (rw e refl, ground arith)
]

pub entries-with_bucket :
    (st : StringTable) (i : ℕ) (es : List Entry)
    → All (IsEntry st.pool) es
    → ((j : ℕ) → All (IsEntry st.pool) (st.buckets j))
    → (j : ℕ) → All (IsEntry st.pool) ((with_bucket st i es).buckets j)
unfolding with_bucket
entries-with_bucket st i es new old j = elim (Bool-cases (j == i)) [
  | inl e ↦ rw e new
  | inr e ↦ rw e (old j)
]

-- The search in the bucket of the string itself.
pub find_hash_entry-own :
    (st : StringTable) (es : List Entry) (t : Bytes)
    → find_hash_entry (with_bucket st (hash_index st t) es) t ≡ find st.pool t es
find_hash_entry-own st es t = elim (find_hash_entry-with_bucket st (hash_index st t) es t) [
  | inl (e, at) ↦ e
  | inr (e, away) ↦ absurd (away refl)
]

-- A search that gives the same in the old and the new bucket gives the same in the table.
pub find_hash_entry-unchanged :
    (st : StringTable) (i : ℕ) (es : List Entry) (t : Bytes)
    → find st.pool t es ≡ find st.pool t (st.buckets i)
    → find_hash_entry (with_bucket st i es) t ≡ find_hash_entry st t
unfolding find_hash_entry
find_hash_entry-unchanged st i es t h = elim (find_hash_entry-with_bucket st i es t) [
  | inl (e, at) ↦ e ∙ h ∙ ap (λ (j : ℕ). find st.pool t (st.buckets j)) (sym at)
  | inr (e, away) ↦ e
]

pub lookup-some :
    (st : StringTable) (s : Bytes) (n : ℕ)
    → find_hash_entry st s ≡ some (record { idx = n; deleted = false })
    → lookup st s ≡ n
unfolding lookup
lookup-some st s n h = rw (h, lookup) refl

pub lookup-same :
    (st st' : StringTable) (t : Bytes)
    → find_hash_entry st' t ≡ find_hash_entry st t
    → lookup st' t ≡ lookup st t
unfolding lookup
lookup-same st st' t h = rw (h, lookup) refl

pub find_hash_entry-assign_entry :
    (st : StringTable) (s : Bytes) (deleted : Bool) (e : Entry)
    → find_hash_entry st s ≡ some e
    → find_hash_entry (assign_entry st s deleted) s
      ≡ some (record { idx = e.idx; deleted = deleted })
unfolding assign_entry find_hash_entry
find_hash_entry-assign_entry st s deleted e h =
    find_hash_entry-own st (assign st.pool s deleted (st.buckets (hash_index st s))) s
    ∙ find-assign st.pool s deleted (st.buckets (hash_index st s)) e h

pub find_hash_entry-assign_entry_other :
    (st : StringTable) (s t : Bytes) (deleted : Bool)
    → IsText s
    → IsText t
    → t ≢ s
    → find_hash_entry (assign_entry st s deleted) t ≡ find_hash_entry st t
unfolding assign_entry
find_hash_entry-assign_entry_other st s t deleted hs ht ne =
    find_hash_entry-unchanged st (hash_index st s)
      (assign st.pool s deleted (st.buckets (hash_index st s))) t
      (find-assign_other st.pool s t deleted (st.buckets (hash_index st s)) hs ht ne)

pub assign_entry-IsValid :
    (st : StringTable) (s : Bytes) (deleted : Bool)
    → IsValid st
    → IsValid (assign_entry st s deleted)
unfolding assign_entry with_bucket
assign_entry-IsValid st s deleted v = record {
  ended = v.ended;
  entries =
      entries-with_bucket st (hash_index st s) _
        (assign-IsEntry st.pool st.pool s deleted (st.buckets (hash_index st s))
          (v.entries (hash_index st s)))
        v.entries;
  fits = v.fits;
}
