-- ===== src/Libelftc/StringTable/NewEntry.antt =====
-- A new string at the end of the pool, and its entry at the front of its bucket.
use elftoolchain.Base.{
  ℕ, ◌+◌, ◌-◌, ◌^◌, ◌≤◌, ◌<◌, ◌≡◌, ◌≢◌, refl, ap, ◌∙◌, ◌⊎◌, inl, inr, Bool, true, false, some, List,
  [], ◌∷◌, ◌++◌, Bytes, leb, length, drop, arith, length-append, Bool-cases,
}
use elftoolchain.Libelftc.StringTable.{
  Entry, StringTable, same, is_named, find, hash_index, find_hash_entry, with_bucket, grown, put,
  add_to_pool,
}
use elftoolchain.Libelftc.StringTable.Search.{
  IsText, IsEnded, IsEntry, IsEnded-append, same_self, same_other, find-append, All-IsEntry-append,
  drop-append, get_elem?-IsEnded, IsEnded-length, drop-length, get_elem?-append,
}
use elftoolchain.Libelftc.StringTable.Buckets.{
  entries-with_bucket, find_hash_entry-own, find_hash_entry-unchanged, IsValid,
}

-- The table with the string at the end of a pool of `m` bytes.
unfoldable pub added : StringTable → Bytes → ℕ → StringTable
added st s m = record st { pool = st.pool ++ (s ++ 0 ∷ []); pool_size = m }

pub put-added :
    (st : StringTable) (s : Bytes)
    → length st.pool + (length s + 1) ≤ st.pool_size
    → length st.pool < 2 ^ 31
    → put st s ≡ some (length st.pool, added st s st.pool_size)
unfolding put added
put-added st s h small = ground arith

pub add_to_pool-added :
    (alloc : ℕ → Bool) (st : StringTable) (s : Bytes)
    → length st.pool ≤ st.pool_size
    → length s < 4096
    → st.pool_size < 2 ^ 31
    → (add_to_pool alloc st s ≡ some (0, st))
      ⊎ ((m : ℕ) × (add_to_pool alloc st s ≡ some (length st.pool, added st s m))
          × (length st.pool + (length s + 1) ≤ m))
unfolding add_to_pool grown added
add_to_pool-added alloc st s fits short small =
    elim (Bool-cases (leb st.pool_size (length st.pool + (length s + 1)))) [
      | inl full ↦ elim (Bool-cases (alloc (grown st.pool_size))) [
        | inl granted ↦ inr (
          grown st.pool_size,
          rw (full, granted)
              (put-added (record st { pool_size = grown st.pool_size }) s (omega arith)
                (omega arith)),
          omega arith,
        )
        | inr refused ↦ inl (rw (full, refused) refl)
      ]
      | inr free ↦
          inr (st.pool_size, rw free (put-added st s (ground arith) (omega arith)), ground arith)
    ]

abbrev pub new_entry : StringTable → Entry
new_entry st = record { idx = length st.pool; deleted = false }

-- The table with the string in the pool and in its bucket.
unfoldable pub with_new : StringTable → Bytes → ℕ → StringTable
with_new st s m =
    with_bucket (added st s m) (hash_index st s) (new_entry st ∷ st.buckets (hash_index st s))

-- The pool from the new string on.
pub drop-new : (p s : Bytes) → drop (length p) (p ++ (s ++ 0 ∷ [])) ≡ s ++ 0 ∷ []
drop-new p s =
    drop-append (length p) p (s ++ 0 ∷ []) (omega arith)
    ∙ ap (λ t. t ++ (s ++ 0 ∷ [])) (drop-length p)

pub stored-new :
    (st : StringTable) (s : Bytes)
    → same (drop (length st.pool) (st.pool ++ (s ++ 0 ∷ []))) s ≡ true
stored-new st s = rw (drop-new st.pool s) (same_self s [])

pub find_hash_entry-with_new :
    (st : StringTable) (s : Bytes) (m : ℕ)
    → find_hash_entry (with_new st s m) s ≡ some (new_entry st)
unfolding with_new hash_index added find
find_hash_entry-with_new st s m = find_hash_entry-own (added st s m) _ s ∙ rw (stored-new st s) refl

pub find-new_other :
    (st : StringTable) (s t : Bytes) (es : List Entry)
    → IsText s
    → IsText t
    → t ≢ s
    → find (st.pool ++ (s ++ 0 ∷ [])) t (new_entry st ∷ es) ≡ find (st.pool ++ (s ++ 0 ∷ [])) t es
unfolding find
find-new_other st s t es hs ht ne =
    let other : is_named (st.pool ++ (s ++ 0 ∷ [])) t (new_entry st) ≡ false =
      rw (drop-new st.pool s) (same_other s t hs ht ne) in
    rw other refl

pub find_hash_entry-with_new_other :
    (st : StringTable) (s t : Bytes) (m : ℕ)
    → IsValid st
    → IsText s
    → IsText t
    → t ≢ s
    → find_hash_entry (with_new st s m) t ≡ find_hash_entry st t
unfolding with_new added find_hash_entry hash_index
find_hash_entry-with_new_other st s t m v hs ht ne =
    find_hash_entry-unchanged (added st s m) (hash_index st s) _ t
      (find-new_other st s t (st.buckets (hash_index st s)) hs ht ne)
    ∙ find-append st.pool (s ++ 0 ∷ []) t (st.buckets (hash_index st t)) v.ended ht
        (v.entries (hash_index st t))

pub IsEntry-new :
    (st : StringTable) (s : Bytes)
    → IsEnded st.pool
    → IsEntry (st.pool ++ (s ++ 0 ∷ [])) (new_entry st)
IsEntry-new st s e = record {
  positive = IsEnded-length st.pool e;
  inside = omega (arith, length-append st.pool (s ++ 0 ∷ []), length-append s (0 ∷ []));
  behind_nul =
      get_elem?-append st.pool (s ++ 0 ∷ []) (length st.pool - 1)
        (omega (arith, IsEnded-length st.pool e))
      ∙ get_elem?-IsEnded st.pool e;
}

pub with_new-IsValid :
    (st : StringTable) (s : Bytes) (m : ℕ)
    → IsValid st
    → length st.pool + (length s + 1) ≤ m
    → IsValid (with_new st s m)
unfolding with_new with_bucket added
with_new-IsValid st s m v fits = record {
  ended = IsEnded-append st.pool s;
  entries =
      entries-with_bucket (added st s m) (hash_index st s) _
        (
          IsEntry-new st s v.ended,
          All-IsEntry-append st.pool (s ++ 0 ∷ []) (st.buckets (hash_index st s))
              (v.entries (hash_index st s)),
        )
        (λ j. All-IsEntry-append st.pool (s ++ 0 ∷ []) (st.buckets j) (v.entries j));
  fits = omega (arith, fits, length-append st.pool (s ++ 0 ∷ []), length-append s (0 ∷ []));
}
