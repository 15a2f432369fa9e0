-- ===== src/Libelftc/StringTable.antt =====
-- The string tables of libelftc/elftc_string_table.c with the hash of libelftc/libelftc_hash.c. A
-- string is the list of its bytes before the NUL; `none` is undefined behaviour.
pub mod Search
pub mod Buckets
pub mod NewEntry
pub mod Insert
pub mod Remove
mod Tests
use elftoolchain.Base.{
  ℕ, zero, suc, ◌+◌, ◌-◌, ◌*◌, ◌/◌, ◌%◌, ◌^◌, Bool, true, false, ◌&&◌, ◌||◌, not, Option, none,
  some, List, [], ◌∷◌, ◌++◌, Bytes, ◌>>=◌, ltb, leb, ◌==◌, if◌then◌else◌, length, drop, get_elem?,
  bit_xor,
}

-- `hash ^= c` with a signed char, then `hash *= FNV_PRIME`.
pub hash_round : ℕ → ℕ → ℕ
hash_round hash c = bit_xor hash (if ltb c 128 then c else c + 2 ^ 32 - 256) * 16777619 % 2 ^ 32

pub hash_from : ℕ → Bytes → ℕ
hash_from hash [] = hash
hash_from hash (c ∷ s) = hash_from (hash_round hash c) s

pub hash_string : Bytes → ℕ
hash_string s = hash_from 2166136261 s

-- ste_idx, which is negative where the string is deleted.
pub record Entry : Type 0 where
  pub idx : ℕ
  pub deleted : Bool

-- The bytes of the pool below the length; st_len is their number and the flag.
pub record StringTable : Type 0 where
  pub pool : Bytes
  pub compaction : Bool
  pub nbuckets : ℕ
  pub pool_size : ℕ
  pub buckets : ℕ → List Entry

-- strcmp(s, string) == 0, with the pool from `s` on. The pool ends in a NUL, so its end is not met.
pub same : Bytes → Bytes → Bool
same [] s = false
same (c ∷ p) [] = c == 0
same (c ∷ p) (d ∷ s) = let rest : Bool = same p s in if c == d then rest else false

abbrev pub is_named : Bytes → Bytes → Entry → Bool
is_named pool s e = same (drop e.idx pool) s

-- The SLIST_FOREACH of elftc_string_table_find_hash_entry.
pub find : Bytes → Bytes → List Entry → Option Entry
find pool s [] = none
find pool s (e ∷ es) =
    let rest : Option Entry = find pool s es in if is_named pool s e then some e else rest

-- An assignment to the ste_idx of the entry that `find` returns.
pub assign : Bytes → Bytes → Bool → List Entry → List Entry
assign pool s deleted [] = []
assign pool s deleted (e ∷ es) =
    let rest : List Entry = assign pool s deleted es in
    if is_named pool s e then record { idx = e.idx; deleted = deleted } ∷ es else e ∷ rest

pub hash_index : StringTable → Bytes → ℕ
hash_index st s = hash_string s % st.nbuckets

pub find_hash_entry : StringTable → Bytes → Option Entry
find_hash_entry st s = find st.pool s (st.buckets (hash_index st s))

-- The table with another bucket at `i`.
pub with_bucket : StringTable → ℕ → List Entry → StringTable
with_bucket st i es = record st { buckets = λ j. if j == i then es else st.buckets j }

pub assign_entry : StringTable → Bytes → Bool → StringTable
assign_entry st s deleted =
    with_bucket st (hash_index st s) (assign st.pool s deleted (st.buckets (hash_index st s)))

pub default_size : ℕ
default_size = 4096

-- roundup(st_string_pool_size + INCREMENT, INCREMENT)
pub grown : ℕ → ℕ
grown n = (n + 4096 + 4095) % 2 ^ 64 / 4096 * 4096

-- The memcpy() and the new length, and the index as an int.
pub put : StringTable → Bytes → Option (ℕ × StringTable)
put st s =
    if ltb st.pool_size (length st.pool + (length s + 1)) || leb (2 ^ 31) (length st.pool)
    then none
    else some (length st.pool, record st { pool = st.pool ++ (s ++ 0 ∷ []) })

-- sizeof(struct _Elftc_String_Table_Entry)
abbrev pub entry_size : ℕ
entry_size = 16

pub lookup : StringTable → Bytes → ℕ
lookup st s = elim (find_hash_entry st s) [ none ↦ 0 | some e ↦ if e.deleted then 0 else e.idx ]

-- true is ELFTC_SUCCESS.
pub remove : StringTable → Bytes → Bool × StringTable
remove st s = elim (find_hash_entry st s) [
  | none ↦ (false, st)
  | some e ↦
      if e.deleted
      then (false, st)
      else (true, record (assign_entry st s true) { compaction = true })
]

-- The string at an offset; `none` is NULL with EINVAL.
pub to_string : StringTable → ℕ → Option ℕ
to_string st offset =
    if offset == 0 || leb (length st.pool) offset then none else elim (get_elem? st.pool offset) [
      | none ↦ none
      | some c ↦ elim (get_elem? st.pool (offset - 1)) [
        | none ↦ none
        | some d ↦ if c == 0 || not (d == 0) then none else some offset
      ]
    ]

-- A table of one NUL, in a pool of the given size.
pub fresh : ℕ → StringTable
fresh size = record {
  pool = 0 ∷ [];
  compaction = false;
  nbuckets = size / 128;
  pool_size = size;
  buckets = λ j. [];
}

module _ (alloc : ℕ → Bool) where
  -- `alloc n` says whether malloc(n) or realloc(pool, n) succeeds.
  pub create : ℕ → Option StringTable
  create sizehint =
      let size = if ltb sizehint default_size then default_size else sizehint in
      if not (alloc (32 + size / 128 * 8)) || not (alloc size) then none else some (fresh size)

  pub add_to_pool : StringTable → Bytes → Option (ℕ × StringTable)
  add_to_pool st s =
      if leb st.pool_size (length st.pool + (length s + 1))
      then if alloc (grown st.pool_size)
        then put (record st { pool_size = grown st.pool_size }) s
        else some (0, st)
      else put st s

  -- A new string, which goes to the front of its bucket.
  pub insert_new : StringTable → Bytes → Option (ℕ × StringTable)
  insert_new st s = add_to_pool st s >>= λ r. some (
      if r.0 == 0 then (0, r.1) else (
        r.0,
        with_bucket r.1 (hash_index r.1 s)
            (record { idx = r.0; deleted = false } ∷ r.1.buckets (hash_index r.1 s)),
      ))

  pub insert : StringTable → Bytes → Option (ℕ × StringTable)
  insert st s = elim (find_hash_entry st s) [
    | none ↦ if alloc entry_size then insert_new st s else some (0, st)
    | some e ↦ some (e.idx, assign_entry st s false)
  ]
