-- ===== src/Libelf/Ar/Symtab/Reads.antt =====
-- Which bytes the processing of a symbol table reads.
use elftoolchain.Base.{
  ℕ, zero, suc, ◌+◌, ◌-◌, ◌*◌, ◌%◌, ◌^◌, ◌≤◌, ◌<◌, ◌≡◌, refl, ap, ◌∙◌, inl, inr, Bool, true, false,
  ◌||◌, none, some, List, [], ◌∷◌, Bytes, ltb, leb, ◌==◌, if◌then◌else◌, length, drop, get_elem?,
  arith, Option-cases,
}
use elftoolchain.Libelf.Ar.Outcome.{Outcome, ok, err, undefined, ◌>>=◌}
use elftoolchain.Libelf.Ar.Open.{Archive}
use elftoolchain.Libelf.Ar.Hash.{elf_hash, hash_loop, hash_step}
use elftoolchain.Libelf.Ar.Symtab.{
  Arsym, read_byte, get_word, get_long, get_bytes, skip_string, add_entry, svr4_entries, arsym_size,
  process_svr4_symtab, process_bsd_symtab,
}

-- A call that reads no byte outside of the file.
abbrev pub IsDefined {ℓ} : {A : Type ℓ} → Outcome A → Type 0
IsDefined (ok a) = Unit
IsDefined (err e) = Unit
IsDefined undefined = ⊥

IsDefined->>= :
    {A B : Type 0} (o : Outcome A) (f : A → Outcome B)
    → IsDefined o
    → ((a : A) → o ≡ ok a → IsDefined (f a))
    → IsDefined (o >>= f)
IsDefined->>= (ok a) f d g = g a refl
IsDefined->>= (err e) f d g = tt
IsDefined->>= undefined f d g = d

IsDefined-if :
    {A : Type 0} (c : Bool) (x y : Outcome A)
    → (c ≡ true → IsDefined x)
    → (c ≡ false → IsDefined y)
    → IsDefined (if c then x else y)
IsDefined-if true x y p q = p refl
IsDefined-if false x y p q = q refl

read_byte-lt : (f : Bytes) (p : ℕ) → p < length f → IsDefined (read_byte f p)
unfolding read_byte
read_byte-lt [] p h = absurd (omega (arith, h))
read_byte-lt (c ∷ f) zero h = tt
read_byte-lt (c ∷ f) (suc p) h = read_byte-lt f p (omega (arith, h))

get_word-lt : (f : Bytes) (p : ℕ) → p + 4 ≤ length f → IsDefined (get_word f p)
unfolding get_word
get_word-lt f p h = IsDefined->>= (read_byte f p) _ (read_byte-lt f p (omega arith)) (λ b0 e0.
    IsDefined->>= (read_byte f (p + 1)) _ (read_byte-lt f (p + 1) (omega arith)) (λ b1 e1.
      IsDefined->>= (read_byte f (p + 2)) _ (read_byte-lt f (p + 2) (omega arith)) (λ b2 e2.
        IsDefined->>= (read_byte f (p + 3)) _ (read_byte-lt f (p + 3) (omega arith))
          (λ b3 e3. tt))))

-- A NUL in what is left of the file ends the hash.
hash_loop-nul : (h : ℕ) (s : Bytes) (k : ℕ) → get_elem? s k ≡ some 0 → IsDefined (hash_loop h s)
unfolding hash_loop
hash_loop-nul h [] k e = cc e
hash_loop-nul h (c ∷ s) zero e = IsDefined-if (c == 0) (ok h) _ (λ p. tt) (λ p. ground arith)
hash_loop-nul h (c ∷ s) (suc k) e =
    IsDefined-if (c == 0) (ok h) _ (λ p. tt) (λ p. hash_loop-nul (hash_step h c) s k e)

get_elem?-drop : (f : Bytes) (s k : ℕ) → get_elem? (drop s f) k ≡ get_elem? f (s + k)
get_elem?-drop f zero k = let e : k ≡ 0 + k = omega arith in ap (λ i. get_elem? f i) e
get_elem?-drop [] (suc s) k = refl
get_elem?-drop (c ∷ f) (suc s) k =
    let e : suc (s + k) ≡ suc s + k = omega arith in
    get_elem?-drop f s k ∙ ap (λ i. get_elem? (c ∷ f) i) e

elf_hash-nul :
    (f : Bytes) (s e : ℕ) → s ≤ e → get_elem? f e ≡ some 0 → IsDefined (elf_hash (drop s f))
unfolding elf_hash
elf_hash-nul f s e le nul =
    hash_loop-nul 0 (drop s f) (e - s)
      (get_elem?-drop f s (e - s) ∙ ap (λ i. get_elem? f i) same ∙ nul)
  where
    same : s + (e - s) ≡ e
    same = omega (arith, le)

skip_string-lt : (f : Bytes) (s n : ℕ) → s + n ≤ length f → IsDefined (skip_string f s n)
unfolding skip_string
skip_string-lt f s zero h = tt
skip_string-lt f s (suc n) h =
    IsDefined->>= (read_byte f s) _ (read_byte-lt f s (omega arith))
      (λ c e. IsDefined-if (c == 0) _ _ (λ p. tt) (λ p. skip_string-lt f (s + 1) n (omega arith)))

add_entry-IsDefined :
    (f : Bytes) (off s : ℕ) (others : Outcome (List Arsym))
    → IsDefined (elf_hash (drop s f))
    → IsDefined others
    → IsDefined (add_entry f off s others)
unfolding add_entry
add_entry-IsDefined f off s others d d' =
    IsDefined->>= (elf_hash (drop s f)) _ d (λ h e. IsDefined->>= others _ d' (λ syms e'. tt))

svr4_entries-IsDefined :
    (f : Bytes) (end p s n : ℕ)
    → p + n * 4 ≤ end
    → end ≤ length f
    → get_elem? f (end - 1) ≡ some 0
    → IsDefined (svr4_entries f end p s n)
unfolding svr4_entries
svr4_entries-IsDefined f end p s zero room inside nul = tt
svr4_entries-IsDefined f end p s (suc n) room inside nul =
    IsDefined-if (leb end s) _ _ (λ c. tt)
      (λ c. IsDefined->>= (get_word f p) _ (get_word-lt f p (omega arith)) (λ off e.
        IsDefined-if (leb (length f) off) _ _ (λ c'. tt)
          (λ c'. add_entry-IsDefined f off s _ (elf_hash-nul f s (end - 1) (ground arith) nul) (
            IsDefined->>= (skip_string f s (end - s)) _
              (skip_string-lt f s (end - s) (ground arith))
              (λ s' e'. svr4_entries-IsDefined f end (p + 4) s' n (omega arith) inside nul)))))

module _ (alloc : ℕ → Bool) where
  -- On a raw symbol table that lies in the file and whose last byte is NUL,
  -- `_libelf_ar_process_svr4_symtab` reads no byte outside of the file, whatever else the table
  -- holds.
  pub process_svr4_symtab-IsDefined :
      (a : Archive)
      → a.rawsymtab + a.rawsymtabsz ≤ length a.rawfile
      → get_elem? a.rawfile (a.rawsymtab + a.rawsymtabsz - 1) ≡ some 0
      → IsDefined (process_svr4_symtab alloc a)
  unfolding process_svr4_symtab
  process_svr4_symtab-IsDefined a inside nul =
      IsDefined-if (ltb a.rawsymtabsz 4) _ _ (λ c. tt)
        (λ c.
          IsDefined->>= (get_word a.rawfile a.rawsymtab) _
            (get_word-lt a.rawfile a.rawsymtab (ground arith))
            (λ n e.
              IsDefined-if (n == 0 || leb (a.rawsymtab + a.rawsymtabsz) (a.rawsymtab + 4 + n * 4)) _
                _ (λ c'. tt)
                (λ c'.
                  IsDefined-if (alloc (arsym_size * (n + 1))) _ _
                    (λ g.
                      svr4_entries-IsDefined a.rawfile (a.rawsymtab + a.rawsymtabsz)
                        (a.rawsymtab + 4) (a.rawsymtab + 4 + n * 4) n (ground arith) inside nul)
                    (λ g. tt))))

get_elem?-lt : (f : Bytes) (p b : ℕ) → get_elem? f p ≡ some b → p < length f
get_elem?-lt [] p b e = cc e
get_elem?-lt (c ∷ f) zero b e = omega arith
get_elem?-lt (c ∷ f) (suc p) b e = omega (arith, get_elem?-lt f p b e)

read_byte-none : (f : Bytes) (p : ℕ) → get_elem? f p ≡ none → read_byte f p ≡ undefined
unfolding read_byte
read_byte-none f p e = rw (e, read_byte) refl

read_byte-some : (f : Bytes) (p b : ℕ) → get_elem? f p ≡ some b → read_byte f p ≡ ok b
unfolding read_byte
read_byte-some f p b e = rw (e, read_byte) refl

get_bytes-outside : (f : Bytes) (p n : ℕ) → 1 ≤ n → length f < p + n → get_bytes f p n ≡ undefined
unfolding get_bytes
get_bytes-outside f p zero some_bytes out = absurd (omega (arith, some_bytes))
get_bytes-outside f p (suc n) some_bytes out = elim (Option-cases (get_elem? f p)) [
  | inl e ↦ rw (read_byte-none f p e) refl
  | inr (b, e) ↦
      rw
        (
          read_byte-some f p b e,
          get_bytes-outside f (p + 1) n (more (get_elem?-lt f p b e)) (omega (arith, out)),
        )
        refl
]
  where
    more : p < length f → 1 ≤ n
    more h = omega (arith, h, out)

module _ (alloc : ℕ → Bool) where
  -- On a raw symbol table of at least sixteen bytes, where the array size in front is a multiple of
  -- sixteen, below the size of the table and 2 ^ 63, and the file ends before the `long` behind the
  -- array, `_libelf_ar_process_bsd_symtab` reads outside of the file.
  pub process_bsd_symtab_outside :
      (a : Archive) (size : ℕ)
      → 16 ≤ a.rawsymtabsz
      → get_long a.rawfile a.rawsymtab ≡ ok size
      → size < a.rawsymtabsz
      → size < 2 ^ 63
      → size % 16 ≡ 0
      → length a.rawfile < a.rawsymtab + 16 + size
      → process_bsd_symtab alloc a ≡ undefined
  unfolding process_bsd_symtab
  process_bsd_symtab_outside a size room read fits positive pairs out =
      let outside =
        get_bytes-outside a.rawfile (a.rawsymtab + 8 + size) 8 (omega arith) (omega arith) in
      rw (read, outside) (ground arith)
