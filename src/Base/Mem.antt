-- ===== src/Base/Mem.antt =====
-- A buffer as the list of its bytes. `none` is an access outside of it, which C leaves undefined.
use elftoolchain.Base.{
  ℕ, zero, suc, ◌+◌, ◌≤◌, ◌<◌, ◌≡◌, ◌≢◌, refl, ap, ◌∙◌, Option, none, some, [], ◌∷◌, arith, ◌>>=◌,
  get_elem?, length, drop, ◌++◌, ◌⊎◌, inl, inr, Bytes, Option-cases, All, IsByte,
}

-- `buf[i]`
abbrev pub load : Bytes → ℕ → Option ℕ
load = get_elem?

-- `buf[i] = v`
unfoldable pub store : Bytes → ℕ → ℕ → Option Bytes
store [] i v = none
store (x ∷ xs) zero v = some (v ∷ xs)
store (x ∷ xs) (suc i) v = store xs i v >>= λ ys. some (x ∷ ys)

-- The bytes from `i` on.
unfoldable pub load_n : Bytes → ℕ → ℕ → Option Bytes
load_n m i zero = some []
load_n m i (suc n) = load m i >>= λ b. load_n m (i + 1) n >>= λ bs. some (b ∷ bs)

-- The bytes from `i` on, written from the last to the first.
unfoldable pub store_n : Bytes → ℕ → Bytes → Option Bytes
store_n m i [] = some m
store_n m i (b ∷ bs) = store_n m (i + 1) bs >>= λ m'. store m' i b

pub length-store : (m : Bytes) (i v : ℕ) {m' : Bytes} → store m i v ≡ some m' → length m' ≡ length m
unfolding store
length-store [] i v h = ground arith
length-store (x ∷ xs) zero v h = ground arith
length-store (x ∷ xs) (suc i) v h = elim (Option-cases (store xs i v)) [
  | inl e ↦ ground arith
  | inr (ys, e) ↦ ground (arith, length-store xs i v e)
]

pub load-store_self :
    (m : Bytes) (i v : ℕ) {m' : Bytes} → store m i v ≡ some m' → load m' i ≡ some v
unfolding store
load-store_self [] i v h = ground arith
load-store_self (x ∷ xs) zero v h = ground arith
load-store_self (x ∷ xs) (suc i) v h = elim (Option-cases (store xs i v)) [
  | inl e ↦ ground arith
  | inr (ys, e) ↦ ground (arith, load-store_self xs i v e)
]

pub load-store_ne :
    (m : Bytes) (i j v : ℕ) {m' : Bytes} → store m i v ≡ some m' → i ≢ j → load m' j ≡ load m j
unfolding store
load-store_ne [] i j v h ne = ground arith
load-store_ne (x ∷ xs) zero zero v h ne = absurd (ne refl)
load-store_ne (x ∷ xs) zero (suc j) v h ne = ground arith
load-store_ne (x ∷ xs) (suc i) zero v h ne = ground arith
load-store_ne (x ∷ xs) (suc i) (suc j) v h ne = elim (Option-cases (store xs i v)) [
  | inl e ↦ ground arith
  | inr (ys, e) ↦ ground (arith, load-store_ne xs i j v e (λ p. ne (ap suc p)))
]

-- A store succeeds exactly inside the buffer.
pub store-total : (m : Bytes) (i v : ℕ) → i < length m → (m' : Bytes) × (store m i v ≡ some m')
unfolding store
store-total [] i v h = absurd (omega arith)
store-total (x ∷ xs) zero v h = (v ∷ xs, refl)
store-total (x ∷ xs) (suc i) v h = let (ys, e) = store-total xs i v (omega arith) in (x ∷ ys, rw e)

pub store-out : (m : Bytes) (i v : ℕ) → length m ≤ i → store m i v ≡ none
unfolding store
store-out [] i v h = refl
store-out (x ∷ xs) zero v h = absurd (omega arith)
store-out (x ∷ xs) (suc i) v h = rw (store-out xs i v (omega arith))

pub load-total : (m : Bytes) (i : ℕ) → i < length m → (b : ℕ) × (load m i ≡ some b)
load-total [] i h = absurd (omega arith)
load-total (x ∷ xs) zero h = (x, refl)
load-total (x ∷ xs) (suc i) h = load-total xs i (omega arith)

pub load-out : (m : Bytes) (i : ℕ) → length m ≤ i → load m i ≡ none
load-out [] i h = refl
load-out (x ∷ xs) zero h = absurd (omega arith)
load-out (x ∷ xs) (suc i) h = load-out xs i (omega arith)

pub length-store_n :
    (m : Bytes) (i : ℕ) (bs : Bytes) {m' : Bytes} → store_n m i bs ≡ some m' → length m' ≡ length m
unfolding store_n
length-store_n m i [] h = ground arith
length-store_n m i (b ∷ bs) {m'} h = elim (Option-cases (store_n m (i + 1) bs)) [
  | inl e ↦ ground arith
  | inr (m₁, e) ↦ length-store m₁ i b (rw e at h) ∙ length-store_n m (i + 1) bs e
]

-- What lies outside of the bytes written stays.
pub load-store_n_out :
    (m : Bytes) (i : ℕ) (bs : Bytes) {m' : Bytes} (j : ℕ)
    → store_n m i bs ≡ some m'
    → (j < i) ⊎ (i + length bs ≤ j)
    → load m' j ≡ load m j
unfolding store_n
load-store_n_out m i [] j h out = ground arith
load-store_n_out m i (b ∷ bs) {m'} j h out = elim (Option-cases (store_n m (i + 1) bs)) [
  | inl e ↦ ground arith
  | inr (m₁, e) ↦
      load-store_ne m₁ i j b (rw e at h) (omega arith)
      ∙ load-store_n_out m (i + 1) bs j e (omega arith)
]

load_n-congr :
    (m m' : Bytes) (i n : ℕ)
    → ((j : ℕ) → i ≤ j → load m' j ≡ load m j)
    → load_n m' i n ≡ load_n m i n
unfolding load_n
load_n-congr m m' i zero same = refl
load_n-congr m m' i (suc n) same =
    rw (same i (omega arith), load_n-congr m m' (i + 1) n (λ j h. same j (omega arith)))

-- Reading back what was written.
pub load_n-store_n :
    (m : Bytes) (i : ℕ) (bs : Bytes) {m' : Bytes}
    → store_n m i bs ≡ some m'
    → load_n m' i (length bs) ≡ some bs
unfolding store_n load_n
load_n-store_n m i [] h = refl
load_n-store_n m i (b ∷ bs) {m'} h = elim (Option-cases (store_n m (i + 1) bs)) [
  | inl e ↦ ground arith
  | inr (m₁, e) ↦
      let h' = rw e at h in
      rw (
        load-store_self m₁ i b h',
        load_n-congr m₁ m' (i + 1) (length bs) (λ j p. load-store_ne m₁ i j b h' (omega arith)),
        load_n-store_n m (i + 1) bs e,
      )
]

-- Writing inside the buffer succeeds.
pub store_n-total :
    (m : Bytes) (i : ℕ) (bs : Bytes)
    → i + length bs ≤ length m
    → (m' : Bytes) × (store_n m i bs ≡ some m')
unfolding store_n
store_n-total m i [] h = (m, refl)
store_n-total m i (b ∷ bs) h =
    let (m₁, e) = store_n-total m (i + 1) bs (omega arith) in
    let (m₂, e') = store-total m₁ i b (omega (arith, length-store_n m (i + 1) bs e)) in
    (m₂, rw e e')

-- The bytes `bs` stand at `i + k`, `i + k + 1` and so on.
abbrev pub LoadedFrom : Bytes → ℕ → ℕ → Bytes → Type 0
LoadedFrom m i k [] = Unit
LoadedFrom m i k (b ∷ bs) = (load m (i + k) ≡ some b) × (b < 256) × LoadedFrom m i (k + 1) bs

pub load_n-eq-cons :
    (m : Bytes) (j n b : ℕ) (bs : Bytes)
    → load_n m j (suc n) ≡ some (b ∷ bs)
    → (load m j ≡ some b) × (load_n m (j + 1) n ≡ some bs)
unfolding load_n
load_n-eq-cons m j n b bs h = ground arith

load_n-LoadedFrom :
    (m : Bytes) (i k j : ℕ) (bs : Bytes)
    → j ≡ i + k
    → All IsByte bs
    → load_n m j (length bs) ≡ some bs
    → LoadedFrom m i k bs
load_n-LoadedFrom m i k j [] e a h = tt
load_n-LoadedFrom m i k j (b ∷ bs) e a h =
    let (p, q) = load_n-eq-cons m j (length bs) b bs h in
    (rw (← e) p, a.0, load_n-LoadedFrom m i (k + 1) (j + 1) bs (omega arith) a.1 q)

-- The bytes `bs` stand at `i`, `i + 1` and so on.
abbrev pub Loaded : Bytes → ℕ → Bytes → Type 0
Loaded m i [] = Unit
Loaded m i (b ∷ bs) = (load m i ≡ some b) × (b < 256) × LoadedFrom m i 1 bs

pub load_n-Loaded :
    (m : Bytes) (i : ℕ) (bs : Bytes)
    → All IsByte bs
    → load_n m i (length bs) ≡ some bs
    → Loaded m i bs
load_n-Loaded m i [] a h = tt
load_n-Loaded m i (b ∷ bs) a h =
    let (p, q) = load_n-eq-cons m i (length bs) b bs h in
    (p, a.0, load_n-LoadedFrom m i 1 (i + 1) bs refl a.1 q)

drop-load : (m : Bytes) (p q b : ℕ) → q ≡ suc p → load m p ≡ some b → drop p m ≡ b ∷ drop q m
drop-load [] p q b e h = cc
drop-load (x ∷ xs) zero q b e h = ground arith
drop-load (x ∷ xs) (suc p) zero b e h = absurd (omega arith)
drop-load (x ∷ xs) (suc p) (suc q) b e h = drop-load xs p q b (omega arith) h

-- The buffer from `p` on begins with the bytes that are loaded there.
pub load_n-drop :
    (m : Bytes) (p : ℕ) (bs : Bytes)
    → load_n m p (length bs) ≡ some bs
    → drop p m ≡ bs ++ drop (p + length bs) m
load_n-drop m p [] h = ap (λ k. drop k m) (omega arith)
load_n-drop m p (b ∷ bs) h =
    let (l, r) = load_n-eq-cons m p (length bs) b bs h in
    drop-load m p (p + 1) b (omega arith) l
    ∙ ap (λ t. b ∷ t) (load_n-drop m (p + 1) bs r ∙ ap (λ k. bs ++ drop k m) (omega arith))
