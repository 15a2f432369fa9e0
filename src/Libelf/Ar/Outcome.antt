-- ===== src/Libelf/Ar/Outcome.antt =====
-- How a call of libelf ends, and the fields of an archive header.
use elftoolchain.Base.{
  ℕ, ◌+◌, Bytes, take, drop, get_elem?, Option, none, some, Bool, true, false, ◌==◌, ◌≡◌, refl,
  if◌then◌else◌,
}

-- The codes of LIBELF_SET_ERROR that the archive reader sets.
pub data Error : Type 0 where
  archive : Error
  resource : Error
  argument : Error
  version : Error
  header : Error

-- A value; NULL with an error; or undefined behaviour, such as a read outside of the file.
pub data Outcome {ℓ} (A : Type ℓ) : Type ℓ where
  ok : A → Outcome A
  err : Error → Outcome A
  undefined : Outcome A

infixl 5 ◌>>=◌
abbrev pub ◌>>=◌ {ℓ κ} : {A : Type ℓ} {B : Type κ} → Outcome A → (A → Outcome B) → Outcome B
ok a >>= f = f a
err e >>= f = err e
undefined >>= f = undefined

-- A chain that ends in a value has one at every step.
pub ok->>= :
    {A B : Type 0} (o : Outcome A) (f : A → Outcome B) (b : B)
    → (o >>= f) ≡ ok b
    → (x : A) × (o ≡ ok x) × (f x ≡ ok b)
ok->>= (ok x) f b h = (x, refl, h)
ok->>= (err e) f b h = cc h
ok->>= undefined f b h = cc h

-- A guard was passed.
pub ok-if :
    {A : Type 0} (c : Bool) (e : Error) (x : Outcome A) (a : A)
    → (if c then err e else x) ≡ ok a
    → (c ≡ false) × (x ≡ ok a)
ok-if false e x a h = (refl, h)
ok-if true e x a h = cc h

-- A failure behind a guard.
pub ok-if_not :
    {A : Type 0} (c : Bool) (e : Error) (x : Outcome A) (a : A)
    → (if c then x else err e) ≡ ok a
    → (c ≡ true) × (x ≡ ok a)
ok-if_not true e x a h = (refl, h)
ok-if_not false e x a h = cc h

-- A failed call of _libelf_ar_get_number ends in LIBELF_SET_ERROR(ARCHIVE, 0).
abbrev pub or_archive {ℓ} : {A : Type ℓ} → Option A → Outcome A
or_archive none = err archive
or_archive (some a) = ok a

-- The bytes `[i, i + n)` of a file.
abbrev pub slice : Bytes → ℕ → ℕ → Bytes
slice f i n = take n (drop i f)

-- Whether the byte `c` stands at `i`.
abbrev pub is_at : Bytes → ℕ → ℕ → Bool
is_at f i c = elim (get_elem? f i) [ none ↦ false | some b ↦ b == c ]

-- sizeof(struct ar_hdr), SARMAG and sizeof(ar_name)
abbrev pub hdr_size : ℕ
hdr_size = 60

abbrev pub sarmag : ℕ
sarmag = 8

abbrev pub name_size : ℕ
name_size = 16

-- The fields of the header at `h`.
abbrev pub ar_name : Bytes → ℕ → Bytes
ar_name f h = slice f h name_size

abbrev pub ar_date : Bytes → ℕ → Bytes
ar_date f h = slice f (h + 16) 12

abbrev pub ar_uid : Bytes → ℕ → Bytes
ar_uid f h = slice f (h + 28) 6

abbrev pub ar_gid : Bytes → ℕ → Bytes
ar_gid f h = slice f (h + 34) 6

abbrev pub ar_mode : Bytes → ℕ → Bytes
ar_mode f h = slice f (h + 40) 8

abbrev pub ar_size : Bytes → ℕ → Bytes
ar_size f h = slice f (h + 48) 10

abbrev pub ar_fmag : ℕ → ℕ
ar_fmag h = h + 58
