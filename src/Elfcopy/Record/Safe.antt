-- ===== src/Elfcopy/Record/Safe.antt =====
-- What the readers of a line can and cannot give.
use elftoolchain.Base.{
  ℕ, zero, suc, ◌+◌, ◌*◌, ◌%◌, ◌^◌, ◌≤◌, ◌<◌, ◌≡◌, ◌≢◌, inl, inr, refl, ap, false, Option, none,
  some, Option-cases, Bool-cases, [], ◌∷◌, Bytes, leb, length, All, IsByte, arith,
}
use mathlib.Core.Path.{subst}
use native.Mathlib.Nat.{mod-le, pow-suc}
use elftoolchain.Elfcopy.Hex.{read_byte, Number, read_digits, read_num}
use elftoolchain.Elfcopy.Record.{
  Conversion, ok, invalid, overflow, unfinished, ◌>>=◌, or_invalid, Data, read_bytes,
}

pub ok_injective {ℓ} : {A : Type ℓ} (a b : A) → ok a ≡ ok b → a ≡ b
ok_injective {A = A} a b e =
    ap (λ x. elim x as (λ c. A) [ ok y ↦ y | invalid ↦ a | overflow ↦ a | unfinished ↦ a ]) e

-- A chain that ends well went well in its first step.
pub ok_bind {ℓ κ} :
    {A : Type ℓ} {B : Type κ} (o : Conversion A) (f : A → Conversion B) (b : B)
    → (o >>= f) ≡ ok b
    → (a : A) × (o ≡ ok a) × (f a ≡ ok b)
ok_bind (ok a) f b h = (a, refl, h)
ok_bind invalid f b h = ground (arith, h)
ok_bind overflow f b h = ground (arith, h)
ok_bind unfinished f b h = ground (arith, h)

pub ok_read {ℓ} : {A : Type ℓ} (o : Option A) (a : A) → or_invalid o ≡ ok a → o ≡ some a
ok_read none a h = ground (arith, h)
ok_read (some b) a h = ap some (ok_injective b a h)

-- Of the data that a buffer has room for, none is written behind it.
pub read_bytes_safe :
    (n i : ℕ) (line : Bytes) (checksum : ℕ) → i + n ≤ 256 → read_bytes n i line checksum ≢ overflow
unfolding read_bytes
read_bytes_safe zero i line checksum fits = λ e. ground (arith, e)
read_bytes_safe (suc n) i line checksum fits =
    let room : leb 256 i ≡ false = ground arith in
    elim (Option-cases (read_num line 1 checksum)) [
      | inl none_read ↦ rw none_read (λ e. ground (arith, e))
      | inr (b, read) ↦
          rw (read, room)
            (λ e. ground (arith, e, read_bytes_safe n (i + 1) b.rest b.checksum (omega arith)))
    ]

read_byte_bound : (l l' : Bytes) (b : ℕ) → read_byte l ≡ some (b, l') → b < 256
unfolding read_byte
read_byte_bound [] l' b e = ground (arith, e)
read_byte_bound (x ∷ []) l' b e = ground (arith, e)
read_byte_bound (x ∷ y ∷ l) l' b e = ground (arith, e)

-- The number of `n` bytes.
read_digits_bound :
    (n k : ℕ) (l : Bytes) (num checksum : ℕ) (r : Number)
    → num < 256 ^ k
    → read_digits n l num checksum ≡ some r
    → r.num < 256 ^ (k + n)
unfolding read_digits
read_digits_bound zero k l num checksum r low e =
    let same : num ≡ r.num = ground (arith, e) in
    omega (arith, same, low, ap (λ (x : ℕ). 256 ^ x) (zero_right k))
  where
    zero_right : (k : ℕ) → k + 0 ≡ k
    zero_right k = omega arith
read_digits_bound (suc n) k l num checksum r low e = elim (Option-cases (read_byte l)) [
  | inl none_read ↦ ground (arith, rw none_read at e)
  | inr ((b, l'), read) ↦
      let byte = read_byte_bound l l' b read in
      let wrapped = (num * 256 + b) % 2 ^ 64 in
      let fits : wrapped < 256 ^ suc k =
        omega (arith, low, byte, pow-suc 256 k, mod-le (num * 256 + b) (2 ^ 64)) in
      let tail : read_digits n l' wrapped ((checksum + b) % 256) ≡ some r = rw read at e in
      let exponent : suc k + n ≡ k + suc n = omega arith in
      omega (
        arith,
        read_digits_bound n (suc k) l' wrapped ((checksum + b) % 256) r fits tail,
        ap (λ (x : ℕ). 256 ^ x) exponent,
      )
]

pub read_num_bound :
    (n : ℕ) (l : Bytes) (checksum : ℕ) (r : Number)
    → read_num l n checksum ≡ some r
    → r.num < 256 ^ n
unfolding read_num
read_num_bound n l checksum r e = omega (
  arith,
  read_digits_bound n 0 l 0 checksum r (omega arith) e,
  ap (λ (x : ℕ). 256 ^ x) (zero_left n),
)
  where
    zero_left : (n : ℕ) → 0 + n ≡ n
    zero_left n = omega arith

-- The data are bytes, as many as were asked for.
pub read_bytes-IsByte :
    (n i : ℕ) (line : Bytes) (checksum : ℕ) (d : Data)
    → read_bytes n i line checksum ≡ ok d
    → All IsByte d.bytes × (length d.bytes ≡ n)
unfolding read_bytes
read_bytes-IsByte zero i line checksum d e =
    let same : record { rest = line; bytes = []; checksum = checksum } ≡ d = ok_injective _ d e in
    let empty : [] ≡ d.bytes = ap (λ (x : Data). x.bytes) same in
    subst (λ (x : Bytes). All IsByte x × (length x ≡ 0)) empty (_, refl)
read_bytes-IsByte (suc n) i line checksum d e =
    let (b, read, e1) = ok_bind (or_invalid (read_num line 1 checksum)) _ d e in
    let byte = read_num_bound 1 line checksum b (ok_read (read_num line 1 checksum) b read) in
    elim (Bool-cases (leb 256 i)) [
      | inl full ↦ ground (arith, rw full at e1)
      | inr room ↦
          let (d', rest, e2) =
            ok_bind (read_bytes n (i + 1) b.rest b.checksum) _ d (rw room at e1) in
          let (small, len) = read_bytes-IsByte n (i + 1) b.rest b.checksum d' rest in
          let cons : b.num ∷ d'.bytes ≡ d.bytes =
            ap (λ (x : Data). x.bytes) (ok_injective _ d e2) in
          subst (λ (x : Bytes). All IsByte x × (length x ≡ suc n)) cons ((byte, small), ap suc len)
    ]

-- A chain overflows only in one of its steps.
pub overflow_bind {ℓ κ} :
    {A : Type ℓ} {B : Type κ} (o : Conversion A) (f : A → Conversion B)
    → o ≢ overflow
    → ((a : A) → o ≡ ok a → f a ≢ overflow)
    → (o >>= f) ≢ overflow
overflow_bind (ok a) f first rest = rest a refl
overflow_bind invalid f first rest = λ h. ground (arith, h)
overflow_bind overflow f first rest = λ h. first refl
overflow_bind unfinished f first rest = λ h. ground (arith, h)

pub or_invalid_safe {ℓ} : {A : Type ℓ} (o : Option A) → or_invalid o ≢ overflow
or_invalid_safe none h = ground (arith, h)
or_invalid_safe (some a) h = ground (arith, h)

-- The data that are read fit.
pub read_bytes_room :
    (n i : ℕ) (line : Bytes) (checksum : ℕ) (d : Data)
    → i ≤ 256
    → read_bytes n i line checksum ≡ ok d
    → i + n ≤ 256
unfolding read_bytes
read_bytes_room zero i line checksum d low e = omega (arith, low)
read_bytes_room (suc n) i line checksum d low e =
    let (b, read, e1) = ok_bind (or_invalid (read_num line 1 checksum)) _ d e in
    elim (Bool-cases (leb 256 i)) [
      | inl full ↦ ground (arith, rw full at e1)
      | inr room ↦
          let (d', rest, e2) =
            ok_bind (read_bytes n (i + 1) b.rest b.checksum) _ d (rw room at e1) in
          let below : i < 256 = ground (arith, room) in
          omega (arith, read_bytes_room n (i + 1) b.rest b.checksum d' (omega (arith, below)) rest)
    ]
