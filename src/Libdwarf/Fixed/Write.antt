-- ===== src/Libdwarf/Fixed/Write.antt =====
-- What the writers of fixed-width integers store: the bytes of the number.
use elftoolchain.Base.{
  ℕ, zero, suc, ◌+◌, ◌/◌, ◌%◌, ◌^◌, ◌≡◌, [], ◌∷◌, arith, ◌>>=◌, Bytes, ◌⊎◌, All, IsByte, length,
  inl, inr, refl, ap, some,
}
use elftoolchain.Base.Bits.{bit_and-0xff, shr}
use elftoolchain.Base.Mem.{store_n}
use elftoolchain.Libdwarf.Fixed.{
  write_lsb, write_msb, put_lsb_1, put_lsb_2, put_lsb_4, put_lsb_8, put_msb_1, put_msb_2, put_msb_4,
  put_msb_8, written,
}
use elftoolchain.Libdwarf.Fixed.Read.{le_value, be_value}

-- The `n` low bytes of a number, least or most significant first.
abbrev pub le_bytes : ℕ → ℕ → Bytes
le_bytes zero v = []
le_bytes (suc n) v = (v % 256) ∷ le_bytes n (v / 256)

abbrev pub be_bytes : ℕ → ℕ → Bytes
be_bytes zero v = []
be_bytes (suc n) v = (v / 256 ^ n % 256) ∷ be_bytes n v

pub length-le_bytes : (n v : ℕ) → length (le_bytes n v) ≡ n
length-le_bytes zero v = refl
length-le_bytes (suc n) v = ap suc (length-le_bytes n (v / 256))

pub length-be_bytes : (n v : ℕ) → length (be_bytes n v) ≡ n
length-be_bytes zero v = refl
length-be_bytes (suc n) v = ap suc (length-be_bytes n v)

pub le_bytes-IsByte : (n v : ℕ) → All IsByte (le_bytes n v)
le_bytes-IsByte zero v = tt
le_bytes-IsByte (suc n) v = (omega arith, le_bytes-IsByte n (v / 256))

pub be_bytes-IsByte : (n v : ℕ) → All IsByte (be_bytes n v)
be_bytes-IsByte zero v = tt
be_bytes-IsByte (suc n) v = (omega arith, be_bytes-IsByte n v)

-- The widths that the writers have a case for.
abbrev pub IsWriteWidth : ℕ → Type 0
IsWriteWidth n = (n ≡ 1) ⊎ (n ≡ 2) ⊎ (n ≡ 4) ⊎ (n ≡ 8)

put_lsb_2-store_n : (m : Bytes) (i v : ℕ) → put_lsb_2 m i v ≡ store_n m i (le_bytes 2 v)
unfolding put_lsb_2 put_lsb_1 store_n
put_lsb_2-store_n m i v = ground (arith, bit_and-0xff v, bit_and-0xff (shr v 8))

put_lsb_8-store_n : (m : Bytes) (i v : ℕ) → put_lsb_8 m i v ≡ store_n m i (le_bytes 8 v)
unfolding put_lsb_8 put_lsb_4 put_lsb_2 put_lsb_1 store_n
put_lsb_8-store_n m i v = ground (
  arith,
  bit_and-0xff v,
  bit_and-0xff (shr v 8),
  bit_and-0xff (shr v 16),
  bit_and-0xff (shr v 24),
  bit_and-0xff (shr v 32),
  bit_and-0xff (shr v 40),
  bit_and-0xff (shr v 48),
  bit_and-0xff (shr v 56),
)

put_lsb_4-store_n : (m : Bytes) (i v : ℕ) → put_lsb_4 m i v ≡ store_n m i (le_bytes 4 v)
unfolding put_lsb_4 put_lsb_2 put_lsb_1 store_n
put_lsb_4-store_n m i v = ground (
  arith,
  bit_and-0xff v,
  bit_and-0xff (shr v 8),
  bit_and-0xff (shr v 16),
  bit_and-0xff (shr v 24),
)

put_msb_2-store_n : (m : Bytes) (i v : ℕ) → put_msb_2 m i v ≡ store_n m i (be_bytes 2 v)
unfolding put_msb_2 put_msb_1 store_n
put_msb_2-store_n m i v = ground (arith, bit_and-0xff v, bit_and-0xff (shr v 8))

put_msb_4-store_n : (m : Bytes) (i v : ℕ) → put_msb_4 m i v ≡ store_n m i (be_bytes 4 v)
unfolding put_msb_4 put_msb_2 put_msb_1 store_n
put_msb_4-store_n m i v = ground (
  arith,
  bit_and-0xff v,
  bit_and-0xff (shr v 8),
  bit_and-0xff (shr v 16),
  bit_and-0xff (shr (shr v 16) 8),
)

put_msb_8-store_n : (m : Bytes) (i v : ℕ) → put_msb_8 m i v ≡ store_n m i (be_bytes 8 v)
unfolding put_msb_8 put_msb_4 put_msb_2 put_msb_1 store_n
put_msb_8-store_n m i v = ground (
  arith,
  bit_and-0xff v,
  bit_and-0xff (shr v 8),
  bit_and-0xff (shr v 16),
  bit_and-0xff (shr v 24),
  bit_and-0xff (shr v 32),
  bit_and-0xff (shr (shr v 32) 8),
  bit_and-0xff (shr (shr v 32) 16),
  bit_and-0xff (shr (shr (shr v 32) 16) 8),
)

-- A write of a width with a case stores the bytes of the number and moves the offset behind them.
pub write_lsb-store_n :
    (m : Bytes) (i v n : ℕ)
    → IsWriteWidth n
    → write_lsb m i v n ≡ (store_n m i (le_bytes n v) >>= λ m'. some (m', i + n))
unfolding write_lsb written put_lsb_1 store_n
write_lsb-store_n m i v n (inl e) = rw e (ground (arith, bit_and-0xff v))
write_lsb-store_n m i v n (inr (inl e)) = rw (e, put_lsb_2-store_n m i v)
write_lsb-store_n m i v n (inr (inr (inl e))) = rw (e, put_lsb_4-store_n m i v)
write_lsb-store_n m i v n (inr (inr (inr e))) = rw (e, put_lsb_8-store_n m i v)

pub write_msb-store_n :
    (m : Bytes) (i v n : ℕ)
    → IsWriteWidth n
    → write_msb m i v n ≡ (store_n m i (be_bytes n v) >>= λ m'. some (m', i + n))
unfolding write_msb written put_msb_1 store_n
write_msb-store_n m i v n (inl e) = rw e (ground (arith, bit_and-0xff v))
write_msb-store_n m i v n (inr (inl e)) = rw (e, put_msb_2-store_n m i v)
write_msb-store_n m i v n (inr (inr (inl e))) = rw (e, put_msb_4-store_n m i v)
write_msb-store_n m i v n (inr (inr (inr e))) = rw (e, put_msb_8-store_n m i v)

-- The bytes of a number stand for it, up to their width.
pub le_value-le_bytes : (n v : ℕ) → IsWriteWidth n → le_value (le_bytes n v) ≡ v % 256 ^ n
le_value-le_bytes n v (inl e) = rw e (omega arith)
le_value-le_bytes n v (inr (inl e)) = rw e (omega arith)
le_value-le_bytes n v (inr (inr (inl e))) = rw e (omega arith)
le_value-le_bytes n v (inr (inr (inr e))) = rw e (omega arith)

pub be_value-be_bytes : (n v : ℕ) → IsWriteWidth n → be_value (be_bytes n v) ≡ v % 256 ^ n
be_value-be_bytes n v (inl e) = rw e (omega arith)
be_value-be_bytes n v (inr (inl e)) = rw e (omega arith)
be_value-be_bytes n v (inr (inr (inl e))) = rw e (omega arith)
be_value-be_bytes n v (inr (inr (inr e))) = rw e (omega arith)
