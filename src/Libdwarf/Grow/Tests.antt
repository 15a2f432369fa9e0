-- ===== src/Libdwarf/Grow/Tests.antt =====
-- A concrete allocator, runs of the enlarging writers, and their theorems at concrete inputs.
use elftoolchain.Base.{
  ℕ, zero, suc, ◌≡◌, ◌<◌, ◌≤◌, refl, ap, ◌+◌, ◌-◌, ◌^◌, some, none, Option, [], ◌∷◌, Bytes, arith,
  length, ltb, if◌then◌else◌,
}
use elftoolchain.Base.Mem.{load}
use elftoolchain.Libdwarf.Leb.{read_uleb128, read_sleb128}
use elftoolchain.Libdwarf.Leb.Unsigned.{uleb_result}
use elftoolchain.Libdwarf.Leb.Signed.{sleb_result}
use elftoolchain.Libdwarf.Grow.{Allocator, Buffer, write_uleb128_alloc, write_sleb128_alloc}
use elftoolchain.Libdwarf.Grow.Writers.{IsValid, AppendsOrFails}
use elftoolchain.Libdwarf.Grow.Leb.{write_uleb128_alloc-appends, write_sleb128_alloc-appends}

-- The first `n` bytes, with 0xaa behind the end.
resized : Bytes → ℕ → Bytes
resized m zero = []
resized [] (suc n) = 0xaa ∷ resized [] n
resized (b ∷ m) (suc n) = b ∷ resized m n

length-resized : (m : Bytes) (n : ℕ) → length (resized m n) ≡ n
unfolding resized
length-resized m zero = refl
length-resized [] (suc n) = ap suc (length-resized [] n)
length-resized (b ∷ m) (suc n) = ap suc (length-resized m n)

load-resized : (m : Bytes) (n j : ℕ) → j < length m → j < n → load (resized m n) j ≡ load m j
unfolding resized
load-resized m zero j h k = absurd (omega arith)
load-resized [] (suc n) j h k = absurd (omega arith)
load-resized (b ∷ m) (suc n) zero h k = refl
load-resized (b ∷ m) (suc n) (suc j) h k = load-resized m n j (omega arith) (omega arith)

granted : Bytes → ℕ → Option Bytes
granted m n = if ltb n (2 ^ 63) then some (resized m n) else none

granted_size : (m : Bytes) (n : ℕ) {m' : Bytes} → granted m n ≡ some m' → length m' ≡ n
unfolding granted
granted_size m n h = ground (arith, length-resized m n)

granted_keeps :
    (m : Bytes) (n : ℕ) {m' : Bytes} (j : ℕ)
    → granted m n ≡ some m'
    → j < length m
    → j < n
    → load m' j ≡ load m j
unfolding granted
granted_keeps m n j e h k = ground (arith, load-resized m n j h k)

granted_limit : (m : Bytes) (n : ℕ) {m' : Bytes} → granted m n ≡ some m' → n < 2 ^ 63
unfolding granted
granted_limit m n h = ground arith

abbrev roomy : Allocator
roomy = record {
  realloc = granted;
  realloc_size = granted_size;
  realloc_keeps = granted_keeps;
  realloc_limit = granted_limit;
}

abbrev one_byte : Buffer
one_byte = record { block = 7 ∷ []; size = 1; offset = 1 }

one_byte-IsValid : IsValid one_byte
one_byte-IsValid = omega arith

write_uleb128_alloc-appends_example :
    (n : ℕ) × (n ≤ 10)
    × AppendsOrFails roomy
        (λ m. read_uleb128 m 1 ≡ uleb_result 300 (1 + n))
        one_byte
        n
        (write_uleb128_alloc roomy one_byte 300)
write_uleb128_alloc-appends_example =
    write_uleb128_alloc-appends roomy one_byte 300 one_byte-IsValid (omega arith)

write_sleb128_alloc-appends_example :
    (n : ℕ) × (n ≤ 10)
    × AppendsOrFails roomy
        (λ m. read_sleb128 m 1 ≡ sleb_result (2 ^ 64 - 300) (1 + n))
        one_byte
        n
        (write_sleb128_alloc roomy one_byte (2 ^ 64 - 300))
write_sleb128_alloc-appends_example =
    write_sleb128_alloc-appends roomy one_byte (2 ^ 64 - 300) one_byte-IsValid (omega arith)
