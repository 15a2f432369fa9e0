-- ===== src/Libelf/Ar/Hash/Sysv.antt =====
-- elf_hash next to the hash of the System V ABI.
use elftoolchain.Base.{
  ℕ, ◌+◌, ◌-◌, ◌*◌, ◌/◌, ◌%◌, ◌^◌, ◌<◌, ◌≡◌, refl, ap, ◌∙◌, false, [], ◌∷◌, Bytes, ◌==◌,
  if◌then◌else◌, bit_and, bit_xor, arith,
}
use native.Mathlib.Decide.{dec_lt}
use elftoolchain.Base.Bits.{shr, bit_and_mask, bit_and-zero}
use elftoolchain.Base.Xor.{
  bit_xor-zero, bit_xor_bound, bit_xor_split, bit_and_split, bit_and-complement,
}
use elftoolchain.Libelf.Ar.Outcome.{Outcome, ok, undefined}
use elftoolchain.Libelf.Ar.Hash.{top_bits, fold_top, hash_step, hash_loop, elf_hash}

-- A round on 32 bits: the four bits shifted out at the top come in again four bits up.
abbrev pub sysv_step : ℕ → ℕ → ℕ
sysv_step g c = let x = (g * 16 + c) % 2 ^ 32 in bit_xor (x % 2 ^ 28) (x / 2 ^ 28 * 16)

abbrev pub sysv_loop : ℕ → Bytes → Outcome ℕ
sysv_loop g [] = undefined
sysv_loop g (c ∷ s) =
    let rest : Outcome ℕ = sysv_loop (sysv_step g c) s in if c == 0 then ok g else rest

-- `h` cut into `a`, the four bits `t` and the low part `l`.
top_bits-cut : (a t l : ℕ) → t < 16 → l < 2 ^ 28 → top_bits ((a * 16 + t) * 2 ^ 28 + l) ≡ t * 2 ^ 28
top_bits-cut a t l ht hl = omega (
  arith,
  bit_and_split 28 (a * 16 + t) l 15 0 hl (omega arith),
  bit_and-zero l,
  bit_and_mask 4 (a * 16 + t),
)

-- The mask `~t` clears the four bits and keeps the others.
clear-cut :
    (a t l : ℕ)
    → t < 16
    → l < 2 ^ 28
    → a < 2 ^ 32
    → bit_and ((a * 16 + t) * 2 ^ 28 + l) (2 ^ 64 - 1 - t * 2 ^ 28) ≡ a * 2 ^ 32 + l
clear-cut a t l ht hl ha =
    let m : 2 ^ 64 - 1 - t * 2 ^ 28 ≡ ((2 ^ 32 - 1) * 2 ^ 4 + (15 - t)) * 2 ^ 28 + (2 ^ 28 - 1) =
      omega arith in
    omega (
      arith,
      ap (λ (u : ℕ). bit_and ((a * 16 + t) * 2 ^ 28 + l) u) m,
      bit_and_split 28 (a * 16 + t) l ((2 ^ 32 - 1) * 2 ^ 4 + (15 - t)) (2 ^ 28 - 1) hl
          (omega arith),
      bit_and_mask 28 l,
      bit_and_split 4 a t (2 ^ 32 - 1) (15 - t) ht (omega arith),
      bit_and-complement 4 t ht,
      bit_and_mask 32 a,
    )

-- `if (t) h ^= t >> 24` changes the low part, and nothing where the four bits are 0.
flip-cut :
    (a t l : ℕ)
    → t < 16
    → l < 2 ^ 28
    → (if t * 2 ^ 28 == 0
        then (a * 16 + t) * 2 ^ 28 + l
        else bit_xor ((a * 16 + t) * 2 ^ 28 + l) (shr (t * 2 ^ 28) 24))
      ≡ (a * 16 + t) * 2 ^ 28 + bit_xor l (t * 16)
flip-cut a t l ht hl = elim (dec_lt 0 t) [
  | yes some_bit ↦
      let e : (t * 2 ^ 28 == 0) ≡ false = ground arith in
      let f : shr (t * 2 ^ 28) 24 ≡ t * 16 = omega arith in
      rw (e, f) (bit_xor_split 28 (a * 16 + t) l (t * 16) hl (omega arith))
  | no no_bit ↦ let e : t ≡ 0 = omega arith in rw e (omega (arith, bit_xor-zero l))
]

fold_top-cut :
    (a t l : ℕ)
    → t < 16
    → l < 2 ^ 28
    → a < 2 ^ 32
    → fold_top ((a * 16 + t) * 2 ^ 28 + l) (t * 2 ^ 28) ≡ a * 2 ^ 32 + bit_xor l (t * 16)
unfolding fold_top
fold_top-cut a t l ht hl ha =
    rw (flip-cut a t l ht hl)
      (clear-cut a t (bit_xor l (t * 16)) ht (bit_xor_bound 28 l (t * 16) hl (omega arith)) ha)

sysv_step_bound : (g c : ℕ) → sysv_step g c < 2 ^ 28
sysv_step_bound g c =
    bit_xor_bound 28 ((g * 16 + c) % 2 ^ 32 % 2 ^ 28) ((g * 16 + c) % 2 ^ 32 / 2 ^ 28 * 16)
      (omega arith) (omega arith)

hash_step-sysv_step : (h g c : ℕ) → h % 2 ^ 32 ≡ g → hash_step h c % 2 ^ 32 ≡ sysv_step g c
unfolding hash_step
hash_step-sysv_step h g c e =
    let h' = (h * 16 + c) % 2 ^ 64 in
    let a = h' / 2 ^ 32 in
    let t = h' / 2 ^ 28 % 16 in
    let l = h' % 2 ^ 28 in
    let cut : h' ≡ (a * 16 + t) * 2 ^ 28 + l = omega arith in
    let top : top_bits h' ≡ t * 2 ^ 28 =
      ap (λ (x : ℕ). top_bits x) cut ∙ top_bits-cut a t l (omega arith) (omega arith) in
    let low : (g * 16 + c) % 2 ^ 32 % 2 ^ 28 ≡ l = omega arith in
    let high : (g * 16 + c) % 2 ^ 32 / 2 ^ 28 ≡ t = omega arith in
    let folded =
      ap (λ (x : ℕ). fold_top x (t * 2 ^ 28)) cut
      ∙ fold_top-cut a t l (omega arith) (omega arith) (omega arith) in
    let small = bit_xor_bound 28 l (t * 16) (omega arith) (omega arith) in
    rw (top, low, high) (omega (arith, folded, small))

hash_loop-sysv_loop :
    (s : Bytes) (h g r : ℕ)
    → h % 2 ^ 32 ≡ g
    → g < 2 ^ 28
    → hash_loop h s ≡ ok r
    → (sysv_loop g s ≡ ok (r % 2 ^ 32)) × (r % 2 ^ 32 < 2 ^ 28)
unfolding hash_loop
hash_loop-sysv_loop [] h g r e b q = cc q
hash_loop-sysv_loop (c ∷ s) h g r e b q = ground (
  arith,
  hash_loop-sysv_loop s (hash_step h c) (sysv_step g c) r (hash_step-sysv_step h g c e)
      (sysv_step_bound g c),
)

-- Where `elf_hash` returns a value, its low 32 bits are the hash that rounds on 32 bits give, which
-- is below 2 ^ 28.
pub elf_hash-sysv_loop :
    (s : Bytes) (r : ℕ)
    → elf_hash s ≡ ok r
    → (sysv_loop 0 s ≡ ok (r % 2 ^ 32)) × (r % 2 ^ 32 < 2 ^ 28)
unfolding elf_hash
elf_hash-sysv_loop s r h = hash_loop-sysv_loop s 0 0 r refl (omega arith) h
