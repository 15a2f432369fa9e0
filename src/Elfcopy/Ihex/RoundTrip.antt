-- ===== src/Elfcopy/Ihex/RoundTrip.antt =====
-- ihex_read of what ihex_write writes.
use elftoolchain.Base.{
  ℕ, zero, suc, ◌+◌, ◌-◌, ◌%◌, ◌^◌, ◌≤◌, ◌<◌, ◌≡◌, ◌⊎◌, refl, ap, sym, ◌∙◌, Option, none, some, [],
  ◌∷◌, ◌++◌, Bytes, ==_self, length, take, All, IsByte, arith,
}
use native.Mathlib.Nat.{mod-eq_of_lt}
use elftoolchain.Elfcopy.Hex.{read_digits, read_num, Number, write_num, write_bytes, hex_digit}
use elftoolchain.Elfcopy.Hex.RoundTrip.{read_num-write_num, write_num_bound, write_bytes_bound}
use elftoolchain.Elfcopy.Record.{Conversion, ok, ◌>>=◌, ok_some, line_end, Data, read_bytes}
use elftoolchain.Elfcopy.Record.RoundTrip.{read_bytes-write_bytes}
use elftoolchain.Elfcopy.Ihex.{
  read_type, number_body, data_body, read_number, read_body, ihex_read, write_payload, ihex_line,
}

-- A checksum counts modulo 256 once a byte is added.
read_digits_masked :
    (n : ℕ) (l : Bytes) (num checksum : ℕ)
    → read_digits (suc n) l num (checksum % 256) ≡ read_digits (suc n) l num checksum
unfolding read_digits
read_digits_masked n l num checksum = ground (arith, mod_twice)
  where
    mod_twice : (c x : ℕ) → (c % 256 + x) % 256 ≡ (c + x) % 256
    mod_twice c x = omega arith

pub read_num_masked :
    (n : ℕ) (l : Bytes) (checksum : ℕ)
    → read_num l (suc n) (checksum % 256) ≡ read_num l (suc n) checksum
unfolding read_num
read_num_masked n l checksum = read_digits_masked n l 0 checksum

read_bytes_masked :
    (n i : ℕ) (l : Bytes) (checksum : ℕ)
    → read_bytes (suc n) i l (checksum % 256) ≡ read_bytes (suc n) i l checksum
unfolding read_bytes
read_bytes_masked n i l checksum = rw (read_num_masked 0 l checksum) refl

read_type-write_num :
    (kind checksum : ℕ) (rest : Bytes)
    → kind < 10
    → read_type ((write_num kind 1 checksum).text ++ rest) ≡ some (b'0' + kind, rest)
unfolding read_type write_num hex_digit
read_type-write_num kind checksum rest low = ground arith

-- The checksum that ends a line makes the sum of its bytes 0.
sum_lem :
    (checksum : ℕ) (rest : Bytes)
    → checksum < 256
    → (r : Number) × (read_num ((write_num ((256 - checksum) % 256) 1 0).text ++ rest) 1 checksum
        ≡ some r)
      × (r.checksum % 256 ≡ 0)
unfolding write_num
sum_lem checksum rest low =
    let v = (256 - checksum) % 256 in
    (_, read_num-write_num 1 v checksum rest (omega arith), omega arith)

-- The checksum behind the type, as the writer has it.
abbrev pub type_checksum : ℕ → ℕ → ℕ → ℕ
type_checksum kind addr sz =
    (write_num kind 1 (write_num addr 2 (write_num sz 1 0).checksum).checksum).checksum

type_checksum_lem :
    (kind addr sz : ℕ)
    → kind < 10
    → type_checksum kind addr sz
      ≡ ((write_num addr 2 (write_num sz 1 0).checksum).checksum + (b'0' + kind - b'0')) % 256
unfolding write_num
type_checksum_lem kind addr sz low = omega arith

-- The payload is read back: a value of `c` for the checksum that agrees with the writer's.
abbrev pub IsBody : ℕ → ℕ → ℕ → Option Bytes → ℕ → ℕ → Bytes → Type 0
IsBody kind addr num buf sz num' bytes =
    (c : ℕ) (rest : Bytes)
    → c % 256 ≡ type_checksum kind addr sz
    → (c' : ℕ) × (c' % 256 ≡ (write_payload num buf sz (type_checksum kind addr sz)).checksum)
      × (read_body (b'0' + kind) sz
            ((write_payload num buf sz (type_checksum kind addr sz)).text ++ rest) c
          ≡ ok (record { rest = rest; num = num'; bytes = bytes; checksum = c' }))

ihex_read-ihex_line :
    (kind addr num sz num' : ℕ) (buf : Option Bytes) (bytes : Bytes)
    → kind < 10
    → sz < 256
    → IsBody kind addr num buf sz num' bytes
    → ihex_read (ihex_line kind addr num buf sz)
      ≡ ok (record { kind = b'0' + kind; addr = addr % 2 ^ 16; num = num'; bytes = bytes })
unfolding ihex_read ihex_line
ihex_read-ihex_line kind addr num sz num' buf bytes low small body =
    let count = write_num sz 1 0 in
    let a = write_num addr 2 count.checksum in
    let t = write_num kind 1 a.checksum in
    let d = write_payload num buf sz t.checksum in
    let sum = write_num ((256 - d.checksum) % 256) 1 0 in
    let r0 = sum.text ++ line_end in
    let r1 = d.text ++ r0 in
    let r2 = t.text ++ r1 in
    let r3 = a.text ++ r2 in
    let (c, same, read) =
      body (a.checksum + (b'0' + kind - b'0')) r0 (sym (type_checksum_lem kind addr sz low)) in
    let (r, sum_read, zero_sum) = sum_lem d.checksum line_end (omega (arith, same)) in
    let last : read_num r0 1 c ≡ some r =
      sym (read_num_masked 0 r0 c) ∙ ap (λ (x : ℕ). read_num r0 1 x) same ∙ sum_read in
    ok_some _ (read_num-write_num 1 sz 0 r3 (omega arith))
    ∙ ok_some _ (read_num-write_num 2 addr count.checksum r2 (omega arith))
    ∙ ok_some _ (read_type-write_num kind a.checksum r1 low)
    ∙ rw (mod-eq_of_lt (in_byte sz small), read) (ok_some _ last ∙ rw zero_sum refl)
  where
    in_byte : (x : ℕ) → x < 256 → x < 256 ^ 1
    in_byte x h = omega arith

take_all : (l : Bytes) → take (length l) l ≡ l
take_all [] = refl
take_all (b ∷ l) = ap (λ (x : Bytes). b ∷ x) (take_all l)

type_checksum_bound : (kind addr sz : ℕ) → type_checksum kind addr sz < 256
type_checksum_bound kind addr sz =
    write_num_bound 1 kind (write_num addr 2 (write_num sz 1 0).checksum).checksum
      (write_num_bound 2 addr (write_num sz 1 0).checksum (write_num_bound 1 sz 0 (omega arith)))

data-IsBody :
    (addr b : ℕ) (buf : Bytes)
    → All IsByte (b ∷ buf)
    → length (b ∷ buf) < 256
    → IsBody 0 addr 0 (some (b ∷ buf)) (length (b ∷ buf)) 0 (b ∷ buf)
unfolding read_body write_payload
data-IsBody addr b buf small short c rest e =
    let n = length (b ∷ buf) in
    let t = type_checksum 0 addr n in
    let text = (write_bytes (take n (b ∷ buf)) t).text ++ rest in
    let whole = take_all (b ∷ buf) in
    let low = write_bytes_bound (b ∷ buf) t (type_checksum_bound 0 addr n) in
    let read : read_bytes n 0 text c
        ≡ ok (record {
          rest = rest;
          bytes = b ∷ buf;
          checksum = (write_bytes (b ∷ buf) t).checksum;
        }) =
      sym (read_bytes_masked (length buf) 0 text c)
      ∙ ap (λ (x : ℕ). read_bytes n 0 text x) e
      ∙ ap (λ (x : Bytes). read_bytes n 0 ((write_bytes x t).text ++ rest) t) whole
      ∙ read_bytes-write_bytes (b ∷ buf) 0 t rest small (omega (arith, short)) in
    (
      (write_bytes (b ∷ buf) t).checksum,
      mod-eq_of_lt low ∙ ap (λ (x : Bytes). (write_bytes x t).checksum) (sym whole),
      ap (λ (x : Conversion Data). x >>= data_body) read,
    )

read_number_lem :
    (n c t num : ℕ) (rest : Bytes)
    → n ≤ 8
    → c % 256 ≡ t
    → t < 256
    → (c' : ℕ) × (c' % 256 ≡ (write_num num n t).checksum)
      × (read_number n n ((write_num num n t).text ++ rest) c
          ≡ ok (record { rest = rest; num = num % 256 ^ n; bytes = []; checksum = c' }))
unfolding read_number read_num read_digits write_num
read_number_lem zero c t num rest short e low =
    let none_read : num % 1 ≡ 0 = omega arith in
    (
      c,
      e,
      ap (λ (x : ℕ). ok (record { rest = rest; num = x; bytes = []; checksum = c }))
          (sym none_read),
    )
read_number_lem (suc n) c t num rest short e low =
    let text = (write_num num (suc n) t).text ++ rest in
    let read =
      sym (read_num_masked n text c)
      ∙ ap (λ (x : ℕ). read_num text (suc n) x) e
      ∙ read_num-write_num (suc n) num t rest short in
    (
      (write_num num (suc n) t).checksum,
      mod-eq_of_lt (write_num_bound (suc n) num t low),
      rw (==_self (suc n)) (ok_some number_body read),
    )

number-IsBody :
    (kind addr num sz : ℕ)
    → ((kind ≡ 1) × (sz ≡ 0)) ⊎ (((kind ≡ 4) × (sz ≡ 2)) ⊎ ((kind ≡ 5) × (sz ≡ 4)))
    → IsBody kind addr num none sz (num % 256 ^ sz) []
unfolding read_body write_payload
number-IsBody kind addr num sz known c rest e =
    let t = type_checksum kind addr sz in
    let n =
      read_number_lem sz c t num rest (ground (arith, known)) e
        (type_checksum_bound kind addr sz) in
    (n.0, n.1, ground (arith, known, n.2))

-- For one to 255 bytes `ihex_read` of the line of a data record returns the type 0, the lower 16
-- bits of the address, and the bytes.
pub ihex_read-data :
    (addr b : ℕ) (buf : Bytes)
    → All IsByte (b ∷ buf)
    → length (b ∷ buf) < 256
    → ihex_read (ihex_line 0 addr 0 (some (b ∷ buf)) (length (b ∷ buf)))
      ≡ ok (record { kind = b'0'; addr = addr % 2 ^ 16; num = 0; bytes = b ∷ buf })
ihex_read-data addr b buf small short =
    ihex_read-ihex_line 0 addr 0 (length (b ∷ buf)) 0 (some (b ∷ buf)) (b ∷ buf) (omega arith) short
      (data-IsBody addr b buf small short)

-- For the types 1, 4 and 5 with no, two and four bytes, `ihex_read` of the line of `ihex_write`
-- returns the type, the lower 16 bits of the address, the lower bytes of the number, and no data.
pub ihex_read-number :
    (kind addr num sz : ℕ)
    → ((kind ≡ 1) × (sz ≡ 0)) ⊎ (((kind ≡ 4) × (sz ≡ 2)) ⊎ ((kind ≡ 5) × (sz ≡ 4)))
    → ihex_read (ihex_line kind addr num none sz)
      ≡ ok (record { kind = b'0' + kind; addr = addr % 2 ^ 16; num = num % 256 ^ sz; bytes = [] })
ihex_read-number kind addr num sz known =
    ihex_read-ihex_line kind addr num sz (num % 256 ^ sz) none [] (ground (arith, known))
      (ground (arith, known)) (number-IsBody kind addr num sz known)
