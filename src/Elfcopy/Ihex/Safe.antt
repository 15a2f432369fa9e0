-- ===== src/Elfcopy/Ihex/Safe.antt =====
-- ihex_read on any line: no write behind a buffer, and a record within its bounds.
use elftoolchain.Base.{
  ℕ, ◌+◌, ◌-◌, ◌^◌, ◌<◌, ◌≢◌, inl, inr, Bool-cases, Bytes, ◌==◌, length, drop, All, IsByte, arith,
}
use elftoolchain.Elfcopy.Hex.{read_num}
use elftoolchain.Elfcopy.Record.{overflow, or_invalid, read_bytes}
use elftoolchain.Elfcopy.Record.Safe.{
  ok_read, read_bytes_safe, read_num_bound, overflow_bind, or_invalid_safe,
}
use elftoolchain.Elfcopy.Ihex.{
  Ihex, Body, read_type, number_body, data_body, read_number, read_body, ihex_read,
}

read_number_safe :
    (count n : ℕ) (line : Bytes) (checksum : ℕ) → read_number count n line checksum ≢ overflow
unfolding read_number
read_number_safe count n line checksum = elim (Bool-cases (count == n)) [
  | inl e ↦ rw e (
      overflow_bind (or_invalid (read_num line n checksum)) number_body
        (or_invalid_safe (read_num line n checksum)) (λ a h e'. ground (arith, e')))
  | inr e ↦ rw e (λ e'. ground (arith, e'))
]

read_body_safe :
    (kind count : ℕ) (line : Bytes) (checksum : ℕ)
    → count < 256
    → read_body kind count line checksum ≢ overflow
unfolding read_body
read_body_safe kind count line checksum small =
    let bytes =
      overflow_bind (read_bytes count 0 line checksum) data_body
        (read_bytes_safe count 0 line checksum (omega (arith, small)))
        (λ a h e'. ground (arith, e')) in
    λ e. ground (
      arith,
      e,
      bytes,
      read_number_safe count 0 line checksum,
      read_number_safe count 2 line checksum,
      read_number_safe count 4 line checksum,
    )

-- On no line does `ihex_read` write behind its data buffer.
pub ihex_read_safe : (line : Bytes) → ihex_read line ≢ overflow
unfolding ihex_read
ihex_read_safe line =
    overflow_bind (or_invalid (read_num (drop 1 line) 1 0)) _
      (or_invalid_safe (read_num (drop 1 line) 1 0))
      (λ count e0.
        overflow_bind (or_invalid (read_num count.rest 2 count.checksum)) _
          (or_invalid_safe (read_num count.rest 2 count.checksum))
          (λ addr e1.
            overflow_bind (or_invalid (read_type addr.rest)) _
              (or_invalid_safe (read_type addr.rest))
              (λ t e2.
                overflow_bind (read_body t.0 count.num t.1 (addr.checksum + (t.0 - b'0'))) _
                  (read_body_safe t.0 count.num t.1 (addr.checksum + (t.0 - b'0')) (
                    read_num_bound 1 (drop 1 line) 0 count
                      (ok_read (read_num (drop 1 line) 1 0) count e0)))
                  (λ body e3.
                    overflow_bind (or_invalid (read_num body.rest 1 body.checksum)) _
                      (or_invalid_safe (read_num body.rest 1 body.checksum))
                      (λ sum e4 e. ground (arith, e))))))

-- A record within the bounds of its fields.
abbrev pub IsIhex : Ihex → Type 0
IsIhex r = (r.addr < 2 ^ 16) × (r.num < 2 ^ 32) × All IsByte r.bytes × (length r.bytes < 256)

abbrev pub IsBounded : Body → Type 0
IsBounded b = (b.num < 2 ^ 32) × All IsByte b.bytes × (length b.bytes < 256)
