-- ===== src/Elfcopy/Srec/Create/Tests.antt =====
-- Runs of create_srec and of the loop of create_elf_from_srec.
use elftoolchain.Base.{◌^◌, ◌-◌, ◌≡◌, refl, false, some, List, [], ◌∷◌, replicate, Bytes, arith}
use elftoolchain.Elfcopy.Record.{ok, overflow, char_at, read_bytes}
use elftoolchain.Elfcopy.Hex.{
  is_digit, is_hex_digit, hex_digit, hex_value, read_byte, read_digits, read_num, write_num,
  write_bytes,
}
use elftoolchain.Elfcopy.Scn.{is_skipped, with_bytes, to_write}
use elftoolchain.Elfcopy.Scn.Layout.{write_all}
use elftoolchain.Elfcopy.Scn.Samples.{sample_scns}
use elftoolchain.Elfcopy.Srec.{
  read_addr_sz, read_data, srec_read, write_addr_sz, srec_line, at_least, srec_write_next,
  srec_write_loop, srec_write_Sd,
}
use elftoolchain.Elfcopy.Srec.Create.{max_addr, data_kind, record_len, create_srec}
use elftoolchain.Elfcopy.Srec.Create.Whole.{start_scan, create_srec-IsLoaded}
use elftoolchain.Elfcopy.Srec.Load.{Scan, scan}
use elftoolchain.Elfcopy.Image.View.{segments}

create_srec-IsLoaded_example :
    (lines : List Bytes) × (create_srec false (some 8) (b'a' ∷ []) sample_scns 0x10000 ≡ ok lines)
    × ((sc : Scan) × (scan (start_scan 64) lines ≡ ok sc)
        × (segments sc.image ≡ write_all sample_scns [])
        × (sc.image.entry ≡ 0x10000))
unfolding to_write is_skipped with_bytes data_kind max_addr write_addr_sz
create_srec-IsLoaded_example =
    create_srec-IsLoaded 64 false (some 8) (b'a' ∷ []) sample_scns 0x10000
      (λ n h. ground (arith, h)) (ground arith) (omega arith) (omega arith) (ground arith)
      (omega arith)

-- "S9030000FC"
end_record :
    srec_line b'9' 0 []
    ≡ b'S' ∷ b'9' ∷ b'0' ∷ b'3' ∷ b'0' ∷ b'0' ∷ b'0' ∷ b'0' ∷ b'F' ∷ b'C' ∷ b'\r' ∷ b'\n' ∷ []
unfolding srec_line write_addr_sz write_num write_bytes hex_digit
end_record = refl

-- A length of SREC_FORCE_LEN near 2^64 is not limited, and the records are read behind the data.
unlimited : record_len b'1' (some (2 ^ 64 - 1)) ≡ 2 ^ 64 - 1
unfolding record_len
unlimited = refl

behind_data : srec_write_Sd b'1' 0 (1 ∷ 2 ∷ []) (2 ^ 64 - 1) ≡ overflow
unfolding srec_write_Sd srec_write_loop at_least srec_write_next
behind_data = refl

-- A count below the size of the address and of the checksum makes the data overrun their buffer.
short_count : srec_read (b'S' ∷ b'1' ∷ b'0' ∷ b'0' ∷ replicate 522 b'0') ≡ overflow
unfolding srec_read read_addr_sz char_at read_data read_bytes read_num read_digits read_byte
    is_hex_digit is_digit hex_value
short_count = refl
