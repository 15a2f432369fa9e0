-- ===== src/Elfcopy/Ihex/Create/Tests.antt =====
-- Runs of create_ihex and of the loop of create_elf_from_ihex.
use elftoolchain.Base.{◌≡◌, refl, none, List, [], ◌∷◌, Bytes, arith}
use elftoolchain.Elfcopy.Record.{ok, ◌>>=◌, char_at, read_bytes}
use elftoolchain.Elfcopy.Hex.{
  is_digit, is_hex_digit, hex_digit, hex_value, read_byte, read_digits, read_num, write_num,
  write_bytes,
}
use elftoolchain.Elfcopy.Scn.{is_skipped, with_bytes, to_write}
use elftoolchain.Elfcopy.Scn.Layout.{write_all}
use elftoolchain.Elfcopy.Scn.Samples.{text_bytes, sample_scns, descending_scns}
use elftoolchain.Elfcopy.Ihex.{
  ihex_line, write_payload, ihex_write, ihex_write_00, ihex_write_01, ihex_write_04, ihex_write_05,
  ihex_write_loop, ihex_write_last, ihex_read, read_type, read_body, read_number,
}
use elftoolchain.Elfcopy.Ihex.Create.{
  is_new, base_record, section_data, next_high, ihex_data, create_ihex,
}
use elftoolchain.Elfcopy.Ihex.Create.Refines.{start_scan, create_ihex-IsLoaded}
use elftoolchain.Elfcopy.Ihex.Load.{Scan, ihex_record, if_read, scan_line, scan}
use elftoolchain.Elfcopy.Image.{
  new_data_section, double_cap, initial_buf, initial_cap, append_data, empty_image, finalize,
  start_section, append_to, add_data,
}
use elftoolchain.Elfcopy.Image.View.{segment, segments}

written : write_all sample_scns [] ≡ (0x20000, 255 ∷ 0 ∷ []) ∷ (0xfff8, text_bytes) ∷ []
unfolding to_write is_skipped with_bytes
written = refl

create_ihex-IsLoaded_example :
    (lines : List Bytes) × (create_ihex sample_scns 0x10000 ≡ ok lines)
    × ((sc : Scan) × (scan (start_scan 64) lines ≡ ok sc)
        × (segments sc.image ≡ write_all sample_scns [])
        × (sc.image.entry ≡ 0x10000))
unfolding to_write is_skipped with_bytes
create_ihex-IsLoaded_example =
    create_ihex-IsLoaded 64 sample_scns 0x10000 (omega arith) (ground arith) (omega arith)

-- ":00000001FF"
end_of_file :
    ihex_line 1 0 0 none 0
    ≡ b':' ∷ b'0' ∷ b'0' ∷ b'0' ∷ b'0' ∷ b'0' ∷ b'0' ∷ b'0' ∷ b'1' ∷ b'F' ∷ b'F' ∷ b'\r' ∷ b'\n'
      ∷ []
unfolding ihex_line write_payload write_num hex_digit
end_of_file = refl

-- A 02 record sets the base to its address field, which is 0, and not to its segment.
segment_record :
    (sc : Scan)
    → ihex_record sc (record { kind = b'2'; addr = 0; num = 0x1000; bytes = [] })
      ≡ ok (record sc { addr_base = 0 })
unfolding ihex_record
segment_record sc = refl

-- Without the order of the sections, the base of the first section stays for the second, which is
-- loaded at 0x20000 too, and not at 0.
descending :
    (create_ihex descending_scns 0 >>= λ lines.
    scan (start_scan 64) lines >>= λ sc. ok (segments sc.image))
    ≡ ok ((0x20000, 7 ∷ []) ∷ (0x20000, 255 ∷ 0 ∷ []) ∷ [])
unfolding create_ihex ihex_data section_data base_record is_new next_high to_write is_skipped
    with_bytes ihex_write_00 ihex_write_loop ihex_write_last ihex_write ihex_write_01 ihex_write_04
    ihex_write_05 ihex_line write_payload write_num write_bytes hex_digit scan scan_line char_at
    if_read ihex_record ihex_read read_type read_body read_number read_num read_digits read_byte
    is_hex_digit is_digit hex_value read_bytes add_data append_to append_data double_cap initial_buf
    initial_cap start_section new_data_section finalize empty_image segments segment
descending = refl
