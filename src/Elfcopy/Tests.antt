-- ===== src/Elfcopy/Tests.antt =====
-- Records, sections and lines at concrete values.
use elftoolchain.Base.{ℕ, ◌*◌, ◌≤◌, ◌<◌, ◌≡◌, ◌≢◌, ◌⊎◌, inl, refl, some, [], ◌∷◌, arith}
use elftoolchain.Elfcopy.Hex.{
  is_digit, is_hex_digit, hex_digit, hex_value, read_byte, read_digits, read_num, write_num,
  write_bytes,
}
use elftoolchain.Elfcopy.Record.{ok, overflow, char_at, read_bytes}
use elftoolchain.Elfcopy.Srec.{
  read_addr_sz, read_data, srec_read, write_addr_sz, srec_line, srec_write_Sd,
}
use elftoolchain.Elfcopy.Srec.RoundTrip.{srec_read-srec_line}
use elftoolchain.Elfcopy.Srec.Safe.{IsSrec, srec_read-IsSrec}
use elftoolchain.Elfcopy.Srec.Load.Pieces.{IsWritten, srec_write_Sd-IsLoaded}
use elftoolchain.Elfcopy.Srec.Create.Whole.{start_scan}
use elftoolchain.Elfcopy.Ihex.{ihex_read, ihex_line}
use elftoolchain.Elfcopy.Ihex.RoundTrip.{ihex_read-data}
use elftoolchain.Elfcopy.Ihex.Safe.{ihex_read_safe}
use elftoolchain.Elfcopy.Image.{Image, double_cap, empty_image, add_data}
use elftoolchain.Elfcopy.Image.Append.{double_cap_lem}
use elftoolchain.Elfcopy.Image.View.{IsAdded, segments, empty_image-IsImage, add_data_lem}
use elftoolchain.Elfcopy.Image.Pieces.{add_bytes}

srec_read-srec_line_example :
    srec_read (srec_line b'2' 0x12345 (1 ∷ 255 ∷ []))
    ≡ ok (record { kind = b'2'; addr = 0x12345; bytes = 1 ∷ 255 ∷ [] })
unfolding write_addr_sz
srec_read-srec_line_example =
    srec_read-srec_line b'2' 0x12345 (1 ∷ 255 ∷ []) (inl (omega arith, omega arith))
      (inl (omega arith)) (omega arith) (ground arith) (omega arith)

srec_read-IsSrec_example : IsSrec (record { kind = b'9'; addr = 0; bytes = [] })
unfolding srec_read srec_line read_addr_sz char_at read_data read_bytes read_num read_digits
    read_byte is_hex_digit is_digit hex_value write_addr_sz write_num write_bytes hex_digit
srec_read-IsSrec_example =
    srec_read-IsSrec (srec_line b'9' 0 []) (record { kind = b'9'; addr = 0; bytes = [] }) refl

srec_write_Sd-IsLoaded_example :
    IsWritten
      (start_scan 64)
      (srec_write_Sd b'1' 0x100 (1 ∷ 2 ∷ 3 ∷ []) 2)
      (add_bytes 0x100 (1 ∷ 2 ∷ 3 ∷ []) (segments (empty_image 64)))
unfolding write_addr_sz segments empty_image
srec_write_Sd-IsLoaded_example =
    srec_write_Sd-IsLoaded (start_scan 64) b'1' 0x100 2 (1 ∷ 2 ∷ 3 ∷ [])
      (refl, empty_image-IsImage 64) (omega arith, omega arith) (omega arith) (omega arith)
      (omega arith) (ground arith) (omega arith)

ihex_read-data_example :
    ihex_read (ihex_line 0 0x12345 0 (some (1 ∷ 255 ∷ [])) 2)
    ≡ ok (record { kind = b'0'; addr = 0x2345; num = 0; bytes = 1 ∷ 255 ∷ [] })
ihex_read-data_example = ihex_read-data 0x12345 1 (255 ∷ []) (ground arith) (omega arith)

ihex_read_safe_example : ihex_read (b':' ∷ b'F' ∷ b'F' ∷ []) ≢ overflow
ihex_read_safe_example = ihex_read_safe (b':' ∷ b'F' ∷ b'F' ∷ [])

double_cap_lem_example :
    (c : ℕ) × (double_cap 4 5000 1024 ≡ ok c)
    × (5000 ≤ c)
    × (1024 ≤ c)
    × ((c ≡ 1024) ⊎ (c < 2 * 5000))
double_cap_lem_example = double_cap_lem 3 5000 1024 (omega arith) (omega arith)

add_data_lem_example :
    (img : Image) × (add_data (empty_image 64) 0x100 (1 ∷ 2 ∷ []) ≡ ok img)
    × IsAdded (empty_image 64) 0x100 (1 ∷ 2 ∷ []) img
unfolding segments empty_image
add_data_lem_example =
    add_data_lem (empty_image 64) 0x100 1 (2 ∷ []) (empty_image-IsImage 64) (omega arith)
      (omega arith)
