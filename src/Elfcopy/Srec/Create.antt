-- ===== src/Elfcopy/Srec/Create.antt =====
-- create_srec of elfcopy/ascii.c, for a target other than `symbolsrec`: the records of an object.
pub mod Refines
pub mod Whole
mod Tests
use elftoolchain.Base.{
  ℕ, ◌+◌, ◌-◌, ◌%◌, ◌^◌, Bool, ◌||◌, not, Option, none, some, List, [], ◌∷◌, ◌++◌, Bytes, ltb, leb,
  ◌==◌, if◌then◌else◌, bit_and,
}
use elftoolchain.Elfcopy.Scn.{Scn, is_skipped, to_write}
use elftoolchain.Elfcopy.Record.{Conversion, ok, ◌>>=◌}
use elftoolchain.Elfcopy.Srec.{srec_write_S0, srec_write_Sd, srec_write_Se}

unfoldable pub max_addr : ℕ → List Scn → ℕ
max_addr m [] = m
max_addr m (scn ∷ l) =
    let m' : ℕ = elim (scn.shdr) [
      | none ↦ m
      | some sh ↦ if is_skipped sh then m else if ltb m sh.sh_addr then sh.sh_addr else m
    ] in
    max_addr m' l

-- `dr`
unfoldable pub data_kind : Bool → List Scn → ℕ
data_kind force_s3 scns =
    if force_s3
    then b'3'
    else if leb (max_addr 0 scns) 0xffff
    then b'1'
    else if leb (max_addr 0 scns) 0xffffff
    then b'2'
    else b'3'

-- `rlen`, with `srec_len` where SREC_FORCE_LEN is set.
unfoldable pub record_len : ℕ → Option ℕ → ℕ
record_len dr none = 16
record_len dr (some srec_len) =
    let addr_sz = dr - b'0' + 1 in
    if ltb srec_len 1
    then 1
    else if ltb 255 ((srec_len + addr_sz + 1) % 2 ^ 64)
    then 255 - (addr_sz + 1)
    else srec_len

-- The records of a section.
unfoldable pub section_data : ℕ → ℕ → Option (ℕ × Bytes) → Conversion (List Bytes)
section_data dr rlen none = ok []
section_data dr rlen (some d) = srec_write_Sd dr d.0 d.1 rlen

unfoldable pub srec_data : ℕ → ℕ → List Scn → Conversion (List Bytes)
srec_data dr rlen [] = ok []
srec_data dr rlen (scn ∷ l) = section_data dr rlen (to_write scn) >>= λ lines.
    srec_data dr rlen l >>= λ rest. ok (lines ++ rest)

-- The lines that are written: for SREC_FORCE_S3, the length of SREC_FORCE_LEN, the name of the
-- output, the sections and the entry point.
unfoldable pub create_srec : Bool → Option ℕ → Bytes → List Scn → ℕ → Conversion (List Bytes)
create_srec force_s3 srec_len ofn scns e_entry =
    let dr = data_kind force_s3 scns in
    let rlen = record_len dr srec_len in
    srec_write_S0 ofn >>= λ s0.
    srec_data dr rlen scns >>= λ sd. srec_write_Se e_entry force_s3 >>= λ se. ok (s0 ∷ sd ++ se)
