-- ===== src/Libdwarf/Leb/Forward.antt =====
-- A decoder of LEB128 consumes at least a byte.
use elftoolchain.Base.{
  ℕ, ◌+◌, ◌<◌, ◌≡◌, inl, inr, some, Option-cases, [], ◌∷◌, Bytes, bit_and, bit_or, drop, arith,
}
use elftoolchain.Libdwarf.Leb.{shl_int, Scan, scan, decode_uleb128, decode_sleb128}

scan-count :
    (m : Bytes) (ret shift count : ℕ) (s : Scan) → scan m ret shift count ≡ some s → count < s.count
unfolding scan
scan-count [] ret shift count s h = ground (arith, h)
scan-count (b ∷ m) ret shift count s h = elim (Option-cases (shl_int (bit_and b 0x7f) shift)) [
  | inl e ↦ ground (arith, rw e at h)
  | inr (g, e) ↦ ground (arith, rw e at h, scan-count m (bit_or ret g) (shift + 7) (count + 1) s)
]

pub decode_uleb128-forward : (m : Bytes) (p v q : ℕ) → decode_uleb128 m p ≡ some (v, q) → p < q
unfolding decode_uleb128
decode_uleb128-forward m p v q h = elim (Option-cases (scan (drop p m) 0 0 0)) [
  | inl e ↦ ground (arith, rw e at h)
  | inr (s, e) ↦ ground (arith, rw e at h, scan-count (drop p m) 0 0 0 s e)
]

pub decode_sleb128-forward : (m : Bytes) (p v q : ℕ) → decode_sleb128 m p ≡ some (v, q) → p < q
unfolding decode_sleb128
decode_sleb128-forward m p v q h = elim (Option-cases (scan (drop p m) 0 0 0)) [
  | inl e ↦ ground (arith, rw e at h)
  | inr (s, e) ↦ ground (arith, rw e at h, scan-count (drop p m) 0 0 0 s e)
]
