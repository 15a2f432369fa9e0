-- ===== src/Libdwarf/Lineno/Advance.antt =====
-- A round of a line number program moves on and keeps the table well-formed.
use elftoolchain.Base.{
  ℕ, ◌+◌, ◌%◌, ◌^◌, ◌≤◌, ◌<◌, ◌≡◌, inl, inr, refl, ap, sym, Bool, true, false, Bool-cases, Option,
  none, some, List, [], ◌∷◌, ◌++◌, append-nil, Bytes, ◌>>=◌, ◌==◌, if◌then◌else◌, length,
  length-append, All, arith,
}
use mathlib.Core.Path.{subst}
use elftoolchain.Libdwarf.Fixed.Forward.{decode_lsb-forward, decode_msb-forward}
use elftoolchain.Libdwarf.Leb.{decode_uleb128, decode_sleb128}
use elftoolchain.Libdwarf.Leb.Forward.{decode_uleb128-forward, decode_sleb128-forward}
use elftoolchain.Libdwarf.Lineno.{LineInfo, Line, LineFile, Table}
use elftoolchain.Libdwarf.Lineno.Program.{
  Registers, Machine, Round, going, failed, row, add_row, address_delta, line_delta, decode,
  append_row, with_operand, without_operand, const_add_pc, standard, special,
}

-- A table as the programs keep it: the counts are those of the lists, and the directory of each
-- file is one of the header.
abbrev pub IsTable : LineInfo → Table → Type 0
IsTable li t =
    (t.lnlen ≡ length t.lnlist)
    × (t.lflen ≡ length t.lflist)
    × All (λ (f : LineFile). f.dirndx ≤ length li.incdirs) t.lflist

-- The rows of `t` are the first ones of `t'`.
abbrev pub IsExtended : Table → Table → Type 0
IsExtended t t' = (rows : List Line) × (t'.lnlist ≡ t.lnlist ++ rows)

-- From a table `t`, at the pointer `p`.
abbrev pub IsOnward : LineInfo → ℕ → Table → Round → Type 0
IsOnward li p t (going s) = (p < s.p) × IsTable li s.table × IsExtended t s.table
IsOnward li p t (failed e t') = Unit

pub some_bind {ℓ κ} :
    {A : Type ℓ} {B : Type κ} (o : Option A) (f : A → Option B) (b : B)
    → (o >>= f) ≡ some b
    → (a : A) × (o ≡ some a) × (f a ≡ some b)
some_bind none f b h = ground (arith, h)
some_bind (some a) f b h = (a, refl, h)

pub some_injective {ℓ} : {A : Type ℓ} (a b : A) → some a ≡ some b → a ≡ b
some_injective {A = A} a b e = ap (λ x. elim x as (λ c. A) [ some y ↦ y | none ↦ a ]) e

pub decode-forward :
    (big_endian : Bool) (m : Bytes) (p n : ℕ) (v : ℕ × ℕ)
    → decode big_endian m p n ≡ some v
    → p ≤ v.1
unfolding decode
decode-forward true m p n v h = decode_msb-forward m p n v.0 v.1 h
decode-forward false m p n v h = decode_lsb-forward m p n v.0 v.1 h

pub pick {ℓ κ} :
    {A : Type ℓ} {P : Type κ} {r : Option A} (c : Bool) (x y : Option A)
    → (if c then x else y) ≡ r
    → (x ≡ r → P)
    → (y ≡ r → P)
    → P
pick true x y h f g = f h
pick false x y h f g = g h

pub same_table : (t : Table) → IsExtended t t
same_table t = ([], sym (append-nil t.lnlist))

module _ (grants : ℕ → Bool) (big_endian : Bool) (pointer_size : ℕ) (li : LineInfo) where
  pub append_row-IsOnward :
      (t : Table) (p q : ℕ) (r next : Registers)
      → IsTable li t
      → p < q
      → IsOnward li p t (append_row grants big_endian pointer_size t q r next)
  unfolding append_row add_row
  append_row-IsOnward t p q r next (lines, files, dirs) onward =
      elim (Bool-cases (grants t.mallocs)) [
        | inl e ↦ rw e (
          onward,
          (omega (arith, lines, length-append t.lnlist (row r ∷ [])), files, dirs),
          (row r ∷ [], refl),
        )
        | inr e ↦ rw e _
      ]

  with_operand-IsOnward :
      (s : Machine) (next : ℕ → Registers) (a : Option (ℕ × ℕ)) (r : Round)
      → IsTable li s.table
      → ((v : ℕ × ℕ) → a ≡ some v → s.p < v.1)
      → with_operand grants big_endian pointer_size s next a ≡ some r
      → IsOnward li s.p s.table r
  unfolding with_operand
  with_operand-IsOnward s next a r table onward h =
      let (v, e, h') = some_bind a _ r h in
      subst (IsOnward li s.p s.table) (some_injective _ r h')
        (onward v e, table, same_table s.table)

  without_operand-IsOnward :
      (s : Machine) (next : Registers) (r : Round)
      → IsTable li s.table
      → some (without_operand grants big_endian pointer_size s next) ≡ some r
      → IsOnward li s.p s.table r
  unfolding without_operand
  without_operand-IsOnward s next r table h =
      subst (IsOnward li s.p s.table) (some_injective _ r h)
        (omega arith, table, same_table s.table)

  const_add_pc-IsOnward :
      (s : Machine) (r : Round)
      → IsTable li s.table
      → const_add_pc grants big_endian pointer_size li s ≡ some r
      → IsOnward li s.p s.table r
  unfolding const_add_pc
  const_add_pc-IsOnward s r table h =
      let (d, e, h') = some_bind (address_delta li 255) _ r h in
      without_operand-IsOnward s (record s.regs { address = (s.regs.address + d) % 2 ^ 64 }) r table
        h'

  pub standard-IsOnward :
      (m : Bytes) (s : Machine) (op : ℕ) (r : Round)
      → IsTable li s.table
      → standard grants big_endian pointer_size li m s op ≡ some r
      → IsOnward li s.p s.table r
  unfolding standard
  standard-IsOnward m s op r table h =
      let p = s.p + 1 in
      let uleb : (v : ℕ × ℕ) → decode_uleb128 m p ≡ some v → s.p < v.1 =
        λ v e. omega (arith, decode_uleb128-forward m p v.0 v.1 e) in
      let sleb : (v : ℕ × ℕ) → decode_sleb128 m p ≡ some v → s.p < v.1 =
        λ v e. omega (arith, decode_sleb128-forward m p v.0 v.1 e) in
      let fixed : (v : ℕ × ℕ) → decode big_endian m p 2 ≡ some v → s.p < v.1 =
        λ v e. omega (arith, decode-forward big_endian m p 2 v e) in
      pick (op == 1) _ _ h
        (λ h.
          subst (IsOnward li s.p s.table) (some_injective _ r h)
            (append_row-IsOnward s.table s.p p s.regs _ table (omega arith)))
        (λ h.
          pick (op == 2) _ _ h (with_operand-IsOnward s _ (decode_uleb128 m p) r table uleb) (λ h.
            pick (op == 3) _ _ h (with_operand-IsOnward s _ (decode_sleb128 m p) r table sleb) (λ h.
              pick (op == 4) _ _ h (with_operand-IsOnward s _ (decode_uleb128 m p) r table uleb)
                (λ h.
                  pick (op == 5) _ _ h (with_operand-IsOnward s _ (decode_uleb128 m p) r table uleb)
                    (λ h. pick (op == 6) _ _ h (without_operand-IsOnward s _ r table) (λ h.
                      pick (op == 7) _ _ h (without_operand-IsOnward s _ r table) (λ h.
                        pick (op == 8) _ _ h (const_add_pc-IsOnward s r table) (λ h.
                          pick (op == 9) _ _ h
                            (with_operand-IsOnward s _ (decode big_endian m p 2) r table fixed)
                            (λ h.
                              pick (op == 12) _ _ h
                                (with_operand-IsOnward s _ (decode_uleb128 m p) r table uleb)
                                (without_operand-IsOnward s _ r table))))))))))

  pub special-IsOnward :
      (s : Machine) (op : ℕ) (r : Round)
      → IsTable li s.table
      → special grants big_endian pointer_size li s op ≡ some r
      → IsOnward li s.p s.table r
  unfolding special
  special-IsOnward s op r table h =
      let (l, e, h1) = some_bind (line_delta li op) _ r h in
      let (a, e', h2) = some_bind (address_delta li op) _ r h1 in
      subst (IsOnward li s.p s.table) (some_injective _ r h2)
        (append_row-IsOnward s.table s.p (s.p + 1) _ _ table (omega arith))
