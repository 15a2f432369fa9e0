-- ===== src/Libelf/Extents/Insert.antt =====
-- An extent that is inserted keeps the list in order and free of overlaps.
use elftoolchain.Base.{
  ℕ, suc, ◌+◌, ◌^◌, ◌≤◌, ◌<◌, ◌≡◌, ◌⊎◌, inl, inr, refl, ap, sym, ◌∙◌, Option, none, some, List, [],
  ◌∷◌, ◌++◌, if◌then◌else◌, Bool, true, false, Bool-cases, leb, arith,
}
use mathlib.Core.Path.{subst}
use elftoolchain.Libelf.Extents.{
  ExtentType, Extent, Check, used, unused, aborted, end_of, is_after, check_from, extent_is_unused,
  insert_at, Inserted, inserted, layout, resource, assertion, insert_checked, insert_extent,
}

-- The extents lie from `lo` on, one behind the other, and end below 2 ^ 64.
abbrev pub IsLaid : ℕ → List Extent → Type 0
IsLaid lo [] = Unit
IsLaid lo (t ∷ l) =
    (lo ≤ t.ex_start) × (t.ex_start + t.ex_size < 2 ^ 64) × IsLaid (t.ex_start + t.ex_size) l

-- Some extent has its end behind the start of `ex` and its start before the end of `ex`.
abbrev pub IsOverlapped : Extent → List Extent → Type 0
IsOverlapped ex [] = ⊥
IsOverlapped ex (t ∷ l) =
    ((ex.ex_start < t.ex_start + t.ex_size) × (t.ex_start < ex.ex_start + ex.ex_size))
    ⊎ IsOverlapped ex l

-- The list is `l` with `ex` in between, in order.
abbrev pub IsInserted : ℕ → Extent → List Extent → List Extent → Type 0
IsInserted lo ex l l' =
    IsLaid lo l' × (xs : List Extent) × (ys : List Extent) × (l ≡ xs ++ ys) × (l' ≡ xs ++ (ex ∷ ys))

-- What the search answers, from the place `k` on.
abbrev IsChecked : ℕ → Extent → List Extent → ℕ → Check → Type 0
IsChecked lo ex l k used = IsOverlapped ex l
IsChecked lo ex l k (unused j) = (n : ℕ) × (j ≡ k + n) × IsInserted lo ex l (insert_at n ex l)
IsChecked lo ex l k aborted = ⊥

if_true : {b : Bool} (x y : Check) → b ≡ true → (if b then x else y) ≡ x
if_true x y e = ap (λ b. if b then x else y) e

if_false : {b : Bool} (x y : Check) → b ≡ false → (if b then x else y) ≡ y
if_false x y e = ap (λ b. if b then x else y) e

end_of_small : (start size : ℕ) → start + size < 2 ^ 64 → end_of start size ≡ start + size
end_of_small start size h = omega (arith, h)

-- The extent stands in front of those that are left.
head-IsInserted :
    (lo : ℕ) (ex t : Extent) (l : List Extent)
    → IsLaid lo (t ∷ l)
    → lo ≤ ex.ex_start
    → ex.ex_start + ex.ex_size < 2 ^ 64
    → ex.ex_start + ex.ex_size ≤ t.ex_start
    → IsInserted lo ex (t ∷ l) (insert_at 0 ex (t ∷ l))
unfolding insert_at
head-IsInserted lo ex t l (low, high, laid) from fits before =
    ((from, fits, (before, high, laid)), [], t ∷ l, refl, refl)

-- The search goes on behind an extent that lies before `ex`.
next-IsChecked :
    (lo : ℕ) (ex t : Extent) (l : List Extent) (k : ℕ) (c : Check)
    → lo ≤ t.ex_start
    → t.ex_start + t.ex_size < 2 ^ 64
    → IsChecked (t.ex_start + t.ex_size) ex l (k + 1) c
    → IsChecked lo ex (t ∷ l) k c
unfolding insert_at
next-IsChecked lo ex t l k used low high c = inr c
next-IsChecked lo ex t l k (unused j) low high (n, e, (laid, xs, ys, e1, e2)) = (
  suc n,
  omega (arith, e),
  ((low, high, laid), t ∷ xs, ys, ap (λ r. t ∷ r) e1, ap (λ r. t ∷ r) e2),
)
next-IsChecked lo ex t l k aborted low high c = c

module _ (ex : Extent) (fits : ex.ex_start + ex.ex_size < 2 ^ 64) where
  check_from-IsChecked :
      (lo : ℕ) (l : List Extent) (pt : Option Extent) (k : ℕ)
      → IsLaid lo l
      → lo ≤ ex.ex_start
      → is_after pt ex.ex_start ≡ true
      → IsChecked lo ex l k (check_from l ex.ex_start (end_of ex.ex_start ex.ex_size) pt k)
  unfolding check_from insert_at
  check_from-IsChecked lo [] pt k laid from after =
      (0, omega arith, ((from, fits, _), [], [], refl, refl))
  check_from-IsChecked lo (t ∷ l) pt k (low, high, laid) from after =
      let e = end_of_small t.ex_start t.ex_size high in
      let e' = end_of_small ex.ex_start ex.ex_size fits in
      let P = IsChecked lo ex (t ∷ l) k in
      let smax = end_of ex.ex_start ex.ex_size in
      let rest = check_from l ex.ex_start smax (some t) (k + 1) in
      let before : Check = if is_after pt ex.ex_start then unused k else aborted in
      let behind : Check = if leb smax t.ex_start then before else used in
      elim (Bool-cases (leb (end_of t.ex_start t.ex_size) ex.ex_start)) [
        | inl y ↦ subst P (sym (if_true rest behind y)) (
            next-IsChecked lo ex t l k _ low high (
              check_from-IsChecked (t.ex_start + t.ex_size) l (some t) (k + 1) laid
                (ground (arith, y, e)) y))
        | inr n ↦
            subst P (sym (if_false rest behind n))
              (elim (Bool-cases (leb (end_of ex.ex_start ex.ex_size) t.ex_start)) [
                | inl y ↦ subst P (sym (if_true before used y ∙ if_true (unused k) aborted after)) (
                  0,
                  omega arith,
                  head-IsInserted lo ex t l (low, high, laid) from fits (ground (arith, y, e')),
                )
                | inr n' ↦
                    subst P (sym (if_false before used n'))
                      (inl (ground (arith, n, e), ground (arith, n', e')))
              ])
      ]

-- What inserting does, by its result.
abbrev pub IsInsertedOr : ℕ → Bool → Extent → List Extent → Inserted → Type 0
IsInsertedOr lo granted ex l (inserted l') = (granted ≡ true) × IsInserted lo ex l l'
IsInsertedOr lo granted ex l layout = IsOverlapped ex l
IsInsertedOr lo granted ex l resource =
    (granted ≡ false) × (l' : List Extent) × IsInserted lo ex l l'
IsInsertedOr lo granted ex l assertion = ⊥

insert_checked-IsInsertedOr :
    (lo : ℕ) (granted : Bool) (ex : Extent) (l : List Extent) (c : Check)
    → IsChecked lo ex l 0 c
    → IsInsertedOr lo granted ex l (insert_checked granted l ex c)
unfolding insert_checked
insert_checked-IsInsertedOr lo granted ex l used c = c
insert_checked-IsInsertedOr lo granted ex l aborted c = c
insert_checked-IsInsertedOr lo true ex l (unused j) (n, e, p) =
    (refl, subst (λ i. IsInserted lo ex l (insert_at i ex l)) (omega (arith, e)) p)
insert_checked-IsInsertedOr lo false ex l (unused j) (n, e, p) = (refl, insert_at n ex l, p)

-- On a list of extents one behind the other, each with its end below 2 ^ 64, and for an extent with
-- its end below 2 ^ 64, `_libelf_insert_extent` either puts the extent in between those of the
-- list, which are then again one behind the other, where malloc() gives memory; or sets RESOURCE,
-- where it does not and there is such a place; or sets LAYOUT, where the extent ends behind the
-- start of one of the list and starts in front of its end. Its assertion never fails.
pub insert_extent-IsInserted :
    (granted : Bool) (l : List Extent) (ty : ExtentType) (start size desc : ℕ)
    → IsLaid 0 l
    → start + size < 2 ^ 64
    → IsInsertedOr 0 granted
        (record { ex_start = start; ex_size = size; ex_type = ty; ex_desc = desc })
        l
        (insert_extent granted l ty start size desc)
unfolding insert_extent extent_is_unused
insert_extent-IsInserted granted l ty start size desc laid fits =
    let ex : Extent = record { ex_start = start; ex_size = size; ex_type = ty; ex_desc = desc } in
    insert_checked-IsInsertedOr 0 granted ex l _
      (check_from-IsChecked ex fits 0 l none 0 laid (omega arith) refl)
