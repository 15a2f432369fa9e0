-- ===== src/Libelftc/StringTable/Search.antt =====
-- The search for a string in a bucket.
use elftoolchain.Base.{
  ℕ, zero, suc, ◌-◌, ◌≤◌, ◌<◌, ◌≡◌, ◌≢◌, refl, ap, ◌∙◌, Bool, true, false, some, List, [], ◌∷◌,
  ◌++◌, All, Bytes, length, drop, get_elem?, arith, length-append, inl, inr, Bool-cases,
}
use elftoolchain.Libelftc.StringTable.{Entry, same, is_named, find, assign}

-- A string of C.
abbrev pub IsText : Bytes → Type 0
IsText = All (λ c. c ≢ 0)

-- A pool whose last byte is NUL.
abbrev pub IsEnded : Bytes → Type 0
IsEnded [] = ⊥
IsEnded (c ∷ []) = c ≡ 0
IsEnded (c ∷ d ∷ p) = IsEnded (d ∷ p)

pub IsEnded-append : (p s : Bytes) → IsEnded (p ++ (s ++ 0 ∷ []))
IsEnded-append [] [] = refl
IsEnded-append [] (c ∷ []) = refl
IsEnded-append [] (c ∷ d ∷ s) = IsEnded-append [] (d ∷ s)
IsEnded-append (c ∷ []) [] = refl
IsEnded-append (c ∷ []) (d ∷ s) = IsEnded-append [] (d ∷ s)
IsEnded-append (c ∷ d ∷ p) s = IsEnded-append (d ∷ p) s

IsEnded-drop : (n : ℕ) (p : Bytes) → n < length p → IsEnded p → IsEnded (drop n p)
IsEnded-drop zero p h e = e
IsEnded-drop (suc n) [] h e = e
IsEnded-drop (suc n) (c ∷ []) h e = absurd (omega (arith, h))
IsEnded-drop (suc n) (c ∷ d ∷ p) h e = IsEnded-drop n (d ∷ p) (omega (arith, h)) e

pub drop-append : (n : ℕ) (p q : Bytes) → n ≤ length p → drop n (p ++ q) ≡ drop n p ++ q
drop-append zero p q h = refl
drop-append (suc n) [] q h = absurd (omega (arith, h))
drop-append (suc n) (c ∷ p) q h = drop-append n p q (omega (arith, h))

same-append : (p q s : Bytes) → IsEnded p → IsText s → same (p ++ q) s ≡ same p s
unfolding same
same-append [] q s e t = absurd e
same-append (c ∷ p) q [] e t = refl
same-append (c ∷ []) q (d ∷ s) e t = ground (arith, t.0)
same-append (c ∷ b ∷ p) q (d ∷ s) e t = ground (arith, same-append (b ∷ p) q s e t.1)

pub same_self : (s q : Bytes) → same (s ++ 0 ∷ q) s ≡ true
unfolding same
same_self [] q = refl
same_self (c ∷ s) q = ground (arith, same_self s q)

-- At one place of the pool stands one string.
same_unique : (p s t : Bytes) → IsText s → IsText t → same p s ≡ true → same p t ≡ true → s ≡ t
unfolding same
same_unique [] s t hs ht a b = cc a
same_unique (c ∷ p) [] [] hs ht a b = refl
same_unique (c ∷ p) [] (d ∷ t) hs ht a b = ground (arith, ht.0)
same_unique (c ∷ p) (d ∷ s) [] hs ht a b = ground (arith, hs.0)
same_unique (c ∷ p) (d ∷ s) (b' ∷ t) hs ht a b = ground (arith, same_unique p s t hs.1 ht.1)

-- An entry's index is behind a NUL in the pool.
pub record IsEntry (pool : Bytes) (e : Entry) : Type 0 where
  pub positive : 1 ≤ e.idx
  pub inside : e.idx < length pool
  pub behind_nul : get_elem? pool (e.idx - 1) ≡ some 0

pub find-append :
    (p q s : Bytes) (es : List Entry)
    → IsEnded p
    → IsText s
    → All (IsEntry p) es
    → find (p ++ q) s es ≡ find p s es
unfolding find
find-append p q s [] e t all = refl
find-append p q s (x ∷ es) e t all =
    let a = drop-append x.idx p q (omega (arith, all.0.inside)) in
    let b = same-append (drop x.idx p) q s (IsEnded-drop x.idx p all.0.inside e) t in
    rw (a, b, find-append p q s es e t all.1) refl

pub find-assign :
    (p s : Bytes) (deleted : Bool) (es : List Entry) (e : Entry)
    → find p s es ≡ some e
    → find p s (assign p s deleted es) ≡ some (record { idx = e.idx; deleted = deleted })
unfolding find assign
find-assign p s deleted [] e h = cc h
find-assign p s deleted (x ∷ es) e h = ground (arith, find-assign p s deleted es e)

pub find-assign_other :
    (p s t : Bytes) (deleted : Bool) (es : List Entry)
    → IsText s
    → IsText t
    → t ≢ s
    → find p t (assign p s deleted es) ≡ find p t es
unfolding find assign
find-assign_other p s t deleted [] hs ht ne = refl
find-assign_other p s t deleted (x ∷ es) hs ht ne =
    ground
      (arith, find-assign_other p s t deleted es hs ht ne, same_unique (drop x.idx p) t s ht hs)

pub assign-IsEntry :
    (p q s : Bytes) (deleted : Bool) (es : List Entry)
    → All (IsEntry p) es
    → All (IsEntry p) (assign q s deleted es)
unfolding assign
assign-IsEntry p q s deleted [] all = tt
assign-IsEntry p q s deleted (x ∷ es) all = elim (Bool-cases (is_named q s x)) [
  | inl e ↦ rw e (
    record { positive = all.0.positive; inside = all.0.inside; behind_nul = all.0.behind_nul },
    all.1,
  )
  | inr e ↦ rw e (all.0, assign-IsEntry p q s deleted es all.1)
]

-- A pool that grows keeps its entries.
pub get_elem?-append : (p q : Bytes) (n : ℕ) → n < length p → get_elem? (p ++ q) n ≡ get_elem? p n
get_elem?-append [] q n h = absurd (omega (arith, h))
get_elem?-append (c ∷ p) q zero h = refl
get_elem?-append (c ∷ p) q (suc n) h = get_elem?-append p q n (omega (arith, h))

pub All-IsEntry-append :
    (p q : Bytes) (es : List Entry) → All (IsEntry p) es → All (IsEntry (p ++ q)) es
All-IsEntry-append p q [] all = tt
All-IsEntry-append p q (x ∷ es) all = (
  record {
    positive = all.0.positive;
    inside = omega (arith, all.0.inside, length-append p q);
    behind_nul = get_elem?-append p q (x.idx - 1) (omega (arith, all.0.inside)) ∙ all.0.behind_nul;
  },
  All-IsEntry-append p q es all.1,
)

ends_in_nul : (p : Bytes) (n : ℕ) → length p ≡ suc n → IsEnded p → get_elem? p n ≡ some 0
ends_in_nul [] n h e = absurd e
ends_in_nul (c ∷ []) zero h e = ap some e
ends_in_nul (c ∷ []) (suc n) h e = absurd (omega (arith, h))
ends_in_nul (c ∷ d ∷ p) zero h e = absurd (omega (arith, h))
ends_in_nul (c ∷ d ∷ p) (suc n) h e = ends_in_nul (d ∷ p) n (omega (arith, h)) e

pub IsEnded-length : (p : Bytes) → IsEnded p → 1 ≤ length p
IsEnded-length [] e = absurd e
IsEnded-length (c ∷ p) e = omega arith

pub get_elem?-IsEnded : (p : Bytes) → IsEnded p → get_elem? p (length p - 1) ≡ some 0
get_elem?-IsEnded p e = ends_in_nul p (length p - 1) (omega (arith, IsEnded-length p e)) e

pub same_other : (s t : Bytes) → IsText s → IsText t → t ≢ s → same (s ++ 0 ∷ []) t ≡ false
same_other s t hs ht ne = elim (Bool-cases (same (s ++ 0 ∷ []) t)) [
  | inl e ↦ absurd (ne (same_unique (s ++ 0 ∷ []) t s ht hs e (same_self s [])))
  | inr e ↦ e
]

pub find-some :
    (p s : Bytes) (es : List Entry) (e : Entry)
    → find p s es ≡ some e
    → All (IsEntry p) es
    → IsEntry p e × (same (drop e.idx p) s ≡ true)
unfolding find
find-some p s [] e h all = cc h
find-some p s (x ∷ es) e h all = elim (Bool-cases (is_named p s x)) [
  | inl named ↦ let q : x ≡ e = cc (rw named at h) in rw (← q) (all.0, named)
  | inr other ↦ find-some p s es e (rw other at h) all.1
]

pub same-first :
    (p : Bytes) (n c : ℕ) (s : Bytes) → same (drop n p) (c ∷ s) ≡ true → get_elem? p n ≡ some c
unfolding same
same-first [] zero c s h = cc h
same-first [] (suc n) c s h = cc h
same-first (d ∷ p) zero c s h = ground arith
same-first (d ∷ p) (suc n) c s h = same-first p n c s h

pub drop-length : (p : Bytes) → drop (length p) p ≡ []
drop-length [] = refl
drop-length (c ∷ p) = drop-length p
