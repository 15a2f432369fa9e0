-- ===== src/Libdwarf/Grow/Loop.antt =====
-- The doubling loops end, in a block that has room and keeps what the old one held.
use elftoolchain.Base.{
  ℕ, zero, suc, ◌*◌, ◌^◌, ◌≤◌, ◌<◌, ◌≡◌, refl, ap, ◌∙◌, lt→ltb, Option, none, some, Bytes, length,
  ◌⊎◌, inl, inr, arith, Option-cases,
}
use elftoolchain.Base.Mem.{load}
use elftoolchain.Libdwarf.Grow.{Allocator, Result, no_memory, double, grow, finish}
use native.Mathlib.Nat.{pow-suc}
use native.Mathlib.Decide.{dec_lt}

-- A block of `size` bytes that C can hold.
pub record IsBlock (m : Bytes) (size : ℕ) : Type 0 where
  pub holds : length m ≡ size
  pub positive : 0 < size
  pub small : size < 2 ^ 63

-- `m'` is `m`, enlarged to `size'` bytes.
pub record Enlarged (m : Bytes) (size : ℕ) (m' : Bytes) (size' : ℕ) : Type 0 where
  pub valid : IsBlock m' size'
  pub larger : size ≤ size'
  pub keeps : (j : ℕ) → j < size → load m' j ≡ load m j

Enlarged-refl : (m : Bytes) (size : ℕ) → IsBlock m size → Enlarged m size m size
Enlarged-refl m size v = record { valid = v; larger = omega arith; keeps = λ j h. refl }

module _ (a : Allocator) where
  open a use {realloc, realloc_size, realloc_keeps, realloc_limit}

  -- One doubling that realloc() grants.
  pub Enlarged-double :
      (m : Bytes) (size : ℕ) {m' : Bytes}
      → IsBlock m size
      → realloc m (double size) ≡ some m'
      → Enlarged m size m' (double size)
  Enlarged-double m size v e = record {
    valid = record {
      holds = realloc_size m (double size) e;
      positive = omega (arith, v.small, v.positive);
      small = realloc_limit m (double size) e;
    };
    larger = omega (arith, v.small, v.positive);
    keeps = λ j h.
        realloc_keeps m (double size) j e (omega (arith, v.holds))
          (omega (arith, v.small, v.positive));
  }

pub Enlarged-trans :
    (m₁ m₂ m₃ : Bytes) (s₁ s₂ s₃ : ℕ)
    → Enlarged m₁ s₁ m₂ s₂
    → Enlarged m₂ s₂ m₃ s₃
    → Enlarged m₁ s₁ m₃ s₃
Enlarged-trans m₁ m₂ m₃ s₁ s₂ s₃ e f = record {
  valid = f.valid;
  larger = omega (arith, e.larger, f.larger);
  keeps = λ j h. f.keeps j (omega (arith, e.larger)) ∙ e.keeps j h;
}

-- The call ended in DW_DLE_MEMORY because realloc() refused `s` bytes.
abbrev pub Refused : Allocator → Result → Type 0
Refused a r = (s : ℕ) × (m : Bytes) × (a.realloc m s ≡ none) × (r ≡ no_memory s)

pub double-pow : (size fuel : ℕ) → size < 2 ^ 63 → double size * 2 ^ fuel ≡ size * 2 ^ suc fuel
double-pow size fuel h =
    let d : double size ≡ size * 2 = omega arith in
    rw d (omega (arith, ap (λ (t : ℕ). size * t) (pow-suc 2 fuel)))

module _ (a : Allocator) (store : Bytes → Option (Bytes × ℕ)) (need : ℕ) where
  open a use {realloc}

  -- How the loop ends: without memory, or by the store in a block with room.
  abbrev pub Ends : Bytes → ℕ → Result → Type 0
  Ends m size r =
      Refused a r
      ⊎ ((m' : Bytes) × (size' : ℕ) × (r ≡ finish a size' (store m'))
          × Enlarged m size m' size'
          × (need ≤ size'))

  Ends-trans :
      (m m' : Bytes) (size size' : ℕ) (r : Result)
      → Enlarged m size m' size'
      → Ends m' size' r
      → Ends m size r
  Ends-trans m m' size size' r e (inl out) = inl out
  Ends-trans m m' size size' r e (inr (m'', size'', q, f, room)) =
      inr (m'', size'', q, Enlarged-trans m m' m'' size size' size'' e f, room)

  grow_done :
      (fuel : ℕ) (m : Bytes) (size : ℕ)
      → need ≤ size
      → grow a (suc fuel) store need m size ≡ finish a size (store m)
  unfolding grow
  grow_done fuel m size h = ground arith

  grow_refused :
      (fuel : ℕ) (m : Bytes) (size : ℕ)
      → size < need
      → realloc m (double size) ≡ none
      → grow a (suc fuel) store need m size ≡ no_memory (double size)
  unfolding grow
  grow_refused fuel m size h e = rw (lt→ltb size need h, e)

  grow_doubled :
      (fuel : ℕ) (m m' : Bytes) (size : ℕ)
      → size < need
      → realloc m (double size) ≡ some m'
      → grow a (suc fuel) store need m size ≡ grow a fuel store need m' (double size)
  unfolding grow
  grow_doubled fuel m m' size h e = rw (lt→ltb size need h, e)

  -- One round, from what the rounds behind it do.
  grow_round :
      (fuel : ℕ) (m : Bytes) (size : ℕ)
      → IsBlock m size
      → (size < need
          → (m' : Bytes) → IsBlock m' (double size)
          → Ends m' (double size) (grow a fuel store need m' (double size)))
      → Ends m size (grow a (suc fuel) store need m size)
  grow_round fuel m size v onward = elim (dec_lt size need) [
    | no fits ↦
        inr (m, size, grow_done fuel m size (omega arith), Enlarged-refl m size v, omega arith)
    | yes short ↦ elim (Option-cases (realloc m (double size))) [
      | inl e ↦ inl (double size, m, e, grow_refused fuel m size short e)
      | inr (m', e) ↦
          let larger = Enlarged-double a m size v e in
          rw (grow_doubled fuel m m' size short e)
            (Ends-trans m m' size (double size) _ larger (onward short m' larger.valid))
    ]
  ]

  -- With fuel for the doublings that `need` takes, the loop ends.
  pub grow-Ends :
      (fuel : ℕ) (m : Bytes) (size : ℕ)
      → IsBlock m size
      → need ≤ size * 2 ^ fuel
      → Ends m size (grow a (suc fuel) store need m size)
  grow-Ends zero m size v enough = grow_round zero m size v (λ short m' w. absurd (omega arith))
  grow-Ends (suc fuel) m size v enough = grow_round (suc fuel) m size v (λ short m' w.
      grow-Ends fuel m' (double size) w (omega (arith, double-pow size fuel v.small)))
