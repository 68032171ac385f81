-- ===== src/Libc/Least.antt =====
-- The least and the greatest index of a range at which a property holds.
use asmgrep.Base.{ℕ, ◌≤◌, ◌<◌, ◌≡◌, refl, ap, Option, none, some, arith}

-- What a search upwards from `lo` and below `hi` answers.
abbrev pub First : (ℕ → Type 0) → ℕ → ℕ → Option ℕ → Type 0
First P lo hi none = (i : ℕ) → lo ≤ i → i < hi → ¬ P i
First P lo hi (some s) = (lo ≤ s) × (s < hi) × P s × ((i : ℕ) → lo ≤ i → i < s → ¬ P i)

-- What a search downwards from below `hi` answers, `lo` included.
abbrev pub Last : (ℕ → Type 0) → ℕ → ℕ → Option ℕ → Type 0
Last P lo hi none = (i : ℕ) → lo ≤ i → i < hi → ¬ P i
Last P lo hi (some s) = (lo ≤ s) × (s < hi) × P s × ((i : ℕ) → s < i → i < hi → ¬ P i)

module _ (P : ℕ → Type 0) where
  pub First-unique : (lo hi : ℕ) (a b : Option ℕ) → First P lo hi a → First P lo hi b → a ≡ b
  First-unique lo hi none none h k = refl
  First-unique lo hi none (some t) h k = absurd (h t k.0 k.1 k.2)
  First-unique lo hi (some s) none h k = absurd (k s h.0 h.1 h.2)
  First-unique lo hi (some s) (some t) h k =
      ap some (ground (arith, h.3 t k.0, k.3 s h.0, h.2, k.2))

  -- A property that holds at no index from `lo` up to `mid` can be looked for from `mid`.
  pub First-from :
      (lo mid hi : ℕ) (r : Option ℕ)
      → lo ≤ mid
      → ((i : ℕ) → lo ≤ i → i < mid → ¬ P i)
      → First P mid hi r
      → First P lo hi r
  First-from lo mid hi none le skip h = λ i p q. ground (arith, skip i p, h i)
  First-from lo mid hi (some s) le skip h =
      (omega arith, h.1, h.2, λ i p q. ground (arith, skip i p, h.3 i))

  pub Last-from :
      (lo mid hi : ℕ) (r : Option ℕ)
      → mid ≤ hi
      → ((i : ℕ) → mid ≤ i → i < hi → ¬ P i)
      → Last P lo mid r
      → Last P lo hi r
  Last-from lo mid hi none le skip h = λ i p q. ground (arith, skip i, h i p)
  Last-from lo mid hi (some s) le skip h =
      (h.0, omega arith, h.2, λ i p q. ground (arith, skip i, h.3 i p))

pub First-mono :
    (P Q : ℕ → Type 0) (lo hi : ℕ) (r : Option ℕ)
    → ((i : ℕ) → P i → Q i)
    → ((i : ℕ) → Q i → P i)
    → First P lo hi r
    → First Q lo hi r
First-mono P Q lo hi none to from h = λ i p q d. h i p q (from i d)
First-mono P Q lo hi (some s) to from h = (h.0, h.1, to s h.2, λ i p q d. h.3 i p q (from i d))
