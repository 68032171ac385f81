-- ===== src/Pattern/Rarest.antt =====
-- The two loops of `prep_pattern` that pick the pivot bytes.
use asmgrep.Base.{
  ℕ, zero, suc, ◌+◌, ◌≤◌, ◌<◌, ◌≡◌, ◌≢◌, ◌⊎◌, inl, inr, refl, Bool, true, false, [], ◌∷◌, arith,
  ltb, ltb→lt, ltb→ge, ◌==◌, ==_iff, ==→ne, Bool-cases, Bytes, length, at,
}
use asmgrep.Pattern.{rank, rank-lt, rarest, second, pivots}

-- At every index of `cs` other than `a` (where `cs` starts at index `k`) the rank is at least `b`.
abbrev Bound : (ℕ → Type 0) → ℕ → Bytes → Type 0
Bound P b cs = (i : ℕ) → i < length cs → P i → b ≤ rank (at cs i)

Bound-cons :
    (P Q : ℕ → Type 0) (b c : ℕ) (cs : Bytes)
    → (P 0 → b ≤ rank c)
    → ((i : ℕ) → P (suc i) → Q i)
    → Bound Q b cs
    → Bound P b (c ∷ cs)
Bound-cons P Q b c cs h shift k zero lt p = h p
Bound-cons P Q b c cs h shift k (suc i) lt p = k i (omega arith) (shift i p)

abbrev Any : ℕ → Type 0
Any i = Unit {0}

-- The answer of a search over `cs`, which starts at index `k`: the earlier best `a` of rank `br`,
-- or a new index of a lesser rank.
abbrev Best : ℕ → ℕ → ℕ → Bytes → ℕ → Type 0
Best k a br cs r =
    ((r ≡ a) × Bound Any br cs)
    ⊎ ((j : ℕ) × (j < length cs)
        × (r ≡ k + j)
        × (rank (at cs j) < br)
        × Bound Any (rank (at cs j)) cs)

rarest-Best : (k a br : ℕ) (cs : Bytes) → Best k a br cs (rarest k a br cs)
unfolding rarest
rarest-Best k a br [] = inl (refl, λ i lt _. absurd (omega arith))
rarest-Best k a br (c ∷ cs) = elim (Bool-cases (ltb (rank c) br)) [
  | inl less ↦ rw less (elim (rarest-Best (k + 1) k (rank c) cs) [
    | inl (e, low) ↦ inr (
      0,
      omega arith,
      omega arith,
      ltb→lt _ _ less,
      Bound-cons Any Any _ c cs (λ _. omega arith) (λ _ _. tt) low,
    )
    | inr (j, lt, e, new, low) ↦ inr (
      suc j,
      omega arith,
      omega arith,
      omega (arith, ltb→lt (rank c) br less),
      Bound-cons Any Any _ c cs (λ _. omega arith) (λ _ _. tt) low,
    )
  ])
  | inr more ↦ rw more (elim (rarest-Best (k + 1) a br cs) [
    | inl (e, low) ↦ inl (e, Bound-cons Any Any _ c cs (λ _. ltb→ge _ _ more) (λ _ _. tt) low)
    | inr (j, lt, e, new, low) ↦ inr (
      suc j,
      omega arith,
      omega arith,
      new,
      Bound-cons Any Any _ c cs (λ _. omega (arith, ltb→ge (rank c) br more)) (λ _ _. tt) low,
    )
  ])
]

-- The same for the second loop, which skips the index `a` and has found something or not.
abbrev Next : ℕ → ℕ → ℕ → ℕ → Bool → Bytes → ℕ → Type 0
Next a k b br2 found cs r =
    ((r ≡ b) × ((i : ℕ) → i < length cs → k + i ≢ a → (found ≡ true) × (br2 ≤ rank (at cs i))))
    ⊎ ((j : ℕ) × (j < length cs)
        × (r ≡ k + j)
        × (r ≢ a)
        × Bound (λ i. k + i ≢ a) (rank (at cs j)) cs
        × (found ≡ true → rank (at cs j) < br2))

-- A head that is skipped, or that is no better than what was found.
Next-keep :
    (a k b br2 : ℕ) (found : Bool) (c : ℕ) (cs : Bytes) (r : ℕ)
    → (k ≢ a → (found ≡ true) × (br2 ≤ rank c))
    → Next a (k + 1) b br2 found cs r
    → Next a k b br2 found (c ∷ cs) r
Next-keep a k b br2 found c cs r head (inl (e, low)) = inl (e, all)
  where
    all : (i : ℕ) → i < length (c ∷ cs) → k + i ≢ a → (found ≡ true) × (br2 ≤ rank (at (c ∷ cs) i))
    all zero lt ne = head (λ q. ne (omega arith))
    all (suc i) lt ne = low i (omega arith) (λ q. ne (omega arith))
Next-keep a k b br2 found c cs r head (inr (j, lt, e, ne, low, new)) = inr (
  suc j,
  omega arith,
  omega arith,
  ne,
  Bound-cons _ _ _ c cs (λ ok. let (f, le) = head (λ q. ok (omega arith)) in omega (arith, new f))
      (λ i h q. h (omega arith)) low,
  new,
)

-- A head that becomes the best.
Next-take :
    (a k b br2 : ℕ) (found : Bool) (c : ℕ) (cs : Bytes) (r : ℕ)
    → k ≢ a
    → (found ≡ true → rank c < br2)
    → Next a (k + 1) k (rank c) true cs r
    → Next a k b br2 found (c ∷ cs) r
Next-take a k b br2 found c cs r other less (inl (e, low)) = inr (
  0,
  omega arith,
  omega arith,
  λ q. other (omega arith),
  Bound-cons _ _ _ c cs (λ _. omega arith) (λ i h q. h (omega arith)) (λ i lt ne. (low i lt ne).1),
  less,
)
Next-take a k b br2 found c cs r other less (inr (j, lt, e, ne, low, new)) = inr (
  suc j,
  omega arith,
  omega arith,
  ne,
  Bound-cons _ _ _ c cs (λ _. omega (arith, new refl)) (λ i h q. h (omega arith)) low,
  λ f. omega (arith, new refl, less f),
)

second-Next :
    (a k b br2 : ℕ) (found : Bool) (cs : Bytes)
    → Next a k b br2 found cs (second a k b br2 found cs)
unfolding second
second-Next a k b br2 found [] = inl (refl, λ i lt _. absurd (omega arith))
second-Next a k b br2 false (c ∷ cs) = elim (Bool-cases (k == a)) [
  | inl same ↦ rw same (
      Next-keep a k b br2 false c cs _ (λ ne. absurd (ne ((==_iff k a).0 same)))
        (second-Next a (k + 1) b br2 false cs))
  | inr other ↦ rw other (
      Next-take a k b br2 false c cs _ (==→ne k a other) (λ e. cc)
        (second-Next a (k + 1) k (rank c) true cs))
]
second-Next a k b br2 true (c ∷ cs) = elim (Bool-cases (k == a)) [
  | inl same ↦ rw same (
      Next-keep a k b br2 true c cs _ (λ ne. absurd (ne ((==_iff k a).0 same)))
        (second-Next a (k + 1) b br2 true cs))
  | inr other ↦ rw other (elim (Bool-cases (ltb (rank c) br2)) [
    | inl less ↦ rw less (
        Next-take a k b br2 true c cs _ (==→ne k a other) (λ _. ltb→lt _ _ less)
          (second-Next a (k + 1) k (rank c) true cs))
    | inr more ↦ rw more (
        Next-keep a k b br2 true c cs _ (λ _. (refl, ltb→ge _ _ more))
          (second-Next a (k + 1) b br2 true cs))
  ])
]

-- The first loop ends at an index of the pattern, and no byte of the pattern is rarer.
rarest-least :
    (cmp : Bytes)
    → 0 < length cmp
    → (rarest 0 0 256 cmp < length cmp) × Bound Any (rank (at cmp (rarest 0 0 256 cmp))) cmp
rarest-least cmp h = elim (rarest-Best 0 0 256 cmp) [
  | inl (e, low) ↦ absurd (omega (arith, low 0 h tt, rank-lt (at cmp 0)))
  | inr (j, lt, e, new, low) ↦ let e' : rarest 0 0 256 cmp ≡ j = omega arith in rw e' (lt, low)
]

-- The second loop ends at another index, and no byte at a third index is rarer.
second-least :
    (a : ℕ) (cmp : Bytes)
    → 1 < length cmp
    → (second a 0 0 256 false cmp < length cmp)
      × (second a 0 0 256 false cmp ≢ a)
      × Bound (λ i. i ≢ a) (rank (at cmp (second a 0 0 256 false cmp))) cmp
second-least a cmp h = elim (second-Next a 0 0 256 false cmp) [
  | inl (e, all) ↦ absurd (none_found all)
  | inr (j, lt, e, ne, low, new) ↦
      let e' : second a 0 0 256 false cmp ≡ j = omega arith in
      (omega arith, ne, rw e' (λ i lt' p. low i lt' (λ q. p (omega arith))))
]
  where
    none_found : ¬ ((i : ℕ) → i < length cmp → 0 + i ≢ a → (false ≡ true) × (256 ≤ rank (at cmp i)))
    none_found all = elim (Bool-cases (a == 0)) [
      | inl z ↦ let e = (==_iff a 0).0 z in cc ((all 1 h (λ q. omega arith)).0)
      | inr nz ↦ cc ((all 0 (omega arith) (λ q. ==→ne a 0 nz (omega arith))).0)
    ]

-- Two indices of the pattern, different if it has two bytes, such that the bytes at all other
-- indices are at least as common as both.
pub record IsPivots (cmp : Bytes) (p : ℕ × ℕ) : Type 0 where
  pub ordered : p.0 ≤ p.1
  pub inside : p.1 < length cmp
  pub different : 1 < length cmp → p.0 < p.1
  pub rare :
      (i : ℕ)
      → i < length cmp
      → i ≢ p.0
      → i ≢ p.1
      → (rank (at cmp p.0) ≤ rank (at cmp i)) × (rank (at cmp p.1) ≤ rank (at cmp i))

pub pivots-IsPivots : (cmp : Bytes) → 0 < length cmp → IsPivots cmp (pivots cmp)
unfolding pivots
pivots-IsPivots cmp h = elim (Bool-cases (ltb (length cmp) 2)) [
  | inl short ↦
      let (lt, low) = rarest-least cmp h in
      rw short (record {
        ordered = omega arith;
        inside = lt;
        different = λ long. absurd (omega (arith, ltb→lt (length cmp) 2 short));
        rare = λ i p _ _. (low i p tt, low i p tt);
      })
  | inr long ↦
      let a = rarest 0 0 256 cmp in
      let (lt_a, low_a) = rarest-least cmp h in
      let (lt_b, ne, low_b) = second-least a cmp (omega (arith, ltb→ge (length cmp) 2 long)) in
      rw long (elim (Bool-cases (ltb (second a 0 0 256 false cmp) a)) [
        | inl swap ↦ rw swap (record {
          ordered = omega (arith, ltb→lt (second a 0 0 256 false cmp) a swap);
          inside = lt_a;
          different = λ _. ltb→lt _ a swap;
          rare = λ i p ne_b ne_a. (low_b i p ne_a, low_a i p tt);
        })
        | inr keep ↦ rw keep (record {
          ordered = ltb→ge _ a keep;
          inside = lt_b;
          different = λ _. omega (arith, ltb→ge (second a 0 0 256 false cmp) a keep);
          rare = λ i p ne_a ne_b. (low_a i p tt, low_b i p ne_a);
        })
      ])
]
