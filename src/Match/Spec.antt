-- ===== src/Match/Spec.antt =====
-- What it means that the pattern stands at an index, and what `verify` and `find_a` answer.
use asmgrep.Base.{
  ℕ, ◌+◌, ◌-◌, ◌≤◌, ◌≡◌, ◌↔◌, ◌⊎◌, inl, inr, refl, ◌∙◌, true, Option, none, some, [], ◌∷◌, arith,
  ltb, ltb→lt, ltb→ge, ◌==◌, ==_iff, ==→ne, Bool-cases, Bytes, length, Returns, Returns-mono,
  Returns-bind, at, load_in,
}
use native.Mathlib.Nat.{le_refl}
use mathlib.Core.Logic.{⊎_elim}
use asmgrep.Libc.{
  First, First-mono, memchr, memchr-First, Same, Same-cons, Same-head, Same-tail, memcmp_eq-Same,
}
use asmgrep.Pattern.{Pattern, fold, seen_as}
use asmgrep.Pattern.Prepared.{IsPrepared}
use asmgrep.Match.{verify_fold, verify, earlier, find_a}

-- The pattern lies in `m` from index `s` on, up to case under -i.
abbrev pub MatchesAt : Pattern → Bytes → ℕ → Type 0
MatchesAt g m s = (s + length g.cmp ≤ length m) × Same (seen_as g) m s g.cmp

-- The byte at `j` may be the pivot A, or the pivot B.
abbrev pub IsPivotA : Pattern → Bytes → ℕ → Type 0
IsPivotA g m j = (at m j ≡ g.a0) ⊎ (at m j ≡ g.a1)

abbrev pub IsPivotB : Pattern → Bytes → ℕ → Type 0
IsPivotB g m j = (at m j ≡ g.b0) ⊎ (at m j ≡ g.b1)

verify_fold-Same :
    (m : Bytes) (p : ℕ) (cs : Bytes)
    → p + length cs ≤ length m
    → Returns (verify_fold m p cs) (λ b. (b ≡ true) ↔ Same fold m p cs)
unfolding verify_fold
verify_fold-Same m p [] h = (λ _ k lt. absurd (omega arith), λ _. refl)
verify_fold-Same m p (c ∷ cs) h =
    rw (load_in m p (omega arith)) (elim (Bool-cases (fold (at m p) == c)) [
      | inl hit ↦ rw hit (
          Returns-mono (verify_fold m (p + 1) cs) _ _ (verify_fold-Same m (p + 1) cs (omega arith))
            (λ b same. (
              λ e. Same-cons fold m p c cs ((==_iff (fold (at m p)) c).0 hit) (same.0 e),
              λ all. same.1 (Same-tail fold m p c cs all),
            )))
      | inr miss ↦ rw miss (λ e. cc, λ all. absurd (==→ne _ _ miss (Same-head fold m p c cs all)))
    ])

verify-Same :
    (g : Pattern) (m : Bytes) (s : ℕ)
    → s + length g.cmp ≤ length m
    → Returns (verify g m s) (λ b. (b ≡ true) ↔ Same (seen_as g) m s g.cmp)
unfolding verify
verify-Same g m s h = elim (Bool-cases g.folded) [
  | inl e ↦ rw e (verify_fold-Same m s g.cmp h)
  | inr e ↦ rw e (memcmp_eq-Same m s g.cmp h)
]

-- Where the pattern fits, `verify` reads in bounds and tells whether it stands there.
pub verify-MatchesAt :
    (g : Pattern) (m : Bytes) (s : ℕ)
    → s + length g.cmp ≤ length m
    → Returns (verify g m s) (λ b. (b ≡ true) ↔ MatchesAt g m s)
verify-MatchesAt g m s h =
    Returns-mono (verify g m s) _ _ (verify-Same g m s h)
      (λ b same. (λ e. (h, same.0 e), λ mat. same.1 mat.1))

module _ (g : Pattern) (m : Bytes) (ready : IsPrepared g) where
  pub MatchesAt-IsPivotA : (s : ℕ) → MatchesAt g m s → IsPivotA g m (s + g.off_a)
  MatchesAt-IsPivotA s mat =
      (ready.pivot_a _).0 (mat.1 g.off_a (omega (arith, ready.ordered, ready.inside)))

  pub MatchesAt-IsPivotB : (s : ℕ) → MatchesAt g m s → IsPivotB g m (s + g.off_b)
  MatchesAt-IsPivotB s mat = (ready.pivot_b _).0 (mat.1 g.off_b ready.inside)

-- The first of two kinds of bytes is the earlier of the first of each.
First-earlier :
    (P Q : ℕ → Type 0) (lo hi : ℕ) (x y : Option ℕ)
    → First P lo hi x
    → First Q lo hi y
    → First (λ i. P i ⊎ Q i) lo hi (earlier x y)
unfolding earlier
First-earlier P Q lo hi none none h k = λ i p q d. ground (arith, h i p q, k i p q)
First-earlier P Q lo hi none (some y) h k =
    (k.0, k.1, inr k.2, λ i p q d. ground (arith, h i p, k.3 i p q))
First-earlier P Q lo hi (some x) none h k =
    (h.0, h.1, inl h.2, λ i p q d. ground (arith, h.3 i p q, k i p))
First-earlier P Q lo hi (some x) (some y) h k = elim (Bool-cases (ltb x y)) [
  | inl less ↦
      let lt = ltb→lt x y less in
      rw less (h.0, h.1, inl h.2, λ i p q d. ground (arith, h.3 i p q, k.3 i p))
  | inr more ↦
      let ge = ltb→ge x y more in
      rw more (k.0, k.1, inr k.2, λ i p q d. ground (arith, h.3 i p, k.3 i p q))
]

-- `find_a` reads in bounds and finds the first byte from `p` on that may be the pivot A.
pub find_a-First :
    (g : Pattern) (m : Bytes) (p : ℕ)
    → IsPrepared g
    → p ≤ length m
    → Returns (find_a g m p) (First (IsPivotA g m) p (length m))
unfolding find_a
find_a-First g m p ready h = elim (Bool-cases g.ci) [
  | inl e ↦ rw e (
      Returns-bind (memchr m p g.a0 (length m - p)) _ _ _
        (memchr-First m g.a0 p (length m - p) (length m) (omega arith) (le_refl _))
        (λ x first_x.
          Returns-bind (memchr m p g.a1 (length m - p)) _ _ _
            (memchr-First m g.a1 p (length m - p) (length m) (omega arith) (le_refl _))
            (λ y first_y.
              First-earlier (λ i. at m i ≡ g.a0) (λ i. at m i ≡ g.a1) p (length m) x y first_x
                first_y)))
  | inr e ↦ rw e (
      Returns-mono (memchr m p g.a0 (length m - p)) _ _
        (memchr-First m g.a0 p (length m - p) (length m) (omega arith) (le_refl _))
        (λ x first.
          First-mono _ _ p (length m) x (λ i q. inl q)
            (λ i d. ⊎_elim (λ q. q) (λ q. q ∙ ready.exact e) d) first))
]
