-- ===== src/Match/Cleared.antt =====
-- How far a search for the pattern has come: the places that are ruled out.
use mathlib.Core.Path.{subst}
use native.Mathlib.Decide.{dec_lt}
use asmgrep.Base.{
  ℕ, ◌+◌, ◌-◌, ◌≤◌, ◌<◌, ◌≡◌, ◌⊎◌, inl, inr, true, Option, none, some, arith, if◌then◌else◌,
  Bool-cases, Bytes, length, Outcome, ok, ◌>>=◌, Returns, Returns-bind,
}
use asmgrep.Libc.{First}
use asmgrep.Pattern.{Pattern}
use asmgrep.Pattern.Prepared.{IsPrepared}
use asmgrep.Match.{verify}
use asmgrep.Match.Spec.{MatchesAt, IsPivotA, verify-MatchesAt, MatchesAt-IsPivotA}

-- The pattern stands at no index from `floor` on whose pivot A lies before `p`.
abbrev pub Cleared : Pattern → Bytes → ℕ → ℕ → Type 0
Cleared g m floor p = (i : ℕ) → floor ≤ i → i + g.off_a < p → ¬ MatchesAt g m i

-- What a search from `floor` promises: the first index at which the pattern stands.
abbrev pub Finds : Pattern → Bytes → ℕ → Option ℕ → Type 0
Finds g m floor = First (MatchesAt g m) floor (length m)

module _ (g : Pattern) (m : Bytes) (floor : ℕ) (ready : IsPrepared g) where
  pub Cleared-start : Cleared g m floor floor
  Cleared-start i lo lt = absurd (omega arith)

  -- Bytes that are no pivot can be passed over.
  pub Cleared-skip :
      (p q : ℕ)
      → Cleared g m floor p
      → ((j : ℕ) → p ≤ j → j < q → ¬ IsPivotA g m j)
      → Cleared g m floor q
  Cleared-skip p q clear skip i lo lt mat = elim (dec_lt (i + g.off_a) p) [
    | yes before ↦ clear i lo before mat
    | no after ↦ skip (i + g.off_a) (omega arith) lt (MatchesAt-IsPivotA g m ready i mat)
  ]

  -- So can a pivot before which the pattern does not stand.
  pub Cleared-suc :
      (p : ℕ)
      → Cleared g m floor p
      → ((i : ℕ) → floor ≤ i → i + g.off_a ≡ p → ¬ MatchesAt g m i)
      → Cleared g m floor (p + 1)
  Cleared-suc p clear here i lo lt mat = elim (dec_lt (i + g.off_a) p) [
    | yes before ↦ clear i lo before mat
    | no after ↦ here i lo (omega arith) mat
  ]

  -- A pivot A beyond the last place at which the pattern fits ends the search.
  pub Cleared-end :
      (p : ℕ) → Cleared g m floor p → length m < p + length g.cmp - g.off_a → Finds g m floor none
  Cleared-end p clear past i lo lt mat =
      clear i lo (omega (arith, mat.0, ready.ordered, ready.inside)) mat

  pub Cleared-found :
      (s : ℕ)
      → Cleared g m floor (s + g.off_a)
      → floor ≤ s
      → MatchesAt g m s
      → Finds g m floor (some s)
  Cleared-found s clear lo mat =
      (lo, omega (arith, mat.0, ready.inside), mat, λ i p q. clear i p (omega arith))

  -- Any other way to rule places out.
  pub Cleared-to :
      (p q : ℕ)
      → Cleared g m floor p
      → ((i : ℕ) → floor ≤ i → p ≤ i + g.off_a → i + g.off_a < q → ¬ MatchesAt g m i)
      → Cleared g m floor q
  Cleared-to p q clear rest i lo lt mat = elim (dec_lt (i + g.off_a) p) [
    | yes before ↦ clear i lo before mat
    | no after ↦ rest i lo (omega arith) lt mat
  ]

  -- A pivot at which the pattern cannot lie in the text is passed over.
  pub Cleared-outside :
      (hit : ℕ)
      → Cleared g m floor hit
      → (hit < floor + g.off_a) ⊎ (length m < hit - g.off_a + g.patlen)
      → Cleared g m floor (hit + 1)
  Cleared-outside hit clear (inl low) = Cleared-suc hit clear (λ i lo e. absurd (omega arith))
  Cleared-outside hit clear (inr past) =
      Cleared-suc hit clear (λ i lo e mat. omega (arith, mat.0, ready.sized))

  -- The check of a candidate: the pattern stands there, or the search goes on behind the pivot.
  pub candidate :
      (hit : ℕ) (next : Outcome (Option ℕ)) (Q : Option ℕ → Type 0)
      → Cleared g m floor hit
      → floor + g.off_a ≤ hit
      → hit - g.off_a + g.patlen ≤ length m
      → ((s : ℕ) → Finds g m floor (some s) → Q (some s))
      → (Cleared g m floor (hit + 1) → Returns next Q)
      → Returns
          (verify g m (hit - g.off_a) >>= λ good. if good then ok (some (hit - g.off_a)) else next)
          Q
  candidate hit next Q clear low fits found more =
      Returns-bind (verify g m (hit - g.off_a)) _ _ _
        (verify-MatchesAt g m (hit - g.off_a) (omega (arith, ready.sized)))
        (λ good says. elim (Bool-cases good) [
          | inl e ↦ rw e (
              found (hit - g.off_a) (
                Cleared-found (hit - g.off_a) (λ i p q. clear i p (omega arith)) (omega arith)
                  (says.0 e)))
          | inr e ↦ rw e (
              more (
                Cleared-suc hit clear (λ i lo q mat.
                  let there : i ≡ hit - g.off_a = omega arith in
                  let yes_good : good ≡ true = says.1 (subst (MatchesAt g m) there mat) in cc)))
        ])
