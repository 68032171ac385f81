-- ===== src/Match/Two.antt =====
-- `fm_two` finds the first place at which the pattern stands.
use mathlib.Core.Path.{subst}
use asmgrep.Base.{
  ℕ, zero, suc, ◌+◌, ◌-◌, ◌≤◌, ◌<◌, ◌≡◌, ◌≢◌, ◌⊎◌, inl, inr, true, false, not, Option, none, some,
  arith, ltb, leb, leb→le, Bool-cases, Bytes, length, at, load_in, Outcome, Returns, Returns-bind,
  ◌==◌, ◌&&◌, ◌||◌,
}
use asmgrep.Simd.{lanes, set1, loadu}
use asmgrep.Simd.Mask.{mask_of-lt, has_bit-mask_of, loadu_lem}
use asmgrep.Pattern.{Pattern, seen_as}
use asmgrep.Pattern.Prepared.{IsPrepared}
use asmgrep.Match.{pair_mask, mask_loop, tail_hit, tail_loop, block_loop, fm_two}
use asmgrep.Match.Cleared.{
  Cleared, Finds, Cleared-start, Cleared-suc, Cleared-outside, Cleared-end, candidate,
}
use asmgrep.Match.Spec.{MatchesAt, IsPivotA, MatchesAt-IsPivotA}
use asmgrep.Match.Block.{IsMask, mask_loop-Block}

neither : (x a b : ℕ) → (not (x == a) && not (x == b)) ≡ true → ¬ ((x ≡ a) ⊎ (x ≡ b))
neither x a b h d = ground arith

one_of : (a b c d : ℕ) → (ltb a b || ltb c d) ≡ true → (a < b) ⊎ (c < d)
one_of a b c d h = ground arith

none_of : (a b c d : ℕ) → (ltb a b || ltb c d) ≡ false → (b ≤ a) × (d ≤ c)
none_of a b c d h = ground arith

differs : (a b : ℕ) → not (a == b) ≡ true → a ≢ b
differs a b h = ground arith

hit_of :
    (x y a b c d : ℕ)
    → (x ≡ a) ⊎ (x ≡ b)
    → (y ≡ c) ⊎ (y ≡ d)
    → ((x == a || x == b) && (y == c || y == d)) ≡ true
hit_of x y a b c d h k = ground arith

module _ (g : Pattern) (m : Bytes) (floor : ℕ) (ready : IsPrepared g) where
  -- A match with its pivot A at `p` shows the pivot B as the comparison sees it.
  seen_b :
      (p i : ℕ)
      → i + g.off_a ≡ p
      → MatchesAt g m i
      → seen_as g (at m (p - g.off_a + g.off_b)) ≡ at g.cmp g.off_b
  seen_b p i e mat =
      let e' : p - g.off_a + g.off_b ≡ i + g.off_b = omega arith in
      rw e' (mat.1 g.off_b ready.inside)

  tail_hit-Finds :
      (p : ℕ) (next : ℕ → Outcome (Option ℕ))
      → Cleared g m floor p
      → p < length m
      → (Cleared g m floor (p + 1) → Returns (next (p + 1)) (Finds g m floor))
      → Returns (tail_hit g m floor p (at m p) next) (Finds g m floor)
  unfolding tail_hit
  tail_hit-Finds p next clear inside more =
      elim (Bool-cases (not (at m p == g.a0) && not (at m p == g.a1))) [
        | inl other ↦ rw other (
            more (
              Cleared-suc g m floor ready p clear (λ i lo e mat.
                neither (at m p) g.a0 g.a1 other
                  (subst (IsPivotA g m) e (MatchesAt-IsPivotA g m ready i mat)))))
        | inr pivot ↦
            rw pivot
              (elim (Bool-cases
                (ltb p (floor + g.off_a) || ltb (length m) (p - g.off_a + g.patlen))) [
                  | inl out ↦ rw out (
                      more (
                        Cleared-outside g m floor ready p clear
                          (one_of p (floor + g.off_a) (length m) (p - g.off_a + g.patlen) out)))
                  | inr fits ↦
                      let (low, high) =
                        none_of p (floor + g.off_a) (length m) (p - g.off_a + g.patlen) fits in
                      rw
                        (
                          fits,
                          load_in m (p - g.off_a + g.off_b)
                              (omega (arith, ready.sized, ready.inside)),
                        )
                        (elim (Bool-cases
                          (not (seen_as g (at m (p - g.off_a + g.off_b)) == at g.cmp g.off_b))) [
                            | inl diff ↦ rw diff (
                                more (
                                  Cleared-suc g m floor ready p clear
                                    (λ i lo e mat. differs _ _ diff (seen_b p i e mat))))
                            | inr same ↦ rw same (
                                candidate g m floor ready p (next (p + 1)) (Finds g m floor) clear
                                  low high (λ s h. h) more)
                          ])
                ])
      ]

  tail_loop-Finds :
      (n p : ℕ)
      → p + n ≡ length m
      → Cleared g m floor p
      → Returns (tail_loop n g m floor p) (Finds g m floor)
  unfolding tail_loop
  tail_loop-Finds zero p e clear =
      Cleared-end g m floor ready p clear (omega (arith, ready.ordered, ready.inside))
  tail_loop-Finds (suc n) p e clear = rw (load_in m p (omega arith)) (
      tail_hit-Finds p (tail_loop n g m floor) clear (omega arith)
        (tail_loop-Finds n (p + 1) (omega arith)))

  -- The mask of the two loads is that of the pairs of the block.
  pair_mask-IsMask :
      (p : ℕ) (v w : Bytes)
      → (length v ≡ lanes) × ((k : ℕ) → k < lanes → at v k ≡ at m (p + k))
      → (length w ≡ lanes) × ((k : ℕ) → k < lanes → at w k ≡ at m (p + (g.off_b - g.off_a) + k))
      → IsMask g m p 0 (pair_mask g v w)
  unfolding pair_mask set1
  pair_mask-IsMask p v w (lv, at_v) (lw, at_w) =
      let bits = λ (k : ℕ). has_bit-mask_of g.a0 g.a1 g.b0 g.b1 lanes k v w lv lw in
      record {
        low = omega arith;
        small = mask_of-lt g.a0 g.a1 g.b0 g.b1 lanes v w lv lw;
        set = λ k b. (omega arith, ((bits k).0 b).0);
        pairs = λ k _ lt pair.
            let e : p + (g.off_b - g.off_a) + k ≡ p + k + (g.off_b - g.off_a) = omega arith in
            (bits k).1 (
              lt,
              hit_of (at v k) (at w k) g.a0 g.a1 g.b0 g.b1 (rw (at_v k lt) pair.0)
                  (rw (at_w k lt, e) pair.1),
            );
      }

  block_loop-Finds :
      (f p : ℕ)
      → p ≤ length m
      → length m < p + f
      → Cleared g m floor p
      → Returns (block_loop f g m floor p) (Finds g m floor)
  unfolding block_loop
  block_loop-Finds zero p inside fuel clear = absurd (omega arith)
  block_loop-Finds (suc f) p inside fuel clear =
      elim (Bool-cases (leb (p + lanes + (g.off_b - g.off_a)) (length m))) [
        | inr short ↦ rw short (tail_loop-Finds (length m - p) p (omega arith) clear)
        | inl wide ↦
            let fits = leb→le (p + lanes + (g.off_b - g.off_a)) (length m) wide in
            rw wide (
              Returns-bind (loadu lanes m p) _ _ _ (loadu_lem lanes m p (omega arith)) (λ v at_v.
                Returns-bind (loadu lanes m (p + (g.off_b - g.off_a))) _ _ _
                  (loadu_lem lanes m (p + (g.off_b - g.off_a)) (omega arith))
                  (λ w at_w.
                    Returns-bind (mask_loop (lanes + 1) g m floor p (pair_mask g v w)) _ _ _
                      (mask_loop-Block g m floor ready (lanes + 1) p 0 (pair_mask g v w)
                        (pair_mask-IsMask p v w at_v at_w) (omega arith)
                        (λ i lo lt. clear i lo (omega arith)))
                      (elim [
                        | none ↦ λ passed.
                            block_loop-Finds f (p + lanes) (omega arith) (omega arith) passed
                        | some s ↦ λ first. first
                      ]))))
      ]

  -- `fm_two` reads in bounds, ends, and returns the first index from `floor` on at which the
  -- pattern stands, or NULL if there is none.
  pub fm_two-Finds : floor ≤ length m → Returns (fm_two g m floor) (Finds g m floor)
  unfolding fm_two
  fm_two-Finds h =
      block_loop-Finds (length m + 1) floor h (omega arith) (Cleared-start g m floor ready)
