-- ===== src/Match/Block.antt =====
-- One block of 32 bytes of `fm_two`: the hits of its mask, by rising address.
use mathlib.Core.Path.{subst}
use asmgrep.Base.{
  ℕ, zero, suc, ◌+◌, ◌-◌, ◌≤◌, ◌<◌, ◌≡◌, ◌≢◌, inl, inr, true, Option, none, some, arith, leb,
  leb→le, leb→gt, Bool-cases, Bytes, length, Returns, ◌^◌, ◌==◌, ==_iff, ==→ne,
}
use asmgrep.Simd.{lanes, ctz, clear_lowest}
use asmgrep.Simd.Bits.{has_bit, has_bit-zero, has_bit-ctz, has_bit-clear, ctz-least, clear-lt}
use asmgrep.Pattern.{Pattern}
use asmgrep.Pattern.Prepared.{IsPrepared}
use asmgrep.Match.{mask_loop}
use asmgrep.Match.Cleared.{Cleared, Finds, Cleared-to, Cleared-outside, candidate}
use asmgrep.Match.Spec.{MatchesAt, IsPivotA, IsPivotB, MatchesAt-IsPivotA, MatchesAt-IsPivotB}

-- Both pivots may stand where a match with its pivot A at `j` has them.
abbrev pub IsPair : Pattern → Bytes → ℕ → Type 0
IsPair g m j = IsPivotA g m j × IsPivotB g m (j + (g.off_b - g.off_a))

-- The bits of the mask are the pairs of the block at `p`, from lane `lo` on.
pub record IsMask (g : Pattern) (m : Bytes) (p lo mask : ℕ) : Type 0 where
  pub low : lo ≤ lanes
  pub small : mask < 2 ^ lanes
  pub set : (k : ℕ) → has_bit k mask ≡ true → (lo ≤ k) × (k < lanes)
  pub pairs : (k : ℕ) → lo ≤ k → k < lanes → IsPair g m (p + k) → has_bit k mask ≡ true

no_bit : (j : ℕ) → has_bit j 0 ≢ true
no_bit j h = cc (has_bit-zero j)

-- What a block answers: the first match, or that there is none with its pivot A in the block.
abbrev pub Block : Pattern → Bytes → ℕ → ℕ → Option ℕ → Type 0
Block g m floor p none = Cleared g m floor (p + lanes)
Block g m floor p (some s) = Finds g m floor (some s)

module _ (g : Pattern) (m : Bytes) (floor : ℕ) (ready : IsPrepared g) where
  MatchesAt-IsPair : (i : ℕ) → MatchesAt g m i → IsPair g m (i + g.off_a)
  MatchesAt-IsPair i mat =
      let e : i + g.off_b ≡ i + g.off_a + (g.off_b - g.off_a) = omega (arith, ready.ordered) in
      (
        MatchesAt-IsPivotA g m ready i mat,
        subst (IsPivotB g m) e (MatchesAt-IsPivotB g m ready i mat),
      )

  -- The lanes below the lowest bit of a mask hold no match.
  Cleared-lanes :
      (p lo k mask : ℕ)
      → IsMask g m p lo mask
      → k ≤ lanes
      → ((j : ℕ) → has_bit j mask ≡ true → k ≤ j)
      → Cleared g m floor (p + lo)
      → Cleared g m floor (p + k)
  Cleared-lanes p lo k mask h le low clear =
      Cleared-to g m floor ready (p + lo) (p + k) clear (λ i fl from below mat. absurd (
        let lane = i + g.off_a - p in
        let e : i + g.off_a ≡ p + lane = omega arith in
        let bit =
          h.pairs lane (omega arith) (omega arith)
            (subst (IsPair g m) e (MatchesAt-IsPair i mat)) in
        omega (arith, low lane bit)))

  -- Clearing the lowest bit leaves the mask of the lanes behind it.
  IsMask-clear :
      (p lo mask : ℕ)
      → IsMask g m p lo mask
      → mask ≢ 0
      → IsMask g m p (suc (ctz lanes mask)) (clear_lowest mask)
  IsMask-clear p lo mask h nz = record {
    low = (h.set (ctz lanes mask) (has_bit-ctz lanes mask nz h.small)).1;
    small = clear-lt lanes mask nz h.small;
    set = λ k b.
        let (old, above) = (has_bit-clear lanes mask k nz h.small).0 b in (above, (h.set k old).1);
    pairs = λ k above lt pair. (has_bit-clear lanes mask k nz h.small).1 (
      h.pairs k (omega (arith, h.set (ctz lanes mask) (has_bit-ctz lanes mask nz h.small))) lt pair,
      above,
    );
  }

  -- The loop over the mask ends, reads in bounds and finds the first match of its lanes.
  pub mask_loop-Block :
      (f p lo mask : ℕ)
      → IsMask g m p lo mask
      → lanes < lo + f
      → Cleared g m floor (p + lo)
      → Returns (mask_loop f g m floor p mask) (Block g m floor p)
  unfolding mask_loop
  mask_loop-Block zero p lo mask h fuel clear = absurd (omega (arith, h.low))
  mask_loop-Block (suc f) p lo mask h fuel clear = elim (Bool-cases (mask == 0)) [
    | inl empty ↦
        let e : mask ≡ 0 = (==_iff mask 0).0 empty in
        rw empty (
          Cleared-lanes p lo lanes mask h (omega arith) (λ j bit. absurd (no_bit j (rw e at bit)))
            clear)
    | inr more ↦
        let nz = ==→ne mask 0 more in
        let k = ctz lanes mask in
        let bit = has_bit-ctz lanes mask nz h.small in
        let clear_k =
          Cleared-lanes p lo k mask h (omega (arith, h.set k bit))
            (λ j b. ctz-least lanes mask j nz h.small b) clear in
        let next = mask_loop f g m floor p (clear_lowest mask) in
        let rest = λ (c : Cleared g m floor (p + k + 1)).
          mask_loop-Block f p (suc k) (clear_lowest mask) (IsMask-clear p lo mask h nz)
            (omega (arith, h.set k bit)) (λ i fl lt. c i fl (omega arith)) in
        rw more (elim (Bool-cases (leb (floor + g.off_a) (p + k))) [
          | inr low ↦ rw low (
              rest (
                Cleared-outside g m floor ready (p + k) clear_k
                  (inl (leb→gt (floor + g.off_a) (p + k) low))))
          | inl high ↦ rw high (elim (Bool-cases (leb (p + k - g.off_a + g.patlen) (length m))) [
            | inr past ↦ rw past (
                rest (
                  Cleared-outside g m floor ready (p + k) clear_k
                    (inr (leb→gt (p + k - g.off_a + g.patlen) (length m) past))))
            | inl fits ↦ rw fits (
                candidate g m floor ready (p + k) next (Block g m floor p) clear_k
                  (leb→le (floor + g.off_a) (p + k) high)
                  (leb→le (p + k - g.off_a + g.patlen) (length m) fits) (λ s found. found) rest)
          ])
        ])
  ]
