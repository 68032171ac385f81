-- ===== src/Match/Single.antt =====
-- `fm_single` finds the first place at which the pattern stands.
use asmgrep.Base.{
  ℕ, zero, suc, ◌+◌, ◌-◌, ◌≤◌, ◌<◌, inl, inr, Option, none, some, arith, ltb, ltb→lt, ltb→ge,
  Bool-cases, Bytes, length, Outcome, Returns, Returns-bind,
}
use asmgrep.Libc.{First}
use asmgrep.Pattern.{Pattern}
use asmgrep.Pattern.Prepared.{IsPrepared}
use asmgrep.Match.{find_a, single_hit, single_loop, fm_single}
use asmgrep.Match.Cleared.{
  Cleared, Finds, Cleared-start, Cleared-skip, Cleared-outside, candidate, Cleared-end,
}
use asmgrep.Match.Spec.{IsPivotA, find_a-First}

module _ (g : Pattern) (m : Bytes) (floor : ℕ) (ready : IsPrepared g) where
  hit-Finds :
      (next : ℕ → Outcome (Option ℕ)) (hit : ℕ)
      → Cleared g m floor hit
      → hit < length m
      → (Cleared g m floor (hit + 1) → Returns (next (hit + 1)) (Finds g m floor))
      → Returns (single_hit g m floor next (some hit)) (Finds g m floor)
  unfolding single_hit
  hit-Finds next hit clear inside more = elim (Bool-cases (ltb hit (floor + g.off_a))) [
    | inl low ↦
        let lt = ltb→lt hit (floor + g.off_a) low in
        rw low (more (Cleared-outside g m floor ready hit clear (inl lt)))
    | inr high ↦
        let ge = ltb→ge hit (floor + g.off_a) high in
        rw high (elim (Bool-cases (ltb (length m) (hit - g.off_a + g.patlen))) [
          | inl past ↦ rw past (
              Cleared-end g m floor ready hit clear
                (omega (arith, ltb→lt (length m) (hit - g.off_a + g.patlen) past, ready.sized)))
          | inr fits ↦ rw fits (
              candidate g m floor ready hit (next (hit + 1)) (Finds g m floor) clear ge
                (ltb→ge (length m) (hit - g.off_a + g.patlen) fits) (λ s h. h) more)
        ])
  ]

  -- A round of the loop, by what `find_a` answered.
  answer-Finds :
      (next : ℕ → Outcome (Option ℕ)) (p : ℕ) (r : Option ℕ)
      → Cleared g m floor p
      → First (IsPivotA g m) p (length m) r
      → ((hit : ℕ)
          → p ≤ hit
          → hit < length m
          → Cleared g m floor (hit + 1)
          → Returns (next (hit + 1)) (Finds g m floor))
      → Returns (single_hit g m floor next r) (Finds g m floor)
  unfolding single_hit
  answer-Finds next p none clear found more =
      Cleared-end g m floor ready (length m) (Cleared-skip g m floor ready p (length m) clear found)
        (omega (arith, ready.ordered, ready.inside))
  answer-Finds next p (some hit) clear (le, lt, _, before) more =
      hit-Finds next hit (Cleared-skip g m floor ready p hit clear before) lt (more hit le lt)

  loop-Finds :
      (f p : ℕ)
      → p ≤ length m
      → length m < p + f
      → Cleared g m floor p
      → Returns (single_loop f g m floor p) (Finds g m floor)
  unfolding single_loop
  loop-Finds zero p inside fuel clear = absurd (omega arith)
  loop-Finds (suc f) p inside fuel clear = elim (Bool-cases (ltb p (length m))) [
    | inr out ↦ rw out (
        Cleared-end g m floor ready p clear
          (omega (arith, ltb→ge p (length m) out, ready.ordered, ready.inside)))
    | inl more ↦ rw more (
        Returns-bind (find_a g m p) _ _ _ (find_a-First g m p ready inside) (λ r found.
          answer-Finds (single_loop f g m floor) p r clear found
            (λ hit le lt. loop-Finds f (hit + 1) (omega arith) (omega arith))))
  ]

  -- `fm_single` reads in bounds, ends, and returns the first index from `floor` on at which the
  -- pattern stands, or NULL if there is none.
  pub fm_single-Finds : floor ≤ length m → Returns (fm_single g m floor) (Finds g m floor)
  unfolding fm_single
  fm_single-Finds h =
      loop-Finds (length m + 1) floor h (omega arith) (Cleared-start g m floor ready)
