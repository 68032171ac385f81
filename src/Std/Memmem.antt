-- ===== src/Std/Memmem.antt =====
-- What `memmem` answers.
use mathlib.Core.Path.{subst}
use mathlib.Core.Bool.{false≢true}
use native.Mathlib.Nat.{le_refl}
use asmgrep.Base.{
  ℕ, zero, suc, ◌+◌, ◌<◌, ◌≡◌, inl, inr, refl, true, false, [], ◌∷◌, arith, ltb, ltb→lt, ltb→ge,
  ◌==◌, Bool-cases, Bytes, length, Returns, Returns-bind, Returns-mono, Returns-if_false,
  Returns-if_true,
}
use asmgrep.Libc.{First, Same, First-from, memcmp_eq, memcmp_eq-Same}
use asmgrep.Lines.Occurs.{Occurs}
use asmgrep.Std.{memmem}

-- An empty needle occurs everywhere.
not_empty : (m needle : Bytes) (p n : ℕ) → ¬ Same (λ x. x) m p needle → 0 < n + length needle
not_empty m [] p n differs = absurd (differs (λ k lt. absurd (omega arith)))
not_empty m (c ∷ cs) p n differs = omega arith

module _ (m needle : Bytes) where
  -- The first index at which the needle occurs; an empty needle needs a byte to stand before.
  pub memmem-First :
      (n p : ℕ)
      → p + n ≡ length m
      → 0 < n + length needle
      → Returns (memmem m p n needle) (First (Occurs (λ x. x) needle m) p (length m))
  unfolding memmem
  memmem-First zero p e some_left =
      let ne : (length needle == 0) ≡ false = ground arith in
      Returns-if_false (length needle == 0) _ _ _ ne (λ i lo up. absurd (omega arith))
  memmem-First (suc n) p e some_left = elim (Bool-cases (ltb (suc n) (length needle))) [
    | inl short ↦
        let lt = ltb→lt _ _ short in
        Returns-if_true _ _ _ _ short (λ i lo up occ. omega (arith, occ.0))
    | inr fits ↦
        let ge = ltb→ge _ _ fits in
        Returns-if_false _ _ _ _ fits (
          Returns-bind (memcmp_eq m p needle) _ _ _ (memcmp_eq-Same m p needle (omega arith))
            (elim [
              | true ↦ λ same. (
                le_refl p,
                omega arith,
                (omega arith, same.0 refl),
                λ i lo up. absurd (omega arith),
              )
              | false ↦ λ same.
                  Returns-mono (memmem m (p + 1) n needle) _ _
                    (memmem-First n (p + 1) (omega arith)
                      (not_empty m needle p n (λ h. false≢true (same.1 h))))
                    (λ r first.
                      First-from _ p (p + 1) (length m) r (omega arith)
                        (λ i lo up occ.
                          false≢true
                            (same.1 (subst (λ j. Same (λ x. x) m j needle) (omega arith) occ.1)))
                        first)
            ]))
  ]
