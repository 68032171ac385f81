-- ===== src/Lines/Unique.antt =====
-- A text has one list of selected lines.
use mathlib.Core.Path.{subst}
use asmgrep.Base.{
  ℕ, ◌+◌, ◌-◌, ◌<◌, ◌≡◌, ◌⊎◌, inl, inr, refl, ap, sym, none, some, List, [], ◌∷◌, arith, Bytes,
  length,
}
use asmgrep.Libc.{First, First-unique, First-mono}
use asmgrep.Lines.{slice, IsLine, Selected, done, hit}

ends_le : (m : Bytes) (s a b a' b' : ℕ) → IsLine m a s b → IsLine m a' s b' → ¬ (b < b')
ends_le m s a b a' b' h k lt = elim h.stop [
  | inl e ↦ omega (arith, k.inside)
  | inr nl ↦ k.one_line b (omega (arith, k.from, h.to)) lt nl
]

starts_le : (m : Bytes) (s a b a' b' : ℕ) → IsLine m a s b → IsLine m a' s b' → ¬ (a < a')
starts_le m s a b a' b' h k lt = elim k.start [
  | inl z ↦ omega arith
  | inr nl ↦ h.one_line (a' - 1) (omega arith) (omega (arith, k.from, h.to)) nl
]

-- An index lies in one line.
pub IsLine-unique :
    (m : Bytes) (s a b a' b' : ℕ) → IsLine m a s b → IsLine m a' s b' → (a ≡ a') × (b ≡ b')
IsLine-unique m s a b a' b' h k = (
  omega (arith, starts_le m s a b a' b' h k, starts_le m s a' b' a b k h),
  omega (arith, ends_le m s a b a' b' h k, ends_le m s a' b' a b k h),
)

module _ (P : ℕ → Type 0) (m : Bytes) where
  -- The ways in which lines can be selected.
  pub Selected-cases :
      {p : ℕ} {out : List Bytes}
      → Selected P m p out
      → (First P p (length m) none × (out ≡ []))
        ⊎ ((s : ℕ) × (ls : ℕ) × (le : ℕ) × (rest : List Bytes) × First P p (length m) (some s)
            × IsLine m ls s le
            × Selected P m (le + 1) rest
            × (out ≡ slice m ls le ∷ rest))
  Selected-cases (done none_left) = inl (none_left, refl)
  Selected-cases (hit {rest} s ls le first line sel) = inr (s, ls, le, rest, first, line, sel, refl)

  pub Selected-unique :
      {p q : ℕ} {a b : List Bytes} → p ≡ q → Selected P m p a → Selected P m q b → a ≡ b
  Selected-unique {p} {q} e (done h) sel = elim (Selected-cases sel) [
    | inl (_, nil) ↦ sym nil
    | inr (s, _, _, _, first, _, _, _) ↦
        absurd (h s (omega (arith, first.0)) (omega (arith, first.1)) first.2)
  ]
  Selected-unique {p} {q} e (hit {rest} s ls le first line sel) other =
      elim (Selected-cases other) [
        | inl (h, _) ↦ absurd (h s (omega (arith, first.0)) (omega (arith, first.1)) first.2)
        | inr (s', ls', le', rest', first', line', sel', e') ↦
            let same_some =
              First-unique P p (length m) (some s) (some s') first
                (subst (λ x. First P x (length m) (some s')) (sym e) first') in
            let same_s : s ≡ s' = cc in
            let (same_ls, same_le) =
              IsLine-unique m s ls le ls' le' line
                (subst (λ x. IsLine m ls' x le') (sym same_s) line') in
            let same_rest = Selected-unique (ap (λ x. x + 1) same_le) sel sel' in cc
      ]

  pub Selected-mono :
      (Q : ℕ → Type 0)
      → ((i : ℕ) → P i → Q i)
      → ((i : ℕ) → Q i → P i)
      → {p : ℕ} {out : List Bytes} → Selected P m p out
      → Selected Q m p out
  Selected-mono Q to from (done {p} h) = done (First-mono P Q p (length m) none to from h)
  Selected-mono Q to from (hit {p} s ls le first line sel) =
      hit s ls le (First-mono P Q p (length m) (some s) to from first) line
        (Selected-mono Q to from sel)
