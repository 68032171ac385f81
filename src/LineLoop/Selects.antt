-- ===== src/LineLoop/Selects.antt =====
-- With a search that answers the first match and a search for the ends of its line, the loop
-- prints the selected lines.
use asmgrep.Base.{
  ℕ, zero, suc, ◌+◌, ◌≤◌, ◌<◌, ◌≡◌, refl, ap, ◌∙◌, inl, inr, Option, none, some, List, [], ◌∷◌,
  arith, ltb, ltb→lt, ltb→ge, Bool-cases, Bytes, length, Outcome, Returns, Returns-bind,
  Returns-mono,
}
use asmgrep.Libc.{First}
use asmgrep.Lines.{slice, IsLine, Selected, done, hit}
use asmgrep.LineLoop.{around_match, line_loop, print_each}

-- `m` is the file's content, of which `text` gives the same slices.
module _ {S : Type 0} (find : ℕ → Outcome (Option ℕ)) (ends : ℕ → Outcome (ℕ × ℕ))
    (print : Bytes → S → S) (text m : Bytes) (P : ℕ → Type 0)
    (finds : (pos : ℕ) → pos < length m → Returns (find pos) (First P pos (length m)))
    (ends_line : (i : ℕ) → i < length m → Returns (ends i) (λ line. IsLine m line.0 i line.1))
    (same : (a b : ℕ) → b ≤ length m → slice text a b ≡ slice m a b) where
  abbrev pub LoopPrints : ℕ → S → S → Type 0
  LoopPrints pos s t =
      (lines : List Bytes) × Selected P m pos lines × (t ≡ print_each print lines s)

  around_match-LoopPrints :
      (next : ℕ → S → Outcome S) (p i : ℕ) (s : S)
      → First P p (length m) (some i)
      → ((le : ℕ) (s' : S) → i ≤ le → Returns (next (le + 1) s') (LoopPrints (le + 1) s'))
      → Returns (around_match ends print text next s i) (LoopPrints p s)
  unfolding around_match print_each
  around_match-LoopPrints next p i s first more =
      Returns-bind (ends i) _ _ _ (ends_line i first.1) (λ line is_line.
        Returns-mono (next (line.1 + 1) _) _ _ (more line.1 _ is_line.to) (λ t (lines, sel, e). (
          slice m line.0 line.1 ∷ lines,
          hit i line.0 line.1 first is_line sel,
          e ∙ ap (λ l. print_each print lines (print l s)) (same line.0 line.1 is_line.inside),
        )))

  -- The loop ends without a read out of bounds, and the lines that it prints are selected.
  pub line_loop-LoopPrints :
      (f p : ℕ) (s : S)
      → length m < p + f
      → 0 < f
      → Returns (line_loop find ends print text (length m) f p s) (LoopPrints p s)
  unfolding line_loop print_each
  line_loop-LoopPrints zero p s fuel some_left = absurd (omega arith)
  line_loop-LoopPrints (suc f) p s fuel some_left = elim (Bool-cases (ltb p (length m))) [
    | inr out ↦
        let ge = ltb→ge p (length m) out in
        rw out ([], done (λ i lo up. absurd (omega arith)), refl)
    | inl more ↦
        let lt = ltb→lt p (length m) more in
        rw more (
          Returns-bind (find p) _ _ _ (finds p lt) (elim [
            | none ↦ λ first. ([], done first, refl)
            | some i ↦ λ first.
                around_match-LoopPrints (line_loop find ends print text (length m) f) p i s first
                  (λ le s' below.
                    line_loop-LoopPrints f (le + 1) s' (omega (arith, first.0)) (omega arith))
          ]))
  ]
