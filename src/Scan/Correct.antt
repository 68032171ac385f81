-- ===== src/Scan/Correct.antt =====
-- From the command line's pattern to the lines that `scan` prints.
use mathlib.Core.Path.{subst, ap₂}
use asmgrep.Base.{
  ℕ, zero, suc, ◌≤◌, ◌<◌, ◌≡◌, ◌≢◌, inl, inr, refl, ap, ◌∙◌, Bool, true, false, [], ◌∷◌, map, arith,
  if◌then◌else◌, Bytes, length, at, ok, Returns, Returns-mono, Returns-eq,
}
use asmgrep.Pattern.{Pattern, fold, pat_lc_size, no_pivots, prep_pattern}
use asmgrep.Pattern.Prepared.{compared, length-compared, prep_pattern-Chosen, prep_pattern-empty}
use asmgrep.Match.Spec.{MatchesAt}
use asmgrep.Output.{State, newline, emit_all}
use asmgrep.Lines.{grep_lines, Selected}
use asmgrep.Lines.Occurs.{Occurs}
use asmgrep.Lines.Filter.{Selected-grep_lines}
use asmgrep.Scan.{scan}
use asmgrep.Scan.Selects.{IsText, IsReady, scan-Prints}

-- What the comparison makes of a byte.
abbrev pub fold_if : Bool → ℕ → ℕ
fold_if ci x = if ci then fold x else x

-- No byte of the pattern is a newline.
abbrev pub IsOneLine : Bytes → Type 0
IsOneLine pat = (k : ℕ) → k < length pat → at pat k ≢ newline

-- The pattern is short enough for `g_pat_lc`.
abbrev pub Fits : Bytes → Bool → Type 0
Fits pat ci = ci ≡ true → length pat ≤ pat_lc_size

pub record IsSetUp (pat : Bytes) (ci : Bool) (g : Pattern) : Type 0 where
  pub ready : IsReady g
  pub text : g.cmp ≡ compared ci pat
  pub mode : g.folded ≡ ci

no_pivots-IsSetUp : (ci : Bool) → IsSetUp [] ci (no_pivots ci [])
unfolding no_pivots
no_pivots-IsSetUp true = record { ready = inr (refl, refl); text = refl; mode = refl }
no_pivots-IsSetUp false = record { ready = inr (refl, refl); text = refl; mode = refl }

pub prep_pattern-IsSetUp :
    (pat : Bytes) (ci : Bool) → Fits pat ci → Returns (prep_pattern pat ci) (IsSetUp pat ci)
prep_pattern-IsSetUp [] ci fits = rw (prep_pattern-empty ci) (no_pivots-IsSetUp ci)
prep_pattern-IsSetUp (c ∷ cs) ci fits =
    Returns-mono (prep_pattern (c ∷ cs) ci) _ _ (prep_pattern-Chosen (c ∷ cs) ci (omega arith) fits)
      (λ g chosen. record {
        ready = inl (
          chosen.prepared,
          λ z.
              omega (
                arith,
                chosen.prepared.sized,
                ap length chosen.cmp_is,
                length-compared ci (c ∷ cs),
              ),
        );
        text = chosen.cmp_is;
        mode = chosen.prepared.mode ∙ chosen.ci_is;
      })

pub fold-newline : (ci : Bool) → fold_if ci newline ≡ newline
unfolding fold
fold-newline true = refl
fold-newline false = refl

fold-ne-newline : (x : ℕ) → x ≢ newline → fold x ≢ newline
unfolding fold
fold-ne-newline x ne e = ground arith

map-fold-IsOneLine : (pat : Bytes) → IsOneLine pat → IsOneLine (map fold pat)
map-fold-IsOneLine [] plain k lt = absurd (omega arith)
map-fold-IsOneLine (c ∷ cs) plain zero lt = fold-ne-newline c (plain 0 (omega arith))
map-fold-IsOneLine (c ∷ cs) plain (suc k) lt =
    map-fold-IsOneLine cs (λ j up. plain (suc j) (omega arith)) k (omega arith)

pub compared-IsOneLine : (ci : Bool) (pat : Bytes) → IsOneLine pat → IsOneLine (compared ci pat)
compared-IsOneLine true pat plain = map-fold-IsOneLine pat plain
compared-IsOneLine false pat plain = plain

pub Occurs-setup :
    (pat : Bytes) (ci : Bool) (g : Pattern) (m : Bytes)
    → IsSetUp pat ci g
    → MatchesAt g m ≡ Occurs (fold_if ci) (compared ci pat) m
Occurs-setup pat ci g m set = ap₂ (λ b cs. Occurs (fold_if b) cs m) set.mode set.text

-- For a pattern without newlines (under -i of at most 65536 bytes, or of any length without),
-- `prep_pattern` sets up a search with which `scan`, on a file without a NUL in its first 65536
-- bytes, reads in bounds, ends, and gives `emit` exactly the lines of the file that hold the
-- pattern, up to case under -i, in their order.
pub scan-grep_lines :
    (pat : Bytes) (ci multi : Bool) (path m : Bytes) (s : State)
    → Fits pat ci
    → IsOneLine pat
    → IsText m
    → Returns (prep_pattern pat ci) (λ g.
      scan g multi path m s
      ≡ ok (emit_all multi path (grep_lines (fold_if ci) (compared ci pat) m) s))
scan-grep_lines pat ci multi path m s fits plain text =
    Returns-mono (prep_pattern pat ci) _ _ (prep_pattern-IsSetUp pat ci fits) (λ g set.
      Returns-eq (scan g multi path m s) _ (
        Returns-mono (scan g multi path m s) _ _ (scan-Prints g multi path m s set.ready text)
          (λ t (lines, sel, e).
            e
            ∙ ap (λ ls. emit_all multi path ls s)
                (Selected-grep_lines (fold_if ci) (compared ci pat) m
                  (compared-IsOneLine ci pat plain) (fold-newline ci)
                  (subst (λ P. Selected P m 0 lines) (Occurs-setup pat ci g m set) sel)))))
