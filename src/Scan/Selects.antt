-- ===== src/Scan/Selects.antt =====
-- `scan` prints the selected lines of a text that is not binary.
use native.Mathlib.Nat.{le_refl}
use asmgrep.Base.{
  ℕ, zero, suc, ◌+◌, ◌-◌, ◌≤◌, ◌<◌, ◌≡◌, ◌≢◌, ◌⊎◌, inl, inr, refl, ap, ◌∙◌, min, Bool, true, false,
  Option, none, some, List, [], ◌∷◌, arith, ltb, ltb→lt, ltb→ge, ◌==◌, Bool-cases, Bytes, length,
  at, Outcome, ok, if◌then◌else◌, Returns, Returns-if, Returns-if_true, Returns-if_false,
  Returns-eq, Returns-bind, Returns-mono,
}
use asmgrep.Libc.{memchr, memrchr, First, memchr-First, memrchr-Last}
use asmgrep.Pattern.{Pattern}
use asmgrep.Pattern.Prepared.{IsPrepared}
use asmgrep.Match.{fm_single, fm_two}
use asmgrep.Match.Spec.{MatchesAt}
use asmgrep.Match.Cleared.{Finds}
use asmgrep.Match.Single.{fm_single-Finds}
use asmgrep.Match.Two.{fm_two-Finds}
use asmgrep.Output.{State, newline, emit, emit_all}
use asmgrep.Lines.{slice, AtStart, IsLine, Selected, done, hit}
use asmgrep.Lines.Slice.{or_end, behind, IsNewline, IsLine-around, or_end-to, or_end-stop}
use asmgrep.Scan.{bin_peek, find_match, every_line, print_match, match_loop, scan}

-- The state after some selected lines were given to `emit`.
abbrev pub Prints : (ℕ → Type 0) → Bytes → Bool → Bytes → ℕ → State → State → Type 0
Prints P m multi path p s t =
    (lines : List Bytes) × Selected P m p lines × (t ≡ emit_all multi path lines s)

-- The same behind a line that was printed.
Prints-line :
    (P : ℕ → Type 0) (m : Bytes) (multi : Bool) (path : Bytes) (p st ls le : ℕ) (s t : State)
    → First P p (length m) (some st)
    → IsLine m ls st le
    → Prints P m multi path (le + 1) (emit multi path (slice m ls le) s) t
    → Prints P m multi path p s t
unfolding emit_all
Prints-line P m multi path p st ls le s t first line (lines, sel, e) =
    (slice m ls le ∷ lines, hit st ls le first line sel, e)

pub find_match-Finds :
    (g : Pattern) (m : Bytes) (p : ℕ)
    → IsPrepared g
    → p ≤ length m
    → Returns (find_match g m p) (Finds g m p)
unfolding find_match
find_match-Finds g m p ready h =
    Returns-if g.single (fm_single g m p) (fm_two g m p) _ (fm_single-Finds g m p ready h)
      (fm_two-Finds g m p ready h)

module _ (g : Pattern) (multi : Bool) (path m : Bytes) (ready : IsPrepared g) where
  print_match-Prints :
      (next : ℕ → State → Outcome State) (p st : ℕ) (s : State)
      → First (MatchesAt g m) p (length m) (some st)
      → ((le : ℕ) (s' : State)
          → st ≤ le
          → Returns (next (le + 1) s') (Prints (MatchesAt g m) m multi path (le + 1) s'))
      → Returns (print_match multi path m next s st) (Prints (MatchesAt g m) m multi path p s)
  unfolding print_match
  print_match-Prints next p st s first more =
      Returns-bind (memrchr m 0 newline st) _ _ _
        (memrchr-Last m newline 0 st st (omega arith) (omega (arith, first.1)))
        (λ before last.
          Returns-bind (memchr m st newline (length m - st)) _ _ _
            (memchr-First m newline st (length m - st) (length m) (omega (arith, first.1))
              (le_refl _))
            (λ nl next_nl.
              let line = IsLine-around m st first.1 before nl last next_nl in
              Returns-mono (next (or_end m nl + 1) _) _ _ (more (or_end m nl) _ line.to)
                (λ t prints.
                  Prints-line (MatchesAt g m) m multi path p st (behind before) (or_end m nl) s t
                    first line prints)))

  pub match_loop-Prints :
      (f p : ℕ) (s : State)
      → length m < p + f
      → 0 < f
      → Returns (match_loop f g multi path m p s) (Prints (MatchesAt g m) m multi path p s)
  unfolding match_loop emit_all
  match_loop-Prints zero p s fuel some_left = absurd (omega arith)
  match_loop-Prints (suc f) p s fuel some_left = elim (Bool-cases (ltb p (length m))) [
    | inr out ↦
        let ge = ltb→ge p (length m) out in
        rw out ([], done (λ i lo up. absurd (omega arith)), refl)
    | inl more ↦
        let lt = ltb→lt p (length m) more in
        rw more (
          Returns-bind (find_match g m p) _ _ _ (find_match-Finds g m p ready (omega arith)) (elim [
            | none ↦ λ first. ([], done first, refl)
            | some st ↦ λ first.
                print_match-Prints (match_loop f g multi path m) p st s first (λ le s' below.
                  match_loop-Prints f (le + 1) s' (omega (arith, first.0)) (omega arith))
          ]))
  ]

-- The empty pattern stands at every index.
MatchesAt-empty : (g : Pattern) (m : Bytes) (i : ℕ) → g.cmp ≡ [] → i < length m → MatchesAt g m i
MatchesAt-empty g m i e h = rw e (omega arith, λ k lt. absurd (omega arith))

module _ (g : Pattern) (multi : Bool) (path m : Bytes) (empty : g.cmp ≡ []) where
  IsLine-here :
      (p : ℕ)
      → AtStart m p
      → p < length m
      → (nl : Option ℕ) → First (IsNewline m) p (length m) nl
      → IsLine m p p (or_end m nl)
  IsLine-here p start lt nl first =
      let (to, within, right) = or_end-to m p lt nl first in
      record {
        from = le_refl p;
        to = to;
        inside = within;
        start = start;
        stop = or_end-stop m p lt nl first;
        one_line = right;
      }

  pub every_line-Prints :
      (f p : ℕ) (s : State)
      → AtStart m p
      → length m < p + f
      → 0 < f
      → Returns (every_line f multi path m p s) (Prints (MatchesAt g m) m multi path p s)
  unfolding every_line emit_all or_end
  every_line-Prints zero p s start fuel some_left = absurd (omega arith)
  every_line-Prints (suc f) p s start fuel some_left = elim (Bool-cases (ltb p (length m))) [
    | inr out ↦
        let ge = ltb→ge p (length m) out in
        rw out ([], done (λ i lo up. absurd (omega arith)), refl)
    | inl more ↦
        let lt = ltb→lt p (length m) more in
        let first_p : First (MatchesAt g m) p (length m) (some p) =
          (le_refl p, lt, MatchesAt-empty g m p empty lt, λ i lo up. absurd (omega arith)) in
        rw more (
          Returns-bind (memchr m p newline (length m - p)) _ _ _
            (memchr-First m newline p (length m - p) (length m) (omega arith) (le_refl _))
            (elim [
              | none ↦ λ first.
                  Prints-line (MatchesAt g m) m multi path p p p (length m) s _ first_p
                    (IsLine-here p start lt none first)
                    ([], done (λ i lo up. absurd (omega arith)), refl)
              | some k ↦ λ first.
                  Returns-mono (every_line f multi path m (k + 1) _) _ _
                    (every_line-Prints f (k + 1) _ (inr (ap (at m) (omega arith) ∙ first.2))
                      (omega (arith, first.0)) (omega arith))
                    (λ t prints.
                      Prints-line (MatchesAt g m) m multi path p p p k s t first_p
                        (IsLine-here p start lt (some k) first) prints)
            ]))
  ]

-- No byte that `scan` looks at for its binary test is NUL.
abbrev pub IsText : Bytes → Type 0
IsText m = (i : ℕ) → i < min (length m) bin_peek → at m i ≢ 0

-- A pattern as `prep_pattern` leaves it.
abbrev pub IsReady : Pattern → Type 0
IsReady g = (IsPrepared g × (g.patlen ≢ 0)) ⊎ ((g.cmp ≡ []) × (g.patlen ≡ 0))

scan_loop-Prints :
    (g : Pattern) (multi : Bool) (path m : Bytes) (s : State)
    → IsReady g
    → Returns
        (if g.patlen == 0
          then every_line (length m + 1) multi path m 0 s
          else match_loop (length m + 1) g multi path m 0 s)
        (Prints (MatchesAt g m) m multi path 0 s)
scan_loop-Prints g multi path m s (inl (ready, nz)) =
    let e : (g.patlen == 0) ≡ false = ground arith in
    Returns-if_false (g.patlen == 0) _ _ _ e
      (match_loop-Prints g multi path m ready (length m + 1) 0 s (omega arith) (omega arith))
scan_loop-Prints g multi path m s (inr (empty, z)) =
    let e : (g.patlen == 0) ≡ true = ground arith in
    Returns-if_true (g.patlen == 0) _ _ _ e (
      every_line-Prints g multi path m empty (length m + 1) 0 s (inl refl) (omega arith)
        (omega arith))

-- `scan` reads in bounds and ends, and on a text it gives `emit` the selected lines: for a pattern
-- of any kind, the line in which the first match starts, and so on from the end of that line.
pub scan-Prints :
    (g : Pattern) (multi : Bool) (path m : Bytes) (s : State)
    → IsReady g
    → IsText m
    → Returns (scan g multi path m s) (Prints (MatchesAt g m) m multi path 0 s)
unfolding scan
scan-Prints g multi path m s ready text =
    Returns-bind (memchr m 0 0 (min (length m) bin_peek)) _ _ _
      (memchr-First m 0 0 (min (length m) bin_peek) (min (length m) bin_peek) (omega arith)
        (omega arith))
      (elim [
        | some k ↦ λ first. absurd (text k first.1 first.2)
        | none ↦ λ first. scan_loop-Prints g multi path m s ready
      ])

-- A file with a NUL among its first 65536 bytes is skipped: `scan` prints nothing of it.
pub scan-binary :
    (g : Pattern) (multi : Bool) (path m : Bytes) (s : State) (i : ℕ)
    → i < min (length m) bin_peek
    → at m i ≡ 0
    → scan g multi path m s ≡ ok s
unfolding scan
scan-binary g multi path m s i lt nul = Returns-eq (scan g multi path m s) s (
    Returns-bind (memchr m 0 0 (min (length m) bin_peek)) _ _ _
      (memchr-First m 0 0 (min (length m) bin_peek) (min (length m) bin_peek) (omega arith)
        (omega arith))
      (elim [ some k ↦ λ first. refl | none ↦ λ first. absurd (first i (omega arith) lt nul) ]))
