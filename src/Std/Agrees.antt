-- ===== src/Std/Agrees.antt =====
-- c/grep.c and c/grep_std.c print the same lines of a file.
use mathlib.Core.Path.{subst}
use asmgrep.Base.{
  ℕ, ◌≤◌, ◌≡◌, refl, ap, ◌∙◌, min, Bool, Option, none, some, List, [], arith, All, Bytes, length,
  at, ok, Returns, Returns-inv, Returns-mono,
}
use asmgrep.Libc.{memchr, First, memchr-First}
use asmgrep.Pattern.{Pattern, prep_pattern}
use asmgrep.Output.{State, emit_all}
use asmgrep.Lines.{Selected, done, hit}
use asmgrep.Lines.Unique.{Selected-unique}
use asmgrep.Lines.Split.{length-slice}
use asmgrep.Scan.{scan}
use asmgrep.Scan.Selects.{IsText, scan-Prints}
use asmgrep.Scan.Correct.{Fits, IsSetUp, prep_pattern-IsSetUp, Occurs-setup}
use asmgrep.Std.{settings, Printed, print_lines, search_text}
use asmgrep.Std.Selects.{search_text-StdPrints}

-- One list of lines that `scan` gives to `emit` and `search_text` prints, with what holds of it.
abbrev pub BothPrint :
    (List Bytes → Type 0) → Bytes → Bool → Bool → Bytes → Bytes → State → Printed → Pattern → Type 0
BothPrint Q pat ci multi path text s t g =
    (lines : List Bytes) × Q lines
    × (scan g multi path text s ≡ ok (emit_all multi path lines s))
    × (search_text (settings pat ci multi) path text t
        ≡ ok (print_lines (settings pat ci multi) path lines t))

-- The lines are pieces of the text.
abbrev pub Short : Bytes → List Bytes → Type 0
Short text lines = All (λ line. length line ≤ length text) lines

Selected-Short :
    (P : ℕ → Type 0) (text : Bytes) {p : ℕ} {lines : List Bytes}
    → Selected P text p lines
    → Short text lines
Selected-Short P text (done h) = tt
Selected-Short P text (hit s ls le first line sel) =
    (omega (arith, length-slice text ls le line.inside, line.inside), Selected-Short P text sel)

module _ (pat : Bytes) (ci multi : Bool) (path text : Bytes) (s : State) (t : Printed) (g : Pattern)
    (set : IsSetUp pat ci g) where
  text-BothPrint : IsText text → BothPrint (Short text) pat ci multi path text s t g
  text-BothPrint plain =
      let (u, ran, (lines, sel, e)) =
        Returns-inv (scan g multi path text s) _
          (scan-Prints g multi path text s set.ready plain) in
      let (v, ran', (lines', sel', e')) =
        Returns-inv (search_text (settings pat ci multi) path text t) _
          (search_text-StdPrints pat ci multi path text t plain) in
      let there = subst (λ P. Selected P text 0 lines) (Occurs-setup pat ci g text set) sel in
      let same = Selected-unique _ text refl sel' there in
      (
        lines,
        Selected-Short _ text there,
        ran ∙ ap ok e,
        ran' ∙ ap ok e' ∙ ap (λ ls. ok (print_lines (settings pat ci multi) path ls t)) same,
      )

  binary-BothPrint :
      (k : ℕ)
      → memchr text 0 0 (min (length text) 65536) ≡ ok (some k)
      → BothPrint (Short text) pat ci multi path text s t g
  unfolding scan search_text emit_all print_lines
  binary-BothPrint k e = ([], tt, rw e refl, rw e refl)

  pub any-BothPrint : BothPrint (Short text) pat ci multi path text s t g
  any-BothPrint =
      let (nul, e, first) = Returns-inv (memchr text 0 0 (min (length text) 65536)) _ (
        memchr-First text 0 0 (min (length text) 65536) (min (length text) 65536) (omega arith)
          (omega arith)) in
      either nul e first
    where
      either :
          (nul : Option ℕ)
          → memchr text 0 0 (min (length text) 65536) ≡ ok nul
          → First (λ i. at text i ≡ 0) 0 (min (length text) 65536) nul
          → BothPrint (Short text) pat ci multi path text s t g
      either none e first = text-BothPrint (λ i lt. first i (omega arith) lt)
      either (some k) e first = binary-BothPrint k e

-- For every pattern (under -i of at most 65536 bytes) and every file, binary ones included, there
-- is one list of lines, none longer than the file, that `scan` gives to `emit` and that
-- `search_text` prints; both end and read in bounds.
pub scan-search_text :
    (pat : Bytes) (ci multi : Bool) (path text : Bytes) (s : State) (t : Printed)
    → Fits pat ci
    → Returns (prep_pattern pat ci) (BothPrint (Short text) pat ci multi path text s t)
scan-search_text pat ci multi path text s t fits =
    Returns-mono (prep_pattern pat ci) _ _ (prep_pattern-IsSetUp pat ci fits)
      (λ g set. any-BothPrint pat ci multi path text s t g set)
