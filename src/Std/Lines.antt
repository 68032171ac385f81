-- ===== src/Std/Lines.antt =====
-- The lines that c/grep_std.c prints for a file, as what the other programs are compared with.
use asmgrep.Base.{
  ℕ, ◌≡◌, refl, ap, ◌∙◌, Bool, false, Option, none, some, List, [], arith, min, Bytes, length, at,
  ok, Returns-inv,
}
use mathlib.Core.Path.{subst}
use asmgrep.Libc.{memchr, First, memchr-First}
use asmgrep.Pattern.Prepared.{compared}
use asmgrep.Lines.{Selected, done}
use asmgrep.Lines.Unique.{Selected-unique}
use asmgrep.Lines.Occurs.{Occurs}
use asmgrep.Scan.Selects.{IsText}
use asmgrep.Scan.Correct.{fold_if}
use asmgrep.Std.{settings, Printed, nothing_printed, print_lines, search_text}
use asmgrep.Std.Selects.{search_text-StdPrints}

module _ (pat : Bytes) (ci multi : Bool) (path m : Bytes) (u : Printed) where
  -- The lines that c/grep_std.c prints for the file.
  abbrev pub StdLines : List Bytes → Type 0
  StdLines lines =
      search_text (settings pat ci multi) path m u
      ≡ ok (print_lines (settings pat ci multi) path lines u)

  pub text-StdLines :
      (lines : List Bytes)
      → IsText m
      → Selected (Occurs (fold_if ci) (compared ci pat) m) m 0 lines
      → StdLines lines
  text-StdLines lines is_text sel =
      let (v, ran, (lines', sel', e)) =
        Returns-inv (search_text (settings pat ci multi) path m u) _
          (search_text-StdPrints pat ci multi path m u is_text) in
      ran
      ∙ ap ok e
      ∙ ap (λ ls. ok (print_lines (settings pat ci multi) path ls u))
          (Selected-unique _ m refl sel' sel)

  pub binary-StdLines : (k : ℕ) → memchr m 0 0 (min (length m) 65536) ≡ ok (some k) → StdLines []
  unfolding search_text print_lines
  binary-StdLines k e = rw e refl

-- The answer of the binary test on the first 65536 bytes.
pub binary_test :
    (m : Bytes)
    → (nul : Option ℕ) × (memchr m 0 0 (min (length m) 65536) ≡ ok nul) × (nul ≡ none → IsText m)
binary_test m =
    let peek = min (length m) 65536 in
    let (nul, tested, first) =
      Returns-inv (memchr m 0 0 peek) _
        (memchr-First m 0 0 peek peek (omega arith) (omega arith)) in
    (
      nul,
      tested,
      λ e i lt. subst (λ n. First (λ i. at m i ≡ 0) 0 peek n) e first i (omega arith) lt,
    )

-- The lines of a file that are printed, from the answer of the binary test.
module _ (pat : Bytes) (ci : Bool) (m : Bytes) where
  pub text_lines :
      IsText m → (lines : List Bytes) × Selected (Occurs (fold_if ci) (compared ci pat) m) m 0 lines
  text_lines is_text =
      let (v, ran, (lines, sel, e)) =
        Returns-inv (search_text (settings pat ci false) [] m nothing_printed) _
          (search_text-StdPrints pat ci false [] m nothing_printed is_text) in
      (lines, sel)

  unfoldable pub found_lines : (nul : Option ℕ) → (nul ≡ none → IsText m) → List Bytes
  found_lines (some k) is_text = []
  found_lines none is_text = (text_lines (is_text refl)).0

  pub found_lines-none :
      (lines : List Bytes) (is_text : none ≡ none → IsText m)
      → Selected (Occurs (fold_if ci) (compared ci pat) m) m 0 lines
      → lines ≡ found_lines none is_text
  unfolding found_lines
  found_lines-none lines is_text sel = Selected-unique _ m refl sel (text_lines (is_text refl)).1

  unfoldable pub file_lines : List Bytes
  file_lines = let (nul, tested, is_text) = binary_test m in found_lines nul is_text

  pub file_lines-StdLines :
      (multi : Bool) (path : Bytes) (u : Printed) → StdLines pat ci multi path m u file_lines
  unfolding file_lines found_lines
  file_lines-StdLines multi path u =
      let (nul, tested, is_text) = binary_test m in by_test nul tested is_text
    where
      by_test :
          (nul : Option ℕ)
          → memchr m 0 0 (min (length m) 65536) ≡ ok nul
          → (is_text : nul ≡ none → IsText m)
          → StdLines pat ci multi path m u (found_lines nul is_text)
      by_test (some k) tested is_text = binary-StdLines pat ci multi path m u k tested
      by_test none tested is_text =
          text-StdLines pat ci multi path m u (text_lines (is_text refl)).0 (is_text refl)
            (text_lines (is_text refl)).1

-- A file without bytes has none.
pub file_lines-nil : (pat : Bytes) (ci : Bool) (m : Bytes) → length m ≡ 0 → [] ≡ file_lines pat ci m
unfolding file_lines found_lines
file_lines-nil pat ci m empty = by_test (binary_test m).0 (binary_test m).2
  where
    by_test :
        (nul : Option ℕ) (is_text : nul ≡ none → IsText m) → [] ≡ found_lines pat ci m nul is_text
    by_test (some k) is_text = refl
    by_test none is_text =
        found_lines-none pat ci m [] is_text (done (λ i lo up. absurd (omega arith)))
