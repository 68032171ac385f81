-- ===== src/Std/Correct.antt =====
-- The lines that `search_text` prints, for a pattern without newlines.
use asmgrep.Base.{◌≡◌, ap, Bool, Bytes, ok, Returns-eq, Returns-mono, ◌∙◌}
use asmgrep.Pattern.Prepared.{compared}
use asmgrep.Lines.{grep_lines}
use asmgrep.Lines.Filter.{Selected-grep_lines}
use asmgrep.Scan.Selects.{IsText}
use asmgrep.Scan.Correct.{fold_if, IsOneLine, compared-IsOneLine, fold-newline}
use asmgrep.Std.{settings, Printed, print_lines, search_text}
use asmgrep.Std.Selects.{search_text-StdPrints}

-- For a pattern of any length without newlines, and a file without a NUL in its first 65536
-- bytes, `search_text` reads in bounds, ends, and prints exactly the lines of the file that hold
-- the pattern, up to case under -i, in their order.
pub search_text-grep_lines :
    (pat : Bytes) (ci multi : Bool) (path text : Bytes) (s : Printed)
    → IsOneLine pat
    → IsText text
    → search_text (settings pat ci multi) path text s
      ≡ ok (
          print_lines
            (settings pat ci multi)
            path
            (grep_lines (fold_if ci) (compared ci pat) text)
            s)
search_text-grep_lines pat ci multi path text s plain is_text =
    Returns-eq (search_text (settings pat ci multi) path text s) _ (
      Returns-mono (search_text (settings pat ci multi) path text s) _ _
        (search_text-StdPrints pat ci multi path text s is_text)
        (λ t (lines, sel, e).
          e
          ∙ ap (λ ls. print_lines (settings pat ci multi) path ls s)
              (Selected-grep_lines (fold_if ci) (compared ci pat) text
                (compared-IsOneLine ci pat plain) (fold-newline ci) sel)))
