-- ===== src/Std/Again.antt =====
-- What c/grep_std.c prints for a file, split into lines and searched again.
use asmgrep.Base.{
  ◌≡◌, ◌≢◌, refl, ap, ◌∙◌, Bool, false, List, [], ◌∷◌, ◌++◌, map, arith, ◌==◌, All, All-get_or,
  Bytes, ok, Returns,
}
use asmgrep.Pattern.Prepared.{compared}
use asmgrep.Output.{newline}
use asmgrep.Lines.{lines_of, contains, keep, grep_lines}
use asmgrep.Lines.Printed.{
  Clean, named, lines_of-All, keep-All, keep_twice, lines_of-printed, printed-All,
}
use asmgrep.Scan.Selects.{IsText}
use asmgrep.Scan.Correct.{fold_if, IsOneLine}
use asmgrep.Std.{settings, Printed, nothing_printed, print_line, print_lines, search_text}
use asmgrep.Std.Correct.{search_text-grep_lines}
use asmgrep.Std.SameBytes.{print_lines-stdout}

clean_lem : (text : Bytes) → All (λ x. (x == newline) ≡ false → (x == newline) ≡ false) text
clean_lem [] = tt
clean_lem (x ∷ text) = (λ e. e, clean_lem text)

no_nul_lem : (text : Bytes) → All (λ x. x ≢ 0) text → All (λ x. (x == newline) ≡ false → x ≢ 0) text
no_nul_lem [] h = tt
no_nul_lem (x ∷ text) (p, h) = (λ e. p, no_nul_lem text h)

-- Without prefixes the name of the file does not show.
print_lines-path :
    (pat : Bytes) (ci : Bool) (path other : Bytes) (lines : List Bytes) (s : Printed)
    → print_lines (settings pat ci false) path lines s
      ≡ print_lines (settings pat ci false) other lines s
unfolding print_lines print_line settings
print_lines-path pat ci path other [] s = refl
print_lines-path pat ci path other (line ∷ lines) s =
    print_lines-path pat ci path other lines (print_line (settings pat ci false) path line s)

module _ (pat : Bytes) (ci : Bool) (path text : Bytes) (plain : IsOneLine pat) where
  selected : List Bytes
  selected = grep_lines (fold_if ci) (compared ci pat) text

  selected-Clean : All Clean selected
  unfolding selected grep_lines
  selected-Clean =
      keep-All Clean (contains (fold_if ci) (compared ci pat)) (lines_of text)
        (lines_of-All (λ x. (x == newline) ≡ false) text (clean_lem text))

  -- For a pattern without newlines, a file without a NUL in its first 65536 bytes, and, if it is
  -- printed, a file's name without newlines: `search_text` ends, and the lines of the text that it
  -- has printed are those of the file that hold the pattern, in order, each behind its prefix.
  pub lines_of-search_text :
      (multi : Bool)
      → Clean (named multi path)
      → IsText text
      → Returns (search_text (settings pat ci multi) path text nothing_printed) (λ t.
        lines_of t.stdout
        ≡ map (λ line. named multi path ++ line) (grep_lines (fold_if ci) (compared ci pat) text))
  unfolding selected
  lines_of-search_text multi name is_text =
      rw (search_text-grep_lines pat ci multi path text nothing_printed plain is_text) (
        ap lines_of (print_lines-stdout pat ci multi path selected nothing_printed)
        ∙ lines_of-printed multi path selected name selected-Clean)

  -- For a pattern without newlines and a file without a NUL: what `search_text` prints without
  -- prefixes is, searched for the same pattern under whatever name, printed again as it is, with the
  -- match flag as before.
  pub search_text_again :
      (other : Bytes)
      → All (λ x. x ≢ 0) text
      → Returns
          (search_text (settings pat ci false) path text nothing_printed)
          (λ t. search_text (settings pat ci false) other t.stdout nothing_printed ≡ ok t)
  unfolding selected grep_lines
  search_text_again other no_nul =
      rw (search_text-grep_lines pat ci false path text nothing_printed plain (text_of text no_nul))
        (search_text-grep_lines pat ci false other out nothing_printed plain
            (text_of out out_no_nul)
          ∙ ap (λ ls. ok (print_lines (settings pat ci false) other ls nothing_printed)) same
          ∙ ap ok (print_lines-path pat ci other path selected nothing_printed))
    where
      test : Bytes → Bool
      test = contains (fold_if ci) (compared ci pat)

      out : Bytes
      out = (print_lines (settings pat ci false) path selected nothing_printed).stdout

      text_of : (m : Bytes) → All (λ x. x ≢ 0) m → IsText m
      text_of m h i lt = All-get_or (λ x. x ≢ 0) m i 0 h (omega arith)

      out_no_nul : All (λ x. x ≢ 0) out
      out_no_nul = rw (print_lines-stdout pat ci false path selected nothing_printed) (
          printed-All (λ x. x ≢ 0) path selected (omega arith)
            (keep-All (All (λ x. x ≢ 0)) test (lines_of text)
              (lines_of-All (λ x. x ≢ 0) text (no_nul_lem text no_nul))))

      same : keep test (lines_of out) ≡ selected
      same =
          ap (λ m. keep test (lines_of m))
            (print_lines-stdout pat ci false path selected nothing_printed)
          ∙ ap (keep test) (lines_of-printed false path selected tt selected-Clean)
          ∙ ap (keep test) (map_same selected)
          ∙ keep_twice test (lines_of text)
        where
          map_same : (ls : List Bytes) → map (λ line. [] ++ line) ls ≡ ls
          map_same [] = refl
          map_same (l ∷ ls) = ap (◌∷◌ l) (map_same ls)
