-- ===== src/Tests/Files.antt =====
-- The theorems about c/grep_std.c and its agreement with c/grep.c, at concrete inputs.
use asmgrep.Base.{
  ◌≡◌, ◌≢◌, refl, true, false, arith, [], ◌++◌, map, Bytes, All-get_or, ok, Returns, Outcome, ◌>>=◌,
}
use asmgrep.Pattern.{prep_pattern}
use asmgrep.Pattern.Prepared.{compared}
use asmgrep.Output.{initial, newline}
use asmgrep.Lines.{lines_of, grep_lines}
use asmgrep.Scan.Selects.{IsText}
use asmgrep.Scan.Correct.{fold_if, IsOneLine}
use asmgrep.Libc.{memchr, memcmp_eq}
use asmgrep.Base.{load}
use asmgrep.Std.{
  settings, nothing_printed, print_line, fwrite, search_text, match_lines, print_around, memmem,
  line_start, line_end, tolower,
}
use asmgrep.Std.Again.{lines_of-search_text, search_text_again}
use asmgrep.Lines.Printed.{named}
use asmgrep.Std.Agrees.{BothPrint, Short, scan-search_text}
use asmgrep.Std.SameBytes.{SameBytes, scan-SameBytes}
use asmgrep.Tests.Runs.{bytes_of}

abbrev name : Bytes
name = bytes_of "b.txt"

abbrev three_lines : Bytes
three_lines = bytes_of "one\nan Error\nERROR"

-- What c/grep_std.c prints for one file.
run_std : Bytes → Outcome Bytes
unfolding search_text settings match_lines print_around memmem memcmp_eq memchr load line_start
    line_end tolower print_line fwrite
run_std pat = do
  s ← search_text (settings pat true true) name three_lines nothing_printed
  ok s.stdout

std_folds : run_std (bytes_of "error") ≡ ok (bytes_of "b.txt:an Error\nb.txt:ERROR\n")
unfolding run_std
std_folds = refl

three_lines-IsText : IsText three_lines
three_lines-IsText i lt = All-get_or (λ x. x ≢ 0) three_lines i 0 (omega arith) (omega arith)

error-IsOneLine : IsOneLine (bytes_of "error")
error-IsOneLine k lt = All-get_or (λ x. x ≢ newline) (bytes_of "error") k 0 (omega arith) lt

lines_of-search_text_example :
    Returns
      (search_text (settings (bytes_of "error") true true) name three_lines nothing_printed)
      (λ t.
        lines_of t.stdout
        ≡ map
            (λ line. named true name ++ line)
            (grep_lines (fold_if true) (compared true (bytes_of "error")) three_lines))
lines_of-search_text_example =
    lines_of-search_text (bytes_of "error") true name three_lines error-IsOneLine true
      (ground arith) three_lines-IsText

search_text_again_example :
    Returns
      (search_text (settings (bytes_of "error") true false) name three_lines nothing_printed)
      (λ t. search_text (settings (bytes_of "error") true false) [] t.stdout nothing_printed ≡ ok t)
search_text_again_example =
    search_text_again (bytes_of "error") true name three_lines error-IsOneLine [] (omega arith)

-- A pattern with a newline in it, which lies in no line.
scan-search_text_example : Returns (prep_pattern (bytes_of "e\na") false) (
    BothPrint
      (Short three_lines)
      (bytes_of "e\na")
      false
      true
      name
      three_lines
      initial
      nothing_printed)
scan-search_text_example =
    scan-search_text (bytes_of "e\na") false true name three_lines initial nothing_printed
      (λ e. absurd cc)

scan-SameBytes_example :
    Returns
      (prep_pattern (bytes_of "error") true)
      (SameBytes (bytes_of "error") true true name three_lines)
scan-SameBytes_example =
    scan-SameBytes (bytes_of "error") true true name three_lines (λ _. omega arith) (omega arith)
