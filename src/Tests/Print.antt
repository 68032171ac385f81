-- ===== src/Tests/Print.antt =====
-- The theorems about the output, at concrete inputs.
use mathlib.Core.List.{Perm}
use asmgrep.Base.{
  ℕ, ◌<◌, ◌≡◌, ◌≢◌, refl, true, false, List, [], ◌∷◌, ◌++◌, map, arith, Bytes, length, flatten,
  replicate, length-replicate, All-get_or, ok, Returns,
}
use asmgrep.Pattern.{prep_pattern}
use asmgrep.Pattern.Prepared.{compared}
use asmgrep.Output.{
  State, outbuf_sz, newline, needed, line_bytes, emit, emit_all, flush_ctx, initial,
}
use asmgrep.Output.Room.{HasRoom, emit-HasRoom}
use asmgrep.Output.Whole.{sections, IsWhole-initial, emit_all-whole_lines}
use asmgrep.Output.Order.{stream, emit_overtakes}
use asmgrep.Lines.{grep_lines}
use asmgrep.Scan.{scan}
use asmgrep.Scan.Selects.{IsText}
use asmgrep.Scan.Correct.{fold_if, scan-grep_lines}
use asmgrep.Tests.Runs.{bytes_of}

abbrev path : Bytes
path = bytes_of "a.log"

abbrev two_lines : List Bytes
two_lines = bytes_of "an Error" ∷ bytes_of "last error" ∷ []

emit-HasRoom_example : HasRoom (emit true path (bytes_of "an Error") initial)
emit-HasRoom_example = emit-HasRoom true path (bytes_of "an Error") initial (omega arith)

emit_all-whole_lines_example :
    (groups : List (List Bytes)) × (map flatten groups
      ≡ sections (flush_ctx (emit_all true path two_lines initial)))
    × Perm (flatten groups) ([] ++ map (line_bytes true path) two_lines)
emit_all-whole_lines_example = emit_all-whole_lines true path two_lines IsWhole-initial

-- A line of so many bytes; shut, so that its length is known and it is never written out.
tall : ℕ → Bytes
tall n = replicate n b'y'

length-tall : (n : ℕ) → length (tall n) ≡ n
unfolding tall
length-tall n = length-replicate n b'y'

abbrev long_line : Bytes
long_line = b'y' ∷ tall 70000

abbrev behind_short : State
behind_short = record initial { obuf = b'x' ∷ newline ∷ [] }

long_line_is_giant : outbuf_sz < needed false path long_line
unfolding needed
long_line_is_giant = omega (arith, length-tall 70000)

long_line_bytes : line_bytes false path long_line ≡ b'y' ∷ (tall 70000 ++ newline ∷ [])
unfolding line_bytes
long_line_bytes = refl

emit_overtakes_example :
    (flatten (sections (emit false path long_line behind_short))
      ≡ flatten (sections behind_short) ++ line_bytes false path long_line)
    × ((emit false path long_line behind_short).obuf ≡ behind_short.obuf)
    × (stream (emit false path long_line behind_short)
        ≢ stream behind_short ++ line_bytes false path long_line)
emit_overtakes_example =
    emit_overtakes false path long_line behind_short b'x' b'y' (newline ∷ [])
      (tall 70000 ++ newline ∷ []) long_line_is_giant refl long_line_bytes (omega arith)

abbrev small_text : Bytes
small_text = bytes_of "one\nan Error\nERROR"

small_text-IsText : IsText small_text
small_text-IsText i lt = All-get_or (λ x. x ≢ 0) small_text i 0 (omega arith) (omega arith)

scan-grep_lines_example : Returns (prep_pattern (bytes_of "error") true) (λ g.
    scan g true path small_text initial
    ≡ ok (
        emit_all true path
          (grep_lines (fold_if true) (compared true (bytes_of "error")) small_text)
          initial))
scan-grep_lines_example =
    scan-grep_lines (bytes_of "error") true true path small_text initial (λ _. omega arith)
      (λ k lt. All-get_or (λ x. x ≢ newline) (bytes_of "error") k 0 (omega arith) lt)
      small_text-IsText
