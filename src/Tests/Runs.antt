-- ===== src/Tests/Runs.antt =====
-- Runs of c/grep.c's functions, by evaluation.
use Prim.Native.Char.{code}
use Prim.Native.String.{String}
use asmgrep.Base.{
  ℕ, ◌≡◌, refl, Bool, true, false, Option, none, some, List, [], ◌∷◌, Bytes, Outcome, ok, ◌>>=◌,
}
use asmgrep.Base.{load}
use asmgrep.Libc.{memchr, memrchr, memcmp_eq}
use asmgrep.Simd.{loadu, set1, cmpeq, or_si, and_si, lanewise, movemask, ctz, clear_lowest}
use asmgrep.Pattern.{
  prep_pattern, lower_into, choose, no_pivots, pivots, rarest, second, rank, fold, other_case,
}
use asmgrep.Match.{
  fm_single, fm_two, block_loop, pair_mask, mask_loop, verify, verify_fold, tail_loop, tail_hit,
  single_loop, single_hit, find_a, earlier,
}
use asmgrep.Output.{initial, flush_ctx, emit, needed, line_bytes, giant_writes}
use asmgrep.Scan.{scan, find_match, every_line, print_match, match_loop}
use asmgrep.Lines.Slice.{or_end, behind}

-- The bytes of an ASCII text.
abbrev pub bytes_of : String → Bytes
bytes_of String.[] = []
bytes_of (String.◌∷◌ c s) = code c ∷ bytes_of s

abbrev pub log_text : Bytes
log_text =
    bytes_of
      "start\nan ERROR is here, in a line of more than thirty-two bytes\nno match\nlast Error"

-- The first match of a pattern, by either search.
run_two : Bytes → Bool → Bytes → Outcome (Option ℕ)
unfolding prep_pattern lower_into choose no_pivots pivots rarest second rank fold other_case fm_two
    block_loop loadu load pair_mask set1 cmpeq or_si and_si lanewise movemask mask_loop ctz
    clear_lowest verify verify_fold memcmp_eq tail_loop tail_hit
run_two pat ci m = prep_pattern pat ci >>= λ g. fm_two g m 0

run_single : Bytes → Bool → Bytes → Outcome (Option ℕ)
unfolding prep_pattern lower_into choose no_pivots pivots rarest second rank fold other_case
    fm_single single_loop single_hit find_a earlier memchr load verify verify_fold memcmp_eq
run_single pat ci m = prep_pattern pat ci >>= λ g. fm_single g m 0

-- What is written for one file, when the buffer is flushed at the end.
run_scan : Bytes → Bool → Bool → Bytes → Bytes → Outcome (List (List Bytes))
unfolding run_two run_single scan find_match every_line print_match match_loop memrchr or_end behind
    emit needed line_bytes giant_writes flush_ctx
run_scan pat ci multi path m = do
  g ← prep_pattern pat ci
  s ← scan g multi path m initial
  ok (flush_ctx s).out

-- Under -i, with the match in the first block of 32 bytes.
two_folds : run_two (bytes_of "error") true log_text ≡ ok (some 9)
unfolding run_two
two_folds = refl

-- The same pattern in another case, in the scalar tail.
two_exact : run_two (bytes_of "Error") false log_text ≡ ok (some 78)
unfolding run_two
two_exact = refl

two_absent : run_two (bytes_of "errors") true log_text ≡ ok none
unfolding run_two
two_absent = refl

single_folds : run_single (bytes_of "error") true log_text ≡ ok (some 9)
unfolding run_single
single_folds = refl

scan_prefix :
    run_scan (bytes_of "error") true true (bytes_of "a.log") (bytes_of "one\nan Error\nERROR")
    ≡ ok ((bytes_of "a.log:an Error\na.log:ERROR\n" ∷ []) ∷ [])
unfolding run_scan
scan_prefix = refl

-- The empty pattern prints every line.
scan_empty :
    run_scan [] false false (bytes_of "a") (bytes_of "x\n\ny")
    ≡ ok ((bytes_of "x\n\ny\n" ∷ []) ∷ [])
unfolding run_scan
scan_empty = refl

-- A file with a NUL is skipped.
scan_nul : run_scan (bytes_of "x") false false (bytes_of "a") (b'x' ∷ 0 ∷ []) ≡ ok []
unfolding run_scan
scan_nul = refl
