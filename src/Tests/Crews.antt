-- ===== src/Tests/Crews.antt =====
-- A whole run of a thread of c/grep.c over a directory with a file, by evaluation, and the theorems
-- about the threads at this run.
use asmgrep.Base.{
  inl, ℕ, zero, suc, ◌+◌, ◌≡◌, refl, Bool, true, false, some, List, [], ◌∷◌, map, flatten, Bytes,
  length, Outcome, ok, fault, out_of_fuel, load,
}
use asmgrep.Libc.{memchr, memrchr, memcmp_eq}
use asmgrep.Pattern.{
  Pattern, prep_pattern, rank, fold, other_case, lower_into, rarest, second, pivots, choose,
  no_pivots,
}
use asmgrep.Match.{verify_fold, verify, earlier, find_a, single_hit, single_loop, fm_single}
use asmgrep.Output.{State, initial, flush_ctx, emit, line_bytes, needed}
use asmgrep.Lines.Slice.{or_end, behind}
use asmgrep.Scan.{scan, find_match, print_match, match_loop}
use asmgrep.Scan.Correct.{IsSetUp, prep_pattern-IsSetUp}
use asmgrep.Reading.{Answers, after_read, search_file}
use asmgrep.Crew.Emitted.{FileReads}
use asmgrep.Pool.{search, looking, q_pop, take_up, q_push, push_all, turn, grown, untouched}
use asmgrep.Pool.Accounts.{count, over}
use asmgrep.Pool.Finished.{files_found, dirs_found}
use asmgrep.Std.{nothing_printed}
use asmgrep.Std.Lines.{StdLines}
use asmgrep.Crew.{
  Hand, hand, Common, Setting, after_file, in_pool, visit_root, visit_roots, hand_turn, fresh_hands,
  hands, Works, begin, then_turn,
}
use asmgrep.Crew.Roots.{root_files, root_dirs}
use asmgrep.Pool.{Mode, s_dir, s_reg}
use asmgrep.Base.{◌==◌, if◌then◌else◌, Option, some}
use asmgrep.Crew.Written.{unfinished, Works-all_lines}
use asmgrep.Tests.Runs.{bytes_of}

abbrev pattern : Bytes
pattern = bytes_of "e"

abbrev result_of : Outcome Pattern → Pattern
result_of (ok g) = g
result_of fault = no_pivots false []
result_of out_of_fuel = no_pivots false []

abbrev prepared : Pattern
prepared = result_of (prep_pattern pattern false)

prepared-IsSetUp : IsSetUp pattern false prepared
unfolding prep_pattern rank other_case lower_into rarest second pivots choose no_pivots fold
prepared-IsSetUp = prep_pattern-IsSetUp pattern false (λ e. absurd cc)

abbrev content : Bytes
content = bytes_of "one\nan\nERe"

abbrev answers : Answers
answers = record {
  opens = true;
  read = some content;
  fstat = some (length content);
  mmap = λ n. some content;
}

answers-FileReads : (f : Bytes) → FileReads content answers
answers-FileReads f = inl (record { opens = refl; read = refl; fstat = refl; mmap = refl })

-- The directory d holds the file f.
abbrev setting : Setting
setting = record {
  g = prepared;
  multi = true;
  files = λ f. answers;
  actions = λ d. search (bytes_of "d/f") ∷ [];
}

-- A directory and a file are given.
abbrev paths : List Bytes
paths = bytes_of "d" ∷ bytes_of "r.txt" ∷ []

abbrev stat : Bytes → Option Mode
stat a = if length a == 1 then some s_dir else some s_reg

abbrev left_by : Outcome (State × List Bytes) → State × List Bytes
left_by (ok x) = x
left_by fault = (initial, [])
left_by out_of_fuel = (initial, [])

abbrev pass2 : State × List Bytes
pass2 = left_by (visit_roots setting true stat paths (initial, []))

pass2-ran : visit_roots setting true stat paths (initial, []) ≡ ok (pass2.0, pass2.1)
unfolding visit_roots visit_root search_file after_read scan find_match print_match match_loop emit
    flush_ctx line_bytes needed or_end behind fm_single single_loop single_hit find_a earlier verify
    verify_fold memchr memrchr memcmp_eq load fold prep_pattern rank other_case lower_into rarest
    second pivots choose no_pivots
pass2-ran = refl

-- The only thread, after some turns.
unfoldable pub after : Setting → State → List Bytes → ℕ → Hand × Common
after e c roots zero =
    (hand looking [] c, record { pool = push_all roots untouched; written = map flatten c.out })
after e c roots (suc n) = hand_turn e (after e c roots n).0 (after e c roots n).1

pub solo :
    (e : Setting) (c : State) (roots : List Bytes) (n : ℕ)
    → Works e c 1 roots ((after e c roots n).0 ∷ []) (after e c roots n).1
unfolding after hands fresh_hands
solo e c roots zero = begin
solo e c roots (suc n) =
    then_turn [] [] (after e c roots n).0 (after e c roots n).1 (solo e c roots n)

abbrev at_end : Hand × Common
at_end = after setting pass2.0 pass2.1 9

ended : unfinished (at_end.0 ∷ []) ≡ 0
unfolding after visit_roots visit_root hand_turn in_pool after_file turn q_pop take_up q_push
    push_all grown search_file after_read scan find_match print_match match_loop emit flush_ctx
    line_bytes needed or_end behind fm_single single_loop single_hit find_a earlier verify
    verify_fold memchr memrchr memcmp_eq load fold prep_pattern rank other_case lower_into rarest
    second pivots choose no_pivots
ended = refl

Works-all_lines_example :
    (lines : Bytes → List Bytes) × (groups : List (List Bytes)) × ((f : Bytes)
      → StdLines pattern false true f content nothing_printed (lines f))
    × (map flatten groups ≡ at_end.1.written)
    × ((p : Bytes → Bool)
        → count p (flatten groups)
          ≡ over (λ f. count p (map (line_bytes true f) (lines f))) (root_files stat paths)
            + over (λ f. count p (map (line_bytes true f) (lines f))) at_end.1.pool.searched)
    × ((p : Bytes → Bool)
        → count p at_end.1.pool.searched ≡ files_found setting.actions p at_end.1.pool.taken)
    × ((p : Bytes → Bool)
        → count p at_end.1.pool.taken
          ≡ count p (root_dirs true stat paths) + dirs_found setting.actions p at_end.1.pool.taken)
Works-all_lines_example =
    Works-all_lines setting pattern false (λ f. content) prepared-IsSetUp answers-FileReads true
      stat paths pass2.0 pass2.1 pass2-ran 0 at_end.0 [] at_end.1 (solo setting pass2.0 pass2.1 9)
      ended
