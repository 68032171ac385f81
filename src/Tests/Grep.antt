-- ===== src/Tests/Grep.antt =====
-- A whole run of c/grep.c on a small tree, by evaluation, and the theorem about it there.
use asmgrep.Base.{
  ℕ, ◌≡◌, refl, ◌∙◌, inl, ap, Bool, true, false, Option, none, some, List, [], ◌∷◌, arith, Bytes,
  length, Outcome, ok, fault, out_of_fuel, load,
}
use asmgrep.Libc.{memchr, memrchr, memcmp_eq}
use asmgrep.Lines.{keep}
use asmgrep.Args.{
  Setup, is_option, is_terminator, letters, parse, classify, accept, grep_setup, pass2, grep_status,
}
use asmgrep.Args.Words.{operands, option_letters}
use asmgrep.Args.Accepted.{reading}
use asmgrep.Pattern.{
  Pattern, prep_pattern, rank, fold, other_case, lower_into, rarest, second, pivots, choose,
  no_pivots,
}
use asmgrep.Match.{verify_fold, verify, earlier, find_a, single_hit, single_loop, fm_single}
use asmgrep.Output.{State, initial, flush_ctx, emit, line_bytes, needed}
use asmgrep.Lines.Slice.{or_end, behind}
use asmgrep.Scan.{scan, find_match, print_match, match_loop}
use asmgrep.Scan.Correct.{Fits}
use asmgrep.Reading.{after_read, search_file}
use asmgrep.Pool.{
  Dirent, dt_reg, traverse, all_actions, entry_actions, is_self_or_parent, action_for, q_pop,
  take_up, q_push, push_all, turn, grown,
}
use asmgrep.Mt.Collect.{Entry}
use asmgrep.Crew.{after_file, in_pool, visit_root, hand_turn}
use asmgrep.Crew.Emitted.{FileReads}
use asmgrep.Crew.Main.{GrepFiles, setting, visit, GrepEnds, GrepRun, GrepMain}
use asmgrep.Crew.Main.Ended.{GrepAnswer}
use asmgrep.Crew.Main.Files.{SameTree}
use asmgrep.Crew.Main.Lines.{GrepMain-answer}
use asmgrep.Threads.Main.{thread_count}
use asmgrep.Answer.{Exit}
use asmgrep.Answer.Expected.{lines_with}
use asmgrep.Tests.Crews.{after, solo}
use asmgrep.Tests.Programs.{words, content, contents, stat, words-IsOneLine}
use asmgrep.Tests.Runs.{bytes_of}

-- The directory d, and every other with a name of one byte, holds the file f.
abbrev listing : Bytes → Option (List Dirent)
listing [] = none
listing (c ∷ []) = some (record { d_name = bytes_of "f"; d_type = dt_reg; stat = none } ∷ [])
listing (c ∷ d ∷ ds) = none

abbrev walk : Bytes → List Entry
walk [] = []
walk (c ∷ []) =
    record { path = c ∷ []; is_ftw_f = false }
    ∷ record { path = c ∷ bytes_of "/f"; is_ftw_f = true }
    ∷ []
walk (c ∷ d ∷ ds) = []

walk-SameTree : SameTree walk listing
unfolding traverse all_actions entry_actions is_self_or_parent action_for
walk-SameTree p [] = refl
walk-SameTree p (c ∷ []) = omega arith
walk-SameTree p (c ∷ d ∷ ds) = refl

abbrev files : GrepFiles
files = record {
  stat = stat;
  listing = listing;
  file = λ p. record {
    opens = true;
    read = some content;
    fstat = some (length content);
    mmap = λ n. some content;
  };
}

files-FileReads : (p : Bytes) → FileReads content (files.file p)
files-FileReads p = inl (record { opens = refl; read = refl; fstat = refl; mmap = refl })

abbrev flag_of : Option (Setup (List Bytes)) → Bool
flag_of none = false
flag_of (some s) = s.flags.i

words-Fits : (s : Setup (List Bytes)) → reading words ≡ some s → Fits s.pat s.flags.i
unfolding operands option_letters is_option keep
words-Fits s e folds =
    let no : flag_of (reading words) ≡ true = ap flag_of e ∙ folds in
    absurd (let clash : false ≡ true = no in cc)

abbrev prepared_of : Outcome Pattern → Pattern
prepared_of (ok g) = g
prepared_of fault = no_pivots false []
prepared_of out_of_fuel = no_pivots false []

abbrev prepared : Pattern
prepared = prepared_of (prep_pattern (bytes_of "e") false)

abbrev begun : Setup ℕ
begun = record {
  flags = record { i = false; r = true };
  pat = bytes_of "e";
  paths = 2;
  multi = true;
}

abbrev visited_of : Outcome (State × List Bytes) → State × List Bytes
visited_of (ok x) = x
visited_of fault = (initial, [])
visited_of out_of_fuel = (initial, [])

abbrev visited : State × List Bytes
visited =
    visited_of
      (pass2 (visit (setting files prepared begun) true stat) words false false (ok (initial, [])))

abbrev left : Exit
left = record { stdout = bytes_of "r.txt:one\nr.txt:ERe\nd/f:one\nd/f:ERe\n"; status = 0 }

run : GrepMain files 1 words left
unfolding GrepMain GrepRun GrepEnds grep_setup parse classify accept letters is_option is_terminator
    pass2 visit visit_root thread_count grep_status traverse all_actions entry_actions
    is_self_or_parent action_for after hand_turn in_pool after_file turn q_pop take_up q_push
    push_all grown search_file after_read scan find_match print_match match_loop emit flush_ctx
    line_bytes needed or_end behind fm_single single_loop single_hit find_a earlier verify
    verify_fold memchr memrchr memcmp_eq load fold prep_pattern rank other_case lower_into rarest
    second pivots choose no_pivots
run = (
  prepared,
  refl,
  visited,
  refl,
  (
    (after (setting files prepared begun) visited.0 visited.1 8).0 ∷ [],
    (after (setting files prepared begun) visited.0 visited.1 8).1,
    solo (setting files prepared begun) visited.0 visited.1 8,
    refl,
    refl,
  ),
)

GrepMain-answer_example : GrepAnswer lines_with files walk contents (reading words) left
GrepMain-answer_example =
    GrepMain-answer contents files walk files-FileReads walk-SameTree 1 words left
      (λ s e. (words-Fits s e, words-IsOneLine s e)) run
