-- ===== src/Tests/Programs.antt =====
-- Whole runs of the programs on a small tree, by evaluation, and the theorems about them there.
use mathlib.Core.Path.{subst}
use asmgrep.Base.{
  ◌≡◌, refl, inl, ap, true, false, Option, none, some, List, [], ◌∷◌, ◌++◌, map, arith, ◌==◌,
  if◌then◌else◌, All-get_or, ◌≢◌, Bytes, length, take, drop, ok, Returns, load,
}
use asmgrep.Libc.{memchr, memrchr, memcmp_eq}
use asmgrep.Output.{newline}
use asmgrep.Args.{Setup, is_option, is_terminator, letters, parse, collect, accept, std_setup}
use asmgrep.Args.Words.{operands, option_letters}
use asmgrep.Args.Accepted.{reading}
use asmgrep.Lines.{keep}
use asmgrep.Pool.{Mode, s_dir, s_reg, grown}
use asmgrep.Scan.Correct.{IsOneLine}
use asmgrep.Std.{settings, memmem, tolower, line_start, line_end}
use asmgrep.Mt.Collect.{Entry, add_file, collect_cb, collect_walk, add_path, add_paths}
use asmgrep.LineLoop.{line_loop, around_match}
use asmgrep.Lines.Slice.{or_end, behind}
use asmgrep.Threads.{ThreadWork, after_search, set_matched, write, member_turn}
use asmgrep.Threads.Whole.{nth_path}
use asmgrep.Threads.Main.{thread_count}
use asmgrep.Mt.{ob_line, ob_total, ob_copy, ob_flush}
use asmgrep.Mt.Search.{
  fresh_bytes, ensure, store, read_rest, mt_ends, mt_print, mt_loop, mt_search, mt_read, mt_sized,
  mt_told, mt_search_file, Thread,
}
use asmgrep.Mt.Worker.{mt_work, new_thread}
use asmgrep.Mt.Main.{MtFiles, MtRun, MtMain}
use asmgrep.Mt.Main.Answers.{IsMtReadable, MtMain-answer, MtMain-ends}
use asmgrep.Answer.{Exit, exit_of}
use asmgrep.Answer.Expected.{answer, lines_with, ReordersAnswer}
use asmgrep.Std.Main.{FileSystem, std_main}
use asmgrep.Std.Main.Answers.{IsReadable, std_main-answer}
use asmgrep.Cpp.{
  globals, sv_find, sv_find_char, sv_rfind_char, lower, format_line, append_line, view_ends,
  view_loop, Sink,
}
use asmgrep.Cpp.Std.{
  StreamAnswers, read_sized, read_file, search_view, search_read, search_stream, view_is_option,
  view_is_dashes, view_parse, view_setup,
}
use asmgrep.Cpp.Agrees.{StreamReads}
use asmgrep.Cpp.Collect.{DirectoryEntry, collect_entry, collect_dir, add_root, add_roots, reported}
use asmgrep.Cpp.Pool.{flush_string, flush_full, stream_work, empty_sink}
use asmgrep.Cpp.Tuned.{
  SeekAnswers, TunedThread, resize_up, tuned_read, tuned_search, tuned_view, tuned_sized,
  tuned_search_file, tuned_work, new_tuned,
}
use asmgrep.Cpp.Tuned.Agrees.{SeekReads}
use asmgrep.Cpp.Main.{CppFiles, cpp_main}
use asmgrep.Cpp.Main.Answers.{cpp_main-std_main}
use asmgrep.Cpp.Threads.{PoolFiles, PoolRun, StreamMain, TunedMain}
use asmgrep.Cpp.Threads.Answers.{
  StreamMain-answer, StreamMain-ends, TunedMain-answer, TunedMain-ends,
}
use asmgrep.Tests.Together.{after, solo}
use asmgrep.Tests.Runs.{bytes_of}

-- `-r e d r.txt`, where d is a directory that holds the file d/f and a link.
abbrev pub words : List Bytes
words = bytes_of "-r" ∷ bytes_of "e" ∷ bytes_of "d" ∷ bytes_of "r.txt" ∷ []

abbrev pub content : Bytes
content = bytes_of "one\nan\nERe"

-- No other path is a file.
abbrev pub contents : Bytes → Bytes
contents p = content

abbrev pub stat : Bytes → Option Mode
stat p = if length p == 1 then some s_dir else some s_reg

abbrev entries : Bytes → List DirectoryEntry
entries p =
    record { path = p ++ bytes_of "/f"; is_symlink = false; is_regular_file = true }
    ∷ record { path = p ++ bytes_of "/l"; is_symlink = true; is_regular_file = true }
    ∷ []

-- `nftw` also reports the directory itself.
abbrev walk : Bytes → List Entry
walk p = record { path = p; is_ftw_f = false } ∷ map reported (entries p)

abbrev pattern_of : Option (Setup (List Bytes)) → Bytes
pattern_of none = []
pattern_of (some s) = s.pat

pub words-IsOneLine : (s : Setup (List Bytes)) → reading words ≡ some s → IsOneLine s.pat
unfolding operands option_letters is_option keep
words-IsOneLine s e =
    subst IsOneLine (ap pattern_of e)
      (λ k lt. All-get_or (λ x. x ≢ newline) (bytes_of "e") k 0 (omega arith) lt)

abbrev std_files : FileSystem
std_files = record {
  stat = stat;
  nftw = walk;
  file = λ p. record {
    fopen = true;
    fseek = true;
    ftell = some (length content);
    fread = λ n. take n content;
  };
}

std_files-IsReadable : IsReadable contents std_files
std_files-IsReadable p = inl (record { fopen = refl; fseek = refl; ftell = refl; fread = refl })

std_main-answer_example :
    std_main std_files words
    ≡ ok (answer lines_with std_files.nftw std_files.stat contents (reading words))
std_main-answer_example =
    std_main-answer contents std_files std_files-IsReadable words words-IsOneLine

abbrev stream_answers : Bytes → StreamAnswers
stream_answers p = record {
  file_size = some (length content);
  opens = true;
  reads = λ n. take n content;
}

abbrev cpp_files : CppFiles
cpp_files = record { status = stat; entries = entries; file = stream_answers }

stream_answers-StreamReads : (p : Bytes) → StreamReads content (stream_answers p)
stream_answers-StreamReads p = inl (record { file_size = refl; opens = refl; reads = refl })

cpp_main-std_main_example :
    Returns (std_main std_files words) (λ e. cpp_main cpp_files words ≡ ok e)
cpp_main-std_main_example =
    cpp_main-std_main contents std_files cpp_files words std_files-IsReadable
      stream_answers-StreamReads (record { mode = λ p. refl; entries = λ p is_dir. refl })

abbrev mt_files : MtFiles
mt_files = record {
  stat = stat;
  nftw = walk;
  file = λ p. record {
    fopen = true;
    fseek = true;
    ftell = some (length content);
    fread = λ i n. take n (drop i content);
  };
}

mt_files-IsMtReadable : IsMtReadable contents mt_files
mt_files-IsMtReadable p =
    inl (record { fopen = refl; fseek = refl; ftell = refl; fread = λ i n. refl })

MtMain-ends_example : (e : Exit) × MtMain (λ i. i) mt_files none words e
MtMain-ends_example = MtMain-ends contents (λ i. i) mt_files none mt_files-IsMtReadable words

-- The files that are found.
abbrev found : List Bytes
found = bytes_of "d/f" ∷ bytes_of "r.txt" ∷ []

abbrev mt_threads : ThreadWork Thread
mt_threads =
    mt_work (λ i. i) (settings (bytes_of "e") false true) 2 (nth_path found)
      (λ i. mt_files.file (nth_path found i))

abbrev mt_left : Exit
mt_left = exit_of (bytes_of "d/f:one\nd/f:ERe\nr.txt:one\nr.txt:ERe\n") true

mt_run : MtMain (λ i. i) mt_files none words mt_left
unfolding MtMain MtRun std_setup parse is_option is_terminator letters accept collect add_paths
    add_path add_file collect_walk collect_cb grown thread_count after member_turn after_search
    set_matched write mt_work settings mt_search_file mt_told mt_sized mt_read mt_search mt_loop
    mt_ends mt_print read_rest ensure fresh_bytes store line_loop around_match memmem memchr
    memcmp_eq load line_start line_end tolower ob_line ob_total ob_copy ob_flush exit_of
mt_run = (
  record { files = found; cap = 1024 },
  refl,
  (
    (after mt_threads new_thread 9).0 ∷ [],
    (after mt_threads new_thread 9).1,
    solo mt_threads new_thread 9,
    refl,
    refl,
  ),
)

MtMain-answer_example :
    ReordersAnswer lines_with mt_files.nftw mt_files.stat contents (reading words) mt_left
MtMain-answer_example =
    MtMain-answer contents (λ i. i) mt_files none mt_files-IsMtReadable words words-IsOneLine
      mt_left mt_run

abbrev pool_files : PoolFiles StreamAnswers
pool_files = record { status = stat; entries = entries; file = stream_answers }

abbrev stream_threads : ThreadWork Sink
stream_threads =
    stream_work (globals (bytes_of "e") false true) 2 (nth_path found)
      (λ i. stream_answers (nth_path found i))

stream_run : StreamMain pool_files 1 words mt_left
unfolding StreamMain PoolRun view_setup view_parse view_is_option view_is_dashes letters accept
    collect add_roots add_root collect_dir collect_entry thread_count after member_turn after_search
    set_matched write stream_work flush_string flush_full globals search_stream read_file read_sized
    search_read search_view view_loop line_loop around_match sv_find sv_find_char sv_rfind_char
    memmem memchr memrchr memcmp_eq load view_ends append_line format_line lower or_end behind
    exit_of
stream_run = (
  (after stream_threads empty_sink 9).0 ∷ [],
  (after stream_threads empty_sink 9).1,
  solo stream_threads empty_sink 9,
  refl,
  refl,
)

StreamMain-answer_example :
    ReordersAnswer lines_with (λ p. map reported (entries p)) stat contents (reading words) mt_left
StreamMain-answer_example =
    StreamMain-answer contents pool_files 1 words mt_left stream_answers-StreamReads words-IsOneLine
      stream_run

abbrev tuned_answers : Bytes → SeekAnswers
tuned_answers p = record {
  file_size = some (length content);
  opens = true;
  reads = λ i n. take n (drop i content);
}

tuned_answers-SeekReads : (p : Bytes) → SeekReads content (tuned_answers p)
tuned_answers-SeekReads p = inl (record { file_size = refl; opens = refl; reads = λ i n. refl })

abbrev tuned_files : PoolFiles SeekAnswers
tuned_files = record { status = stat; entries = entries; file = tuned_answers }

abbrev tuned_threads : ThreadWork TunedThread
tuned_threads =
    tuned_work (globals (bytes_of "e") false true) 2 (nth_path found)
      (λ i. tuned_answers (nth_path found i))

tuned_run : TunedMain tuned_files 1 words mt_left
unfolding TunedMain PoolRun view_setup view_parse view_is_option view_is_dashes letters accept
    collect add_roots add_root collect_dir collect_entry thread_count after member_turn after_search
    set_matched write tuned_work flush_string flush_full globals tuned_search_file tuned_sized
    tuned_view tuned_search tuned_read resize_up ensure fresh_bytes store view_loop line_loop
    around_match sv_find sv_find_char sv_rfind_char memmem memchr memrchr memcmp_eq load view_ends
    append_line format_line lower or_end behind exit_of
tuned_run = (
  (after tuned_threads new_tuned 9).0 ∷ [],
  (after tuned_threads new_tuned 9).1,
  solo tuned_threads new_tuned 9,
  refl,
  refl,
)

TunedMain-answer_example :
    ReordersAnswer lines_with (λ p. map reported (entries p)) stat contents (reading words) mt_left
TunedMain-answer_example =
    TunedMain-answer contents tuned_files 1 words mt_left tuned_answers-SeekReads words-IsOneLine
      tuned_run

StreamMain-ends_example : (e : Exit) × StreamMain pool_files 1 words e
StreamMain-ends_example = StreamMain-ends contents pool_files 1 stream_answers-StreamReads words

TunedMain-ends_example : (e : Exit) × TunedMain tuned_files 1 words e
TunedMain-ends_example = TunedMain-ends contents tuned_files 1 tuned_answers-SeekReads words
