-- ===== src/Cpp/Threads/Answers.antt =====
-- Runs of cpp/grep_mt.cpp and of cpp/grep_mt_tuned.cpp print the lines of the answer that is
-- expected, in some order.
use mathlib.Core.Path.{subst}
use asmgrep.Base.{
  ℕ, ◌≡◌, refl, ap, ◌∙◌, sym, false, Option, none, some, List, [], map, Bytes, length,
}
use asmgrep.Args.{Setup}
use asmgrep.Args.Accepted.{reading, std_setup-reading}
use asmgrep.Scan.Correct.{IsOneLine}
use asmgrep.Std.Lines.{file_lines}
use asmgrep.Mt.Search.Agrees.{flag_after}
use asmgrep.Threads.{ThreadWork}
use asmgrep.Threads.AllLines.{printed_lines}
use asmgrep.Threads.Buffers.{HoldsLines}
use asmgrep.Threads.Flag.{IsFlagged}
use asmgrep.Threads.Owed.{IsLineWise}
use asmgrep.Threads.Whole.{nth_path}
use asmgrep.Threads.Main.{thread_count, Reorders, Joined-Reorders, Joined-exists}
use asmgrep.Answer.{Exit, refused, exit_of}
use asmgrep.Answer.Expected.{lines_with, ReordersAnswer, ReordersAnswer-with}
use asmgrep.Cpp.{Globals, globals, Sink}
use asmgrep.Cpp.Std.{StreamAnswers, view_setup}
use asmgrep.Cpp.Agrees.{StreamReads}
use asmgrep.Cpp.Collect.{reported, add_roots, add_roots-files_of}
use asmgrep.Cpp.CommandLine.{view_setup-std_setup}
use asmgrep.Cpp.Pool.{stream_work, empty_sink}
use asmgrep.Cpp.Pool.Written.{stream_work-IsLineWise, stream_work-IsFlagged}
use asmgrep.Cpp.Tuned.{SeekAnswers, TunedThread, tuned_work, new_tuned}
use asmgrep.Cpp.Tuned.Agrees.{SeekReads}
use asmgrep.Cpp.Tuned.Written.{tuned_work-IsLineWise, tuned_work-IsFlagged}
use asmgrep.Cpp.Threads.{PoolFiles, PoolRun, StreamMain, TunedMain}

module _ {A L : Type 0} (work : Globals → ℕ → (ℕ → Bytes) → (ℕ → A) → ThreadWork L) (b : L)
    (Holds : List Bytes → L → Type 0) (m : Bytes → Bytes) (fs : PoolFiles A) (cores : ℕ) where
  -- What the body of the threads makes of a list of files.
  abbrev work_on : Setup (List Bytes) → List Bytes → ThreadWork L
  work_on s files =
      work (globals s.pat s.flags.i s.multi) (length files) (nth_path files)
        (λ i. fs.file (nth_path files i))

  abbrev WorksOn : Type 0
  WorksOn =
      (s : Setup (List Bytes)) (files : List Bytes)
      → IsLineWise (work_on s files) b Holds
          (printed_lines s.pat s.flags.i s.multi (nth_path files) (λ i. m (nth_path files i)))
        × IsFlagged (work_on s files) b
            (λ i. flag_after (file_lines s.pat s.flags.i (m (nth_path files i))) false)
        × ((work_on s files).nfiles ≡ length files)

  PoolRun-ReordersAnswer :
      WorksOn
      → (o : Option (Setup (List Bytes))) (e : Exit) → PoolRun work b fs cores o e
      → ReordersAnswer file_lines (λ p. map reported (fs.entries p)) fs.status m o e
  unfolding PoolRun exit_of
  PoolRun-ReordersAnswer h none e left =
      ([], ap (λ (x : Exit). x.stdout) (sym left), λ p. refl, ap (λ (x : Exit). x.status) left)
  PoolRun-ReordersAnswer h (some s) e joined =
      let files = add_roots s.flags.r fs.entries fs.status s.paths [] in
      let (lw, fl, size) = h s files in
      subst (λ fs. Reorders s.multi (λ p. file_lines s.pat s.flags.i (m p)) fs e)
        (add_roots-files_of s.flags.r fs.entries fs.status s.paths [])
        (Joined-Reorders (work_on s files) b Holds s.pat s.flags.i s.multi files m lw fl size cores
          e joined)

  pub PoolRun-answer :
      WorksOn
      → (argv : List Bytes) → ((s : Setup (List Bytes)) → reading argv ≡ some s → IsOneLine s.pat)
      → (e : Exit) → PoolRun work b fs cores (view_setup argv) e
      → ReordersAnswer lines_with (λ p. map reported (fs.entries p)) fs.status m (reading argv) e
  PoolRun-answer h argv plain e left =
      ReordersAnswer-with (λ p. map reported (fs.entries p)) fs.status m (reading argv) e plain
        (subst (λ o. ReordersAnswer file_lines (λ p. map reported (fs.entries p)) fs.status m o e)
          (view_setup-std_setup argv ∙ std_setup-reading argv)
          (PoolRun-ReordersAnswer h (view_setup argv) e left))

  pub PoolRun-ends :
      WorksOn → (o : Option (Setup (List Bytes))) → (e : Exit) × PoolRun work b fs cores o e
  unfolding PoolRun
  PoolRun-ends h none = (refused, refl)
  PoolRun-ends h (some s) =
      let files = add_roots s.flags.r fs.entries fs.status s.paths [] in
      Joined-exists (work_on s files) b Holds
        (printed_lines s.pat s.flags.i s.multi (nth_path files) (λ i. m (nth_path files i)))
        (h s files).0 (thread_count cores)

module _ (m : Bytes → Bytes) (fs : PoolFiles StreamAnswers) (cores : ℕ)
    (readable : (p : Bytes) → StreamReads (m p) (fs.file p)) where
  abbrev SinkHolds : List Bytes → Sink → Type 0
  SinkHolds held t = HoldsLines held t.out

  stream_work-WorksOn : WorksOn stream_work empty_sink SinkHolds m fs cores
  unfolding stream_work
  stream_work-WorksOn s files = (
    stream_work-IsLineWise s.pat s.flags.i s.multi (length files) (nth_path files)
        (λ i. m (nth_path files i)) (λ i. fs.file (nth_path files i))
        (λ i. readable (nth_path files i)),
    stream_work-IsFlagged s.pat s.flags.i s.multi (length files) (nth_path files)
        (λ i. m (nth_path files i)) (λ i. fs.file (nth_path files i))
        (λ i. readable (nth_path files i)),
    refl,
  )

  -- Whatever the command line and the number of processors are, over files that are read without
  -- errors or that cannot be opened: the threads of cpp/grep_mt.cpp can be run until they have all
  -- ended.
  pub StreamMain-ends : (argv : List Bytes) → (e : Exit) × StreamMain fs cores argv e
  unfolding StreamMain
  StreamMain-ends argv =
      PoolRun-ends stream_work empty_sink SinkHolds m fs cores stream_work-WorksOn (view_setup argv)

module _ (m : Bytes → Bytes) (fs : PoolFiles SeekAnswers) (cores : ℕ)
    (readable : (p : Bytes) → SeekReads (m p) (fs.file p)) where
  abbrev TunedHolds : List Bytes → TunedThread → Type 0
  TunedHolds held t = HoldsLines held t.sink.out

  tuned_work-WorksOn : WorksOn tuned_work new_tuned TunedHolds m fs cores
  unfolding tuned_work
  tuned_work-WorksOn s files = (
    tuned_work-IsLineWise s.pat s.flags.i s.multi (length files) (nth_path files)
        (λ i. m (nth_path files i)) (λ i. fs.file (nth_path files i))
        (λ i. readable (nth_path files i)),
    tuned_work-IsFlagged s.pat s.flags.i s.multi (length files) (nth_path files)
        (λ i. m (nth_path files i)) (λ i. fs.file (nth_path files i))
        (λ i. readable (nth_path files i)),
    refl,
  )

  -- Whatever the command line and the number of processors are, over files that are read without
  -- errors or that cannot be opened: the threads of cpp/grep_mt_tuned.cpp, with the buffers that they
  -- reuse, can be run until they have all ended.
  pub TunedMain-ends : (argv : List Bytes) → (e : Exit) × TunedMain fs cores argv e
  unfolding TunedMain
  TunedMain-ends argv =
      PoolRun-ends tuned_work new_tuned TunedHolds m fs cores tuned_work-WorksOn (view_setup argv)

-- For every command line whose pattern has no newline, files that are read without errors or that
-- cannot be opened and count as empty, every number of processors, and whatever order the threads
-- take their turns in: what a run of cpp/grep_mt.cpp leaves when its threads have ended is the
-- answer that is expected of the command line, with the printed lines, whole, in some order. Its
-- exit status is 2 without an accepted pattern and path, 0 if there is such a line, and 1 if not; a
-- path without a status or a file that cannot be opened does not change it.
pub StreamMain-answer :
    (m : Bytes → Bytes) (fs : PoolFiles StreamAnswers) (cores : ℕ) (argv : List Bytes) (e : Exit)
    → ((p : Bytes) → StreamReads (m p) (fs.file p))
    → ((s : Setup (List Bytes)) → reading argv ≡ some s → IsOneLine s.pat)
    → StreamMain fs cores argv e
    → ReordersAnswer lines_with (λ p. map reported (fs.entries p)) fs.status m (reading argv) e
unfolding StreamMain
StreamMain-answer m fs cores argv e readable plain left =
    PoolRun-answer stream_work empty_sink (SinkHolds m fs cores readable) m fs cores
      (stream_work-WorksOn m fs cores readable) argv plain e left

-- The same of cpp/grep_mt_tuned.cpp, whose threads reuse their buffers from file to file: for every
-- command line whose pattern has no newline, files that are read without errors or that cannot be
-- opened and count as empty, every number of processors, and whatever order the threads take their
-- turns in, what a run leaves when its threads have ended is the answer that is expected of the
-- command line, with the printed lines, whole, in some order. Its exit status is 2 without an
-- accepted pattern and path, 0 if there is such a line, and 1 if not; a path without a status or a
-- file that cannot be opened does not change it.
pub TunedMain-answer :
    (m : Bytes → Bytes) (fs : PoolFiles SeekAnswers) (cores : ℕ) (argv : List Bytes) (e : Exit)
    → ((p : Bytes) → SeekReads (m p) (fs.file p))
    → ((s : Setup (List Bytes)) → reading argv ≡ some s → IsOneLine s.pat)
    → TunedMain fs cores argv e
    → ReordersAnswer lines_with (λ p. map reported (fs.entries p)) fs.status m (reading argv) e
unfolding TunedMain
TunedMain-answer m fs cores argv e readable plain left =
    PoolRun-answer tuned_work new_tuned (TunedHolds m fs cores readable) m fs cores
      (tuned_work-WorksOn m fs cores readable) argv plain e left
