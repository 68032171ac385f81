-- ===== src/Mt/Main/Answers.antt =====
-- A run of c/grep_std_mt.c prints the lines of the answer that is expected, in some order.
use mathlib.Core.Path.{subst}
use asmgrep.Base.{
  ℕ, ◌≡◌, refl, ap, sym, Bool, Option, none, some, List, [], Bytes, length, ok, Returns,
  Returns-mono, Returns-inv, arith,
}
use asmgrep.Args.{Setup, std_setup}
use asmgrep.Args.Accepted.{reading, std_setup-reading}
use asmgrep.Scan.Correct.{IsOneLine}
use asmgrep.Std.{settings}
use asmgrep.Std.Lines.{file_lines}
use asmgrep.Mt.Collect.{FileList, add_paths, no_files}
use asmgrep.Mt.Collect.Listed.{files_of, add_paths-Lists}
use asmgrep.Mt.Search.{Thread}
use asmgrep.Mt.Search.Agrees.{MtReads}
use asmgrep.Mt.Worker.{mt_work, new_thread}
use asmgrep.Mt.Worker.Written.{mt_work-IsLineWise, mt_work-IsFlagged}
use asmgrep.Threads.Buffers.{HoldsLines}
use asmgrep.Threads.Whole.{nth_path}
use asmgrep.Threads.Main.{thread_count, Reorders, Joined-Reorders, Joined-exists}
use asmgrep.Threads.{ThreadWork}
use asmgrep.Threads.AllLines.{printed_lines}
use asmgrep.Answer.{Exit, refused, exit_of}
use asmgrep.Answer.Expected.{lines_with, ReordersAnswer, ReordersAnswer-with}
use asmgrep.Mt.Main.{MtFiles, processors, MtRun, MtMain}

-- Every file is read without errors, or cannot be opened and counts as empty.
abbrev pub IsMtReadable : (Bytes → Bytes) → MtFiles → Type 0
IsMtReadable m fs = (p : Bytes) → MtReads (m p) (fs.file p)

module _ (m : Bytes → Bytes) (fresh : ℕ → ℕ) (fs : MtFiles) (cores : Option ℕ)
    (readable : IsMtReadable m fs) where
  files_listed :
      (r : Bool) (paths : List Bytes) (l : FileList)
      → add_paths r fs.nftw fs.stat paths no_files ≡ ok l
      → l.files ≡ files_of r fs.nftw fs.stat paths
  files_listed r paths l e =
      let lists = add_paths-Lists r fs.nftw fs.stat paths no_files (omega arith) in
      (subst (λ o. Returns o (λ (t : FileList). t.files ≡ files_of r fs.nftw fs.stat paths)) e
        (Returns-mono (add_paths r fs.nftw fs.stat paths no_files) _ _ lists (λ t k. k.0)))

  MtRun-ReordersAnswer :
      (o : Option (Setup (List Bytes))) (e : Exit)
      → MtRun fresh fs cores o e
      → ReordersAnswer file_lines fs.nftw fs.stat m o e
  unfolding MtRun mt_work exit_of
  MtRun-ReordersAnswer none e left =
      ([], ap (λ (x : Exit). x.stdout) (sym left), λ p. refl, ap (λ (x : Exit). x.status) left)
  MtRun-ReordersAnswer (some s) e (l, collected, joined) =
      let work =
        mt_work fresh (settings s.pat s.flags.i s.multi) (length l.files) (nth_path l.files)
          (λ i. fs.file (nth_path l.files i)) in
      subst (λ files. Reorders s.multi (λ p. file_lines s.pat s.flags.i (m p)) files e)
        (files_listed s.flags.r s.paths l collected)
        (Joined-Reorders work new_thread (λ held (t : Thread). HoldsLines held t.o.ob) s.pat
          s.flags.i s.multi l.files m
          (mt_work-IsLineWise fresh s.pat s.flags.i s.multi (length l.files) (nth_path l.files)
            (λ i. m (nth_path l.files i)) (λ i. fs.file (nth_path l.files i))
            (λ i. readable (nth_path l.files i)))
          (mt_work-IsFlagged fresh s.pat s.flags.i s.multi (length l.files) (nth_path l.files)
            (λ i. m (nth_path l.files i)) (λ i. fs.file (nth_path l.files i))
            (λ i. readable (nth_path l.files i)))
          refl (processors cores) e joined)

  -- For every command line whose pattern has no newline, files that are read without errors or that
  -- cannot be opened and count as empty, every number of processors, and whatever order the threads
  -- take their turns in: what a run of c/grep_std_mt.c leaves when its threads have ended is the
  -- answer that is expected of the command line, with the printed lines in some order. Without an
  -- accepted pattern and path it prints nothing and its status is 2. Otherwise it writes exactly the
  -- lines that hold the pattern in the files the paths lead to, each whole with its prefix and as
  -- often as it is there, and its status is 0 if there is such a line and 1 if not.
  pub MtMain-answer :
      (argv : List Bytes)
      → ((s : Setup (List Bytes)) → reading argv ≡ some s → IsOneLine s.pat)
      → (e : Exit) → MtMain fresh fs cores argv e
      → ReordersAnswer lines_with fs.nftw fs.stat m (reading argv) e
  unfolding MtMain
  MtMain-answer argv plain e left = ReordersAnswer-with fs.nftw fs.stat m (reading argv) e plain (
      subst (λ o. ReordersAnswer file_lines fs.nftw fs.stat m o e) (std_setup-reading argv)
        (MtRun-ReordersAnswer (std_setup argv) e left))

  abbrev work_on : Setup (List Bytes) → List Bytes → ThreadWork Thread
  work_on s files =
      mt_work fresh (settings s.pat s.flags.i s.multi) (length files) (nth_path files)
        (λ i. fs.file (nth_path files i))

  MtRun-ends : (o : Option (Setup (List Bytes))) → (e : Exit) × MtRun fresh fs cores o e
  unfolding MtRun
  MtRun-ends none = (refused, refl)
  MtRun-ends (some s) =
      let (l, collected, _) =
        Returns-inv (add_paths s.flags.r fs.nftw fs.stat s.paths no_files) _
          (add_paths-Lists s.flags.r fs.nftw fs.stat s.paths no_files (omega arith)) in
      let (e, joined) =
        Joined-exists (work_on s l.files) new_thread (λ held (t : Thread). HoldsLines held t.o.ob)
          (printed_lines s.pat s.flags.i s.multi (nth_path l.files) (λ i. m (nth_path l.files i)))
          (mt_work-IsLineWise fresh s.pat s.flags.i s.multi (length l.files) (nth_path l.files)
            (λ i. m (nth_path l.files i)) (λ i. fs.file (nth_path l.files i))
            (λ i. readable (nth_path l.files i)))
          (thread_count (processors cores)) in
      (e, (l, collected, joined))

  -- Whatever the command line and the number of processors are, over files that are read without
  -- errors or that cannot be opened: `main` of c/grep_std_mt.c collects its files without a store
  -- behind its array, and from there the threads can be run until they have all ended.
  pub MtMain-ends : (argv : List Bytes) → (e : Exit) × MtMain fresh fs cores argv e
  unfolding MtMain
  MtMain-ends argv = MtRun-ends (std_setup argv)
