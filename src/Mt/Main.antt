-- ===== src/Mt/Main.antt =====
-- c/grep_std_mt.c: `main`. What the file system answers for a path is a parameter, and the same
-- whenever it is asked.
pub mod Answers
use asmgrep.Base.{ℕ, ◌≡◌, Bool, Option, none, some, List, [], Bytes, length, ok}
use asmgrep.Args.{Setup, std_setup}
use asmgrep.Pool.{Mode}
use asmgrep.Std.{settings}
use asmgrep.Mt.Collect.{FileList, Entry, add_paths, no_files}
use asmgrep.Mt.Search.{MtAnswers}
use asmgrep.Mt.Worker.{mt_work, new_thread}
use asmgrep.Threads.Whole.{nth_path}
use asmgrep.Threads.Main.{thread_count, Joined}
use asmgrep.Answer.{Exit, refused}

-- What `stat` says of a path (`none` for a failure), the calls that `nftw` makes for a directory,
-- and the answers for a file.
pub record MtFiles : Type 0 where
  pub stat : Bytes → Option Mode
  pub nftw : Bytes → List Entry
  pub file : Bytes → MtAnswers

-- The answer of `sysconf`, `none` being -1.
abbrev pub processors : Option ℕ → ℕ
processors none = 0
processors (some n) = n

-- What `main` can leave, from what the command line sets up (`none` if it is refused): the files are
-- collected, and the threads search them until they are joined.
unfoldable pub MtRun : (ℕ → ℕ) → MtFiles → Option ℕ → Option (Setup (List Bytes)) → Exit → Type 0
MtRun fresh fs cores none e = e ≡ refused
MtRun fresh fs cores (some s) e =
    (l : FileList) × (add_paths s.flags.r fs.nftw fs.stat s.paths no_files ≡ ok l)
    × Joined
        (mt_work fresh (settings s.pat s.flags.i s.multi) (length l.files) (nth_path l.files)
          (λ i. fs.file (nth_path l.files i)))
        new_thread (thread_count (processors cores)) e

unfoldable pub MtMain : (ℕ → ℕ) → MtFiles → Option ℕ → List Bytes → Exit → Type 0
MtMain fresh fs cores argv e = MtRun fresh fs cores (std_setup argv) e
