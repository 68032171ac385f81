-- ===== src/Cpp/Threads.antt =====
-- cpp/grep_mt.cpp and cpp/grep_mt_tuned.cpp: `main`, which the two programs share but for the body of
-- their threads. What the file system answers for a path is a parameter, and the same whenever it
-- is asked.
pub mod Answers
use asmgrep.Base.{ℕ, ◌≡◌, Bool, Option, none, some, List, [], Bytes, length}
use asmgrep.Args.{Setup}
use asmgrep.Pool.{Mode}
use asmgrep.Threads.{ThreadWork}
use asmgrep.Threads.Whole.{nth_path}
use asmgrep.Threads.Main.{thread_count, Joined}
use asmgrep.Answer.{Exit, refused}
use asmgrep.Cpp.{Globals, globals, Sink}
use asmgrep.Cpp.Std.{StreamAnswers, view_setup}
use asmgrep.Cpp.Collect.{DirectoryEntry, add_roots}
use asmgrep.Cpp.Pool.{stream_work, empty_sink}
use asmgrep.Cpp.Tuned.{SeekAnswers, TunedThread, tuned_work, new_tuned}

-- What `fs::status` says of a path (`none` for an error), the entries that the iterator comes to, up
-- to its end or an error, and the answers for a file.
pub record PoolFiles (A : Type 0) : Type 0 where
  pub status : Bytes → Option Mode
  pub entries : Bytes → List DirectoryEntry
  pub file : Bytes → A

-- What `main` can leave, from what the command line sets up (`none` if it is refused): the files are
-- collected, and the threads, of which `main` is one, search them until they are joined.
unfoldable pub PoolRun :
    {A L : Type 0}
    → (Globals → ℕ → (ℕ → Bytes) → (ℕ → A) → ThreadWork L)
    → L
    → PoolFiles A
    → ℕ
    → Option (Setup (List Bytes))
    → Exit
    → Type 0
PoolRun work b fs cores none e = e ≡ refused
PoolRun work b fs cores (some s) e =
    let files = add_roots s.flags.r fs.entries fs.status s.paths [] in
    Joined
      (work (globals s.pat s.flags.i s.multi) (length files) (nth_path files)
        (λ i. fs.file (nth_path files i)))
      b (thread_count cores) e

-- cpp/grep_mt.cpp
unfoldable pub StreamMain : PoolFiles StreamAnswers → ℕ → List Bytes → Exit → Type 0
StreamMain fs cores args e = PoolRun stream_work empty_sink fs cores (view_setup args) e

-- cpp/grep_mt_tuned.cpp
unfoldable pub TunedMain : PoolFiles SeekAnswers → ℕ → List Bytes → Exit → Type 0
TunedMain fs cores args e = PoolRun tuned_work new_tuned fs cores (view_setup args) e
