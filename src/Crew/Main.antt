-- ===== src/Crew/Main.antt =====
-- c/grep.c: `main`. What the kernel answers for a path is a parameter, and the same whenever it is
-- asked.
pub mod Files
pub mod Ended
pub mod Lines
use asmgrep.Base.{
  ℕ, zero, suc, ◌≡◌, Bool, true, false, Option, none, some, List, [], map, flatten, ltb, ◌==◌,
  if◌then◌else◌, Bytes, Outcome, ok, ◌>>=◌,
}
use asmgrep.Args.{Setup, grep_setup, pass2, grep_status}
use asmgrep.Pattern.{Pattern, prep_pattern}
use asmgrep.Output.{State, flush_ctx, initial}
use asmgrep.Reading.{Answers}
use asmgrep.Pool.{Dirent, Mode, traverse, push_all, untouched}
use asmgrep.Threads.Main.{thread_count}
use asmgrep.Answer.{Exit, refused}
use asmgrep.Crew.{Hand, Common, Setting, visit_root, Works}
use asmgrep.Crew.Written.{unfinished}
use asmgrep.Crew.Flags.{any_hand}

-- What `stat` says of a path (`none` for a failure), the entries of a directory (`none` where
-- `opendir` fails), and the answers for a file.
pub record GrepFiles : Type 0 where
  pub stat : Bytes → Option Mode
  pub listing : Bytes → Option (List Dirent)
  pub file : Bytes → Answers

abbrev pub setting : GrepFiles → Pattern → Setup ℕ → Setting
setting fs g s = record {
  g = g;
  multi = s.multi;
  files = fs.file;
  actions = traverse fs.listing s.flags.r;
}

-- What pass 2 does with a path.
unfoldable pub visit :
    Setting
    → Bool
    → (Bytes → Option Mode)
    → Bytes
    → Outcome (State × List Bytes)
    → Outcome (State × List Bytes)
visit e r stat a x = do x' ← x; visit_root e r (stat a) a x'

abbrev pub grep_exit : List Bytes → Bool → Bool → Exit
grep_exit written err matched = record {
  stdout = flatten written;
  status = grep_status err matched;
}

-- Behind pass 2, by whether no directory is pending: `main` flushes its context; or the threads, of
-- which `main` is one, work until they are joined.
unfoldable pub GrepEnds : Setting → ℕ → State × List Bytes → Bool → Exit → Type 0
GrepEnds e nt x true ex =
    ex ≡ grep_exit (map flatten (flush_ctx x.0).out) (flush_ctx x.0).err (flush_ctx x.0).matched
GrepEnds e nt x false ex =
    (hs : List Hand) × (s : Common) × Works e x.0 nt x.1 hs s
    × (unfinished hs ≡ 0)
    × (ex ≡ grep_exit s.written (any_hand (λ c. c.err) hs) (any_hand (λ c. c.matched) hs))

-- What `main` can leave, from what pass 1 sets up (`none` if it is refused).
unfoldable pub GrepRun : GrepFiles → ℕ → List Bytes → Option (Setup ℕ) → Exit → Type 0
GrepRun fs cores argv none ex = ex ≡ refused
GrepRun fs cores argv (some s) ex =
    (g : Pattern) × (prep_pattern s.pat s.flags.i ≡ ok g)
    × (x : State × List Bytes) × (pass2 (visit (setting fs g s) s.flags.r fs.stat) argv false false
          (ok (initial, []))
        ≡ ok x)
    × GrepEnds (setting fs g s) (thread_count cores) x ((push_all x.1 untouched).pending == 0) ex

unfoldable pub GrepMain : GrepFiles → ℕ → List Bytes → Exit → Type 0
GrepMain fs cores argv ex = GrepRun fs cores argv (grep_setup argv) ex
