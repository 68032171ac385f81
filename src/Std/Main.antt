-- ===== src/Std/Main.antt =====
-- c/grep_std.c: `cb` and `main`. What the file system answers for a path is a parameter, and the same
-- whenever it is asked.
pub mod Answers
use asmgrep.Base.{Bool, Option, none, some, List, [], ◌∷◌, Bytes, Outcome, ok, ◌>>=◌, if◌then◌else◌}
use asmgrep.Args.{Setup, std_setup}
use asmgrep.Pool.{Mode, s_dir, s_reg, s_other}
use asmgrep.Mt.Collect.{Entry}
use asmgrep.Std.{Settings, settings, Printed, nothing_printed}
use asmgrep.Reading.{StdAnswers, search_file_std}
use asmgrep.Answer.{Exit, refused, exit_of}

-- What `stat` says of a path (`none` for a failure), the calls that `nftw` makes for a directory (the
-- first is for the directory itself, with FTW_D), and the answers for a file.
pub record FileSystem : Type 0 where
  pub stat : Bytes → Option Mode
  pub nftw : Bytes → List Entry
  pub file : Bytes → StdAnswers

unfoldable pub cb : Settings → FileSystem → Entry → Printed → Outcome Printed
cb g fs e s = if e.is_ftw_f then search_file_std g e.path (fs.file e.path) s else ok s

-- The calls of `cb` that `nftw` makes.
unfoldable pub nftw_calls : Settings → FileSystem → List Entry → Printed → Outcome Printed
nftw_calls g fs [] s = ok s
nftw_calls g fs (e ∷ es) s = do s' ← cb g fs e s; nftw_calls g fs es s'

-- The loop over the paths.
unfoldable pub std_path :
    Bool → Settings → FileSystem → Bytes → Option Mode → Printed → Outcome Printed
std_path r g fs p none s = ok s
std_path r g fs p (some s_dir) s = if r then nftw_calls g fs (fs.nftw p) s else ok s
std_path r g fs p (some s_reg) s = search_file_std g p (fs.file p) s
std_path r g fs p (some s_other) s = ok s

unfoldable pub std_paths : Bool → Settings → FileSystem → List Bytes → Printed → Outcome Printed
std_paths r g fs [] s = ok s
std_paths r g fs (p ∷ paths) s = do s' ← std_path r g fs p (fs.stat p) s; std_paths r g fs paths s'

-- `main`, from what the command line sets up (`none` if it is refused).
unfoldable pub std_run : FileSystem → Option (Setup (List Bytes)) → Outcome Exit
std_run fs none = ok refused
std_run fs (some s) = do
  t ← std_paths s.flags.r (settings s.pat s.flags.i s.multi) fs s.paths nothing_printed
  ok (exit_of t.stdout t.matched)

unfoldable pub std_main : FileSystem → List Bytes → Outcome Exit
std_main fs argv = std_run fs (std_setup argv)
