-- ===== src/Cpp/Main.antt =====
-- cpp/grep_std.cpp: `main`. What the file system answers for a path is a parameter, and the same
-- whenever it is asked.
pub mod Answers
use asmgrep.Base.{Bool, Option, none, some, List, [], ◌∷◌, Bytes, Outcome, ok, ◌>>=◌, if◌then◌else◌}
use asmgrep.Args.{Setup}
use asmgrep.Pool.{Mode, s_dir, s_reg, s_other}
use asmgrep.Cpp.{Globals, globals, Sink}
use asmgrep.Cpp.Std.{StreamAnswers, search_stream, view_setup}
use asmgrep.Cpp.Collect.{DirectoryEntry}
use asmgrep.Answer.{Exit, refused, exit_of}

-- What `fs::status` says of a path (`none` for an error), the entries that the iterator comes to, up
-- to its end or an error, and the answers for a file.
pub record CppFiles : Type 0 where
  pub status : Bytes → Option Mode
  pub entries : Bytes → List DirectoryEntry
  pub file : Bytes → StreamAnswers

-- The loop over the entries of a directory.
unfoldable pub visit_entry : Globals → CppFiles → DirectoryEntry → Sink → Outcome Sink
visit_entry g fs it s =
    if it.is_symlink
    then ok s
    else if it.is_regular_file
    then search_stream g it.path (fs.file it.path) s
    else ok s

unfoldable pub visit_entries : Globals → CppFiles → List DirectoryEntry → Sink → Outcome Sink
visit_entries g fs [] s = ok s
visit_entries g fs (it ∷ its) s = do s' ← visit_entry g fs it s; visit_entries g fs its s'

-- The loop over the paths.
unfoldable pub cpp_path : Bool → Globals → CppFiles → Bytes → Option Mode → Sink → Outcome Sink
cpp_path recurse g fs p none s = ok s
cpp_path recurse g fs p (some s_dir) s =
    if recurse then visit_entries g fs (fs.entries p) s else ok s
cpp_path recurse g fs p (some s_reg) s = search_stream g p (fs.file p) s
cpp_path recurse g fs p (some s_other) s = ok s

unfoldable pub cpp_paths : Bool → Globals → CppFiles → List Bytes → Sink → Outcome Sink
cpp_paths recurse g fs [] s = ok s
cpp_paths recurse g fs (p ∷ paths) s = do
  s' ← cpp_path recurse g fs p (fs.status p) s
  cpp_paths recurse g fs paths s'

-- `g_matched` and `g_out` at the start.
abbrev pub no_output : Sink
no_output = record { matched = Bool.false; out = [] }

-- `main`, from what the command line sets up (`none` if it is refused).
unfoldable pub cpp_run : CppFiles → Option (Setup (List Bytes)) → Outcome Exit
cpp_run fs none = ok refused
cpp_run fs (some s) = do
  t ← cpp_paths s.flags.r (globals s.pat s.flags.i s.multi) fs s.paths no_output
  ok (exit_of t.out t.matched)

unfoldable pub cpp_main : CppFiles → List Bytes → Outcome Exit
cpp_main fs args = cpp_run fs (view_setup args)
