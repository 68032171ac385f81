-- ===== src/Tests/Lists.antt =====
-- The theorems about the list of files, at a directory with a file and a link, and a file.
use asmgrep.Base.{
  ◌≡◌, refl, true, false, Option, some, List, [], ◌∷◌, map, arith, ◌==◌, if◌then◌else◌, Bytes,
  length, ok, Returns,
}
use asmgrep.Pool.{Mode, s_dir, s_reg, grown}
use asmgrep.Mt.Collect.{add_file, collect_cb, collect_walk, add_path, add_paths, no_files}
use asmgrep.Mt.Collect.Listed.{Lists, files_of, add_paths-Lists}
use asmgrep.Cpp.Collect.{DirectoryEntry, reported}
use asmgrep.Tests.Runs.{bytes_of}

abbrev walk : Bytes → List DirectoryEntry
walk d =
    record { path = bytes_of "d/f"; is_symlink = false; is_regular_file = true }
    ∷ record { path = bytes_of "d/l"; is_symlink = true; is_regular_file = true }
    ∷ []

abbrev stat : Bytes → Option Mode
stat a = if length a == 1 then some s_dir else some s_reg

abbrev paths : List Bytes
paths = bytes_of "d" ∷ bytes_of "r.txt" ∷ []

listed :
    add_paths true (λ a. map reported (walk a)) stat paths no_files
    ≡ ok (record { files = bytes_of "d/f" ∷ bytes_of "r.txt" ∷ []; cap = 1024 })
unfolding add_paths add_path collect_walk collect_cb add_file grown
listed = refl

add_paths-Lists_example :
    Returns
      (add_paths true (λ a. map reported (walk a)) stat paths no_files)
      (Lists (files_of true (λ a. map reported (walk a)) stat paths) no_files)
add_paths-Lists_example =
    add_paths-Lists true (λ a. map reported (walk a)) stat paths no_files (omega arith)
