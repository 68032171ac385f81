-- ===== src/Cpp/Main/Answers.antt =====
-- The run of cpp/grep_std.cpp gives the answer that c/grep_std.c gives.
use asmgrep.Base.{
  ◌≡◌, refl, sym, ap, ◌∙◌, Bool, true, false, not, ◌&&◌, Option, none, some, List, [], ◌∷◌, ◌++◌,
  map, append-nil, flatten, if◌then◌else◌, Bytes, Outcome, ok, ◌>>=◌, Returns, Returns-mono,
}
use asmgrep.Args.{Setup}
use asmgrep.Args.Accepted.{reading, std_setup-reading}
use asmgrep.Pool.{Mode, s_dir, s_reg, s_other}
use asmgrep.Output.{line_bytes}
use asmgrep.Mt.Collect.{Entry}
use asmgrep.Mt.Collect.Listed.{walked, files_at, files_of}
use asmgrep.Mt.Search.Agrees.{flag_after}
use asmgrep.Std.Lines.{file_lines}
use asmgrep.Std.Main.{FileSystem, std_main}
use asmgrep.Std.Main.Answers.{IsReadable, std_main-file_lines}
use asmgrep.Answer.{
  exit_of, found_in, any_in, search_all, search_all-append, search_all-one, bind_ext, Shows,
  search_all-exit,
}
use asmgrep.Answer.Expected.{answer}
use asmgrep.Cpp.{Globals, globals, Sink}
use asmgrep.Cpp.Std.{search_stream, view_setup}
use asmgrep.Cpp.Search.{SinkPrints}
use asmgrep.Cpp.Agrees.{StreamReads, search_stream-read_lines}
use asmgrep.Cpp.Collect.{DirectoryEntry, reported}
use asmgrep.Cpp.CommandLine.{view_setup-std_setup}
use asmgrep.Cpp.Main.{
  CppFiles, visit_entry, visit_entries, cpp_path, cpp_paths, no_output, cpp_run, cpp_main,
}

-- The loops search the files that are listed, one after the other.
module _ (g : Globals) (fs : CppFiles) where
  abbrev stream_at : Bytes → Sink → Outcome Sink
  stream_at p s = search_stream g p (fs.file p) s

  entry-search_all :
      (link file : Bool) (p : Bytes) (rest : List Bytes) (s : Sink)
      → ((if link then ok s else if file then stream_at p s else ok s)
          >>= search_all stream_at rest)
        ≡ search_all stream_at (if not link && file then p ∷ rest else rest) s
  unfolding search_all
  entry-search_all true file p rest s = refl
  entry-search_all false true p rest s = refl
  entry-search_all false false p rest s = refl

  visit_entries-search_all :
      (its : List DirectoryEntry) (s : Sink)
      → visit_entries g fs its s ≡ search_all stream_at (walked (map reported its)) s
  unfolding visit_entries visit_entry search_all
  visit_entries-search_all [] s = refl
  visit_entries-search_all (it ∷ its) s =
      let others = walked (map reported its) in
      bind_ext (visit_entry g fs it s) (visit_entries g fs its) (search_all stream_at others)
        (visit_entries-search_all its)
      ∙ entry-search_all it.is_symlink it.is_regular_file it.path others s

  cpp_path-search_all :
      (r : Bool) (p : Bytes) (mode : Option Mode) (s : Sink)
      → cpp_path r g fs p mode s
        ≡ search_all stream_at (files_at r (λ a. map reported (fs.entries a)) p mode) s
  unfolding cpp_path search_all
  cpp_path-search_all r p none s = refl
  cpp_path-search_all true p (some s_dir) s = visit_entries-search_all (fs.entries p) s
  cpp_path-search_all false p (some s_dir) s = refl
  cpp_path-search_all r p (some s_reg) s = sym (search_all-one stream_at p s)
  cpp_path-search_all r p (some s_other) s = refl

  cpp_paths-search_all :
      (r : Bool) (paths : List Bytes) (s : Sink)
      → cpp_paths r g fs paths s
        ≡ search_all stream_at (files_of r (λ a. map reported (fs.entries a)) fs.status paths) s
  unfolding cpp_paths search_all
  cpp_paths-search_all r [] s = refl
  cpp_paths-search_all r (p ∷ paths) s =
      let walk = λ (a : Bytes). map reported (fs.entries a) in
      let others = files_of r walk fs.status paths in
      bind_ext (cpp_path r g fs p (fs.status p) s) (cpp_paths r g fs paths)
        (search_all stream_at others) (cpp_paths-search_all r paths)
      ∙ ap (λ o. o >>= search_all stream_at others) (cpp_path-search_all r p (fs.status p) s)
      ∙ sym (search_all-append stream_at (files_at r walk p (fs.status p)) others s)

-- Every file is read without an error, or cannot be opened and counts as empty.
abbrev pub IsStreamable : (Bytes → Bytes) → CppFiles → Type 0
IsStreamable m fs = (p : Bytes) → StreamReads (m p) (fs.file p)

module _ (m : Bytes → Bytes) (fs : CppFiles) (readable : IsStreamable m fs) where
  stream_at-Shows :
      (pat : Bytes) (ci multi : Bool) (p : Bytes) (s : Sink)
      → Returns (stream_at (globals pat ci multi) fs p s) (
          Shows
            (λ (t : Sink). t.out)
            (λ (t : Sink). t.matched)
            multi
            (λ p. file_lines pat ci (m p))
            (p ∷ [])
            s)
  stream_at-Shows pat ci multi p s =
      Returns-mono (stream_at (globals pat ci multi) fs p s)
        (SinkPrints (λ lines. lines ≡ file_lines pat ci (m p)) multi p s) _
        (search_stream-read_lines pat ci multi p (m p) s (fs.file p) (readable p))
        (λ t (lines, e, o, flag). (
          o
              ∙ ap (λ ls. s.out ++ flatten (map (line_bytes multi p) ls)) e
              ∙ ap (λ b. s.out ++ b)
                  (sym (append-nil (flatten (map (line_bytes multi p) (file_lines pat ci (m p)))))),
          flag ∙ ap (λ ls. flag_after ls s.matched) e,
        ))

  cpp_run-answer :
      (o : Option (Setup (List Bytes)))
      → cpp_run fs o ≡ ok (answer file_lines (λ a. map reported (fs.entries a)) fs.status m o)
  unfolding cpp_run
  cpp_run-answer none = refl
  cpp_run-answer (some s) =
      let g = globals s.pat s.flags.i s.multi in
      let files =
        files_of s.flags.r (λ (a : Bytes). map reported (fs.entries a)) fs.status s.paths in
      ap (λ o. o >>= (λ (t : Sink). ok (exit_of t.out t.matched)))
        (cpp_paths-search_all g fs s.flags.r s.paths no_output)
      ∙ search_all-exit (λ (t : Sink). t.out) (λ (t : Sink). t.matched) s.multi
          (λ p. file_lines s.pat s.flags.i (m p)) (stream_at g fs)
          (stream_at-Shows s.pat s.flags.i s.multi) files no_output refl refl

  cpp_main-file_lines :
      (argv : List Bytes)
      → cpp_main fs argv
        ≡ ok (answer file_lines (λ a. map reported (fs.entries a)) fs.status m (reading argv))
  unfolding cpp_main
  cpp_main-file_lines argv =
      cpp_run-answer (view_setup argv)
      ∙ ap (λ o. ok (answer file_lines (λ a. map reported (fs.entries a)) fs.status m o))
          (view_setup-std_setup argv ∙ std_setup-reading argv)

-- The same tree of files, as the C library and as the C++ library show it: they say the same of a
-- path, and for a directory the entries that `nftw` reports as files are, in the same order, those
-- that the iterator shows as regular files. What else they report, such as the directories, differs.
pub record SameFiles (fs : FileSystem) (fs' : CppFiles) : Type 0 where
  pub mode : (p : Bytes) → fs.stat p ≡ fs'.status p
  pub entries :
      (p : Bytes)
      → fs.stat p ≡ some s_dir
      → walked (fs.nftw p) ≡ walked (map reported (fs'.entries p))

module _ (fs : FileSystem) (fs' : CppFiles) (same : SameFiles fs fs') where
  abbrev shown : Bytes → List Entry
  shown a = map reported (fs'.entries a)

  files_at-same :
      (r : Bool) (p : Bytes) (k : Option Mode)
      → fs.stat p ≡ k
      → files_at r fs.nftw p k ≡ files_at r shown p k
  files_at-same r p none e = refl
  files_at-same true p (some s_dir) e = same.entries p e
  files_at-same false p (some s_dir) e = refl
  files_at-same r p (some s_reg) e = refl
  files_at-same r p (some s_other) e = refl

  files_of-same :
      (r : Bool) (paths : List Bytes)
      → files_of r fs.nftw fs.stat paths ≡ files_of r shown fs'.status paths
  files_of-same r [] = refl
  files_of-same r (p ∷ paths) =
      ap (λ xs. xs ++ files_of r fs.nftw fs.stat paths) (files_at-same r p (fs.stat p) refl)
      ∙ ap (λ k. files_at r shown p k ++ files_of r fs.nftw fs.stat paths) (same.mode p)
      ∙ ap (λ xs. files_at r shown p (fs'.status p) ++ xs) (files_of-same r paths)

  answer-same :
      (m : Bytes → Bytes) (o : Option (Setup (List Bytes)))
      → answer file_lines fs.nftw fs.stat m o ≡ answer file_lines shown fs'.status m o
  answer-same m none = refl
  answer-same m (some s) =
      let lines = λ (p : Bytes). file_lines s.pat s.flags.i (m p) in
      ap (λ files. exit_of (found_in s.multi lines files) (any_in lines files false))
        (files_of-same s.flags.r s.paths)

-- For every command line and every pattern, when `nftw` and the iterator come to the same files below
-- a directory, in the same order, and each is read without errors or not opened and then counted as
-- empty: the runs of c/grep_std.c and of cpp/grep_std.cpp end and read in bounds, and they leave the
-- same bytes on the standard output and the same exit status.
pub cpp_main-std_main :
    (m : Bytes → Bytes) (fs : FileSystem) (fs' : CppFiles) (argv : List Bytes)
    → IsReadable m fs
    → IsStreamable m fs'
    → SameFiles fs fs'
    → Returns (std_main fs argv) (λ e. cpp_main fs' argv ≡ ok e)
cpp_main-std_main m fs fs' argv readable readable' same =
    rw (std_main-file_lines m fs readable argv) (
      cpp_main-file_lines m fs' readable' argv
      ∙ sym (ap ok (answer-same fs fs' same m (reading argv))))
