-- ===== src/Std/Main/Answers.antt =====
-- The run of c/grep_std.c gives the answer that the command line and the files call for.
use asmgrep.Base.{
  ◌≡◌, refl, sym, ap, ◌∙◌, ◌⊎◌, inl, inr, length, ◌&&◌, Bool, true, false, Option, none, some, List,
  [], ◌∷◌, ◌++◌, map, append-nil, flatten, if◌then◌else◌, Bytes, Outcome, ok, ◌>>=◌, Returns,
}
use asmgrep.Args.{Setup, std_setup}
use asmgrep.Args.Accepted.{reading, std_setup-reading}
use asmgrep.Pool.{Mode, s_dir, s_reg, s_other}
use asmgrep.Output.{line_bytes}
use asmgrep.Scan.Correct.{IsOneLine}
use asmgrep.Mt.Collect.{Entry}
use asmgrep.Mt.Collect.Listed.{walked, files_at, files_of}
use asmgrep.Mt.Search.Agrees.{flag_after}
use asmgrep.Std.{Settings, settings, Printed, nothing_printed, print_line, print_lines}
use asmgrep.Std.Lines.{file_lines, file_lines-nil, file_lines-StdLines}
use asmgrep.Std.SameBytes.{print_lines-stdout, print_line-matched}
use asmgrep.Reading.{StdAnswers, after_ftell, search_file_std}
use asmgrep.Reading.Content.{StdHolds, search_file_std-search_text}
use asmgrep.Answer.{
  exit_of, search_all, search_all-append, search_all-one, bind_ext, Shows, Shows-nothing,
  search_all-exit,
}
use asmgrep.Answer.Expected.{answer, lines_with, answer-with}
use asmgrep.Std.Main.{FileSystem, cb, nftw_calls, std_path, std_paths, std_run, std_main}

-- The loops search the files that are listed, one after the other.
module _ (g : Settings) (fs : FileSystem) where
  abbrev search_at : Bytes → Printed → Outcome Printed
  search_at p s = search_file_std g p (fs.file p) s

  cb-search_all :
      (is_file : Bool) (p : Bytes) (rest : List Bytes) (s : Printed)
      → ((if is_file then search_at p s else ok s) >>= search_all search_at rest)
        ≡ search_all search_at (if is_file then p ∷ rest else rest) s
  unfolding search_all
  cb-search_all true p rest s = refl
  cb-search_all false p rest s = refl

  nftw_calls-search_all :
      (es : List Entry) (s : Printed) → nftw_calls g fs es s ≡ search_all search_at (walked es) s
  unfolding nftw_calls cb search_all
  nftw_calls-search_all [] s = refl
  nftw_calls-search_all (e ∷ es) s =
      bind_ext (cb g fs e s) (nftw_calls g fs es) (search_all search_at (walked es))
        (nftw_calls-search_all es)
      ∙ cb-search_all e.is_ftw_f e.path (walked es) s

  std_path-search_all :
      (r : Bool) (p : Bytes) (mode : Option Mode) (s : Printed)
      → std_path r g fs p mode s ≡ search_all search_at (files_at r fs.nftw p mode) s
  unfolding std_path search_all
  std_path-search_all r p none s = refl
  std_path-search_all true p (some s_dir) s = nftw_calls-search_all (fs.nftw p) s
  std_path-search_all false p (some s_dir) s = refl
  std_path-search_all r p (some s_reg) s = sym (search_all-one search_at p s)
  std_path-search_all r p (some s_other) s = refl

  std_paths-search_all :
      (r : Bool) (paths : List Bytes) (s : Printed)
      → std_paths r g fs paths s ≡ search_all search_at (files_of r fs.nftw fs.stat paths) s
  unfolding std_paths search_all
  std_paths-search_all r [] s = refl
  std_paths-search_all r (p ∷ paths) s =
      let others = files_of r fs.nftw fs.stat paths in
      bind_ext (std_path r g fs p (fs.stat p) s) (std_paths r g fs paths)
        (search_all search_at others) (std_paths-search_all r paths)
      ∙ ap (λ o. o >>= search_all search_at others) (std_path-search_all r p (fs.stat p) s)
      ∙ sym (search_all-append search_at (files_at r fs.nftw p (fs.stat p)) others s)

-- Every file is read without an error, or cannot be opened and counts as empty.
abbrev pub IsReadable : (Bytes → Bytes) → FileSystem → Type 0
IsReadable m fs =
    (p : Bytes) → StdHolds (m p) (fs.file p) ⊎ (((fs.file p).fopen ≡ false) × (m p ≡ []))

search_file_std-closed :
    (g : Settings) (path : Bytes) (a : StdAnswers) (s : Printed)
    → a.fopen ≡ false
    → search_file_std g path a s ≡ ok s
unfolding search_file_std
search_file_std-closed g path a s e =
    ap (λ b. if b && a.fseek then after_ftell g path a s a.ftell else ok s) e

print_lines-matched :
    (g : Settings) (path : Bytes) (lines : List Bytes) (s : Printed)
    → (print_lines g path lines s).matched ≡ flag_after lines s.matched
unfolding print_lines
print_lines-matched g path [] s = refl
print_lines-matched g path (line ∷ lines) s =
    print_lines-matched g path lines (print_line g path line s)
    ∙ ap (flag_after lines) (print_line-matched g path line s)
    ∙ stays lines
  where
    stays : (lines : List Bytes) → flag_after lines true ≡ true
    stays [] = refl
    stays (l ∷ ls) = refl

module _ (m : Bytes → Bytes) (fs : FileSystem) (readable : IsReadable m fs) where
  search_at-Shows :
      (pat : Bytes) (ci multi : Bool) (p : Bytes) (s : Printed)
      → Returns (search_at (settings pat ci multi) fs p s) (
          Shows
            (λ (t : Printed). t.stdout)
            (λ (t : Printed). t.matched)
            multi
            (λ p. file_lines pat ci (m p))
            (p ∷ [])
            s)
  search_at-Shows pat ci multi p s = elim (readable p) [
    | inl holds ↦
        let lines = file_lines pat ci (m p) in
        let ran =
          search_file_std-search_text (settings pat ci multi) p (m p) (fs.file p) s holds
          ∙ file_lines-StdLines pat ci (m p) multi p s in
        rw ran (
          print_lines-stdout pat ci multi p lines s
              ∙ ap (λ b. s.stdout ++ b)
                  (sym (append-nil (flatten (map (line_bytes multi p) lines)))),
          print_lines-matched (settings pat ci multi) p lines s,
        )
    | inr (closed, empty) ↦
        rw (search_file_std-closed (settings pat ci multi) p (fs.file p) s closed) (
          Shows-nothing (λ (t : Printed). t.stdout) (λ (t : Printed). t.matched) multi
            (λ p. file_lines pat ci (m p)) p s (file_lines-nil pat ci (m p) (ap length empty)))
  ]

  std_run-answer :
      (o : Option (Setup (List Bytes))) → std_run fs o ≡ ok (answer file_lines fs.nftw fs.stat m o)
  unfolding std_run
  std_run-answer none = refl
  std_run-answer (some s) =
      let g = settings s.pat s.flags.i s.multi in
      let files = files_of s.flags.r fs.nftw fs.stat s.paths in
      ap (λ o. o >>= (λ (t : Printed). ok (exit_of t.stdout t.matched)))
        (std_paths-search_all g fs s.flags.r s.paths nothing_printed)
      ∙ search_all-exit (λ (t : Printed). t.stdout) (λ (t : Printed). t.matched) s.multi
          (λ p. file_lines s.pat s.flags.i (m p)) (search_at g fs)
          (search_at-Shows s.pat s.flags.i s.multi) files nothing_printed refl refl

  pub std_main-file_lines :
      (argv : List Bytes)
      → std_main fs argv ≡ ok (answer file_lines fs.nftw fs.stat m (reading argv))
  unfolding std_main
  std_main-file_lines argv =
      std_run-answer (std_setup argv)
      ∙ ap (λ o. ok (answer file_lines fs.nftw fs.stat m o)) (std_setup-reading argv)

  -- For every command line whose pattern has no newline, and files that are read without errors or
  -- that cannot be opened and count as empty: the run of c/grep_std.c ends, reads in bounds, and leaves the answer that is expected. Without an
  -- accepted pattern and path it prints nothing and its status is 2. Otherwise it prints, for the
  -- paths that are files and, under -r, the files that the walks over the directories report, in
  -- their order, exactly the lines that hold the pattern (up to case under -i), each behind the
  -- file's path and a colon under -r or with several paths, and none for a file with a NUL in its
  -- first 65536 bytes; and its status is 0 if there is such a line and 1 if not.
  pub std_main-answer :
      (argv : List Bytes)
      → ((s : Setup (List Bytes)) → reading argv ≡ some s → IsOneLine s.pat)
      → std_main fs argv ≡ ok (answer lines_with fs.nftw fs.stat m (reading argv))
  std_main-answer argv plain =
      std_main-file_lines argv ∙ ap ok (answer-with fs.nftw fs.stat m (reading argv) plain)
