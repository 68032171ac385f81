-- ===== src/Crew/Main/Ended.antt =====
-- What the threads of c/grep.c have written, as the answer that is expected of the command line.
use asmgrep.Base.{
  ℕ, ◌+◌, ◌≡◌, refl, ap, sym, ◌∙◌, Bool, true, false, ◌||◌, Option, none, some, List, ◌++◌, map,
  flatten, arith, if◌then◌else◌, Bytes,
}
use asmgrep.Args.{Setup, grep_status}
use asmgrep.Output.{line_bytes}
use asmgrep.Std.Lines.{file_lines}
use asmgrep.Reading.Failures.{reported}
use asmgrep.Pool.Accounts.{count, over}
use asmgrep.Pool.Reached.{
  any_file, any_file-append, any_file-same_counts, over-same_counts, over-cat,
}
use asmgrep.Mt.Collect.{Entry}
use asmgrep.Mt.Collect.Listed.{files_of}
use asmgrep.Mt.Search.Agrees.{flag_after}
use asmgrep.Threads.Whole.{flatten-flatten}
use asmgrep.Answer.{Exit, exit_of}
use asmgrep.Answer.Expected.{answer, answer_lines}
use asmgrep.Crew.RootFlags.{is_missing}
use asmgrep.Crew.Roots.{root_files}
use asmgrep.Crew.Main.{GrepFiles, grep_exit}
use asmgrep.Crew.Main.Files.{count-lines_found, any_in-any_file}

-- Whether a path has no `stat`, or one of the files could not be opened or read.
abbrev pub failed : GrepFiles → (Bytes → List Entry) → Option (Setup (List Bytes)) → Bool
failed fs walk none = false
failed fs walk (some s) =
    any_file (λ (a : Bytes). is_missing (fs.stat a)) s.paths
    || any_file (λ (f : Bytes). reported (fs.file f)) (files_of s.flags.r walk fs.stat s.paths)

-- The lines of the answer in some order, and its status, or 2 after a failure.
abbrev pub GrepAnswer :
    (Bytes → Bool → Bytes → List Bytes)
    → GrepFiles
    → (Bytes → List Entry)
    → (Bytes → Bytes)
    → Option (Setup (List Bytes))
    → Exit
    → Type 0
GrepAnswer lines fs walk m o ex =
    (printed : List Bytes) × (flatten printed ≡ ex.stdout)
    × ((p : Bytes → Bool) → count p printed ≡ count p (answer_lines lines walk fs.stat m o))
    × (ex.status ≡ (if failed fs walk o then 2 else (answer lines walk fs.stat m o).status))

pub or_none : (b : Bool) → b ≡ (b || false)
or_none true = refl
or_none false = refl

or_regroup : (a b c : Bool) → ((a || b) || c) ≡ (a || (b || c))
or_regroup true b c = refl
or_regroup false b c = refl

module _ (m : Bytes → Bytes) (fs : GrepFiles) (walk : Bytes → List Entry)
    (s : Setup (List Bytes)) where
  abbrev pub root : List Bytes
  root = root_files fs.stat s.paths

  abbrev pub all_files : List Bytes
  all_files = files_of s.flags.r walk fs.stat s.paths

  abbrev pub lines_of : Bytes → List Bytes
  lines_of f = file_lines s.pat s.flags.i (m f)

  abbrev pub has : Bytes → Bool
  has f = flag_after (lines_of f) false

  abbrev pub fails : Bytes → Bool
  fails f = reported (fs.file f)

  abbrev pub no_stat : Bool
  no_stat = any_file (λ (a : Bytes). is_missing (fs.stat a)) s.paths

  abbrev pub passing : (Bytes → Bool) → Bytes → ℕ
  passing p f = count p (map (line_bytes s.multi f) (lines_of f))

  -- What is written and what the flags are, in terms of the files searched by the threads.
  abbrev pub Ended : List Bytes → List Bytes → Bool → Bool → Type 0
  Ended searched written err matched =
      (groups : List (List Bytes)) × (map flatten groups ≡ written)
      × ((p : Bytes → Bool)
          → count p (flatten groups) ≡ over (passing p) root + over (passing p) searched)
      × (err ≡ ((no_stat || any_file fails root) || any_file fails searched))
      × (matched ≡ (any_file has root || any_file has searched))

  any_of :
      (found : Bytes → Bool) (searched : List Bytes)
      → ((q : Bytes → Bool) → count q (root ++ searched) ≡ count q all_files)
      → (any_file found root || any_file found searched) ≡ any_file found all_files
  any_of found searched listed =
      sym (any_file-append found root searched)
      ∙ any_file-same_counts found (root ++ searched) all_files listed

  pub Ended-GrepAnswer :
      (searched written : List Bytes) (err matched : Bool) (ex : Exit)
      → ((q : Bytes → Bool) → count q (root ++ searched) ≡ count q all_files)
      → Ended searched written err matched
      → ex ≡ grep_exit written err matched
      → GrepAnswer file_lines fs walk m (some s) ex
  unfolding grep_status exit_of
  Ended-GrepAnswer searched written err matched ex listed (groups, wrote, lines, errs, matches) is =
      let err_is =
        errs
        ∙ or_regroup no_stat (any_file fails root) (any_file fails searched)
        ∙ ap (λ b. no_stat || b) (any_of fails searched listed) in
      let matched_is =
        matches
        ∙ any_of has searched listed
        ∙ or_none (any_file has all_files)
        ∙ sym (any_in-any_file lines_of all_files false) in
      (
        flatten groups,
        flatten-flatten groups ∙ ap flatten wrote ∙ sym (ap (λ (x : Exit). x.stdout) is),
        λ p. omega (
          arith,
          lines p,
          over-cat (passing p) root searched,
          over-same_counts (passing p) (root ++ searched) all_files listed,
          count-lines_found s.multi lines_of p all_files,
        ),
        ap (λ (x : Exit). x.status) is
            ∙ ap (λ b. if b then 2 else if matched then 0 else 1) err_is
            ∙ ap (λ b. if failed fs walk (some s) then 2 else if b then 0 else 1) matched_is,
      )
