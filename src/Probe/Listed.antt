-- ===== src/Probe/Listed.antt =====
-- `collect` lists the files of a directory in order, and never overruns its array.
use asmgrep.Base.{
  ◌≤◌, Bool, true, false, Option, none, some, List, [], ◌∷◌, ◌++◌, Bytes, if◌then◌else◌, Outcome,
  ok, Returns, Returns-bind, Returns-mono,
}
use asmgrep.Pool.{
  EntryType, dt_dir, dt_reg, dt_lnk, dt_unknown, dt_other, Mode, s_dir, s_reg, s_other, count_paths,
  is_self_or_parent,
}
use asmgrep.Mt.Collect.{FileList}
use asmgrep.Mt.Collect.Listed.{Lists, Lists-nothing, Lists-then, add_file-Lists}
use asmgrep.Probe.{
  Directory, unreadable, holds, Entries, no_entry, entry, child_path, on_entry, collect,
  collect_entries,
}

-- The files that an entry stands for, `below` being those of its directory.
abbrev pub files_by : EntryType → Option Mode → Bytes → List Bytes → List Bytes
files_by dt_dir st child below = below
files_by dt_reg st child below = child ∷ []
files_by dt_unknown none child below = []
files_by dt_unknown (some s_dir) child below = below
files_by dt_unknown (some s_reg) child below = child ∷ []
files_by dt_unknown (some s_other) child below = []
files_by dt_lnk st child below = []
files_by dt_other st child below = []

abbrev mutual
  pub files_under : Bytes → Directory → List Bytes
  files_under path unreadable = []
  files_under path (holds es) = files_among path es

  pub files_among : Bytes → Entries → List Bytes
  files_among path no_entry = []
  files_among path (entry d_name d_type st below es) =
      let here =
        files_by d_type st (child_path path d_name) (files_under (child_path path d_name) below) in
      (if is_self_or_parent d_name then [] else here) ++ files_among path es

on_entry-Lists :
    (d_type : EntryType) (st : Option Mode) (child : Bytes) (below : List Bytes)
    (sub : Outcome FileList) (s : FileList)
    → count_paths s.files ≤ s.cap
    → Returns sub (Lists below s)
    → Returns (on_entry d_type st child sub s) (Lists (files_by d_type st child below) s)
unfolding on_entry
on_entry-Lists dt_dir st child below sub s fits h = h
on_entry-Lists dt_reg st child below sub s fits h = add_file-Lists child s fits
on_entry-Lists dt_unknown none child below sub s fits h = Lists-nothing s fits
on_entry-Lists dt_unknown (some s_dir) child below sub s fits h = h
on_entry-Lists dt_unknown (some s_reg) child below sub s fits h = add_file-Lists child s fits
on_entry-Lists dt_unknown (some s_other) child below sub s fits h = Lists-nothing s fits
on_entry-Lists dt_lnk st child below sub s fits h = Lists-nothing s fits
on_entry-Lists dt_other st child below sub s fits h = Lists-nothing s fits

if-Lists :
    (b : Bool) (here : List Bytes) (r : Outcome FileList) (s : FileList)
    → count_paths s.files ≤ s.cap
    → Returns r (Lists here s)
    → Returns (if b then ok s else r) (Lists (if b then [] else here) s)
if-Lists true here r s fits h = Lists-nothing s fits
if-Lists false here r s fits h = h

mutual
  unfolding collect

  -- Whatever the directories hold, to whatever depth: `collect` ends, never stores behind the end of
  -- its array, and adds the regular files below the path in the order of the entries, each with its
  -- path as far as it fits its 4096 bytes.
  pub collect-Lists :
      (path : Bytes) (d : Directory) (s : FileList)
      → count_paths s.files ≤ s.cap
      → Returns (collect path d s) (Lists (files_under path d) s)
  collect-Lists path unreadable s fits = Lists-nothing s fits
  collect-Lists path (holds es) s fits = collect_entries-Lists path es s fits

  collect_entries-Lists :
      (path : Bytes) (es : Entries) (s : FileList)
      → count_paths s.files ≤ s.cap
      → Returns (collect_entries path es s) (Lists (files_among path es) s)
  collect_entries-Lists path no_entry s fits = Lists-nothing s fits
  collect_entries-Lists path (entry d_name d_type st below es) s fits =
      let child = child_path path d_name in
      let under = files_under child below in
      let here = if is_self_or_parent d_name then [] else files_by d_type st child under in
      Returns-bind
        (if is_self_or_parent d_name
          then ok s
          else on_entry d_type st child (collect child below s) s)
        _ (Lists here s) _
        (if-Lists (is_self_or_parent d_name) (files_by d_type st child under)
          (on_entry d_type st child (collect child below s) s) s fits
          (on_entry-Lists d_type st child under (collect child below s) s fits
            (collect-Lists child below s fits)))
        (λ t first.
          Returns-mono (collect_entries path es t) (Lists (files_among path es) t) _
            (collect_entries-Lists path es t first.1)
            (λ u others. Lists-then here (files_among path es) s t u first others))
