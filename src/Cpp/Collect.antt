-- ===== src/Cpp/Collect.antt =====
-- cpp/grep_mt.cpp and cpp/grep_mt_tuned.cpp: `collect` and the loop of `main` over the roots, which
-- list the files that c/grep_std_mt.c lists. What the file system answers is a parameter.
use asmgrep.Base.{
  ◌≡◌, refl, ap, sym, ◌∙◌, Bool, true, false, not, ◌&&◌, Option, none, some, List, [], ◌∷◌, ◌++◌,
  map, append-nil, append_assoc, arith, if◌then◌else◌, Bytes, Returns, Returns-mono,
}
use asmgrep.Pool.{Mode, s_dir, s_reg, s_other}
use asmgrep.Mt.Collect.{Entry, add_paths, no_files}
use asmgrep.Mt.Collect.Listed.{walked, files_at, files_of, add_paths-Lists}

-- An entry that the iterator stands on; the entries end where the iterator does or has an error.
pub record DirectoryEntry : Type 0 where
  pub path : Bytes
  pub is_symlink : Bool
  pub is_regular_file : Bool

-- `collect`, on `g_files`.
unfoldable pub collect_entry : DirectoryEntry → List Bytes → List Bytes
collect_entry it files =
    if it.is_symlink then files else if it.is_regular_file then files ++ it.path ∷ [] else files

unfoldable pub collect_dir : List DirectoryEntry → List Bytes → List Bytes
collect_dir [] files = files
collect_dir (it ∷ its) files = collect_dir its (collect_entry it files)

-- The loop over the roots, by what `fs::status` answers (`none` for an error).
unfoldable pub add_root :
    Bool → (Bytes → List DirectoryEntry) → Bytes → Option Mode → List Bytes → List Bytes
add_root recurse walk p none files = files
add_root recurse walk p (some s_dir) files = if recurse then collect_dir (walk p) files else files
add_root recurse walk p (some s_reg) files = files ++ p ∷ []
add_root recurse walk p (some s_other) files = files

unfoldable pub add_roots :
    Bool
    → (Bytes → List DirectoryEntry)
    → (Bytes → Option Mode)
    → List Bytes
    → List Bytes
    → List Bytes
add_roots recurse walk status [] files = files
add_roots recurse walk status (p ∷ roots) files =
    add_roots recurse walk status roots (add_root recurse walk p (status p) files)

-- The entry as `nftw` reports it: links are not followed, and are no files.
abbrev pub reported : DirectoryEntry → Entry
reported it = record { path = it.path; is_ftw_f = not it.is_symlink && it.is_regular_file }

collect_entry-append :
    (link file : Bool) (p : Bytes) (its files : List Bytes)
    → (if link then files else if file then files ++ p ∷ [] else files) ++ its
      ≡ files ++ (if not link && file then p ∷ its else its)
collect_entry-append true file p its files = refl
collect_entry-append false true p its files = append_assoc files (p ∷ []) its
collect_entry-append false false p its files = refl

collect_dir-walked :
    (its : List DirectoryEntry) (files : List Bytes)
    → collect_dir its files ≡ files ++ walked (map reported its)
unfolding collect_dir collect_entry
collect_dir-walked [] files = sym (append-nil files)
collect_dir-walked (it ∷ its) files =
    collect_dir-walked its (collect_entry it files)
    ∙ collect_entry-append it.is_symlink it.is_regular_file it.path (walked (map reported its))
        files

module _ (recurse : Bool) (walk : Bytes → List DirectoryEntry) (status : Bytes → Option Mode) where
  add_root-files_at :
      (r : Bool) (p : Bytes) (answer : Option Mode) (files : List Bytes)
      → add_root r walk p answer files ≡ files ++ files_at r (λ a. map reported (walk a)) p answer
  unfolding add_root
  add_root-files_at r p none files = sym (append-nil files)
  add_root-files_at true p (some s_dir) files = collect_dir-walked (walk p) files
  add_root-files_at false p (some s_dir) files = sym (append-nil files)
  add_root-files_at r p (some s_reg) files = refl
  add_root-files_at r p (some s_other) files = sym (append-nil files)

  pub add_roots-files_of :
      (roots files : List Bytes)
      → add_roots recurse walk status roots files
        ≡ files ++ files_of recurse (λ a. map reported (walk a)) status roots
  unfolding add_roots
  add_roots-files_of [] files = sym (append-nil files)
  add_roots-files_of (p ∷ roots) files =
      let here = files_at recurse (λ a. map reported (walk a)) p (status p) in
      let rest = files_of recurse (λ a. map reported (walk a)) status roots in
      add_roots-files_of roots (add_root recurse walk p (status p) files)
      ∙ ap (λ fs. fs ++ rest) (add_root-files_at recurse p (status p) files)
      ∙ append_assoc files here rest

  -- When `nftw` reports the entries that the iterator of the C++ library has, as files those that are
  -- regular files and no links: c/grep_std_mt.c ends its collecting without a store behind its
  -- array, and lists exactly the files that the threaded programs of cpp/ list, in the same order.
  pub add_paths-add_roots :
      (roots : List Bytes)
      → Returns
          (add_paths recurse (λ a. map reported (walk a)) status roots no_files)
          (λ t. t.files ≡ add_roots recurse walk status roots [])
  add_paths-add_roots roots =
      Returns-mono (add_paths recurse (λ a. map reported (walk a)) status roots no_files) _ _
        (add_paths-Lists recurse (λ a. map reported (walk a)) status roots no_files (omega arith))
        (λ t lists. lists.0 ∙ sym (add_roots-files_of roots []))
