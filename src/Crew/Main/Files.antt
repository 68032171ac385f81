-- ===== src/Crew/Main/Files.antt =====
-- The files that c/grep.c searches are those that a walk over the same tree lists.
use asmgrep.Base.{
  ℕ, ◌+◌, ◌≡◌, ◌≢◌, refl, ap, sym, ◌∙◌, Bool, true, false, ◌||◌, ◌&&◌, Option, none, some, List, [],
  ◌∷◌, map, arith, if◌then◌else◌, Bytes,
}
use asmgrep.Output.{line_bytes}
use asmgrep.Pool.{
  Shared, Dirent, Mode, s_dir, s_reg, s_other, count_paths, q_push, push_all, traverse,
}
use asmgrep.Pool.Accounts.{count, over}
use asmgrep.Pool.Finished.{dirs_found, files_found}
use asmgrep.Pool.Reached.{dirs_in, files_in, count-cat, files_found-below, any_file}
use asmgrep.Mt.Collect.{Entry}
use asmgrep.Mt.Collect.Listed.{walked, files_at, files_of}
use asmgrep.Mt.Search.Agrees.{flag_after}
use asmgrep.Threads.Whole.{flag_after-or}
use asmgrep.Answer.{lines_found, any_in}
use asmgrep.Crew.Flags.{or_swap, or_assoc}
use asmgrep.Crew.Roots.{root_files, root_dirs, is_regular, is_directory}

-- How many of the files that a walk over a directory reports pass a test.
abbrev pub below : (Bytes → List Entry) → (Bytes → Bool) → Bytes → ℕ
below walk p d = count p (walked (walk d))

-- `nftw` and `readdir` show the same tree: a walk over a directory reports the files that `traverse`
-- searches there and what the walks over the directories report that it pushes there.
abbrev pub SameTree : (Bytes → List Entry) → (Bytes → Option (List Dirent)) → Type 0
SameTree walk listing =
    (p : Bytes → Bool) (d : Bytes)
    → below walk p d
      ≡ count p (files_in (traverse listing true d))
        + over (below walk p) (dirs_in (traverse listing true d))

module _ (walk : Bytes → List Entry) (stat : Bytes → Option Mode) where
  pub files_of-roots :
      (r : Bool) (paths : List Bytes) (p : Bytes → Bool)
      → count p (files_of r walk stat paths)
        ≡ count p (root_files stat paths) + over (below walk p) (root_dirs r stat paths)
  files_of-roots r [] p = refl
  files_of-roots r (a ∷ paths) p =
      count-cat p (files_at r walk a (stat a)) (files_of r walk stat paths)
      ∙ by_mode (stat a) r (root_files stat paths) (root_dirs r stat paths)
          (count p (files_of r walk stat paths)) (files_of-roots r paths p)
    where
      by_mode :
          (k : Option Mode) (r : Bool) (fs ds : List Bytes) (rest : ℕ)
          → rest ≡ count p fs + over (below walk p) ds
          → count p (files_at r walk a k) + rest
            ≡ count p (if is_regular k then a ∷ fs else fs)
              + over (below walk p) (if is_directory k && r then a ∷ ds else ds)
      by_mode none r fs ds rest e = omega arith
      by_mode (some s_dir) true fs ds rest e = omega arith
      by_mode (some s_dir) false fs ds rest e = omega arith
      by_mode (some s_reg) r fs ds rest e = omega arith
      by_mode (some s_other) r fs ds rest e = omega arith

  root_dirs-none : (paths : List Bytes) → root_dirs false stat paths ≡ []
  root_dirs-none [] = refl
  root_dirs-none (a ∷ paths) =
      skipped (is_directory (stat a)) (root_dirs false stat paths) ∙ root_dirs-none paths
    where
      skipped : (b : Bool) (ds : List Bytes) → (if b && false then a ∷ ds else ds) ≡ ds
      skipped true ds = refl
      skipped false ds = refl

  pub searched-below :
      (listing : Bytes → Option (List Dirent)) (r : Bool) (paths taken : List Bytes)
      → SameTree walk listing
      → count_paths (root_dirs r stat paths) ≢ 0
      → ((q : Bytes → Bool)
          → count q taken
            ≡ count q (root_dirs r stat paths) + dirs_found (traverse listing r) q taken)
      → (p : Bytes → Bool)
      → files_found (traverse listing r) p taken ≡ over (below walk p) (root_dirs r stat paths)
  searched-below listing true paths taken same some_dir all_taken p =
      files_found-below (traverse listing true) (root_dirs true stat paths) taken p (below walk p)
        all_taken (same p)
  searched-below listing false paths taken same some_dir all_taken p =
      absurd (some_dir (ap count_paths (root_dirs-none paths)))

-- Each pushed root is pending.
pub push_all-pending :
    (ds : List Bytes) (s : Shared) → (push_all ds s).pending ≡ s.pending + count_paths ds
unfolding push_all q_push
push_all-pending [] s = omega arith
push_all-pending (d ∷ ds) s = omega (arith, push_all-pending ds (q_push d s))

-- The lines of files, one file after the other, as a sum and a disjunction over the files.
pub count-lines_found :
    (multi : Bool) (lines : Bytes → List Bytes) (p : Bytes → Bool) (fs : List Bytes)
    → count p (lines_found multi lines fs)
      ≡ over (λ f. count p (map (line_bytes multi f) (lines f))) fs
count-lines_found multi lines p [] = refl
count-lines_found multi lines p (f ∷ fs) = omega (
  arith,
  count-cat p (map (line_bytes multi f) (lines f)) (lines_found multi lines fs),
  count-lines_found multi lines p fs,
)

pub any_in-any_file :
    (lines : Bytes → List Bytes) (fs : List Bytes) (b : Bool)
    → any_in lines fs b ≡ (any_file (λ f. flag_after (lines f) false) fs || b)
any_in-any_file lines [] b = refl
any_in-any_file lines (f ∷ fs) b =
    let rest = any_file (λ (g : Bytes). flag_after (lines g) false) fs in
    any_in-any_file lines fs (flag_after (lines f) b)
    ∙ ap (λ a. rest || a) (flag_after-or (lines f) b)
    ∙ or_swap rest (flag_after (lines f) false) b
    ∙ sym (or_assoc (flag_after (lines f) false) rest b)
