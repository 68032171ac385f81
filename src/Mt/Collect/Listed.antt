-- ===== src/Mt/Collect/Listed.antt =====
-- The list holds the files in their order, and its array is never overrun.
use asmgrep.Base.{
  ℕ, ◌+◌, ◌≤◌, ◌<◌, ◌≡◌, refl, ap, sym, ◌∙◌, Bool, true, false, Option, none, some, List, [], ◌∷◌,
  ◌++◌, append-nil, append_assoc, arith, lt→ltb, if◌then◌else◌, Bytes, ok, Returns, Returns-bind,
  Returns-mono,
}
use asmgrep.Pool.{count_paths, grown, Mode, s_dir, s_reg, s_other}
use asmgrep.Mt.Collect.{FileList, add_file, Entry, collect_cb, collect_walk, add_path, add_paths}

-- The files that a walk reports, and those that the paths lead to.
abbrev pub walked : List Entry → List Bytes
walked [] = []
walked (e ∷ es) = let rest = walked es in if e.is_ftw_f then e.path ∷ rest else rest

abbrev pub files_at : Bool → (Bytes → List Entry) → Bytes → Option Mode → List Bytes
files_at r walk a none = []
files_at r walk a (some s_dir) = if r then walked (walk a) else []
files_at r walk a (some s_reg) = a ∷ []
files_at r walk a (some s_other) = []

abbrev pub files_of : Bool → (Bytes → List Entry) → (Bytes → Option Mode) → List Bytes → List Bytes
files_of r walk stat [] = []
files_of r walk stat (a ∷ paths) = files_at r walk a (stat a) ++ files_of r walk stat paths

count_paths-append : (xs ys : List Bytes) → count_paths (xs ++ ys) ≡ count_paths xs + count_paths ys
count_paths-append [] ys = omega arith
count_paths-append (x ∷ xs) ys = omega (arith, count_paths-append xs ys)

-- The list has grown by some files, and fits its array.
abbrev pub Lists : List Bytes → FileList → FileList → Type 0
Lists fs s t = (t.files ≡ s.files ++ fs) × (count_paths t.files ≤ t.cap)

grown-room : (top cap : ℕ) → top ≤ cap → top < grown top cap
unfolding grown
grown-room top cap h = ground arith

pub add_file-Lists :
    (path : Bytes) (s : FileList)
    → count_paths s.files ≤ s.cap
    → Returns (add_file path s) (Lists (path ∷ []) s)
unfolding add_file
add_file-Lists path s fits =
    let room = grown-room (count_paths s.files) s.cap fits in
    let e = lt→ltb (count_paths s.files) (grown (count_paths s.files) s.cap) room in
    rw e (refl, omega (arith, count_paths-append s.files (path ∷ [])))

pub Lists-nothing : (s : FileList) → count_paths s.files ≤ s.cap → Lists [] s s
Lists-nothing s fits = (sym (append-nil s.files), fits)

pub Lists-then :
    (fs gs : List Bytes) (s t u : FileList) → Lists fs s t → Lists gs t u → Lists (fs ++ gs) s u
Lists-then fs gs s t u (e, _) (e', fits) =
    (e' ∙ ap (λ xs. xs ++ gs) e ∙ append_assoc s.files fs gs, fits)

collect_cb-Lists :
    (is_file : Bool) (e : Entry) (s : FileList)
    → count_paths s.files ≤ s.cap
    → Returns
        (if is_file then add_file e.path s else ok s)
        (Lists (if is_file then e.path ∷ [] else []) s)
collect_cb-Lists true e s fits = add_file-Lists e.path s fits
collect_cb-Lists false e s fits = Lists-nothing s fits

append-walked :
    (is_file : Bool) (path : Bytes) (rest : List Bytes)
    → (if is_file then path ∷ [] else []) ++ rest ≡ (if is_file then path ∷ rest else rest)
append-walked true path rest = refl
append-walked false path rest = refl

collect_walk-Lists :
    (es : List Entry) (s : FileList)
    → count_paths s.files ≤ s.cap
    → Returns (collect_walk es s) (Lists (walked es) s)
unfolding collect_walk collect_cb
collect_walk-Lists [] s fits = Lists-nothing s fits
collect_walk-Lists (e ∷ es) s fits =
    Returns-bind (if e.is_ftw_f then add_file e.path s else ok s) _
      (Lists (if e.is_ftw_f then e.path ∷ [] else []) s) _ (collect_cb-Lists e.is_ftw_f e s fits)
      (λ t first.
        Returns-mono (collect_walk es t) (Lists (walked es) t) _ (collect_walk-Lists es t first.1)
          (λ u others.
            let all =
              Lists-then (if e.is_ftw_f then e.path ∷ [] else []) (walked es) s t u first others in
            (
              all.0 ∙ ap (λ xs. s.files ++ xs) (append-walked e.is_ftw_f e.path (walked es)),
              all.1,
            )))

add_path-Lists :
    (r : Bool) (walk : Bytes → List Entry) (a : Bytes) (answer : Option Mode) (s : FileList)
    → count_paths s.files ≤ s.cap
    → Returns (add_path r walk a answer s) (Lists (files_at r walk a answer) s)
unfolding add_path
add_path-Lists r walk a none s fits = Lists-nothing s fits
add_path-Lists true walk a (some s_dir) s fits = collect_walk-Lists (walk a) s fits
add_path-Lists false walk a (some s_dir) s fits = Lists-nothing s fits
add_path-Lists r walk a (some s_reg) s fits = add_file-Lists a s fits
add_path-Lists r walk a (some s_other) s fits = Lists-nothing s fits

-- Whatever `stat` and `nftw` answer: `main` and `collect_cb` of c/grep_std_mt.c never store behind the
-- end of the array of files, and the files added to a list that fits its array are, in this order,
-- the paths that are files and, under -r, what the walks over the directories report as files.
pub add_paths-Lists :
    (r : Bool) (walk : Bytes → List Entry) (stat : Bytes → Option Mode) (paths : List Bytes)
    (s : FileList)
    → count_paths s.files ≤ s.cap
    → Returns (add_paths r walk stat paths s) (Lists (files_of r walk stat paths) s)
unfolding add_paths
add_paths-Lists r walk stat [] s fits = Lists-nothing s fits
add_paths-Lists r walk stat (a ∷ paths) s fits =
    Returns-bind (add_path r walk a (stat a) s) _ (Lists (files_at r walk a (stat a)) s) _
      (add_path-Lists r walk a (stat a) s fits)
      (λ t first.
        Returns-mono (add_paths r walk stat paths t) (Lists (files_of r walk stat paths) t) _
          (add_paths-Lists r walk stat paths t first.1)
          (λ u others.
            Lists-then (files_at r walk a (stat a)) (files_of r walk stat paths) s t u first
              others))
