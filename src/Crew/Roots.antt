-- ===== src/Crew/Roots.antt =====
-- What pass 2 of `main` leaves for the threads.
use mathlib.Core.Path.{subst}
use asmgrep.Base.{
  ◌≡◌, refl, ap, sym, ◌∙◌, Bool, true, false, ◌&&◌, Option, none, some, List, [], ◌∷◌, ◌++◌,
  append-nil, append_assoc, arith, if◌then◌else◌, Bytes, Returns, Returns-bind, Returns-mono,
}
use asmgrep.Output.{State, emit_all}
use asmgrep.Scan.Correct.{IsSetUp}
use asmgrep.Std.Lines.{file_lines}
use asmgrep.Reading.{fail}
use asmgrep.Pool.{Mode, s_dir, s_reg, s_other}
use asmgrep.Pool.Accounts.{count}
use asmgrep.Threads.Owed.{count-append}
use asmgrep.Crew.{Setting, visit_root, visit_roots}
use asmgrep.Crew.Emitted.{
  StatePasses, StatePasses-then, StatePasses-same, StatePasses-file, search_file-read_lines,
  FileReads, flagged,
}
use asmgrep.Crew.Owed.{lines_at, searched_lines}

abbrev pub is_regular : Option Mode → Bool
is_regular none = false
is_regular (some s_dir) = false
is_regular (some s_reg) = true
is_regular (some s_other) = false

abbrev pub is_directory : Option Mode → Bool
is_directory none = false
is_directory (some s_dir) = true
is_directory (some s_reg) = false
is_directory (some s_other) = false

-- The files among the paths, and the directories that are descended into.
abbrev pub root_files : (Bytes → Option Mode) → List Bytes → List Bytes
root_files stat [] = []
root_files stat (a ∷ paths) =
    let rest = root_files stat paths in if is_regular (stat a) then a ∷ rest else rest

abbrev pub root_dirs : Bool → (Bytes → Option Mode) → List Bytes → List Bytes
root_dirs r stat [] = []
root_dirs r stat (a ∷ paths) =
    let rest = root_dirs r stat paths in if is_directory (stat a) && r then a ∷ rest else rest

module _ (e : Setting) (pat : Bytes) (ci : Bool) (m : Bytes → Bytes) (set : IsSetUp pat ci e.g)
    (readable : (f : Bytes) → FileReads (m f) (e.files f)) where
  abbrev pub lines_in : List Bytes → List Bytes
  lines_in [] = []
  lines_in (f ∷ fs) = lines_at e pat ci m set readable f ++ lines_in fs

  pub count-lines_in :
      (p : Bytes → Bool) (fs : List Bytes)
      → count p (lines_in fs) ≡ searched_lines e pat ci m set readable p fs
  count-lines_in p [] = refl
  count-lines_in p (f ∷ fs) = omega (
    arith,
    count-append p (lines_at e pat ci m set readable f) (lines_in fs),
    count-lines_in p fs,
  )

  -- The context has taken the lines of the files, and the directories are pushed.
  abbrev pub Visited : List Bytes → List Bytes → State × List Bytes → State × List Bytes → Type 0
  Visited files dirs x y = StatePasses (lines_in files) x.0 y.0 × (y.1 ≡ x.1 ++ dirs)

  visit_root-Visited :
      (r : Bool) (answer : Option Mode) (a : Bytes) (x : State × List Bytes)
      → Returns (visit_root e r answer a x) (
          Visited
            (if is_regular answer then a ∷ [] else [])
            (if is_directory answer && r then a ∷ [] else [])
            x)
  unfolding visit_root fail
  visit_root-Visited r none a (c, dirs) =
      (StatePasses-same c (fail c) refl refl, sym (append-nil dirs))
  visit_root-Visited r (some s_dir) a (c, dirs) = (StatePasses-same c c refl refl, pushed r)
    where
      pushed :
          (b : Bool) → (if b then dirs ++ a ∷ [] else dirs) ≡ dirs ++ (if b then a ∷ [] else [])
      pushed true = refl
      pushed false = sym (append-nil dirs)
  visit_root-Visited r (some s_reg) a (c, dirs) =
      rw (search_file-read_lines pat ci e.multi a (m a) e.g set c (e.files a) (readable a)) (
        subst
            (λ xs.
              StatePasses xs c
                (emit_all e.multi a (file_lines pat ci (m a)) (flagged (e.files a) c)))
            (sym (append-nil (lines_at e pat ci m set readable a)))
            (StatePasses-file e.multi a (file_lines pat ci (m a)) (e.files a) c),
        sym (append-nil dirs),
      )
  visit_root-Visited r (some s_other) a (c, dirs) =
      (StatePasses-same c c refl refl, sym (append-nil dirs))

  lines_in-if :
      (b : Bool) (a : Bytes) (fs : List Bytes)
      → lines_in (if b then a ∷ [] else []) ++ lines_in fs ≡ lines_in (if b then a ∷ fs else fs)
  lines_in-if true a fs =
      ap (λ xs. xs ++ lines_in fs) (append-nil (lines_at e pat ci m set readable a))
  lines_in-if false a fs = refl

  append-if :
      (b : Bool) (a : Bytes) (ds : List Bytes)
      → (if b then a ∷ [] else []) ++ ds ≡ (if b then a ∷ ds else ds)
  append-if true a ds = refl
  append-if false a ds = refl

  Visited-then :
      (a : Bytes) (files dirs : List Bytes) (b d : Bool) (x y z : State × List Bytes)
      → Visited (if b then a ∷ [] else []) (if d then a ∷ [] else []) x y
      → Visited files dirs y z
      → Visited (if b then a ∷ files else files) (if d then a ∷ dirs else dirs) x z
  Visited-then a files dirs b d x y z (first, pushed) (others, pushed') = (
    subst (λ xs. StatePasses xs x.0 z.0) (lines_in-if b a files)
        (StatePasses-then (lines_in (if b then a ∷ [] else [])) (lines_in files) x.0 y.0 z.0 first
          others),
    pushed'
        ∙ ap (λ ds. ds ++ dirs) pushed
        ∙ append_assoc x.1 (if d then a ∷ [] else []) dirs
        ∙ ap (λ ds. x.1 ++ ds) (append-if d a dirs),
  )

  -- For files that are read without errors, or that cannot be opened or read and count as empty, and
  -- a pattern that `prep_pattern` has set up: pass 2 of
  -- `main` of c/grep.c searches the files among the paths, in bounds and to the end; the lines that
  -- c/grep_std.c prints for them go, whole, to the output or to the first context's buffer; and it
  -- pushes the directories among the paths under -r, in their order, and none without.
  pub visit_roots-Visited :
      (r : Bool) (stat : Bytes → Option Mode) (paths : List Bytes) (x : State × List Bytes)
      → Returns
          (visit_roots e r stat paths x)
          (Visited (root_files stat paths) (root_dirs r stat paths) x)
  unfolding visit_roots
  visit_roots-Visited r stat [] x = (StatePasses-same x.0 x.0 refl refl, sym (append-nil x.1))
  visit_roots-Visited r stat (a ∷ paths) x =
      Returns-bind (visit_root e r (stat a) a x) _
        (Visited (if is_regular (stat a) then a ∷ [] else [])
          (if is_directory (stat a) && r then a ∷ [] else []) x)
        _ (visit_root-Visited r (stat a) a x)
        (λ y first.
          Returns-mono (visit_roots e r stat paths y)
            (Visited (root_files stat paths) (root_dirs r stat paths) y) _
            (visit_roots-Visited r stat paths y)
            (λ z others.
              Visited-then a (root_files stat paths) (root_dirs r stat paths) (is_regular (stat a))
                (is_directory (stat a) && r) x y z first others))
