-- ===== src/Crew/RootFlags.antt =====
-- The flags that pass 2 of `main` of c/grep.c leaves, and what a search adds to them.
use asmgrep.Base.{
  ◌≡◌, refl, ap, sym, ◌∙◌, Bool, true, false, ◌||◌, ◌&&◌, Option, none, some, List, [], ◌∷◌,
  if◌then◌else◌, Bytes, Returns, Returns-bind, Returns-mono,
}
use asmgrep.Output.{State, emit, emit_all, initial}
use asmgrep.Scan.Correct.{IsSetUp}
use asmgrep.Std.Lines.{file_lines}
use asmgrep.Std.SameBytes.{emit-matched}
use asmgrep.Reading.{fail, search_file}
use asmgrep.Reading.Failures.{reported, emit_all-err}
use asmgrep.Pool.{Mode, s_dir, s_reg, s_other}
use asmgrep.Pool.Reached.{any_file}
use asmgrep.Mt.Search.Agrees.{flag_after}
use asmgrep.Threads.Whole.{flag_after-or}
use asmgrep.Crew.{Setting, visit_root, visit_roots}
use asmgrep.Crew.Emitted.{FileReads, flagged, search_file-read_lines}
use asmgrep.Crew.Flags.{Adds, or_swap, or_assoc}
use asmgrep.Crew.Roots.{root_files, is_regular}

abbrev pub is_missing : Option Mode → Bool
is_missing none = true
is_missing (some k) = false

-- Pass 2 adds the failures of `stat`, where the flag shows them, and the files among the paths.
module _ (e : Setting) (flag : State → Bool) (found : Bytes → Bool) (adds : Adds e flag found)
    (stat : Bytes → Option Mode) (missing : Bool)
    (failing : (s : State) → flag (fail s) ≡ (missing || flag s)) where
  abbrev root_adds : Option Mode → Bytes → Bool
  root_adds none a = missing
  root_adds (some s_dir) a = false
  root_adds (some s_reg) a = found a
  root_adds (some s_other) a = false

  abbrev roots_add : List Bytes → Bool
  roots_add [] = false
  roots_add (a ∷ paths) = root_adds (stat a) a || roots_add paths

  visit_root-flag :
      (r : Bool) (answer : Option Mode) (a : Bytes) (x : State × List Bytes)
      → Returns (visit_root e r answer a x) (λ y. flag y.0 ≡ (root_adds answer a || flag x.0))
  unfolding visit_root
  visit_root-flag r none a (c, dirs) = failing c
  visit_root-flag r (some s_dir) a (c, dirs) = refl
  visit_root-flag r (some s_reg) a (c, dirs) =
      Returns-bind (search_file e.g e.multi a (e.files a) c) _ (λ t. flag t ≡ (found a || flag c)) _
        (adds a c) (λ t set. set)
  visit_root-flag r (some s_other) a (c, dirs) = refl

  visit_roots-flag :
      (r : Bool) (paths : List Bytes) (x : State × List Bytes)
      → Returns (visit_roots e r stat paths x) (λ y. flag y.0 ≡ (roots_add paths || flag x.0))
  unfolding visit_roots
  visit_roots-flag r [] x = refl
  visit_roots-flag r (a ∷ paths) x =
      Returns-bind (visit_root e r (stat a) a x) _
        (λ y. flag y.0 ≡ (root_adds (stat a) a || flag x.0)) _ (visit_root-flag r (stat a) a x)
        (λ y first.
          Returns-mono (visit_roots e r stat paths y)
            (λ z. flag z.0 ≡ (roots_add paths || flag y.0)) _ (visit_roots-flag r paths y)
            (λ z others.
              others
              ∙ ap (λ b. roots_add paths || b) first
              ∙ or_swap (roots_add paths) (root_adds (stat a) a) (flag x.0)
              ∙ sym (or_assoc (root_adds (stat a) a) (roots_add paths) (flag x.0))))

  abbrev any_missing : List Bytes → Bool
  any_missing paths = any_file (λ a. is_missing (stat a)) paths

  roots_add-split :
      (paths : List Bytes)
      → roots_add paths ≡ ((missing && any_missing paths) || any_file found (root_files stat paths))
  roots_add-split [] = none_left missing
    where
      none_left : (b : Bool) → false ≡ ((b && false) || false)
      none_left true = refl
      none_left false = refl
  roots_add-split (a ∷ paths) =
      let fs = root_files stat paths in
      ap (λ b. root_adds (stat a) a || b) (roots_add-split paths)
      ∙ by_mode (stat a) fs (any_missing paths)
    where
      if_missing : (b am x : Bool) → (b || ((b && am) || x)) ≡ ((b && true) || x)
      if_missing true am x = refl
      if_missing false am x = refl

      by_mode :
          (k : Option Mode) (fs : List Bytes) (am : Bool)
          → (root_adds k a || ((missing && am) || any_file found fs)) ≡ (
              (missing && (is_missing k || am))
              || any_file found (if is_regular k then a ∷ fs else fs))
      by_mode none fs am = if_missing missing am (any_file found fs)
      by_mode (some s_dir) fs am = refl
      by_mode (some s_reg) fs am = or_swap (found a) (missing && am) (any_file found fs)
      by_mode (some s_other) fs am = refl

  -- Pass 2 as a whole.
  pub visit_roots-flags :
      (r : Bool) (paths : List Bytes)
      → flag initial ≡ false
      → Returns (visit_roots e r stat paths (initial, [])) (λ y. flag y.0 ≡ (
          (missing && any_file (λ a. is_missing (stat a)) paths)
          || any_file found (root_files stat paths)))
  visit_roots-flags r paths none_set =
      Returns-mono (visit_roots e r stat paths (initial, []))
        (λ y. flag y.0 ≡ (roots_add paths || flag initial)) _
        (visit_roots-flag r paths (initial, []))
        (λ y set.
          set
          ∙ ap (λ b. roots_add paths || b) none_set
          ∙ or_none (roots_add paths)
          ∙ roots_add-split paths)
    where
      or_none : (b : Bool) → (b || false) ≡ b
      or_none true = refl
      or_none false = refl

-- The match flag: a search adds whether the file has a line.
emit_all-matched :
    (multi : Bool) (path : Bytes) (lines : List Bytes) (s : State)
    → (emit_all multi path lines s).matched ≡ flag_after lines s.matched
unfolding emit_all
emit_all-matched multi path [] s = refl
emit_all-matched multi path (line ∷ lines) s =
    emit_all-matched multi path lines (emit multi path line s)
    ∙ ap (flag_after lines) (emit-matched multi path line s)
    ∙ stays lines
  where
    stays : (lines : List Bytes) → flag_after lines true ≡ true
    stays [] = refl
    stays (l ∷ ls) = refl

module _ (e : Setting) (pat : Bytes) (ci : Bool) (m : Bytes → Bytes) (set : IsSetUp pat ci e.g)
    (readable : (f : Bytes) → FileReads (m f) (e.files f)) where
  abbrev pub has_line : Bytes → Bool
  has_line f = flag_after (file_lines pat ci (m f)) false

  pub matched-Adds : Adds e (λ s. s.matched) has_line
  matched-Adds f s =
      rw (search_file-read_lines pat ci e.multi f (m f) e.g set s (e.files f) (readable f)) (
        emit_all-matched e.multi f (file_lines pat ci (m f)) (flagged (e.files f) s)
        ∙ ap (flag_after (file_lines pat ci (m f))) (kept (reported (e.files f)))
        ∙ flag_after-or (file_lines pat ci (m f)) s.matched)
    where
      kept : (b : Bool) → (if b then fail s else s).matched ≡ s.matched
      kept true = unfold fail in refl
      kept false = refl

  -- The error flag: a search adds whether the file could not be opened or read.
  pub err-Adds : Adds e (λ s. s.err) (λ f. reported (e.files f))
  err-Adds f s =
      rw (search_file-read_lines pat ci e.multi f (m f) e.g set s (e.files f) (readable f)) (
        emit_all-err e.multi f (file_lines pat ci (m f)) (flagged (e.files f) s)
        ∙ set_by (reported (e.files f)))
    where
      set_by : (b : Bool) → (if b then fail s else s).err ≡ (b || s.err)
      set_by true = unfold fail in refl
      set_by false = refl
