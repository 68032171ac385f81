-- ===== src/Threads/Whole.antt =====
-- What the threads leave together, for a list of files.
use asmgrep.Base.{
  ℕ, zero, suc, ◌+◌, ◌<◌, ◌≡◌, refl, ap, sym, ◌∙◌, Bool, true, false, ◌||◌, List, [], ◌∷◌, ◌++◌,
  map, flatten, flatten-append, arith, Bytes, length, get_or,
}
use asmgrep.Pool.Accounts.{count}
use asmgrep.Output.{line_bytes}
use asmgrep.Std.Lines.{file_lines}
use asmgrep.Mt.Search.Agrees.{flag_after}
use asmgrep.Threads.{ThreadWork, Member, Shared, members, member_turn, Comes, begin, then_turn}
use asmgrep.Threads.Owed.{up_to, count-append, IsLineWise}
use asmgrep.Threads.Written.{at_work, ended-lines}
use asmgrep.Threads.Flag.{any_below, IsFlagged, ended-flag}
use asmgrep.Threads.AllLines.{printed_lines}
use asmgrep.Answer.{lines_found, any_in}

abbrev pub nth_path : List Bytes → ℕ → Bytes
nth_path files i = get_or files i []

-- Sums and disjunctions from the front.
up_to-front :
    (lines : ℕ → List Bytes) (p : Bytes → Bool) (n : ℕ)
    → up_to lines p (suc n) ≡ count p (lines 0) + up_to (λ i. lines (suc i)) p n
up_to-front lines p zero = refl
up_to-front lines p (suc n) = omega (arith, up_to-front lines p n)

or_swap : (a c d : Bool) → (a || (c || d)) ≡ (c || (a || d))
or_swap true true d = refl
or_swap true false d = refl
or_swap false c d = refl

any_below-front :
    (found : ℕ → Bool) (n : ℕ)
    → any_below found (suc n) ≡ (found 0 || any_below (λ i. found (suc i)) n)
any_below-front found zero = refl
any_below-front found (suc n) =
    ap (λ b. found (suc n) || b) (any_below-front found n)
    ∙ or_swap (found (suc n)) (found 0) (any_below (λ i. found (suc i)) n)

pub flag_after-or :
    (lines : List Bytes) (b : Bool) → flag_after lines b ≡ (flag_after lines false || b)
flag_after-or [] b = refl
flag_after-or (line ∷ lines) b = refl

module _ (multi : Bool) (lines : Bytes → List Bytes) where
  up_to-lines_found :
      (files : List Bytes) (p : Bytes → Bool)
      → up_to
          (λ i. map (line_bytes multi (nth_path files i)) (lines (nth_path files i)))
          p
          (length files)
        ≡ count p (lines_found multi lines files)
  up_to-lines_found [] p = refl
  up_to-lines_found (f ∷ files) p =
      up_to-front
        (λ i. map (line_bytes multi (nth_path (f ∷ files) i)) (lines (nth_path (f ∷ files) i))) p
        (length files)
      ∙ ap (λ n. count p (map (line_bytes multi f) (lines f)) + n) (up_to-lines_found files p)
      ∙ sym (count-append p (map (line_bytes multi f) (lines f)) (lines_found multi lines files))

  any_below-any_in :
      (files : List Bytes) (b : Bool)
      → (any_below (λ i. flag_after (lines (nth_path files i)) false) (length files) || b)
        ≡ any_in lines files b
  any_below-any_in [] b = refl
  any_below-any_in (f ∷ files) b =
      let rest = any_below (λ i. flag_after (lines (nth_path files i)) false) (length files) in
      ap (λ a. a || b)
        (any_below-front (λ i. flag_after (lines (nth_path (f ∷ files) i)) false) (length files))
      ∙ or_back (flag_after (lines f) false) rest b
      ∙ ap (λ a. rest || a) (sym (flag_after-or (lines f) b))
      ∙ any_below-any_in files (flag_after (lines f) b)
    where
      or_back : (a c d : Bool) → ((a || c) || d) ≡ (c || (a || d))
      or_back true true d = refl
      or_back true false d = refl
      or_back false c d = refl

length-members : {L : Type 0} (b : L) (n : ℕ) → length (members b n) ≡ n
unfolding members
length-members b zero = refl
length-members b (suc n) = ap suc (length-members b n)

Comes-length :
    {L : Type 0} (t : ThreadWork L) (b : L) (nt : ℕ) {ws : List (Member L)} {s : Shared}
    → Comes t b nt ws s
    → length ws ≡ nt
Comes-length t b nt begin = length-members b nt
Comes-length t b nt (then_turn before after w s r) =
    same_length before after w (member_turn t w s).0 ∙ Comes-length t b nt r
  where
    same_length :
        {A : Type 0} (before after : List A) (w w' : A)
        → length (before ++ w' ∷ after) ≡ length (before ++ w ∷ after)
    same_length [] after w w' = refl
    same_length (v ∷ before) after w w' = ap suc (same_length before after w w')

pub flatten-flatten :
    (groups : List (List Bytes)) → flatten (flatten groups) ≡ flatten (map flatten groups)
flatten-flatten [] = refl
flatten-flatten (g ∷ gs) =
    flatten-append g (flatten gs) ∙ ap (λ r. flatten g ++ r) (flatten-flatten gs)

-- All lines found in the files are written whole, as often as they are found, in some order; and
-- `g_matched` tells whether there are any.
abbrev pub WritesLines : Bool → (Bytes → List Bytes) → List Bytes → Shared → Type 0
WritesLines multi lines files s =
    (printed : List Bytes) × (flatten printed ≡ flatten s.written)
    × ((p : Bytes → Bool) → count p printed ≡ count p (lines_found multi lines files))
    × (s.matched ≡ any_in lines files false)

module _ {L : Type 0} (t : ThreadWork L) (b : L) (Holds : List Bytes → L → Type 0) (pat : Bytes)
    (ci multi : Bool) (files : List Bytes) (m : Bytes → Bytes) where
  -- What the files at the indices of the list hold.
  abbrev pub nth_bytes : ℕ → Bytes
  nth_bytes i = m (nth_path files i)

  abbrev pub nth_found : ℕ → Bool
  nth_found i = flag_after (file_lines pat ci (nth_bytes i)) false

  pub ended-WritesLines :
      IsLineWise t b Holds (printed_lines pat ci multi (nth_path files) nth_bytes)
      → IsFlagged t b nth_found
      → t.nfiles ≡ length files
      → (nt : ℕ) (ws : List (Member L)) (s : Shared) → 0 < nt
      → Comes t b nt ws s
      → at_work ws ≡ 0
      → WritesLines multi (λ p. file_lines pat ci (m p)) files s
  ended-WritesLines lw fl size nt [] s pos r z = absurd (omega (arith, Comes-length t b nt r))
  ended-WritesLines lw fl size nt (w ∷ ws) s pos r z =
      let (groups, written, same) =
        ended-lines t b Holds (printed_lines pat ci multi (nth_path files) nth_bytes) lw nt w ws s r
          z in
      (
        flatten groups,
        flatten-flatten groups ∙ ap flatten written,
        λ p.
            same p
            ∙ ap (up_to (printed_lines pat ci multi (nth_path files) nth_bytes) p) size
            ∙ up_to-lines_found multi (λ f. file_lines pat ci (m f)) files p,
        ended-flag t b nth_found fl nt w ws s r z
            ∙ ap (any_below nth_found) size
            ∙ or_none (any_below nth_found (length files))
            ∙ any_below-any_in multi (λ f. file_lines pat ci (m f)) files false,
      )
    where
      or_none : (a : Bool) → a ≡ (a || false)
      or_none true = refl
      or_none false = refl
