-- ===== src/Std/Selects.antt =====
-- `search_text` prints the selected lines of a text that is not binary.
use mathlib.Core.Path.{subst}
use asmgrep.Base.{
  ℕ, zero, suc, ◌+◌, ◌-◌, ◌≤◌, ◌<◌, ◌≡◌, inl, inr, refl, ap, sym, if◌then◌else◌, ◌∙◌, min, Bool,
  true, false, none, some, List, [], ◌∷◌, map, arith, ltb, ltb→lt, ltb→ge, Bool-cases, Bytes,
  length, at, Outcome, Returns, Returns-bind, Returns-mono,
}
use asmgrep.Libc.{memchr, First, memchr-First}
use asmgrep.Pattern.{fold}
use asmgrep.Pattern.Prepared.{compared, length-map-fold}
use asmgrep.Lines.{slice, Selected, done, hit}
use asmgrep.Lines.Unique.{Selected-mono}
use asmgrep.Lines.Occurs.{Occurs}
use asmgrep.Scan.Selects.{IsText}
use asmgrep.Scan.Correct.{fold_if}
use asmgrep.Std.{
  tolower, memmem, Settings, settings, Printed, print_lines, line_start, line_end, print_around,
  match_lines, search_text,
}
use asmgrep.Std.Memmem.{memmem-First}
use asmgrep.Std.LineAround.{line_start-StartsLine, line_end-EndsLine, IsLine-between}

-- The state after some selected lines were printed.
abbrev pub StdPrints : (ℕ → Type 0) → Bytes → Settings → Bytes → ℕ → Printed → Printed → Type 0
StdPrints P text g path pos s t =
    (lines : List Bytes) × Selected P text pos lines × (t ≡ print_lines g path lines s)

module _ (g : Settings) (path text hay needle : Bytes) (same_size : length hay ≡ length text) where
  abbrev Here : ℕ → Type 0
  Here = Occurs (λ x. x) needle hay

  print_around-StdPrints :
      (next : ℕ → Printed → Outcome Printed) (p m : ℕ) (s : Printed)
      → First Here p (length text) (some m)
      → ((le : ℕ) (s' : Printed)
          → m ≤ le
          → Returns (next (le + 1) s') (StdPrints Here text g path (le + 1) s'))
      → Returns (print_around g path text next s m) (StdPrints Here text g path p s)
  unfolding print_around print_lines
  print_around-StdPrints next p m s first more =
      Returns-bind (line_start text m) _ _ _ (line_start-StartsLine text m (omega (arith, first.1)))
        (λ ls starts.
          Returns-bind (line_end text m (length text - m)) _ _ _
            (line_end-EndsLine text (length text - m) m (omega (arith, first.1)))
            (λ le ends. Returns-mono (next (le + 1) _) _ _ (more le _ ends.0) (λ t (lines, sel, e).
              (
                slice text ls le ∷ lines,
                hit m ls le first (IsLine-between text ls m le starts ends) sel,
                e,
              ))))

  match_lines-StdPrints :
      (f p : ℕ) (s : Printed)
      → length text < p + f
      → 0 < f
      → Returns (match_lines f g path text hay needle p s) (StdPrints Here text g path p s)
  unfolding match_lines print_lines
  match_lines-StdPrints zero p s fuel some_left = absurd (omega arith)
  match_lines-StdPrints (suc f) p s fuel some_left = elim (Bool-cases (ltb p (length text))) [
    | inr out ↦
        let ge = ltb→ge p (length text) out in
        rw out ([], done (λ i lo up. absurd (omega arith)), refl)
    | inl more ↦
        let lt = ltb→lt p (length text) more in
        rw more (
          Returns-bind (memmem hay p (length text - p) needle) _ _ _
            (memmem-First hay needle (length text - p) p (omega arith) (omega arith))
            (elim [
              | none ↦ λ first. ([], done (subst (λ n. First Here p n none) same_size first), refl)
              | some m ↦ λ first.
                  print_around-StdPrints (match_lines f g path text hay needle) p m s
                    (subst (λ n. First Here p n (some m)) same_size first)
                    (λ le s' below.
                      match_lines-StdPrints f (le + 1) s' (omega (arith, first.0)) (omega arith))
            ]))
  ]

-- `tolower` and `fold` are the same function, so the search in lower case is a search up to case.
map-tolower : (xs : Bytes) → map tolower xs ≡ map fold xs
unfolding tolower fold
map-tolower [] = refl
map-tolower (x ∷ xs) = ap (◌∷◌ (fold x)) (map-tolower xs)

at-map-tolower : (xs : Bytes) (i : ℕ) → at (map tolower xs) i ≡ fold (at xs i)
unfolding tolower fold
at-map-tolower [] i = refl
at-map-tolower (x ∷ xs) zero = refl
at-map-tolower (x ∷ xs) (suc i) = at-map-tolower xs i

pub length-map-tolower : (xs : Bytes) → length (map tolower xs) ≡ length xs
length-map-tolower xs = ap length (map-tolower xs) ∙ length-map-fold xs

pub lower-Occurs :
    (pat text : Bytes) (i : ℕ)
    → Occurs (λ x. x) (map tolower pat) (map tolower text) i
    → Occurs fold (map fold pat) text i
lower-Occurs pat text i (inside, same) = (
  omega (arith, inside, length-map-tolower pat, length-map-tolower text, length-map-fold pat),
  λ k lt.
      sym (at-map-tolower text (i + k))
      ∙ same k (omega (arith, length-map-tolower pat, length-map-fold pat))
      ∙ ap (λ xs. at xs k) (map-tolower pat),
)

pub Occurs-lower :
    (pat text : Bytes) (i : ℕ)
    → Occurs fold (map fold pat) text i
    → Occurs (λ x. x) (map tolower pat) (map tolower text) i
Occurs-lower pat text i (inside, same) = (
  omega (arith, inside, length-map-tolower pat, length-map-tolower text, length-map-fold pat),
  λ k lt.
      at-map-tolower text (i + k)
      ∙ same k (omega (arith, length-map-tolower pat, length-map-fold pat))
      ∙ sym (ap (λ xs. at xs k) (map-tolower pat)),
)

loop-StdPrints :
    (pat : Bytes) (ci multi : Bool) (path text : Bytes) (s : Printed)
    → Returns
        (match_lines
          (length text + 1)
          (settings pat ci multi)
          path
          text
          (if ci then map tolower text else text)
          (if ci then map tolower pat else pat)
          0
          s)
        (StdPrints
          (Occurs (fold_if ci) (compared ci pat) text)
          text
          (settings pat ci multi)
          path
          0
          s)
loop-StdPrints pat true multi path text s =
    Returns-mono
      (match_lines (length text + 1) (settings pat true multi) path text (map tolower text)
        (map tolower pat) 0 s)
      (StdPrints (Occurs (λ x. x) (map tolower pat) (map tolower text)) text
        (settings pat true multi) path 0 s)
      _
      (match_lines-StdPrints (settings pat true multi) path text (map tolower text)
        (map tolower pat) (length-map-tolower text) (length text + 1) 0 s (omega arith)
        (omega arith))
      (λ t (lines, sel, e). (
        lines,
        Selected-mono _ text (Occurs fold (map fold pat) text) (lower-Occurs pat text)
            (Occurs-lower pat text) sel,
        e,
      ))
loop-StdPrints pat false multi path text s =
    match_lines-StdPrints (settings pat false multi) path text text pat refl (length text + 1) 0 s
      (omega arith) (omega arith)

-- `search_text` reads in bounds and ends, and prints the selected lines of a text, up to case
-- under -i.
pub search_text-StdPrints :
    (pat : Bytes) (ci multi : Bool) (path text : Bytes) (s : Printed)
    → IsText text
    → Returns (search_text (settings pat ci multi) path text s) (
        StdPrints
          (Occurs (fold_if ci) (compared ci pat) text)
          text
          (settings pat ci multi)
          path
          0
          s)
unfolding search_text settings
search_text-StdPrints pat ci multi path text s plain =
    Returns-bind (memchr text 0 0 (min (length text) 65536)) _ _ _
      (memchr-First text 0 0 (min (length text) 65536) (min (length text) 65536) (omega arith)
        (omega arith))
      (elim [
        | some k ↦ λ first. absurd (plain k first.1 first.2)
        | none ↦ λ first. loop-StdPrints pat ci multi path text s
      ])
