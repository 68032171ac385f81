-- ===== src/Answer/Expected.antt =====
-- The answer of a run that the command line, the directory tree and the files' bytes call for.
use mathlib.Core.Path.{subst, fun_ext}
use asmgrep.Base.{
  ℕ, zero, suc, ◌<◌, ◌≡◌, ◌≢◌, refl, ◌∙◌, ap, min, Bool, true, false, ◌||◌, ◌==◌, Option, none,
  some, List, [], ◌∷◌, arith, flatten, if◌then◌else◌, Bytes, length, take, at, Returns, Bool-cases,
  inl, inr,
}
use asmgrep.Libc.{First, memchr-First}
use asmgrep.Args.{Setup}
use asmgrep.Pattern.Prepared.{compared}
use asmgrep.Pool.{Mode}
use asmgrep.Pool.Accounts.{count}
use asmgrep.Lines.{grep_lines}
use asmgrep.Lines.Filter.{Selected-grep_lines}
use asmgrep.Scan.Selects.{IsText}
use asmgrep.Scan.Correct.{fold_if, IsOneLine, compared-IsOneLine, fold-newline}
use asmgrep.Std.Lines.{binary_test, text_lines, found_lines, file_lines}
use asmgrep.Mt.Collect.{Entry}
use asmgrep.Mt.Collect.Listed.{files_of}
use asmgrep.Answer.{Exit, refused, exit_of, found_in, lines_found, any_in}

-- `lines pat ci m` are the lines that are selected in a file with the bytes `m`.
abbrev pub answer :
    (Bytes → Bool → Bytes → List Bytes)
    → (Bytes → List Entry)
    → (Bytes → Option Mode)
    → (Bytes → Bytes)
    → Option (Setup (List Bytes))
    → Exit
answer lines walk stat m none = refused
answer lines walk stat m (some s) =
    let files = files_of s.flags.r walk stat s.paths in
    exit_of (found_in s.multi (λ (p : Bytes). lines s.pat s.flags.i (m p)) files)
      (any_in (λ (p : Bytes). lines s.pat s.flags.i (m p)) files false)

-- The lines that are printed, with their prefixes and newlines; `answer` has their bytes.
abbrev pub answer_lines :
    (Bytes → Bool → Bytes → List Bytes)
    → (Bytes → List Entry)
    → (Bytes → Option Mode)
    → (Bytes → Bytes)
    → Option (Setup (List Bytes))
    → List Bytes
answer_lines lines walk stat m none = []
answer_lines lines walk stat m (some s) =
    lines_found s.multi (λ (p : Bytes). lines s.pat s.flags.i (m p))
      (files_of s.flags.r walk stat s.paths)

abbrev pub holds_nul : Bytes → Bool
holds_nul [] = false
holds_nul (b ∷ bs) = b == 0 || holds_nul bs

-- A file with a NUL in its first 65536 bytes is skipped; of another the lines that hold the pattern,
-- up to case under -i, are selected.
abbrev pub lines_with : Bytes → Bool → Bytes → List Bytes
lines_with pat ci m =
    if holds_nul (take 65536 m) then [] else grep_lines (fold_if ci) (compared ci pat) m

holds_nul-at :
    (n : ℕ) (m : Bytes) (k : ℕ) → k < n → k < length m → at m k ≡ 0 → holds_nul (take n m) ≡ true
holds_nul-at zero m k lt in_m e = absurd (omega arith)
holds_nul-at (suc n) [] k lt in_m e = absurd (omega arith)
holds_nul-at (suc n) (b ∷ m) zero lt in_m e = let z : (b == 0) ≡ true = ground arith in rw z refl
holds_nul-at (suc n) (b ∷ m) (suc k) lt in_m e = elim (Bool-cases (b == 0)) [
  | inl z ↦ rw z refl
  | inr nz ↦ rw nz (holds_nul-at n m k (omega arith) (omega arith) e)
]

holds_nul-none :
    (n : ℕ) (m : Bytes)
    → ((i : ℕ) → i < n → i < length m → at m i ≢ 0)
    → holds_nul (take n m) ≡ false
holds_nul-none zero m h = refl
holds_nul-none (suc n) [] h = refl
holds_nul-none (suc n) (b ∷ m) h =
    let nz : b ≢ 0 = h 0 (omega arith) (omega arith) in
    let e : (b == 0) ≡ false = ground arith in
    rw e (holds_nul-none n m (λ i lt in_m. h (suc i) (omega arith) (omega arith)))

-- For a pattern without newlines these are the lines that c/grep_std.c prints.
pub file_lines-with :
    (pat : Bytes) (ci : Bool) (m : Bytes)
    → IsOneLine pat
    → file_lines pat ci m ≡ lines_with pat ci m
unfolding file_lines found_lines
file_lines-with pat ci m plain =
    let (nul, tested, is_text) = binary_test m in
    by_test nul is_text (
      subst (λ r. Returns r (First (λ i. at m i ≡ 0) 0 (min (length m) 65536))) tested
        (memchr-First m 0 0 (min (length m) 65536) (min (length m) 65536) (omega arith)
          (omega arith)))
  where
    by_test :
        (nul : Option ℕ) (is_text : nul ≡ none → IsText m)
        → First (λ i. at m i ≡ 0) 0 (min (length m) 65536) nul
        → found_lines pat ci m nul is_text ≡ lines_with pat ci m
    by_test (some k) is_text first =
        let nul =
          holds_nul-at 65536 m k (omega (arith, first.1)) (omega (arith, first.1)) first.2 in
        rw nul refl
    by_test none is_text first =
        let text = holds_nul-none 65536 m (λ i lt in_m. is_text refl i (omega arith)) in
        let (lines, sel) = text_lines pat ci m (is_text refl) in
        rw text (
          Selected-grep_lines (fold_if ci) (compared ci pat) m (compared-IsOneLine ci pat plain)
            (fold-newline ci) sel)

-- Answers with the same selected lines are the same.
pub answer-with :
    (walk : Bytes → List Entry) (stat : Bytes → Option Mode) (m : Bytes → Bytes)
    (o : Option (Setup (List Bytes)))
    → ((s : Setup (List Bytes)) → o ≡ some s → IsOneLine s.pat)
    → answer file_lines walk stat m o ≡ answer lines_with walk stat m o
answer-with walk stat m none plain = refl
answer-with walk stat m (some s) plain =
    ap
      (λ (lines : Bytes → List Bytes).
        exit_of (found_in s.multi lines (files_of s.flags.r walk stat s.paths))
          (any_in lines (files_of s.flags.r walk stat s.paths) false))
      (fun_ext (λ p. file_lines-with s.pat s.flags.i (m p) (plain s refl)))

pub answer_lines-with :
    (walk : Bytes → List Entry) (stat : Bytes → Option Mode) (m : Bytes → Bytes)
    (o : Option (Setup (List Bytes)))
    → ((s : Setup (List Bytes)) → o ≡ some s → IsOneLine s.pat)
    → answer_lines file_lines walk stat m o ≡ answer_lines lines_with walk stat m o
answer_lines-with walk stat m none plain = refl
answer_lines-with walk stat m (some s) plain =
    ap
      (λ (lines : Bytes → List Bytes).
        lines_found s.multi lines (files_of s.flags.r walk stat s.paths))
      (fun_ext (λ p. file_lines-with s.pat s.flags.i (m p) (plain s refl)))

-- The same lines in some order, and the same status.
abbrev pub ReordersAnswer :
    (Bytes → Bool → Bytes → List Bytes)
    → (Bytes → List Entry)
    → (Bytes → Option Mode)
    → (Bytes → Bytes)
    → Option (Setup (List Bytes))
    → Exit
    → Type 0
ReordersAnswer lines walk stat m o e =
    (printed : List Bytes) × (flatten printed ≡ e.stdout)
    × ((p : Bytes → Bool) → count p printed ≡ count p (answer_lines lines walk stat m o))
    × (e.status ≡ (answer lines walk stat m o).status)

pub ReordersAnswer-with :
    (walk : Bytes → List Entry) (stat : Bytes → Option Mode) (m : Bytes → Bytes)
    (o : Option (Setup (List Bytes))) (e : Exit)
    → ((s : Setup (List Bytes)) → o ≡ some s → IsOneLine s.pat)
    → ReordersAnswer file_lines walk stat m o e
    → ReordersAnswer lines_with walk stat m o e
ReordersAnswer-with walk stat m o e plain (printed, bytes, same, status) = (
  printed,
  bytes,
  λ p. same p ∙ ap (count p) (answer_lines-with walk stat m o plain),
  status ∙ ap (λ (x : Exit). x.status) (answer-with walk stat m o plain),
)
