-- ===== src/Args/Accepted.antt =====
-- What `main` sets up, in terms of the words of the command line.
use mathlib.Core.Path.{ap₂}
use asmgrep.Base.{
  ℕ, suc, ◌+◌, ◌≡◌, refl, ap, ◌∙◌, sym, Bool, true, false, ◌||◌, Option, none, some, List, [], ◌∷◌,
  ◌++◌, arith, ◌==◌, ltb, Bool-cases, inl, inr, append_assoc, append-nil, if◌then◌else◌, Bytes,
  drop,
}
use asmgrep.Args.{
  Flags, no_flags, letters, classify, collect, Setup, accept, count_words, grep_setup, std_setup,
  pass2,
}
use asmgrep.Args.Words.{operands, option_letters, has, all_known}
use asmgrep.Args.Reading.{act_all, and_state, parse-words, pass2-operands}

-- The letters i and r are the flags; any other letter is an error.
abbrev pub flags_in : Bytes → Flags → Option Flags
flags_in qs f =
    if all_known qs then some (record { i = f.i || has b'i' qs; r = f.r || has b'r' qs }) else none

or_false : (a : Bool) → a ≡ (a || false)
or_false true = refl
or_false false = refl

or_assoc : (a b c : Bool) → ((a || b) || c) ≡ (a || (b || c))
or_assoc true b c = refl
or_assoc false b c = refl

letters-flags_in : (qs : Bytes) (f : Flags) → letters qs f ≡ flags_in qs f
unfolding letters
letters-flags_in [] f = ap₂ (λ i r. some (record { i = i; r = r })) (or_false f.i) (or_false f.r)
letters-flags_in (q ∷ qs) f = elim (Bool-cases (q == b'i' || q == b'r')) [
  | inr other ↦ rw other refl
  | inl known ↦ elim (Bool-cases (all_known qs)) [
    | inl all ↦ rw (known) (
        letters-flags_in qs _
        ∙ rw all (
            ap₂ (λ i r. some (record { i = i; r = r })) (or_assoc f.i (q == b'i') (has b'i' qs))
              (or_assoc f.r (q == b'r') (has b'r' qs))))
    | inr some_other ↦ rw (known) (letters-flags_in qs _ ∙ rw some_other refl)
  ]
]

-- A run is set up if every letter is known and there are a pattern and a path.
abbrev pub run_of : Option Flags → List Bytes → Option (Setup (List Bytes))
run_of none words = none
run_of (some f) [] = none
run_of (some f) (pat ∷ []) = none
run_of (some f) (pat ∷ p ∷ ps) =
    some
      (record { flags = f; pat = pat; paths = p ∷ ps; multi = f.r || ltb 1 (count_words (p ∷ ps)) })

abbrev pub reading : List Bytes → Option (Setup (List Bytes))
reading argv = run_of (flags_in (option_letters argv) no_flags) (operands argv)

abbrev pub counted : Setup (List Bytes) → Setup ℕ
counted s = record { flags = s.flags; pat = s.pat; paths = count_words s.paths; multi = s.multi }

abbrev pub counted_option : Option (Setup (List Bytes)) → Option (Setup ℕ)
counted_option none = none
counted_option (some s) = some (counted s)

collect-all :
    (pat : Bytes) (argv paths : List Bytes)
    → act_all collect argv (some pat, paths) ≡ (some pat, paths ++ argv)
unfolding collect
collect-all pat [] paths = ap (λ l. (some pat, l)) (sym (append-nil paths))
collect-all pat (a ∷ argv) paths =
    collect-all pat argv (paths ++ a ∷ [])
    ∙ ap (λ l. (some pat, l)) (append_assoc paths (a ∷ []) argv)

classify-all :
    (pat : Bytes) (argv : List Bytes) (n : ℕ)
    → act_all classify argv (some pat, n) ≡ (some pat, n + count_words argv)
unfolding classify
classify-all pat [] n = ap (λ k. (some pat, k)) (omega arith)
classify-all pat (a ∷ argv) n =
    classify-all pat argv (n + 1) ∙ ap (λ k. (some pat, k)) (omega arith)

accept-some {ℓ} :
    {P : Type ℓ} (count : P → ℕ) (f : Flags) (pat : Bytes) (paths : P) (n : ℕ)
    → count paths ≡ suc n
    → accept count (some (f, (some pat, paths)))
      ≡ some (record { flags = f; pat = pat; paths = paths; multi = f.r || ltb 1 (suc n) })
unfolding accept
accept-some count f pat paths n e =
    let some_path : (suc n == 0) ≡ false = ground arith in rw e (rw some_path refl)

accept-collect :
    (o : Option Flags) (words : List Bytes)
    → accept count_words (and_state (act_all collect words (none, [])) o) ≡ run_of o words
unfolding accept collect
accept-collect none words = refl
accept-collect (some f) [] = refl
accept-collect (some f) (pat ∷ []) = refl
accept-collect (some f) (pat ∷ p ∷ ps) =
    ap (λ w. accept count_words (some (f, w))) (collect-all pat ps (p ∷ []))
    ∙ accept-some count_words f pat (p ∷ ps) (count_words ps) refl

accept-classify :
    (o : Option Flags) (words : List Bytes)
    → accept (λ n. n) (and_state (act_all classify words (none, 0)) o)
      ≡ counted_option (run_of o words)
unfolding accept classify
accept-classify none words = refl
accept-classify (some f) [] = refl
accept-classify (some f) (pat ∷ []) = refl
accept-classify (some f) (pat ∷ p ∷ ps) =
    let more : 1 + count_words ps ≡ suc (count_words ps) = omega arith in
    ap (λ w. accept (λ n. n) (some (f, w))) (classify-all pat ps 1 ∙ ap (λ n. (some pat, n)) more)
    ∙ accept-some (λ n. n) f pat (suc (count_words ps)) (count_words ps) refl

-- The program of c/grep_std.c starts with the pattern, the paths and the flags of the command
-- line's words, and it shows the usage message exactly if a letter is unknown or the pattern or
-- every path is missing. Words in front of the first `--` that begin with a dash and have a second
-- byte are options; the other words in front of it and all behind it are the pattern and the paths.
pub std_setup-reading : (argv : List Bytes) → std_setup argv ≡ reading argv
unfolding std_setup
std_setup-reading argv =
    ap (accept count_words) (parse-words collect argv no_flags (none, []))
    ∙ accept-collect (letters (option_letters argv) no_flags) (operands argv)
    ∙ ap (λ o. run_of o (operands argv)) (letters-flags_in (option_letters argv) no_flags)

-- The first pass of c/grep.c reads the same from the words, with the number of the paths in place
-- of the paths.
pub grep_setup-reading : (argv : List Bytes) → grep_setup argv ≡ counted_option (reading argv)
unfolding grep_setup
grep_setup-reading argv =
    ap (accept (λ n. n)) (parse-words classify argv no_flags (none, 0))
    ∙ accept-classify (letters (option_letters argv) no_flags) (operands argv)
    ∙ ap (λ o. counted_option (run_of o (operands argv)))
        (letters-flags_in (option_letters argv) no_flags)

abbrev words_of : Option (Setup (List Bytes)) → List Bytes
words_of none = []
words_of (some s) = s.pat ∷ s.paths

run_of-paths :
    (o : Option Flags) (words : List Bytes) (s : Setup (List Bytes))
    → run_of o words ≡ some s
    → words ≡ s.pat ∷ s.paths
run_of-paths none words s e = absurd (cc)
run_of-paths (some f) [] s e = absurd (cc)
run_of-paths (some f) (pat ∷ []) s e = absurd (cc)
run_of-paths (some f) (pat ∷ p ∷ ps) s e = ap words_of e

-- The second pass of c/grep.c visits the paths with which the program of c/grep_std.c starts.
pub pass2-paths {ℓ} :
    {W : Type ℓ} (visit : Bytes → W → W) (argv : List Bytes) (s : Setup (List Bytes)) (w : W)
    → std_setup argv ≡ some s
    → pass2 visit argv false false w ≡ act_all visit s.paths w
pass2-paths visit argv s w started =
    let read : reading argv ≡ some s = sym (std_setup-reading argv) ∙ started in
    (pass2-operands visit argv w).1
    ∙ ap (λ words. act_all visit (drop 1 words) w) (run_of-paths _ (operands argv) s read)

-- Whatever the command line is: both programs read it as its words say. They start exactly if every
-- letter of the options is known and there are a pattern and a path, with the same pattern, flags and
-- prefix mode, c/grep_std.c with the paths and c/grep.c with their number; otherwise they show the
-- usage message. The second pass of c/grep.c, which reads the command line again, visits just the
-- operands behind the pattern, in their order, whatever a visit does.
pub setup-agrees {ℓ} :
    {W : Type ℓ} (visit : Bytes → W → W) (argv : List Bytes) (w : W)
    → (std_setup argv ≡ reading argv)
      × (grep_setup argv ≡ counted_option (reading argv))
      × (pass2 visit argv false false w ≡ act_all visit (drop 1 (operands argv)) w)
setup-agrees visit argv w =
    (std_setup-reading argv, grep_setup-reading argv, (pass2-operands visit argv w).1)
