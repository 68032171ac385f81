-- ===== src/Args.antt =====
-- The command lines of c/grep.c and c/grep_std.c. A word of `argv` is its bytes in front of the
-- NUL, and `argv` stands without the program's name.
pub mod Words
pub mod Accepted
pub mod Reading
use asmgrep.Base.{
  ℕ, zero, suc, ◌+◌, Bool, true, false, not, ◌&&◌, ◌||◌, Option, none, some, List, [], ◌∷◌, ◌++◌,
  ltb, ◌==◌, if◌then◌else◌, Bytes, drop,
}

abbrev dash : ℕ
dash = b'-'

-- `a[0]=='-' && a[1]`
unfoldable pub is_option : Bytes → Bool
is_option [] = false
is_option (c ∷ []) = false
is_option (c ∷ d ∷ ds) = c == dash

-- `a[1]=='-' && a[2]==0`, for a word that begins like an option.
unfoldable pub is_terminator : Bytes → Bool
is_terminator (c ∷ d ∷ []) = d == dash
is_terminator [] = false
is_terminator (c ∷ []) = false
is_terminator (c ∷ d ∷ e ∷ es) = false

-- `g_i` (`g_ci` in c/grep_std.c) and `g_r`.
pub record Flags : Type 0 where
  pub i : Bool
  pub r : Bool

abbrev pub no_flags : Flags
no_flags = record { i = false; r = false }

-- The loop over the letters of an option; `none` is the usage message and exit status 2.
unfoldable pub letters : Bytes → Flags → Option Flags
letters [] f = some f
letters (q ∷ qs) f =
    let rest = letters qs (record f { i = f.i || q == b'i'; r = f.r || q == b'r' }) in
    if q == b'i' || q == b'r' then rest else none

-- The loop over `argv` that both programs have, up to what is done with a word that is no option.
unfoldable pub parse {ℓ} :
    {W : Type ℓ} → (Bytes → W → W) → List Bytes → Flags → Bool → W → Option (Flags × W)
parse op [] f no_more w = some (f, w)
parse op (a ∷ argv) f no_more w = elim (not no_more && is_option a) [
  | true ↦ elim (is_terminator a) [
    | true ↦ parse op argv f true w
    | false ↦ elim (letters (drop 1 a) f) [ none ↦ none | some f' ↦ parse op argv f' no_more w ]
  ]
  | false ↦ parse op argv f no_more (op a w)
]

-- c/grep.c, pass 1: `g_pat` and `npaths`.
unfoldable pub classify : Bytes → Option Bytes × ℕ → Option Bytes × ℕ
classify a (none, npaths) = (some a, npaths)
classify a (some pat, npaths) = (some pat, npaths + 1)

-- c/grep_std.c: `g_pat` and `paths`.
unfoldable pub collect : Bytes → Option Bytes × List Bytes → Option Bytes × List Bytes
collect a (none, paths) = (some a, paths)
collect a (some pat, paths) = (some pat, paths ++ a ∷ [])

-- What the rest of `main` starts from: the flags, the pattern, the number of the paths (in
-- c/grep_std.c the paths) and `g_multi`.
pub record Setup {ℓ} (P : Type ℓ) : Type ℓ where
  pub flags : Flags
  pub pat : Bytes
  pub paths : P
  pub multi : Bool

-- The guard and the assignment of `g_multi` behind the loop, `count` being the number of paths.
unfoldable pub accept {ℓ} :
    {P : Type ℓ} → (P → ℕ) → Option (Flags × (Option Bytes × P)) → Option (Setup P)
accept count none = none
accept count (some (f, (none, paths))) = none
accept count (some (f, (some pat, paths))) =
    if count paths == 0
    then none
    else some (record { flags = f; pat = pat; paths = paths; multi = f.r || ltb 1 (count paths) })

-- The number of words.
abbrev pub count_words : List Bytes → ℕ
count_words [] = 0
count_words (a ∷ argv) = suc (count_words argv)

-- `main` of c/grep.c up to `prep_pattern`, and `main` of c/grep_std.c up to the loop over `paths`.
unfoldable pub grep_setup : List Bytes → Option (Setup ℕ)
grep_setup argv = accept (λ n. n) (parse classify argv no_flags false (none, 0))

unfoldable pub std_setup : List Bytes → Option (Setup (List Bytes))
std_setup argv = accept count_words (parse collect argv no_flags false (none, []))

-- c/grep.c, pass 2: the words that follow the pattern are visited.
unfoldable pub pass2 {ℓ} : {W : Type ℓ} → (Bytes → W → W) → List Bytes → Bool → Bool → W → W
pass2 visit [] no_more pat_seen w = w
pass2 visit (a ∷ argv) no_more pat_seen w = elim (not no_more && is_option a) [
  | true ↦ pass2 visit argv (no_more || is_terminator a) pat_seen w
  | false ↦ elim pat_seen [
    | false ↦ pass2 visit argv no_more true w
    | true ↦ pass2 visit argv no_more true (visit a w)
  ]
]

-- `main` at its end.
unfoldable pub grep_status : Bool → Bool → ℕ
grep_status err matched = if err then 2 else if matched then 0 else 1
