-- ===== src/Args/Words.antt =====
-- What a command line says, described without a loop: options and operands up to the first `--`,
-- and behind it operands only.
use asmgrep.Base.{
  ℕ, ◌≡◌, refl, ◌∙◌, Bool, true, false, not, ◌&&◌, ◌||◌, List, [], ◌∷◌, ◌++◌, map, arith, ◌==◌,
  flatten, if◌then◌else◌, Bytes, drop,
}
use asmgrep.Lines.{keep}
use asmgrep.Args.{is_option, is_terminator}

abbrev pub is_dashes : Bytes → Bool
is_dashes (c ∷ d ∷ []) = c == b'-' && d == b'-'
is_dashes [] = false
is_dashes (c ∷ []) = false
is_dashes (c ∷ d ∷ e ∷ es) = false

abbrev pub before_dashes : List Bytes → List Bytes
before_dashes [] = []
before_dashes (a ∷ argv) = let rest = before_dashes argv in if is_dashes a then [] else a ∷ rest

abbrev pub behind_dashes : List Bytes → List Bytes
behind_dashes [] = []
behind_dashes (a ∷ argv) = let rest = behind_dashes argv in if is_dashes a then argv else rest

unfoldable pub operands : List Bytes → List Bytes
operands argv = keep (λ a. not (is_option a)) (before_dashes argv) ++ behind_dashes argv

-- The letters of all options.
unfoldable pub option_letters : List Bytes → Bytes
option_letters argv = flatten (map (drop 1) (keep is_option (before_dashes argv)))

abbrev pub has : ℕ → Bytes → Bool
has x [] = false
has x (q ∷ qs) = q == x || has x qs

abbrev pub all_known : Bytes → Bool
all_known [] = true
all_known (q ∷ qs) = (q == b'i' || q == b'r') && all_known qs

is_dashes-parts : (a : Bytes) → is_dashes a ≡ (is_option a && is_terminator a)
unfolding is_option is_terminator
is_dashes-parts [] = refl
is_dashes-parts (c ∷ []) = refl
is_dashes-parts (c ∷ d ∷ []) = refl
is_dashes-parts (c ∷ d ∷ e ∷ es) = ground arith

pub words-nil : (operands [] ≡ []) × (option_letters [] ≡ [])
unfolding keep operands option_letters
words-nil = (refl, refl)

-- A word that is `--`, an option, and an operand.
pub words-dashes :
    (a : Bytes) (argv : List Bytes)
    → is_option a ≡ true
    → is_terminator a ≡ true
    → (operands (a ∷ argv) ≡ argv) × (option_letters (a ∷ argv) ≡ [])
unfolding keep operands option_letters
words-dashes a argv opt term =
    let e : is_dashes a ≡ true = is_dashes-parts a ∙ rw (opt, term) refl in rw e (refl, refl)

pub words-option :
    (a : Bytes) (argv : List Bytes)
    → is_option a ≡ true
    → is_terminator a ≡ false
    → (operands (a ∷ argv) ≡ operands argv)
      × (option_letters (a ∷ argv) ≡ drop 1 a ++ option_letters argv)
unfolding keep operands option_letters
words-option a argv opt term =
    let e : is_dashes a ≡ false = is_dashes-parts a ∙ rw (opt, term) refl in
    rw e (rw opt (refl, refl))

pub words-operand :
    (a : Bytes) (argv : List Bytes)
    → is_option a ≡ false
    → (operands (a ∷ argv) ≡ a ∷ operands argv) × (option_letters (a ∷ argv) ≡ option_letters argv)
unfolding keep operands option_letters
words-operand a argv opt =
    let e : is_dashes a ≡ false = is_dashes-parts a ∙ rw opt refl in rw e (rw opt (refl, refl))
