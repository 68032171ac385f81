-- ===== src/Args/Reading.antt =====
-- What the loops of the programs make of a command line.
use asmgrep.Base.{
  ◌≡◌, refl, ap, ◌∙◌, sym, true, false, ◌||◌, Option, none, some, List, [], ◌∷◌, ◌++◌, ◌==◌,
  Bool-cases, inl, inr, Bytes, drop,
}
use asmgrep.Args.{is_option, is_terminator, Flags, letters, parse, pass2}
use asmgrep.Args.Words.{
  operands, option_letters, words-nil, words-dashes, words-option, words-operand,
}

-- The words handed to `op`, from left to right.
abbrev pub act_all {ℓ} : {W : Type ℓ} → (Bytes → W → W) → List Bytes → W → W
act_all op [] w = w
act_all op (a ∷ argv) w = act_all op argv (op a w)

abbrev then_letters : Option Flags → Bytes → Option Flags
then_letters none qs = none
then_letters (some f) qs = letters qs f

letters-append : (qs rs : Bytes) (f : Flags) → letters (qs ++ rs) f ≡ then_letters (letters qs f) rs
unfolding letters
letters-append [] rs f = refl
letters-append (q ∷ qs) rs f = elim (Bool-cases (q == b'i' || q == b'r')) [
  | inl known ↦ rw known (letters-append qs rs _)
  | inr other ↦ rw other refl
]

abbrev pub and_state {ℓ} : {W : Type ℓ} → W → Option Flags → Option (Flags × W)
and_state w none = none
and_state w (some f) = some (f, w)

module _ {ℓ} {W : Type ℓ} (op : Bytes → W → W) where
  parse-behind :
      (argv : List Bytes) (f : Flags) (w : W) → parse op argv f true w ≡ some (f, act_all op argv w)
  unfolding parse
  parse-behind [] f w = refl
  parse-behind (a ∷ argv) f w = parse-behind argv f (op a w)

  parse-more :
      (argv : List Bytes) (w : W)
      → ((f' : Flags)
          → parse op argv f' false w
            ≡ and_state (act_all op (operands argv) w) (letters (option_letters argv) f'))
      → (o : Option Flags)
      → elim o [ none ↦ none | some f' ↦ parse op argv f' false w ]
        ≡ and_state (act_all op (operands argv) w) (then_letters o (option_letters argv))
  parse-more argv w ih none = refl
  parse-more argv w ih (some f') = ih f'

  -- The loop takes the letters of the options and acts on the operands.
  pub parse-words :
      (argv : List Bytes) (f : Flags) (w : W)
      → parse op argv f false w
        ≡ and_state (act_all op (operands argv) w) (letters (option_letters argv) f)
  unfolding parse letters
  parse-words [] f w = sym (
      ap (λ o. and_state (act_all op o w) (letters (option_letters []) f)) words-nil.0
      ∙ ap (λ l. and_state w (letters l f)) words-nil.1)
  parse-words (a ∷ argv) f w = elim (Bool-cases (is_option a)) [
    | inr no_option ↦
        let (ops, opts) = words-operand a argv no_option in
        rw (no_option, ops, opts, parse) (parse-words argv f (op a w))
    | inl option ↦ elim (Bool-cases (is_terminator a)) [
      | inl dashes ↦
          let (ops, opts) = words-dashes a argv option dashes in
          rw (option, dashes, ops, opts, parse) (parse-behind argv f w)
      | inr other ↦
          let (ops, opts) = words-option a argv option other in
          rw (option, other, ops, opts, letters-append (drop 1 a) (option_letters argv) f, parse)
            (parse-more argv w (λ f'. parse-words argv f' w) (letters (drop 1 a) f))
    ]
  ]

  pass2-seen :
      (argv : List Bytes) (w : W)
      → (pass2 op argv true true w ≡ act_all op argv w)
        × (pass2 op argv false true w ≡ act_all op (operands argv) w)
  unfolding pass2
  pass2-seen [] w = (refl, sym (ap (λ o. act_all op o w) words-nil.0))
  pass2-seen (a ∷ argv) w = (
    (pass2-seen argv (op a w)).0,
    elim (Bool-cases (is_option a)) [
      | inr no_option ↦
          rw (no_option, (words-operand a argv no_option).0, pass2) (pass2-seen argv (op a w)).1
      | inl option ↦ elim (Bool-cases (is_terminator a)) [
        | inl dashes ↦
            rw (option, dashes, (words-dashes a argv option dashes).0, pass2) (pass2-seen argv w).0
        | inr other ↦
            rw (option, other, (words-option a argv option other).0, pass2) (pass2-seen argv w).1
      ]
    ],
  )

  -- The first operand is the pattern, and pass 2 visits the others.
  pub pass2-operands :
      (argv : List Bytes) (w : W)
      → (pass2 op argv true false w ≡ act_all op (drop 1 argv) w)
        × (pass2 op argv false false w ≡ act_all op (drop 1 (operands argv)) w)
  unfolding pass2
  pass2-operands [] w = (refl, sym (ap (λ o. act_all op (drop 1 o) w) words-nil.0))
  pass2-operands (a ∷ argv) w = (
    (pass2-seen argv w).0,
    elim (Bool-cases (is_option a)) [
      | inr no_option ↦
          rw (no_option, (words-operand a argv no_option).0, pass2) (pass2-seen argv w).1
      | inl option ↦ elim (Bool-cases (is_terminator a)) [
        | inl dashes ↦
            rw (option, dashes, (words-dashes a argv option dashes).0, pass2)
              (pass2-operands argv w).0
        | inr other ↦
            rw (option, other, (words-option a argv option other).0, pass2)
              (pass2-operands argv w).1
      ]
    ],
  )
