-- ===== src/Cpp/CommandLine.antt =====
-- The programs of cpp/ read a command line as c/grep_std.c does.
use asmgrep.Base.{
  suc, ◌≡◌, inl, inr, refl, ap, sym, ◌∙◌, Bool, true, false, not, ◌&&◌, Option, none, some, List,
  [], ◌∷◌, arith, leb, ◌==◌, Bool-cases, Bytes, length, drop,
}
use asmgrep.Args.{
  Flags, no_flags, letters, collect, is_option, is_terminator, parse, accept, count_words,
  std_setup,
}
use asmgrep.Cpp.Std.{view_is_option, view_is_dashes, view_parse, view_setup}

view_is_option_lem : (a : Bytes) → view_is_option a ≡ is_option a
unfolding view_is_option is_option
view_is_option_lem [] = refl
view_is_option_lem (c ∷ []) = refl
view_is_option_lem (c ∷ d ∷ ds) =
    let two : leb 2 (suc (suc (length ds))) ≡ true = ground arith in rw (two, view_is_option) refl

view_is_dashes_lem : (a : Bytes) → view_is_option a ≡ true → view_is_dashes a ≡ is_terminator a
unfolding view_is_option view_is_dashes is_terminator
view_is_dashes_lem [] e = refl
view_is_dashes_lem (c ∷ []) e = refl
view_is_dashes_lem (c ∷ d ∷ []) e = let dash : (c == b'-') ≡ true = e in rw dash refl
view_is_dashes_lem (c ∷ d ∷ x ∷ xs) e =
    let long : (suc (suc (suc (length xs))) == 2) ≡ false = ground arith in
    rw (long, view_is_dashes) refl

-- The loops over the arguments do the same.
view_parse_lem :
    (argv : List Bytes) (f : Flags) (no_more : Bool) (w : Option Bytes × List Bytes)
    → view_parse argv f no_more w ≡ parse collect argv f no_more w
unfolding view_parse parse
view_parse_lem [] f no_more w = refl
view_parse_lem (a ∷ argv) f no_more w = elim (Bool-cases (not no_more && view_is_option a)) [
  | inr word ↦
      let word' : (not no_more && is_option a) ≡ false =
        ap (λ b. not no_more && b) (sym (view_is_option_lem a)) ∙ word in
      rw (word, view_parse) (rw (word', parse) (view_parse_lem argv f no_more (collect a w)))
  | inl opt ↦
      let opt' : (not no_more && is_option a) ≡ true =
        ap (λ b. not no_more && b) (sym (view_is_option_lem a)) ∙ opt in
      let dashes = view_is_dashes_lem a (and_right (not no_more) (view_is_option a) opt) in
      rw (opt, view_parse)
        (rw (opt', parse)
          (rw dashes (elim (Bool-cases (is_terminator a)) [
            | inl term ↦ rw term (view_parse_lem argv f true w)
            | inr some_letters ↦ rw some_letters (
                by_letters a argv no_more w (letters (drop 1 a) f)
                  (λ f'. view_parse_lem argv f' no_more w))
          ])))
]
  where
    and_right : (b c : Bool) → (b && c) ≡ true → c ≡ true
    and_right true c e = e
    and_right false c e = cc

    by_letters :
        (a : Bytes) (argv : List Bytes) (no_more : Bool) (w : Option Bytes × List Bytes)
        (o : Option Flags)
        → ((f' : Flags) → view_parse argv f' no_more w ≡ parse collect argv f' no_more w)
        → elim o [ none ↦ none | some f' ↦ view_parse argv f' no_more w ]
          ≡ elim o [ none ↦ none | some f' ↦ parse collect argv f' no_more w ]
    by_letters a argv no_more w none h = refl
    by_letters a argv no_more w (some f') h = h f'

-- For every command line: the programs of cpp/ refuse it, or take flags, pattern and paths from it
-- and set `g_multi`, exactly as c/grep_std.c does.
pub view_setup-std_setup : (argv : List Bytes) → view_setup argv ≡ std_setup argv
unfolding view_setup std_setup
view_setup-std_setup argv = ap (accept count_words) (view_parse_lem argv no_flags false (none, []))
