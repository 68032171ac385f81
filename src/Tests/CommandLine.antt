-- ===== src/Tests/CommandLine.antt =====
-- Command lines, by evaluation, and the theorems about them at one of these.
use asmgrep.Base.{◌≡◌, refl, true, false, none, some, List, [], ◌∷◌, Bytes, drop}
use asmgrep.Args.{
  is_option, is_terminator, Setup, letters, parse, collect, accept, grep_setup, std_setup, pass2,
}
use asmgrep.Args.Accepted.{reading, counted_option, setup-agrees}
use asmgrep.Args.Words.{operands}
use asmgrep.Args.Reading.{act_all}
use asmgrep.Tests.Runs.{bytes_of}

-- A lone dash is an operand, and so is an option behind `--`.
abbrev words : List Bytes
words = bytes_of "-ri" ∷ bytes_of "-" ∷ bytes_of "--" ∷ bytes_of "-r" ∷ bytes_of "--" ∷ []

abbrev started : Setup (List Bytes)
started = record {
  flags = record { i = true; r = true };
  pat = bytes_of "-";
  paths = bytes_of "-r" ∷ bytes_of "--" ∷ [];
  multi = true;
}

std_words : std_setup words ≡ some started
unfolding std_setup parse is_option is_terminator letters accept collect
std_words = refl

std_unknown : std_setup (bytes_of "-ix" ∷ bytes_of "a" ∷ bytes_of "b" ∷ []) ≡ none
unfolding std_setup parse is_option is_terminator letters accept collect
std_unknown = refl

std_no_path : std_setup (bytes_of "a" ∷ []) ≡ none
unfolding std_setup parse is_option is_terminator letters accept collect
std_no_path = refl

setup-agrees_example :
    (std_setup words ≡ reading words)
    × (grep_setup words ≡ counted_option (reading words))
    × (pass2 ◌∷◌ words false false [] ≡ act_all ◌∷◌ (drop 1 (operands words)) [])
setup-agrees_example = setup-agrees ◌∷◌ words []
