-- ===== src/Tests/Search.antt =====
-- The theorems about the pattern and the searches, at concrete inputs.
use asmgrep.Base.{◌<◌, ◌≡◌, ◌↔◌, true, arith, Bytes, length, fault, Returns}
use asmgrep.Pattern.{Pattern, choose, pat_lc_size, prep_pattern}
use asmgrep.Pattern.Prepared.{
  IsPrepared, Chosen, compared, choose-IsPrepared, prep_pattern-Chosen, prep_pattern-overflow,
}
use asmgrep.Match.{fm_single, fm_two}
use asmgrep.Match.Cleared.{Finds}
use asmgrep.Match.Single.{fm_single-Finds}
use asmgrep.Match.Two.{fm_two-Finds}
use asmgrep.Tests.Runs.{bytes_of, log_text}

abbrev needle : Bytes
needle = bytes_of "Error"

abbrev pub prepared : Pattern
prepared = choose true (compared true needle)

prepared-IsPrepared : IsPrepared prepared
prepared-IsPrepared = choose-IsPrepared true needle (omega arith)

prep_pattern-Chosen_example : Returns (prep_pattern needle true) (Chosen true needle)
prep_pattern-Chosen_example = prep_pattern-Chosen needle true (omega arith) (λ _. omega arith)

prep_pattern-overflow_example :
    (prep_pattern needle true ≡ fault) ↔ (true ≡ true) × (pat_lc_size < length needle)
prep_pattern-overflow_example = prep_pattern-overflow needle true

fm_single-Finds_example : Returns (fm_single prepared log_text 6) (Finds prepared log_text 6)
fm_single-Finds_example = fm_single-Finds prepared log_text 6 prepared-IsPrepared (omega arith)

fm_two-Finds_example : Returns (fm_two prepared log_text 6) (Finds prepared log_text 6)
fm_two-Finds_example = fm_two-Finds prepared log_text 6 prepared-IsPrepared (omega arith)
