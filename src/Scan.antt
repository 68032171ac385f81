-- ===== src/Scan.antt =====
-- c/grep.c: `scan`, which prints the lines of one file, and its two loops.
pub mod Selects
pub mod Correct
use asmgrep.Base.{
  ℕ, zero, suc, ◌+◌, ◌-◌, min, Bool, Option, none, some, ltb, ◌==◌, if◌then◌else◌, Bytes, length,
  Outcome, ok, out_of_fuel, ◌>>=◌,
}
use asmgrep.Libc.{memchr, memrchr}
use asmgrep.Pattern.{Pattern}
use asmgrep.Match.{fm_single, fm_two}
use asmgrep.Output.{State, newline, emit}
use asmgrep.Lines.{slice}
use asmgrep.Lines.Slice.{or_end, behind}

abbrev pub bin_peek : ℕ
bin_peek = 65536

-- The choice of `scan` between the two searches.
unfoldable pub find_match : Pattern → Bytes → ℕ → Outcome (Option ℕ)
find_match g m p = if g.single then fm_single g m p else fm_two g m p

-- The loop for an empty pattern, which prints every line.
unfoldable pub every_line : ℕ → Bool → Bytes → Bytes → ℕ → State → Outcome State
every_line zero multi path m p s = out_of_fuel
every_line (suc f) multi path m p s =
    let round = (do
      nl ← memchr m p newline (length m - p)
      let s' = emit multi path (slice m p (or_end m nl)) s
      elim nl [ none ↦ ok s' | some k ↦ every_line f multi path m (k + 1) s' ]) in
    if ltb p (length m) then round else ok s

-- What the loop does with a match that starts at `start`.
unfoldable pub print_match :
    Bool → Bytes → Bytes → (ℕ → State → Outcome State) → State → ℕ → Outcome State
print_match multi path m next s start = do
  before ← memrchr m 0 newline start
  nl ← memchr m start newline (length m - start)
  let le = or_end m nl
  next (le + 1) (emit multi path (slice m (behind before) le) s)

-- The loop for any other pattern.
unfoldable pub match_loop : ℕ → Pattern → Bool → Bytes → Bytes → ℕ → State → Outcome State
match_loop zero g multi path m p s = out_of_fuel
match_loop (suc f) g multi path m p s =
    let round = (do
      found ← find_match g m p
      elim found [
        | none ↦ ok s
        | some start ↦ print_match multi path m (match_loop f g multi path m) s start
      ]) in
    if ltb p (length m) then round else ok s

-- `scan`: a file with a NUL byte near its start is skipped.
unfoldable pub scan : Pattern → Bool → Bytes → Bytes → State → Outcome State
scan g multi path m s = do
  nul ← memchr m 0 0 (min (length m) bin_peek)
  elim nul [
    | some _ ↦ ok s
    | none ↦
        if g.patlen == 0
        then every_line (length m + 1) multi path m 0 s
        else match_loop (length m + 1) g multi path m 0 s
  ]
