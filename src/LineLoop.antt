-- ===== src/LineLoop.antt =====
-- The loop that c/grep_std_mt.c and the programs of cpp/ have in `search_file`: from `pos` on find
-- a match, find the ends of its line, print the line, and go on behind it. What finds and prints
-- is a parameter; `text` is the object that holds the `rd` bytes of the file.
pub mod Selects
use asmgrep.Base.{
  ℕ, zero, suc, ◌+◌, Option, none, some, List, [], ◌∷◌, ltb, if◌then◌else◌, Bytes, Outcome, ok,
  out_of_fuel, ◌>>=◌,
}
use asmgrep.Lines.{slice}

-- What is done with a match at index `m`.
unfoldable pub around_match :
    {S : Type 0}
    → (ℕ → Outcome (ℕ × ℕ))
    → (Bytes → S → S)
    → Bytes
    → (ℕ → S → Outcome S)
    → S
    → ℕ
    → Outcome S
around_match ends print text next s m = do
  line ← ends m
  next (line.1 + 1) (print (slice text line.0 line.1) s)

-- `while (pos < rd)`
unfoldable pub line_loop :
    {S : Type 0}
    → (ℕ → Outcome (Option ℕ))
    → (ℕ → Outcome (ℕ × ℕ))
    → (Bytes → S → S)
    → Bytes
    → ℕ
    → ℕ
    → ℕ
    → S
    → Outcome S
line_loop find ends print text rd zero pos s = out_of_fuel
line_loop find ends print text rd (suc f) pos s =
    let round = (do
      h ← find pos
      elim h [
        | none ↦ ok s
        | some m ↦ around_match ends print text (line_loop find ends print text rd f) s m
      ]) in
    if ltb pos rd then round else ok s

-- Lines printed one after the other.
unfoldable pub print_each : {S : Type 0} → (Bytes → S → S) → List Bytes → S → S
print_each print [] s = s
print_each print (line ∷ lines) s = print_each print lines (print line s)
