-- ===== src/Std/LineAround.antt =====
-- The loops that go from a match to the ends of its line.
use native.Mathlib.Nat.{le_refl}
use asmgrep.Base.{
  ℕ, zero, suc, ◌+◌, ◌≤◌, ◌≡◌, ◌≢◌, ◌⊎◌, inl, inr, refl, ap, ◌∙◌, arith, ◌==◌, ==_iff, ==→ne,
  Bool-cases, Bytes, length, at, load_in, Returns, Returns-mono,
}
use native.Mathlib.Decide.{dec_lt}
use asmgrep.Output.{newline}
use asmgrep.Lines.{NoNewline, AtStart, IsLine}
use asmgrep.Std.{line_start, line_end}

abbrev pub StartsLine : Bytes → ℕ → ℕ → Type 0
StartsLine text m ls = (ls ≤ m) × AtStart text ls × NoNewline text ls m

abbrev pub EndsLine : Bytes → ℕ → ℕ → Type 0
EndsLine text m le =
    (m ≤ le)
    × (le ≤ length text)
    × NoNewline text m le
    × ((le ≡ length text) ⊎ (at text le ≡ newline))

-- A byte more at the end of a range without newlines, and one more in front.
NoNewline-snoc :
    (text : Bytes) (a b : ℕ) → at text b ≢ newline → NoNewline text a b → NoNewline text a (suc b)
NoNewline-snoc text a b ne clean i lo up = elim (dec_lt i b) [
  | yes lt ↦ clean i lo lt
  | no ge ↦ λ e. ne (ap (at text) (omega arith) ∙ e)
]

NoNewline-cons :
    (text : Bytes) (a b : ℕ) → at text a ≢ newline → NoNewline text (a + 1) b → NoNewline text a b
NoNewline-cons text a b ne clean i lo up = elim (dec_lt a i) [
  | yes lt ↦ clean i (omega arith) up
  | no ge ↦ λ e. ne (ap (at text) (omega arith) ∙ e)
]

pub line_start-StartsLine :
    (text : Bytes) (m : ℕ) → m ≤ length text → Returns (line_start text m) (StartsLine text m)
unfolding line_start
line_start-StartsLine text zero h = (le_refl 0, inl refl, λ i lo up. absurd (omega arith))
line_start-StartsLine text (suc m) h =
    rw (load_in text m (omega arith)) (elim (Bool-cases (at text m == newline)) [
      | inl here ↦ rw here (
        le_refl (suc m),
        inr (ap (at text) (omega arith) ∙ (==_iff _ _).0 here),
        λ i lo up. absurd (omega arith),
      )
      | inr other ↦ rw other (
          Returns-mono (line_start text m) _ _ (line_start-StartsLine text m (omega arith))
            (λ ls (from, start, clean).
              (omega arith, start, NoNewline-snoc text ls m (==→ne _ _ other) clean)))
    ])

pub line_end-EndsLine :
    (text : Bytes) (n m : ℕ) → m + n ≡ length text → Returns (line_end text m n) (EndsLine text m)
unfolding line_end
line_end-EndsLine text zero m e =
    (le_refl m, omega arith, λ i lo up. absurd (omega arith), inl (omega arith))
line_end-EndsLine text (suc n) m e =
    rw (load_in text m (omega arith)) (elim (Bool-cases (at text m == newline)) [
      | inl here ↦
          rw here
            (le_refl m, omega arith, λ i lo up. absurd (omega arith), inr ((==_iff _ _).0 here))
      | inr other ↦ rw other (
          Returns-mono (line_end text (m + 1) n) _ _
            (line_end-EndsLine text n (m + 1) (omega arith))
            (λ le (to, inside, clean, stop).
              (omega arith, inside, NoNewline-cons text m le (==→ne _ _ other) clean, stop)))
    ])

-- Together they are the line of the index.
pub IsLine-between :
    (text : Bytes) (ls m le : ℕ) → StartsLine text m ls → EndsLine text m le → IsLine text ls m le
IsLine-between text ls m le (from, start, left) (to, within, right, stop) = record {
  from = from;
  to = to;
  inside = within;
  start = start;
  stop = stop;
  one_line =
      λ i lo up. elim (dec_lt i m) [ yes lt ↦ left i lo lt | no ge ↦ right i (omega arith) up ];
}
