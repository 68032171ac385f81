-- ===== src/Lines/Slice.antt =====
-- Lines as ranges of indices.
use asmgrep.Base.{
  ℕ, ◌+◌, ◌≤◌, ◌<◌, ◌≡◌, ◌⊎◌, inl, inr, refl, ap, ◌∙◌, none, some, Option, arith, Bytes, length, at,
}
use native.Mathlib.Decide.{dec_lt}
use asmgrep.Libc.{First, Last}
use asmgrep.Output.{newline}
use asmgrep.Lines.{NoNewline, AtStart, IsLine}

-- A pointer, or the end of the text where it is NULL.
unfoldable pub or_end : Bytes → Option ℕ → ℕ
or_end m none = length m
or_end m (some nl) = nl

-- The index behind a newline, or the start of the text where there is none.
unfoldable pub behind : Option ℕ → ℕ
behind none = 0
behind (some nl) = nl + 1

abbrev pub IsNewline : Bytes → ℕ → Type 0
IsNewline m i = at m i ≡ newline

module _ (m : Bytes) (s : ℕ) (inside : s < length m) where
  pub behind-from :
      (before : Option ℕ)
      → Last (IsNewline m) 0 s before
      → (behind before ≤ s) × AtStart m (behind before) × NoNewline m (behind before) s
  unfolding behind
  behind-from none h = (omega arith, inl refl, λ i lo up. h i (omega arith) up)
  behind-from (some j) h =
      (omega (arith, h.1), inr (ap (at m) (omega arith) ∙ h.2), λ i lo up. h.3 i (omega arith) up)

  pub or_end-to :
      (nl : Option ℕ)
      → First (IsNewline m) s (length m) nl
      → (s ≤ or_end m nl) × (or_end m nl ≤ length m) × NoNewline m s (or_end m nl)
  unfolding or_end
  or_end-to none h = (omega arith, omega arith, h)
  or_end-to (some j) h = (h.0, omega (arith, h.1), h.3)

  pub or_end-stop :
      (nl : Option ℕ)
      → First (IsNewline m) s (length m) nl
      → (or_end m nl ≡ length m) ⊎ (at m (or_end m nl) ≡ newline)
  unfolding or_end
  or_end-stop none h = inl refl
  or_end-stop (some j) h = inr h.2

  -- The line around an index, from the newline before it and the newline from it on.
  pub IsLine-around :
      (before nl : Option ℕ)
      → Last (IsNewline m) 0 s before
      → First (IsNewline m) s (length m) nl
      → IsLine m (behind before) s (or_end m nl)
  IsLine-around before nl hb hn =
      let (from, start, left) = behind-from before hb in
      let (to, within, right) = or_end-to nl hn in
      record {
        from = from;
        to = to;
        inside = within;
        start = start;
        stop = or_end-stop nl hn;
        one_line = λ i lo up. elim (dec_lt i s) [
          | yes lt ↦ left i lo lt
          | no ge ↦ right i (omega arith) up
        ];
      }
