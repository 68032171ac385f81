-- ===== src/Lines/Filter.antt =====
-- For a pattern without newlines the selected lines are the lines that hold the pattern.
use mathlib.Core.Path.{subst}
use mathlib.Core.Path.{ap₂}
use mathlib.Core.Bool.{false≢true}
use native.Mathlib.Decide.{dec_lt, dec_le}
use native.Mathlib.Nat.{le_refl}
use asmgrep.Base.{
  ℕ, zero, suc, ◌+◌, ◌-◌, ◌≤◌, ◌<◌, ◌≡◌, ◌≢◌, inl, inr, refl, ap, ◌∙◌, sym, true, false, List, [],
  ◌∷◌, arith, Bool-cases, Bytes, length, drop, at, get_or-drop, length-drop, Returns-inv,
}
use asmgrep.Libc.{memchr-First, memchr}
use asmgrep.Output.{newline}
use asmgrep.Lines.{
  lines_of, contains, keep, grep_lines, slice, AtStart, IsLine, Selected, done, hit,
}
use asmgrep.Lines.Occurs.{Occurs, contains-Occurs, Occurs-contains}
use asmgrep.Lines.Split.{
  drop-drop, drop-eq-nil, take-eq_self, at-slice, length-slice, lines_of-newline, lines_of-last,
}
use asmgrep.Lines.Slice.{or_end, or_end-to, or_end-stop}
use asmgrep.Lines.Unique.{IsLine-unique, Selected-cases}

-- From the start of a line on, the first line and the others.
lines_of-line :
    (m : Bytes) (p e : ℕ)
    → p < length m
    → IsLine m p p e
    → lines_of (drop p m) ≡ slice m p e ∷ lines_of (drop (e + 1) m)
unfolding lines_of
lines_of-line m p e lt line = elim (dec_lt e (length m)) [
  | yes inner ↦
      lines_of-newline (e - p) (drop p m) (omega (arith, length-drop p m, line.to))
        (λ i lo up.
          λ q. line.one_line (p + i) (omega arith) (omega arith) (sym (get_or-drop p i m 0) ∙ q))
        (get_or-drop p (e - p) m 0 ∙ ap (at m) (omega (arith, line.to)) ∙ ended inner)
      ∙ ap (λ r. slice m p e ∷ lines_of r)
          (drop-drop p (suc (e - p)) m ∙ ap (λ n. drop n m) (omega (arith, line.to)))
  | no outer ↦
      lines_of-last (drop p m) (omega (arith, length-drop p m)) (λ i lo up q.
        line.one_line (p + i) (omega arith) (omega (arith, length-drop p m, line.inside))
          (sym (get_or-drop p i m 0) ∙ q))
      ∙ ap₂ ◌∷◌ (sym (take-eq_self (e - p) (drop p m) (omega (arith, length-drop p m))))
          (sym (ap lines_of (drop-eq-nil (e + 1) m (omega arith))))
]
  where
    ended : e < length m → at m e ≡ newline
    ended inner = elim line.stop [ inl q ↦ absurd (omega arith) | inr q ↦ q ]

-- The line that starts at an index of the text.
IsLine-at : (m : Bytes) (p : ℕ) → p < length m → AtStart m p → (e : ℕ) × IsLine m p p e
IsLine-at m p lt start =
    let (nl, _, first) =
      Returns-inv (memchr m p newline (length m - p)) _
        (memchr-First m newline p (length m - p) (length m) (omega arith) (le_refl _)) in
    let (to, within, right) = or_end-to m p lt nl first in
    (
      or_end m nl,
      record {
        from = le_refl p;
        to = to;
        inside = within;
        start = start;
        stop = or_end-stop m p lt nl first;
        one_line = right;
      },
    )

module _ (f : ℕ → ℕ) (cs m : Bytes) (plain : (k : ℕ) → k < length cs → at cs k ≢ newline)
    (kept : f newline ≡ newline) where
  -- A match does not go over the end of a line.
  Occurs-within : (p e i : ℕ) → IsLine m p p e → i ≤ e → Occurs f cs m i → i + length cs ≤ e
  Occurs-within p e i line le occ = elim (dec_le (i + length cs) e) [
    | yes within ↦ within
    | no over ↦ elim line.stop [
      | inl q ↦ absurd (omega (arith, occ.0))
      | inr nl ↦
          let there : i + (e - i) ≡ e = omega arith in
          absurd (
            plain (e - i) (omega arith)
              (sym (occ.1 (e - i) (omega arith)) ∙ ap (λ j. f (at m j)) there ∙ ap f nl ∙ kept))
    ]
  ]

  Occurs-slice :
      (p e i : ℕ)
      → IsLine m p p e
      → p ≤ i
      → i ≤ e
      → Occurs f cs m i
      → contains f cs (slice m p e) ≡ true
  Occurs-slice p e i line lo up occ =
      let within = Occurs-within p e i line up occ in
      Occurs-contains f cs (slice m p e) (i - p) (
        omega (arith, length-slice m p e line.inside, line.to),
        λ k lt.
            ap f (at-slice m p e (i - p + k) (omega arith) ∙ ap (at m) (omega arith)) ∙ occ.1 k lt,
      )

  slice-Occurs :
      (p e : ℕ)
      → IsLine m p p e
      → contains f cs (slice m p e) ≡ true
      → (i : ℕ) × (p ≤ i) × (i ≤ e) × Occurs f cs m i
  slice-Occurs p e line h =
      let (j, occ) = contains-Occurs f cs (slice m p e) h in
      let len = length-slice m p e line.inside in
      (
        p + j,
        omega arith,
        omega (arith, occ.0, len, line.to),
        (
          omega (arith, occ.0, len, line.to, line.inside),
          λ k lt.
              ap (λ i. f (at m i)) (let e' : p + j + k ≡ p + (j + k) = omega arith in e')
              ∙ ap f (sym (at-slice m p e (j + k) (omega (arith, occ.0, len))))
              ∙ occ.1 k lt,
        ),
      )

  slice-found :
      (p e : ℕ)
      → p < length m
      → IsLine m p p e
      → contains f cs (slice m p e) ≡ true
      → (i : ℕ) × (p ≤ i) × (i ≤ e) × (i < length m) × Occurs f cs m i
  slice-found p e inside line h =
      let (i, lo, up, occ) = slice-Occurs p e line h in
      elim (dec_lt i (length m)) [
        | yes lt ↦ (i, lo, up, lt, occ)
        | no past ↦ (
          p,
          line.from,
          line.to,
          inside,
          (omega (arith, occ.0), λ k lt. absurd (omega (arith, occ.0))),
        )
      ]

  -- The line at `p` holds the pattern: it is the first one selected.
  Selected-hit :
      {p e : ℕ} {out : List Bytes}
      → p < length m
      → IsLine m p p e
      → contains f cs (slice m p e) ≡ true
      → Selected (Occurs f cs m) m p out
      → (rest : List Bytes) × (out ≡ slice m p e ∷ rest) × Selected (Occurs f cs m) m (e + 1) rest
  Selected-hit {p} {e} {out} lt line h sel =
      let (i, lo, up, within, occ) = slice-found p e lt line h in
      elim (Selected-cases (Occurs f cs m) m sel) [
        | inl (none_left, _) ↦ absurd (none_left i lo within occ)
        | inr (s, ls, le, rest, first, line', sel', out_is) ↦
            let early : s ≤ i = elim (dec_lt i s) [
              | yes q ↦ absurd (first.3 i lo q occ)
              | no q ↦ omega arith
            ] in
            let here : IsLine m p s e = record {
              from = first.0;
              to = omega arith;
              inside = line.inside;
              start = line.start;
              stop = line.stop;
              one_line = line.one_line;
            } in
            let (same_ls, same_le) = IsLine-unique m s ls le p e line' here in
            (
              rest,
              out_is ∙ ap₂ (λ a b. slice m a b ∷ rest) same_ls same_le,
              subst (λ x. Selected (Occurs f cs m) m (x + 1) rest) same_le sel',
            )
      ]

  -- The line at `p` does not hold it: the search can go on behind it.
  Selected-skip :
      {p e : ℕ} {out : List Bytes}
      → IsLine m p p e
      → contains f cs (slice m p e) ≡ false
      → Selected (Occurs f cs m) m p out
      → Selected (Occurs f cs m) m (e + 1) out
  Selected-skip {p} {e} {out} line h sel = elim (Selected-cases (Occurs f cs m) m sel) [
    | inl (none_left, out_is) ↦
        rw out_is (done (λ i lo up. none_left i (omega (arith, line.to)) up))
    | inr (s, ls, le, rest, first, line', sel', out_is) ↦
        let late : e < s = elim (dec_lt e s) [
          | yes q ↦ q
          | no q ↦ absurd (absent s first.0 (omega arith) first.2)
        ] in
        rw out_is (
          hit s ls le
            (omega arith, first.1, first.2, λ i lo up. first.3 i (omega (arith, line.to)) up) line'
            sel')
  ]
    where
      absent : (i : ℕ) → p ≤ i → i ≤ e → ¬ Occurs f cs m i
      absent i lo up occ = false≢true (sym h ∙ Occurs-slice p e i line lo up occ)

  past_end : {p : ℕ} {out : List Bytes} → length m ≤ p → Selected (Occurs f cs m) m p out → out ≡ []
  past_end {p} le sel = elim (Selected-cases (Occurs f cs m) m sel) [
    | inl (_, out_is) ↦ out_is
    | inr (s, ls, le', rest, first, line', sel', out_is) ↦ absurd (omega (arith, first.0, first.1))
  ]

  past_kept :
      (p : ℕ) {out : List Bytes}
      → length m ≤ p
      → Selected (Occurs f cs m) m p out
      → out ≡ keep (contains f cs) (lines_of (drop p m))
  unfolding keep lines_of
  past_kept p le sel =
      past_end le sel ∙ sym (ap (λ l. keep (contains f cs) (lines_of l)) (drop-eq-nil p m le))

  next_start : (p e : ℕ) → IsLine m p p e → e + 1 < length m → AtStart m (e + 1)
  next_start p e line inner = elim line.stop [
    | inl q ↦ absurd (omega arith)
    | inr nl ↦ inr (ap (at m) (omega arith) ∙ nl)
  ]

  kept_lines :
      (fuel p : ℕ) {out : List Bytes}
      → length m < p + fuel
      → (p < length m → AtStart m p)
      → Selected (Occurs f cs m) m p out
      → out ≡ keep (contains f cs) (lines_of (drop p m))
  unfolding keep
  kept_lines zero p enough start sel = past_kept p (omega arith) sel
  kept_lines (suc fuel) p enough start sel = elim (dec_lt p (length m)) [
    | no past ↦ past_kept p (omega arith) sel
    | yes lt ↦
        let (e, line) = IsLine-at m p lt (start lt) in
        let more = λ (out' : List Bytes). λ (sel' : Selected (Occurs f cs m) m (e + 1) out').
          kept_lines fuel (e + 1) (omega (arith, line.to)) (λ inner. next_start p e line inner)
            sel' in
        rw (lines_of-line m p e lt line) (elim (Bool-cases (contains f cs (slice m p e))) [
          | inl found ↦
              let (rest, out_is, sel') = Selected-hit lt line found sel in
              rw found (out_is ∙ ap (λ r. slice m p e ∷ r) (more rest sel'))
          | inr absent ↦ rw absent (more _ (Selected-skip line absent sel))
        ])
  ]

-- From the start of the text on, the selected lines are the lines that hold the pattern.
pub Selected-grep_lines :
    (f : ℕ → ℕ) (cs m : Bytes) {out : List Bytes}
    → ((k : ℕ) → k < length cs → at cs k ≢ newline)
    → f newline ≡ newline
    → Selected (Occurs f cs m) m 0 out
    → out ≡ grep_lines f cs m
unfolding grep_lines
Selected-grep_lines f cs m plain kept sel =
    kept_lines f cs m plain kept (length m + 1) 0 (omega arith) (λ _. inl refl) sel
