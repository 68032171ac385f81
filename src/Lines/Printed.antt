-- ===== src/Lines/Printed.antt =====
-- What is printed for some lines, read as a text again.
use asmgrep.Base.{
  ℕ, ◌≡◌, refl, ap, sym, ◌∙◌, inl, inr, Bool, false, List, [], ◌∷◌, ◌++◌, map, append_assoc, ◌==◌,
  Bool-cases, flatten, if◌then◌else◌, All, Bytes,
}
use asmgrep.Output.{newline, colon, line_bytes}
use asmgrep.Lines.{onto_first, lines_of, keep}

All-append : (P : ℕ → Type 0) (xs ys : Bytes) → All P xs → All P ys → All P (xs ++ ys)
All-append P [] ys h k = k
All-append P (x ∷ xs) ys (p, h) k = (p, All-append P xs ys h k)

onto_first-All :
    (P : ℕ → Type 0) (x : ℕ) (lines : List Bytes)
    → P x
    → All (All P) lines
    → All (All P) (onto_first x lines)
unfolding onto_first
onto_first-All P x [] p h = ((p, tt), tt)
onto_first-All P x (line ∷ lines) p (h, hs) = ((p, h), hs)

-- What holds of the bytes of a text, other than the newlines, holds of those of its lines.
pub lines_of-All :
    (P : ℕ → Type 0) (text : Bytes)
    → All (λ x. (x == newline) ≡ false → P x) text
    → All (All P) (lines_of text)
unfolding lines_of
lines_of-All P [] h = tt
lines_of-All P (x ∷ text) (p, h) = elim (Bool-cases (x == newline)) [
  | inl e ↦ rw e (tt, lines_of-All P text h)
  | inr e ↦ rw e (onto_first-All P x (lines_of text) (p e) (lines_of-All P text h))
]

pub keep-All :
    (P : Bytes → Type 0) (p : Bytes → Bool) (lines : List Bytes)
    → All P lines
    → All P (keep p lines)
unfolding keep
keep-All P p [] h = tt
keep-All P p (line ∷ lines) (q, h) = elim (Bool-cases (p line)) [
  | inl e ↦ rw e (q, keep-All P p lines h)
  | inr e ↦ rw e (keep-All P p lines h)
]

pub keep_twice : (p : Bytes → Bool) (lines : List Bytes) → keep p (keep p lines) ≡ keep p lines
unfolding keep
keep_twice p [] = refl
keep_twice p (line ∷ lines) = elim (Bool-cases (p line)) [
  | inl e ↦ rw (e, e) (ap (◌∷◌ line) (keep_twice p lines))
  | inr e ↦ rw e (keep_twice p lines)
]

-- Without newlines in it.
abbrev pub Clean : Bytes → Type 0
Clean l = All (λ x. (x == newline) ≡ false) l

lines_of-ended :
    (line rest : Bytes) → Clean line → lines_of (line ++ newline ∷ rest) ≡ line ∷ lines_of rest
unfolding lines_of onto_first
lines_of-ended [] rest clean = refl
lines_of-ended (x ∷ line) rest (e, clean) = rw (e, lines_of-ended line rest clean) refl

-- The prefix of a line.
abbrev pub named : Bool → Bytes → Bytes
named multi path = if multi then path ++ colon ∷ [] else []

-- Printing lines and splitting what is printed gives the lines back, with their prefixes.
pub lines_of-printed :
    (multi : Bool) (path : Bytes) (lines : List Bytes)
    → Clean (named multi path)
    → All Clean lines
    → lines_of (flatten (map (line_bytes multi path) lines))
      ≡ map (λ line. named multi path ++ line) lines
unfolding lines_of line_bytes
lines_of-printed multi path [] name clean = refl
lines_of-printed multi path (line ∷ lines) name (c, clean) =
    let pre = named multi path in
    let rest = flatten (map (line_bytes multi path) lines) in
    ap lines_of (
      append_assoc pre (line ++ newline ∷ []) rest
      ∙ ap (λ r. pre ++ r) (append_assoc line (newline ∷ []) rest)
      ∙ sym (append_assoc pre line (newline ∷ rest)))
    ∙ lines_of-ended (pre ++ line) rest (All-append _ pre line name c)
    ∙ ap (◌∷◌ (pre ++ line)) (lines_of-printed multi path lines name clean)

-- Without prefixes every byte that is printed is a newline or a byte of a line.
pub printed-All :
    (P : ℕ → Type 0) (path : Bytes) (lines : List Bytes)
    → P newline
    → All (All P) lines
    → All P (flatten (map (line_bytes false path) lines))
unfolding line_bytes
printed-All P path [] nl h = tt
printed-All P path (line ∷ lines) nl (p, h) =
    All-append P (line ++ newline ∷ []) (flatten (map (line_bytes false path) lines))
      (All-append P line (newline ∷ []) p (nl, tt)) (printed-All P path lines nl h)
