-- ===== src/Lines/Split.antt =====
-- Slices, and the lines of a text one by one.
use asmgrep.Base.{
  ℕ, zero, suc, ◌+◌, ◌-◌, ◌≤◌, ◌<◌, ◌≡◌, refl, ap, ◌∙◌, sym, false, List, [], ◌∷◌, arith, ◌==◌,
  Bytes, length, take, drop, at, get_or-drop, length-take, length-drop,
}
use asmgrep.Output.{newline}
use asmgrep.Lines.{onto_first, lines_of, slice, NoNewline}

pub take-eq_self : (n : ℕ) (xs : Bytes) → length xs ≤ n → take n xs ≡ xs
take-eq_self zero [] h = refl
take-eq_self (suc n) [] h = refl
take-eq_self zero (x ∷ xs) h = absurd (omega arith)
take-eq_self (suc n) (x ∷ xs) h = ap (◌∷◌ x) (take-eq_self n xs (omega arith))

pub drop-eq-nil {ℓ} : {A : Type ℓ} → (n : ℕ) (xs : List A) → length xs ≤ n → drop n xs ≡ []
drop-eq-nil zero [] h = refl
drop-eq-nil zero (x ∷ xs) h = absurd (omega arith)
drop-eq-nil (suc n) [] h = refl
drop-eq-nil (suc n) (x ∷ xs) h = drop-eq-nil n xs (omega arith)

pub drop-drop {ℓ} : {A : Type ℓ} → (a b : ℕ) (xs : List A) → drop b (drop a xs) ≡ drop (a + b) xs
drop-drop zero b xs = ap (λ n. drop n xs) (omega arith)
drop-drop (suc a) b [] =
    drop-eq-nil b [] (omega arith) ∙ sym (drop-eq-nil (suc a + b) [] (omega arith))
drop-drop (suc a) b (x ∷ xs) =
    drop-drop a b xs
    ∙ ap (λ n. drop n (x ∷ xs)) (let e : suc (a + b) ≡ suc a + b = omega arith in e)

get_or-take : (n i : ℕ) (xs : Bytes) → i < n → at (take n xs) i ≡ at xs i
get_or-take zero i xs h = absurd (omega arith)
get_or-take (suc n) i [] h = refl
get_or-take (suc n) zero (x ∷ xs) h = refl
get_or-take (suc n) (suc i) (x ∷ xs) h = get_or-take n i xs (omega arith)

pub at-slice : (m : Bytes) (a b i : ℕ) → i < b - a → at (slice m a b) i ≡ at m (a + i)
at-slice m a b i h = get_or-take (b - a) i (drop a m) h ∙ get_or-drop a i m 0

pub length-slice : (m : Bytes) (a b : ℕ) → b ≤ length m → length (slice m a b) ≡ b - a
length-slice m a b h = omega (arith, length-take (b - a) (drop a m), length-drop a m)

-- The first line of a text, up to its newline.
pub lines_of-newline :
    (n : ℕ) (l : Bytes)
    → n < length l
    → NoNewline l 0 n
    → at l n ≡ newline
    → lines_of l ≡ take n l ∷ lines_of (drop (suc n) l)
unfolding lines_of onto_first
lines_of-newline n [] lt clean nl = absurd (omega arith)
lines_of-newline zero (x ∷ l) lt clean nl = rw nl
lines_of-newline (suc n) (x ∷ l) lt clean nl =
    let e : (x == newline) ≡ false = ground (arith, clean 0 (omega arith) (omega arith)) in
    rw (
      e,
      lines_of-newline n l (omega arith) (λ i lo up. clean (suc i) (omega arith) (omega arith)) nl,
    )

-- A text without a newline.
pub lines_of-last : (l : Bytes) → 0 < length l → NoNewline l 0 (length l) → lines_of l ≡ l ∷ []
unfolding lines_of onto_first
lines_of-last [] lt clean = absurd (omega arith)
lines_of-last (x ∷ []) lt clean =
    let e : (x == newline) ≡ false = ground (arith, clean 0 (omega arith) (omega arith)) in rw e
lines_of-last (x ∷ y ∷ l) lt clean =
    let e : (x == newline) ≡ false = ground (arith, clean 0 (omega arith) (omega arith)) in
    rw (
      e,
      lines_of-last (y ∷ l) (omega arith) (λ i lo up. clean (suc i) (omega arith) (omega arith)),
    )
