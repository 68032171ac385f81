-- ===== src/Mt/Search/Prefix.antt =====
-- Searches that stay within the first `n` bytes of an object see only these bytes.
use mathlib.Core.Path.{ap₂}
use asmgrep.Base.{
  ℕ, zero, suc, ◌+◌, ◌-◌, ◌≤◌, ◌<◌, ◌≡◌, refl, ap, ◌∙◌, inl, inr, Bool, false, Option, none, some,
  [], ◌∷◌, ◌++◌, arith, ltb, ltb→ge, ◌==◌, Bool-cases, if◌then◌else◌, Bytes, length, take, drop,
  get_elem?, Outcome, ok, fault, ◌>>=◌, load,
}
use asmgrep.Libc.{memchr, memcmp_eq}
use asmgrep.Output.{newline}
use asmgrep.Lines.{slice}
use asmgrep.Std.{memmem, line_start, line_end}

get_elem?-take : (n i : ℕ) (m : Bytes) → i < n → get_elem? (take n m) i ≡ get_elem? m i
get_elem?-take zero i m lt = absurd (omega arith)
get_elem?-take (suc n) i [] lt = refl
get_elem?-take (suc n) zero (x ∷ m) lt = refl
get_elem?-take (suc n) (suc i) (x ∷ m) lt = get_elem?-take n i m (omega arith)

load-take : (n i : ℕ) (m : Bytes) → i < n → load (take n m) i ≡ load m i
unfolding load
load-take n i m lt =
    ap (λ (o : Option ℕ). elim o as (λ _. Outcome ℕ) [ none ↦ fault | some x ↦ ok x ])
      (get_elem?-take n i m lt)

module _ (n : ℕ) (m : Bytes) where
  pub memchr-take : (p c k : ℕ) → p + k ≤ n → memchr (take n m) p c k ≡ memchr m p c k
  unfolding memchr
  memchr-take p c zero h = refl
  memchr-take p c (suc k) h =
      ap₂ (λ (x : Outcome ℕ) (r : Outcome (Option ℕ)). x >>= λ b. if b == c then ok (some p) else r)
        (load-take n p m (omega arith)) (memchr-take (p + 1) c k (omega arith))

  memcmp_eq-take :
      (p : ℕ) (cs : Bytes) → p + length cs ≤ n → memcmp_eq (take n m) p cs ≡ memcmp_eq m p cs
  unfolding memcmp_eq
  memcmp_eq-take p [] h = refl
  memcmp_eq-take p (c ∷ cs) h =
      ap₂ (λ (x : Outcome ℕ) (r : Outcome Bool). x >>= λ b. if b == c then r else ok false)
        (load-take n p m (omega arith)) (memcmp_eq-take (p + 1) cs (omega arith))

  pub memmem-take : (k p : ℕ) (cs : Bytes) → p + k ≤ n → memmem (take n m) p k cs ≡ memmem m p k cs
  unfolding memmem
  memmem-take zero p cs h = refl
  memmem-take (suc k) p cs h = elim (Bool-cases (ltb (suc k) (length cs))) [
    | inl short ↦ rw short refl
    | inr fits ↦
        let ge = ltb→ge _ _ fits in
        rw fits (
          ap₂
            (λ (c : Outcome Bool) (r : Outcome (Option ℕ)). c >>= λ b. if b then ok (some p) else r)
            (memcmp_eq-take p cs (omega arith)) (memmem-take k (p + 1) cs (omega arith)))
  ]

  pub line_start-take : (k : ℕ) → k ≤ n → line_start (take n m) k ≡ line_start m k
  unfolding line_start
  line_start-take zero h = refl
  line_start-take (suc k) h =
      ap₂ (λ (x : Outcome ℕ) (r : Outcome ℕ). x >>= λ b. if b == newline then ok (suc k) else r)
        (load-take n k m (omega arith)) (line_start-take k (omega arith))

  pub line_end-take : (k p : ℕ) → p + k ≤ n → line_end (take n m) p k ≡ line_end m p k
  unfolding line_end
  line_end-take zero p h = refl
  line_end-take (suc k) p h =
      ap₂ (λ (x : Outcome ℕ) (r : Outcome ℕ). x >>= λ b. if b == newline then ok p else r)
        (load-take n p m (omega arith)) (line_end-take k (p + 1) (omega arith))

pub take-take : (i j : ℕ) (m : Bytes) → i ≤ j → take i (take j m) ≡ take i m
take-take zero j m h = refl
take-take (suc i) zero m h = absurd (omega arith)
take-take (suc i) (suc j) [] h = refl
take-take (suc i) (suc j) (x ∷ m) h = ap (◌∷◌ x) (take-take i j m (omega arith))

take_nil : (n : ℕ) → ◌≡◌ {A = Bytes} [] (take n [])
take_nil zero = refl
take_nil (suc n) = refl

drop-take : (a n : ℕ) (m : Bytes) → drop a (take n m) ≡ take (n - a) (drop a m)
drop-take zero n m = ap (λ k. take k m) (omega arith)
drop-take (suc a) zero m =
    let e : 0 ≡ zero - suc a = omega arith in ap (λ k. take k (drop (suc a) m)) e
drop-take (suc a) (suc n) [] = take_nil (suc n - suc a)
drop-take (suc a) (suc n) (x ∷ m) =
    let e : n - a ≡ suc n - suc a = omega arith in drop-take a n m ∙ ap (λ k. take k (drop a m)) e

pub slice-take : (n a b : ℕ) (m : Bytes) → b ≤ n → slice (take n m) a b ≡ slice m a b
slice-take n a b m h =
    ap (take (b - a)) (drop-take a n m) ∙ take-take (b - a) (n - a) (drop a m) (omega arith)

pub take-append : (xs ys : Bytes) → take (length xs) (xs ++ ys) ≡ xs
take-append [] ys = refl
take-append (x ∷ xs) ys = ap (◌∷◌ x) (take-append xs ys)
