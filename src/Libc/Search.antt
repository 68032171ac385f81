-- ===== src/Libc/Search.antt =====
-- `memchr`, `memrchr` and `memcmp`.
use asmgrep.Base.{
  ℕ, zero, suc, ◌+◌, ◌≤◌, ◌<◌, ◌≡◌, refl, ap, ◌∙◌, ◌↔◌, inl, inr, Bool, true, false, Option, none,
  some, [], ◌∷◌, arith, ◌==◌, ==_iff, ==→ne, Bool-cases, if◌then◌else◌, Bytes, length, Outcome, ok,
  ◌>>=◌, Returns, Returns-mono, at, load, load_in,
}
use asmgrep.Libc.Least.{First, Last, First-from, Last-from}

-- The first of the `n` bytes from `p` on that equals `c`.
unfoldable pub memchr : Bytes → ℕ → ℕ → ℕ → Outcome (Option ℕ)
memchr m p c zero = ok none
memchr m p c (suc n) = do
  x ← load m p
  let rest = memchr m (p + 1) c n
  if x == c then ok (some p) else rest

-- The last of the `n` bytes from `p` on that equals `c`.
unfoldable pub memrchr : Bytes → ℕ → ℕ → ℕ → Outcome (Option ℕ)
memrchr m p c zero = ok none
memrchr m p c (suc n) = do
  x ← load m (p + n)
  let rest = memrchr m p c n
  if x == c then ok (some (p + n)) else rest

-- Whether the bytes from `p` on are those of the second object (the result of `memcmp` is 0).
unfoldable pub memcmp_eq : Bytes → ℕ → Bytes → Outcome Bool
memcmp_eq m p [] = ok true
memcmp_eq m p (c ∷ cs) = do
  x ← load m p
  let rest = memcmp_eq m (p + 1) cs
  if x == c then rest else ok false

module _ (m : Bytes) (c : ℕ) where
  pub memchr-First :
      (p n hi : ℕ)
      → p + n ≡ hi
      → hi ≤ length m
      → Returns (memchr m p c n) (First (λ i. at m i ≡ c) p hi)
  unfolding memchr
  memchr-First p zero hi e h = λ i lo up. absurd (omega arith)
  memchr-First p (suc n) hi e h = rw (load_in m p (omega arith)) (elim (Bool-cases (at m p == c)) [
    | inl hit ↦
        rw hit
          (omega arith, omega arith, (==_iff (at m p) c).0 hit, λ i lo up. absurd (omega arith))
    | inr miss ↦ rw miss (
        Returns-mono (memchr m (p + 1) c n) _ _ (memchr-First (p + 1) n hi (omega arith) h)
          (λ r found.
            First-from _ p (p + 1) hi r (omega arith)
              (λ i lo up same. ==→ne _ _ miss (ap (at m) (omega arith) ∙ same)) found))
  ])

  pub memrchr-Last :
      (p n hi : ℕ)
      → p + n ≡ hi
      → hi ≤ length m
      → Returns (memrchr m p c n) (Last (λ i. at m i ≡ c) p hi)
  unfolding memrchr
  memrchr-Last p zero hi e h = λ i lo up. absurd (omega arith)
  memrchr-Last p (suc n) hi e h =
      rw (load_in m (p + n) (omega arith)) (elim (Bool-cases (at m (p + n) == c)) [
        | inl hit ↦ rw hit (
          omega arith,
          omega arith,
          (==_iff (at m (p + n)) c).0 hit,
          λ i lo up. absurd (omega arith),
        )
        | inr miss ↦ rw miss (
            Returns-mono (memrchr m p c n) _ _ (memrchr-Last p n (p + n) refl (omega arith))
              (λ r found.
                Last-from _ p (p + n) hi r (omega arith)
                  (λ i lo up same. ==→ne _ _ miss (ap (at m) (omega arith) ∙ same)) found))
      ])

-- The bytes of `m` from `p` on, each taken through `f`, are those of `cs`.
abbrev pub Same : (ℕ → ℕ) → Bytes → ℕ → Bytes → Type 0
Same f m p cs = (k : ℕ) → k < length cs → f (at m (p + k)) ≡ at cs k

pub Same-cons :
    (f : ℕ → ℕ) (m : Bytes) (p c : ℕ) (cs : Bytes)
    → f (at m p) ≡ c
    → Same f m (p + 1) cs
    → Same f m p (c ∷ cs)
Same-cons f m p c cs e h zero lt = ap (λ i. f (at m i)) (omega arith) ∙ e
Same-cons f m p c cs e h (suc k) lt = ap (λ i. f (at m i)) (omega arith) ∙ h k (omega arith)

pub Same-head :
    (f : ℕ → ℕ) (m : Bytes) (p c : ℕ) (cs : Bytes) → Same f m p (c ∷ cs) → f (at m p) ≡ c
Same-head f m p c cs h = ap (λ i. f (at m i)) (omega arith) ∙ h 0 (omega arith)

pub Same-tail :
    (f : ℕ → ℕ) (m : Bytes) (p c : ℕ) (cs : Bytes) → Same f m p (c ∷ cs) → Same f m (p + 1) cs
Same-tail f m p c cs h k lt = ap (λ i. f (at m i)) (omega arith) ∙ h (suc k) (omega arith)

pub memcmp_eq-Same :
    (m : Bytes) (p : ℕ) (cs : Bytes)
    → p + length cs ≤ length m
    → Returns (memcmp_eq m p cs) (λ b. (b ≡ true) ↔ Same (λ x. x) m p cs)
unfolding memcmp_eq
memcmp_eq-Same m p [] h = (λ _ k lt. absurd (omega arith), λ _. refl)
memcmp_eq-Same m p (c ∷ cs) h = rw (load_in m p (omega arith)) (elim (Bool-cases (at m p == c)) [
  | inl hit ↦ rw hit (
      Returns-mono (memcmp_eq m (p + 1) cs) _ _ (memcmp_eq-Same m (p + 1) cs (omega arith))
        (λ b same. (
          λ e. Same-cons (λ x. x) m p c cs ((==_iff (at m p) c).0 hit) (same.0 e),
          λ all. same.1 (Same-tail (λ x. x) m p c cs all),
        )))
  | inr miss ↦ rw miss (λ e. cc, λ all. absurd (==→ne _ _ miss (Same-head (λ x. x) m p c cs all)))
])
