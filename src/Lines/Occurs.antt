-- ===== src/Lines/Occurs.antt =====
-- What `starts` and `contains` decide: that the pattern stands at an index.
use asmgrep.Base.{
  ℕ, zero, suc, ◌+◌, ◌≤◌, ◌≡◌, inl, inr, refl, ap, ◌∙◌, true, [], ◌∷◌, arith, ◌==◌, ==_iff,
  Bool-cases, Bytes, length, at,
}
use asmgrep.Libc.{Same, Same-cons, Same-head, Same-tail}
use asmgrep.Lines.{starts, contains}

-- The pattern `cs` stands in the text at index `i`, its bytes taken through `f`.
abbrev pub Occurs : (ℕ → ℕ) → Bytes → Bytes → ℕ → Type 0
Occurs f cs m i = (i + length cs ≤ length m) × Same f m i cs

module _ (f : ℕ → ℕ) where
  Same-shift : (x : ℕ) (m cs : Bytes) (i : ℕ) → Same f (x ∷ m) (suc i) cs → Same f m i cs
  Same-shift x m cs i h k lt =
      ap (λ j. f (at (x ∷ m) j)) (let e : suc (i + k) ≡ suc i + k = omega arith in e) ∙ h k lt

  Same-unshift : (x : ℕ) (m cs : Bytes) (i : ℕ) → Same f m i cs → Same f (x ∷ m) (suc i) cs
  Same-unshift x m cs i h k lt =
      ap (λ j. f (at (x ∷ m) j)) (let e : suc i + k ≡ suc (i + k) = omega arith in e) ∙ h k lt

  starts-Occurs : (cs text : Bytes) → starts f cs text ≡ true → Occurs f cs text 0
  unfolding starts
  starts-Occurs [] text h = (omega arith, λ k lt. absurd (omega arith))
  starts-Occurs (c ∷ cs) [] h = cc
  starts-Occurs (c ∷ cs) (x ∷ text) h =
      let (first, rest) : ((f x == c) ≡ true) × (starts f cs text ≡ true) = ground arith in
      let ih = starts-Occurs cs text rest in
      (
        omega (arith, ih.0),
        Same-cons f (x ∷ text) 0 c cs ((==_iff (f x) c).0 first) (Same-unshift x text cs 0 ih.1),
      )

  Occurs-starts : (cs text : Bytes) → Occurs f cs text 0 → starts f cs text ≡ true
  unfolding starts
  Occurs-starts [] text h = refl
  Occurs-starts (c ∷ cs) [] h = absurd (omega (arith, h.0))
  Occurs-starts (c ∷ cs) (x ∷ text) h =
      let first : f x ≡ c = Same-head f (x ∷ text) 0 c cs h.1 in
      let rest = Same-tail f (x ∷ text) 0 c cs h.1 in
      let ih = Occurs-starts cs text (omega (arith, h.0), Same-shift x text cs 0 rest) in
      ground (arith, ih)

  pub contains-Occurs : (cs text : Bytes) → contains f cs text ≡ true → (i : ℕ) × Occurs f cs text i
  unfolding contains
  contains-Occurs cs [] h = (0, starts-Occurs cs [] h)
  contains-Occurs cs (x ∷ text) h = elim (Bool-cases (starts f cs (x ∷ text))) [
    | inl e ↦ (0, starts-Occurs cs (x ∷ text) e)
    | inr e ↦
        let (i, (fits, same)) = contains-Occurs cs text (rw e at h) in
        (suc i, (omega arith, Same-unshift x text cs i same))
  ]

  pub Occurs-contains : (cs text : Bytes) (i : ℕ) → Occurs f cs text i → contains f cs text ≡ true
  unfolding contains
  Occurs-contains cs [] zero h = Occurs-starts cs [] h
  Occurs-contains cs [] (suc i) h = absurd (omega (arith, h.0))
  Occurs-contains cs (x ∷ text) zero h = rw (Occurs-starts cs (x ∷ text) h)
  Occurs-contains cs (x ∷ text) (suc i) h =
      let ih = Occurs-contains cs text i (omega (arith, h.0), Same-shift x text cs i h.1) in
      ground (arith, ih)
