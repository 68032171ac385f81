-- ===== src/Threads/Ledger.antt =====
-- What some threads owe together, as tallies: a predicate says what each of them owes.
use asmgrep.Base.{ℕ, ◌+◌, ◌≡◌, refl, Bool, List, [], ◌∷◌, ◌++◌, arith, Bytes}

-- How many lines satisfy a test.
abbrev pub Tally : Type 0
Tally = (Bytes → Bool) → ℕ

module _ {X : Type 0} where
  abbrev pub Owe : (X → Tally → Type 0) → List X → Tally → Type 0
  Owe O [] f = (p : Bytes → Bool) → f p ≡ 0
  Owe O (x ∷ xs) f =
      (g : Tally) × (rest : Tally) × O x g
      × Owe O xs rest
      × ((p : Bytes → Bool) → f p ≡ g p + rest p)

  Owe-later :
      (O O' : X → Tally → Type 0) (xs : List X) (f : Tally)
      → ((x : X) (g : Tally) → O x g → O' x g)
      → Owe O xs f
      → Owe O' xs f
  Owe-later O O' [] f later o = o
  Owe-later O O' (x ∷ xs) f later (g, rest, o, os, tally) =
      (g, rest, later x g o, Owe-later O O' xs rest later os, tally)

  -- One thread among the others, and what they owe when it owes something else.
  pub Owe-pick :
      (O : X → Tally → Type 0) (before after : List X) (x : X) (f : Tally)
      → Owe O (before ++ x ∷ after) f
      → (g : Tally) × (rest : Tally) × O x g
        × ((p : Bytes → Bool) → f p ≡ g p + rest p)
        × ((O' : X → Tally → Type 0) (x' : X) (g' : Tally)
            → ((y : X) (k : Tally) → O y k → O' y k)
            → O' x' g'
            → Owe O' (before ++ x' ∷ after) (λ p. g' p + rest p))
  Owe-pick O [] after x f (g, rest, o, os, tally) = (
    g,
    rest,
    o,
    tally,
    λ O' x' g' later o'. (g', rest, o', Owe-later O O' after rest later os, λ p. refl),
  )
  Owe-pick O (y ∷ before) after x f (g, rest, o, os, tally) =
      let (g1, rest1, o1, tally1, back) = Owe-pick O before after x rest os in
      (
        g1,
        λ p. g p + rest1 p,
        o1,
        λ p. omega (arith, tally p, tally1 p),
        λ O' x' g' later o'.
            (g, λ p. g' p + rest1 p, later y g o, back O' x' g' later o', λ p. omega arith),
      )
