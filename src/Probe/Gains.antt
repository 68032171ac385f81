-- ===== src/Probe/Gains.antt =====
-- What the reads of a batch add to the total, in whatever order they complete.
use asmgrep.Base.{ℕ, ◌+◌, ◌≡◌, refl, ap, ◌∙◌, Option, none, some, List, [], ◌∷◌, arith}
use asmgrep.Probe.{add_read, Cqe, add_reads}
use asmgrep.Probe.Slots.{Shuffled, nil, cons, swap, trans}

-- What a `read` adds.
abbrev pub gain : Option ℕ → ℕ
gain none = 0
gain (some n) = n

pub add_read-gain : (o : Option ℕ) (total : ℕ) → add_read o total ≡ total + gain o
unfolding add_read
add_read-gain none total = omega arith
add_read-gain (some n) total = ground arith

abbrev pub gains : List (Cqe ℕ) → ℕ
gains [] = 0
gains (c ∷ cqes) = gain c.res + gains cqes

pub add_reads-gains : (cqes : List (Cqe ℕ)) (total : ℕ) → add_reads cqes total ≡ total + gains cqes
unfolding add_reads
add_reads-gains [] total = omega arith
add_reads-gains (c ∷ cqes) total =
    omega (arith, add_reads-gains cqes (add_read c.res total), add_read-gain c.res total)

pub gains-Shuffled : {xs ys : List (Cqe ℕ)} → Shuffled xs ys → gains xs ≡ gains ys
gains-Shuffled nil = refl
gains-Shuffled (cons {a} perm) = ap (λ n. gain a.res + n) (gains-Shuffled perm)
gains-Shuffled (swap {a} {b} {xs}) = omega arith
gains-Shuffled (trans x y) = gains-Shuffled x ∙ gains-Shuffled y
