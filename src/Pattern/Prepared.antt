-- ===== src/Pattern/Prepared.antt =====
-- What the globals hold after `prep_pattern`, and the overflow of `g_pat_lc`.
use native.Mathlib.Decide.{dec_le}
use asmgrep.Base.{
  ℕ, zero, suc, ◌≤◌, ◌<◌, ◌≡◌, ◌↔◌, ◌≢◌, ◌⊎◌, inl, refl, ap, Bool, true, false, [], ◌∷◌, map, arith,
  if◌then◌else◌, ◌==◌, Bytes, length, at, ok, fault, Returns,
}
use asmgrep.Pattern.{
  Pattern, fold, other_case, pat_lc_size, lower_into, pivots, choose, no_pivots, prep_pattern,
  seen_as,
}
use asmgrep.Pattern.Rarest.{IsPivots, pivots-IsPivots}

-- A pattern whose pivots can be searched for.
pub record IsPrepared (g : Pattern) : Type 0 where
  pub sized : g.patlen ≡ length g.cmp
  pub mode : g.folded ≡ g.ci
  pub ordered : g.off_a ≤ g.off_b
  pub inside : g.off_b < length g.cmp
  pub pivot_a : (x : ℕ) → (seen_as g x ≡ at g.cmp g.off_a) ↔ ((x ≡ g.a0) ⊎ (x ≡ g.a1))
  pub pivot_b : (x : ℕ) → (seen_as g x ≡ at g.cmp g.off_b) ↔ ((x ≡ g.b0) ⊎ (x ≡ g.b1))
  pub exact : g.ci ≡ false → g.a1 ≡ g.a0

abbrev pub compared : Bool → Bytes → Bytes
compared ci pat = if ci then map fold pat else pat

pub length-map-fold : (xs : Bytes) → length (map fold xs) ≡ length xs
length-map-fold [] = refl
length-map-fold (x ∷ xs) = ap suc (length-map-fold xs)

pub length-compared : (ci : Bool) (pat : Bytes) → length (compared ci pat) ≡ length pat
length-compared true pat = length-map-fold pat
length-compared false pat = refl

at-map-fold : (xs : Bytes) (k : ℕ) → fold (at (map fold xs) k) ≡ at (map fold xs) k
unfolding fold
at-map-fold [] k = refl
at-map-fold (x ∷ xs) zero = ground arith
at-map-fold (x ∷ xs) (suc k) = at-map-fold xs k

lower_into-fits :
    (room : ℕ) (pat : Bytes) → length pat ≤ room → lower_into room pat ≡ ok (map fold pat)
unfolding lower_into
lower_into-fits zero [] h = refl
lower_into-fits (suc room) [] h = refl
lower_into-fits zero (c ∷ cs) h = absurd (omega arith)
lower_into-fits (suc room) (c ∷ cs) h = rw (lower_into-fits room cs (omega arith))

lower_into-overflows : (room : ℕ) (pat : Bytes) → room < length pat → lower_into room pat ≡ fault
unfolding lower_into
lower_into-overflows room [] h = absurd (omega arith)
lower_into-overflows zero (c ∷ cs) h = refl
lower_into-overflows (suc room) (c ∷ cs) h = rw (lower_into-overflows room cs (omega arith))

-- Of a folded byte and its other case, the bytes that fold to it.
other_case-fold : (c x : ℕ) → fold c ≡ c → (fold x ≡ c) ↔ ((x ≡ c) ⊎ (x ≡ other_case true c))
unfolding fold other_case
other_case-fold c x h = ground arith

seen_as-pivot :
    (ci : Bool) (pat : Bytes) (off x : ℕ)
    → ((if ci then fold x else x) ≡ at (compared ci pat) off)
      ↔ ((x ≡ at (compared ci pat) off) ⊎ (x ≡ other_case ci (at (compared ci pat) off)))
unfolding other_case
seen_as-pivot true pat off x = other_case-fold (at (map fold pat) off) x (at-map-fold pat off)
seen_as-pivot false pat off x = (inl, λ e. ground arith)

pub choose-IsPrepared :
    (ci : Bool) (pat : Bytes) → 0 < length pat → IsPrepared (choose ci (compared ci pat))
unfolding choose other_case
choose-IsPrepared ci pat h =
    let piv = pivots-IsPivots (compared ci pat) (omega (arith, length-compared ci pat)) in
    record {
      sized = refl;
      mode = refl;
      ordered = piv.ordered;
      inside = piv.inside;
      pivot_a = seen_as-pivot ci pat (pivots (compared ci pat)).0;
      pivot_b = seen_as-pivot ci pat (pivots (compared ci pat)).1;
      exact = λ e. rw e;
    }

-- What `prep_pattern` leaves for a pattern that is not empty.
pub record Chosen (ci : Bool) (pat : Bytes) (g : Pattern) : Type 0 where
  pub cmp_is : g.cmp ≡ compared ci pat
  pub ci_is : g.ci ≡ ci
  pub prepared : IsPrepared g
  pub pivots_are : IsPivots g.cmp (g.off_a, g.off_b)

choose-Chosen :
    (ci : Bool) (pat : Bytes) → 0 < length pat → Chosen ci pat (choose ci (compared ci pat))
unfolding choose
choose-Chosen ci pat h = record {
  cmp_is = refl;
  ci_is = refl;
  prepared = choose-IsPrepared ci pat h;
  pivots_are = pivots-IsPivots (compared ci pat) (omega (arith, length-compared ci pat));
}

nonempty_test : (pat : Bytes) → 0 < length pat → (length pat == 0) ≡ false
nonempty_test pat h = ground arith

pub prep_pattern-eq-choose :
    (pat : Bytes) (ci : Bool)
    → 0 < length pat
    → (ci ≡ true → length pat ≤ pat_lc_size)
    → prep_pattern pat ci ≡ ok (choose ci (compared ci pat))
unfolding prep_pattern
prep_pattern-eq-choose pat true h fits =
    rw (lower_into-fits pat_lc_size pat (fits refl), nonempty_test pat h)
prep_pattern-eq-choose pat false h fits = rw (nonempty_test pat h)

-- The globals that the early return leaves for an empty pattern.
pub prep_pattern-empty : (ci : Bool) → prep_pattern [] ci ≡ ok (no_pivots ci [])
unfolding prep_pattern lower_into
prep_pattern-empty true = refl
prep_pattern-empty false = refl

ends : (pat : Bytes) (a b : Pattern) → (if length pat == 0 then ok a else ok b) ≢ fault
ends pat a b e = ground arith

-- For a pattern that is not empty (and under -i not longer than `g_pat_lc`), `prep_pattern` ends
-- with: the pattern, folded under -i, as the text to compare with; two pivot offsets in it,
-- different if it has two bytes, such that the bytes at all other offsets are at least as common
-- as both; and for each pivot the one or two bytes that are equal to it as the comparison sees them.
pub prep_pattern-Chosen :
    (pat : Bytes) (ci : Bool)
    → 0 < length pat
    → (ci ≡ true → length pat ≤ pat_lc_size)
    → Returns (prep_pattern pat ci) (Chosen ci pat)
prep_pattern-Chosen pat ci h fits =
    rw (prep_pattern-eq-choose pat ci h fits) (choose-Chosen ci pat h)

-- Under -i a pattern overflows the static array `g_pat_lc` exactly if it is longer than 65536
-- bytes; without -i `prep_pattern` never faults.
pub prep_pattern-overflow :
    (pat : Bytes) (ci : Bool)
    → (prep_pattern pat ci ≡ fault) ↔ ((ci ≡ true) × (pat_lc_size < length pat))
unfolding prep_pattern
prep_pattern-overflow pat true = elim (dec_le (length pat) pat_lc_size) [
  | yes fits ↦
      rw (lower_into-fits pat_lc_size pat fits)
        (λ e. absurd (ends pat _ _ e), λ h. absurd (omega arith))
  | no long ↦
      rw (lower_into-overflows pat_lc_size pat (omega arith)) (λ e. (refl, omega arith), λ h. refl)
]
prep_pattern-overflow pat false = (λ e. absurd (ends pat _ _ e), λ h. cc)
