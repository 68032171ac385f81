-- ===== src/Threads/Owed.antt =====
-- What a turn of a thread does to the lines that it has still to write.
use asmgrep.Base.{
  ℕ, zero, suc, ◌+◌, ◌≤◌, ◌<◌, ◌≡◌, ◌≢◌, inl, inr, refl, ap, sym, ◌∙◌, Bool, List, [], ◌∷◌, ◌++◌,
  map, append-nil, append_assoc, flatten, arith, min, leb, leb→le, leb→gt, Bool-cases, Bytes,
  length, Returns, Returns-inv,
}
use asmgrep.Pool.Accounts.{count}
use asmgrep.Threads.Ledger.{Tally}
use asmgrep.Threads.{
  ThreadWork, Member, claiming, searching, writing, leaving, gone, crashed, Shared, after_search,
  set_matched, write, member_turn,
}

pub count-append :
    (p : Bytes → Bool) (xs ys : List Bytes) → count p (xs ++ ys) ≡ count p xs + count p ys
count-append p [] ys = omega arith
count-append p (x ∷ xs) ys = omega (arith, count-append p xs ys)

pub no_group : (x : Bytes) (xs : List Bytes) → ◌≢◌ {A = List Bytes} [] (x ∷ xs)
no_group x xs e = let n : 0 ≡ suc (length xs) = ap length e in absurd (omega arith)

pub flatten-append : (xs ys : List (List Bytes)) → flatten (xs ++ ys) ≡ flatten xs ++ flatten ys
flatten-append [] ys = refl
flatten-append (x ∷ xs) ys =
    ap (λ r. x ++ r) (flatten-append xs ys) ∙ sym (append_assoc x (flatten xs) (flatten ys))

pub map-append :
    (xs ys : List (List Bytes)) → map flatten (xs ++ ys) ≡ map flatten xs ++ map flatten ys
map-append [] ys = refl
map-append (x ∷ xs) ys = ap (λ r. flatten x ∷ r) (map-append xs ys)

-- The group that makes the first entry of what is to be written.
pub first_group :
    (groups : List (List Bytes)) (x : Bytes) (xs : List Bytes)
    → map flatten groups ≡ x ∷ xs
    → (g : List Bytes) × (gs : List (List Bytes)) × (flatten g ≡ x)
      × (map flatten gs ≡ xs)
      × ((p : Bytes → Bool) → count p (flatten groups) ≡ count p g + count p (flatten gs))
first_group [] x xs e = absurd (no_group x xs e)
first_group (g ∷ gs) x xs e = (g, gs, cc, cc, λ p. count-append p g (flatten gs))

-- How many lines of the first files satisfy a test.
abbrev pub up_to : (ℕ → List Bytes) → (Bytes → Bool) → ℕ → ℕ
up_to lines p zero = 0
up_to lines p (suc n) = count p (lines n) + up_to lines p n

-- A thread keeps whole lines back (`Holds`), and what it writes while it searches a file, with what
-- it keeps then, are whole lines: those that it had kept, and the `lines` of the file.
pub record IsLineWise {L : Type 0} (t : ThreadWork L) (b : L) (Holds : List Bytes → L → Type 0)
    (lines : ℕ → List Bytes) : Type 0 where
  pub starts : Holds [] b
  pub searches :
      (i : ℕ) (held : List Bytes) (c : L)
      → i < t.nfiles
      → Holds held c
      → Returns (t.search_file i c) (λ r.
        (groups : List (List Bytes)) × (kept : List Bytes) × (map flatten groups ≡ r.1)
        × Holds kept r.0
        × ((p : Bytes → Bool)
            → count p (flatten groups) + count p kept ≡ count p held + count p (lines i)))
  pub leaves :
      (held : List Bytes) (c : L)
      → Holds held c
      → (groups : List (List Bytes)) × (map flatten groups ≡ t.last_flush c)
        × ((p : Bytes → Bool) → count p (flatten groups) ≡ count p held)

module _ {L : Type 0} (t : ThreadWork L) (b : L) (Holds : List Bytes → L → Type 0)
    (lines : ℕ → List Bytes) (h : IsLineWise t b Holds lines) where
  -- The lines that a thread has still to write.
  abbrev pub Owes : ℕ → Member L → Tally → Type 0
  Owes idx (claiming c) f =
      (held : List Bytes) × Holds held c × ((p : Bytes → Bool) → f p ≡ count p held)
  Owes idx (searching i c) f =
      (held : List Bytes) × Holds held c
      × (i < t.nfiles)
      × ((p : Bytes → Bool) → f p ≡ count p held + count p (lines i))
  Owes idx (writing xs c) f =
      (groups : List (List Bytes)) × (held : List Bytes) × (map flatten groups ≡ xs)
      × Holds held c
      × ((p : Bytes → Bool) → f p ≡ count p (flatten groups) + count p held)
  Owes idx (leaving xs) f =
      (groups : List (List Bytes)) × (map flatten groups ≡ xs)
      × ((p : Bytes → Bool) → f p ≡ count p (flatten groups))
      × (t.nfiles ≤ idx)
  Owes idx gone f = ((p : Bytes → Bool) → f p ≡ 0) × (t.nfiles ≤ idx)
  Owes idx crashed f = ⊥

  -- What a turn changes: a group of lines is written, and a thread owes something else.
  abbrev pub Paid : Tally → Shared → Member L → Shared → Type 0
  Paid f s w' s' =
      (groups : List (List Bytes)) × (f' : Tally) × (s'.written ≡ s.written ++ map flatten groups)
      × Owes s'.idx w' f'
      × ((p : Bytes → Bool)
          → count p (flatten groups) + f' p + up_to lines p (min s.idx t.nfiles)
            ≡ f p + up_to lines p (min s'.idx t.nfiles))
      × (s.idx ≤ s'.idx)

  claim-Paid :
      (c : L) (s : Shared) (f : Tally)
      → Owes s.idx (claiming c) f
      → Paid f s (member_turn t (claiming c) s).0 (member_turn t (claiming c) s).1
  unfolding member_turn
  claim-Paid c s f (held, holds, tally) = elim (Bool-cases (leb t.nfiles s.idx)) [
    | inl out ↦
        let le = leb→le _ _ out in
        let (groups, written, same) = h.leaves held c holds in
        let stay : min (s.idx + 1) t.nfiles ≡ min s.idx t.nfiles = omega arith in
        rw out (
          [],
          f,
          sym (append-nil s.written),
          (groups, written, λ p. tally p ∙ sym (same p), omega arith),
          λ p. omega (arith, ap (up_to lines p) stay),
          omega arith,
        )
    | inr more ↦
        let gt = leb→gt _ _ more in
        let now : min s.idx t.nfiles ≡ s.idx = omega arith in
        let next : min (s.idx + 1) t.nfiles ≡ suc s.idx = omega arith in
        rw more (
          [],
          λ p. f p + count p (lines s.idx),
          sym (append-nil s.written),
          (held, holds, gt, λ p. ap (λ n. n + count p (lines s.idx)) (tally p)),
          λ p. omega (arith, ap (up_to lines p) now, ap (up_to lines p) next),
          omega arith,
        )
  ]

  search-Paid :
      (i : ℕ) (c : L) (s : Shared) (f : Tally)
      → Owes s.idx (searching i c) f
      → Paid f s (after_search (t.search_file i c)) (set_matched t (t.search_file i c) s)
  unfolding after_search set_matched
  search-Paid i c s f (held, holds, lt, tally) =
      let (r, ran, (groups, kept, written, holds', same)) =
        Returns-inv (t.search_file i c) _ (h.searches i held c lt holds) in
      rw ran (
        [],
        f,
        sym (append-nil s.written),
        (groups, kept, written, holds', λ p. tally p ∙ sym (same p)),
        λ p. omega arith,
        omega arith,
      )

  pub turn-Paid :
      (w : Member L) (s : Shared) (f : Tally)
      → Owes s.idx w f
      → Paid f s (member_turn t w s).0 (member_turn t w s).1
  unfolding member_turn write
  turn-Paid (claiming c) s f o = claim-Paid c s f o
  turn-Paid (searching i c) s f o = search-Paid i c s f o
  turn-Paid (writing [] c) s f ([], held, e, holds, tally) = (
    [],
    f,
    sym (append-nil s.written),
    (held, holds, λ p. omega (arith, tally p)),
    λ p. omega arith,
    omega arith,
  )
  turn-Paid (writing [] c) s f (g ∷ gs, held, e, holds, tally) =
      absurd (no_group (flatten g) (map flatten gs) (sym e))
  turn-Paid (writing (x ∷ xs) c) s f (groups, held, e, holds, tally) =
      let (g, gs, this, others, split) = first_group groups x xs e in
      (
        g ∷ [],
        λ p. count p (flatten gs) + count p held,
        ap (λ y. s.written ++ y ∷ []) (sym this),
        (gs, held, others, holds, λ p. refl),
        λ p. omega (arith, tally p, split p, ap (count p) (append-nil g)),
        omega arith,
      )
  turn-Paid (leaving []) s f ([], e, tally, le) =
      ([], f, sym (append-nil s.written), (tally, le), λ p. omega arith, omega arith)
  turn-Paid (leaving []) s f (g ∷ gs, e, tally, le) =
      absurd (no_group (flatten g) (map flatten gs) (sym e))
  turn-Paid (leaving (x ∷ xs)) s f (groups, e, tally, le) =
      let (g, gs, this, others, split) = first_group groups x xs e in
      (
        g ∷ [],
        λ p. count p (flatten gs),
        ap (λ y. s.written ++ y ∷ []) (sym this),
        (gs, others, λ p. refl, le),
        λ p. omega (arith, tally p, split p, ap (count p) (append-nil g)),
        omega arith,
      )
  turn-Paid gone s f o = ([], f, sym (append-nil s.written), o, λ p. omega arith, omega arith)
  turn-Paid crashed s f o = absurd o
