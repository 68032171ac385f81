-- ===== src/Threads/Written.antt =====
-- What the threads have written when all have ended.
use asmgrep.Base.{
  ℕ, zero, suc, ◌+◌, ◌≤◌, ◌≡◌, refl, ap, sym, ◌∙◌, Bool, List, [], ◌∷◌, ◌++◌, map, flatten, arith,
  min, Bytes,
}
use asmgrep.Pool.Accounts.{count}
use asmgrep.Threads.{
  ThreadWork, Member, claiming, searching, writing, leaving, gone, crashed, Shared, member_turn,
  members, Comes, begin, then_turn,
}
use asmgrep.Threads.Ledger.{Tally, Owe, Owe-pick}
use asmgrep.Threads.Owed.{
  count-append, flatten-append, map-append, up_to, IsLineWise, Owes, turn-Paid,
}

-- The threads that have not ended, and those that have crashed.
abbrev pub at_work : {L : Type 0} → List (Member L) → ℕ
at_work [] = 0
at_work (claiming c ∷ ws) = suc (at_work ws)
at_work (searching i c ∷ ws) = suc (at_work ws)
at_work (writing xs c ∷ ws) = suc (at_work ws)
at_work (leaving xs ∷ ws) = suc (at_work ws)
at_work (gone ∷ ws) = at_work ws
at_work (crashed ∷ ws) = suc (at_work ws)

abbrev pub crashes : {L : Type 0} → List (Member L) → ℕ
crashes [] = 0
crashes (claiming c ∷ ws) = crashes ws
crashes (searching i c ∷ ws) = crashes ws
crashes (writing xs c ∷ ws) = crashes ws
crashes (leaving xs ∷ ws) = crashes ws
crashes (gone ∷ ws) = crashes ws
crashes (crashed ∷ ws) = suc (crashes ws)

module _ {L : Type 0} (t : ThreadWork L) (b : L) (Holds : List Bytes → L → Type 0)
    (lines : ℕ → List Bytes) (h : IsLineWise t b Holds lines) where
  -- The threads together.
  abbrev Owed : ℕ → List (Member L) → Tally → Type 0
  Owed idx ws f = Owe (Owes t b Holds lines h idx) ws f

  Owes-later :
      (i j : ℕ) (w : Member L) (f : Tally)
      → i ≤ j
      → Owes t b Holds lines h i w f
      → Owes t b Holds lines h j w f
  Owes-later i j (claiming c) f le o = o
  Owes-later i j (searching k c) f le o = o
  Owes-later i j (writing xs c) f le o = o
  Owes-later i j (leaving xs) f le (groups, e, tally, out) = (groups, e, tally, omega arith)
  Owes-later i j gone f le (tally, out) = (tally, omega arith)
  Owes-later i j crashed f le o = o

  -- What was written are whole lines, and with what is owed they are those of the claimed files.
  abbrev Settled : List (Member L) → Shared → Type 0
  Settled ws s =
      (groups : List (List Bytes)) × (owed : Tally) × (map flatten groups ≡ s.written)
      × Owed s.idx ws owed
      × ((p : Bytes → Bool)
          → count p (flatten groups) + owed p ≡ up_to lines p (min s.idx t.nfiles))

  members-Owed : (nt : ℕ) → Owed 0 (members b nt) (λ p. 0)
  unfolding members
  members-Owed zero = λ p. refl
  members-Owed (suc nt) =
      (λ p. 0, λ p. 0, ([], h.starts, λ p. refl), members-Owed nt, λ p. omega arith)

  turn-Settled :
      (before after : List (Member L)) (w : Member L) (s : Shared)
      → Settled (before ++ w ∷ after) s
      → Settled (before ++ (member_turn t w s).0 ∷ after) (member_turn t w s).1
  turn-Settled before after w s (groups, owed, written, os, settled) =
      let (g, rest, o, tally, back) =
        Owe-pick (Owes t b Holds lines h s.idx) before after w owed os in
      let (more, g', written', o', paid, le) = turn-Paid t b Holds lines h w s g o in
      (
        groups ++ more,
        λ p. g' p + rest p,
        map-append groups more ∙ ap (λ r. r ++ map flatten more) written ∙ sym written',
        back (Owes t b Holds lines h (member_turn t w s).1.idx) (member_turn t w s).0 g'
            (λ v k. Owes-later s.idx (member_turn t w s).1.idx v k le) o',
        λ p. omega (
          arith,
          settled p,
          tally p,
          paid p,
          ap (count p) (flatten-append groups more),
          count-append p (flatten groups) (flatten more),
        ),
      )

  Comes-Settled : (nt : ℕ) {ws : List (Member L)} {s : Shared} → Comes t b nt ws s → Settled ws s
  Comes-Settled nt begin =
      let none_claimed : min 0 t.nfiles ≡ 0 = omega arith in
      ([], λ p. 0, refl, members-Owed nt, λ p. omega (arith, ap (up_to lines p) none_claimed))
  Comes-Settled nt (then_turn before after w s r) =
      turn-Settled before after w s (Comes-Settled nt r)

  ended-no_debt :
      (idx : ℕ) (ws : List (Member L)) (f : Tally)
      → at_work ws ≡ 0
      → Owed idx ws f
      → (p : Bytes → Bool) → f p ≡ 0
  ended-no_debt idx [] f z o p = o p
  ended-no_debt idx (gone ∷ ws) f z (g, rest, (none_owed, _), os, tally) p =
      omega (arith, tally p, none_owed p, ended-no_debt idx ws rest z os p)
  ended-no_debt idx (claiming c ∷ ws) f z o p = absurd (omega arith)
  ended-no_debt idx (searching i c ∷ ws) f z o p = absurd (omega arith)
  ended-no_debt idx (writing xs c ∷ ws) f z o p = absurd (omega arith)
  ended-no_debt idx (leaving xs ∷ ws) f z o p = absurd (omega arith)
  ended-no_debt idx (crashed ∷ ws) f z o p = absurd (omega arith)

  ended-all_claimed :
      (idx : ℕ) (w : Member L) (ws : List (Member L)) (f : Tally)
      → at_work (w ∷ ws) ≡ 0
      → Owed idx (w ∷ ws) f
      → t.nfiles ≤ idx
  ended-all_claimed idx gone ws f z (g, rest, (_, out), os, tally) = out
  ended-all_claimed idx (claiming c) ws f z o = absurd (omega arith)
  ended-all_claimed idx (searching i c) ws f z o = absurd (omega arith)
  ended-all_claimed idx (writing xs c) ws f z o = absurd (omega arith)
  ended-all_claimed idx (leaving xs) ws f z o = absurd (omega arith)
  ended-all_claimed idx crashed ws f z o = absurd (omega arith)

  none_crashed : (idx : ℕ) (ws : List (Member L)) (f : Tally) → Owed idx ws f → crashes ws ≡ 0
  none_crashed idx [] f o = refl
  none_crashed idx (claiming c ∷ ws) f (g, rest, o, os, tally) = none_crashed idx ws rest os
  none_crashed idx (searching i c ∷ ws) f (g, rest, o, os, tally) = none_crashed idx ws rest os
  none_crashed idx (writing xs c ∷ ws) f (g, rest, o, os, tally) = none_crashed idx ws rest os
  none_crashed idx (leaving xs ∷ ws) f (g, rest, o, os, tally) = none_crashed idx ws rest os
  none_crashed idx (gone ∷ ws) f (g, rest, o, os, tally) = none_crashed idx ws rest os
  none_crashed idx (crashed ∷ ws) f (g, rest, o, os, tally) = absurd o

  -- No search of any thread ever reads or writes out of bounds or fails to end.
  pub Comes-no_crash :
      (nt : ℕ) {ws : List (Member L)} {s : Shared} → Comes t b nt ws s → crashes ws ≡ 0
  Comes-no_crash nt {ws} r =
      let (groups, owed, written, os, settled) = Comes-Settled nt r in none_crashed _ ws owed os

  -- When all threads (one at least) have ended, whole lines were written each time that the lock was
  -- held, and every line of every file was written, as often as the file has it.
  pub ended-lines :
      (nt : ℕ) (w : Member L) (ws : List (Member L)) (s : Shared)
      → Comes t b nt (w ∷ ws) s
      → at_work (w ∷ ws) ≡ 0
      → (groups : List (List Bytes)) × (map flatten groups ≡ s.written)
        × ((p : Bytes → Bool) → count p (flatten groups) ≡ up_to lines p t.nfiles)
  ended-lines nt w ws s r z =
      let (groups, owed, written, os, settled) = Comes-Settled nt r in
      let out = ended-all_claimed s.idx w ws owed z os in
      let all : min s.idx t.nfiles ≡ t.nfiles = omega arith in
      (
        groups,
        written,
        λ p.
            omega
              (arith, settled p, ended-no_debt s.idx (w ∷ ws) owed z os p, ap (up_to lines p) all),
      )
