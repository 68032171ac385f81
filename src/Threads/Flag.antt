-- ===== src/Threads/Flag.antt =====
-- `g_matched` when all threads have ended.
use asmgrep.Base.{
  ℕ, zero, suc, ◌+◌, ◌≤◌, ◌<◌, ◌≡◌, inl, inr, refl, ap, sym, ◌∙◌, Bool, true, false, ◌||◌, List, [],
  ◌∷◌, ◌++◌, arith, min, leb, leb→le, leb→gt, Bool-cases, All, Returns, Returns-inv,
}
use asmgrep.Threads.{
  ThreadWork, Member, claiming, searching, writing, leaving, gone, crashed, Shared, after_search,
  set_matched, write, member_turn, members, Comes, begin, then_turn,
}
use asmgrep.Threads.Written.{at_work}

-- The flag of a thread after a search says whether it was set or the file has a line, by `found`.
pub record IsFlagged {L : Type 0} (t : ThreadWork L) (b : L) (found : ℕ → Bool) : Type 0 where
  pub starts : t.matched b ≡ false
  pub searches :
      (i : ℕ) (c : L)
      → i < t.nfiles
      → Returns (t.search_file i c) (λ r. t.matched r.0 ≡ (found i || t.matched c))

-- Whether one of the first files has a line.
abbrev pub any_below : (ℕ → Bool) → ℕ → Bool
any_below found zero = false
any_below found (suc n) = found n || any_below found n

or_claim : (m f r a : Bool) → (m || r) ≡ a → (m || (f || r)) ≡ (f || a)
or_claim m true r a e = by_flag m
  where
    by_flag : (m : Bool) → (m || true) ≡ true
    by_flag true = refl
    by_flag false = refl
or_claim m false r a e = e

or_search :
    (m f k r a : Bool) → (k ≡ true → m ≡ true) → (m || (f || r)) ≡ a → ((m || (f || k)) || r) ≡ a
or_search true f k r a keeps e = e
or_search false true k r a keeps e = e
or_search false false true r a keeps e = absurd (let no : false ≡ true = keeps refl in cc)
or_search false false false r a keeps e = e

or_left : (m k : Bool) → m ≡ true → (m || k) ≡ true
or_left m k e = rw e refl

or_right : (m k : Bool) → k ≡ true → (m || k) ≡ true
or_right true k e = refl
or_right false k e = e

module _ {L : Type 0} (t : ThreadWork L) (b : L) (found : ℕ → Bool) (h : IsFlagged t b found) where
  -- What a search that was claimed will find.
  abbrev pending : Member L → Bool
  pending (claiming c) = false
  pending (searching i c) = found i
  pending (writing xs c) = false
  pending (leaving xs) = false
  pending gone = false
  pending crashed = false

  abbrev any_pending : List (Member L) → Bool
  any_pending [] = false
  any_pending (w ∷ ws) = pending w || any_pending ws

  any_pending-append :
      (before : List (Member L)) (w : Member L) (after : List (Member L))
      → any_pending (before ++ w ∷ after) ≡ (pending w || (any_pending before || any_pending after))
  any_pending-append [] w after = refl
  any_pending-append (v ∷ before) w after =
      ap (λ r. pending v || r) (any_pending-append before w after)
      ∙ or_swap (pending v) (pending w) (any_pending before) (any_pending after)
    where
      or_swap : (a c d e : Bool) → (a || (c || (d || e))) ≡ (c || ((a || d) || e))
      or_swap true true d e = refl
      or_swap true false d e = refl
      or_swap false c d e = refl

  -- A thread sets its flag only with the shared one, and leaves when all files are claimed.
  abbrev Keeps : ℕ → Bool → Member L → Type 0
  Keeps idx m (claiming c) = t.matched c ≡ true → m ≡ true
  Keeps idx m (searching i c) = (i < t.nfiles) × (t.matched c ≡ true → m ≡ true)
  Keeps idx m (writing xs c) = t.matched c ≡ true → m ≡ true
  Keeps idx m (leaving xs) = t.nfiles ≤ idx
  Keeps idx m gone = t.nfiles ≤ idx
  Keeps idx m crashed = ⊥

  Keeps-later :
      (i j : ℕ) (m n : Bool) (w : Member L)
      → i ≤ j
      → (m ≡ true → n ≡ true)
      → Keeps i m w
      → Keeps j n w
  Keeps-later i j m n (claiming c) le later k = λ e. later (k e)
  Keeps-later i j m n (searching f c) le later (lt, k) = (lt, λ e. later (k e))
  Keeps-later i j m n (writing xs c) le later k = λ e. later (k e)
  Keeps-later i j m n (leaving xs) le later k = omega arith
  Keeps-later i j m n gone le later k = omega arith
  Keeps-later i j m n crashed le later k = k

  abbrev Flag : ℕ → Bool → Bool → Type 0
  Flag idx m owed = (m || owed) ≡ any_below found (min idx t.nfiles)

  -- What a turn of `w` leaves, with what the other threads will find.
  abbrev Turned : Bool → Shared → Member L → Shared → Type 0
  Turned rest s w' s' =
      Keeps s'.idx s'.matched w'
      × Flag s'.idx s'.matched (pending w' || rest)
      × (s.idx ≤ s'.idx)
      × (s.matched ≡ true → s'.matched ≡ true)

  claim-Turned :
      (c : L) (rest : Bool) (s : Shared)
      → Keeps s.idx s.matched (claiming c)
      → Flag s.idx s.matched rest
      → Turned rest s (member_turn t (claiming c) s).0 (member_turn t (claiming c) s).1
  unfolding member_turn
  claim-Turned c rest s k e = elim (Bool-cases (leb t.nfiles s.idx)) [
    | inl out ↦
        let le = leb→le _ _ out in
        let stay : min s.idx t.nfiles ≡ min (s.idx + 1) t.nfiles = omega arith in
        rw out (omega arith, e ∙ ap (any_below found) stay, omega arith, λ m. m)
    | inr more ↦
        let gt = leb→gt _ _ more in
        let now : min s.idx t.nfiles ≡ s.idx = omega arith in
        let next : suc s.idx ≡ min (s.idx + 1) t.nfiles = omega arith in
        rw more (
          (gt, k),
          or_claim s.matched (found s.idx) rest (any_below found s.idx)
                (e ∙ ap (any_below found) now)
              ∙ ap (any_below found) next,
          omega arith,
          λ m. m,
        )
  ]

  search-Turned :
      (i : ℕ) (c : L) (rest : Bool) (s : Shared)
      → Keeps s.idx s.matched (searching i c)
      → Flag s.idx s.matched (found i || rest)
      → Turned rest s (after_search (t.search_file i c)) (set_matched t (t.search_file i c) s)
  unfolding after_search set_matched
  search-Turned i c rest s (lt, k) e =
      let (r, ran, flag) = Returns-inv (t.search_file i c) _ (h.searches i c lt) in
      rw ran (
        or_right s.matched (t.matched r.0),
        ap (λ q. (s.matched || q) || rest) flag
            ∙ or_search s.matched (found i) (t.matched c) rest _ k e,
        omega arith,
        or_left s.matched (t.matched r.0),
      )

  turn-Turned :
      (w : Member L) (rest : Bool) (s : Shared)
      → Keeps s.idx s.matched w
      → Flag s.idx s.matched (pending w || rest)
      → Turned rest s (member_turn t w s).0 (member_turn t w s).1
  unfolding member_turn write
  turn-Turned (claiming c) rest s k e = claim-Turned c rest s k e
  turn-Turned (searching i c) rest s k e = search-Turned i c rest s k e
  turn-Turned (writing [] c) rest s k e = (k, e, omega arith, λ m. m)
  turn-Turned (writing (x ∷ xs) c) rest s k e = (k, e, omega arith, λ m. m)
  turn-Turned (leaving []) rest s k e = (k, e, omega arith, λ m. m)
  turn-Turned (leaving (x ∷ xs)) rest s k e = (k, e, omega arith, λ m. m)
  turn-Turned gone rest s k e = (k, e, omega arith, λ m. m)
  turn-Turned crashed rest s k e = absurd k

  members-Keep :
      (nt : ℕ) → All (Keeps 0 false) (members b nt) × (any_pending (members b nt) ≡ false)
  unfolding members
  members-Keep zero = (tt, refl)
  members-Keep (suc nt) = let (ks, e) = members-Keep nt in ((λ set. sym h.starts ∙ set, ks), e)

  All-pick :
      (P Q : Member L → Type 0) (before after : List (Member L)) (w w' : Member L)
      → All P (before ++ w ∷ after)
      → (P w → Q w')
      → ((v : Member L) → P v → Q v)
      → All Q (before ++ w' ∷ after)
  All-pick P Q [] [] w w' (p, ps) here others = (here p, tt)
  All-pick P Q [] (v ∷ after) w w' (p, (q, ps)) here others =
      let (_, qs) = All-pick P Q [] after v v (q, ps) (others v) others in
      (here p, (others v q, qs))
  All-pick P Q (v ∷ before) after w w' (p, ps) here others =
      (others v p, All-pick P Q before after w w' ps here others)

  All-at :
      (P : Member L → Type 0) (before after : List (Member L)) (w : Member L)
      → All P (before ++ w ∷ after)
      → P w
  All-at P [] after w (p, ps) = p
  All-at P (v ∷ before) after w (p, ps) = All-at P before after w ps

  abbrev Flagged : List (Member L) → Shared → Type 0
  Flagged ws s = All (Keeps s.idx s.matched) ws × Flag s.idx s.matched (any_pending ws)

  Comes-Flagged : (nt : ℕ) {ws : List (Member L)} {s : Shared} → Comes t b nt ws s → Flagged ws s
  Comes-Flagged nt begin =
      let (ks, none_pending) = members-Keep nt in
      let start : 0 ≡ min 0 t.nfiles = omega arith in
      (ks, none_pending ∙ ap (any_below found) start)
  Comes-Flagged nt (then_turn before after w s r) =
      let (ks, e) = Comes-Flagged nt r in
      let rest = any_pending before || any_pending after in
      let w' = (member_turn t w s).0 in
      let s' = (member_turn t w s).1 in
      let (k', e', le, later) =
        turn-Turned w rest s (All-at (Keeps s.idx s.matched) before after w ks)
          (sym (ap (λ p. s.matched || p) (any_pending-append before w after)) ∙ e) in
      (
        All-pick (Keeps s.idx s.matched) (Keeps s'.idx s'.matched) before after w w' ks (λ _. k')
            (λ v. Keeps-later s.idx s'.idx s.matched s'.matched v le later),
        ap (λ p. s'.matched || p) (any_pending-append before w' after) ∙ e',
      )

  none_pending-ended : (ws : List (Member L)) → at_work ws ≡ 0 → any_pending ws ≡ false
  none_pending-ended [] z = refl
  none_pending-ended (gone ∷ ws) z = none_pending-ended ws z
  none_pending-ended (claiming c ∷ ws) z = absurd (omega arith)
  none_pending-ended (searching i c ∷ ws) z = absurd (omega arith)
  none_pending-ended (writing xs c ∷ ws) z = absurd (omega arith)
  none_pending-ended (leaving xs ∷ ws) z = absurd (omega arith)
  none_pending-ended (crashed ∷ ws) z = absurd (omega arith)

  all_claimed :
      (w : Member L) (s : Shared)
      → at_work (w ∷ []) ≡ 0
      → Keeps s.idx s.matched w
      → t.nfiles ≤ s.idx
  all_claimed gone s z k = k
  all_claimed (claiming c) s z k = absurd (omega arith)
  all_claimed (searching i c) s z k = absurd (omega arith)
  all_claimed (writing xs c) s z k = absurd (omega arith)
  all_claimed (leaving xs) s z k = k
  all_claimed crashed s z k = absurd k

  first_ended : (w : Member L) (ws : List (Member L)) → at_work (w ∷ ws) ≡ 0 → at_work (w ∷ []) ≡ 0
  first_ended gone ws z = refl
  first_ended (claiming c) ws z = absurd (omega arith)
  first_ended (searching i c) ws z = absurd (omega arith)
  first_ended (writing xs c) ws z = absurd (omega arith)
  first_ended (leaving xs) ws z = absurd (omega arith)
  first_ended crashed ws z = absurd (omega arith)

  -- When all threads (one at least) have ended, `g_matched` is set exactly if one of the files has a
  -- line.
  pub ended-flag :
      (nt : ℕ) (w : Member L) (ws : List (Member L)) (s : Shared)
      → Comes t b nt (w ∷ ws) s
      → at_work (w ∷ ws) ≡ 0
      → s.matched ≡ any_below found t.nfiles
  ended-flag nt w ws s r z =
      let ((k, ks), e) = Comes-Flagged nt r in
      let out = all_claimed w s (first_ended w ws z) k in
      let all : min s.idx t.nfiles ≡ t.nfiles = omega arith in
      or_none s.matched
      ∙ ap (λ p. s.matched || p) (sym (none_pending-ended (w ∷ ws) z))
      ∙ e
      ∙ ap (any_below found) all
    where
      or_none : (m : Bool) → m ≡ (m || false)
      or_none true = refl
      or_none false = refl
