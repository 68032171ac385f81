-- ===== src/Threads/Ends.antt =====
-- However the threads take their turns, they all end.
use asmgrep.Base.{
  ℕ, zero, suc, ◌+◌, ◌-◌, ◌<◌, ◌≡◌, ◌⊎◌, inl, inr, refl, ap, List, [], ◌∷◌, ◌++◌, arith, leb,
  leb→le, leb→gt, Bool-cases, Bytes, length, Outcome, ok, fault, out_of_fuel,
}
use asmgrep.Threads.{
  ThreadWork, Member, claiming, searching, writing, leaving, gone, crashed, Shared, after_search,
  set_matched, write, member_turn,
}

-- A thread that is neither at its end nor crashed.
abbrev pub is_active : {L : Type 0} → Member L → ℕ
is_active (claiming c) = 1
is_active (searching i c) = 1
is_active (writing xs c) = 1
is_active (leaving xs) = 1
is_active gone = 0
is_active crashed = 0

-- No schedule of turns of active threads goes on without end.
pub data Ends {L : Type 0} (t : ThreadWork L) : List (Member L) → Shared → Type 0 where
  ends :
      (ws : List (Member L)) (s : Shared)
      → ((before after : List (Member L)) (w : Member L)
          → ws ≡ before ++ w ∷ after
          → is_active w ≡ 1
          → Ends t (before ++ (member_turn t w s).0 ∷ after) (member_turn t w s).1)
      → Ends t ws s

module _ {L : Type 0} (t : ThreadWork L) where
  abbrev sum : (Member L → ℕ) → List (Member L) → ℕ
  sum f [] = 0
  sum f (w ∷ ws) = f w + sum f ws

  sum-append :
      (f : Member L → ℕ) (before : List (Member L)) (w : Member L) (after : List (Member L))
      → sum f (before ++ w ∷ after) ≡ f w + (sum f before + sum f after)
  sum-append f [] w after = omega arith
  sum-append f (v ∷ before) w after = omega (arith, sum-append f before w after)

  -- A claim is to come; a search is to come; and what is to be written.
  abbrev claims : Member L → ℕ
  claims (claiming c) = 1
  claims (searching i c) = 1
  claims (writing xs c) = 1
  claims (leaving xs) = 0
  claims gone = 0
  claims crashed = 0

  abbrev searches : Member L → ℕ
  searches (claiming c) = 0
  searches (searching i c) = 1
  searches (writing xs c) = 0
  searches (leaving xs) = 0
  searches gone = 0
  searches crashed = 0

  abbrev writes : Member L → ℕ
  writes (claiming c) = 0
  writes (searching i c) = 0
  writes (writing xs c) = suc (length xs)
  writes (leaving xs) = suc (length xs)
  writes gone = 0
  writes crashed = 0

  abbrev claims_left : List (Member L) → Shared → ℕ
  claims_left ws s = sum claims ws + (t.nfiles - s.idx)

  -- Fewer claims, or as many and fewer searches, or as many and less to write.
  abbrev Less : Member L → Shared → Member L → Shared → Type 0
  Less w' s' w s =
      (claims w' + (t.nfiles - s'.idx) < claims w + (t.nfiles - s.idx))
      ⊎ (claims w' + (t.nfiles - s'.idx) ≡ claims w + (t.nfiles - s.idx))
        × ((searches w' < searches w) ⊎ (searches w' ≡ searches w) × (writes w' < writes w))

  claim-Less :
      (c : L) (s : Shared)
      → Less (member_turn t (claiming c) s).0 (member_turn t (claiming c) s).1 (claiming c) s
  unfolding member_turn
  claim-Less c s = elim (Bool-cases (leb t.nfiles s.idx)) [
    | inl out ↦ let le = leb→le _ _ out in rw out (inl (omega arith))
    | inr more ↦ let gt = leb→gt _ _ more in rw more (inl (omega arith))
  ]

  search-Less :
      (i : ℕ) (c : L) (r : Outcome (L × List Bytes)) (s : Shared)
      → Less (after_search r) (set_matched t r s) (searching i c) s
  unfolding after_search set_matched
  search-Less i c (ok r) s = inr (refl, inl (omega arith))
  search-Less i c fault s = inl (omega arith)
  search-Less i c out_of_fuel s = inl (omega arith)

  turn-Less :
      (w : Member L) (s : Shared)
      → is_active w ≡ 1
      → Less (member_turn t w s).0 (member_turn t w s).1 w s
  unfolding member_turn write
  turn-Less (claiming c) s active = claim-Less c s
  turn-Less (searching i c) s active = search-Less i c (t.search_file i c) s
  turn-Less (writing [] c) s active = inr (refl, inr (refl, omega arith))
  turn-Less (writing (x ∷ xs) c) s active = inr (refl, inr (refl, omega arith))
  turn-Less (leaving []) s active = inr (refl, inr (refl, omega arith))
  turn-Less (leaving (x ∷ xs)) s active = inr (refl, inr (refl, omega arith))
  turn-Less gone s active = absurd (omega arith)
  turn-Less crashed s active = absurd (omega arith)

  ends_within :
      (c d e : ℕ) (ws : List (Member L)) (s : Shared)
      → claims_left ws s < c
      → sum searches ws < d
      → sum writes ws < e
      → Ends t ws s
  ends_within zero d e ws s hc hd he = absurd (omega arith)
  ends_within (suc c) zero e ws s hc hd he = absurd (omega arith)
  ends_within (suc c) (suc d) zero ws s hc hd he = absurd (omega arith)
  ends_within (suc c) (suc d) (suc e) ws s hc hd he = ends ws s (λ before after w split active.
      let w' = (member_turn t w s).0 in
      let s' = (member_turn t w s).1 in
      let ws' = before ++ w' ∷ after in
      let c_old = sum-append claims before w after in
      let c_new = sum-append claims before w' after in
      let d_old = sum-append searches before w after in
      let d_new = sum-append searches before w' after in
      let e_old = sum-append writes before w after in
      let e_new = sum-append writes before w' after in
      let c_is = ap (sum claims) split in
      let d_is = ap (sum searches) split in
      let e_is = ap (sum writes) split in
      elim (turn-Less w s active) [
        | inl fewer ↦
            ends_within c (suc (sum searches ws')) (suc (sum writes ws')) ws' s' (omega arith)
              (omega arith) (omega arith)
        | inr (same, inl fewer) ↦
            ends_within (suc c) d (suc (sum writes ws')) ws' s' (omega arith) (omega arith)
              (omega arith)
        | inr (same, inr (same', fewer)) ↦
            ends_within (suc c) (suc d) e ws' s' (omega arith) (omega arith) (omega arith)
      ])

  -- From whatever state, with whatever each search answers: in whatever order the threads take
  -- turns, after finitely many turns of threads that have neither ended nor crashed there are no such
  -- threads left.
  pub always-Ends : (ws : List (Member L)) (s : Shared) → Ends t ws s
  always-Ends ws s =
      ends_within (suc (claims_left ws s)) (suc (sum searches ws)) (suc (sum writes ws)) ws s
        (omega arith) (omega arith) (omega arith)
