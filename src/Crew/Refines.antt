-- ===== src/Crew/Refines.antt =====
-- Without their buffers, the threads do what those of Pool do.
use mathlib.Core.Path.{subst}
use asmgrep.Base.{
  ℕ, zero, suc, ◌≡◌, refl, ap, sym, ◌∙◌, inl, inr, List, [], ◌∷◌, ◌++◌, ◌⊎◌, ◌==◌, Bool-cases,
  Bytes, Outcome, ok, fault, out_of_fuel,
}
use asmgrep.Output.{State}
use asmgrep.Reading.{search_file}
use asmgrep.Pool.{
  Shared, Action, descend, search, Worker, looking, starved, walking, exited, turn, start_workers,
  untouched, push_all, Pool, start, a_turn, Runs, stay, go,
}
use asmgrep.Crew.{
  Hand, hand, broken, Common, Setting, nothing_out, after_file, in_pool, hand_turn, fresh_hands,
  hands, Works, begin, then_turn,
}

-- Where a thread stands.
abbrev pub place : Hand → Worker
place (hand w xs c) = w
place (broken w) = w

abbrev pub places : List Hand → List Worker
places [] = []
places (h ∷ hs) = place h ∷ places hs

places-append : (xs ys : List Hand) → places (xs ++ ys) ≡ places xs ++ places ys
places-append [] ys = refl
places-append (h ∷ xs) ys = ap (◌∷◌ (place h)) (places-append xs ys)

-- The pool that the threads are.
abbrev pub as_pool : List Hand → Common → Pool
as_pool hs s = record { workers = places hs; shared = s.pool }

place-after_file :
    (todo : List Action) (r : Outcome State) → place (after_file todo r) ≡ walking todo
unfolding after_file
place-after_file todo (ok c) = refl
place-after_file todo fault = refl
place-after_file todo out_of_fuel = refl

module _ (e : Setting) where
  -- A turn is one of the pool, or does not show there.
  hand_turn_cases :
      (h : Hand) (s : Common)
      → let seen : Worker × Shared = (place (hand_turn e h s).0, (hand_turn e h s).1.pool) in
        let before : Worker × Shared = (place h, s.pool) in
        (seen ≡ before) ⊎ (seen ≡ turn e.actions (place h) s.pool)
  unfolding hand_turn in_pool turn
  hand_turn_cases (hand w (x ∷ xs) c) s = inl refl
  hand_turn_cases (hand looking [] c) s = inr refl
  hand_turn_cases (hand starved [] c) s = elim (Bool-cases (s.pool.pending == 0)) [
    | inl none_left ↦ rw none_left (inr refl)
    | inr more ↦ rw more (inr refl)
  ]
  hand_turn_cases (hand (walking []) [] c) s = inr refl
  hand_turn_cases (hand (walking (descend d ∷ todo)) [] c) s = inr refl
  hand_turn_cases (hand (walking (search f ∷ todo)) [] c) s = inr (
      ap (λ w. (w, (turn e.actions (walking (search f ∷ todo)) s.pool).1))
        (place-after_file todo (search_file e.g e.multi f (e.files f) (nothing_out c))))
  hand_turn_cases (hand exited [] c) s = inl refl
  hand_turn_cases (broken w) s = inl refl

  module _ (c : State) (n : ℕ) (roots : List Bytes) where
    places-fresh_hands : (n : ℕ) → places (fresh_hands n) ≡ start_workers n
    unfolding fresh_hands start_workers
    places-fresh_hands zero = refl
    places-fresh_hands (suc n) = ap (◌∷◌ looking) (places-fresh_hands n)

    places-hands : (n : ℕ) → places (hands c n) ≡ start_workers n
    unfolding hands start_workers
    places-hands zero = refl
    places-hands (suc n) = ap (◌∷◌ looking) (places-fresh_hands n)

    turn-Runs :
        (before after : List Hand) (h : Hand) (s : Common)
        → Runs e.actions (start n roots) (as_pool (before ++ h ∷ after) s)
        → Runs e.actions
            (start n roots)
            (as_pool (before ++ (hand_turn e h s).0 ∷ after) (hand_turn e h s).1)
    turn-Runs before after h s runs =
        let with_it : Worker × Shared → Pool =
          λ x. record { workers = places before ++ x.0 ∷ places after; shared = x.1 } in
        let h' = (hand_turn e h s).0 in
        let s' = (hand_turn e h s).1 in
        let old : as_pool (before ++ h ∷ after) s ≡ with_it (place h, s.pool) =
          ap (λ ws. record { workers = ws; shared = s.pool }) (places-append before (h ∷ after)) in
        let new : as_pool (before ++ h' ∷ after) s' ≡ with_it (place h', s'.pool) =
          ap (λ ws. record { workers = ws; shared = s'.pool })
            (places-append before (h' ∷ after)) in
        let runs' = subst (Runs e.actions (start n roots)) old runs in
        elim (hand_turn_cases h s) [
          | inl same ↦ subst (Runs e.actions (start n roots)) (sym (new ∙ ap with_it same)) runs'
          | inr turned ↦
              subst (Runs e.actions (start n roots)) (sym (new ∙ ap with_it turned))
                (go runs' (a_turn (places before) (places after) (place h) s.pool))
        ]

    -- Whatever the threads write meanwhile, and whatever a search answers: each state that they reach
    -- is, without the buffers and the output, a state that the threads of Pool reach from the same
    -- roots.
    pub Works-Runs :
        {hs : List Hand} {s : Common}
        → Works e c n roots hs s
        → Runs e.actions (start n roots) (as_pool hs s)
    unfolding start
    Works-Runs begin =
        subst
          (λ ws.
            Runs e.actions (start n roots)
              (record { workers = ws; shared = push_all roots untouched }))
          (sym (places-hands n)) stay
    Works-Runs (then_turn before after h s r) = turn-Runs before after h s (Works-Runs r)
