-- ===== src/Crew/Flags.antt =====
-- The flags of the threads of c/grep.c, which together are `g_match` and `g_err`.
use asmgrep.Base.{
  ℕ, zero, suc, ◌≡◌, refl, ap, sym, ◌∙◌, inl, inr, Bool, true, false, ◌||◌, Option, none, some,
  List, [], ◌∷◌, ◌++◌, ◌==◌, Bool-cases, Bytes, Outcome, ok, fault, out_of_fuel, Returns,
  Returns-mono,
}
use asmgrep.Output.{State, initial}
use asmgrep.Reading.{search_file}
use asmgrep.Pool.{
  Shared, Action, descend, search, Worker, looking, starved, walking, exited, q_pop, take_up, turn,
  push_all, q_push, untouched,
}
use asmgrep.Pool.Reached.{any_file}
use asmgrep.Crew.{
  Hand, hand, broken, Common, Setting, nothing_out, after_file, in_pool, hand_turn, fresh_hands,
  hands, Works, begin, then_turn,
}
use asmgrep.Crew.Owed.{q_pop-searched, q_push-searched}

-- Whether a flag is set in the context of one of the threads.
abbrev pub any_hand : (State → Bool) → List Hand → Bool
any_hand flag [] = false
any_hand flag (hand w xs c ∷ hs) = flag c || any_hand flag hs
any_hand flag (broken w ∷ hs) = any_hand flag hs

pub or_swap : (a c d : Bool) → (a || (c || d)) ≡ (c || (a || d))
or_swap true true d = refl
or_swap true false d = refl
or_swap false c d = refl

pub or_assoc : (a c d : Bool) → ((a || c) || d) ≡ (a || (c || d))
or_assoc true c d = refl
or_assoc false c d = refl

any_hand-append :
    (flag : State → Bool) (before : List Hand) (h : Hand) (after : List Hand)
    → any_hand flag (before ++ h ∷ after)
      ≡ (any_hand flag (h ∷ []) || (any_hand flag before || any_hand flag after))
any_hand-append flag [] (hand w xs c) after = sym (or_assoc (flag c) false (any_hand flag after))
any_hand-append flag [] (broken w) after = refl
any_hand-append flag (hand v ys d ∷ before) h after =
    ap (λ b. flag d || b) (any_hand-append flag before h after)
    ∙ or_swap (flag d) (any_hand flag (h ∷ [])) (any_hand flag before || any_hand flag after)
    ∙ ap (λ b. any_hand flag (h ∷ []) || b)
        (sym (or_assoc (flag d) (any_hand flag before) (any_hand flag after)))
any_hand-append flag (broken v ∷ before) h after = any_hand-append flag before h after

-- A flag that a search of a file adds to, by `found`.
abbrev pub Adds : Setting → (State → Bool) → (Bytes → Bool) → Type 0
Adds e flag found =
    (f : Bytes) (s : State)
    → Returns (search_file e.g e.multi f (e.files f) s) (λ t. flag t ≡ (found f || flag s))

take_up-searched :
    (actions : Bytes → List Action) (o : Option Bytes × Shared)
    → (take_up actions o).1.searched ≡ o.1.searched
unfolding take_up
take_up-searched actions (none, s) = refl
take_up-searched actions (some d, s) = refl

module _ (e : Setting) (flag : State → Bool) (found : Bytes → Bool) (adds : Adds e flag found)
    (kept : (s : State) → flag (nothing_out s) ≡ flag s) where
  -- A turn adds to the threads' flags what it adds to those of the files searched.
  abbrev AddsBoth : Hand → Common → Hand → Common → Type 0
  AddsBoth h s h' s' =
      (more : Bool) × (any_hand flag (h' ∷ []) ≡ (more || any_hand flag (h ∷ [])))
      × (any_file found s'.pool.searched ≡ (more || any_file found s.pool.searched))

  same_files :
      (w w' : Worker) (xs xs' : List Bytes) (c : State) (s : Common) (pool : Shared)
      → pool.searched ≡ s.pool.searched
      → AddsBoth (hand w xs c) s (hand w' xs' c) (record s { pool = pool })
  same_files w w' xs xs' c s pool e = (false, refl, ap (any_file found) e)

  file-AddsBoth :
      (f : Bytes) (todo : List Action) (c : State) (s : Common) (r : Outcome State)
      → Returns r (λ t. flag t ≡ (found f || flag c))
      → AddsBoth
          (hand (walking (search f ∷ todo)) [] c)
          s
          (after_file todo r)
          (record s { pool = (turn e.actions (walking (search f ∷ todo)) s.pool).1 })
  unfolding after_file turn
  file-AddsBoth f todo c s (ok t) set =
      (found f, ap (λ b. b || false) set ∙ or_assoc (found f) (flag c) false, refl)
  file-AddsBoth f todo c s fault set = absurd set
  file-AddsBoth f todo c s out_of_fuel set = absurd set

  hand_turn-AddsBoth :
      (h : Hand) (s : Common) → AddsBoth h s (hand_turn e h s).0 (hand_turn e h s).1
  unfolding hand_turn in_pool turn
  hand_turn-AddsBoth (hand w (x ∷ xs) c) s = (false, refl, refl)
  hand_turn-AddsBoth (hand looking [] c) s =
      same_files looking (take_up e.actions (q_pop s.pool)).0 [] [] c s
        (take_up e.actions (q_pop s.pool)).1
        (take_up-searched e.actions (q_pop s.pool) ∙ q_pop-searched s.pool)
  hand_turn-AddsBoth (hand starved [] c) s = elim (Bool-cases (s.pool.pending == 0)) [
    | inl none_left ↦ rw none_left (false, refl, refl)
    | inr more ↦ rw more (false, refl, refl)
  ]
  hand_turn-AddsBoth (hand (walking []) [] c) s = (false, refl, refl)
  hand_turn-AddsBoth (hand (walking (descend d ∷ todo)) [] c) s =
      same_files (walking (descend d ∷ todo)) (walking todo) [] [] c s (q_push d s.pool)
        (q_push-searched d s.pool)
  hand_turn-AddsBoth (hand (walking (search f ∷ todo)) [] c) s =
      file-AddsBoth f todo c s (search_file e.g e.multi f (e.files f) (nothing_out c)) (
        Returns-mono (search_file e.g e.multi f (e.files f) (nothing_out c)) _ _
          (adds f (nothing_out c)) (λ t set. set ∙ ap (λ b. found f || b) (kept c)))
  hand_turn-AddsBoth (hand exited [] c) s = (false, refl, refl)
  hand_turn-AddsBoth (broken w) s = (false, refl, refl)

  module _ (none_set : flag initial ≡ false) where
    any_fresh : (n : ℕ) → any_hand flag (fresh_hands n) ≡ false
    unfolding fresh_hands
    any_fresh zero = refl
    any_fresh (suc n) = ap (λ b. b || any_hand flag (fresh_hands n)) none_set ∙ any_fresh n

    any_pushed : (ds : List Bytes) (s : Shared) → (push_all ds s).searched ≡ s.searched
    unfolding push_all
    any_pushed [] s = refl
    any_pushed (d ∷ ds) s = any_pushed ds (q_push d s) ∙ q_push-searched d s

    -- The threads' flags are those of the first context at its start, and of the files searched.
    pub Works-any_hand :
        (c : State) (n : ℕ) (roots : List Bytes) {hs : List Hand} {s : Common}
        → Works e c (suc n) roots hs s
        → any_hand flag hs ≡ (flag c || any_file found s.pool.searched)
    unfolding hands
    Works-any_hand c n roots begin =
        ap (λ b. flag c || b) (any_fresh n ∙ sym (ap (any_file found) (any_pushed roots untouched)))
    Works-any_hand c n roots (then_turn before after h s r) =
        let (more, here, files) = hand_turn-AddsBoth h s in
        let h' = (hand_turn e h s).0 in
        let rest = any_hand flag before || any_hand flag after in
        any_hand-append flag before h' after
        ∙ ap (λ b. b || rest) here
        ∙ or_assoc more (any_hand flag (h ∷ [])) rest
        ∙ ap (λ b. more || b)
            (sym (any_hand-append flag before h after) ∙ Works-any_hand c n roots r)
        ∙ or_swap more (flag c) (any_file found s.pool.searched)
        ∙ ap (λ b. flag c || b) (sym files)
