-- ===== src/Pool/Accounts.antt =====
-- What the queue, the counter and the threads' positions always add up to.
use asmgrep.Base.{
  ℕ, zero, suc, ◌+◌, ◌≤◌, ◌<◌, ◌≡◌, ◌≢◌, inl, inr, refl, Bool, List, [], ◌∷◌, ◌++◌, arith, ◌==◌,
  ==_iff, Bool-cases, if◌then◌else◌, Bytes,
}
use asmgrep.Pool.{
  Shared, untouched, count_paths, grown, q_push, q_pop, take_up, push_all, Action, descend, search,
  Worker, looking, starved, walking, exited, turn, start_workers, Pool, start, Step, a_turn, Runs,
  stay, go,
}

abbrev pub count : (Bytes → Bool) → List Bytes → ℕ
count p [] = 0
count p (d ∷ ds) = (if p d then 1 else 0) + count p ds

-- How many of some actions push a directory, or search a file, that satisfies `p`.
abbrev pub count_dirs : (Bytes → Bool) → List Action → ℕ
count_dirs p [] = 0
count_dirs p (descend d ∷ todo) = (if p d then 1 else 0) + count_dirs p todo
count_dirs p (search f ∷ todo) = count_dirs p todo

abbrev pub count_files : (Bytes → Bool) → List Action → ℕ
count_files p [] = 0
count_files p (descend d ∷ todo) = count_files p todo
count_files p (search f ∷ todo) = (if p f then 1 else 0) + count_files p todo

-- A sum over threads.
abbrev pub total : (Worker → ℕ) → List Worker → ℕ
total f [] = 0
total f (w ∷ ws) = f w + total f ws

pub total-append :
    (f : Worker → ℕ) (before : List Worker) (w : Worker) (after : List Worker)
    → total f (before ++ w ∷ after) ≡ f w + (total f before + total f after)
total-append f [] w after = omega arith
total-append f (v ∷ before) w after = omega (arith, total-append f before w after)

abbrev pub walks : Worker → ℕ
walks looking = 0
walks starved = 0
walks (walking todo) = 1
walks exited = 0

abbrev pub exits : Worker → ℕ
exits looking = 0
exits starved = 0
exits (walking todo) = 0
exits exited = 1

abbrev pub left : (List Action → ℕ) → Worker → ℕ
left f looking = 0
left f starved = 0
left f (walking todo) = f todo
left f exited = 0

-- A sum over the directories that were taken.
abbrev pub over : (Bytes → ℕ) → List Bytes → ℕ
over f [] = 0
over f (d ∷ ds) = f d + over f ds

-- The counter is the number of the directories in the queue and in work, and a thread that has
-- left leaves nothing to do; the queue fits its array.
pub record IsCounted (q : Pool) : Type 0 where
  pub pending : q.shared.pending ≡ count_paths q.shared.dirs + total walks q.workers
  pub quiet : total exits q.workers ≢ 0 → q.shared.pending ≡ 0
  pub room : count_paths q.shared.dirs ≤ q.shared.cap

grown-room : (top cap : ℕ) → top ≤ cap → (top < grown top cap) × (cap ≤ grown top cap)
unfolding grown
grown-room top cap h = ground arith

-- The same seen from one thread, where the others walk `m` directories and `k` of them have left.
abbrev CountedWith : ℕ → ℕ → Worker → Shared → Type 0
CountedWith m k w s =
    (s.pending ≡ count_paths s.dirs + (walks w + m))
    × (exits w + k ≢ 0 → s.pending ≡ 0)
    × (count_paths s.dirs ≤ s.cap)

module _ (actions : Bytes → List Action) (m k : ℕ) where
  pop-counted :
      (dirs taken searched : List Bytes) (cap pending : ℕ)
      → let s : Shared = record {
        dirs = dirs;
        cap = cap;
        pending = pending;
        taken = taken;
        searched = searched;
      } in
        CountedWith m k looking s
        → CountedWith m k (turn actions looking s).0 (turn actions looking s).1
  unfolding turn q_pop take_up
  pop-counted [] taken searched cap pending h = h
  pop-counted (d ∷ dirs) taken searched cap pending (p, e, r) = (omega arith, e, omega arith)

  turn-counted :
      (w : Worker) (s : Shared)
      → CountedWith m k w s
      → CountedWith m k (turn actions w s).0 (turn actions w s).1
  unfolding turn q_push
  turn-counted looking s h = pop-counted s.dirs s.taken s.searched s.cap s.pending h
  turn-counted starved s (p, e, r) = elim (Bool-cases (s.pending == 0)) [
    | inl none_left ↦ rw (none_left, turn) (p, λ _. (==_iff _ _).0 none_left, r)
    | inr some_left ↦ rw (some_left, turn) (p, e, r)
  ]
  turn-counted (walking []) s (p, e, r) = (omega arith, λ h. omega (arith, e h), r)
  turn-counted (walking (descend d ∷ todo)) s (p, e, r) =
      let (fits, _) = grown-room (count_paths s.dirs) s.cap r in
      (omega arith, λ h. absurd (omega (arith, e h)), omega arith)
  turn-counted (walking (search f ∷ todo)) s h = h
  turn-counted exited s h = h

pub Step-IsCounted :
    (actions : Bytes → List Action) {q r : Pool} → Step actions q r → IsCounted q → IsCounted r
Step-IsCounted actions (a_turn before after w s) h =
    let m = total walks before + total walks after in
    let k = total exits before + total exits after in
    let w' = (turn actions w s).0 in
    let at_w = total-append walks before w after in
    let at_w' = total-append walks before w' after in
    let left_w = total-append exits before w after in
    let left_w' = total-append exits before w' after in
    let (p, e, r) : CountedWith m k w' (turn actions w s).1 =
      turn-counted actions m k w s (
        omega (arith, h.pending, at_w),
        λ out. h.quiet (λ z. out (omega (arith, left_w))),
        h.room,
      ) in
    record {
      pending = omega (arith, p, at_w');
      quiet = λ out. e (λ z. out (omega (arith, left_w')));
      room = r;
    }

start_workers-idle :
    (n : ℕ) → (total walks (start_workers n) ≡ 0) × (total exits (start_workers n) ≡ 0)
unfolding start_workers
start_workers-idle zero = (refl, refl)
start_workers-idle (suc n) =
    let (idle, none_out) = start_workers-idle n in (omega arith, omega arith)

push_all-counted :
    (roots : List Bytes) (s : Shared)
    → s.pending ≡ count_paths s.dirs
    → count_paths s.dirs ≤ s.cap
    → ((push_all roots s).pending ≡ count_paths (push_all roots s).dirs)
      × (count_paths (push_all roots s).dirs ≤ (push_all roots s).cap)
unfolding push_all q_push
push_all-counted [] s p r = (p, r)
push_all-counted (d ∷ ds) s p r =
    let (fits, _) = grown-room (count_paths s.dirs) s.cap r in
    push_all-counted ds _ (omega arith) (omega arith)

start-IsCounted : (n : ℕ) (roots : List Bytes) → IsCounted (start n roots)
unfolding start
start-IsCounted n roots =
    let (p, r) = push_all-counted roots untouched refl (omega arith) in
    let (idle, none_out) = start_workers-idle n in
    record { pending = omega (arith, p, idle); quiet = λ out. absurd (out none_out); room = r }

-- In every pool that the threads can reach, the counter is the number of the directories in the
-- queue and in work, the queue fits its array, and if a thread has left its loop the counter is
-- zero.
pub Runs-IsCounted :
    (actions : Bytes → List Action) (n : ℕ) (roots : List Bytes) {q : Pool}
    → Runs actions (start n roots) q
    → IsCounted q
Runs-IsCounted actions n roots stay = start-IsCounted n roots
Runs-IsCounted actions n roots (go runs step) =
    Step-IsCounted actions step (Runs-IsCounted actions n roots runs)
