-- ===== src/Pool/Finished.antt =====
-- When a thread has left its loop, every directory was taken and every file was searched.
use asmgrep.Base.{
  ℕ, zero, suc, ◌+◌, ◌≡◌, ◌≢◌, inl, inr, refl, Bool, List, [], ◌∷◌, arith, ◌==◌, Bool-cases, Bytes,
}
use asmgrep.Pool.{
  Shared, untouched, count_paths, q_push, q_pop, take_up, push_all, Action, descend, search, Worker,
  looking, starved, walking, exited, turn, start_workers, Pool, start, Step, a_turn, Runs, stay, go,
}
use asmgrep.Pool.Accounts.{
  count, count_dirs, count_files, total, total-append, walks, exits, left, over, Runs-IsCounted,
}

-- How often a directory, or a file, that satisfies `p` is found in the directories taken.
abbrev pub dirs_found : (Bytes → List Action) → (Bytes → Bool) → List Bytes → ℕ
dirs_found actions p = over (λ d. count_dirs p (actions d))

abbrev pub files_found : (Bytes → List Action) → (Bytes → Bool) → List Bytes → ℕ
files_found actions p = over (λ d. count_files p (actions d))

module _ (actions : Bytes → List Action) (p : Bytes → Bool) (n : ℕ) where
  -- Of the directories that satisfy `p`, those found and the `n` roots were taken, are in the
  -- queue or have yet to be pushed; the files found were searched or have yet to be.
  record IsAccounted (q : Pool) : Type 0 where
    dirs :
        count p q.shared.taken + (count p q.shared.dirs + total (left (count_dirs p)) q.workers)
        ≡ n + dirs_found actions p q.shared.taken
    files :
        count p q.shared.searched + total (left (count_files p)) q.workers
        ≡ files_found actions p q.shared.taken

  abbrev AccountedWith : ℕ → ℕ → Worker → Shared → Type 0
  AccountedWith m k w s =
      (count p s.taken + (count p s.dirs + (left (count_dirs p) w + m))
        ≡ n + dirs_found actions p s.taken)
      × (count p s.searched + (left (count_files p) w + k) ≡ files_found actions p s.taken)

  pop-accounted :
      (m k : ℕ) (dirs taken searched : List Bytes) (cap pending : ℕ)
      → let s : Shared = record {
        dirs = dirs;
        cap = cap;
        pending = pending;
        taken = taken;
        searched = searched;
      } in
        AccountedWith m k looking s
        → AccountedWith m k (turn actions looking s).0 (turn actions looking s).1
  unfolding turn q_pop take_up
  pop-accounted m k [] taken searched cap pending h = h
  pop-accounted m k (d ∷ dirs) taken searched cap pending (hd, hf) = (omega arith, omega arith)

  turn-accounted :
      (m k : ℕ) (w : Worker) (s : Shared)
      → AccountedWith m k w s
      → AccountedWith m k (turn actions w s).0 (turn actions w s).1
  unfolding turn q_push
  turn-accounted m k looking s h = pop-accounted m k s.dirs s.taken s.searched s.cap s.pending h
  turn-accounted m k starved s h = elim (Bool-cases (s.pending == 0)) [
    | inl none_left ↦ rw (none_left, turn) h
    | inr some_left ↦ rw (some_left, turn) h
  ]
  turn-accounted m k (walking []) s h = h
  turn-accounted m k (walking (descend d ∷ todo)) s (hd, hf) = (omega arith, hf)
  turn-accounted m k (walking (search f ∷ todo)) s (hd, hf) = (hd, omega arith)
  turn-accounted m k exited s h = h

  Step-IsAccounted : {q r : Pool} → Step actions q r → IsAccounted q → IsAccounted r
  Step-IsAccounted (a_turn before after w s) h =
      let m = total (left (count_dirs p)) before + total (left (count_dirs p)) after in
      let k = total (left (count_files p)) before + total (left (count_files p)) after in
      let w' = (turn actions w s).0 in
      let (hd, hf) : AccountedWith m k w' (turn actions w s).1 = turn-accounted m k w s (
        omega (arith, h.dirs, total-append (left (count_dirs p)) before w after),
        omega (arith, h.files, total-append (left (count_files p)) before w after),
      ) in
      record {
        dirs = omega (arith, hd, total-append (left (count_dirs p)) before w' after);
        files = omega (arith, hf, total-append (left (count_files p)) before w' after);
      }

start_workers-left : (f : List Action → ℕ) (n : ℕ) → total (left f) (start_workers n) ≡ 0
unfolding start_workers
start_workers-left f zero = refl
start_workers-left f (suc n) = omega (arith, start_workers-left f n)

push_all-fresh :
    (p : Bytes → Bool) (roots : List Bytes) (s : Shared)
    → ((push_all roots s).taken ≡ s.taken)
      × ((push_all roots s).searched ≡ s.searched)
      × (count p (push_all roots s).dirs ≡ count p roots + count p s.dirs)
unfolding push_all q_push
push_all-fresh p [] s = (refl, refl, omega arith)
push_all-fresh p (d ∷ ds) s =
    let (t, e, c) = push_all-fresh p ds (q_push d s) in (t, e, omega (arith, c))

start-IsAccounted :
    (actions : Bytes → List Action) (p : Bytes → Bool) (n : ℕ) (roots : List Bytes)
    → IsAccounted actions p (count p roots) (start n roots)
unfolding start
start-IsAccounted actions p n roots =
    let (t, e, c) = push_all-fresh p roots untouched in
    record {
      dirs = rw t (omega (arith, c, start_workers-left (count_dirs p) n));
      files = rw (t, e) (omega (arith, start_workers-left (count_files p) n));
    }

Runs-IsAccounted :
    (actions : Bytes → List Action) (p : Bytes → Bool) (n : ℕ) (roots : List Bytes) {q : Pool}
    → Runs actions (start n roots) q
    → IsAccounted actions p (count p roots) q
Runs-IsAccounted actions p n roots stay = start-IsAccounted actions p n roots
Runs-IsAccounted actions p n roots (go runs step) =
    Step-IsAccounted actions p (count p roots) step (Runs-IsAccounted actions p n roots runs)

-- A thread that walks no directory has no actions left.
nothing_left : (f : List Action → ℕ) (ws : List Worker) → total walks ws ≡ 0 → total (left f) ws ≡ 0
nothing_left f [] z = refl
nothing_left f (looking ∷ ws) z = omega (arith, nothing_left f ws)
nothing_left f (starved ∷ ws) z = omega (arith, nothing_left f ws)
nothing_left f (walking todo ∷ ws) z = absurd (omega arith)
nothing_left f (exited ∷ ws) z = omega (arith, nothing_left f ws)

nothing_queued : (p : Bytes → Bool) (ds : List Bytes) → count_paths ds ≡ 0 → count p ds ≡ 0
nothing_queued p [] z = refl
nothing_queued p (d ∷ ds) z = absurd (omega arith)

-- However the threads' turns interleave: as soon as one thread has left its loop, the queue is
-- empty and no thread is in `traverse`; and for every test of paths, as many directories that
-- pass it were taken as there are among the roots and, entry by entry, in the directories taken,
-- and as many files that pass it were searched as there are in these.
pub exited-everything_done :
    (actions : Bytes → List Action) (n : ℕ) (roots : List Bytes) (p : Bytes → Bool) {q : Pool}
    → Runs actions (start n roots) q
    → total exits q.workers ≢ 0
    → (count_paths q.shared.dirs ≡ 0)
      × (total walks q.workers ≡ 0)
      × (count p q.shared.taken ≡ count p roots + dirs_found actions p q.shared.taken)
      × (count p q.shared.searched ≡ files_found actions p q.shared.taken)
exited-everything_done actions n roots p {q} runs out =
    let counted = Runs-IsCounted actions n roots runs in
    let z = counted.quiet out in
    let no_dirs : count_paths q.shared.dirs ≡ 0 = omega (arith, counted.pending) in
    let no_walks : total walks q.workers ≡ 0 = omega (arith, counted.pending) in
    let acc = Runs-IsAccounted actions p n roots runs in
    (
      no_dirs,
      no_walks,
      omega (
        arith,
        acc.dirs,
        nothing_left (count_dirs p) q.workers no_walks,
        nothing_queued p q.shared.dirs no_dirs,
      ),
      omega (arith, acc.files, nothing_left (count_files p) q.workers no_walks),
    )
