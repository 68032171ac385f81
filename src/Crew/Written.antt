-- ===== src/Crew/Written.antt =====
-- What the threads of c/grep.c have written when all have ended.
use asmgrep.Base.{
  ℕ, zero, suc, ◌+◌, ◌≡◌, ◌≢◌, refl, ap, sym, ◌∙◌, Bool, List, [], ◌∷◌, ◌++◌, map, flatten, arith,
  Bytes,
}
use asmgrep.Output.{State, flush_ctx, line_bytes, initial}
use asmgrep.Scan.Correct.{IsSetUp}
use asmgrep.Std.{nothing_printed}
use asmgrep.Std.Lines.{StdLines, file_lines, file_lines-StdLines}
use asmgrep.Pool.{looking, starved, walking, exited, push_all, q_push, untouched, Shared}
use asmgrep.Pool.Accounts.{count, over, total, exits}
use asmgrep.Pool.Finished.{exited-everything_done, files_found, dirs_found}
use asmgrep.Threads.Ledger.{Tally, Owe, Owe-pick}
use asmgrep.Threads.Owed.{count-append, flatten-append, map-append, no_group}
use asmgrep.Crew.{
  Hand, hand, broken, Common, Setting, visit_roots, hand_turn, fresh_hands, hands, Works, begin,
  then_turn,
}
use asmgrep.Crew.Emitted.{FileReads, from_nothing_out, StatePasses-then, StatePasses-flush}
use asmgrep.Output.Room.{flush_ctx-obuf}
use asmgrep.Crew.Roots.{
  root_files, root_dirs, Visited, lines_in, count-lines_in, visit_roots-Visited,
}
use mathlib.Core.Path.{subst}
use asmgrep.Base.{Option, ok, Returns}
use asmgrep.Pool.{Mode}
use asmgrep.Crew.Refines.{places, Works-Runs}
use asmgrep.Crew.Owed.{HandOwes, searched_lines, hand_turn-HandPaid}

-- The threads that have not ended, or have something to write, or are broken.
abbrev pub unfinished : List Hand → ℕ
unfinished [] = 0
unfinished (hand exited [] c ∷ hs) = unfinished hs
unfinished (hand exited (x ∷ xs) c ∷ hs) = suc (unfinished hs)
unfinished (hand looking xs c ∷ hs) = suc (unfinished hs)
unfinished (hand starved xs c ∷ hs) = suc (unfinished hs)
unfinished (hand (walking todo) xs c ∷ hs) = suc (unfinished hs)
unfinished (broken w ∷ hs) = suc (unfinished hs)

-- The threads whose search went out of bounds or did not end.
abbrev pub breaks : List Hand → ℕ
breaks [] = 0
breaks (hand w xs c ∷ hs) = breaks hs
breaks (broken w ∷ hs) = suc (breaks hs)

push_all-searched : (ds : List Bytes) (s : Shared) → (push_all ds s).searched ≡ s.searched
unfolding push_all q_push
push_all-searched [] s = refl
push_all-searched (d ∷ ds) s = push_all-searched ds (q_push d s)

module _ (e : Setting) (pat : Bytes) (ci : Bool) (m : Bytes → Bytes) (set : IsSetUp pat ci e.g)
    (readable : (f : Bytes) → FileReads (m f) (e.files f)) where
  -- The lines that c/grep_std.c prints for some files, and how many satisfy a test.
  abbrev lines_of_all : (Bytes → Bool) → List Bytes → ℕ
  lines_of_all p fs = searched_lines e pat ci m set readable p fs

  -- `fs` are the files that pass 2 has searched.
  abbrev Settled : List Bytes → List Hand → Common → Type 0
  Settled fs hs s =
      (groups : List (List Bytes)) × (owed : Tally) × (map flatten groups ≡ s.written)
      × Owe HandOwes hs owed
      × ((p : Bytes → Bool)
          → count p (flatten groups) + owed p ≡ lines_of_all p fs + lines_of_all p s.pool.searched)

  fresh_hands-Owe : (n : ℕ) → Owe HandOwes (fresh_hands n) (λ p. 0)
  unfolding fresh_hands
  fresh_hands-Owe zero = λ p. refl
  fresh_hands-Owe (suc n) = (
    λ p. 0,
    λ p. 0,
    ([], [], refl, (refl, λ _. refl), λ p. omega arith),
    fresh_hands-Owe n,
    λ p. omega arith,
  )

  start-Settled :
      (n : ℕ) (fs dirs roots : List Bytes) (c : State)
      → Visited e pat ci m set readable fs dirs (initial, []) (c, roots)
      → Settled fs
          (hands c (suc n))
          (record { pool = push_all roots untouched; written = map flatten c.out })
  unfolding hands
  start-Settled n fs dirs roots c (passes, pushed) =
      let (groups, kept, written, holds, same) =
        from_nothing_out (lines_in e pat ci m set readable fs) initial c refl passes []
          (refl, λ _. refl) in
      (
        groups,
        λ p. count p kept + 0,
        written,
        (
          λ p. count p kept,
          λ p. 0,
          ([], kept, refl, holds, λ p. omega arith),
          fresh_hands-Owe n,
          λ p. refl,
        ),
        λ p. omega (
          arith,
          same p,
          count-lines_in e pat ci m set readable p fs,
          ap (lines_of_all p) (push_all-searched roots untouched),
        ),
      )

  turn-Settled :
      (fs : List Bytes) (before after : List Hand) (h : Hand) (s : Common)
      → Settled fs (before ++ h ∷ after) s
      → Settled fs (before ++ (hand_turn e h s).0 ∷ after) (hand_turn e h s).1
  turn-Settled fs before after h s (groups, owed, written, os, settled) =
      let (g, rest, o, tally, back) = Owe-pick HandOwes before after h owed os in
      let (more, g', written', o', paid) = hand_turn-HandPaid e pat ci m set readable h s g o in
      (
        groups ++ more,
        λ p. g' p + rest p,
        map-append groups more ∙ ap (λ r. r ++ map flatten more) written ∙ sym written',
        back HandOwes (hand_turn e h s).0 g' (λ v k o. o) o',
        λ p. omega (
          arith,
          settled p,
          tally p,
          paid p,
          ap (count p) (flatten-append groups more),
          count-append p (flatten groups) (flatten more),
        ),
      )

  Works-Settled :
      (n : ℕ) (fs dirs roots : List Bytes) (c : State) {hs : List Hand} {s : Common}
      → Visited e pat ci m set readable fs dirs (initial, []) (c, roots)
      → Works e c (suc n) roots hs s
      → Settled fs hs s
  Works-Settled n fs dirs roots c visited begin = start-Settled n fs dirs roots c visited
  Works-Settled n fs dirs roots c visited (then_turn before after h s r) =
      turn-Settled fs before after h s (Works-Settled n fs dirs roots c visited r)

  none_broken : (hs : List Hand) (f : Tally) → Owe HandOwes hs f → breaks hs ≡ 0
  none_broken [] f o = refl
  none_broken (hand w xs c ∷ hs) f (g, rest, o, os, tally) = none_broken hs rest os
  none_broken (broken w ∷ hs) f (g, rest, o, os, tally) = absurd o

  nothing_owed :
      (hs : List Hand) (f : Tally)
      → unfinished hs ≡ 0
      → Owe HandOwes hs f
      → (p : Bytes → Bool) → f p ≡ 0
  nothing_owed [] f z o p = o p
  nothing_owed (hand exited [] c ∷ hs) f z (g, rest, ([], held, same, kept, owes), os, tally) p =
      omega (arith, tally p, owes p, ap (count p) kept, nothing_owed hs rest z os p)
  nothing_owed (hand exited [] c ∷ hs) f z (g, rest, (x ∷ xs, held, same, kept, owes), os, tally)
        p =
      absurd (no_group (flatten x) (map flatten xs) (sym same))
  nothing_owed (hand exited (x ∷ xs) c ∷ hs) f z o p = absurd (omega arith)
  nothing_owed (hand looking xs c ∷ hs) f z o p = absurd (omega arith)
  nothing_owed (hand starved xs c ∷ hs) f z o p = absurd (omega arith)
  nothing_owed (hand (walking todo) xs c ∷ hs) f z o p = absurd (omega arith)
  nothing_owed (broken w ∷ hs) f z o p = absurd (omega arith)

  one_exited :
      (h : Hand) (hs : List Hand) → unfinished (h ∷ hs) ≡ 0 → total exits (places (h ∷ hs)) ≢ 0
  one_exited (hand exited [] c) hs z = λ none_out. omega arith
  one_exited (hand exited (x ∷ xs) c) hs z = absurd (omega arith)
  one_exited (hand looking xs c) hs z = absurd (omega arith)
  one_exited (hand starved xs c) hs z = absurd (omega arith)
  one_exited (hand (walking todo) xs c) hs z = absurd (omega arith)
  one_exited (broken w) hs z = absurd (omega arith)

  module _ (r : Bool) (stat : Bytes → Option Mode) (paths : List Bytes) (c : State)
      (roots : List Bytes) (pass2 : visit_roots e r stat paths (initial, []) ≡ ok (c, roots)) where
    pub roots-Visited :
        Visited e pat ci m set readable
          (root_files stat paths)
          (root_dirs r stat paths)
          (initial, [])
          (c, roots)
    roots-Visited =
        subst
          (λ x. Returns x (
            Visited e pat ci m set readable (root_files stat paths) (root_dirs r stat paths)
              (initial, [])))
          pass2 (visit_roots-Visited e pat ci m set readable r stat paths (initial, []))

    -- Over paths and directories whose files are read without errors, or cannot be opened or read and
    -- count as empty, with a pattern that
    -- `prep_pattern` has set up: in no state that the threads of c/grep.c reach, when pass 2 of `main`
    -- is done, has a search of any thread read out of bounds or failed to end.
    pub Works-no_break :
        (n : ℕ) (hs : List Hand) (s : Common) → Works e c (suc n) roots hs s → breaks hs ≡ 0
    Works-no_break n hs s w =
        let (groups, owed, written, os, settled) =
          Works-Settled n (root_files stat paths) (root_dirs r stat paths) roots c roots-Visited
            w in
        none_broken hs owed os

    -- The same with the lines by name.
    pub Works-file_lines :
        (n : ℕ) (h : Hand) (hs : List Hand) (s : Common)
        → Works e c (suc n) roots (h ∷ hs) s
        → unfinished (h ∷ hs) ≡ 0
        → (groups : List (List Bytes)) × (map flatten groups ≡ s.written)
          × ((p : Bytes → Bool)
              → count p (flatten groups)
                ≡ lines_of_all p (root_files stat paths) + lines_of_all p s.pool.searched)
          × ((p : Bytes → Bool) → count p s.pool.searched ≡ files_found e.actions p s.pool.taken)
          × ((p : Bytes → Bool)
              → count p s.pool.taken
                ≡ count p (root_dirs r stat paths) + dirs_found e.actions p s.pool.taken)
    Works-file_lines n h hs s w z =
        let (groups, owed, written, os, settled) =
          Works-Settled n (root_files stat paths) (root_dirs r stat paths) roots c roots-Visited
            w in
        let runs = Works-Runs e c (suc n) roots w in
        let done = λ (p : Bytes → Bool).
          exited-everything_done e.actions (suc n) roots p runs (one_exited h hs z) in
        (
          groups,
          written,
          λ p. omega (arith, settled p, nothing_owed (h ∷ hs) owed z os p),
          λ p. (done p).3,
          λ p. omega (arith, (done p).2, ap (count p) roots-Visited.1),
        )

    -- For paths and directories whose files are read without errors, or cannot be opened or read and
    -- count as empty, and a pattern that
    -- `prep_pattern` has set up: when pass 2 of `main` has visited the paths, then, however the
    -- threads of c/grep.c take turns, when all of them have ended, whole lines were written each time
    -- that the lock was held; these are, all in all, exactly the lines that c/grep_std.c prints for
    -- the files among the paths and for the files that the threads searched; and the latter are
    -- those found in the directories among the paths (under -r) and in every directory found from
    -- there, as often as they are found.
    pub Works-all_lines :
        (n : ℕ) (h : Hand) (hs : List Hand) (s : Common)
        → Works e c (suc n) roots (h ∷ hs) s
        → unfinished (h ∷ hs) ≡ 0
        → (lines : Bytes → List Bytes) × (groups : List (List Bytes)) × ((f : Bytes)
            → StdLines pat ci e.multi f (m f) nothing_printed (lines f))
          × (map flatten groups ≡ s.written)
          × ((p : Bytes → Bool)
              → let printed = over (λ f. count p (map (line_bytes e.multi f) (lines f))) in
                count p (flatten groups)
                ≡ printed (root_files stat paths) + printed s.pool.searched)
          × ((p : Bytes → Bool) → count p s.pool.searched ≡ files_found e.actions p s.pool.taken)
          × ((p : Bytes → Bool)
              → count p s.pool.taken
                ≡ count p (root_dirs r stat paths) + dirs_found e.actions p s.pool.taken)
    Works-all_lines n h hs s w z =
        let (groups, written, lines, searched, taken) = Works-file_lines n h hs s w z in
        (
          λ f. file_lines pat ci (m f),
          groups,
          λ f. file_lines-StdLines pat ci (m f) e.multi f nothing_printed,
          written,
          lines,
          searched,
          taken,
        )

    pub flush_ctx-file_lines :
        (groups : List (List Bytes)) × (map flatten groups ≡ map flatten (flush_ctx c).out)
        × ((p : Bytes → Bool) → count p (flatten groups) ≡ lines_of_all p (root_files stat paths))
    flush_ctx-file_lines =
        let files = root_files stat paths in
        let xs = lines_in e pat ci m set readable files in
        let (groups, kept, written, (flat, solid), same) =
          from_nothing_out (xs ++ []) initial (flush_ctx c) refl
            (StatePasses-then xs [] initial c (flush_ctx c) roots-Visited.0 (StatePasses-flush c))
            [] (refl, λ _. refl) in
        (
          groups,
          written,
          λ p. omega (
            arith,
            same p,
            ap (count p) (solid (flat ∙ flush_ctx-obuf c)),
            count-append p xs [],
            count-lines_in e pat ci m set readable p files,
          ),
        )

    -- For paths whose files are read without errors, or cannot be opened or read and count as empty,
    -- and a pattern that `prep_pattern` has set up:
    -- when pass 2 of `main` has visited the paths and `main` flushes the first context (as it does
    -- itself when no directory was pushed), whole lines were written each time; all in all, exactly
    -- the lines that c/grep_std.c prints for the files among the paths.
    pub flush_ctx-all_lines :
        (lines : Bytes → List Bytes) × (groups : List (List Bytes)) × ((f : Bytes)
          → StdLines pat ci e.multi f (m f) nothing_printed (lines f))
        × (map flatten groups ≡ map flatten (flush_ctx c).out)
        × ((p : Bytes → Bool)
            → count p (flatten groups)
              ≡ over (λ f. count p (map (line_bytes e.multi f) (lines f))) (root_files stat paths))
    flush_ctx-all_lines =
        let (groups, written, lines) = flush_ctx-file_lines in
        (
          λ f. file_lines pat ci (m f),
          groups,
          λ f. file_lines-StdLines pat ci (m f) e.multi f nothing_printed,
          written,
          lines,
        )
