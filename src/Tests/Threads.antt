-- ===== src/Tests/Threads.antt =====
-- A small tree walked by two threads, by evaluation, and the theorems about the pool at that run.
use asmgrep.Base.{ℕ, ◌+◌, ◌≡◌, refl, true, none, some, List, [], ◌∷◌, arith, Bytes}
use asmgrep.Pool.{
  Dirent, dt_dir, dt_reg, dt_lnk, dt_unknown, s_reg, Action, descend, search, all_actions,
  entry_actions, is_self_or_parent, action_for, Worker, Shared, Pool, start, start_workers,
  push_all, q_push, grown, turn, q_pop, take_up, Step, a_turn, Runs, stay, go, looking, starved,
  walking, exited, count_paths,
}
use asmgrep.Pool.Accounts.{IsCounted, Runs-IsCounted, count, total, walks}
use asmgrep.Pool.Finished.{dirs_found, files_found, exited-everything_done}
use asmgrep.Tests.Runs.{bytes_of}

-- The directory d holds a directory, a file, a link, a file of unknown type and itself.
abbrev entries : List Dirent
entries =
    record { d_name = bytes_of "."; d_type = dt_dir; stat = none }
    ∷ record { d_name = bytes_of "e"; d_type = dt_dir; stat = none }
    ∷ record { d_name = bytes_of "f"; d_type = dt_reg; stat = none }
    ∷ record { d_name = bytes_of "l"; d_type = dt_lnk; stat = some s_reg }
    ∷ record { d_name = bytes_of "u"; d_type = dt_unknown; stat = some s_reg }
    ∷ []

walk_entries :
    all_actions true (bytes_of "d") entries
    ≡ descend (bytes_of "d/e") ∷ search (bytes_of "d/f") ∷ search (bytes_of "d/u") ∷ []
unfolding all_actions entry_actions is_self_or_parent action_for
walk_entries = refl

-- Every directory holds one file.
abbrev one_file : Bytes → List Action
one_file dir = search (b'f' ∷ dir) ∷ []

abbrev roots : List Bytes
roots = bytes_of "a" ∷ []

-- The first thread takes the root, searches its file, finds nothing more and leaves, while the
-- second one waits.
abbrev at_work : Worker → Shared → Pool
at_work w s = record { workers = w ∷ looking ∷ []; shared = s }

abbrev shared_state : ℕ → List Bytes → List Bytes → List Bytes → Shared
shared_state pending dirs taken searched = record {
  dirs = dirs;
  cap = 1024;
  pending = pending;
  taken = taken;
  searched = searched;
}

abbrev last : Pool
last = at_work exited (shared_state 0 [] roots (bytes_of "fa" ∷ []))

solo :
    (w : Worker) (s : Shared)
    → Step one_file (at_work w s) (at_work (turn one_file w s).0 (turn one_file w s).1)
solo w s = a_turn [] (looking ∷ []) w s

run : Runs one_file (start 2 roots) last
unfolding start start_workers push_all q_push grown turn q_pop take_up
run =
    let took : Runs one_file (start 2 roots)
        (at_work (walking (one_file (bytes_of "a"))) (shared_state 1 [] roots [])) =
      go stay (solo looking (shared_state 1 roots [] [])) in
    let searched : Runs one_file (start 2 roots)
        (at_work (walking []) (shared_state 1 [] roots (bytes_of "fa" ∷ []))) =
      go took (solo (walking (one_file (bytes_of "a"))) (shared_state 1 [] roots [])) in
    let finished : Runs one_file (start 2 roots)
        (at_work looking (shared_state 0 [] roots (bytes_of "fa" ∷ []))) =
      go searched (solo (walking []) (shared_state 1 [] roots (bytes_of "fa" ∷ []))) in
    go (go finished (solo looking (shared_state 0 [] roots (bytes_of "fa" ∷ []))))
      (solo starved (shared_state 0 [] roots (bytes_of "fa" ∷ [])))

Runs-IsCounted_example : IsCounted last
Runs-IsCounted_example = Runs-IsCounted one_file 2 roots run

exited-everything_done_example :
    (count_paths last.shared.dirs ≡ 0)
    × (total walks last.workers ≡ 0)
    × (count (λ d. true) last.shared.taken
        ≡ count (λ d. true) roots + dirs_found one_file (λ d. true) last.shared.taken)
    × (count (λ d. true) last.shared.searched ≡ files_found one_file (λ d. true) last.shared.taken)
exited-everything_done_example =
    exited-everything_done one_file 2 roots (λ d. true) run (omega arith)
