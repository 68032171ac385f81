-- ===== src/Cpp/Tuned/Written.antt =====
-- All lines of all files come out of the threads of cpp/grep_mt_tuned.cpp, whole and once.
use asmgrep.Base.{
  ℕ, ◌≡◌, refl, ap, ◌∙◌, Bool, false, List, ◌∷◌, append-nil, arith, Bytes, Returns-bind,
}
use asmgrep.Pool.Accounts.{count}
use asmgrep.Std.Lines.{file_lines}
use asmgrep.Threads.AllLines.{printed_lines, AllLines, ended-AllLines}
use asmgrep.Threads.{ThreadWork, Member, Shared, Comes}
use asmgrep.Threads.Owed.{IsLineWise}
use asmgrep.Threads.Written.{at_work, Comes-no_crash, crashes}
use asmgrep.Mt.Search.Agrees.{flag_after}
use asmgrep.Threads.Flag.{IsFlagged}
use asmgrep.Threads.Whole.{flag_after-or}
use asmgrep.Threads.Buffers.{HoldsLines}
use asmgrep.Cpp.{globals}
use asmgrep.Cpp.Tuned.{SeekAnswers, TunedThread, tuned_search_file, tuned_work, new_tuned}
use asmgrep.Cpp.Tuned.Agrees.{SeekReads, TunedPrints, tuned_search_file-read_lines}
use asmgrep.Cpp.Pool.Passing.{
  flush_string-Passes, flush_string-nil, SinkPrints-Passes, flush_full-matched,
}

module _ (pat : Bytes) (ci multi : Bool) (nfiles : ℕ) (path m : ℕ → Bytes) (a : ℕ → SeekAnswers)
    (h : (i : ℕ) → SeekReads (m i) (a i)) where
  abbrev work : ThreadWork TunedThread
  work = tuned_work (globals pat ci multi) nfiles path a

  pub tuned_work-IsLineWise :
      IsLineWise work new_tuned
        (λ held t. HoldsLines held t.sink.out)
        (printed_lines pat ci multi path m)
  unfolding tuned_work
  tuned_work-IsLineWise = record {
    starts = (refl, λ _. refl);
    searches = λ i held c lt holds.
        Returns-bind (tuned_search_file (globals pat ci multi) (path i) (a i) c) _
          (TunedPrints (λ lines. lines ≡ file_lines pat ci (m i)) multi (path i) c) _
          (tuned_search_file-read_lines pat ci multi (path i) (m i) (a i) c (h i))
          (λ s prints.
            let (groups, kept, e, holds', same) =
              SinkPrints-Passes pat ci multi path m i c.sink s.sink prints held holds in
            (
              groups,
              kept,
              e,
              holds',
              λ p.
                  omega (
                    arith,
                    same p,
                    ap (count p) (append-nil (printed_lines pat ci multi path m i)),
                  ),
            ));
    leaves = λ held c holds.
        let (groups, kept, e, (flat, solid), same) = flush_string-Passes c.sink.out held holds in
        (
          groups,
          e,
          λ p. omega (arith, same p, ap (count p) (solid (flat ∙ flush_string-nil c.sink.out))),
        );
  }

  pub tuned_work-IsFlagged :
      IsFlagged work new_tuned (λ i. flag_after (file_lines pat ci (m i)) false)
  unfolding tuned_work
  tuned_work-IsFlagged = record {
    starts = refl;
    searches = λ i c lt.
        Returns-bind (tuned_search_file (globals pat ci multi) (path i) (a i) c) _
          (TunedPrints (λ lines. lines ≡ file_lines pat ci (m i)) multi (path i) c) _
          (tuned_search_file-read_lines pat ci multi (path i) (m i) (a i) c (h i))
          (λ s (lines, e, o, flag).
            flush_full-matched s.sink
            ∙ flag
            ∙ ap (λ ls. flag_after ls c.sink.matched) e
            ∙ flag_after-or (file_lines pat ci (m i)) c.sink.matched);
  }

  -- However the threads of cpp/grep_mt_tuned.cpp take turns, over files that are read without errors
  -- or that cannot be opened and count as empty: when
  -- all threads (one at least) have ended, whole lines were written each time that the lock was
  -- held, and all in all exactly the lines that c/grep_std.c prints for the files.
  pub tuned_work-AllLines :
      (nt : ℕ) (w : Member TunedThread) (ws : List (Member TunedThread)) (s : Shared)
      → Comes work new_tuned nt (w ∷ ws) s
      → at_work (w ∷ ws) ≡ 0
      → AllLines pat ci multi path m nfiles s.written
  unfolding tuned_work
  tuned_work-AllLines nt w ws s r z =
      ended-AllLines pat ci multi path m work new_tuned (λ held t. HoldsLines held t.sink.out)
        tuned_work-IsLineWise nt w ws s r z

  -- No thread of it ever searches out of bounds or without end.
  pub tuned_work-no_crash :
      (nt : ℕ) (ws : List (Member TunedThread)) (s : Shared)
      → Comes work new_tuned nt ws s
      → crashes ws ≡ 0
  tuned_work-no_crash nt ws s r =
      Comes-no_crash work new_tuned (λ held t. HoldsLines held t.sink.out)
        (printed_lines pat ci multi path m) tuned_work-IsLineWise nt r
