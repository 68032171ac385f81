-- ===== src/Cpp/Pool/Written.antt =====
-- All lines of all files come out of the threads of cpp/grep_mt.cpp, whole and once.
use asmgrep.Base.{
  ℕ, ◌≡◌, refl, ap, ◌∙◌, Bool, false, List, ◌∷◌, append-nil, arith, Bytes, Returns-bind,
}
use asmgrep.Pool.Accounts.{count}
use asmgrep.Std.Lines.{file_lines}
use asmgrep.Threads.AllLines.{printed_lines, AllLines, ended-AllLines}
use asmgrep.Threads.{ThreadWork, Member, Shared, Comes}
use asmgrep.Threads.Owed.{IsLineWise}
use asmgrep.Threads.Written.{at_work, Comes-no_crash, crashes}
use asmgrep.Mt.Search.Agrees.{flag_after}
use asmgrep.Threads.Flag.{IsFlagged}
use asmgrep.Threads.Whole.{flag_after-or}
use asmgrep.Threads.Buffers.{HoldsLines}
use asmgrep.Cpp.{globals, Sink}
use asmgrep.Cpp.Std.{StreamAnswers, search_stream}
use asmgrep.Cpp.Search.{SinkPrints}
use asmgrep.Cpp.Agrees.{StreamReads, search_stream-read_lines}
use asmgrep.Cpp.Pool.Passing.{
  flush_string-Passes, flush_string-nil, SinkPrints-Passes, flush_full-matched,
}
use asmgrep.Cpp.Pool.{stream_work, empty_sink}

module _ (pat : Bytes) (ci multi : Bool) (nfiles : ℕ) (path m : ℕ → Bytes) (a : ℕ → StreamAnswers)
    (h : (i : ℕ) → StreamReads (m i) (a i)) where
  abbrev work : ThreadWork Sink
  work = stream_work (globals pat ci multi) nfiles path a

  pub stream_work-IsLineWise :
      IsLineWise work empty_sink
        (λ held s. HoldsLines held s.out)
        (printed_lines pat ci multi path m)
  unfolding stream_work
  stream_work-IsLineWise = record {
    starts = (refl, λ _. refl);
    searches = λ i held c lt holds.
        Returns-bind (search_stream (globals pat ci multi) (path i) (a i) c) _
          (SinkPrints (λ lines. lines ≡ file_lines pat ci (m i)) multi (path i) c) _
          (search_stream-read_lines pat ci multi (path i) (m i) c (a i) (h i))
          (λ s prints.
            let (groups, kept, e, holds', same) =
              SinkPrints-Passes pat ci multi path m i c s prints held holds in
            (
              groups,
              kept,
              e,
              holds',
              λ p.
                  omega (
                    arith,
                    same p,
                    ap (count p) (append-nil (printed_lines pat ci multi path m i)),
                  ),
            ));
    leaves = λ held c holds.
        let (groups, kept, e, (flat, solid), same) = flush_string-Passes c.out held holds in
        (
          groups,
          e,
          λ p. omega (arith, same p, ap (count p) (solid (flat ∙ flush_string-nil c.out))),
        );
  }

  pub stream_work-IsFlagged :
      IsFlagged work empty_sink (λ i. flag_after (file_lines pat ci (m i)) false)
  unfolding stream_work
  stream_work-IsFlagged = record {
    starts = refl;
    searches = λ i c lt.
        Returns-bind (search_stream (globals pat ci multi) (path i) (a i) c) _
          (SinkPrints (λ lines. lines ≡ file_lines pat ci (m i)) multi (path i) c) _
          (search_stream-read_lines pat ci multi (path i) (m i) c (a i) (h i))
          (λ s (lines, e, o, flag).
            flush_full-matched s
            ∙ flag
            ∙ ap (λ ls. flag_after ls c.matched) e
            ∙ flag_after-or (file_lines pat ci (m i)) c.matched);
  }

  -- However the threads of cpp/grep_mt.cpp take turns, over files that are read without errors
  -- or that cannot be opened and count as empty: when
  -- all threads (one at least) have ended, whole lines were written each time that the lock was
  -- held, and all in all exactly the lines that c/grep_std.c prints for the files.
  pub stream_work-AllLines :
      (nt : ℕ) (w : Member Sink) (ws : List (Member Sink)) (s : Shared)
      → Comes work empty_sink nt (w ∷ ws) s
      → at_work (w ∷ ws) ≡ 0
      → AllLines pat ci multi path m nfiles s.written
  unfolding stream_work
  stream_work-AllLines nt w ws s r z =
      ended-AllLines pat ci multi path m work empty_sink (λ held s. HoldsLines held s.out)
        stream_work-IsLineWise nt w ws s r z

  -- No thread of it ever searches out of bounds or without end.
  pub stream_work-no_crash :
      (nt : ℕ) (ws : List (Member Sink)) (s : Shared)
      → Comes work empty_sink nt ws s
      → crashes ws ≡ 0
  stream_work-no_crash nt ws s r =
      Comes-no_crash work empty_sink (λ held s. HoldsLines held s.out)
        (printed_lines pat ci multi path m) stream_work-IsLineWise nt r
