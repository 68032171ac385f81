-- ===== src/Mt/Worker/Written.antt =====
-- All lines of all files come out of the threads of c/grep_std_mt.c, whole and once.
use mathlib.Core.Path.{subst}
use asmgrep.Base.{
  ℕ, ◌≡◌, refl, ap, sym, ◌∙◌, Bool, false, List, [], ◌∷◌, map, flatten, arith, Bytes, Returns-bind,
}
use asmgrep.Pool.Accounts.{count}
use asmgrep.Output.{line_bytes}
use asmgrep.Std.{settings}
use asmgrep.Std.Lines.{file_lines}
use asmgrep.Threads.{ThreadWork, Member, Shared, Comes}
use asmgrep.Threads.Owed.{IsLineWise}
use asmgrep.Threads.Written.{at_work, Comes-no_crash, crashes}
use asmgrep.Threads.Flag.{IsFlagged}
use asmgrep.Threads.Whole.{flag_after-or}
use asmgrep.Threads.Buffers.{HoldsLines, Passes}
use asmgrep.Threads.AllLines.{printed_lines, AllLines, ended-AllLines}
use asmgrep.Mt.{Ob, ob_flush, ob_lines}
use asmgrep.Mt.InOrder.{ob_flush_lem}
use asmgrep.Mt.Search.{MtAnswers, Thread, mt_search_file}
use asmgrep.Mt.Search.Agrees.{MtReads, ThreadPrints, flag_after, mt_search_file-read_lines}
use asmgrep.Mt.Worker.{unwritten, mt_work, new_thread}
use asmgrep.Mt.Worker.Passing.{ObPasses, ObPasses-flush, ObPasses-lines}

-- Beginning with nothing written, the sections are what was written.
from_nothing :
    (xs : List Bytes) (o o' : Ob)
    → ObPasses xs (unwritten o) o'
    → Passes xs o.ob o'.ob (map flatten o'.written)
from_nothing xs o o' (sections, e, passes) =
    subst (λ w. Passes xs o.ob o'.ob (map flatten w)) (sym e) passes

module _ (fresh : ℕ → ℕ) (pat : Bytes) (ci multi : Bool) (nfiles : ℕ) (path m : ℕ → Bytes)
    (a : ℕ → MtAnswers) (h : (i : ℕ) → MtReads (m i) (a i)) where
  abbrev work : ThreadWork Thread
  work = mt_work fresh (settings pat ci multi) nfiles path a

  ThreadPrints-Passes :
      (i : ℕ) (t t' : Thread)
      → ThreadPrints
          (λ lines. lines ≡ file_lines pat ci (m i))
          multi
          (path i)
          (record t { o = unwritten t.o })
          t'
      → Passes (printed_lines pat ci multi path m i) t.o.ob t'.o.ob (map flatten t'.o.written)
  ThreadPrints-Passes i t t' (lines, e, o, flag) =
      from_nothing (printed_lines pat ci multi path m i) t.o t'.o (
        subst (ObPasses (printed_lines pat ci multi path m i) (unwritten t.o)) (sym o) (
          subst
            (λ ls.
              ObPasses (map (line_bytes multi (path i)) ls) (unwritten t.o)
                (ob_lines multi (path i) lines (unwritten t.o)))
            e (ObPasses-lines multi (path i) lines (unwritten t.o))))

  pub mt_work-IsLineWise :
      IsLineWise work new_thread
        (λ held t. HoldsLines held t.o.ob)
        (printed_lines pat ci multi path m)
  unfolding mt_work
  mt_work-IsLineWise = record {
    starts = (refl, λ _. refl);
    searches = λ i held t lt holds.
        let t0 = record t { o = unwritten t.o } in
        Returns-bind (mt_search_file fresh (settings pat ci multi) (path i) (a i) t0) _
          (ThreadPrints (λ lines. lines ≡ file_lines pat ci (m i)) multi (path i) t0) _
          (mt_search_file-read_lines fresh pat ci multi (path i) (m i) (a i) t0 (h i))
          (λ t' prints. ThreadPrints-Passes i t t' prints held holds);
    leaves = λ held t holds.
        let (_, empty) = ob_flush_lem (unwritten t.o) in
        let (groups, kept, e, (flat, solid), same) =
          from_nothing [] t.o (ob_flush (unwritten t.o)) (ObPasses-flush (unwritten t.o)) held
            holds in
        (groups, e, λ p. omega (arith, same p, ap (count p) (solid (flat ∙ empty))));
  }

  pub mt_work-IsFlagged :
      IsFlagged work new_thread (λ i. flag_after (file_lines pat ci (m i)) false)
  unfolding mt_work
  mt_work-IsFlagged = record {
    starts = refl;
    searches = λ i t lt.
        let t0 = record t { o = unwritten t.o } in
        Returns-bind (mt_search_file fresh (settings pat ci multi) (path i) (a i) t0) _
          (ThreadPrints (λ lines. lines ≡ file_lines pat ci (m i)) multi (path i) t0) _
          (mt_search_file-read_lines fresh pat ci multi (path i) (m i) (a i) t0 (h i))
          (λ t' (lines, e, o, flag).
            flag
            ∙ ap (λ ls. flag_after ls t.matched) e
            ∙ flag_after-or (file_lines pat ci (m i)) t.matched);
  }

  -- However the threads of c/grep_std_mt.c take turns, over files that are read without errors
  -- or that cannot be opened and count as empty:
  -- when all threads (one at least) have ended, whole lines were written each time that the lock
  -- was held, and all in all exactly the lines that c/grep_std.c prints for the files.
  pub mt_work-AllLines :
      (nt : ℕ) (w : Member Thread) (ws : List (Member Thread)) (s : Shared)
      → Comes work new_thread nt (w ∷ ws) s
      → at_work (w ∷ ws) ≡ 0
      → AllLines pat ci multi path m nfiles s.written
  unfolding mt_work
  mt_work-AllLines nt w ws s r z =
      ended-AllLines pat ci multi path m work new_thread (λ held t. HoldsLines held t.o.ob)
        mt_work-IsLineWise nt w ws s r z

  -- No thread of it ever searches out of bounds or without end.
  pub mt_work-no_crash :
      (nt : ℕ) (ws : List (Member Thread)) (s : Shared)
      → Comes work new_thread nt ws s
      → crashes ws ≡ 0
  mt_work-no_crash nt ws s r =
      Comes-no_crash work new_thread (λ held t. HoldsLines held t.o.ob)
        (printed_lines pat ci multi path m) mt_work-IsLineWise nt r
