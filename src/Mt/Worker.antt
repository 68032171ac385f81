-- ===== src/Mt/Worker.antt =====
-- c/grep_std_mt.c: what `worker` does with a file and behind its loop. A thread starts a file with
-- what its buffer holds; what is written meanwhile is counted anew for each file.
pub mod Passing
pub mod Written
use asmgrep.Base.{ℕ, Bool, List, [], map, flatten, Bytes, ok, ◌>>=◌}
use asmgrep.Std.{Settings}
use asmgrep.Threads.{ThreadWork}
use asmgrep.Mt.{Ob, ob_flush, empty_ob}
use asmgrep.Mt.Search.{MtAnswers, Thread, mt_search_file}

abbrev pub unwritten : Ob → Ob
unwritten o = record o { written = [] }

-- The body of the loop of `worker` for the file of an index, and `ob_flush` behind the loop.
unfoldable pub mt_work : (ℕ → ℕ) → Settings → ℕ → (ℕ → Bytes) → (ℕ → MtAnswers) → ThreadWork Thread
mt_work fresh g nfiles path answers = record {
  nfiles = nfiles;
  search_file = λ i t. do
    t' ← mt_search_file fresh g (path i) (answers i) (record t { o = unwritten t.o })
    ok (t', map flatten t'.o.written);
  matched = λ t. t.matched;
  last_flush = λ t. map flatten (ob_flush (unwritten t.o)).written;
}

-- A thread at its start.
abbrev pub new_thread : Thread
new_thread = record { o = empty_ob; matched = Bool.false; rbuf = []; lbuf = [] }
