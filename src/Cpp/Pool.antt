-- ===== src/Cpp/Pool.antt =====
-- cpp/grep_mt.cpp: `flush`, and what `worker` does with a file and behind its loop.
pub mod Passing
pub mod Written
use asmgrep.Base.{
  ℕ, Bool, List, [], ◌∷◌, leb, ◌==◌, if◌then◌else◌, Bytes, length, Outcome, ok, ◌>>=◌,
}
use asmgrep.Threads.{ThreadWork}
use asmgrep.Cpp.{Globals, Sink}
use asmgrep.Cpp.Std.{StreamAnswers, search_stream}

abbrev pub out_flush : ℕ
out_flush = 65536

-- `flush`: the string that is left, and what is handed to `fwrite` under the lock.
unfoldable pub flush_string : Bytes → Bytes × List Bytes
flush_string out = if length out == 0 then (out, []) else ([], out ∷ [])

unfoldable pub flush_full : Sink → Sink × List Bytes
flush_full s =
    let f = flush_string s.out in
    if leb out_flush (length s.out) then (record s { out = f.0 }, f.1) else (s, [])

-- The body of the loop of `worker` for the file of an index, and the flush behind the loop.
unfoldable pub stream_work : Globals → ℕ → (ℕ → Bytes) → (ℕ → StreamAnswers) → ThreadWork Sink
stream_work g nfiles path answers = record {
  nfiles = nfiles;
  search_file = λ i s. do
    s' ← search_stream g (path i) (answers i) s
    ok (flush_full s');
  matched = λ s. s.matched;
  last_flush = λ s. (flush_string s.out).1;
}

-- A thread at its start.
abbrev pub empty_sink : Sink
empty_sink = record { matched = Bool.false; out = [] }
