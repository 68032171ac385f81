-- ===== src/Cpp/Tuned.antt =====
-- cpp/grep_mt_tuned.cpp: `read_tuned` and `search_file`, with the buffers that a thread keeps from
-- file to file. The length of a buffer is its size; `resize` fills up with 0.
pub mod Agrees
pub mod Written
use asmgrep.Base.{
  ℕ, ◌+◌, ◌-◌, min, Bool, Option, none, some, List, [], map, ltb, ◌==◌, if◌then◌else◌, Bytes,
  length, take, Outcome, ok, ◌>>=◌,
}
use asmgrep.Mt.Search.{ensure, store}
use asmgrep.Threads.{ThreadWork}
use asmgrep.Cpp.{sv_find_char, cpp_bin_peek, lower, Globals, Sink, view_loop}
use asmgrep.Cpp.Pool.{flush_string, flush_full, empty_sink}

-- The answers of `fs::file_size` (`none` for an error), of opening the stream, and of reading from
-- so many bytes behind the start, asked for so many: the bytes that it delivers.
pub record SeekAnswers : Type 0 where
  pub file_size : Option ℕ
  pub opens : Bool
  pub reads : ℕ → ℕ → Bytes

-- `rbuf` and `lbuf`, and the string that lines are formatted into, with `g_matched`.
pub record TunedThread : Type 0 where
  pub sink : Sink
  pub rbuf : Bytes
  pub lbuf : Bytes

-- `if (buf.size() < n) buf.resize(n)`
unfoldable pub resize_up : ℕ → Bytes → Bytes
resize_up n buf = ensure (λ _. 0) n buf

-- `read_tuned` behind its guards: the number of bytes read, or `none` for a binary file, and the
-- buffer.
unfoldable pub tuned_read : (ℕ → ℕ → Bytes) → ℕ → Bytes → Outcome (Option ℕ × Bytes)
tuned_read reads sz rbuf = do
  let peek = min sz cpp_bin_peek
  let bytes = reads 0 peek
  b ← store (resize_up peek rbuf) 0 bytes
  let got = length bytes
  nul ← sv_find_char (take got b) 0 0
  let rest = reads got (sz - got)
  let more = (do b' ← store (resize_up sz b) got rest; ok (some (got + length rest), b'))
  elim nul [ some _ ↦ ok (none, b) | none ↦ if ltb got sz then more else ok (some got, b) ]

-- `search_file` from the point on where `rd` bytes have been read.
unfoldable pub tuned_search : Globals → Bytes → ℕ → TunedThread → Outcome TunedThread
tuned_search g path rd t = do
  let hay = take rd t.rbuf
  lbuf ← if g.ci then store (resize_up rd t.lbuf) 0 (map lower hay) else ok t.lbuf
  s ← view_loop g path hay (if g.ci then take rd lbuf else hay) t.sink
  ok (record { sink = s; rbuf = t.rbuf; lbuf = lbuf })

unfoldable pub tuned_view : Globals → Bytes → TunedThread → Option ℕ × Bytes → Outcome TunedThread
tuned_view g path t (none, rbuf) = ok (record t { rbuf = rbuf })
tuned_view g path t (some rd, rbuf) =
    let t' = record t { rbuf = rbuf } in if rd == 0 then ok t' else tuned_search g path rd t'

unfoldable pub tuned_sized :
    Globals → Bytes → SeekAnswers → TunedThread → Option ℕ → Outcome TunedThread
tuned_sized g path a t none = ok t
tuned_sized g path a t (some sz) =
    let opened = (do r ← tuned_read a.reads sz t.rbuf; tuned_view g path t r) in
    if sz == 0 then ok t else if a.opens then opened else ok t

unfoldable pub tuned_search_file : Globals → Bytes → SeekAnswers → TunedThread → Outcome TunedThread
tuned_search_file g path a t = tuned_sized g path a t a.file_size

-- The body of the loop of `worker` for the file of an index, and the flush behind the loop.
unfoldable pub tuned_work : Globals → ℕ → (ℕ → Bytes) → (ℕ → SeekAnswers) → ThreadWork TunedThread
tuned_work g nfiles path answers = record {
  nfiles = nfiles;
  search_file = λ i t. do
    t' ← tuned_search_file g (path i) (answers i) t
    let f = flush_full t'.sink
    ok (record t' { sink = f.0 }, f.1);
  matched = λ t. t.sink.matched;
  last_flush = λ t. (flush_string t.sink.out).1;
}

-- A thread at its start.
abbrev pub new_tuned : TunedThread
new_tuned = record { sink = empty_sink; rbuf = []; lbuf = [] }
