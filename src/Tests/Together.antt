-- ===== src/Tests/Together.antt =====
-- Whole runs of the threads over a file, by evaluation, and the theorems about them at these runs.
use asmgrep.Base.{
  ℕ, inl, zero, suc, ◌≡◌, refl, true, false, some, [], ◌∷◌, Bytes, take, drop, length,
}
use asmgrep.Std.{settings}
use asmgrep.Libc.{memchr, memrchr, memcmp_eq}
use asmgrep.Base.{load}
use asmgrep.Std.{memmem, tolower, line_start, line_end}
use asmgrep.LineLoop.{line_loop, around_match}
use asmgrep.Lines.Slice.{or_end, behind}
use asmgrep.Threads.{
  ThreadWork, Member, claiming, Shared, after_search, set_matched, untouched, write, member_turn,
  members, Comes, begin, then_turn,
}
use asmgrep.Threads.Written.{at_work}
use asmgrep.Threads.Ends.{Ends, always-Ends}
use asmgrep.Threads.AllLines.{AllLines}
use asmgrep.Cpp.{
  sv_find, sv_find_char, sv_rfind_char, lower, globals, Sink, format_line, append_line, view_ends,
  view_loop,
}
use asmgrep.Cpp.Std.{StreamAnswers, read_sized, read_file, search_view, search_read, search_stream}
use asmgrep.Cpp.Agrees.{StreamReads}
use asmgrep.Cpp.Pool.{flush_string, flush_full, stream_work, empty_sink}
use asmgrep.Cpp.Pool.Written.{stream_work-AllLines}
use asmgrep.Cpp.Tuned.{
  SeekAnswers, TunedThread, resize_up, tuned_read, tuned_search, tuned_view, tuned_sized,
  tuned_search_file, tuned_work, new_tuned,
}
use asmgrep.Cpp.Tuned.Agrees.{SeekReads}
use asmgrep.Cpp.Tuned.Written.{tuned_work-AllLines}
use asmgrep.Mt.{ob_line, ob_total, ob_copy, ob_flush}
use asmgrep.Mt.Search.{
  fresh_bytes, ensure, store, read_rest, mt_ends, mt_print, mt_loop, mt_search, mt_read, mt_sized,
  mt_told, mt_search_file, MtAnswers, Thread,
}
use asmgrep.Mt.Search.Agrees.{MtReads}
use asmgrep.Mt.Worker.{mt_work, new_thread}
use asmgrep.Mt.Worker.Written.{mt_work-AllLines}
use asmgrep.Tests.Runs.{bytes_of}

-- One thread, after some turns.
unfoldable pub after : {L : Type 0} → ThreadWork L → L → ℕ → Member L × Shared
after t b zero = (claiming b, untouched)
after t b (suc n) = member_turn t (after t b n).0 (after t b n).1

pub solo :
    {L : Type 0} (t : ThreadWork L) (b : L) (n : ℕ)
    → Comes t b 1 ((after t b n).0 ∷ []) (after t b n).1
unfolding after members
solo t b zero = begin
solo t b (suc n) = then_turn [] [] (after t b n).0 (after t b n).1 (solo t b n)

abbrev pattern : Bytes
pattern = bytes_of "error"

abbrev content : Bytes
content = bytes_of "one\nan Error\nERROR"

abbrev path : ℕ → Bytes
path i = bytes_of "b.txt"

abbrev contents : ℕ → Bytes
contents i = content

abbrev streamed : ℕ → StreamAnswers
streamed i = record { file_size = some (length content); opens = true; reads = λ n. take n content }

streamed-StreamReads : (i : ℕ) → StreamReads content (streamed i)
streamed-StreamReads i = inl (record { file_size = refl; opens = refl; reads = refl })

abbrev streaming : ThreadWork Sink
streaming = stream_work (globals pattern true true) 1 path streamed

streaming-ended : at_work ((after streaming empty_sink 7).0 ∷ []) ≡ 0
unfolding after member_turn after_search set_matched write stream_work flush_string flush_full
    globals search_stream read_file read_sized search_read search_view view_loop line_loop
    around_match sv_find sv_find_char sv_rfind_char memmem memchr memrchr memcmp_eq load view_ends
    append_line format_line lower or_end behind
streaming-ended = refl

stream_work-AllLines_example :
    AllLines pattern true true path contents 1 (after streaming empty_sink 7).1.written
stream_work-AllLines_example =
    stream_work-AllLines pattern true true 1 path contents streamed streamed-StreamReads 1
      (after streaming empty_sink 7).0 [] (after streaming empty_sink 7).1
      (solo streaming empty_sink 7) streaming-ended

-- What this run has written.
streaming-written :
    (after streaming empty_sink 7).1.written ≡ bytes_of "b.txt:an Error\nb.txt:ERROR\n" ∷ []
unfolding after member_turn after_search set_matched write stream_work flush_string flush_full
    globals search_stream read_file read_sized search_read search_view view_loop line_loop
    around_match sv_find sv_find_char sv_rfind_char memmem memchr memrchr memcmp_eq load view_ends
    append_line format_line lower or_end behind
streaming-written = refl

always-Ends_example : Ends streaming (claiming empty_sink ∷ claiming empty_sink ∷ []) untouched
always-Ends_example =
    always-Ends streaming (claiming empty_sink ∷ claiming empty_sink ∷ []) untouched

abbrev sought : ℕ → SeekAnswers
sought i = record {
  file_size = some (length content);
  opens = true;
  reads = λ k n. take n (drop k content);
}

sought-SeekReads : (i : ℕ) → SeekReads content (sought i)
sought-SeekReads i = inl (record { file_size = refl; opens = refl; reads = λ k n. refl })

abbrev tuning : ThreadWork TunedThread
tuning = tuned_work (globals pattern false true) 1 path sought

tuning-ended : at_work ((after tuning new_tuned 7).0 ∷ []) ≡ 0
unfolding after member_turn after_search set_matched write tuned_work flush_string flush_full
    globals tuned_search_file tuned_sized tuned_view tuned_search tuned_read resize_up ensure
    fresh_bytes store view_loop line_loop around_match sv_find sv_find_char sv_rfind_char memmem
    memchr memrchr memcmp_eq load view_ends append_line format_line or_end behind
tuning-ended = refl

tuned_work-AllLines_example :
    AllLines pattern false true path contents 1 (after tuning new_tuned 7).1.written
tuned_work-AllLines_example =
    tuned_work-AllLines pattern false true 1 path contents sought sought-SeekReads 1
      (after tuning new_tuned 7).0 [] (after tuning new_tuned 7).1 (solo tuning new_tuned 7)
      tuning-ended

abbrev threaded : ℕ → MtAnswers
threaded i = record {
  fopen = true;
  fseek = true;
  ftell = some (length content);
  fread = λ k n. take n (drop k content);
}

threaded-MtReads : (i : ℕ) → MtReads content (threaded i)
threaded-MtReads i = inl (record { fopen = refl; fseek = refl; ftell = refl; fread = λ k n. refl })

abbrev threading : ThreadWork Thread
threading = mt_work (λ i. i) (settings pattern true true) 1 path threaded

threading-ended : at_work ((after threading new_thread 7).0 ∷ []) ≡ 0
unfolding after member_turn after_search set_matched write mt_work settings mt_search_file mt_told
    mt_sized mt_read mt_search mt_loop mt_ends mt_print read_rest ensure fresh_bytes store line_loop
    around_match memmem memchr memcmp_eq load line_start line_end tolower ob_line ob_total ob_copy
    ob_flush
threading-ended = refl

mt_work-AllLines_example :
    AllLines pattern true true path contents 1 (after threading new_thread 7).1.written
mt_work-AllLines_example =
    mt_work-AllLines (λ i. i) pattern true true 1 path contents threaded threaded-MtReads 1
      (after threading new_thread 7).0 [] (after threading new_thread 7).1
      (solo threading new_thread 7) threading-ended
