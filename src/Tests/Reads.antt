-- ===== src/Tests/Reads.antt =====
-- The theorems about how the programs read a file and a command line, at concrete inputs.
use mathlib.Core.Path.{◌≡◌, refl}
use asmgrep.Base.{
  true, false, none, some, List, [], ◌∷◌, arith, if◌then◌else◌, Bytes, take, drop, length, Returns,
}
use asmgrep.Pattern.{prep_pattern}
use asmgrep.Output.{initial}
use asmgrep.Std.{settings, nothing_printed}
use asmgrep.Std.Lines.{StdLines}
use asmgrep.Reading.{Answers, search_file, StdAnswers}
use asmgrep.Reading.Content.{StdHolds}
use asmgrep.Reading.Failures.{reported, FailsOrPrints, search_file-reports}
use asmgrep.Mt.Search.{MtAnswers, Thread, mt_search_file}
use asmgrep.Mt.Search.Agrees.{MtHolds, ThreadPrints, mt_search_file-StdLines}
use asmgrep.Cpp.{globals, Sink}
use asmgrep.Cpp.Std.{StreamAnswers, search_stream}
use asmgrep.Cpp.Search.{SinkPrints}
use asmgrep.Cpp.Agrees.{StreamHolds, search_stream-StdLines}
use asmgrep.Cpp.Tuned.{SeekAnswers, TunedThread, tuned_search_file}
use asmgrep.Cpp.Tuned.Agrees.{SeekHolds, TunedPrints, tuned_search_file-StdLines}
use asmgrep.Tests.Runs.{bytes_of}

abbrev name : Bytes
name = bytes_of "b.txt"

abbrev content : Bytes
content = bytes_of "one\nan Error\nERROR"

-- A file that is opened, and then cannot be read.
abbrev unreadable : Answers
unreadable = record { opens = true; read = none; fstat = none; mmap = λ n. none }

search_file-reports_example : Returns (prep_pattern (bytes_of "error") true) (λ g.
    Returns (search_file g true name unreadable initial) (λ t.
      (t.err ≡ (if reported unreadable then true else false))
      × FailsOrPrints (reported unreadable) true name initial t))
search_file-reports_example =
    search_file-reports (bytes_of "error") true true name unreadable initial (λ _. omega arith)

abbrev std_answers : StdAnswers
std_answers = record {
  fopen = true;
  fseek = true;
  ftell = some (length content);
  fread = λ n. take n content;
}

std_answers-StdHolds : StdHolds content std_answers
std_answers-StdHolds = record { fopen = refl; fseek = refl; ftell = refl; fread = refl }

abbrev mt_answers : MtAnswers
mt_answers = record {
  fopen = true;
  fseek = true;
  ftell = some (length content);
  fread = λ i n. take n (drop i content);
}

mt_answers-MtHolds : MtHolds content mt_answers
mt_answers-MtHolds = record { fopen = refl; fseek = refl; ftell = refl; fread = λ i n. refl }

-- Buffers with bytes of earlier files, one too short and one too long.
abbrev used_thread : Thread
used_thread = record {
  o = record { ob = bytes_of "a.txt:error\n"; written = [] };
  matched = true;
  rbuf = bytes_of "an error";
  lbuf = bytes_of "some old bytes of an earlier file, in lower case";
}

mt_search_file-StdLines_example :
    Returns
      (mt_search_file (λ i. i) (settings (bytes_of "error") true true) name mt_answers used_thread)
      (ThreadPrints
        (StdLines (bytes_of "error") true true name content nothing_printed)
        true
        name
        used_thread)
mt_search_file-StdLines_example =
    mt_search_file-StdLines (λ i. i) (bytes_of "error") true true name content mt_answers
      used_thread nothing_printed mt_answers-MtHolds

abbrev stream : StreamAnswers
stream = record { file_size = some (length content); opens = true; reads = λ n. take n content }

stream-StreamHolds : StreamHolds content stream
stream-StreamHolds = record { file_size = refl; opens = refl; reads = refl }

abbrev used_sink : Sink
used_sink = record { matched = true; out = bytes_of "a.txt:error\n" }

search_stream-StdLines_example :
    Returns (search_stream (globals (bytes_of "error") true true) name stream used_sink) (
      SinkPrints
        (StdLines (bytes_of "error") true true name content nothing_printed)
        true
        name
        used_sink)
search_stream-StdLines_example =
    search_stream-StdLines (bytes_of "error") true true name content stream used_sink
      nothing_printed stream-StreamHolds

abbrev seek : SeekAnswers
seek = record {
  file_size = some (length content);
  opens = true;
  reads = λ i n. take n (drop i content);
}

seek-SeekHolds : SeekHolds content seek
seek-SeekHolds = record { file_size = refl; opens = refl; reads = λ i n. refl }

abbrev used_tuned : TunedThread
used_tuned = record {
  sink = used_sink;
  rbuf = bytes_of "an error";
  lbuf = bytes_of "some old bytes of an earlier file, in lower case";
}

tuned_search_file-StdLines_example :
    Returns (tuned_search_file (globals (bytes_of "error") true true) name seek used_tuned) (
      TunedPrints
        (StdLines (bytes_of "error") true true name content nothing_printed)
        true
        name
        used_tuned)
tuned_search_file-StdLines_example =
    tuned_search_file-StdLines (bytes_of "error") true true name content seek used_tuned
      nothing_printed seek-SeekHolds

abbrev words : List Bytes
words = bytes_of "-ir" ∷ bytes_of "--" ∷ bytes_of "-x" ∷ bytes_of "src" ∷ []
