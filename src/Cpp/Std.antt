-- ===== src/Cpp/Std.antt =====
-- cpp/grep_std.cpp: `read_file`, `search_file` and the reading of the command line.
use asmgrep.Base.{
  ℕ, min, Bool, true, false, ◌&&◌, Option, none, some, List, [], ◌∷◌, map, leb, ◌==◌, not,
  if◌then◌else◌, Bytes, length, take, drop, at, Outcome, ok, ◌>>=◌,
}
use asmgrep.Args.{Flags, no_flags, letters, collect, Setup, accept, count_words}
use asmgrep.Cpp.{sv_find_char, cpp_bin_peek, lower, Globals, Sink, view_loop}

-- The answers of `fs::file_size` (`none` for an error), of opening the stream, and of reading so
-- many bytes from it (those that `gcount` counts).
pub record StreamAnswers : Type 0 where
  pub file_size : Option ℕ
  pub opens : Bool
  pub reads : ℕ → Bytes

-- `read_file`, `none` being the error.
unfoldable pub read_sized : StreamAnswers → Option ℕ → Option Bytes
read_sized a none = none
read_sized a (some sz) = if sz == 0 then none else if a.opens then some (a.reads sz) else none

unfoldable pub read_file : StreamAnswers → Option Bytes
read_file a = read_sized a a.file_size

-- `search_file` from the point on where the file has been read into `hay`.
unfoldable pub search_view : Globals → Bytes → Bytes → Sink → Outcome Sink
search_view g path hay s = do
  nul ← sv_find_char (take (min (length hay) cpp_bin_peek) hay) 0 0
  let scan = if g.ci then map lower hay else hay
  elim nul [ some _ ↦ ok s | none ↦ view_loop g path hay scan s ]

unfoldable pub search_read : Globals → Bytes → Sink → Option Bytes → Outcome Sink
search_read g path s none = ok s
search_read g path s (some hay) = if length hay == 0 then ok s else search_view g path hay s

unfoldable pub search_stream : Globals → Bytes → StreamAnswers → Sink → Outcome Sink
search_stream g path a s = search_read g path s (read_file a)

-- `s.size() >= 2 && s[0] == '-'` and `s == "--"`
unfoldable pub view_is_option : Bytes → Bool
view_is_option s = leb 2 (length s) && at s 0 == b'-'

unfoldable pub view_is_dashes : Bytes → Bool
view_is_dashes s = length s == 2 && (at s 0 == b'-' && at s 1 == b'-')

-- The loop over the arguments.
unfoldable pub view_parse :
    List Bytes
    → Flags
    → Bool
    → Option Bytes × List Bytes
    → Option (Flags × (Option Bytes × List Bytes))
view_parse [] f no_more w = some (f, w)
view_parse (a ∷ args) f no_more w = elim (not no_more && view_is_option a) [
  | true ↦ elim (view_is_dashes a) [
    | true ↦ view_parse args f true w
    | false ↦ elim (letters (drop 1 a) f) [ none ↦ none | some f' ↦ view_parse args f' no_more w ]
  ]
  | false ↦ view_parse args f no_more (collect a w)
]

-- `main` up to the loop over the paths; `pat` is still as it was given.
unfoldable pub view_setup : List Bytes → Option (Setup (List Bytes))
view_setup args = accept count_words (view_parse args no_flags false (none, []))
