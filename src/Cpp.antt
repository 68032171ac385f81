-- ===== src/Cpp.antt =====
-- cpp/grep_std.cpp, cpp/grep_mt.cpp and cpp/grep_mt_tuned.cpp: what the three programs share. A
-- `std::string_view` is the list of its bytes, and its searches are as the C++ standard says.
pub mod Std
pub mod Main
pub mod Pool
pub mod Search
pub mod Agrees
pub mod CommandLine
pub mod Tuned
pub mod Collect
pub mod Threads
use asmgrep.Base.{
  ℕ, suc, ◌+◌, ◌-◌, min, Bool, true, false, ◌&&◌, Option, none, some, List, [], ◌∷◌, ◌++◌, map, ltb,
  leb, ◌==◌, if◌then◌else◌, Bytes, length, at, Outcome, ok, ◌>>=◌,
}
use asmgrep.Libc.{memchr, memrchr}
use asmgrep.Output.{newline, colon}
use asmgrep.Lines.Slice.{or_end, behind}
use asmgrep.Std.{memmem}
use asmgrep.LineLoop.{line_loop}

-- `view.find(pat, pos)`, `view.find(c, pos)` and `view.rfind(c, pos)`, for a `pos` in the view.
unfoldable pub sv_find : Bytes → Bytes → ℕ → Outcome (Option ℕ)
sv_find view pat pos = memmem view pos (length view - pos) pat

unfoldable pub sv_find_char : Bytes → ℕ → ℕ → Outcome (Option ℕ)
sv_find_char view c pos = memchr view pos c (length view - pos)

unfoldable pub sv_rfind_char : Bytes → ℕ → ℕ → Outcome (Option ℕ)
sv_rfind_char view c pos = memrchr view 0 c (min (pos + 1) (length view))

abbrev pub cpp_bin_peek : ℕ
cpp_bin_peek = 65536

-- `lower`
unfoldable pub lower : ℕ → ℕ
lower c = if leb b'A' c && leb c b'Z' then c + 32 else c

-- `g_pat` (in lower case under -i), `g_ci` and `g_multi`.
pub record Globals : Type 0 where
  pub pat : Bytes
  pub ci : Bool
  pub multi : Bool

unfoldable pub globals : Bytes → Bool → Bool → Globals
globals pat ci multi = record { pat = if ci then map lower pat else pat; ci = ci; multi = multi }

-- `g_matched`, and the string that lines are formatted into.
pub record Sink : Type 0 where
  pub matched : Bool
  pub out : Bytes

-- `std::format_to` of one line.
unfoldable pub format_line : Bool → Bytes → Bytes → Bytes
format_line true path_str line = path_str ++ colon ∷ (line ++ newline ∷ [])
format_line false path_str line = line ++ newline ∷ []

unfoldable pub append_line : Globals → Bytes → Bytes → Sink → Sink
append_line g path_str line s = record {
  matched = true;
  out = s.out ++ format_line g.multi path_str line;
}

-- The ends of the line of a match at index `m`.
unfoldable pub view_ends : Bytes → ℕ → Outcome (ℕ × ℕ)
view_ends hay m = do
  prev ← if m == 0 then ok none else sv_rfind_char hay newline (m - 1)
  nl ← sv_find_char hay newline m
  ok (behind prev, or_end hay nl)

-- `search_file`, the loop over `scan`; `hay` has the same length.
unfoldable pub view_loop : Globals → Bytes → Bytes → Bytes → Sink → Outcome Sink
view_loop g path hay scan s =
    line_loop (sv_find scan g.pat) (view_ends hay) (append_line g path) hay (length scan)
      (length scan + 1) 0 s
