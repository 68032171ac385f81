-- ===== src/Std.antt =====
-- c/grep_std.c: `search_file` from the point on where the file has been read, and what `main` sets
-- up for it. The C library's `memmem` and `tolower` are as its manual describes them, in the "C"
-- locale in which a program starts.
pub mod Memmem
pub mod LineAround
pub mod Selects
pub mod Correct
pub mod Again
pub mod Lines
pub mod Agrees
pub mod SameBytes
pub mod Main
use asmgrep.Base.{
  ℕ, zero, suc, ◌+◌, ◌-◌, min, Bool, true, false, Option, none, some, List, [], ◌∷◌, ◌++◌, map, ltb,
  leb, ◌==◌, ◌&&◌, if◌then◌else◌, Bytes, length, Outcome, ok, out_of_fuel, ◌>>=◌, load,
}
use asmgrep.Libc.{memchr, memcmp_eq}
use asmgrep.Output.{newline, colon}
use asmgrep.Lines.{slice}

-- `tolower`
unfoldable pub tolower : ℕ → ℕ
tolower c = if leb b'A' c && leb c b'Z' then c + (b'a' - b'A') else c

-- `memmem`: where the needle first occurs in the `n` bytes from `p` on.
unfoldable pub memmem : Bytes → ℕ → ℕ → Bytes → Outcome (Option ℕ)
memmem m p zero needle = if length needle == 0 then ok (some p) else ok none
memmem m p (suc n) needle =
    let tested = (do
      same ← memcmp_eq m p needle
      let rest = memmem m (p + 1) n needle
      if same then ok (some p) else rest) in
    if ltb (suc n) (length needle) then ok none else tested

-- The globals, as `main` sets them: `g_pat`, `g_lpat`, `g_ci` and `g_multi`.
pub record Settings : Type 0 where
  pub pat : Bytes
  pub lpat : Bytes
  pub ci : Bool
  pub multi : Bool

unfoldable pub settings : Bytes → Bool → Bool → Settings
settings pat ci multi = record { pat = pat; lpat = map tolower pat; ci = ci; multi = multi }

-- `g_matched`, and the bytes given to `stdout` so far.
pub record Printed : Type 0 where
  pub matched : Bool
  pub stdout : Bytes

abbrev pub nothing_printed : Printed
nothing_printed = record { matched = false; stdout = [] }

unfoldable pub fwrite : Bytes → Printed → Printed
fwrite bytes s = record s { stdout = s.stdout ++ bytes }

-- What is done for one line.
unfoldable pub print_line : Settings → Bytes → Bytes → Printed → Printed
print_line g path line before =
    let s = record before { matched = true } in
    let named = if g.multi then fwrite (colon ∷ []) (fwrite path s) else s in
    fwrite (newline ∷ []) (fwrite line named)

unfoldable pub print_lines : Settings → Bytes → List Bytes → Printed → Printed
print_lines g path [] s = s
print_lines g path (line ∷ lines) s = print_lines g path lines (print_line g path line s)

-- `while (ls > 0 && data[ls-1] != '\n') ls--`
unfoldable pub line_start : Bytes → ℕ → Outcome ℕ
line_start text zero = ok 0
line_start text (suc ls) = do
  x ← load text ls
  let rest = line_start text ls
  if x == newline then ok (suc ls) else rest

-- `while (le < rd && data[le] != '\n') le++`, with `n` bytes up to `rd`.
unfoldable pub line_end : Bytes → ℕ → ℕ → Outcome ℕ
line_end text le zero = ok le
line_end text le (suc n) = do
  x ← load text le
  let rest = line_end text (le + 1) n
  if x == newline then ok le else rest

-- What the loop does with a match at index `m`.
unfoldable pub print_around :
    Settings → Bytes → Bytes → (ℕ → Printed → Outcome Printed) → Printed → ℕ → Outcome Printed
print_around g path text next s m = do
  ls ← line_start text m
  le ← line_end text m (length text - m)
  next (le + 1) (print_line g path (slice text ls le) s)

-- `while (pos < rd)`
unfoldable pub match_lines :
    ℕ → Settings → Bytes → Bytes → Bytes → Bytes → ℕ → Printed → Outcome Printed
match_lines zero g path text hay needle pos s = out_of_fuel
match_lines (suc f) g path text hay needle pos s =
    let round = (do
      h ← memmem hay pos (length text - pos) needle
      elim h [
        | none ↦ ok s
        | some m ↦ print_around g path text (match_lines f g path text hay needle) s m
      ]) in
    if ltb pos (length text) then round else ok s

-- `search_file`, for the bytes `text` (`data` there) of the file at `path`.
unfoldable pub search_text : Settings → Bytes → Bytes → Printed → Outcome Printed
search_text g path text s = do
  nul ← memchr text 0 0 (min (length text) 65536)
  let hay = if g.ci then map tolower text else text
  let needle = if g.ci then g.lpat else g.pat
  elim nul [ some _ ↦ ok s | none ↦ match_lines (length text + 1) g path text hay needle 0 s ]
