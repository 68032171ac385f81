-- ===== src/Reading.antt =====
-- c/grep.c and c/grep_std.c: how `search_file` gets the bytes of a file. What the kernel and the C
-- library answer for a path is a parameter.
pub mod Content
pub mod Failures
use asmgrep.Base.{
  ℕ, Bool, true, false, ◌&&◌, Option, none, some, [], ltb, ◌==◌, if◌then◌else◌, Bytes, length,
  Outcome, ok,
}
use asmgrep.Pattern.{Pattern}
use asmgrep.Output.{State}
use asmgrep.Scan.{scan}
use asmgrep.Std.{Settings, Printed, search_text}

abbrev pub readbuf_sz : ℕ
readbuf_sz = 262144

-- The answers of `open`, of one `read` of `readbuf_sz` bytes (`none` is -1, otherwise the bytes read,
-- as many as the number returned), of `fstat` (`st_size`) and of `mmap` of so many bytes.
pub record Answers : Type 0 where
  pub opens : Bool
  pub read : Option Bytes
  pub fstat : Option ℕ
  pub mmap : ℕ → Option Bytes

unfoldable pub fail : State → State
fail s = record s { err = true }

-- The large file: what follows `mmap` and `fstat`, whose failures pass silently.
unfoldable pub after_mmap : Pattern → Bool → Bytes → State → Option Bytes → Outcome State
after_mmap g multi path s none = ok s
after_mmap g multi path s (some m) = scan g multi path m s

unfoldable pub after_fstat : Pattern → Bool → Bytes → Answers → State → Option ℕ → Outcome State
after_fstat g multi path a s none = ok s
after_fstat g multi path a s (some size) =
    if size == 0 then ok s else after_mmap g multi path s (a.mmap size)

-- What follows `read`.
unfoldable pub after_read : Pattern → Bool → Bytes → Answers → State → Option Bytes → Outcome State
after_read g multi path a s none = ok (fail s)
after_read g multi path a s (some buf) =
    if ltb (length buf) readbuf_sz
    then (if ltb 0 (length buf) then scan g multi path buf s else ok s)
    else after_fstat g multi path a s a.fstat

-- `search_file`
unfoldable pub search_file : Pattern → Bool → Bytes → Answers → State → Outcome State
search_file g multi path a s = if a.opens then after_read g multi path a s a.read else ok (fail s)

-- c/grep_std.c: the answers of `fopen`, of `fseek` to the end, of `ftell` (`none` is -1) and of one
-- `fread` of so many bytes (those that it delivers).
pub record StdAnswers : Type 0 where
  pub fopen : Bool
  pub fseek : Bool
  pub ftell : Option ℕ
  pub fread : ℕ → Bytes

unfoldable pub after_ftell : Settings → Bytes → StdAnswers → Printed → Option ℕ → Outcome Printed
after_ftell g path a s none = ok s
after_ftell g path a s (some size) = if size == 0 then ok s else search_text g path (a.fread size) s

unfoldable pub search_file_std : Settings → Bytes → StdAnswers → Printed → Outcome Printed
search_file_std g path a s = if a.fopen && a.fseek then after_ftell g path a s a.ftell else ok s
