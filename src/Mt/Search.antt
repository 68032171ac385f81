-- ===== src/Mt/Search.antt =====
-- c/grep_std_mt.c: `search_file`, with the buffers that a thread keeps from file to file. A buffer
-- is an object whose length is its capacity; behind the bytes of the current file it holds what is
-- left of earlier ones. `fresh` is what `realloc` leaves in the bytes that it adds.

pub mod Prefix
pub mod Buffers
pub mod Reused
pub mod Whole
pub mod Agrees
use asmgrep.Base.{
  ℕ, zero, suc, ◌+◌, ◌-◌, min, Bool, true, false, ◌&&◌, Option, none, some, List, [], ◌∷◌, ◌++◌,
  map, ltb, leb, ◌==◌, if◌then◌else◌, Bytes, length, take, drop, Outcome, ok, fault, out_of_fuel,
  ◌>>=◌, load,
}
use asmgrep.Libc.{memchr}
use asmgrep.Std.{tolower, memmem, Settings, line_start, line_end}
use asmgrep.Mt.{Ob, ob_line}
use asmgrep.LineLoop.{line_loop}

-- The `n` bytes that `realloc` adds behind index `i`.
unfoldable pub fresh_bytes : (ℕ → ℕ) → ℕ → ℕ → Bytes
fresh_bytes fresh i zero = []
fresh_bytes fresh i (suc n) = fresh i ∷ fresh_bytes fresh (i + 1) n

-- `if (n > cap) realloc(buf, n)`
unfoldable pub ensure : (ℕ → ℕ) → ℕ → Bytes → Bytes
ensure fresh n buf =
    if ltb (length buf) n then buf ++ fresh_bytes fresh (length buf) (n - length buf) else buf

-- Bytes stored from index `at_ix` on; outside the object this is a fault.
unfoldable pub store : Bytes → ℕ → Bytes → Outcome Bytes
store buf at_ix bytes =
    if leb (at_ix + length bytes) (length buf)
    then ok (take at_ix buf ++ (bytes ++ drop (at_ix + length bytes) buf))
    else fault

-- The answers of `fopen`, `fseek`, `ftell` (`none` is -1), and of `fread` from so many bytes behind
-- the start, asked for so many: the bytes that it delivers.
pub record MtAnswers : Type 0 where
  pub fopen : Bool
  pub fseek : Bool
  pub ftell : Option ℕ
  pub fread : ℕ → ℕ → Bytes

-- `while (got < sz) { n = fread(...); if (n == 0) break; got += n; }`
unfoldable pub read_rest : ℕ → (ℕ → ℕ → Bytes) → ℕ → ℕ → Bytes → Outcome (ℕ × Bytes)
read_rest zero fread sz got rbuf = out_of_fuel
read_rest (suc f) fread sz got rbuf =
    let round = (do
      let bytes = fread got (sz - got)
      rbuf' ← store rbuf got bytes
      let rest = read_rest f fread sz (got + length bytes) rbuf'
      if length bytes == 0 then ok (got, rbuf') else rest) in
    if ltb got sz then round else ok (got, rbuf)

-- A thread: its output buffer, `g_matched`, `*rbuf` and `*lbuf`.
pub record Thread : Type 0 where
  pub o : Ob
  pub matched : Bool
  pub rbuf : Bytes
  pub lbuf : Bytes

-- The line loop, over the first `rd` bytes of the buffers.
unfoldable pub mt_ends : Bytes → ℕ → ℕ → Outcome (ℕ × ℕ)
mt_ends text rd m = do ls ← line_start text m; le ← line_end text m (rd - m); ok (ls, le)

unfoldable pub mt_print : Settings → Bytes → Bytes → Ob × Bool → Ob × Bool
mt_print g path line s = (ob_line g.multi path line s.0, true)

unfoldable pub mt_loop :
    Settings → Bytes → Bytes → ℕ → Bytes → Bytes → Ob × Bool → Outcome (Ob × Bool)
mt_loop g path text rd hay needle s =
    line_loop (λ pos. memmem hay pos (rd - pos) needle) (mt_ends text rd) (mt_print g path) text rd
      (rd + 1) 0 s

-- `search_file` from the point on where `rd` bytes have been read.
unfoldable pub mt_search : (ℕ → ℕ) → Settings → Bytes → ℕ → Thread → Outcome Thread
mt_search fresh g path rd t = do
  lbuf ← if g.ci then store (ensure fresh rd t.lbuf) 0 (map tolower (take rd t.rbuf)) else ok t.lbuf
  s ←
      mt_loop g path t.rbuf rd (if g.ci then lbuf else t.rbuf) (if g.ci then g.lpat else g.pat)
        (t.o, t.matched)
  ok (record { o = s.0; matched = s.1; rbuf = t.rbuf; lbuf = lbuf })

-- The reading of a file of `sz` bytes: a prefix, the binary test, and the rest.
unfoldable pub mt_read : (ℕ → ℕ) → (ℕ → ℕ → Bytes) → ℕ → Bytes → Outcome (Option ℕ × Bytes)
mt_read fresh fread sz rbuf = do
  let peek = min sz 65536
  let bytes = fread 0 peek
  rbuf' ← store (ensure fresh peek rbuf) 0 bytes
  let got = length bytes
  nul ← memchr rbuf' 0 0 got
  elim nul [
    | some _ ↦ ok (none, rbuf')
    | none ↦ do
      r ←
          if ltb got sz
          then read_rest (sz + 1) fread sz got (ensure fresh sz rbuf')
          else ok (got, rbuf')
      ok (some r.0, r.1)
  ]

unfoldable pub mt_sized : (ℕ → ℕ) → Settings → Bytes → (ℕ → ℕ → Bytes) → Thread → ℕ → Outcome Thread
mt_sized fresh g path fread t sz = do
  r ← mt_read fresh fread sz t.rbuf
  let t' = record t { rbuf = r.1 }
  elim r.0 [ none ↦ ok t' | some rd ↦ mt_search fresh g path rd t' ]

unfoldable pub mt_told :
    (ℕ → ℕ) → Settings → Bytes → (ℕ → ℕ → Bytes) → Thread → Option ℕ → Outcome Thread
mt_told fresh g path fread t none = ok t
mt_told fresh g path fread t (some sz) = if sz == 0 then ok t else mt_sized fresh g path fread t sz

unfoldable pub mt_search_file : (ℕ → ℕ) → Settings → Bytes → MtAnswers → Thread → Outcome Thread
mt_search_file fresh g path a t =
    if a.fopen && a.fseek then mt_told fresh g path a.fread t a.ftell else ok t
