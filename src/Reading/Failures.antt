-- ===== src/Reading/Failures.antt =====
-- What `search_file` does whatever the kernel answers.
use asmgrep.Base.{
  ℕ, ◌≡◌, refl, ap, ◌∙◌, Bool, true, false, not, ◌||◌, Option, none, some, List, [], ◌∷◌, arith,
  ltb, ◌==◌, if◌then◌else◌, Bytes, length, ok, Returns, Returns-if, Returns-mono,
}
use asmgrep.Pattern.{Pattern, prep_pattern}
use asmgrep.Output.{State, flush_ctx, emit, emit_all}
use asmgrep.Scan.{scan}
use asmgrep.Scan.Correct.{Fits, IsSetUp, prep_pattern-IsSetUp}
use asmgrep.Std.{nothing_printed}
use asmgrep.Std.Agrees.{any-BothPrint}
use asmgrep.Reading.{readbuf_sz, fail, Answers, after_mmap, after_fstat, after_read, search_file}

emit-err : (multi : Bool) (path line : Bytes) (s : State) → (emit multi path line s).err ≡ s.err
unfolding emit flush_ctx
emit-err multi path line s = ground arith

pub emit_all-err :
    (multi : Bool) (path : Bytes) (lines : List Bytes) (s : State)
    → (emit_all multi path lines s).err ≡ s.err
unfolding emit_all
emit_all-err multi path [] s = refl
emit_all-err multi path (line ∷ lines) s =
    emit_all-err multi path lines (emit multi path line s) ∙ emit-err multi path line s

-- The failures that `search_file` reports.
abbrev pub reported : Answers → Bool
reported a = not a.opens || elim a.read [ none ↦ true | some _ ↦ false ]

-- The state afterwards, with the lines that were printed.
abbrev pub FailsOrPrints : Bool → Bool → Bytes → State → State → Type 0
FailsOrPrints failed multi path s t =
    (lines : List Bytes) × (t ≡ emit_all multi path lines (if failed then fail s else s))
    × (failed ≡ true → lines ≡ [])

module _ (pat : Bytes) (ci multi : Bool) (path : Bytes) (g : Pattern) (set : IsSetUp pat ci g)
    (s : State) where
  scan_any : (m : Bytes) → Returns (scan g multi path m s) (FailsOrPrints false multi path s)
  scan_any m =
      let (lines, _, ran, _) = any-BothPrint pat ci multi path m s nothing_printed g set in
      rw ran (lines, refl, λ e. absurd cc)

  nothing_more : (failed : Bool) → FailsOrPrints failed multi path s (if failed then fail s else s)
  unfolding emit_all
  nothing_more failed = ([], refl, λ _. refl)

  after_mmap_any :
      (m : Option Bytes) → Returns (after_mmap g multi path s m) (FailsOrPrints false multi path s)
  unfolding after_mmap
  after_mmap_any none = nothing_more false
  after_mmap_any (some m) = scan_any m

  after_fstat_any :
      (a : Answers) (n : Option ℕ)
      → Returns (after_fstat g multi path a s n) (FailsOrPrints false multi path s)
  unfolding after_fstat
  after_fstat_any a none = nothing_more false
  after_fstat_any a (some n) =
      Returns-if (n == 0) (ok s) _ _ (nothing_more false) (after_mmap_any (a.mmap n))

  after_read_any :
      (a : Answers) (r : Option Bytes)
      → Returns
          (after_read g multi path a s r)
          (FailsOrPrints (elim r [ none ↦ true | some _ ↦ false ]) multi path s)
  unfolding after_read
  after_read_any a none = nothing_more true
  after_read_any a (some buf) =
      Returns-if (ltb (length buf) readbuf_sz) _ _ _
        (Returns-if (ltb 0 (length buf)) _ (ok s) _ (scan_any buf) (nothing_more false))
        (after_fstat_any a a.fstat)

  opened_any :
      (a : Answers) (b : Bool)
      → Returns
          (if b then after_read g multi path a s a.read else ok (fail s))
          (FailsOrPrints (not b || elim a.read [ none ↦ true | some _ ↦ false ]) multi path s)
  opened_any a true = after_read_any a a.read
  opened_any a false = nothing_more true

-- Whatever the kernel answers, `search_file` (under -i with a pattern of at most 65536 bytes) reads
-- in bounds and ends; the error flag is set exactly if `open` or `read` fails, and then no line is printed. A failing `fstat` or `mmap` sets
-- no flag.
pub search_file-reports :
    (pat : Bytes) (ci multi : Bool) (path : Bytes) (a : Answers) (s : State)
    → Fits pat ci
    → Returns (prep_pattern pat ci) (λ g. Returns (search_file g multi path a s) (λ t.
      (t.err ≡ (if reported a then true else s.err)) × FailsOrPrints (reported a) multi path s t))
unfolding search_file
search_file-reports pat ci multi path a s fits =
    Returns-mono (prep_pattern pat ci) _ _ (prep_pattern-IsSetUp pat ci fits) (λ g set.
      Returns-mono (search_file g multi path a s) _ _
        (opened_any pat ci multi path g set s a a.opens)
        (λ t (lines, e, silent). (
          ap (λ (r : State). r.err) e ∙ emit_all-err multi path lines _ ∙ flag (reported a) s,
          (lines, e, silent),
        )))
  where
    flag : (b : Bool) (s : State) → (if b then fail s else s).err ≡ (if b then true else s.err)
    flag true s = unfold fail in refl
    flag false s = refl
