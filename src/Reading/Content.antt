-- ===== src/Reading/Content.antt =====
-- For a file that is read without errors, `search_file` searches its whole content.
use asmgrep.Base.{
  ℕ, zero, suc, ◌≤◌, ◌<◌, ◌≡◌, refl, ap, sym, ◌∙◌, inl, inr, Bool, true, false, some, [], ◌∷◌,
  arith, ltb, lt→ltb, ge→ltb, ltb→ge, ◌==◌, ==_iff, ◌&&◌, if◌then◌else◌, Bytes, length, take,
  Bool-cases, ok,
}
use native.Mathlib.Decide.{dec_lt}
use asmgrep.Libc.{memchr}
use asmgrep.Pattern.{Pattern}
use asmgrep.Output.{State}
use asmgrep.Lines.Split.{take-eq_self}
use asmgrep.Scan.{scan, every_line, match_loop}
use asmgrep.Std.{Settings, Printed, search_text, match_lines}
use asmgrep.Reading.{
  readbuf_sz, fail, Answers, after_mmap, after_fstat, after_read, after_ftell, search_file,
  StdAnswers, search_file_std,
}

-- The answers for a file with the bytes `m`, when nothing fails and it does not change meanwhile.
pub record Holds (m : Bytes) (a : Answers) : Type 0 where
  pub opens : a.opens ≡ true
  pub read : a.read ≡ some (take readbuf_sz m)
  pub fstat : a.fstat ≡ some (length m)
  pub mmap : a.mmap (length m) ≡ some m

pub record StdHolds (m : Bytes) (a : StdAnswers) : Type 0 where
  pub fopen : a.fopen ≡ true
  pub fseek : a.fseek ≡ true
  pub ftell : a.ftell ≡ some (length m)
  pub fread : a.fread (length m) ≡ m

-- An empty file prints nothing.
scan-nil : (g : Pattern) (multi : Bool) (path : Bytes) (s : State) → scan g multi path [] s ≡ ok s
unfolding scan memchr every_line match_loop
scan-nil g multi path s = elim (Bool-cases (g.patlen == 0)) [
  | inl e ↦ rw e refl
  | inr e ↦ rw e refl
]

pub search_text-nil : (g : Settings) (path : Bytes) (s : Printed) → search_text g path [] s ≡ ok s
unfolding search_text memchr match_lines
search_text-nil g path s = refl

pub nil_of : (m : Bytes) → length m ≡ 0 → m ≡ []
nil_of [] e = refl
nil_of (x ∷ m) e = absurd (omega arith)

length-take_all : (n : ℕ) (m : Bytes) → n ≤ length m → length (take n m) ≡ n
length-take_all zero m h = refl
length-take_all (suc n) [] h = absurd (omega arith)
length-take_all (suc n) (x ∷ m) h = ap suc (length-take_all n m (omega arith))

module _ (g : Pattern) (multi : Bool) (path m : Bytes) (s : State) where
  -- A short file, from the buffer.
  after_read-short :
      (a : Answers)
      → length m < readbuf_sz
      → after_read g multi path a s (some m) ≡ scan g multi path m s
  unfolding after_read
  after_read-short a short = rw (lt→ltb _ _ short) (elim (Bool-cases (ltb 0 (length m))) [
    | inl some_byte ↦ rw some_byte refl
    | inr none_left ↦
        let empty = nil_of m (omega (arith, ltb→ge _ _ none_left)) in
        rw none_left (sym (ap (λ c. scan g multi path c s) empty ∙ scan-nil g multi path s))
  ])

  after_fstat-pos :
      (a : Answers) (n : ℕ)
      → 0 < n
      → after_fstat g multi path a s (some n) ≡ after_mmap g multi path s (a.mmap n)
  unfolding after_fstat
  after_fstat-pos a n pos = let e : (n == 0) ≡ false = ground arith in rw e refl

  -- A long file, from the mapping.
  after_read-long :
      (a : Answers)
      → readbuf_sz ≤ length m
      → Holds m a
      → after_read g multi path a s (some (take readbuf_sz m)) ≡ scan g multi path m s
  unfolding after_read after_mmap
  after_read-long a long h =
      let full : ltb (length (take readbuf_sz m)) readbuf_sz ≡ false =
        ge→ltb _ _ (omega (arith, length-take_all readbuf_sz m long)) in
      rw full (
        ap (after_fstat g multi path a s) h.fstat
        ∙ after_fstat-pos a (length m) (omega arith)
        ∙ ap (after_mmap g multi path s) h.mmap)

-- When the file holds the bytes `m` and nothing fails, `search_file` does with it what `scan` does
-- with all of `m`, by the buffer or by the mapping.
pub search_file-scan :
    (g : Pattern) (multi : Bool) (path m : Bytes) (a : Answers) (s : State)
    → Holds m a
    → search_file g multi path a s ≡ scan g multi path m s
unfolding search_file
search_file-scan g multi path m a s h =
    ap (λ b. if b then after_read g multi path a s a.read else ok (fail s)) h.opens
    ∙ ap (after_read g multi path a s) h.read
    ∙ elim (dec_lt (length m) readbuf_sz) [
      | yes short ↦
          ap (λ c. after_read g multi path a s (some c)) (take-eq_self readbuf_sz m (omega arith))
          ∙ after_read-short g multi path m s a short
      | no long ↦ after_read-long g multi path m s a (omega arith) h
    ]

-- The same of c/grep_std.c.
pub search_file_std-search_text :
    (g : Settings) (path m : Bytes) (a : StdAnswers) (s : Printed)
    → StdHolds m a
    → search_file_std g path a s ≡ search_text g path m s
unfolding search_file_std after_ftell
search_file_std-search_text g path m a s h =
    ap (λ b. if b && a.fseek then after_ftell g path a s a.ftell else ok s) h.fopen
    ∙ ap (λ b. if b then after_ftell g path a s a.ftell else ok s) h.fseek
    ∙ ap (after_ftell g path a s) h.ftell
    ∙ elim (Bool-cases (length m == 0)) [
      | inl none_left ↦
          let empty = nil_of m ((==_iff _ _).0 none_left) in
          rw none_left (sym (ap (λ c. search_text g path c s) empty ∙ search_text-nil g path s))
      | inr some_byte ↦ rw some_byte (ap (λ c. search_text g path c s) h.fread)
    ]
