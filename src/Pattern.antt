-- ===== src/Pattern.antt =====
-- c/grep.c: the pattern as `prep_pattern` leaves it in the globals g_patlen, g_cmp, g_fold,
-- g_off_a, g_off_b, g_a0, g_a1, g_b0, g_b1 and g_single.
mod Freq
mod Rarest
pub mod Prepared
unfoldable pub use Freq.{rank}
pub use Freq.{rank-lt}
use asmgrep.Base.{
  ℕ, zero, suc, ◌+◌, ◌-◌, ◌^◌, Bool, true, false, not, ◌&&◌, ◌||◌, [], ◌∷◌, ltb, leb, ◌==◌,
  if◌then◌else◌, Bytes, length, Outcome, ok, fault, ◌>>=◌, at,
}

-- `fold`: ASCII upper case to lower case. A sum is at most 122, so it fits an unsigned char.
unfoldable pub fold : ℕ → ℕ
fold c = if leb b'A' c && leb c b'Z' then c + 32 else c

-- The upper case of a lower-case letter, the other case of a pivot byte under -i.
unfoldable pub other_case : Bool → ℕ → ℕ
other_case ci c = if ci && leb b'a' c && leb c b'z' then c - 32 else c

-- The size of `g_pat_lc`.
abbrev pub pat_lc_size : ℕ
pat_lc_size = 2 ^ 16

-- The loop that fills `g_pat_lc`, `room` bytes of which are left.
unfoldable pub lower_into : ℕ → Bytes → Outcome Bytes
lower_into room [] = ok []
lower_into zero (c ∷ cs) = fault
lower_into (suc room) (c ∷ cs) = do rest ← lower_into room cs; ok (fold c ∷ rest)

-- The loop for `a`, from index `k` on: the first index with the least rank.
unfoldable pub rarest : ℕ → ℕ → ℕ → Bytes → ℕ
rarest k a br [] = a
rarest k a br (c ∷ cs) =
    let better = ltb (rank c) br in
    rarest (k + 1) (if better then k else a) (if better then rank c else br) cs

-- The loop for `b`: the same over the indices other than `a`, with the flag `found`.
unfoldable pub second : ℕ → ℕ → ℕ → ℕ → Bool → Bytes → ℕ
second a k b br2 found [] = b
second a k b br2 found (c ∷ cs) =
    let better = not (k == a) && (not found || ltb (rank c) br2) in
    second a (k + 1) (if better then k else b) (if better then rank c else br2) (found || better) cs

pub record Pattern : Type 0 where
  pub cmp : Bytes
  pub patlen : ℕ
  pub ci : Bool
  pub folded : Bool
  pub off_a : ℕ
  pub off_b : ℕ
  pub a0 : ℕ
  pub a1 : ℕ
  pub b0 : ℕ
  pub b1 : ℕ
  pub single : Bool

-- `g_off_a` and `g_off_b`, the smaller first.
unfoldable pub pivots : Bytes → ℕ × ℕ
pivots cmp =
    let a = rarest 0 0 256 cmp in
    let b = second a 0 0 256 false cmp in
    if ltb (length cmp) 2 then (a, a) else if ltb b a then (b, a) else (a, b)

-- The rest of `prep_pattern`, for a pattern that is not empty.
unfoldable pub choose : Bool → Bytes → Pattern
choose ci cmp =
    let (off_a, off_b) = pivots cmp in
    record {
      cmp = cmp;
      patlen = length cmp;
      ci = ci;
      folded = ci;
      off_a = off_a;
      off_b = off_b;
      a0 = at cmp off_a;
      a1 = other_case ci (at cmp off_a);
      b0 = at cmp off_b;
      b1 = other_case ci (at cmp off_b);
      single = ltb (length cmp) 2 || leb (rank (at cmp off_a)) 64;
    }

-- The globals before `prep_pattern` chooses pivots: C's zeros.
unfoldable pub no_pivots : Bool → Bytes → Pattern
no_pivots ci cmp = record {
  cmp = cmp;
  patlen = length cmp;
  ci = ci;
  folded = ci;
  off_a = 0;
  off_b = 0;
  a0 = 0;
  a1 = 0;
  b0 = 0;
  b1 = 0;
  single = false;
}

-- `prep_pattern`, for the pattern `pat` (a C string, so its `strlen` is its length) and `g_i`.
unfoldable pub prep_pattern : Bytes → Bool → Outcome Pattern
prep_pattern pat ci = do
  cmp ← if ci then lower_into pat_lc_size pat else ok pat
  if length pat == 0 then ok (no_pivots ci cmp) else ok (choose ci cmp)

-- A byte as the comparison with `cmp` sees it.
abbrev pub seen_as : Pattern → ℕ → ℕ
seen_as g x = if g.folded then fold x else x
