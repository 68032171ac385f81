-- ===== src/Match.antt =====
-- c/grep.c: `verify`, `find_a`, `fm_single` and `fm_two`, which look for the pattern in the bytes
-- `m` of one file. Pointers are indices into `m`, and `end` is always its length.
pub mod Spec
pub mod Cleared
pub mod Single
pub mod Block
pub mod Two
use asmgrep.Base.{
  ℕ, zero, suc, ◌+◌, ◌-◌, Bool, true, false, not, Option, none, some, [], ◌∷◌, ltb, leb, ◌==◌,
  if◌then◌else◌, Bytes, length, Outcome, ok, fault, out_of_fuel, ◌>>=◌, load, at, ◌&&◌, ◌||◌,
}
use asmgrep.Libc.{memchr, memcmp_eq}
use asmgrep.Simd.{lanes, set1, loadu, cmpeq, or_si, and_si, movemask, ctz, clear_lowest}
use asmgrep.Pattern.{Pattern, fold}

-- The loop of `verify` under -i.
unfoldable pub verify_fold : Bytes → ℕ → Bytes → Outcome Bool
verify_fold m s [] = ok true
verify_fold m s (c ∷ cs) = do
  x ← load m s
  let rest = verify_fold m (s + 1) cs
  if fold x == c then rest else ok false

-- `verify`: whether the pattern stands at index `s`.
unfoldable pub verify : Pattern → Bytes → ℕ → Outcome Bool
verify g m s = if not g.folded then memcmp_eq m s g.cmp else verify_fold m s g.cmp

-- The smaller of two pointers, either of which may be NULL.
unfoldable pub earlier : Option ℕ → Option ℕ → Option ℕ
earlier none y = y
earlier (some x) none = some x
earlier (some x) (some y) = if ltb x y then some x else some y

-- `find_a`: the next pivot byte A at or after `p`, in either case under -i.
unfoldable pub find_a : Pattern → Bytes → ℕ → Outcome (Option ℕ)
find_a g m p =
    if not g.ci
    then memchr m p g.a0 (length m - p)
    else do x ← memchr m p g.a0 (length m - p); y ← memchr m p g.a1 (length m - p); ok (earlier x y)

-- The body of the loop of `fm_single` behind the call of `find_a`. The source computes
-- `start = hit - g_off_a` before it compares; here the comparison stands on the other side.
unfoldable pub single_hit :
    Pattern → Bytes → ℕ → (ℕ → Outcome (Option ℕ)) → Option ℕ → Outcome (Option ℕ)
single_hit g m floor next none = ok none
single_hit g m floor next (some hit) =
    if ltb hit (floor + g.off_a)
    then next (hit + 1)
    else if ltb (length m) (hit - g.off_a + g.patlen)
    then ok none
    else do
      good ← verify g m (hit - g.off_a)
      if good then ok (some (hit - g.off_a)) else next (hit + 1)

-- `while (p < end)` of `fm_single`.
unfoldable pub single_loop : ℕ → Pattern → Bytes → ℕ → ℕ → Outcome (Option ℕ)
single_loop zero g m floor p = out_of_fuel
single_loop (suc f) g m floor p =
    let round = find_a g m p >>= single_hit g m floor (single_loop f g m floor) in
    if ltb p (length m) then round else ok none

-- `fm_single`. Every round moves `p` on by a byte at least.
unfoldable pub fm_single : Pattern → Bytes → ℕ → Outcome (Option ℕ)
fm_single g m floor = single_loop (length m + 1) g m floor floor

-- The test on the bytes under the two vectors, as a mask of 32 bits.
unfoldable pub pair_mask : Pattern → Bytes → Bytes → ℕ
pair_mask g v w = movemask (
    and_si (or_si (cmpeq v (set1 g.a0)) (cmpeq v (set1 g.a1)))
      (or_si (cmpeq w (set1 g.b0)) (cmpeq w (set1 g.b1))))

-- `while (mask)`: the hits of one block of 32 bytes from `p` on, by rising address. As above the
-- comparison `start >= floor` is made before `g_off_a` is subtracted.
unfoldable pub mask_loop : ℕ → Pattern → Bytes → ℕ → ℕ → ℕ → Outcome (Option ℕ)
mask_loop zero g m floor p mask = out_of_fuel
mask_loop (suc f) g m floor p mask =
    let hit = p + ctz lanes mask in
    let next = mask_loop f g m floor p (clear_lowest mask) in
    let checked = (do
      good ← verify g m (hit - g.off_a)
      if good then ok (some (hit - g.off_a)) else next) in
    if mask == 0
    then ok none
    else if leb (floor + g.off_a) hit && leb (hit - g.off_a + g.patlen) (length m)
    then checked
    else next

-- One byte of the scalar tail.
unfoldable pub tail_hit :
    Pattern → Bytes → ℕ → ℕ → ℕ → (ℕ → Outcome (Option ℕ)) → Outcome (Option ℕ)
tail_hit g m floor p x next =
    if not (x == g.a0) && not (x == g.a1)
    then next (p + 1)
    else if ltb p (floor + g.off_a) || ltb (length m) (p - g.off_a + g.patlen)
    then next (p + 1)
    else do
      hb ← load m (p - g.off_a + g.off_b)
      if not ((if g.folded then fold hb else hb) == at g.cmp g.off_b) then next (p + 1) else do
        good ← verify g m (p - g.off_a)
        if good then ok (some (p - g.off_a)) else next (p + 1)

-- `for (; p < end; p++)`, with `n` bytes left.
unfoldable pub tail_loop : ℕ → Pattern → Bytes → ℕ → ℕ → Outcome (Option ℕ)
tail_loop zero g m floor p = ok none
tail_loop (suc n) g m floor p = do x ← load m p; tail_hit g m floor p x (tail_loop n g m floor)

-- `while (p + 32 + dd <= end)`, followed by the tail.
unfoldable pub block_loop : ℕ → Pattern → Bytes → ℕ → ℕ → Outcome (Option ℕ)
block_loop zero g m floor p = out_of_fuel
block_loop (suc f) g m floor p =
    let dd = g.off_b - g.off_a in
    let block = (do
      v ← loadu lanes m p
      w ← loadu lanes m (p + dd)
      found ← mask_loop (lanes + 1) g m floor p (pair_mask g v w)
      elim found [ some s ↦ ok (some s) | none ↦ block_loop f g m floor (p + lanes) ]) in
    if leb (p + lanes + dd) (length m) then block else tail_loop (length m - p) g m floor p

-- `fm_two`
unfoldable pub fm_two : Pattern → Bytes → ℕ → Outcome (Option ℕ)
fm_two g m floor = block_loop (length m + 1) g m floor floor
