-- ===== src/Simd.antt =====
-- The AVX2 intrinsics and the bit operations of `fm_two` (c/grep.c), as the compiler documents
-- them. A vector of 32 bytes is the list of its lanes, the lane at the lowest address first.
pub mod Bits
pub mod Mask
use Prim.Native.Nat.{bit_and, bit_or}
use asmgrep.Base.{
  ℕ, zero, suc, ◌+◌, ◌-◌, ◌*◌, ◌/◌, ◌%◌, [], ◌∷◌, ◌==◌, if◌then◌else◌, Bytes, replicate, Outcome,
  ok, ◌>>=◌, load,
}

abbrev pub lanes : ℕ
lanes = 32

-- `_mm256_set1_epi8`
unfoldable pub set1 : ℕ → Bytes
set1 c = replicate lanes c

-- `_mm256_loadu_si256`, for any number of lanes
unfoldable pub loadu : ℕ → Bytes → ℕ → Outcome Bytes
loadu zero m p = ok []
loadu (suc n) m p = do x ← load m p; xs ← loadu n m (p + 1); ok (x ∷ xs)

-- An operation lane by lane.
unfoldable pub lanewise : (ℕ → ℕ → ℕ) → Bytes → Bytes → Bytes
lanewise f (x ∷ xs) (y ∷ ys) = f x y ∷ lanewise f xs ys
lanewise f (x ∷ xs) [] = []
lanewise f [] ys = []

-- `_mm256_cmpeq_epi8`: all ones where the lanes are equal.
unfoldable pub cmpeq : Bytes → Bytes → Bytes
cmpeq = lanewise (λ x y. if x == y then 255 else 0)

-- `_mm256_or_si256` and `_mm256_and_si256`
unfoldable pub or_si : Bytes → Bytes → Bytes
or_si = lanewise bit_or

unfoldable pub and_si : Bytes → Bytes → Bytes
and_si = lanewise bit_and

-- `_mm256_movemask_epi8`: bit k of the result is the highest bit of lane k.
unfoldable pub movemask : Bytes → ℕ
movemask [] = 0
movemask (x ∷ xs) = x / 128 % 2 + 2 * movemask xs

-- `__builtin_ctz`, on a number of `w` bits that is not zero.
unfoldable pub ctz : ℕ → ℕ → ℕ
ctz zero n = 0
ctz (suc w) n = let rest = ctz w (n / 2) in if n % 2 == 1 then 0 else suc rest

-- `mask & (mask - 1)`, on a number that is not zero.
unfoldable pub clear_lowest : ℕ → ℕ
clear_lowest mask = bit_and mask (mask - 1)
