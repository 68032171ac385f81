-- ===== src/Simd/Mask.antt =====
-- The mask that `fm_two` computes from two vectors: bit k is set if lane k of the first holds one
-- of two bytes and lane k of the second one of two others.
use Prim.Native.Nat.{bit_and, bit_or}
use native.Mathlib.Nat.{pow-suc}
use asmgrep.Base.{
  ℕ, zero, suc, ◌+◌, ◌*◌, ◌/◌, ◌%◌, ◌^◌, ◌≤◌, ◌<◌, ◌≡◌, ◌↔◌, inl, inr, refl, ap, ◌∙◌, Bool, true,
  false, ◌&&◌, ◌||◌, [], ◌∷◌, arith, ◌==◌, Bool-cases, if◌then◌else◌, Bytes, length, replicate, at,
  load_in, Returns, Returns-bind,
}
use asmgrep.Simd.{loadu, lanewise, cmpeq, or_si, and_si, movemask}
use asmgrep.Simd.Bits.{has_bit, has_bit-zero}

abbrev either : ℕ → ℕ → ℕ → Bool
either x c d = x == c || x == d

lane : Bool → Bool → Bool → Bool → ℕ
lane a b c d =
    bit_and (bit_or (if a then 255 else 0) (if b then 255 else 0))
      (bit_or (if c then 255 else 0) (if d then 255 else 0))

lane-bit : (a b c d : Bool) → lane a b c d / 128 % 2 ≡ (if (a || b) && (c || d) then 1 else 0)
unfolding lane
lane-bit true true true true = refl
lane-bit true true true false = refl
lane-bit true true false true = refl
lane-bit true true false false = refl
lane-bit true false true true = refl
lane-bit true false true false = refl
lane-bit true false false true = refl
lane-bit true false false false = refl
lane-bit false true true true = refl
lane-bit false true true false = refl
lane-bit false true false true = refl
lane-bit false true false false = refl
lane-bit false false true true = refl
lane-bit false false true false = refl
lane-bit false false false true = refl
lane-bit false false false false = refl

module _ (a0 a1 b0 b1 : ℕ) where
  -- The mask over `n` lanes.
  abbrev pub mask_of : ℕ → Bytes → Bytes → ℕ
  mask_of n v w = movemask (
      and_si (or_si (cmpeq v (replicate n a0)) (cmpeq v (replicate n a1)))
        (or_si (cmpeq w (replicate n b0)) (cmpeq w (replicate n b1))))

  abbrev pub hit_at : Bytes → Bytes → ℕ → Bool
  hit_at v w k = either (at v k) a0 a1 && either (at w k) b0 b1

  mask_of-cons :
      (n x y : ℕ) (v w : Bytes)
      → mask_of (suc n) (x ∷ v) (y ∷ w)
        ≡ (if either x a0 a1 && either y b0 b1 then 1 else 0) + 2 * mask_of n v w
  unfolding movemask and_si or_si cmpeq lanewise lane
  mask_of-cons n x y v w =
      ap (λ b. b + 2 * mask_of n v w) (lane-bit (x == a0) (x == a1) (y == b0) (y == b1))

  mask_of-nil : (w : Bytes) → mask_of 0 [] w ≡ 0
  unfolding movemask and_si or_si cmpeq lanewise
  mask_of-nil [] = refl
  mask_of-nil (y ∷ w) = refl

  -- A mask over `n` lanes has `n` bits.
  pub mask_of-lt : (n : ℕ) (v w : Bytes) → length v ≡ n → length w ≡ n → mask_of n v w < 2 ^ n
  unfolding movemask and_si or_si cmpeq lanewise
  mask_of-lt zero [] w p q = omega arith
  mask_of-lt (suc n) [] w p q = absurd (omega arith)
  mask_of-lt zero (x ∷ v) w p q = absurd (omega arith)
  mask_of-lt (suc n) (x ∷ v) [] p q = absurd (omega arith)
  mask_of-lt (suc n) (x ∷ v) (y ∷ w) p q =
      ground (arith, mask_of-cons n x y v w, mask_of-lt n v w, pow-suc 2 n)

  -- Bit k of the mask is set exactly if both bytes of lane k are hits.
  pub has_bit-mask_of :
      (n k : ℕ) (v w : Bytes)
      → length v ≡ n
      → length w ≡ n
      → (has_bit k (mask_of n v w) ≡ true) ↔ ((k < n) × (hit_at v w k ≡ true))
  has_bit-mask_of zero k [] w p q =
      (λ h. cc (has_bit-zero k, rw (mask_of-nil w) at h), λ h. absurd (omega arith))
  has_bit-mask_of zero k (x ∷ v) w p q = absurd (omega arith)
  has_bit-mask_of (suc n) k [] w p q = absurd (omega arith)
  has_bit-mask_of (suc n) k (x ∷ v) [] p q = absurd (omega arith)
  has_bit-mask_of (suc n) zero (x ∷ v) (y ∷ w) p q =
      rw (mask_of-cons n x y v w) (elim (Bool-cases (either x a0 a1 && either y b0 b1)) [
        | inl hit ↦ rw hit (ground arith)
        | inr miss ↦ rw miss (ground arith)
      ])
  has_bit-mask_of (suc n) (suc k) (x ∷ v) (y ∷ w) p q =
      let ih = has_bit-mask_of n k v w (omega arith) (omega arith) in
      let e : mask_of (suc n) (x ∷ v) (y ∷ w) / 2 ≡ mask_of n v w =
        ground (arith, mask_of-cons n x y v w) in
      rw e (λ h. let (lt, hit) = ih.0 h in (omega arith, hit), λ h. ih.1 (omega arith, h.1))

-- An unaligned load in bounds gives the bytes from `p` on.
pub loadu_lem :
    (n : ℕ) (m : Bytes) (p : ℕ)
    → p + n ≤ length m
    → Returns (loadu n m p) (λ v. (length v ≡ n) × ((k : ℕ) → k < n → at v k ≡ at m (p + k)))
unfolding loadu
loadu_lem zero m p h = (refl, λ k lt. absurd (omega arith))
loadu_lem (suc n) m p h = rw (load_in m p (omega arith)) (
    Returns-bind (loadu n m (p + 1)) _ _ _ (loadu_lem n m (p + 1) (omega arith))
      (λ xs loaded. (ap suc loaded.0, lane_at xs loaded.1)))
  where
    lane_at :
        (xs : Bytes)
        → ((k : ℕ) → k < n → at xs k ≡ at m (p + 1 + k))
        → (k : ℕ) → k < suc n
        → at (at m p ∷ xs) k ≡ at m (p + k)
    lane_at xs h zero lt = ap (at m) (omega arith)
    lane_at xs h (suc k) lt = h k (omega arith) ∙ ap (at m) (omega arith)
