-- ===== src/Simd/Bits.antt =====
-- The lowest set bit: `ctz` finds it and `mask & (mask - 1)` clears it.
use Prim.Native.Nat.{bit_and, digits, bit_and-bitwise}
use native.Mathlib.Nat.{pow-suc}
use asmgrep.Base.{
  ℕ, zero, suc, ◌+◌, ◌-◌, ◌*◌, ◌/◌, ◌%◌, ◌^◌, ◌≤◌, ◌<◌, min, ◌≡◌, ◌≢◌, ◌↔◌, inl, inr, refl, ap, ◌∙◌,
  sym, Bool, true, false, arith, ◌==◌, ==_iff, ==→ne, Bool-cases,
}
use asmgrep.Simd.{ctz, clear_lowest}

-- Whether bit `k` of `n` is set.
abbrev pub has_bit : ℕ → ℕ → Bool
has_bit zero n = n % 2 == 1
has_bit (suc k) n = has_bit k (n / 2)

-- The conjunction of the lowest `n` binary digits; further digits of a number that has no more than
-- `n` change nothing.
abbrev conj : ℕ → ℕ → ℕ → ℕ
conj n x y = digits (λ u. zero) min n x y

conj-slack : (d n x y : ℕ) → x ≤ n → conj (n + d) x y ≡ conj n x y
conj-slack zero n x y small = ap (λ k. conj k x y) (omega arith)
conj-slack (suc d) zero zero y small = let e : zero + suc d ≡ suc d = omega arith in rw e refl
conj-slack (suc d) zero (suc x) y small = absurd (omega arith)
conj-slack (suc d) (suc n) zero y small =
    let e : suc n + suc d ≡ suc (n + suc d) = omega arith in rw e refl
conj-slack (suc d) (suc n) (suc x) y small =
    let e : suc n + suc d ≡ suc (n + suc d) = omega arith in
    rw e (omega (arith, conj-slack (suc d) n (suc x / 2) (y / 2) (omega arith)))

bit_and-zero_left : (y : ℕ) → bit_and 0 y ≡ 0
bit_and-zero_left = bit_and-bitwise 0

-- The lowest digit of a conjunction, and the others.
bit_and-digit : (x y : ℕ) → bit_and x y ≡ min (x % 2) (y % 2) + 2 * bit_and (x / 2) (y / 2)
bit_and-digit zero y = omega (arith, bit_and-zero_left y, bit_and-zero_left (y / 2))
bit_and-digit (suc x) y =
    let half = suc x / 2 in
    let room : half + (x - half) ≡ x = omega arith in
    let shorter =
      ap (λ k. conj k half (y / 2)) (sym room)
      ∙ conj-slack (x - half) half half (y / 2) (omega arith) in
    omega (arith, shorter, bit_and-bitwise (suc x) y, bit_and-bitwise half (y / 2))

bit_and-self_fuel : (f a : ℕ) → a ≤ f → bit_and a a ≡ a
bit_and-self_fuel f zero h = bit_and-zero_left 0
bit_and-self_fuel zero (suc a) h = absurd (omega arith)
bit_and-self_fuel (suc f) (suc a) h =
    omega (arith, bit_and-digit (suc a) (suc a), bit_and-self_fuel f (suc a / 2) (omega arith))

clear-odd : (n : ℕ) → n % 2 ≡ 1 → clear_lowest n ≡ n / 2 * 2
unfolding clear_lowest
clear-odd n h =
    let e : (n - 1) / 2 ≡ n / 2 = omega arith in
    bit_and-digit n (n - 1) ∙ rw e (omega (arith, bit_and-self_fuel (n / 2) (n / 2) (omega arith)))

clear-even : (n : ℕ) → n % 2 ≡ 0 → n ≢ 0 → clear_lowest n ≡ clear_lowest (n / 2) * 2
unfolding clear_lowest
clear-even n h nz =
    let e : (n - 1) / 2 ≡ n / 2 - 1 = omega arith in bit_and-digit n (n - 1) ∙ rw e (omega arith)

pub has_bit-zero : (k : ℕ) → has_bit k 0 ≡ false
has_bit-zero zero = refl
has_bit-zero (suc k) = has_bit-zero k

-- `ctz` gives the index of a set bit.
pub has_bit-ctz : (w n : ℕ) → n ≢ 0 → n < 2 ^ w → has_bit (ctz w n) n ≡ true
unfolding ctz
has_bit-ctz zero n nz lt = absurd (omega arith)
has_bit-ctz (suc w) n nz lt = elim (Bool-cases (n % 2 == 1)) [
  | inl odd ↦ rw odd odd
  | inr even ↦
      let ne = ==→ne (n % 2) 1 even in
      rw even (has_bit-ctz w (n / 2) (omega arith) (omega (arith, pow-suc 2 w)))
]

clear_is_even : (n : ℕ) → n ≢ 0 → clear_lowest n % 2 ≡ 0
clear_is_even n nz = elim (Bool-cases (n % 2 == 1)) [
  | inl odd ↦ omega (arith, clear-odd n ((==_iff (n % 2) 1).0 odd))
  | inr even ↦ let ne = ==→ne (n % 2) 1 even in omega (arith, clear-even n (omega arith) nz)
]

-- Clearing the lowest set bit leaves the bits above it, and there are none below.
pub has_bit-clear :
    (w n j : ℕ)
    → n ≢ 0
    → n < 2 ^ w
    → (has_bit j (clear_lowest n) ≡ true) ↔ ((has_bit j n ≡ true) × (ctz w n < j))
unfolding ctz
has_bit-clear zero n j nz lt = absurd (omega arith)
has_bit-clear (suc w) n zero nz lt = (
  λ e. absurd (omega (arith, (==_iff (clear_lowest n % 2) 1).0 e, clear_is_even n nz)),
  λ h. absurd (omega arith),
)
has_bit-clear (suc w) n (suc j) nz lt = elim (Bool-cases (n % 2 == 1)) [
  | inl odd ↦
      let e : clear_lowest n / 2 ≡ n / 2 = omega (arith, clear-odd n ((==_iff (n % 2) 1).0 odd)) in
      rw (odd, e) (λ h. (h, omega arith), λ h. h.0)
  | inr even ↦
      let ne = ==→ne (n % 2) 1 even in
      let e : clear_lowest n / 2 ≡ clear_lowest (n / 2) =
        omega (arith, clear-even n (omega arith) nz) in
      let ih = has_bit-clear w (n / 2) j (omega arith) (omega (arith, pow-suc 2 w)) in
      rw (even, e) (λ h. let (set, lt) = ih.0 h in (set, omega arith), λ h. ih.1 (h.0, omega arith))
]

-- No bit below the one that `ctz` gives is set.
pub ctz-least : (w n j : ℕ) → n ≢ 0 → n < 2 ^ w → has_bit j n ≡ true → ctz w n ≤ j
unfolding ctz
ctz-least zero n j nz lt h = absurd (omega arith)
ctz-least (suc w) n zero nz lt h = rw h (omega arith)
ctz-least (suc w) n (suc j) nz lt h = elim (Bool-cases (n % 2 == 1)) [
  | inl odd ↦ rw odd (omega arith)
  | inr even ↦
      let ne = ==→ne (n % 2) 1 even in
      let le = ctz-least w (n / 2) j (omega arith) (omega (arith, pow-suc 2 w)) h in
      rw even (omega arith)
]

-- Clearing a bit makes the mask no larger.
pub clear-lt : (w n : ℕ) → n ≢ 0 → n < 2 ^ w → clear_lowest n < 2 ^ w
clear-lt zero n nz lt = absurd (omega arith)
clear-lt (suc w) n nz lt = elim (Bool-cases (n % 2 == 1)) [
  | inl odd ↦ omega (arith, clear-odd n ((==_iff (n % 2) 1).0 odd))
  | inr even ↦
      let ne = ==→ne (n % 2) 1 even in
      omega (
        arith,
        clear-even n (omega arith) nz,
        pow-suc 2 w,
        clear-lt w (n / 2) (omega arith) (omega (arith, pow-suc 2 w)),
      )
]
