-- ===== src/Pattern/Freq.antt =====
-- c/grep.c, `freq`: how common each byte is in text, 255 for the most common.
use asmgrep.Base.{
  ℕ, zero, suc, ◌<◌, ◌≡◌, refl, [], ◌∷◌, arith, Bytes, length, get_or, Bool, true, ◌&&◌, ltb,
}

abbrev pub freq : Bytes
freq =
    1 ∷ 1 ∷ 1 ∷ 1 ∷ 1 ∷ 1 ∷ 1 ∷ 1 ∷ 1 ∷ 1 ∷ 250 ∷ 1 ∷ 1 ∷ 1 ∷ 1 ∷ 1 ∷ 1 ∷ 1 ∷ 1 ∷ 1 ∷ 1 ∷ 1 ∷ 1 ∷ 1
    ∷ 1 ∷ 1 ∷ 1 ∷ 1 ∷ 1 ∷ 1 ∷ 1 ∷ 1 ∷ 255 ∷ 1 ∷ 50 ∷ 1 ∷ 1 ∷ 1 ∷ 1 ∷ 1 ∷ 50 ∷ 50 ∷ 1 ∷ 1 ∷ 50 ∷ 50
    ∷ 50 ∷ 50 ∷ 60 ∷ 60 ∷ 60 ∷ 60 ∷ 60 ∷ 60 ∷ 60 ∷ 60 ∷ 60 ∷ 60 ∷ 50 ∷ 1 ∷ 1 ∷ 50 ∷ 1 ∷ 1 ∷ 1 ∷ 66
    ∷ 33 ∷ 45 ∷ 50 ∷ 80 ∷ 38 ∷ 36 ∷ 58 ∷ 63 ∷ 20 ∷ 23 ∷ 48 ∷ 41 ∷ 61 ∷ 65 ∷ 35 ∷ 20 ∷ 56 ∷ 60 ∷ 70
    ∷ 43 ∷ 26 ∷ 40 ∷ 20 ∷ 36 ∷ 20 ∷ 1 ∷ 1 ∷ 1 ∷ 1 ∷ 50 ∷ 1 ∷ 200 ∷ 100 ∷ 135 ∷ 150 ∷ 240 ∷ 115 ∷ 110
    ∷ 175 ∷ 190 ∷ 45 ∷ 70 ∷ 145 ∷ 125 ∷ 185 ∷ 195 ∷ 105 ∷ 38 ∷ 170 ∷ 180 ∷ 210 ∷ 130 ∷ 80 ∷ 120 ∷ 40
    ∷ 108 ∷ 35 ∷ 1 ∷ 1 ∷ 1 ∷ 1 ∷ 1 ∷ 1 ∷ 1 ∷ 1 ∷ 1 ∷ 1 ∷ 1 ∷ 1 ∷ 1 ∷ 1 ∷ 1 ∷ 1 ∷ 1 ∷ 1 ∷ 1 ∷ 1 ∷ 1
    ∷ 1 ∷ 1 ∷ 1 ∷ 1 ∷ 1 ∷ 1 ∷ 1 ∷ 1 ∷ 1 ∷ 1 ∷ 1 ∷ 1 ∷ 1 ∷ 1 ∷ 1 ∷ 1 ∷ 1 ∷ 1 ∷ 1 ∷ 1 ∷ 1 ∷ 1 ∷ 1 ∷ 1
    ∷ 1 ∷ 1 ∷ 1 ∷ 1 ∷ 1 ∷ 1 ∷ 1 ∷ 1 ∷ 1 ∷ 1 ∷ 1 ∷ 1 ∷ 1 ∷ 1 ∷ 1 ∷ 1 ∷ 1 ∷ 1 ∷ 1 ∷ 1 ∷ 1 ∷ 1 ∷ 1 ∷ 1
    ∷ 1 ∷ 1 ∷ 1 ∷ 1 ∷ 1 ∷ 1 ∷ 1 ∷ 1 ∷ 1 ∷ 1 ∷ 1 ∷ 1 ∷ 1 ∷ 1 ∷ 1 ∷ 1 ∷ 1 ∷ 1 ∷ 1 ∷ 1 ∷ 1 ∷ 1 ∷ 1 ∷ 1
    ∷ 1 ∷ 1 ∷ 1 ∷ 1 ∷ 1 ∷ 1 ∷ 1 ∷ 1 ∷ 1 ∷ 1 ∷ 1 ∷ 1 ∷ 1 ∷ 1 ∷ 1 ∷ 1 ∷ 1 ∷ 1 ∷ 1 ∷ 1 ∷ 1 ∷ 1 ∷ 1 ∷ 1
    ∷ 1 ∷ 1 ∷ 1 ∷ 1 ∷ 1 ∷ 1 ∷ 1 ∷ 1 ∷ 1 ∷ 1 ∷ 1 ∷ 1 ∷ 1 ∷ 1 ∷ 1 ∷ 1 ∷ []

-- `freq[c]`. The table has an entry for every byte, so the default is never seen.
unfoldable pub rank : ℕ → ℕ
rank c = get_or freq c 0

length-freq : length freq ≡ 256
length-freq = refl

all_lt : ℕ → Bytes → Bool
all_lt b [] = true
all_lt b (x ∷ xs) = ltb x b && all_lt b xs

get_or-lt_of_all : (b : ℕ) (xs : Bytes) (i : ℕ) → 0 < b → all_lt b xs ≡ true → get_or xs i 0 < b
unfolding all_lt
get_or-lt_of_all b [] i h e = h
get_or-lt_of_all b (x ∷ xs) zero h e = ground arith
get_or-lt_of_all b (x ∷ xs) (suc i) h e = ground (arith, get_or-lt_of_all b xs i h)

freq_small : all_lt 256 freq ≡ true
unfolding all_lt
freq_small = refl

-- Every rank is below the start value 256 of the searches for the rarest byte.
pub rank-lt : (c : ℕ) → rank c < 256
unfolding rank
rank-lt c = get_or-lt_of_all 256 freq c (omega arith) freq_small
