-- ===== src/Mt/Claims/EachOnce.antt =====
-- Every file is searched by one thread, once.
use asmgrep.Base.{
  ℕ, zero, suc, ◌+◌, ◌≤◌, ◌≡◌, ◌≢◌, inl, inr, refl, List, [], ◌∷◌, ◌++◌, arith, leb, leb→le, leb→gt,
  ltb, ◌==◌, ◌&&◌, Bool-cases, if◌then◌else◌,
}
use asmgrep.Mt.Claims.{
  Claimer, claiming, searching, gone, Files, claim_turn, claimers, Reaches, begin, then_turn,
}

abbrev pub times : ℕ → List ℕ → ℕ
times j [] = 0
times j (i ∷ is) = (if i == j then 1 else 0) + times j is

abbrev pub sum : (Claimer → ℕ) → List Claimer → ℕ
sum f [] = 0
sum f (w ∷ ws) = f w + sum f ws

sum-append :
    (f : Claimer → ℕ) (before : List Claimer) (w : Claimer) (after : List Claimer)
    → sum f (before ++ w ∷ after) ≡ f w + (sum f before + sum f after)
sum-append f [] w after = omega arith
sum-append f (v ∷ before) w after = omega (arith, sum-append f before w after)

abbrev pub present : Claimer → ℕ
present claiming = 1
present (searching i) = 1
present gone = 0

abbrev left_loop : Claimer → ℕ
left_loop claiming = 0
left_loop (searching i) = 0
left_loop gone = 1

abbrev holds : ℕ → Claimer → ℕ
holds j claiming = 0
holds j (searching i) = if i == j then 1 else 0
holds j gone = 0

module _ (nfiles j : ℕ) where
  abbrev claimed : ℕ → ℕ
  claimed idx = if ltb j idx && ltb j nfiles then 1 else 0

  abbrev Balanced : ℕ → ℕ → Claimer → Files → Type 0
  Balanced m k w s =
      (times j s.searched + (holds j w + m) ≡ claimed s.idx)
      × (left_loop w + k ≢ 0 → nfiles ≤ s.idx)

  turn-Balanced :
      (m k : ℕ) (w : Claimer) (s : Files)
      → Balanced m k w s
      → Balanced m k (claim_turn nfiles w s).0 (claim_turn nfiles w s).1
  unfolding claim_turn
  turn-Balanced m k claiming s (b, e) = elim (Bool-cases (leb nfiles s.idx)) [
    | inl out ↦ let le = leb→le _ _ out in rw (out, claim_turn) (ground arith, λ h. omega arith)
    | inr more ↦
        let gt = leb→gt _ _ more in rw (more, claim_turn) (ground arith, λ h. omega (arith, e h))
  ]
  turn-Balanced m k (searching i) s (b, e) = (omega arith, e)
  turn-Balanced m k gone s h = h

  start-Balanced : (nt : ℕ) → (sum (holds j) (claimers nt) ≡ 0) × (sum left_loop (claimers nt) ≡ 0)
  unfolding claimers
  start-Balanced zero = (refl, refl)
  start-Balanced (suc nt) = let (a, b) = start-Balanced nt in (omega arith, omega arith)

  Reaches-Balanced :
      (nt : ℕ) {ws : List Claimer} {s : Files}
      → Reaches nfiles nt ws s
      → (times j s.searched + sum (holds j) ws ≡ claimed s.idx)
        × (sum left_loop ws ≢ 0 → nfiles ≤ s.idx)
  Reaches-Balanced nt begin = let (a, b) = start-Balanced nt in (ground arith, λ h. absurd (h b))
  Reaches-Balanced nt (then_turn before after w s r) =
      let (b, e) = Reaches-Balanced nt r in
      let m = sum (holds j) before + sum (holds j) after in
      let k = sum left_loop before + sum left_loop after in
      let w' = (claim_turn nfiles w s).0 in
      let (b', e') : Balanced m k w' (claim_turn nfiles w s).1 = turn-Balanced m k w s (
        omega (arith, b, sum-append (holds j) before w after),
        λ h. e (λ z. h (omega (arith, z, sum-append left_loop before w after))),
      ) in
      (
        omega (arith, b', sum-append (holds j) before w' after),
        λ h. e' (λ z. h (omega (arith, z, sum-append left_loop before w' after))),
      )

all_gone :
    (j : ℕ) (w : Claimer) (ws : List Claimer)
    → sum present (w ∷ ws) ≡ 0
    → (sum (holds j) (w ∷ ws) ≡ 0) × (sum left_loop (w ∷ ws) ≢ 0)
all_gone j claiming ws z = absurd (omega arith)
all_gone j (searching i) ws z = absurd (omega arith)
all_gone j gone [] z = (refl, λ h. omega arith)
all_gone j gone (v ∷ ws) z =
    let (a, b) = all_gone j v ws (omega arith) in (omega arith, λ h. omega arith)

-- However the turns interleave: when all threads (one at least) have left the loop, every file of
-- the list has been searched exactly once, and nothing else has been.
pub all_gone-once :
    (nfiles nt j : ℕ) (w : Claimer) (ws : List Claimer) (s : Files)
    → Reaches nfiles nt (w ∷ ws) s
    → sum present (w ∷ ws) ≡ 0
    → times j s.searched ≡ (if ltb j nfiles then 1 else 0)
all_gone-once nfiles nt j w ws s r z =
    let (b, e) = Reaches-Balanced nfiles j nt r in
    let (a, out) = all_gone j w ws z in let le = e out in ground arith
