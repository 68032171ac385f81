-- ===== src/Probe/Slots.antt =====
-- The array of descriptors after the completions of phase 1, in whatever order they come.
use asmgrep.Base.{
  ℕ, zero, suc, ◌≤◌, ◌<◌, ◌≡◌, ◌⊎◌, refl, ap, sym, ◌∙◌, inl, inr, Bool, true, false, ◌||◌, ◌==◌,
  ==_iff, Bool-cases, Option, none, List, [], ◌∷◌, arith, lt→ltb, All, if◌then◌else◌, Bytes, length,
  get_or, Returns, Returns-mono,
}
use asmgrep.Probe.{Cqe, set_fd, store_fds}

-- The same completions in another order.
pub data Shuffled {A : Type 0} : List A → List A → Type 0 where
  nil : Shuffled [] []
  cons : {a : A} {xs ys : List A} → Shuffled xs ys → Shuffled (a ∷ xs) (a ∷ ys)
  swap : {a b : A} {xs : List A} → Shuffled (a ∷ b ∷ xs) (b ∷ a ∷ xs)
  trans : {xs ys zs : List A} → Shuffled xs ys → Shuffled ys zs → Shuffled xs zs

pub All-Shuffled :
    {A : Type 0} (P : A → Type 0) {xs ys : List A} → Shuffled xs ys → All P xs → All P ys
All-Shuffled P nil h = tt
All-Shuffled P (cons perm) (p, ps) = (p, All-Shuffled P perm ps)
All-Shuffled P swap (p, (q, ps)) = (q, (p, ps))
All-Shuffled P (trans a b) h = All-Shuffled P b (All-Shuffled P a h)

-- Whether a slot is among the completions.
abbrev pub has_slot : ℕ → List (Cqe Bytes) → Bool
has_slot k [] = false
has_slot k (c ∷ cqes) = c.user_data == k || has_slot k cqes

or_swap : (a b c : Bool) → (a || (b || c)) ≡ (b || (a || c))
or_swap true true c = refl
or_swap true false c = refl
or_swap false b c = refl

pub has_slot-Shuffled :
    (k : ℕ) {xs ys : List (Cqe Bytes)} → Shuffled xs ys → has_slot k xs ≡ has_slot k ys
has_slot-Shuffled k nil = refl
has_slot-Shuffled k (cons {a} perm) = ap (λ r. a.user_data == k || r) (has_slot-Shuffled k perm)
has_slot-Shuffled k (swap {a} {b} {xs}) =
    or_swap (a.user_data == k) (b.user_data == k) (has_slot k xs)
has_slot-Shuffled k (trans x y) = has_slot-Shuffled k x ∙ has_slot-Shuffled k y

length-set_fd :
    (k : ℕ) (fd : Option Bytes) (fds : List (Option Bytes)) → length (set_fd k fd fds) ≡ length fds
unfolding set_fd
length-set_fd k fd [] = refl
length-set_fd zero fd (x ∷ fds) = refl
length-set_fd (suc k) fd (x ∷ fds) = ap suc (length-set_fd k fd fds)

set_fd-at :
    (u k : ℕ) (fd : Option Bytes) (fds : List (Option Bytes))
    → u < length fds
    → get_or (set_fd u fd fds) k none ≡ (if u == k then fd else get_or fds k none)
unfolding set_fd
set_fd-at u k fd [] lt = absurd (omega arith)
set_fd-at zero zero fd (x ∷ fds) lt = refl
set_fd-at zero (suc k) fd (x ∷ fds) lt = let e : (0 == suc k) ≡ false = ground arith in rw e refl
set_fd-at (suc u) zero fd (x ∷ fds) lt = let e : (suc u == 0) ≡ false = ground arith in rw e refl
set_fd-at (suc u) (suc k) fd (x ∷ fds) lt =
    let same : (suc u == suc k) ≡ (u == k) = ground arith in
    set_fd-at u k fd fds (omega arith) ∙ ap (λ b. if b then fd else get_or fds k none) (sym same)

module _ (opened : ℕ → Option Bytes) (n : ℕ) where
  -- A completion is that of one of the `n` requests, by their answers `opened`.
  abbrev pub IsAnswer : Cqe Bytes → Type 0
  IsAnswer c = (c.user_data < n) × (c.res ≡ opened c.user_data)

  -- Each slot that is completed has its answer, and the others are unchanged.
  abbrev pub Stored : List (Cqe Bytes) → List (Option Bytes) → List (Option Bytes) → Type 0
  Stored cqes fds fds' =
      (length fds' ≡ length fds)
      × ((k : ℕ) → get_or fds' k none ≡ (if has_slot k cqes then opened k else get_or fds k none))

  pub store_fds-Stored :
      (cqes : List (Cqe Bytes)) (fds : List (Option Bytes))
      → n ≤ length fds
      → All IsAnswer cqes
      → Returns (store_fds cqes fds) (Stored cqes fds)
  unfolding store_fds
  store_fds-Stored [] fds room h = (refl, λ k. refl)
  store_fds-Stored (c ∷ cqes) fds room ((lt, is), others) =
      let u = c.user_data in
      let fds1 = set_fd u c.res fds in
      let size = length-set_fd u c.res fds in
      rw (lt→ltb u (length fds) (omega arith)) (
        Returns-mono (store_fds cqes fds1) (Stored cqes fds1) _
          (store_fds-Stored cqes fds1 (omega (arith, size)) others)
          (λ fds' (same, at_k). (
            same ∙ size,
            λ k.
                at_k k
                ∙ ap (λ x. if has_slot k cqes then opened k else x)
                    (set_fd-at u k c.res fds (omega arith))
                ∙ by_slot k (Bool-cases (has_slot k cqes)) (Bool-cases (u == k)),
          )))
    where
      by_slot :
          (k : ℕ)
          → (has_slot k cqes ≡ true) ⊎ (has_slot k cqes ≡ false)
          → ((c.user_data == k) ≡ true) ⊎ ((c.user_data == k) ≡ false)
          → (if has_slot k cqes
              then opened k
              else if c.user_data == k
              then c.res
              else get_or fds k none)
            ≡ (if c.user_data == k || has_slot k cqes then opened k else get_or fds k none)
      by_slot k (inl later) (inl here) = rw later (rw here refl)
      by_slot k (inl later) (inr not_here) = rw later (rw not_here refl)
      by_slot k (inr not_later) (inl here) =
          rw not_later (rw here (is ∙ ap opened ((==_iff c.user_data k).0 here)))
      by_slot k (inr not_later) (inr not_here) = rw not_later (rw not_here refl)
