-- ===== src/Base/Memory.antt =====
-- Results of code that reads memory and loops: a read outside the object it points into is
-- `fault`, and a loop that spends its fuel is `out_of_fuel`.
use Prim.Native.Nat.{ℕ, ◌<◌}
use mathlib.Core.Path.{◌≡◌, refl, ap}
use mathlib.Core.Option.{none, some}
use mathlib.Core.Bool.{Bool, true, false}
use asmgrep.Base.Tests.{if◌then◌else◌}
use asmgrep.Base.Lists.{Bytes, length, get_elem?, get_or, get_elem?-eq-get_or}

pub data Outcome {ℓ} (A : Type ℓ) : Type ℓ where
  ok : A → Outcome A
  fault : Outcome A
  out_of_fuel : Outcome A

infixl 5 ◌>>=◌ ◌>>◌
abbrev pub ◌>>=◌ {ℓ κ} : {A : Type ℓ} {B : Type κ} → Outcome A → (A → Outcome B) → Outcome B
ok a >>= f = f a
fault >>= f = fault
out_of_fuel >>= f = out_of_fuel

abbrev pub ◌>>◌ {ℓ} : {B : Type ℓ} → Outcome (Unit {0}) → Outcome B → Outcome B
m >> k = m >>= λ _. k

-- The run ends normally, with a result that satisfies `P`.
abbrev pub Returns {ℓ} : {A : Type ℓ} → Outcome A → (A → Type 0) → Type 0
Returns (ok a) P = P a
Returns fault P = ⊥
Returns out_of_fuel P = ⊥

pub Returns-inv {ℓ} :
    {A : Type ℓ} (r : Outcome A) (P : A → Type 0) → Returns r P → (a : A) × (r ≡ ok a) × P a
Returns-inv (ok a) P h = (a, refl, h)
Returns-inv fault P h = absurd h
Returns-inv out_of_fuel P h = absurd h

pub Returns-bind {ℓ κ} :
    {A : Type ℓ} {B : Type κ} (m : Outcome A) (f : A → Outcome B) (P : A → Type 0) (Q : B → Type 0)
    → Returns m P
    → ((a : A) → P a → Returns (f a) Q)
    → Returns (m >>= f) Q
Returns-bind (ok a) f P Q h k = k a h
Returns-bind fault f P Q h k = absurd h
Returns-bind out_of_fuel f P Q h k = absurd h

pub Returns-mono {ℓ} :
    {A : Type ℓ} (m : Outcome A) (P Q : A → Type 0)
    → Returns m P
    → ((a : A) → P a → Q a)
    → Returns m Q
Returns-mono (ok a) P Q h k = k a h
Returns-mono fault P Q h k = absurd h
Returns-mono out_of_fuel P Q h k = absurd h

pub Returns-if {ℓ} :
    {A : Type ℓ} (b : Bool) (x y : Outcome A) (P : A → Type 0)
    → Returns x P
    → Returns y P
    → Returns (if b then x else y) P
Returns-if true x y P h k = h
Returns-if false x y P h k = k

pub Returns-if_true {ℓ} :
    {A : Type ℓ} (b : Bool) (x y : Outcome A) (P : A → Type 0)
    → b ≡ true
    → Returns x P
    → Returns (if b then x else y) P
Returns-if_true true x y P e h = h
Returns-if_true false x y P e h = cc

pub Returns-if_false {ℓ} :
    {A : Type ℓ} (b : Bool) (x y : Outcome A) (P : A → Type 0)
    → b ≡ false
    → Returns y P
    → Returns (if b then x else y) P
Returns-if_false true x y P e h = cc
Returns-if_false false x y P e h = h

pub Returns-eq : {A : Type 0} (r : Outcome A) (a : A) → Returns r (λ b. b ≡ a) → r ≡ ok a
Returns-eq (ok b) a h = ap ok h
Returns-eq fault a h = absurd h
Returns-eq out_of_fuel a h = absurd h

-- `m[i]`, with a default that is only seen where the index is out of range.
abbrev pub at : Bytes → ℕ → ℕ
at m i = get_or m i 0

-- The checked read of one byte.
unfoldable pub load : Bytes → ℕ → Outcome ℕ
load m i = elim (get_elem? m i) [ none ↦ fault | some x ↦ ok x ]

pub load_in : (m : Bytes) (i : ℕ) → i < length m → load m i ≡ ok (at m i)
unfolding load
load_in m i h = rw (get_elem?-eq-get_or m i 0 h, load)
