-- ===== src/Pool/Reached.antt =====
-- The files searched are those below the roots.
use asmgrep.Base.{
  ℕ, ◌+◌, ◌<◌, ◌≡◌, refl, ap, sym, ◌∙◌, inl, inr, Bool, true, false, ◌&&◌, ◌||◌, ◌==◌, ==_iff, List,
  [], ◌∷◌, ◌++◌, arith, Bool-cases, if◌then◌else◌, Bytes, ltb,
}
use mathlib.Core.Path.{ap₂}
use asmgrep.Pool.{Action, descend, search}
use asmgrep.Pool.Accounts.{count, count_dirs, count_files, over}
use asmgrep.Pool.Finished.{dirs_found, files_found}

-- The directories that actions push, and the files that they search.
abbrev pub dirs_in : List Action → List Bytes
dirs_in [] = []
dirs_in (descend d ∷ todo) = d ∷ dirs_in todo
dirs_in (search f ∷ todo) = dirs_in todo

abbrev pub files_in : List Action → List Bytes
files_in [] = []
files_in (descend d ∷ todo) = files_in todo
files_in (search f ∷ todo) = f ∷ files_in todo

count_dirs-dirs_in :
    (p : Bytes → Bool) (todo : List Action) → count_dirs p todo ≡ count p (dirs_in todo)
count_dirs-dirs_in p [] = refl
count_dirs-dirs_in p (descend d ∷ todo) =
    ap (λ n. (if p d then 1 else 0) + n) (count_dirs-dirs_in p todo)
count_dirs-dirs_in p (search f ∷ todo) = count_dirs-dirs_in p todo

count_files-files_in :
    (p : Bytes → Bool) (todo : List Action) → count_files p todo ≡ count p (files_in todo)
count_files-files_in p [] = refl
count_files-files_in p (descend d ∷ todo) = count_files-files_in p todo
count_files-files_in p (search f ∷ todo) =
    ap (λ n. (if p f then 1 else 0) + n) (count_files-files_in p todo)

pub count-cat :
    (p : Bytes → Bool) (xs ys : List Bytes) → count p (xs ++ ys) ≡ count p xs + count p ys
count-cat p [] ys = omega arith
count-cat p (x ∷ xs) ys = omega (arith, count-cat p xs ys)

pub over-cat : (g : Bytes → ℕ) (xs ys : List Bytes) → over g (xs ++ ys) ≡ over g xs + over g ys
over-cat g [] ys = omega arith
over-cat g (x ∷ xs) ys = omega (arith, over-cat g xs ys)

abbrev same_bytes : Bytes → Bytes → Bool
same_bytes [] [] = true
same_bytes [] (y ∷ ys) = false
same_bytes (x ∷ xs) [] = false
same_bytes (x ∷ xs) (y ∷ ys) = x == y && same_bytes xs ys

same_bytes_refl : (xs : Bytes) → same_bytes xs xs ≡ true
same_bytes_refl [] = refl
same_bytes_refl (x ∷ xs) =
    let e : (x == x) ≡ true = (==_iff x x).1 refl in rw e (same_bytes_refl xs)

same_bytes_eq : (xs ys : Bytes) → same_bytes xs ys ≡ true → xs ≡ ys
same_bytes_eq [] [] e = refl
same_bytes_eq [] (y ∷ ys) e = absurd cc
same_bytes_eq (x ∷ xs) [] e = absurd cc
same_bytes_eq (x ∷ xs) (y ∷ ys) e = elim (Bool-cases (x == y)) [
  | inl same ↦
      ap₂ ◌∷◌ ((==_iff x y).0 same)
        (same_bytes_eq xs ys (sym (ap (λ b. b && same_bytes xs ys) same) ∙ e))
  | inr other ↦
      absurd (let no : false ≡ true = sym (ap (λ b. b && same_bytes xs ys) other) ∙ e in cc)
]

-- Where an element stands that a list has.
counted_at :
    (x : Bytes) (ys : List Bytes)
    → 0 < count (same_bytes x) ys
    → (a : List Bytes) × (b : List Bytes) × (ys ≡ a ++ x ∷ b)
counted_at x [] some_x = absurd (omega arith)
counted_at x (y ∷ ys) some_x = elim (Bool-cases (same_bytes x y)) [
  | inl same ↦ ([], ys, ap (λ z. z ∷ ys) (sym (same_bytes_eq x y same)))
  | inr other ↦
      let none_here : ◌≡◌ {A = ℕ} (if same_bytes x y then 1 else 0) 0 = rw other refl in
      let (a, b, e) = counted_at x ys (omega (arith, none_here)) in (y ∷ a, b, ap (λ zs. y ∷ zs) e)
]

-- Lists of which every test is passed equally often have the same sums.
pub over-same_counts :
    (g : Bytes → ℕ) (xs ys : List Bytes)
    → ((p : Bytes → Bool) → count p xs ≡ count p ys)
    → over g xs ≡ over g ys
over-same_counts g [] [] same = refl
over-same_counts g [] (y ∷ ys) same = absurd (omega (arith, same (λ _. true)))
over-same_counts g (x ∷ xs) ys same =
    let here : ◌≡◌ {A = ℕ} (if same_bytes x x then 1 else 0) 1 = rw (same_bytes_refl x) refl in
    let (a, b, e) = counted_at x ys (omega (arith, here, same (same_bytes x))) in
    let rest =
      over-same_counts g xs (a ++ b)
        (λ p. omega (arith, same p, ap (count p) e, count-cat p a (x ∷ b), count-cat p a b)) in
    omega (arith, rest, ap (over g) e, over-cat g a (x ∷ b), over-cat g a b)

over-sum : (g h : Bytes → ℕ) (xs : List Bytes) → over (λ x. g x + h x) xs ≡ over g xs + over h xs
over-sum g h [] = refl
over-sum g h (x ∷ xs) = omega (arith, over-sum g h xs)

over-ext : (g h : Bytes → ℕ) (xs : List Bytes) → ((x : Bytes) → g x ≡ h x) → over g xs ≡ over h xs
over-ext g h [] same = refl
over-ext g h (x ∷ xs) same = omega (arith, same x, over-ext g h xs same)

-- All that some directories hold.
abbrev pub all_dirs : (Bytes → List Action) → List Bytes → List Bytes
all_dirs actions [] = []
all_dirs actions (d ∷ ds) = dirs_in (actions d) ++ all_dirs actions ds

count-all_dirs :
    (actions : Bytes → List Action) (p : Bytes → Bool) (ds : List Bytes)
    → dirs_found actions p ds ≡ count p (all_dirs actions ds)
count-all_dirs actions p [] = refl
count-all_dirs actions p (d ∷ ds) = omega (
  arith,
  count_dirs-dirs_in p (actions d),
  count-all_dirs actions p ds,
  count-cat p (dirs_in (actions d)) (all_dirs actions ds),
)

over-all_dirs :
    (actions : Bytes → List Action) (g : Bytes → ℕ) (ds : List Bytes)
    → over g (all_dirs actions ds) ≡ over (λ d. over g (dirs_in (actions d))) ds
over-all_dirs actions g [] = refl
over-all_dirs actions g (d ∷ ds) =
    omega
      (arith, over-cat g (dirs_in (actions d)) (all_dirs actions ds), over-all_dirs actions g ds)

-- When the directories taken are the roots with the directories found in those taken, the files
-- found in them are those below the roots, by any count `below` of the files below a directory.
pub files_found-below :
    (actions : Bytes → List Action) (roots taken : List Bytes) (p : Bytes → Bool)
    (below : Bytes → ℕ)
    → ((q : Bytes → Bool) → count q taken ≡ count q roots + dirs_found actions q taken)
    → ((d : Bytes) → below d ≡ count p (files_in (actions d)) + over below (dirs_in (actions d)))
    → files_found actions p taken ≡ over below roots
files_found-below actions roots taken p below all_taken split =
    let here = λ (d : Bytes). count p (files_in (actions d)) in
    let deeper = λ (d : Bytes). over below (dirs_in (actions d)) in
    let sums = over-same_counts below taken (roots ++ all_dirs actions taken) (λ q. omega (
      arith,
      all_taken q,
      count-all_dirs actions q taken,
      count-cat q roots (all_dirs actions taken),
    )) in
    omega (
      arith,
      sums,
      over-cat below roots (all_dirs actions taken),
      over-all_dirs actions below taken,
      over-ext below (λ d. here d + deeper d) taken split,
      over-sum here deeper taken,
      over-ext (λ d. count_files p (actions d)) here taken
          (λ d. count_files-files_in p (actions d)),
    )

-- The same of the disjunctions.
abbrev pub any_file : (Bytes → Bool) → List Bytes → Bool
any_file found [] = false
any_file found (f ∷ fs) = found f || any_file found fs

any_file-count :
    (found : Bytes → Bool) (fs : List Bytes) → any_file found fs ≡ ltb 0 (count found fs)
any_file-count found [] = refl
any_file-count found (f ∷ fs) = elim (Bool-cases (found f)) [
  | inl yes_f ↦ rw yes_f (let some_f : true ≡ ltb 0 (1 + count found fs) = ground arith in some_f)
  | inr no_f ↦ rw no_f (
      any_file-count found fs
      ∙ ap (ltb 0) (let e : count found fs ≡ 0 + count found fs = omega arith in e))
]

pub any_file-same_counts :
    (found : Bytes → Bool) (xs ys : List Bytes)
    → ((p : Bytes → Bool) → count p xs ≡ count p ys)
    → any_file found xs ≡ any_file found ys
any_file-same_counts found xs ys same =
    any_file-count found xs ∙ ap (ltb 0) (same found) ∙ sym (any_file-count found ys)

pub any_file-append :
    (found : Bytes → Bool) (xs ys : List Bytes)
    → any_file found (xs ++ ys) ≡ (any_file found xs || any_file found ys)
any_file-append found [] ys = refl
any_file-append found (x ∷ xs) ys =
    ap (λ b. found x || b) (any_file-append found xs ys)
    ∙ or_left (found x) (any_file found xs) (any_file found ys)
  where
    or_left : (a b c : Bool) → (a || (b || c)) ≡ ((a || b) || c)
    or_left true b c = refl
    or_left false b c = refl
