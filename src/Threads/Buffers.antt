-- ===== src/Threads/Buffers.antt =====
-- What a thread's buffer holds and writes, in whole lines.
use mathlib.Core.Path.{ap₂}
use asmgrep.Base.{
  ◌+◌, ◌<◌, ◌≡◌, refl, ap, sym, ◌∙◌, Bool, List, [], ◌∷◌, ◌++◌, map, append-nil, append_assoc,
  flatten, flatten_snoc, arith, Bytes, length, length-append,
}
use asmgrep.Pool.Accounts.{count}
use asmgrep.Threads.Owed.{count-append, flatten-append, map-append}

-- The bytes of a buffer are some lines, and there is none if there is no byte.
abbrev pub HoldsLines : List Bytes → Bytes → Type 0
HoldsLines held b = (flatten held ≡ b) × (flatten held ≡ [] → held ≡ [])

-- From the buffer `b` to `b'`, `written` is written meanwhile and `xs` are put in.
abbrev pub Passes : List Bytes → Bytes → Bytes → List Bytes → Type 0
Passes xs b b' written =
    (held : List Bytes)
    → HoldsLines held b
    → (groups : List (List Bytes)) × (kept : List Bytes) × (map flatten groups ≡ written)
      × HoldsLines kept b'
      × ((p : Bytes → Bool) → count p (flatten groups) + count p kept ≡ count p held + count p xs)

pub Passes-nothing : (b : Bytes) → Passes [] b b []
Passes-nothing b held h = ([], held, refl, h, λ p. omega arith)

pub Passes-then :
    (xs ys : List Bytes) (b b' b'' : Bytes) (written written' : List Bytes)
    → Passes xs b b' written
    → Passes ys b' b'' written'
    → Passes (xs ++ ys) b b'' (written ++ written')
Passes-then xs ys b b' b'' written written' first second held h =
    let (groups, kept, e, h', same) = first held h in
    let (groups', kept', e', h'', same') = second kept h' in
    (
      groups ++ groups',
      kept',
      map-append groups groups' ∙ ap₂ (λ a c. a ++ c) e e',
      h'',
      λ p. omega (
        arith,
        same p,
        same' p,
        count-append p xs ys,
        ap (count p) (flatten-append groups groups'),
        count-append p (flatten groups) (flatten groups'),
      ),
    )

-- The buffer is written.
pub Passes-flush : (b : Bytes) → Passes [] b [] (b ∷ [])
Passes-flush b held (e, solid) = (
  held ∷ [],
  [],
  ap (λ x. x ∷ []) e,
  (refl, λ _. refl),
  λ p. omega (arith, ap (count p) (append-nil held)),
)

-- A line is put in behind the others.
pub Passes-append : (b x : Bytes) → 0 < length x → Passes (x ∷ []) b (b ++ x) []
Passes-append b x some_byte held (e, solid) = (
  [],
  held ++ x ∷ [],
  refl,
  (
    flatten_snoc held x ∙ ap (λ c. c ++ x) e,
    λ z. absurd (
        let size : length (flatten held ++ x) ≡ 0 = ap length (sym (flatten_snoc held x) ∙ z) in
        omega (arith, some_byte, size, length-append (flatten held) x)),
  ),
  λ p. omega (arith, count-append p held (x ∷ [])),
)

-- A line is written past the buffer.
pub Passes-direct : (b x : Bytes) → Passes (x ∷ []) b b (x ∷ [])
Passes-direct b x held h =
    ((x ∷ []) ∷ [], held, ap (λ y. y ∷ []) (append-nil x), h, λ p. omega arith)

-- Lines are put in one after the other.
pub Passes-append_all :
    (f : Bytes → Bytes) (b : Bytes) (lines : List Bytes)
    → ((line : Bytes) → 0 < length (f line))
    → Passes (map f lines) b (b ++ flatten (map f lines)) []
Passes-append_all f b [] some_byte held h =
    Passes-nothing (b ++ []) held (h.0 ∙ sym (append-nil b), h.1)
Passes-append_all f b (line ∷ lines) some_byte held h =
    let (groups, kept, e, h', same) =
      Passes-then (f line ∷ []) (map f lines) b (b ++ f line)
        ((b ++ f line) ++ flatten (map f lines)) [] [] (Passes-append b (f line) (some_byte line))
        (Passes-append_all f (b ++ f line) lines some_byte) held h in
    (groups, kept, e, (h'.0 ∙ append_assoc b (f line) (flatten (map f lines)), h'.1), same)
