-- ===== src/Cpp/Search.antt =====
-- The search of the C++ programs prints the lines that c/grep_std.c prints.
use mathlib.Core.Path.{subst}
use native.Mathlib.Nat.{le_refl}
use asmgrep.Base.{
  ℕ, ◌+◌, ◌-◌, ◌<◌, ◌≡◌, refl, ap, sym, ◌∙◌, inl, inr, min, Bool, true, false, none, List, [], ◌∷◌,
  ◌++◌, map, append-nil, append_assoc, flatten, arith, ◌==◌, ==_iff, ==→ne, Bool-cases,
  if◌then◌else◌, Bytes, length, ok, Returns, Returns-bind, Returns-mono,
}
use asmgrep.Libc.{First, Last, memchr, memrchr, memchr-First, memrchr-Last}
use asmgrep.Output.{newline, colon, line_bytes}
use asmgrep.Lines.{IsLine, Selected}
use asmgrep.Lines.Slice.{IsNewline, IsLine-around}
use asmgrep.Lines.Occurs.{Occurs}
use asmgrep.Std.Memmem.{memmem-First}
use asmgrep.LineLoop.{line_loop, print_each}
use asmgrep.LineLoop.Selects.{line_loop-LoopPrints}
use asmgrep.Mt.Search.Agrees.{flag_after}
use asmgrep.Cpp.{
  sv_find, sv_find_char, sv_rfind_char, Globals, Sink, format_line, append_line, view_ends,
  view_loop,
}

view_ends-IsLine :
    (hay : Bytes) (i : ℕ)
    → i < length hay
    → Returns (view_ends hay i) (λ line. IsLine hay line.0 i line.1)
unfolding view_ends sv_find_char sv_rfind_char
view_ends-IsLine hay i lt =
    Returns-bind (if i == 0 then ok none else memrchr hay 0 newline (min (i - 1 + 1) (length hay)))
      _ (Last (IsNewline hay) 0 i) _ before
      (λ prev last.
        Returns-bind (memchr hay i newline (length hay - i)) _ _ _
          (memchr-First hay newline i (length hay - i) (length hay) (omega arith) (le_refl _))
          (λ nl first. IsLine-around hay i lt prev nl last first))
  where
    before :
        Returns
          (if i == 0 then ok none else memrchr hay 0 newline (min (i - 1 + 1) (length hay)))
          (Last (IsNewline hay) 0 i)
    before = elim (Bool-cases (i == 0)) [
      | inl first ↦ let z = (==_iff i 0).0 first in rw first (λ j lo up. absurd (omega arith))
      | inr later ↦
          let nz = ==→ne i 0 later in
          rw later (
            memrchr-Last hay newline 0 (min (i - 1 + 1) (length hay)) i (omega arith) (omega arith))
    ]

line_bytes-format :
    (multi : Bool) (path line : Bytes) → format_line multi path line ≡ line_bytes multi path line
unfolding format_line line_bytes
line_bytes-format true path line = sym (append_assoc path (colon ∷ []) (line ++ newline ∷ []))
line_bytes-format false path line = refl

-- What is printed between two states.
abbrev pub SinkPrints : (List Bytes → Type 0) → Bool → Bytes → Sink → Sink → Type 0
SinkPrints Q multi path s t =
    (lines : List Bytes) × Q lines
    × (t.out ≡ s.out ++ flatten (map (line_bytes multi path) lines))
    × (t.matched ≡ flag_after lines s.matched)

print_each-out :
    (g : Globals) (path : Bytes) (lines : List Bytes) (s : Sink)
    → (print_each (append_line g path) lines s).out
      ≡ s.out ++ flatten (map (line_bytes g.multi path) lines)
unfolding print_each append_line
print_each-out g path [] s = sym (append-nil s.out)
print_each-out g path (line ∷ lines) s =
    print_each-out g path lines (append_line g path line s)
    ∙ ap (λ b. (s.out ++ b) ++ flatten (map (line_bytes g.multi path) lines))
        (line_bytes-format g.multi path line)
    ∙ append_assoc s.out (line_bytes g.multi path line)
        (flatten (map (line_bytes g.multi path) lines))

print_each-matched :
    (g : Globals) (path : Bytes) (lines : List Bytes) (s : Sink)
    → (print_each (append_line g path) lines s).matched ≡ flag_after lines s.matched
unfolding print_each append_line
print_each-matched g path [] s = refl
print_each-matched g path (line ∷ lines) s = print_each-matched g path lines _ ∙ all_set lines
  where
    all_set : (lines : List Bytes) → flag_after lines true ≡ true
    all_set [] = refl
    all_set (l ∷ ls) = refl

module _ (g : Globals) (path hay scan : Bytes) (same_size : length scan ≡ length hay) where
  finds :
      (pos : ℕ)
      → pos < length hay
      → Returns (sv_find scan g.pat pos) (First (Occurs (λ x. x) g.pat scan) pos (length hay))
  unfolding sv_find
  finds pos lt =
      Returns-mono _ _ _
        (memmem-First scan g.pat (length scan - pos) pos (omega arith) (omega arith))
        (λ r first. subst (λ n. First (Occurs (λ x. x) g.pat scan) pos n r) same_size first)

  pub view_loop-lines :
      (s : Sink)
      → Returns
          (view_loop g path hay scan s)
          (SinkPrints (Selected (Occurs (λ x. x) g.pat scan) hay 0) g.multi path s)
  unfolding view_loop
  view_loop-lines s =
      subst
        (λ n.
          Returns
            (line_loop (sv_find scan g.pat) (view_ends hay) (append_line g path) hay n (n + 1) 0 s)
            (SinkPrints (Selected (Occurs (λ x. x) g.pat scan) hay 0) g.multi path s))
        (sym same_size)
        (Returns-mono
          (line_loop (sv_find scan g.pat) (view_ends hay) (append_line g path) hay (length hay)
            (length hay + 1) 0 s)
          (λ t.
            (lines : List Bytes) × Selected (Occurs (λ x. x) g.pat scan) hay 0 lines
            × (t ≡ print_each (append_line g path) lines s))
          _
          (line_loop-LoopPrints (sv_find scan g.pat) (view_ends hay) (append_line g path) hay hay
            (Occurs (λ x. x) g.pat scan) finds (view_ends-IsLine hay) (λ a b h. refl)
            (length hay + 1) 0 s (omega arith) (omega arith))
          (λ t (lines, sel, e). (
            lines,
            sel,
            ap (λ (r : Sink). r.out) e ∙ print_each-out g path lines s,
            ap (λ (r : Sink). r.matched) e ∙ print_each-matched g path lines s,
          )))
