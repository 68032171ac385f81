-- ===== src/Mt/Search/Reused.antt =====
-- What a thread finds in a file does not depend on what its buffers hold from earlier files.
use mathlib.Core.Path.{subst}
use asmgrep.Base.{
  ℕ, ◌+◌, ◌-◌, ◌≤◌, ◌<◌, ◌≡◌, ap, sym, ◌∙◌, Bool, List, arith, Bytes, length, take, Returns,
  Returns-bind, Returns-mono,
}
use asmgrep.Libc.{First}
use asmgrep.Lines.{slice, IsLine, Selected}
use asmgrep.Lines.Occurs.{Occurs}
use asmgrep.Std.{memmem, Settings, line_start, line_end}
use asmgrep.Std.Memmem.{memmem-First}
use asmgrep.Std.LineAround.{
  StartsLine, EndsLine, line_start-StartsLine, line_end-EndsLine, IsLine-between,
}
use asmgrep.LineLoop.{print_each}
use asmgrep.LineLoop.Selects.{line_loop-LoopPrints}
use asmgrep.Mt.{Ob}
use asmgrep.Mt.Search.{mt_ends, mt_print, mt_loop}
use asmgrep.Mt.Search.Prefix.{memmem-take, line_start-take, line_end-take, slice-take}

-- The objects `text` and `hay` begin with the bytes `m` and `low`, as many of each.
module _ (text hay m low needle : Bytes) (text_is : take (length m) text ≡ m)
    (hay_is : take (length m) hay ≡ low) (same_size : length low ≡ length m) where
  finds :
      (pos : ℕ)
      → pos < length m
      → Returns
          (memmem hay pos (length m - pos) needle)
          (First (Occurs (λ x. x) needle low) pos (length m))
  finds pos lt =
      let e : memmem low pos (length m - pos) needle ≡ memmem hay pos (length m - pos) needle =
        ap (λ b. memmem b pos (length m - pos) needle) (sym hay_is)
        ∙ memmem-take (length m) hay (length m - pos) pos needle (omega arith) in
      subst (λ r. Returns r (First (Occurs (λ x. x) needle low) pos (length m))) e
        (Returns-mono (memmem low pos (length m - pos) needle) _ _
          (memmem-First low needle (length m - pos) pos (omega arith) (omega arith))
          (λ r first. subst (λ n. First (Occurs (λ x. x) needle low) pos n r) same_size first))

  ends-IsLine :
      (i : ℕ)
      → i < length m
      → Returns (mt_ends text (length m) i) (λ line. IsLine m line.0 i line.1)
  unfolding mt_ends
  ends-IsLine i lt =
      let starts : line_start m i ≡ line_start text i =
        ap (λ b. line_start b i) (sym text_is) ∙ line_start-take (length m) text i (omega arith) in
      let stops : line_end m i (length m - i) ≡ line_end text i (length m - i) =
        ap (λ b. line_end b i (length m - i)) (sym text_is)
        ∙ line_end-take (length m) text (length m - i) i (omega arith) in
      Returns-bind (line_start text i) _ _ _
        (subst (λ r. Returns r (StartsLine m i)) starts (line_start-StartsLine m i (omega arith)))
        (λ ls from.
          Returns-bind (line_end text i (length m - i)) _ _ _
            (subst (λ r. Returns r (EndsLine m i)) stops
              (line_end-EndsLine m (length m - i) i (omega arith)))
            (λ le to. IsLine-between m ls i le from to))

  same_slice : (a b : ℕ) → b ≤ length m → slice text a b ≡ slice m a b
  same_slice a b h = sym (slice-take (length m) a b text h) ∙ ap (λ c. slice c a b) text_is

  pub mt_loop-LoopPrints :
      (g : Settings) (path : Bytes) (s : Ob × Bool)
      → Returns (mt_loop g path text (length m) hay needle s) (λ t.
        (lines : List Bytes) × Selected (Occurs (λ x. x) needle low) m 0 lines
        × (t ≡ print_each (mt_print g path) lines s))
  unfolding mt_loop
  mt_loop-LoopPrints g path s =
      line_loop-LoopPrints (λ pos. memmem hay pos (length m - pos) needle) (mt_ends text (length m))
        (mt_print g path) text m (Occurs (λ x. x) needle low) finds ends-IsLine same_slice
        (length m + 1) 0 s (omega arith) (omega arith)
