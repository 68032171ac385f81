-- ===== src/Cpp/Pool/Passing.antt =====
-- `flush` of the multi-threaded programs of cpp/ keeps lines whole.
use mathlib.Core.Path.{subst}
use asmgrep.Base.{
  ℕ, ◌≡◌, refl, sym, inl, inr, Bool, [], ◌++◌, map, flatten, arith, leb, ◌==◌, ==_iff, Bool-cases,
  Bytes, length,
}
use asmgrep.Output.{line_bytes}
use asmgrep.Output.Room.{length-line_bytes, needed-pos}
use asmgrep.Reading.Content.{nil_of}
use asmgrep.Std.Lines.{file_lines}
use asmgrep.Threads.AllLines.{printed_lines}
use asmgrep.Threads.Buffers.{Passes, Passes-nothing, Passes-then, Passes-flush, Passes-append_all}
use asmgrep.Cpp.{Sink}
use asmgrep.Cpp.Search.{SinkPrints}
use asmgrep.Cpp.Pool.{out_flush, flush_string, flush_full}

pub flush_string-Passes : (b : Bytes) → Passes [] b (flush_string b).0 (flush_string b).1
unfolding flush_string
flush_string-Passes b = elim (Bool-cases (length b == 0)) [
  | inl none_held ↦ rw none_held (Passes-nothing b)
  | inr held ↦ rw held (Passes-flush b)
]

pub flush_string-nil : (b : Bytes) → (flush_string b).0 ≡ []
unfolding flush_string
flush_string-nil b = elim (Bool-cases (length b == 0)) [
  | inl none_held ↦ rw none_held (nil_of b ((==_iff _ _).0 none_held))
  | inr held ↦ rw held refl
]

pub flush_full-matched : (s : Sink) → (flush_full s).0.matched ≡ s.matched
unfolding flush_full
flush_full-matched s = elim (Bool-cases (leb out_flush (length s.out))) [
  | inl full ↦ rw full refl
  | inr room ↦ rw room refl
]

flush_full-Passes : (s : Sink) → Passes [] s.out (flush_full s).0.out (flush_full s).1
unfolding flush_full
flush_full-Passes s = elim (Bool-cases (leb out_flush (length s.out))) [
  | inl full ↦ rw full (flush_string-Passes s.out)
  | inr room ↦ rw room (Passes-nothing s.out)
]

module _ (pat : Bytes) (ci multi : Bool) (path m : ℕ → Bytes) where
  pub SinkPrints-Passes :
      (i : ℕ) (c s : Sink)
      → SinkPrints (λ lines. lines ≡ file_lines pat ci (m i)) multi (path i) c s
      → Passes
          (printed_lines pat ci multi path m i ++ [])
          c.out
          (flush_full s).0.out
          (flush_full s).1
  SinkPrints-Passes i c s (lines, e, o, flag) =
      let f = line_bytes multi (path i) in
      Passes-then (printed_lines pat ci multi path m i) [] c.out s.out (flush_full s).0.out []
        (flush_full s).1
        (subst (λ b. Passes (map f (file_lines pat ci (m i))) c.out b []) (sym o)
          (subst (λ ls. Passes (map f ls) c.out (c.out ++ flatten (map f lines)) []) e
            (Passes-append_all f c.out lines (λ line.
              omega
                (arith, length-line_bytes multi (path i) line, needed-pos multi (path i) line)))))
        (flush_full-Passes s)
