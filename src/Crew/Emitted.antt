-- ===== src/Crew/Emitted.antt =====
-- The context of a thread of c/grep.c keeps lines whole, and gets the lines of c/grep_std.c.
use native.Mathlib.Decide.{dec_le}
use mathlib.Core.Path.{subst}
use asmgrep.Base.{
  ℕ, ◌≡◌, ◌⊎◌, refl, ap, sym, ◌∙◌, inl, inr, min, Bool, true, false, not, ◌||◌, if◌then◌else◌,
  Option, none, some, List, [], ◌∷◌, ◌++◌, map, append-nil, append_assoc, flatten, arith, Bytes,
  length, ok, Returns-eq, Returns-mono,
}
use asmgrep.Libc.{memchr}
use asmgrep.Pattern.{Pattern}
use asmgrep.Lines.{Selected}
use asmgrep.Output.{State, outbuf_sz, flush_ctx, giant_writes, line_bytes, needed, emit, emit_all}
use asmgrep.Output.Room.{
  mark, length-line_bytes, needed-pos, flush_ctx_cases, emit_giant, emit_copy,
}
use asmgrep.Output.Whole.{flatten_giant}
use asmgrep.Scan.{scan}
use asmgrep.Scan.Selects.{IsText, scan-Prints}
use asmgrep.Scan.Correct.{IsSetUp, Occurs-setup}
use asmgrep.Std.Lines.{binary_test, found_lines, found_lines-none, file_lines, file_lines-nil}
use asmgrep.Reading.{Answers, fail, after_read, search_file}
use asmgrep.Reading.Failures.{reported}
use asmgrep.Reading.Content.{Holds, search_file-scan}
use asmgrep.Threads.Owed.{map-append}
use asmgrep.Threads.Buffers.{
  Passes, Passes-nothing, Passes-then, Passes-flush, Passes-append, Passes-direct,
}

-- What the buffer does from one state to a later one.
abbrev pub StatePasses : List Bytes → State → State → Type 0
StatePasses xs s t =
    (sections : List (List Bytes)) × (t.out ≡ s.out ++ sections)
    × Passes xs s.obuf t.obuf (map flatten sections)

pub StatePasses-then :
    (xs ys : List Bytes) (s t u : State)
    → StatePasses xs s t
    → StatePasses ys t u
    → StatePasses (xs ++ ys) s u
StatePasses-then xs ys s t u (a, e, first) (b, e', second) = (
  a ++ b,
  e' ∙ ap (λ w. w ++ b) e ∙ append_assoc s.out a b,
  subst (Passes (xs ++ ys) s.obuf u.obuf) (sym (map-append a b))
      (Passes-then xs ys s.obuf t.obuf u.obuf (map flatten a) (map flatten b) first second),
)

pub StatePasses-same : (s t : State) → t.obuf ≡ s.obuf → t.out ≡ s.out → StatePasses [] s t
StatePasses-same s t e o = (
  [],
  o ∙ sym (append-nil s.out),
  subst (λ b. Passes [] s.obuf b []) (sym e) (Passes-nothing s.obuf),
)

pub StatePasses-flush : (s : State) → StatePasses [] s (flush_ctx s)
StatePasses-flush s = elim (flush_ctx_cases s) [
  | inl (_, e) ↦ rw e (StatePasses-same s s refl refl)
  | inr e ↦ rw e (
    (s.obuf ∷ []) ∷ [],
    refl,
    subst (λ b. Passes [] s.obuf [] (b ∷ [])) (sym (append-nil s.obuf)) (Passes-flush s.obuf),
  )
]

module _ (multi : Bool) (path line : Bytes) where
  room_of : (s room : State) → (room ≡ mark s) ⊎ (room ≡ flush_ctx (mark s)) → StatePasses [] s room
  room_of s room (inl e) = rw e (StatePasses-same s (mark s) refl refl)
  room_of s room (inr e) = rw e (
      StatePasses-then [] [] s (mark s) (flush_ctx (mark s)) (StatePasses-same s (mark s) refl refl)
        (StatePasses-flush (mark s)))

  StatePasses-emit :
      (s : State) → StatePasses (line_bytes multi path line ∷ []) s (emit multi path line s)
  StatePasses-emit s =
      let x = line_bytes multi path line in
      elim (dec_le (needed multi path line) outbuf_sz) [
        | no giant ↦ rw (emit_giant multi path line s (omega arith)) (
          giant_writes multi path line ∷ [],
          refl,
          subst (λ b. Passes (x ∷ []) s.obuf s.obuf (b ∷ [])) (sym (flatten_giant multi path line))
              (Passes-direct s.obuf x),
        )
        | yes fits ↦
            let (room, from, _, e) = emit_copy multi path line s fits in
            let copied : StatePasses (x ∷ []) room (record room { obuf = room.obuf ++ x }) = (
              [],
              sym (append-nil room.out),
              Passes-append room.obuf x
                  (omega (arith, length-line_bytes multi path line, needed-pos multi path line)),
            ) in
            rw e (
              StatePasses-then [] (x ∷ []) s room (record room { obuf = room.obuf ++ x })
                (room_of s room from) copied)
      ]

pub StatePasses-emit_all :
    (multi : Bool) (path : Bytes) (lines : List Bytes) (s : State)
    → StatePasses (map (line_bytes multi path) lines) s (emit_all multi path lines s)
unfolding emit_all
StatePasses-emit_all multi path [] s = StatePasses-same s s refl refl
StatePasses-emit_all multi path (line ∷ lines) s =
    StatePasses-then (line_bytes multi path line ∷ []) (map (line_bytes multi path) lines) s
      (emit multi path line s) (emit_all multi path lines (emit multi path line s))
      (StatePasses-emit multi path line s)
      (StatePasses-emit_all multi path lines (emit multi path line s))

module _ (pat : Bytes) (ci multi : Bool) (path m : Bytes) (g : Pattern) (set : IsSetUp pat ci g)
    (s : State) where
  scan-found :
      (nul : Option ℕ) (is_text : nul ≡ none → IsText m)
      → memchr m 0 0 (min (length m) 65536) ≡ ok nul
      → scan g multi path m s ≡ ok (emit_all multi path (found_lines pat ci m nul is_text) s)
  unfolding found_lines scan emit_all
  scan-found (some k) is_text tested = rw (tested, scan) refl
  scan-found none is_text tested = Returns-eq (scan g multi path m s) _ (
      Returns-mono (scan g multi path m s) _ _
        (scan-Prints g multi path m s set.ready (is_text refl))
        (λ t (lines, sel, e).
          e
          ∙ ap (λ ls. emit_all multi path ls s)
              (found_lines-none pat ci m lines is_text
                (subst (λ P. Selected P m 0 lines) (Occurs-setup pat ci g m set) sel))))

  pub search_file-file_lines :
      (a : Answers)
      → Holds m a
      → search_file g multi path a s ≡ ok (emit_all multi path (file_lines pat ci m) s)
  unfolding file_lines
  search_file-file_lines a h =
      let (nul, tested, is_text) = binary_test m in
      search_file-scan g multi path m a s h ∙ scan-found nul is_text tested

-- A file is read without errors, or cannot be opened or read and counts as empty.
abbrev pub FileReads : Bytes → Answers → Type 0
FileReads m a = Holds m a ⊎ ((reported a ≡ true) × (m ≡ []))

-- The context in which its lines are emitted: a failure sets the error flag.
abbrev pub flagged : Answers → State → State
flagged a s = if reported a then fail s else s

Holds-unreported : (m : Bytes) (a : Answers) → Holds m a → reported a ≡ false
Holds-unreported m a h =
    ap (λ b. not b || elim a.read [ none ↦ true | some _ ↦ false ]) h.opens
    ∙ ap (λ (r : Option Bytes). elim r [ none ↦ true | some _ ↦ false ]) h.read

module _ (g : Pattern) (multi : Bool) (path : Bytes) (a : Answers) (s : State) where
  search_file-failed : reported a ≡ true → search_file g multi path a s ≡ ok (fail s)
  unfolding search_file after_read
  search_file-failed failed = by_answers a.opens a.read failed
    where
      by_answers :
          (opens : Bool) (r : Option Bytes)
          → (not opens || elim r [ none ↦ true | some _ ↦ false ]) ≡ true
          → (if opens then after_read g multi path a s r else ok (fail s)) ≡ ok (fail s)
      by_answers false r e = refl
      by_answers true none e = refl
      by_answers true (some b) e = absurd (cc)

pub search_file-read_lines :
    (pat : Bytes) (ci multi : Bool) (path m : Bytes) (g : Pattern)
    → IsSetUp pat ci g
    → (s : State) (a : Answers) → FileReads m a
    → search_file g multi path a s ≡ ok (emit_all multi path (file_lines pat ci m) (flagged a s))
unfolding emit_all
search_file-read_lines pat ci multi path m g set s a (inl h) =
    search_file-file_lines pat ci multi path m g set s a h
    ∙ ap (λ b. ok (emit_all multi path (file_lines pat ci m) (if b then fail s else s)))
        (sym (Holds-unreported m a h))
search_file-read_lines pat ci multi path m g set s a (inr (failed, empty)) =
    search_file-failed g multi path a s failed
    ∙ ap (λ b. ok (if b then fail s else s)) (sym failed)
    ∙ ap (λ lines. ok (emit_all multi path lines (flagged a s)))
        (file_lines-nil pat ci m (ap length empty))

pub StatePasses-file :
    (multi : Bool) (path : Bytes) (lines : List Bytes) (a : Answers) (s : State)
    → StatePasses (map (line_bytes multi path) lines) s (emit_all multi path lines (flagged a s))
StatePasses-file multi path lines a s =
    StatePasses-then [] (map (line_bytes multi path) lines) s (flagged a s)
      (emit_all multi path lines (flagged a s)) (kept (reported a))
      (StatePasses-emit_all multi path lines (flagged a s))
  where
    kept : (b : Bool) → StatePasses [] s (if b then fail s else s)
    kept true = unfold fail in StatePasses-same s (fail s) refl refl
    kept false = StatePasses-same s s refl refl

-- The lock's sections of a context that began without any are all that it wrote.
pub from_nothing_out :
    (xs : List Bytes) (s t : State)
    → s.out ≡ []
    → StatePasses xs s t
    → Passes xs s.obuf t.obuf (map flatten t.out)
from_nothing_out xs s t none_out (sections, e, passes) =
    subst (λ w. Passes xs s.obuf t.obuf (map flatten w))
      (sym (e ∙ ap (λ w. w ++ sections) none_out)) passes
