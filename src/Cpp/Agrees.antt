-- ===== src/Cpp/Agrees.antt =====
-- `search_file` of cpp/grep_std.cpp prints the lines that `search_file` of c/grep_std.c prints.
use mathlib.Core.Path.{subst}
use asmgrep.Base.{
  ℕ, ◌-◌, ◌≡◌, refl, ap, sym, ◌∙◌, ◌⊎◌, inl, inr, min, Bool, true, false, Option, none, some, [],
  ◌∷◌, map, append-nil, arith, ◌==◌, ==_iff, Bool-cases, if◌then◌else◌, Bytes, length, length-take,
  take, ok, Returns, Returns-mono,
}
use asmgrep.Libc.{memchr}
use asmgrep.Pattern.{fold}
use asmgrep.Pattern.Prepared.{compared}
use asmgrep.Lines.{Selected}
use asmgrep.Lines.Unique.{Selected-mono}
use asmgrep.Lines.Occurs.{Occurs}
use asmgrep.Scan.Selects.{IsText}
use asmgrep.Scan.Correct.{fold_if}
use asmgrep.Std.{tolower, Printed}
use asmgrep.Std.Selects.{length-map-tolower, lower-Occurs, Occurs-lower}
use asmgrep.Std.Lines.{
  StdLines, binary_test, found_lines, found_lines-none, file_lines, file_lines-StdLines,
  file_lines-nil,
}
use asmgrep.Mt.Search.Prefix.{memchr-take}
use asmgrep.Cpp.{sv_find_char, lower, globals, Sink, view_loop}
use asmgrep.Cpp.Std.{StreamAnswers, read_file, read_sized, search_view, search_read, search_stream}
use asmgrep.Cpp.Search.{SinkPrints, view_loop-lines}

pub lower-tolower : (bytes : Bytes) → map lower bytes ≡ map tolower bytes
unfolding lower tolower
lower-tolower [] = refl
lower-tolower (b ∷ bytes) = ap (◌∷◌ (tolower b)) (lower-tolower bytes)

-- The binary test of the C++ programs is that of the C programs.
pub view_test :
    (hay : Bytes)
    → sv_find_char (take (min (length hay) 65536) hay) 0 0 ≡ memchr hay 0 0 (min (length hay) 65536)
unfolding sv_find_char
view_test hay =
    let peek = min (length hay) 65536 in
    let size : length (take peek hay) - 0 ≡ peek = omega (arith, length-take peek hay) in
    ap (memchr (take peek hay) 0 0) size ∙ memchr-take peek hay 0 0 peek (omega arith)

module _ (pat : Bytes) (multi : Bool) (path hay : Bytes) (s : Sink) where
  pub view_loop-ci :
      (ci : Bool)
      → Returns
          (view_loop (globals pat ci multi) path hay (if ci then map lower hay else hay) s)
          (SinkPrints (Selected (Occurs (fold_if ci) (compared ci pat) hay) hay 0) multi path s)
  unfolding globals
  view_loop-ci true =
      let low = lower-tolower hay in
      let size : length (map lower hay) ≡ length hay = ap length low ∙ length-map-tolower hay in
      Returns-mono (view_loop (globals pat true multi) path hay (map lower hay) s)
        (SinkPrints (Selected (Occurs (λ x. x) (map lower pat) (map lower hay)) hay 0) multi path s)
        _ (view_loop-lines (globals pat true multi) path hay (map lower hay) size s)
        (λ t (lines, sel, o, flag). (
          lines,
          Selected-mono _ hay (Occurs fold (map fold pat) hay)
              (λ i h. lower-Occurs pat hay i (alike i h))
              (λ i h. alike' i (Occurs-lower pat hay i h)) sel,
          o,
          flag,
        ))
    where
      alike :
          (i : ℕ)
          → Occurs (λ x. x) (map lower pat) (map lower hay) i
          → Occurs (λ x. x) (map tolower pat) (map tolower hay) i
      alike i h =
          subst (λ t. Occurs (λ x. x) (map tolower pat) t i) (lower-tolower hay)
            (subst (λ p. Occurs (λ x. x) p (map lower hay) i) (lower-tolower pat) h)

      alike' :
          (i : ℕ)
          → Occurs (λ x. x) (map tolower pat) (map tolower hay) i
          → Occurs (λ x. x) (map lower pat) (map lower hay) i
      alike' i h =
          subst (λ t. Occurs (λ x. x) (map lower pat) t i) (sym (lower-tolower hay))
            (subst (λ p. Occurs (λ x. x) p (map tolower hay) i) (sym (lower-tolower pat)) h)
  view_loop-ci false = view_loop-lines (globals pat false multi) path hay hay refl s

-- The answers for a file with the bytes `m`, when nothing fails and it does not change meanwhile.
pub record StreamHolds (m : Bytes) (a : StreamAnswers) : Type 0 where
  pub file_size : a.file_size ≡ some (length m)
  pub opens : a.opens ≡ true
  pub reads : a.reads (length m) ≡ m

module _ (pat : Bytes) (ci multi : Bool) (path m : Bytes) (s : Sink) where
  -- What follows the binary test.
  behind_test :
      (nul : Option ℕ) (is_text : nul ≡ none → IsText m)
      → Returns
          (elim nul [
            | some _ ↦ ok s
            | none ↦ view_loop (globals pat ci multi) path m (if ci then map lower m else m) s
          ])
          (SinkPrints (λ lines. lines ≡ found_lines pat ci m nul is_text) multi path s)
  unfolding found_lines
  behind_test (some k) is_text = ([], refl, sym (append-nil s.out), refl)
  behind_test none is_text =
      Returns-mono (view_loop (globals pat ci multi) path m (if ci then map lower m else m) s)
        (SinkPrints (Selected (Occurs (fold_if ci) (compared ci pat) m) m 0) multi path s) _
        (view_loop-ci pat multi path m s ci)
        (λ t (lines, sel, o, flag). (lines, found_lines-none pat ci m lines is_text sel, o, flag))

  pub search_view-file_lines :
      Returns
        (search_view (globals pat ci multi) path m s)
        (SinkPrints (λ lines. lines ≡ file_lines pat ci m) multi path s)
  unfolding search_view globals file_lines
  search_view-file_lines =
      let (nul, tested, is_text) = binary_test m in
      let test : sv_find_char (take (min (length m) 65536) m) 0 0 ≡ ok nul = view_test m ∙ tested in
      rw test (behind_test nul is_text)

  pub search_read-file_lines :
      Returns
        (search_read (globals pat ci multi) path s (if length m == 0 then none else some m))
        (SinkPrints (λ lines. lines ≡ file_lines pat ci m) multi path s)
  unfolding search_read
  search_read-file_lines = elim (Bool-cases (length m == 0)) [
    | inl none_left ↦
        rw none_left
          ([], file_lines-nil pat ci m ((==_iff _ _).0 none_left), sym (append-nil s.out), refl)
    | inr some_byte ↦ rw some_byte (rw some_byte search_view-file_lines)
  ]

  pub search_stream-file_lines :
      (a : StreamAnswers)
      → StreamHolds m a
      → Returns
          (search_stream (globals pat ci multi) path a s)
          (SinkPrints (λ lines. lines ≡ file_lines pat ci m) multi path s)
  unfolding search_stream read_file read_sized
  search_stream-file_lines a h =
      let read : read_file a ≡ (if length m == 0 then none else some m) =
        ap (read_sized a) h.file_size
        ∙ ap (λ b. if length m == 0 then none else if b then some (a.reads (length m)) else none)
            h.opens
        ∙ ap (λ r. if length m == 0 then none else some r) h.reads in
      subst
        (λ r.
          Returns (search_read (globals pat ci multi) path s r)
            (SinkPrints (λ lines. lines ≡ file_lines pat ci m) multi path s))
        (sym read) search_read-file_lines

-- A file is read without errors, or cannot be opened and counts as empty.
abbrev pub StreamReads : Bytes → StreamAnswers → Type 0
StreamReads m a = StreamHolds m a ⊎ ((a.opens ≡ false) × (m ≡ []))

read_file-closed : (a : StreamAnswers) → a.opens ≡ false → read_file a ≡ none
unfolding read_file
read_file-closed a closed = by_size a.file_size
  where
    by_size : (size : Option ℕ) → read_sized a size ≡ none
    by_size none = unfold read_sized in refl
    by_size (some n) =
        unfold read_sized in
        elim (Bool-cases (n == 0)) [
          | inl z ↦ rw z refl
          | inr nz ↦ rw nz (ap (λ b. if b then some (a.reads n) else none) closed)
        ]

pub search_stream-read_lines :
    (pat : Bytes) (ci multi : Bool) (path m : Bytes) (s : Sink) (a : StreamAnswers)
    → StreamReads m a
    → Returns
        (search_stream (globals pat ci multi) path a s)
        (SinkPrints (λ lines. lines ≡ file_lines pat ci m) multi path s)
unfolding search_stream search_read
search_stream-read_lines pat ci multi path m s a (inl h) =
    search_stream-file_lines pat ci multi path m s a h
search_stream-read_lines pat ci multi path m s a (inr (closed, empty)) =
    subst
      (λ r.
        Returns (search_read (globals pat ci multi) path s r)
          (SinkPrints (λ lines. lines ≡ file_lines pat ci m) multi path s))
      (sym (read_file-closed a closed))
      ([], file_lines-nil pat ci m (ap length empty), sym (append-nil s.out), refl)

-- For a file that is read without errors: `search_file` of cpp/grep_std.cpp searches its views
-- within their bounds, ends, and formats exactly the lines that c/grep_std.c prints for the file;
-- and the match flag is set if there is such a line.
pub search_stream-StdLines :
    (pat : Bytes) (ci multi : Bool) (path m : Bytes) (a : StreamAnswers) (s : Sink) (u : Printed)
    → StreamHolds m a
    → Returns
        (search_stream (globals pat ci multi) path a s)
        (SinkPrints (StdLines pat ci multi path m u) multi path s)
search_stream-StdLines pat ci multi path m a s u h =
    Returns-mono (search_stream (globals pat ci multi) path a s)
      (SinkPrints (λ lines. lines ≡ file_lines pat ci m) multi path s) _
      (search_stream-file_lines pat ci multi path m s a h)
      (λ t (lines, e, o, flag). (
        lines,
        subst (StdLines pat ci multi path m u) (sym e) (file_lines-StdLines pat ci m multi path u),
        o,
        flag,
      ))
