-- ===== src/Mt/Search/Agrees.antt =====
-- `search_file` of c/grep_std_mt.c prints the lines that `search_file` of c/grep_std.c prints.
use mathlib.Core.Path.{fun_ext, subst, ap₂}
use asmgrep.Base.{
  ℕ, ◌<◌, ◌≡◌, refl, ap, sym, ◌∙◌, ◌⊎◌, inl, inr, Bool-cases, ==_iff, ==→ne, Bool, true, false,
  ◌&&◌, Option, none, some, List, [], ◌∷◌, map, arith, ◌==◌, if◌then◌else◌, Bytes, length, take,
  drop, ok, Returns, Returns-bind, Returns-mono,
}
use asmgrep.Pattern.{fold}
use asmgrep.Pattern.Prepared.{compared}
use asmgrep.Lines.{Selected}
use asmgrep.Lines.Unique.{Selected-mono}
use asmgrep.Lines.Occurs.{Occurs}
use asmgrep.Scan.Selects.{IsText}
use asmgrep.Scan.Correct.{fold_if}
use asmgrep.Std.{tolower, Settings, settings, Printed}
use asmgrep.Std.Lines.{
  StdLines, binary_test, found_lines, found_lines-none, file_lines, file_lines-StdLines,
  file_lines-nil,
}
use asmgrep.Std.Selects.{length-map-tolower, lower-Occurs, Occurs-lower}
use asmgrep.LineLoop.{print_each}
use asmgrep.Mt.{Ob, ob_lines}
use asmgrep.Mt.Search.{
  ensure, store, mt_print, mt_loop, mt_search, mt_read, mt_sized, mt_told, mt_search_file,
  MtAnswers, Thread,
}
use asmgrep.Mt.Search.Buffers.{store_front, file_fread}
use asmgrep.Mt.Search.Reused.{mt_loop-LoopPrints}
use asmgrep.Mt.Search.Whole.{ReadAs, mt_read-ReadAs}

-- The match flag after some lines.
abbrev pub flag_after : List Bytes → Bool → Bool
flag_after [] b = b
flag_after (line ∷ lines) b = true

flag_after-true : (lines : List Bytes) → flag_after lines true ≡ true
flag_after-true [] = refl
flag_after-true (line ∷ lines) = refl

print_each-mt_print :
    (g : Settings) (path : Bytes) (lines : List Bytes) (s : Ob × Bool)
    → (print_each (mt_print g path) lines s).0 ≡ ob_lines g.multi path lines s.0
unfolding print_each mt_print ob_lines
print_each-mt_print g path [] s = refl
print_each-mt_print g path (line ∷ lines) s = print_each-mt_print g path lines _

print_each-flag :
    (g : Settings) (path : Bytes) (lines : List Bytes) (s : Ob × Bool)
    → (print_each (mt_print g path) lines s).1 ≡ flag_after lines s.1
unfolding print_each mt_print
print_each-flag g path [] s = refl
print_each-flag g path (line ∷ lines) s = print_each-flag g path lines _ ∙ flag_after-true lines

-- The lines that a thread has printed between two states, with the flag.
abbrev pub ThreadPrints : (List Bytes → Type 0) → Bool → Bytes → Thread → Thread → Type 0
ThreadPrints Q multi path t t' =
    (lines : List Bytes) × Q lines
    × (t'.o ≡ ob_lines multi path lines t.o)
    × (t'.matched ≡ flag_after lines t.matched)

store_low :
    (fresh : ℕ → ℕ) (m text lbuf : Bytes)
    → take (length m) text ≡ m
    → Returns
        (store (ensure fresh (length m) lbuf) 0 (map tolower (take (length m) text)))
        (λ b. take (length m) b ≡ map tolower m)
store_low fresh m text lbuf text_is = rw text_is (
    Returns-mono (store (ensure fresh (length m) lbuf) 0 (map tolower m)) _ _
      (store_front fresh (length m) (map tolower m) lbuf (length-map-tolower m))
      (λ b (low_is, _). low_is))

module _ (fresh : ℕ → ℕ) (pat : Bytes) (multi : Bool) (path m : Bytes) (t : Thread)
    (text_is : take (length m) t.rbuf ≡ m) where
  abbrev LoopAnswer : Settings → (ℕ → Type 0) → Ob × Bool → Type 0
  LoopAnswer g P s =
      (lines : List Bytes) × Selected P m 0 lines
      × (s ≡ print_each (mt_print g path) lines (t.o, t.matched))

  mt_search-lines :
      (ci : Bool)
      → Returns
          (mt_search fresh (settings pat ci multi) path (length m) t)
          (ThreadPrints (Selected (Occurs (fold_if ci) (compared ci pat) m) m 0) multi path t)
  unfolding mt_search settings
  mt_search-lines true =
      let g = settings pat true multi in
      Returns-bind (store (ensure fresh (length m) t.lbuf) 0 (map tolower (take (length m) t.rbuf)))
        _ _ _ (store_low fresh m t.rbuf t.lbuf text_is)
        (λ lbuf low_is.
          Returns-bind (mt_loop g path t.rbuf (length m) lbuf (map tolower pat) (t.o, t.matched)) _
            (LoopAnswer g (Occurs (λ x. x) (map tolower pat) (map tolower m))) _
            (mt_loop-LoopPrints t.rbuf lbuf m (map tolower m) (map tolower pat) text_is low_is
              (length-map-tolower m) g path (t.o, t.matched))
            (λ s (lines, sel, e). (
              lines,
              Selected-mono _ m (Occurs fold (map fold pat) m) (lower-Occurs pat m)
                  (Occurs-lower pat m) sel,
              ap (λ (r : Ob × Bool). r.0) e ∙ print_each-mt_print g path lines (t.o, t.matched),
              ap (λ (r : Ob × Bool). r.1) e ∙ print_each-flag g path lines (t.o, t.matched),
            )))
  mt_search-lines false =
      let g = settings pat false multi in
      Returns-bind (mt_loop g path t.rbuf (length m) t.rbuf pat (t.o, t.matched)) _
        (LoopAnswer g (Occurs (λ x. x) pat m)) _
        (mt_loop-LoopPrints t.rbuf t.rbuf m m pat text_is text_is refl g path (t.o, t.matched))
        (λ s (lines, sel, e). (
          lines,
          sel,
          ap (λ (r : Ob × Bool). r.0) e ∙ print_each-mt_print g path lines (t.o, t.matched),
          ap (λ (r : Ob × Bool). r.1) e ∙ print_each-flag g path lines (t.o, t.matched),
        ))

-- The answers for a file with the bytes `m`, when nothing fails and it does not change meanwhile.
pub record MtHolds (m : Bytes) (a : MtAnswers) : Type 0 where
  pub fopen : a.fopen ≡ true
  pub fseek : a.fseek ≡ true
  pub ftell : a.ftell ≡ some (length m)
  pub fread : (i n : ℕ) → a.fread i n ≡ take n (drop i m)

module _ (fresh : ℕ → ℕ) (pat : Bytes) (ci multi : Bool) (path m : Bytes) where
  after_reading :
      (t : Thread) (nul : Option ℕ) (r : Option ℕ × Bytes) (is_text : nul ≡ none → IsText m)
      → ReadAs m nul r
      → Returns
          (elim r.0 [
            | none ↦ ok (record t { rbuf = r.1 })
            | some rd ↦ mt_search fresh (settings pat ci multi) path rd (record t { rbuf = r.1 })
          ])
          (ThreadPrints (λ lines. lines ≡ found_lines pat ci m nul is_text) multi path t)
  unfolding ob_lines found_lines
  after_reading t (some k) r is_text read = rw read ([], refl, refl, refl)
  after_reading t none r is_text (count, text_is) =
      let t' = record t { rbuf = r.1 } in
      rw count (
        Returns-mono (mt_search fresh (settings pat ci multi) path (length m) t')
          (ThreadPrints (Selected (Occurs (fold_if ci) (compared ci pat) m) m 0) multi path t') _
          (mt_search-lines fresh pat multi path m t' text_is ci)
          (λ t'' (lines, sel, o, flag).
            (lines, found_lines-none pat ci m lines is_text sel, o, flag)))

  sized-file_lines :
      (t : Thread)
      → 0 < length m
      → Returns
          (mt_sized fresh (settings pat ci multi) path (file_fread m) t (length m))
          (ThreadPrints (λ lines. lines ≡ file_lines pat ci m) multi path t)
  unfolding mt_sized file_lines
  sized-file_lines t pos =
      let (nul, tested, is_text) = binary_test m in
      Returns-bind (mt_read fresh (file_fread m) (length m) t.rbuf) _ _ _
        (mt_read-ReadAs fresh m t.rbuf nul pos tested)
        (λ r read. after_reading t nul r is_text read)

  pub mt_search_file-file_lines :
      (a : MtAnswers) (t : Thread)
      → MtHolds m a
      → Returns
          (mt_search_file fresh (settings pat ci multi) path a t)
          (ThreadPrints (λ lines. lines ≡ file_lines pat ci m) multi path t)
  unfolding mt_search_file mt_told ob_lines
  mt_search_file-file_lines a t h =
      let g = settings pat ci multi in
      let fread : a.fread ≡ file_fread m = fun_ext (λ i. fun_ext (λ n. h.fread i n)) in
      let same : mt_search_file fresh g path a t
          ≡ mt_told fresh g path (file_fread m) t (some (length m)) =
        ap (λ b. if b && a.fseek then mt_told fresh g path a.fread t a.ftell else ok t) h.fopen
        ∙ ap (λ b. if b then mt_told fresh g path a.fread t a.ftell else ok t) h.fseek
        ∙ ap₂ (λ f o. mt_told fresh g path f t o) fread h.ftell in
      subst (λ r. Returns r (ThreadPrints (λ lines. lines ≡ file_lines pat ci m) multi path t))
        (sym same)
        (elim (Bool-cases (length m == 0)) [
          | inl none_left ↦
              rw (none_left, mt_told)
                ([], file_lines-nil pat ci m ((==_iff _ _).0 none_left), refl, refl)
          | inr some_byte ↦
              let ne = ==→ne _ _ some_byte in
              rw (some_byte, mt_told) (sized-file_lines t (omega arith))
        ])

-- A file is read without errors, or cannot be opened and counts as empty.
abbrev pub MtReads : Bytes → MtAnswers → Type 0
MtReads m a = MtHolds m a ⊎ ((a.fopen ≡ false) × (m ≡ []))

pub mt_search_file-read_lines :
    (fresh : ℕ → ℕ) (pat : Bytes) (ci multi : Bool) (path m : Bytes) (a : MtAnswers) (t : Thread)
    → MtReads m a
    → Returns
        (mt_search_file fresh (settings pat ci multi) path a t)
        (ThreadPrints (λ lines. lines ≡ file_lines pat ci m) multi path t)
unfolding mt_search_file ob_lines
mt_search_file-read_lines fresh pat ci multi path m a t (inl h) =
    mt_search_file-file_lines fresh pat ci multi path m a t h
mt_search_file-read_lines fresh pat ci multi path m a t (inr (closed, empty)) =
    let g = settings pat ci multi in
    subst (λ r. Returns r (ThreadPrints (λ lines. lines ≡ file_lines pat ci m) multi path t))
      (sym (ap (λ b. if b && a.fseek then mt_told fresh g path a.fread t a.ftell else ok t) closed))
      ([], file_lines-nil pat ci m (ap length empty), refl, refl)

-- For a file that is read without errors: whatever a thread's buffers hold from earlier files and
-- `realloc` leaves in new bytes, `search_file` of c/grep_std_mt.c reads and writes its buffers in
-- bounds, ends, and gives `ob_line` exactly the lines that c/grep_std.c prints for the file; and
-- the match flag is set if there is such a line.
pub mt_search_file-StdLines :
    (fresh : ℕ → ℕ) (pat : Bytes) (ci multi : Bool) (path m : Bytes) (a : MtAnswers) (t : Thread)
    (u : Printed)
    → MtHolds m a
    → Returns
        (mt_search_file fresh (settings pat ci multi) path a t)
        (ThreadPrints (StdLines pat ci multi path m u) multi path t)
mt_search_file-StdLines fresh pat ci multi path m a t u h =
    Returns-mono (mt_search_file fresh (settings pat ci multi) path a t)
      (ThreadPrints (λ lines. lines ≡ file_lines pat ci m) multi path t) _
      (mt_search_file-file_lines fresh pat ci multi path m a t h)
      (λ t' (lines, e, o, flag). (
        lines,
        subst (StdLines pat ci multi path m u) (sym e) (file_lines-StdLines pat ci m multi path u),
        o,
        flag,
      ))
