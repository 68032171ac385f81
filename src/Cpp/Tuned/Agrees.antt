-- ===== src/Cpp/Tuned/Agrees.antt =====
-- `search_file` of cpp/grep_mt_tuned.cpp prints the lines that `search_file` of c/grep_std.c prints.
use mathlib.Core.Path.{fun_ext, subst}
use asmgrep.Base.{
  ℕ, ◌+◌, ◌-◌, ◌≤◌, ◌≡◌, ◌≢◌, refl, ap, sym, ◌∙◌, ◌⊎◌, inl, inr, min, Bool, true, false, Option,
  none, some, List, [], map, append-nil, arith, ltb, ltb→lt, ltb→ge, ◌==◌, ==_iff, ==→ne,
  Bool-cases, if◌then◌else◌, Bytes, length, length-take, length-drop, take, drop, Outcome, ok,
  ◌>>=◌, Returns, Returns-bind, Returns-mono,
}
use asmgrep.Libc.{memchr}
use asmgrep.Lines.Split.{take-eq_self}
use asmgrep.Pattern.Prepared.{compared}
use asmgrep.Lines.{Selected}
use asmgrep.Lines.Occurs.{Occurs}
use asmgrep.Scan.Selects.{IsText}
use asmgrep.Scan.Correct.{fold_if}
use asmgrep.Std.Lines.{
  StdLines, binary_test, file_lines-StdLines, found_lines, found_lines-none, file_lines,
  file_lines-nil,
}
use asmgrep.Std.{Printed}
use asmgrep.Std.Selects.{length-map-tolower}
use asmgrep.Mt.Search.{ensure, store}
use asmgrep.Mt.Search.Prefix.{take-append}
use asmgrep.Mt.Search.Buffers.{ensure_lem, store_front, store_rest, file_fread}
use asmgrep.Mt.Search.Whole.{ReadAs}
use asmgrep.Cpp.{sv_find_char, lower, Globals, globals, view_loop}
use asmgrep.Cpp.Search.{SinkPrints}
use asmgrep.Cpp.Agrees.{view_test, view_loop-ci, lower-tolower}
use asmgrep.Cpp.Tuned.{
  SeekAnswers, TunedThread, resize_up, tuned_read, tuned_search, tuned_view, tuned_sized,
  tuned_search_file,
}

module _ (m : Bytes) where
  behind_prefix :
      (nul : Option ℕ) (b : Bytes) (got : ℕ)
      → got ≡ min (length m) 65536
      → got ≤ length b
      → take got b ≡ take got m
      → Returns {A = Option ℕ × Bytes}
          (elim nul [
            | some _ ↦ ok (none, b)
            | none ↦
                if ltb got (length m)
                then (do
                  b' ← store (resize_up (length m) b) got (take (length m - got) (drop got m))
                  ok (some (got + length (take (length m - got) (drop got m))), b'))
                else ok (some got, b)
          ])
          (ReadAs m nul)
  unfolding resize_up
  behind_prefix (some k) b got is_min room kept = refl
  behind_prefix none b got is_min room kept = elim (Bool-cases (ltb got (length m))) [
    | inl more ↦
        let lt = ltb→lt _ _ more in
        let (fits, same) = ensure_lem (λ _. 0) (length m) got b in
        let (rest, stored) =
          store_rest m (ensure (λ _. 0) (length m) b) got lt fits (same room ∙ kept) in
        let size : got + length (take (length m - got) (drop got m)) ≡ length m =
          omega (arith, length-take (length m - got) (drop got m), length-drop got m) in
        rw more (rw stored (ap some size, take-append m rest))
    | inr all ↦
        let ge = ltb→ge _ _ all in
        let e : got ≡ length m = omega arith in
        rw all (
          ap some e,
          ap (λ n. take n b) (sym e)
              ∙ kept
              ∙ ap (λ n. take n m) e
              ∙ take-eq_self (length m) m (omega arith),
        )
  ]

  tuned_read-ReadAs :
      (rbuf : Bytes) (nul : Option ℕ)
      → memchr m 0 0 (min (length m) 65536) ≡ ok nul
      → Returns (tuned_read (file_fread m) (length m) rbuf) (ReadAs m nul)
  unfolding tuned_read resize_up
  tuned_read-ReadAs rbuf nul tested =
      let peek = min (length m) 65536 in
      let bytes = take peek m in
      let size : length bytes ≡ peek = omega (arith, length-take peek m) in
      Returns-bind (store (ensure (λ _. 0) peek rbuf) 0 bytes) _ _ _
        (store_front (λ _. 0) peek bytes rbuf size)
        (λ b (front, room).
          let kept : take (length bytes) b ≡ bytes = ap (λ n. take n b) size ∙ front in
          let test : sv_find_char (take (length bytes) b) 0 0 ≡ ok nul =
            ap (λ v. sv_find_char v 0 0) kept ∙ view_test m ∙ tested in
          rw test (
            behind_prefix nul b (length bytes) size (omega arith)
              (kept ∙ ap (λ n. take n m) (sym size))))

-- The answers for a file with the bytes `m`, when nothing fails and it does not change meanwhile.
pub record SeekHolds (m : Bytes) (a : SeekAnswers) : Type 0 where
  pub file_size : a.file_size ≡ some (length m)
  pub opens : a.opens ≡ true
  pub reads : (i n : ℕ) → a.reads i n ≡ take n (drop i m)

-- What a thread prints between two states.
abbrev pub TunedPrints : (List Bytes → Type 0) → Bool → Bytes → TunedThread → TunedThread → Type 0
TunedPrints Q multi path t t' = SinkPrints Q multi path t.sink t'.sink

module _ (pat : Bytes) (multi : Bool) (path m : Bytes) (t : TunedThread)
    (text_is : take (length m) t.rbuf ≡ m) where
  tuned_search-lines :
      (ci : Bool)
      → Returns
          (tuned_search (globals pat ci multi) path (length m) t)
          (TunedPrints (Selected (Occurs (fold_if ci) (compared ci pat) m) m 0) multi path t)
  unfolding tuned_search globals resize_up
  tuned_search-lines true =
      Returns-bind
        (store (ensure (λ _. 0) (length m) t.lbuf) 0 (map lower (take (length m) t.rbuf))) _
        (λ b. take (length m) b ≡ map lower m) _ low
        (λ lbuf low_is.
          Returns-bind
            (view_loop (globals pat true multi) path (take (length m) t.rbuf) (take (length m) lbuf)
              t.sink)
            _
            (SinkPrints (Selected (Occurs (fold_if true) (compared true pat) m) m 0) multi path
              t.sink)
            _ (rw (text_is, low_is) (view_loop-ci pat multi path m t.sink true))
            (λ s prints. prints))
    where
      size : length (map lower m) ≡ length m
      size = ap length (lower-tolower m) ∙ length-map-tolower m

      low :
          Returns
            (store (ensure (λ _. 0) (length m) t.lbuf) 0 (map lower (take (length m) t.rbuf)))
            (λ b. take (length m) b ≡ map lower m)
      low = rw text_is (
          Returns-mono (store (ensure (λ _. 0) (length m) t.lbuf) 0 (map lower m)) _ _
            (store_front (λ _. 0) (length m) (map lower m) t.lbuf size) (λ b (front, room). front))
  tuned_search-lines false =
      Returns-bind
        (view_loop (globals pat false multi) path (take (length m) t.rbuf) (take (length m) t.rbuf)
          t.sink)
        _
        (SinkPrints (Selected (Occurs (fold_if false) (compared false pat) m) m 0) multi path
          t.sink)
        _ (rw text_is (view_loop-ci pat multi path m t.sink false)) (λ s prints. prints)

module _ (pat : Bytes) (ci multi : Bool) (path m : Bytes) where
  view-lines :
      (t : TunedThread) (nul : Option ℕ) (r : Option ℕ × Bytes) (is_text : nul ≡ none → IsText m)
      → length m ≢ 0
      → ReadAs m nul r
      → Returns
          (tuned_view (globals pat ci multi) path t r)
          (TunedPrints (λ lines. lines ≡ found_lines pat ci m nul is_text) multi path t)
  unfolding tuned_view found_lines
  view-lines t (some k) (rd, rbuf) is_text some_byte e =
      rw e ([], refl, sym (append-nil t.sink.out), refl)
  view-lines t none (rd, rbuf) is_text some_byte (e, text_is) =
      let t' = record t { rbuf = rbuf } in
      let nonempty : (length m == 0) ≡ false = ground arith in
      rw (e, nonempty)
        (Returns-mono (tuned_search (globals pat ci multi) path (length m) t')
          (TunedPrints (Selected (Occurs (fold_if ci) (compared ci pat) m) m 0) multi path t') _
          (tuned_search-lines pat multi path m t' text_is ci)
          (λ t'' (lines, sel, o, flag).
            (lines, found_lines-none pat ci m lines is_text sel, o, flag)))

  sized-lines :
      (t : TunedThread)
      → length m ≢ 0
      → Returns
          (tuned_read (file_fread m) (length m) t.rbuf >>= λ r.
            tuned_view (globals pat ci multi) path t r)
          (TunedPrints (λ lines. lines ≡ file_lines pat ci m) multi path t)
  unfolding file_lines
  sized-lines t some_byte =
      let (nul, tested, is_text) = binary_test m in
      Returns-bind (tuned_read (file_fread m) (length m) t.rbuf) _ (ReadAs m nul) _
        (tuned_read-ReadAs m t.rbuf nul tested)
        (λ r read. view-lines t nul r is_text some_byte read)

  pub tuned_search_file-file_lines :
      (a : SeekAnswers) (t : TunedThread)
      → SeekHolds m a
      → Returns
          (tuned_search_file (globals pat ci multi) path a t)
          (TunedPrints (λ lines. lines ≡ file_lines pat ci m) multi path t)
  unfolding tuned_search_file tuned_sized
  tuned_search_file-file_lines a t h =
      let g = globals pat ci multi in
      let opened : (ℕ → ℕ → Bytes) → Outcome TunedThread =
        λ reads. tuned_read reads (length m) t.rbuf >>= λ r. tuned_view g path t r in
      let reads : a.reads ≡ file_fread m = fun_ext (λ i. fun_ext (λ n. h.reads i n)) in
      let same : tuned_search_file g path a t
          ≡ (if length m == 0 then ok t else opened (file_fread m)) =
        ap (tuned_sized g path a t) h.file_size
        ∙ ap (λ b. if length m == 0 then ok t else if b then opened a.reads else ok t) h.opens
        ∙ ap (λ f. if length m == 0 then ok t else opened f) reads in
      subst (λ r. Returns r (TunedPrints (λ lines. lines ≡ file_lines pat ci m) multi path t))
        (sym same)
        (elim (Bool-cases (length m == 0)) [
          | inl none_left ↦ rw none_left (
            [],
            file_lines-nil pat ci m ((==_iff _ _).0 none_left),
            sym (append-nil t.sink.out),
            refl,
          )
          | inr some_byte ↦ rw some_byte (sized-lines t (==→ne _ _ some_byte))
        ])

-- A file is read without errors, or cannot be opened and counts as empty.
abbrev pub SeekReads : Bytes → SeekAnswers → Type 0
SeekReads m a = SeekHolds m a ⊎ ((a.opens ≡ false) × (m ≡ []))

tuned_search_file-closed :
    (g : Globals) (path : Bytes) (a : SeekAnswers) (t : TunedThread)
    → a.opens ≡ false
    → tuned_search_file g path a t ≡ ok t
unfolding tuned_search_file
tuned_search_file-closed g path a t closed = by_size a.file_size
  where
    by_size : (size : Option ℕ) → tuned_sized g path a t size ≡ ok t
    by_size none = unfold tuned_sized in refl
    by_size (some n) =
        unfold tuned_sized in
        elim (Bool-cases (n == 0)) [ inl z ↦ rw z refl | inr nz ↦ rw nz (rw closed refl) ]

pub tuned_search_file-read_lines :
    (pat : Bytes) (ci multi : Bool) (path m : Bytes) (a : SeekAnswers) (t : TunedThread)
    → SeekReads m a
    → Returns
        (tuned_search_file (globals pat ci multi) path a t)
        (TunedPrints (λ lines. lines ≡ file_lines pat ci m) multi path t)
tuned_search_file-read_lines pat ci multi path m a t (inl h) =
    tuned_search_file-file_lines pat ci multi path m a t h
tuned_search_file-read_lines pat ci multi path m a t (inr (closed, empty)) =
    rw (tuned_search_file-closed (globals pat ci multi) path a t closed)
      ([], file_lines-nil pat ci m (ap length empty), sym (append-nil t.sink.out), refl)

-- For a file that is read without errors: whatever a thread's buffers hold from earlier files,
-- `search_file` of cpp/grep_mt_tuned.cpp reads and writes its buffers in bounds, ends, and formats
-- exactly the lines that c/grep_std.c prints for the file; and the match flag is set if there is
-- such a line.
pub tuned_search_file-StdLines :
    (pat : Bytes) (ci multi : Bool) (path m : Bytes) (a : SeekAnswers) (t : TunedThread)
    (u : Printed)
    → SeekHolds m a
    → Returns
        (tuned_search_file (globals pat ci multi) path a t)
        (TunedPrints (StdLines pat ci multi path m u) multi path t)
tuned_search_file-StdLines pat ci multi path m a t u h =
    Returns-mono (tuned_search_file (globals pat ci multi) path a t)
      (TunedPrints (λ lines. lines ≡ file_lines pat ci m) multi path t) _
      (tuned_search_file-file_lines pat ci multi path m a t h)
      (λ t' (lines, e, o, flag). (
        lines,
        subst (StdLines pat ci multi path m u) (sym e) (file_lines-StdLines pat ci m multi path u),
        o,
        flag,
      ))
