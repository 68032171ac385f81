-- ===== src/Mt/Search/Whole.antt =====
-- A file is read whole, unless its first bytes say that it is binary.
use mathlib.Core.Path.{subst}
use asmgrep.Base.{
  ℕ, suc, ◌+◌, ◌-◌, ◌≤◌, ◌<◌, ◌≡◌, refl, ap, sym, ◌∙◌, inl, inr, Option, none, some, [], ◌++◌,
  append-nil, length-append, arith, min, ltb, ltb→lt, ltb→ge, Bool-cases, if◌then◌else◌, Bytes,
  length, length-take, take, drop, ok, ◌>>=◌, Returns, Returns-bind,
}
use asmgrep.Libc.{memchr}
use asmgrep.Mt.Search.{ensure, store, read_rest, mt_read}
use asmgrep.Mt.Search.Prefix.{memchr-take, take-append}
use asmgrep.Mt.Search.Buffers.{ensure_lem, store_lem, file_fread, read_rest_lem}

-- What the reading answers, by the answer of the binary test on the file.
abbrev pub ReadAs : Bytes → Option ℕ → Option ℕ × Bytes → Type 0
ReadAs m (some k) r = r.0 ≡ none
ReadAs m none r = (r.0 ≡ some (length m)) × (take (length m) r.1 ≡ m)

-- Objects that begin alike answer alike.
memchr_alike : (b m : Bytes) (k : ℕ) → take k b ≡ take k m → memchr b 0 0 k ≡ memchr m 0 0 k
memchr_alike b m k e =
    sym (memchr-take k b 0 0 k (omega arith))
    ∙ ap (λ c. memchr c 0 0 k) e
    ∙ memchr-take k m 0 0 k (omega arith)

module _ (fresh : ℕ → ℕ) (m : Bytes) where
  after_prefix :
      (b : Bytes) (peek : ℕ)
      → peek ≡ min (length m) 65536
      → peek ≤ length b
      → 0 < length m
      → take peek b ≡ take peek m
      → Returns
          (if ltb peek (length m)
            then read_rest (length m + 1) (file_fread m) (length m) peek (ensure fresh (length m) b)
            else ok (peek, b))
          (λ r. (r.0 ≡ length m) × (take (length m) r.1 ≡ m))
  after_prefix b peek is_min room pos kept = elim (Bool-cases (ltb peek (length m))) [
    | inl more ↦
        let lt = ltb→lt _ _ more in
        let (fits, same) = ensure_lem fresh (length m) peek b in
        let fuel : suc (suc (length m - 1)) ≡ length m + 1 = omega arith in
        rw more (
          subst
            (λ f.
              Returns (read_rest f (file_fread m) (length m) peek (ensure fresh (length m) b))
                (λ r. (r.0 ≡ length m) × (take (length m) r.1 ≡ m)))
            fuel
            (read_rest_lem m (length m - 1) peek (ensure fresh (length m) b) lt fits
              (same room ∙ kept)))
    | inr all ↦
        let ge = ltb→ge _ _ all in
        let e : peek ≡ length m = omega arith in
        rw all (e, ap (λ n. take n b) (sym e) ∙ kept ∙ ap (λ n. take n m) e ∙ take_whole m)
  ]
    where
      take_whole : (m : Bytes) → take (length m) m ≡ m
      take_whole m = ap (take (length m)) (sym (append-nil m)) ∙ take-append m []

  answered :
      (nul : Option ℕ) (b : Bytes) (got : ℕ)
      → got ≡ min (length m) 65536
      → got ≤ length b
      → 0 < length m
      → take got b ≡ take got m
      → Returns {A = Option ℕ × Bytes}
          (elim nul [
            | some _ ↦ ok (none, b)
            | none ↦ do
              r ←
                  if ltb got (length m)
                  then read_rest
                      (length m + 1)
                      (file_fread m)
                      (length m)
                      got
                      (ensure fresh (length m) b)
                  else ok (got, b)
              ok (some r.0, r.1)
          ])
          (ReadAs m nul)
  answered (some k) b got is_min room pos kept = refl
  answered none b got is_min room pos kept =
      Returns-bind
        (if ltb got (length m)
          then read_rest (length m + 1) (file_fread m) (length m) got (ensure fresh (length m) b)
          else ok (got, b))
        _ (λ r. (r.0 ≡ length m) × (take (length m) r.1 ≡ m)) _
        (after_prefix b got is_min room pos kept) (λ r (count, bytes). (ap some count, bytes))

  pub mt_read-ReadAs :
      (rbuf : Bytes) (nul : Option ℕ)
      → 0 < length m
      → memchr m 0 0 (min (length m) 65536) ≡ ok nul
      → Returns (mt_read fresh (file_fread m) (length m) rbuf) (ReadAs m nul)
  unfolding mt_read
  mt_read-ReadAs rbuf nul pos tested =
      let peek = min (length m) 65536 in
      let bytes = take peek m in
      let size : length bytes ≡ peek = omega (arith, length-take peek m) in
      let big = ensure fresh peek rbuf in
      let (fits, _) = ensure_lem fresh peek 0 rbuf in
      let b = bytes ++ drop (0 + length bytes) big in
      let stored : store big 0 bytes ≡ ok b = store_lem big 0 bytes (omega arith) in
      let kept : take peek b ≡ bytes =
        ap (λ n. take n b) (sym size) ∙ take-append bytes (drop (0 + length bytes) big) in
      let test : memchr b 0 0 (length bytes) ≡ ok nul =
        ap (λ n. memchr b 0 0 n) size ∙ memchr_alike b m peek kept ∙ tested in
      let kept' : take (length bytes) b ≡ take (length bytes) m =
        take-append bytes _ ∙ ap (λ n. take n m) (sym size) in
      let held : length bytes ≤ length b =
        omega (arith, length-append bytes (drop (0 + length bytes) big)) in
      rw stored (rw test (answered nul b (length bytes) size held pos kept'))
