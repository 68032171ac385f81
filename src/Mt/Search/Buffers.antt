-- ===== src/Mt/Search/Buffers.antt =====
-- What the buffers hold after they have been grown, stored to and read into.
use asmgrep.Base.{
  ℕ, zero, suc, ◌+◌, ◌-◌, ◌≤◌, ◌<◌, ◌≡◌, refl, ap, sym, ◌∙◌, inl, inr, true, false, [], ◌∷◌, ◌++◌,
  append_assoc, take-append-drop, arith, ltb, ltb→lt, ltb→ge, lt→ltb, ge→ltb, leb, ◌==◌, Bool-cases,
  Bytes, length, length-append, length-take, length-drop, take, drop, ok, Returns,
}
use mathlib.Core.Path.{ap₂}
use asmgrep.Lines.Split.{take-eq_self}
use asmgrep.Mt.Search.{fresh_bytes, ensure, store, read_rest}
use asmgrep.Mt.Search.Prefix.{take-append}

length-fresh_bytes : (fresh : ℕ → ℕ) (i n : ℕ) → length (fresh_bytes fresh i n) ≡ n
unfolding fresh_bytes
length-fresh_bytes fresh i zero = refl
length-fresh_bytes fresh i (suc n) = ap suc (length-fresh_bytes fresh (i + 1) n)

take-append_left : (k : ℕ) (xs ys : Bytes) → k ≤ length xs → take k (xs ++ ys) ≡ take k xs
take-append_left zero xs ys h = refl
take-append_left (suc k) [] ys h = absurd (omega arith)
take-append_left (suc k) (x ∷ xs) ys h = ap (◌∷◌ x) (take-append_left k xs ys (omega arith))

-- There is room, and what was there is kept.
pub ensure_lem :
    (fresh : ℕ → ℕ) (n k : ℕ) (buf : Bytes)
    → (n ≤ length (ensure fresh n buf))
      × (k ≤ length buf → take k (ensure fresh n buf) ≡ take k buf)
unfolding ensure
ensure_lem fresh n k buf = elim (Bool-cases (ltb (length buf) n)) [
  | inl small ↦
      let more = fresh_bytes fresh (length buf) (n - length buf) in
      let lt = ltb→lt _ _ small in
      rw small (
        omega
            (arith, length-append buf more, length-fresh_bytes fresh (length buf) (n - length buf)),
        λ h. take-append_left k buf more h,
      )
  | inr large ↦ let ge = ltb→ge _ _ large in rw large (ge, λ h. refl)
]

pub store_lem :
    (buf : Bytes) (i : ℕ) (bytes : Bytes)
    → i + length bytes ≤ length buf
    → store buf i bytes ≡ ok (take i buf ++ (bytes ++ drop (i + length bytes) buf))
unfolding store
store_lem buf i bytes h =
    let e : leb (i + length bytes) (length buf) ≡ true = ground arith in rw e refl

-- The answers of `fread` for a file with the bytes `m`.
abbrev pub file_fread : Bytes → ℕ → ℕ → Bytes
file_fread m i n = take n (drop i m)

-- Bytes stored at the front of a buffer that has been grown for them.
pub store_front :
    (fresh : ℕ → ℕ) (n : ℕ) (bytes buf : Bytes)
    → length bytes ≡ n
    → Returns (store (ensure fresh n buf) 0 bytes) (λ b. (take n b ≡ bytes) × (n ≤ length b))
store_front fresh n bytes buf size =
    let (fits, _) = ensure_lem fresh n 0 buf in
    let rest = drop (0 + length bytes) (ensure fresh n buf) in
    let stored = store_lem (ensure fresh n buf) 0 bytes (omega arith) in
    rw stored (
      ap (λ k. take k (bytes ++ rest)) (sym size) ∙ take-append bytes rest,
      omega (arith, size, length-append bytes rest),
    )

-- The bytes from `got` on, stored behind the first `got` bytes.
pub store_rest :
    (m b : Bytes) (got : ℕ)
    → got < length m
    → length m ≤ length b
    → take got b ≡ take got m
    → (rest : Bytes) × (store b got (take (length m - got) (drop got m)) ≡ ok (m ++ rest))
store_rest m b got lt room kept =
    let bytes = take (length m - got) (drop got m) in
    let size : length bytes ≡ length m - got =
      omega (arith, length-take (length m - got) (drop got m), length-drop got m) in
    let all : bytes ≡ drop got m =
      take-eq_self (length m - got) (drop got m) (omega (arith, length-drop got m)) in
    let rest = drop (got + length bytes) b in
    let whole : take got b ++ (bytes ++ rest) ≡ m ++ rest =
      ap₂ (λ x y. x ++ (y ++ rest)) kept all
      ∙ sym (append_assoc (take got m) (drop got m) rest)
      ∙ ap (λ x. x ++ rest) (take-append-drop got m) in
    (rest, store_lem b got bytes (omega arith) ∙ ap ok whole)

-- The rest of the file is read behind its first `got` bytes.
pub read_rest_lem :
    (m : Bytes) (f got : ℕ) (b : Bytes)
    → got < length m
    → length m ≤ length b
    → take got b ≡ take got m
    → Returns
        (read_rest (suc (suc f)) (file_fread m) (length m) got b)
        (λ r. (r.0 ≡ length m) × (take (length m) r.1 ≡ m))
unfolding read_rest
read_rest_lem m f got b lt room kept =
    let bytes = take (length m - got) (drop got m) in
    let size : length bytes ≡ length m - got =
      omega (arith, length-take (length m - got) (drop got m), length-drop got m) in
    let more : ltb got (length m) ≡ true = lt→ltb _ _ lt in
    let (rest, stored) = store_rest m b got lt room kept in
    let some_byte : (length bytes == 0) ≡ false = ground arith in
    let stop : ltb (got + length bytes) (length m) ≡ false = ge→ltb _ _ (omega arith) in
    rw more (rw stored (rw some_byte (rw stop (omega arith, take-append m rest))))
