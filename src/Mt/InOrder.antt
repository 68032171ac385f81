-- ===== src/Mt/InOrder.antt =====
-- Lines of any length come out of a thread's buffer in their order.
use asmgrep.Base.{
  ◌+◌, ◌≤◌, ◌≡◌, inl, inr, refl, sym, ap, ◌∙◌, Bool, true, false, List, [], ◌∷◌, ◌++◌, map,
  append-nil, append_assoc, arith, ltb, ltb→ge, ◌==◌, ==_iff, Bool-cases, if◌then◌else◌, Bytes,
  length, length-append, flatten,
}
use asmgrep.Output.{newline, colon, line_bytes}
use asmgrep.Output.Whole.{sections_snoc}
use asmgrep.Std.{settings, nothing_printed, print_lines}
use asmgrep.Std.SameBytes.{print_lines-stdout}
use asmgrep.Mt.{ob_size, Ob, ob_flush, ob_total, ob_direct, ob_copy, ob_line, ob_lines, empty_ob}

-- All that was written and that waits in the buffer, in the order in which it comes out.
abbrev pub ob_stream : Ob → Bytes
ob_stream o = flatten (map flatten o.written) ++ o.ob

length-nil : (xs : Bytes) → length xs ≡ 0 → xs ≡ []
length-nil [] e = refl
length-nil (x ∷ xs) e = absurd (omega arith)

-- Flushing keeps the stream and empties the buffer.
pub ob_flush_lem : (o : Ob) → (ob_stream (ob_flush o) ≡ ob_stream o) × ((ob_flush o).ob ≡ [])
unfolding ob_flush
ob_flush_lem o = elim (Bool-cases (length o.ob == 0)) [
  | inl none_held ↦ rw (none_held, ob_flush) (refl, length-nil o.ob ((==_iff _ _).0 none_held))
  | inr held ↦
      rw (held, ob_flush)
        (
          append-nil _
              ∙ sections_snoc o.written (o.ob ∷ [])
              ∙ ap (λ r. flatten (map flatten o.written) ++ r) (append-nil o.ob),
          refl,
        )
]

-- The copies append the line with its prefix and newline.
pub ob_copy-bytes :
    (multi : Bool) (path line : Bytes) (o : Ob)
    → (ob_copy multi path line o).ob ≡ o.ob ++ line_bytes multi path line
unfolding ob_copy line_bytes
ob_copy-bytes true path line o =
    let rest = line ++ newline ∷ [] in
    ap (λ r. r ++ rest) (append_assoc o.ob path (colon ∷ []))
    ∙ append_assoc o.ob (path ++ colon ∷ []) rest
ob_copy-bytes false path line o = refl

pub ob_copy-written :
    (multi : Bool) (path line : Bytes) (o : Ob) → (ob_copy multi path line o).written ≡ o.written
unfolding ob_copy
ob_copy-written multi path line o = refl

ob_copy-stream :
    (multi : Bool) (path line : Bytes) (o : Ob)
    → ob_stream (ob_copy multi path line o) ≡ ob_stream o ++ line_bytes multi path line
ob_copy-stream multi path line o =
    let done = flatten (map flatten o.written) in
    ap (λ r. flatten (map flatten (ob_copy multi path line o).written) ++ r)
      (ob_copy-bytes multi path line o)
    ∙ ap (λ w. flatten (map flatten w) ++ (o.ob ++ line_bytes multi path line))
        (ob_copy-written multi path line o)
    ∙ sym (append_assoc done o.ob (line_bytes multi path line))

abbrev pub direct_writes : Bool → Bytes → Bytes → List Bytes
direct_writes multi path line =
    (if multi then path ∷ (colon ∷ []) ∷ [] else []) ++ line ∷ (newline ∷ []) ∷ []

pub flatten-direct_writes :
    (multi : Bool) (path line : Bytes)
    → flatten (direct_writes multi path line) ≡ line_bytes multi path line
unfolding line_bytes
flatten-direct_writes true path line = sym (append_assoc path (colon ∷ []) (line ++ newline ∷ []))
flatten-direct_writes false path line = refl

-- A direct write keeps the order behind an empty buffer.
ob_direct-stream :
    (multi : Bool) (path line : Bytes) (o : Ob)
    → o.ob ≡ []
    → ob_stream (ob_direct multi path line o) ≡ ob_stream o ++ line_bytes multi path line
unfolding ob_direct
ob_direct-stream multi path line o e =
    let done = flatten (map flatten o.written) in
    ap (λ r. flatten (map flatten (o.written ++ direct_writes multi path line ∷ [])) ++ r) e
    ∙ append-nil _
    ∙ sections_snoc o.written (direct_writes multi path line)
    ∙ ap (λ r. done ++ r) (flatten-direct_writes multi path line)
    ∙ ap (λ r. r ++ line_bytes multi path line) (sym (ap (λ r. done ++ r) e ∙ append-nil done))

ob_line-stream :
    (multi : Bool) (path line : Bytes) (o : Ob)
    → ob_stream (ob_line multi path line o) ≡ ob_stream o ++ line_bytes multi path line
unfolding ob_line
ob_line-stream multi path line o =
    let total = ob_total multi path line in
    let (kept, empty) = ob_flush_lem o in
    elim (Bool-cases (ltb ob_size total)) [
      | inl giant ↦ rw giant (
          ob_direct-stream multi path line (ob_flush o) empty
          ∙ ap (λ r. r ++ line_bytes multi path line) kept)
      | inr fits ↦ rw fits (elim (Bool-cases (ltb ob_size (length o.ob + total))) [
        | inl full ↦ rw full (
            ob_copy-stream multi path line (ob_flush o)
            ∙ ap (λ r. r ++ line_bytes multi path line) kept)
        | inr room ↦ rw room (ob_copy-stream multi path line o)
      ])
    ]

ob_lines-stream :
    (multi : Bool) (path : Bytes) (lines : List Bytes) (o : Ob)
    → ob_stream (ob_lines multi path lines o)
      ≡ ob_stream o ++ flatten (map (line_bytes multi path) lines)
unfolding ob_lines
ob_lines-stream multi path [] o = sym (append-nil (ob_stream o))
ob_lines-stream multi path (line ∷ lines) o =
    ob_lines-stream multi path lines (ob_line multi path line o)
    ∙ ap (λ r. r ++ flatten (map (line_bytes multi path) lines)) (ob_line-stream multi path line o)
    ∙ append_assoc (ob_stream o) (line_bytes multi path line)
        (flatten (map (line_bytes multi path) lines))

-- What a thread of c/grep_std_mt.c has written for some lines of any length, after a last flush,
-- is byte for byte what c/grep_std.c prints for them: no line overtakes another, is split or lost.
pub ob_lines-print_lines :
    (pat : Bytes) (ci multi : Bool) (path : Bytes) (lines : List Bytes)
    → ob_stream (ob_flush (ob_lines multi path lines empty_ob))
      ≡ (print_lines (settings pat ci multi) path lines nothing_printed).stdout
ob_lines-print_lines pat ci multi path lines =
    (ob_flush_lem (ob_lines multi path lines empty_ob)).0
    ∙ ob_lines-stream multi path lines empty_ob
    ∙ sym (print_lines-stdout pat ci multi path lines nothing_printed)

length-ob_copy :
    (multi : Bool) (path line : Bytes) (o : Ob)
    → length (ob_copy multi path line o).ob ≡ length o.ob + ob_total multi path line
unfolding ob_copy ob_total
length-ob_copy true path line o = omega (
  arith,
  length-append ((o.ob ++ path) ++ colon ∷ []) (line ++ newline ∷ []),
  length-append (o.ob ++ path) (colon ∷ []),
  length-append o.ob path,
  length-append line (newline ∷ []),
)
length-ob_copy false path line o =
    omega (arith, length-append o.ob (line ++ newline ∷ []), length-append line (newline ∷ []))

-- If the length `len` is within the buffer before a call of `ob_line`, it is after it: no byte is
-- copied past the end.
pub ob_line-fits :
    (multi : Bool) (path line : Bytes) (o : Ob)
    → length o.ob ≤ ob_size
    → length (ob_line multi path line o).ob ≤ ob_size
unfolding ob_line ob_direct
ob_line-fits multi path line o h =
    let total = ob_total multi path line in
    let (_, empty) = ob_flush_lem o in
    let none_held : length (ob_flush o).ob ≡ 0 = ap length empty in
    elim (Bool-cases (ltb ob_size total)) [
      | inl giant ↦ rw giant (omega arith)
      | inr fits ↦
          let le = ltb→ge ob_size total fits in
          rw fits (elim (Bool-cases (ltb ob_size (length o.ob + total))) [
            | inl full ↦ rw full (omega (arith, length-ob_copy multi path line (ob_flush o)))
            | inr room ↦
                let le' = ltb→ge ob_size (length o.ob + total) room in
                rw room (omega (arith, length-ob_copy multi path line o))
          ])
    ]
