-- ===== src/Output/Order.antt =====
-- The order in which the lines of one file come out.
use mathlib.Core.List.{append_cancel_left}
use asmgrep.Base.{
  ℕ, ◌≤◌, ◌<◌, ◌≡◌, ◌≢◌, ◌⊎◌, inl, inr, refl, sym, ap, ◌∙◌, Bool, List, [], ◌∷◌, ◌++◌, map,
  append-nil, append_assoc, Bytes, flatten, All,
}
use asmgrep.Output.{State, outbuf_sz, flush_ctx, giant_writes, line_bytes, needed, emit, emit_all}
use asmgrep.Output.Room.{mark, flush_ctx_cases, emit_giant, emit_copy}
use asmgrep.Output.Whole.{sections, flatten_giant, sections_snoc}

-- All that has been written and that waits in the buffer, in the order in which it comes out.
abbrev pub stream : State → Bytes
stream s = flatten (sections s) ++ s.obuf

pub stream-flush_ctx : (s : State) → stream (flush_ctx s) ≡ stream s
stream-flush_ctx s = elim (flush_ctx_cases s) [
  | inl (_, e) ↦ rw e refl
  | inr e ↦ rw e (
      append-nil (flatten (map flatten (s.out ++ (s.obuf ∷ []) ∷ [])))
      ∙ sections_snoc s.out (s.obuf ∷ [])
      ∙ ap (λ r. flatten (sections s) ++ r) (append-nil s.obuf))
]

-- A line that fits the buffer comes out behind all that was given before.
pub stream-emit :
    (multi : Bool) (path line : Bytes) (s : State)
    → needed multi path line ≤ outbuf_sz
    → stream (emit multi path line s) ≡ stream s ++ line_bytes multi path line
stream-emit multi path line s fits =
    let (room, from, _, e) = emit_copy multi path line s fits in
    rw e (
      sym (append_assoc (flatten (sections room)) room.obuf (line_bytes multi path line))
      ∙ ap (λ r. r ++ line_bytes multi path line) (same room from))
  where
    same : (room : State) → (room ≡ mark s) ⊎ (room ≡ flush_ctx (mark s)) → stream room ≡ stream s
    same room (inl e) = rw e refl
    same room (inr e) = rw e (stream-flush_ctx (mark s))

-- A line that is too long for the buffer overtakes the lines that wait in it.
pub stream-emit_giant :
    (multi : Bool) (path line : Bytes) (s : State)
    → outbuf_sz < needed multi path line
    → stream (emit multi path line s)
      ≡ flatten (sections s) ++ (line_bytes multi path line ++ s.obuf)
stream-emit_giant multi path line s giant = rw (emit_giant multi path line s giant) (
    ap (λ r. r ++ s.obuf)
      (sections_snoc s.out (giant_writes multi path line)
        ∙ ap (λ r. flatten (sections s) ++ r) (flatten_giant multi path line))
    ∙ append_assoc (flatten (sections s)) (line_bytes multi path line) s.obuf)

emit_all-stream :
    (multi : Bool) (path : Bytes) (lines : List Bytes) (s : State)
    → All (λ line. needed multi path line ≤ outbuf_sz) lines
    → stream (emit_all multi path lines s) ≡ stream s ++ flatten (map (line_bytes multi path) lines)
unfolding emit_all
emit_all-stream multi path [] s fits = sym (append-nil (stream s))
emit_all-stream multi path (line ∷ lines) s (fit, fits) =
    emit_all-stream multi path lines (emit multi path line s) fits
    ∙ ap (λ r. r ++ flatten (map (line_bytes multi path) lines)) (stream-emit multi path line s fit)
    ∙ append_assoc (stream s) (line_bytes multi path line)
        (flatten (map (line_bytes multi path) lines))

-- If every line fits the buffer, what the lines of a file add to the output is the lines in their
-- order, each with its prefix and its newline, and flushing the buffer adds and moves nothing.
pub stream-emit_all :
    (multi : Bool) (path : Bytes) (lines : List Bytes) (s : State)
    → All (λ line. needed multi path line ≤ outbuf_sz) lines
    → stream (flush_ctx (emit_all multi path lines s))
      ≡ stream s ++ flatten (map (line_bytes multi path) lines)
stream-emit_all multi path lines s fits =
    stream-flush_ctx (emit_all multi path lines s) ∙ emit_all-stream multi path lines s fits

-- A line that is too long for the buffer, given to `emit` while bytes wait there that begin
-- otherwise than the line does: its bytes are written, with nothing else, at the end of what has been
-- written, the waiting bytes stay in the buffer, and so the line does not come out behind them.
pub emit_overtakes :
    (multi : Bool) (path line : Bytes) (s : State) (x y : ℕ) (xs ys : Bytes)
    → outbuf_sz < needed multi path line
    → s.obuf ≡ x ∷ xs
    → line_bytes multi path line ≡ y ∷ ys
    → x ≢ y
    → (flatten (sections (emit multi path line s))
        ≡ flatten (sections s) ++ line_bytes multi path line)
      × ((emit multi path line s).obuf ≡ s.obuf)
      × (stream (emit multi path line s) ≢ stream s ++ line_bytes multi path line)
emit_overtakes multi path line s x y xs ys giant held text ne = (
  ap (λ t. flatten (sections t)) (emit_giant multi path line s giant)
      ∙ sections_snoc s.out (giant_writes multi path line)
      ∙ ap (λ r. flatten (sections s) ++ r) (flatten_giant multi path line),
  ap (λ t. t.obuf) (emit_giant multi path line s giant),
  λ same.
      let moved : line_bytes multi path line ++ s.obuf ≡ s.obuf ++ line_bytes multi path line =
        append_cancel_left (flatten (sections s)) _ _ (
          sym (stream-emit_giant multi path line s giant)
          ∙ same
          ∙ append_assoc (flatten (sections s)) s.obuf (line_bytes multi path line)) in
      let swapped : y ∷ (ys ++ (x ∷ xs)) ≡ x ∷ (xs ++ (y ∷ ys)) = rw (held, text) at moved in
      ne (cc),
)
