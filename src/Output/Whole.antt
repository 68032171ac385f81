-- ===== src/Output/Whole.antt =====
-- No line is split, lost or doubled by the output.
use mathlib.Core.List.{Perm}
use mathlib.Core.List.Perm
use native.Mathlib.Decide.{dec_le}
use mathlib.Core.List.{perm_middle, perm_append_singleton}
use mathlib.Core.Path.{ap₂}
use asmgrep.Base.{
  ◌<◌, ◌≡◌, ◌⊎◌, inl, inr, refl, sym, ap, ◌∙◌, Bool, true, false, List, [], ◌∷◌, ◌++◌, map,
  append-nil, append_assoc, arith, Bytes, length, length-append, flatten, flatten_snoc,
}
use asmgrep.Output.{
  State, outbuf_sz, newline, colon, flush_ctx, giant_writes, line_bytes, needed, emit, emit_all,
  initial,
}
use asmgrep.Output.Room.{
  mark, flush_ctx-obuf, length-line_bytes, needed-pos, flush_ctx_cases, emit_giant, emit_copy,
}

-- The bytes written each time that the lock was held.
abbrev pub sections : State → List Bytes
sections s = map flatten s.out

-- Every section and the buffer are made of whole lines of `ls`, and hold each as often as `ls`.
pub record IsWhole (ls : List Bytes) (s : State) : Type 0 where
  pub groups : List (List Bytes)
  pub held : List Bytes
  pub written : map flatten groups ≡ sections s
  pub buffered : flatten held ≡ s.obuf
  pub solid : flatten held ≡ [] → held ≡ []
  pub complete : Perm (flatten groups ++ held) ls

pub IsWhole-initial : IsWhole [] initial
IsWhole-initial = record {
  groups = [];
  held = [];
  written = refl;
  buffered = refl;
  solid = λ _. refl;
  complete = Perm.refl [];
}

map-append_one :
    (gs : List (List Bytes)) (g : List Bytes)
    → map flatten (gs ++ g ∷ []) ≡ map flatten gs ++ flatten g ∷ []
map-append_one [] g = refl
map-append_one (h ∷ gs) g = ap (λ r. flatten h ∷ r) (map-append_one gs g)

flatten_one : (x : Bytes) → flatten (x ∷ []) ≡ x
flatten_one x = append-nil x

pub flatten_giant :
    (multi : Bool) (path line : Bytes)
    → flatten (giant_writes multi path line) ≡ line_bytes multi path line
unfolding giant_writes line_bytes
flatten_giant true path line = sym (append_assoc path (colon ∷ []) (line ++ newline ∷ []))
flatten_giant false path line = refl

-- One more section, of the lines `g`.
sections-snoc :
    (groups : List (List Bytes)) (g : List Bytes) (out : List (List Bytes)) (ws : List Bytes)
    → map flatten groups ≡ map flatten out
    → flatten g ≡ flatten ws
    → map flatten (groups ++ g ∷ []) ≡ map flatten (out ++ ws ∷ [])
sections-snoc groups g out ws e h =
    map-append_one groups g ∙ ap₂ (λ a b. a ++ b ∷ []) e h ∙ sym (map-append_one out ws)

pub IsWhole-flush : {ls : List Bytes} {s : State} → IsWhole ls s → IsWhole ls (flush_ctx s)
IsWhole-flush {ls} {s} w = elim (flush_ctx_cases s) [
  | inl (_, e) ↦ rw e w
  | inr e ↦ rw e (record {
    groups = w.groups ++ w.held ∷ [];
    held = [];
    written =
        sections-snoc w.groups w.held s.out (s.obuf ∷ []) w.written
          (w.buffered ∙ sym (flatten_one s.obuf));
    buffered = refl;
    solid = λ _. refl;
    complete = rw (append-nil, flatten_snoc w.groups w.held) w.complete;
  })
]

-- A line that is copied to the buffer.
IsWhole-copy :
    {ls : List Bytes} (t : Bytes) (room : State)
    → 0 < length t
    → IsWhole ls room
    → IsWhole (ls ++ t ∷ []) (record room { obuf = room.obuf ++ t })
IsWhole-copy {ls} t room some_byte w = record {
  groups = w.groups;
  held = w.held ++ t ∷ [];
  written = w.written;
  buffered = flatten_snoc w.held t ∙ ap (λ b. b ++ t) w.buffered;
  solid = λ e. absurd (
      omega (
        arith,
        some_byte,
        length-append (flatten w.held) t,
        ap length (sym (flatten_snoc w.held t) ∙ e),
      ));
  complete =
      rw (← append_assoc (flatten w.groups) w.held (t ∷ []))
        (Perm.append_right (t ∷ []) w.complete);
}

-- A line that is written at once.
IsWhole-giant :
    {ls : List Bytes} (t : Bytes) (ws : List Bytes) (s : State)
    → flatten ws ≡ t
    → IsWhole ls s
    → IsWhole (ls ++ t ∷ []) (record s { matched = true; out = s.out ++ ws ∷ [] })
IsWhole-giant {ls} t ws s e w = record {
  groups = w.groups ++ (t ∷ []) ∷ [];
  held = w.held;
  written = sections-snoc w.groups (t ∷ []) s.out ws w.written (flatten_one t ∙ sym e);
  buffered = w.buffered;
  solid = w.solid;
  complete =
      rw (flatten_snoc w.groups (t ∷ []), append_assoc (flatten w.groups) (t ∷ []) w.held)
        (Perm.trans (perm_middle (flatten w.groups) w.held)
          (Perm.trans (Perm.cons t w.complete) (Perm.symm (perm_append_singleton t ls))));
}

pub emit-IsWhole :
    (multi : Bool) (path line : Bytes) {ls : List Bytes} {s : State}
    → IsWhole ls s
    → IsWhole (ls ++ line_bytes multi path line ∷ []) (emit multi path line s)
emit-IsWhole multi path line {ls} {s} w = elim (dec_le (needed multi path line) outbuf_sz) [
  | no giant ↦ rw (emit_giant multi path line s (omega arith)) (
      IsWhole-giant (line_bytes multi path line) (giant_writes multi path line) s
        (flatten_giant multi path line) w)
  | yes fits ↦
      let (room, from, _, e) = emit_copy multi path line s fits in
      rw e (
        IsWhole-copy (line_bytes multi path line) room
          (omega (arith, length-line_bytes multi path line, needed-pos multi path line))
          (whole_room room from))
]
  where
    marked : IsWhole ls (mark s)
    marked = record {
      groups = w.groups;
      held = w.held;
      written = w.written;
      buffered = w.buffered;
      solid = w.solid;
      complete = w.complete;
    }

    whole_room : (room : State) → (room ≡ mark s) ⊎ (room ≡ flush_ctx (mark s)) → IsWhole ls room
    whole_room room (inl e) = rw e marked
    whole_room room (inr e) = rw e (IsWhole-flush marked)

pub emit_all-IsWhole :
    (multi : Bool) (path : Bytes) (lines : List Bytes) {ls : List Bytes} {s : State}
    → IsWhole ls s
    → IsWhole (ls ++ map (line_bytes multi path) lines) (emit_all multi path lines s)
unfolding emit_all
emit_all-IsWhole multi path [] {ls} w = rw (append-nil ls) w
emit_all-IsWhole multi path (line ∷ lines) {ls} w =
    rw (← append_assoc ls (line_bytes multi path line ∷ []) (map (line_bytes multi path) lines))
      (emit_all-IsWhole multi path lines (emit-IsWhole multi path line w))

-- When the lines of a file have been given to `emit` and the buffer has been flushed, some whole
-- lines, with their prefixes and newlines, were written each time that the lock was held; and all
-- lines, with what had been given before, were written exactly once.
pub emit_all-whole_lines :
    (multi : Bool) (path : Bytes) (lines : List Bytes) {ls : List Bytes} {s : State}
    → IsWhole ls s
    → (groups : List (List Bytes)) × (map flatten groups
        ≡ sections (flush_ctx (emit_all multi path lines s)))
      × Perm (flatten groups) (ls ++ map (line_bytes multi path) lines)
emit_all-whole_lines multi path lines {s} w =
    let done = emit_all multi path lines s in
    let flushed = IsWhole-flush (emit_all-IsWhole multi path lines w) in
    let empty = flushed.solid (flushed.buffered ∙ flush_ctx-obuf done) in
    (flushed.groups, flushed.written, rw (empty, append-nil) at flushed.complete)

pub sections_snoc :
    (out : List (List Bytes)) (ws : List Bytes)
    → flatten (map flatten (out ++ ws ∷ [])) ≡ flatten (map flatten out) ++ flatten ws
sections_snoc out ws =
    ap flatten (map-append_one out ws) ∙ flatten_snoc (map flatten out) (flatten ws)
