-- ===== src/Std/SameBytes.antt =====
-- c/grep.c and c/grep_std.c print the same bytes for a file whose lines fit the buffer.
use asmgrep.Base.{
  inl, inr, Bool-cases, ◌+◌, ◌≤◌, ◌≡◌, refl, ap, sym, ◌∙◌, Bool, true, false, List, [], ◌∷◌, ◌++◌,
  map, arith, append_assoc, append-nil, flatten, All, Bytes, length, ok, Returns, Returns-mono,
}
use asmgrep.Pattern.{Pattern, prep_pattern}
use asmgrep.Output.{
  State, outbuf_sz, newline, colon, needed, line_bytes, emit, emit_all, flush_ctx, initial,
}
use asmgrep.Output.Order.{stream, stream-emit_all}
use asmgrep.Scan.{scan}
use asmgrep.Scan.Correct.{Fits}
use asmgrep.Std.{
  Settings, settings, Printed, nothing_printed, fwrite, print_line, print_lines, search_text,
}
use asmgrep.Std.Agrees.{Short, scan-search_text}

print_line-stdout :
    (pat : Bytes) (ci multi : Bool) (path line : Bytes) (t : Printed)
    → (print_line (settings pat ci multi) path line t).stdout
      ≡ t.stdout ++ line_bytes multi path line
unfolding print_line settings fwrite line_bytes
print_line-stdout pat ci true path line t =
    append_assoc (t.stdout ++ path ++ (colon ∷ [])) line (newline ∷ [])
    ∙ ap (λ r. r ++ (line ++ newline ∷ [])) (append_assoc t.stdout path (colon ∷ []))
    ∙ append_assoc t.stdout (path ++ colon ∷ []) (line ++ newline ∷ [])
print_line-stdout pat ci false path line t = append_assoc t.stdout line (newline ∷ [])

pub print_lines-stdout :
    (pat : Bytes) (ci multi : Bool) (path : Bytes) (lines : List Bytes) (t : Printed)
    → (print_lines (settings pat ci multi) path lines t).stdout
      ≡ t.stdout ++ flatten (map (line_bytes multi path) lines)
unfolding print_lines
print_lines-stdout pat ci multi path [] t = sym (append-nil t.stdout)
print_lines-stdout pat ci multi path (line ∷ lines) t =
    print_lines-stdout pat ci multi path lines (print_line (settings pat ci multi) path line t)
    ∙ ap (λ r. r ++ flatten (map (line_bytes multi path) lines))
        (print_line-stdout pat ci multi path line t)
    ∙ append_assoc t.stdout (line_bytes multi path line)
        (flatten (map (line_bytes multi path) lines))

-- The match flags of both programs are set by the same lines.
pub print_line-matched :
    (g : Settings) (path line : Bytes) (t : Printed) → (print_line g path line t).matched ≡ true
unfolding print_line fwrite
print_line-matched g path line t = elim (Bool-cases g.multi) [
  | inl e ↦ rw e refl
  | inr e ↦ rw e refl
]

pub emit-matched :
    (multi : Bool) (path line : Bytes) (s : State) → (emit multi path line s).matched ≡ true
unfolding emit flush_ctx
emit-matched multi path line s = ground arith

flags-agree :
    (g : Settings) (multi : Bool) (path : Bytes) (lines : List Bytes) (s : State) (t : Printed)
    → s.matched ≡ t.matched
    → (emit_all multi path lines s).matched ≡ (print_lines g path lines t).matched
unfolding emit_all print_lines
flags-agree g multi path [] s t e = e
flags-agree g multi path (line ∷ lines) s t e =
    flags-agree g multi path lines (emit multi path line s) (print_line g path line t)
      (emit-matched multi path line s ∙ sym (print_line-matched g path line t))

Short-fits :
    (multi : Bool) (path text : Bytes) (lines : List Bytes)
    → length path + length text + 2 ≤ outbuf_sz
    → Short text lines
    → All (λ line. needed multi path line ≤ outbuf_sz) lines
unfolding needed
Short-fits multi path text [] room short = tt
Short-fits multi path text (line ∷ lines) room (short, rest) =
    (ground arith, Short-fits multi path text lines room rest)

-- What both programs leave when they have searched one file from the start.
abbrev pub SameBytes : Bytes → Bool → Bool → Bytes → Bytes → Pattern → Type 0
SameBytes pat ci multi path text g =
    (u : State) × (v : Printed) × (scan g multi path text initial ≡ ok u)
    × (search_text (settings pat ci multi) path text nothing_printed ≡ ok v)
    × (stream (flush_ctx u) ≡ v.stdout)
    × (u.matched ≡ v.matched)

-- For a file that with its name fits the output buffer, what `scan` has written after a last
-- flush is byte for byte what `search_text` has printed, for every pattern (under -i of at most
-- 65536 bytes), and both set their match flag or neither does.
pub scan-SameBytes :
    (pat : Bytes) (ci multi : Bool) (path text : Bytes)
    → Fits pat ci
    → length path + length text + 2 ≤ outbuf_sz
    → Returns (prep_pattern pat ci) (SameBytes pat ci multi path text)
scan-SameBytes pat ci multi path text fits room =
    Returns-mono (prep_pattern pat ci) _ _
      (scan-search_text pat ci multi path text initial nothing_printed fits)
      (λ g (lines, short, ran, ran'). (
        emit_all multi path lines initial,
        print_lines (settings pat ci multi) path lines nothing_printed,
        ran,
        ran',
        stream-emit_all multi path lines initial (Short-fits multi path text lines room short)
            ∙ sym (print_lines-stdout pat ci multi path lines nothing_printed),
        flags-agree (settings pat ci multi) multi path lines initial nothing_printed refl,
      ))
