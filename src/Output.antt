-- ===== src/Output.antt =====
-- c/grep.c: the output buffer of a thread (`Ctx`), `flush_ctx` and `emit`.
pub mod Room
pub mod Whole
pub mod Order
use asmgrep.Base.{ℕ, ◌+◌, Bool, true, List, [], ◌∷◌, ◌++◌, ltb, ◌==◌, if◌then◌else◌, Bytes, length}

abbrev pub outbuf_sz : ℕ
outbuf_sz = 65536

abbrev pub newline : ℕ
newline = b'\n'

abbrev pub colon : ℕ
colon = b':'

-- What a thread works on: `obuf` is the filled part of its `Ctx.obuf`, whose length is `olen`;
-- `matched` and `err` are `g_match` and `g_err`; `out` has an entry for each time that `g_outlock`
-- was held, the list of the buffers that were handed to `write` on descriptor 1 meanwhile.
pub record State : Type 0 where
  pub obuf : Bytes
  pub matched : Bool
  pub err : Bool
  pub out : List (List Bytes)

unfoldable pub flush_ctx : State → State
flush_ctx s =
    if length s.obuf == 0 then s else record s { obuf = []; out = s.out ++ (s.obuf ∷ []) ∷ [] }

-- The writes of a line that is too long for the buffer.
unfoldable pub giant_writes : Bool → Bytes → Bytes → List Bytes
giant_writes multi path line =
    if multi then path ∷ (colon ∷ []) ∷ line ∷ (newline ∷ []) ∷ [] else line ∷ (newline ∷ []) ∷ []

-- What is copied to the buffer for a line that fits.
unfoldable pub line_bytes : Bool → Bytes → Bytes → Bytes
line_bytes multi path line = (if multi then path ++ colon ∷ [] else []) ++ (line ++ newline ∷ [])

unfoldable pub needed : Bool → Bytes → Bytes → ℕ
needed multi path line = length line + 1 + (if multi then length path + 1 else 0)

-- `emit`. `multi` is `g_multi`.
unfoldable pub emit : Bool → Bytes → Bytes → State → State
emit multi path line before =
    let s = record before { matched = true } in
    let need = needed multi path line in
    let room = if ltb outbuf_sz (length s.obuf + need) then flush_ctx s else s in
    if ltb outbuf_sz need
    then record s { out = s.out ++ giant_writes multi path line ∷ [] }
    else record room { obuf = room.obuf ++ line_bytes multi path line }

-- `emit` for the lines of a file, one after the other.
unfoldable pub emit_all : Bool → Bytes → List Bytes → State → State
emit_all multi path [] s = s
emit_all multi path (line ∷ lines) s = emit_all multi path lines (emit multi path line s)

-- The state in which `main` starts.
abbrev pub initial : State
initial = record { obuf = []; matched = Bool.false; err = Bool.false; out = [] }
