-- ===== src/Output/Room.antt =====
-- The buffer never overflows.
use native.Mathlib.Decide.{dec_le}
use asmgrep.Base.{
  ◌+◌, ◌≤◌, ◌<◌, ◌≡◌, inl, inr, Bool, true, false, [], ◌∷◌, ◌++◌, arith, ltb, ltb→ge, lt→ltb,
  ge→ltb, ◌⊎◌, refl, ◌==◌, Bool-cases, Bytes, length, length-append,
}
use asmgrep.Output.{
  State, outbuf_sz, newline, colon, flush_ctx, giant_writes, line_bytes, needed, emit,
}

-- `olen` is within the array.
abbrev pub HasRoom : State → Type 0
HasRoom s = length s.obuf ≤ outbuf_sz

pub length-line_bytes :
    (multi : Bool) (path line : Bytes)
    → length (line_bytes multi path line) ≡ needed multi path line
unfolding line_bytes needed
length-line_bytes true path line = omega (
  arith,
  length-append (path ++ colon ∷ []) (line ++ newline ∷ []),
  length-append path (colon ∷ []),
  length-append line (newline ∷ []),
)
length-line_bytes false path line = omega (arith, length-append line (newline ∷ []))

pub needed-pos : (multi : Bool) (path line : Bytes) → 0 < needed multi path line
unfolding needed
needed-pos multi path line = omega arith

empty_of : (xs : Bytes) → (length xs == 0) ≡ true → xs ≡ []
empty_of [] h = refl
empty_of (x ∷ xs) h = ground arith

pub flush_ctx-obuf : (s : State) → (flush_ctx s).obuf ≡ []
unfolding flush_ctx
flush_ctx-obuf s = elim (Bool-cases (length s.obuf == 0)) [
  | inl e ↦ rw e (empty_of s.obuf e)
  | inr e ↦ rw e
]

-- Under the lock, an empty buffer is not written and any other is written once.
pub flush_ctx_cases :
    (s : State)
    → ((s.obuf ≡ []) × (flush_ctx s ≡ s))
      ⊎ (flush_ctx s ≡ record s { obuf = []; out = s.out ++ (s.obuf ∷ []) ∷ [] })
unfolding flush_ctx
flush_ctx_cases s = elim (Bool-cases (length s.obuf == 0)) [
  | inl e ↦ inl (empty_of s.obuf e, rw e)
  | inr e ↦ inr (rw e)
]

abbrev pub mark : State → State
mark s = record s { matched = true }

pub emit_giant :
    (multi : Bool) (path line : Bytes) (s : State)
    → outbuf_sz < needed multi path line
    → emit multi path line s
      ≡ record s { matched = true; out = s.out ++ giant_writes multi path line ∷ [] }
unfolding emit
emit_giant multi path line s h = rw (lt→ltb outbuf_sz (needed multi path line) h)

-- A line that fits the buffer is copied to it, behind a flush if there is not enough room left.
pub emit_copy :
    (multi : Bool) (path line : Bytes) (s : State)
    → needed multi path line ≤ outbuf_sz
    → (room : State) × ((room ≡ mark s) ⊎ (room ≡ flush_ctx (mark s)))
      × (length room.obuf + needed multi path line ≤ outbuf_sz)
      × (emit multi path line s ≡ record room { obuf = room.obuf ++ line_bytes multi path line })
unfolding emit
emit_copy multi path line s h =
    rw (ge→ltb outbuf_sz (needed multi path line) h)
      (elim (Bool-cases (ltb outbuf_sz (length s.obuf + needed multi path line))) [
        | inl full ↦
            (flush_ctx (mark s), inr refl, rw (flush_ctx-obuf (mark s)) (omega arith), rw full)
        | inr fits ↦ (
          mark s,
          inl refl,
          ltb→ge outbuf_sz (length s.obuf + needed multi path line) fits,
          rw fits,
        )
      ])

-- `emit` copies no byte past the end of the buffer.
pub emit-HasRoom :
    (multi : Bool) (path line : Bytes) (s : State) → HasRoom s → HasRoom (emit multi path line s)
emit-HasRoom multi path line s h = elim (dec_le (needed multi path line) outbuf_sz) [
  | no giant ↦ rw (emit_giant multi path line s (omega arith)) h
  | yes fits ↦
      let (room, _, enough, e) = emit_copy multi path line s fits in
      rw e (
        omega (
          arith,
          enough,
          length-append room.obuf (line_bytes multi path line),
          length-line_bytes multi path line,
        ))
]
