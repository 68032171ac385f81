-- ===== src/Mt/Worker/Passing.antt =====
-- The output buffer of a thread of c/grep_std_mt.c keeps lines whole.
use asmgrep.Base.{
  ◌+◌, ◌≡◌, refl, ap, sym, ◌∙◌, inl, inr, Bool, List, [], ◌∷◌, ◌++◌, map, append-nil, append_assoc,
  flatten, arith, ltb, ◌==◌, Bool-cases, Bytes, length,
}
use mathlib.Core.Path.{subst}
use asmgrep.Output.{line_bytes}
use asmgrep.Output.Room.{length-line_bytes, needed-pos}
use asmgrep.Threads.Owed.{map-append}
use asmgrep.Threads.Buffers.{
  Passes, Passes-nothing, Passes-then, Passes-flush, Passes-append, Passes-direct,
}
use asmgrep.Mt.{ob_size, Ob, ob_flush, ob_total, ob_direct, ob_copy, ob_line, ob_lines}
use asmgrep.Mt.InOrder.{direct_writes, flatten-direct_writes, ob_copy-bytes, ob_copy-written}

-- What the buffer does from one state to a later one.
abbrev pub ObPasses : List Bytes → Ob → Ob → Type 0
ObPasses xs o o' =
    (sections : List (List Bytes)) × (o'.written ≡ o.written ++ sections)
    × Passes xs o.ob o'.ob (map flatten sections)

ObPasses-then :
    (xs ys : List Bytes) (o o' o'' : Ob)
    → ObPasses xs o o'
    → ObPasses ys o' o''
    → ObPasses (xs ++ ys) o o''
ObPasses-then xs ys o o' o'' (s, e, first) (s', e', second) = (
  s ++ s',
  e' ∙ ap (λ w. w ++ s') e ∙ append_assoc o.written s s',
  subst (Passes (xs ++ ys) o.ob o''.ob) (sym (map-append s s'))
      (Passes-then xs ys o.ob o'.ob o''.ob (map flatten s) (map flatten s') first second),
)

pub ObPasses-flush : (o : Ob) → ObPasses [] o (ob_flush o)
unfolding ob_flush
ObPasses-flush o = elim (Bool-cases (length o.ob == 0)) [
  | inl none_held ↦ rw none_held ([], sym (append-nil o.written), Passes-nothing o.ob)
  | inr held ↦ rw held (
    (o.ob ∷ []) ∷ [],
    refl,
    subst (λ b. Passes [] o.ob [] (b ∷ [])) (sym (append-nil o.ob)) (Passes-flush o.ob),
  )
]

module _ (multi : Bool) (path line : Bytes) where
  ObPasses-direct :
      (o : Ob) → ObPasses (line_bytes multi path line ∷ []) o (ob_direct multi path line o)
  unfolding ob_direct
  ObPasses-direct o = (
    direct_writes multi path line ∷ [],
    refl,
    subst (λ b. Passes (line_bytes multi path line ∷ []) o.ob o.ob (b ∷ []))
        (sym (flatten-direct_writes multi path line))
        (Passes-direct o.ob (line_bytes multi path line)),
  )

  ObPasses-copy :
      (o : Ob) → ObPasses (line_bytes multi path line ∷ []) o (ob_copy multi path line o)
  ObPasses-copy o = (
    [],
    ob_copy-written multi path line o ∙ sym (append-nil o.written),
    subst (λ b. Passes (line_bytes multi path line ∷ []) o.ob b [])
        (sym (ob_copy-bytes multi path line o))
        (Passes-append o.ob (line_bytes multi path line)
          (omega (arith, length-line_bytes multi path line, needed-pos multi path line))),
  )

  ObPasses-line :
      (o : Ob) → ObPasses (line_bytes multi path line ∷ []) o (ob_line multi path line o)
  unfolding ob_line
  ObPasses-line o =
      let total = ob_total multi path line in
      let x = line_bytes multi path line ∷ [] in
      elim (Bool-cases (ltb ob_size total)) [
        | inl giant ↦
            rw giant (
              ObPasses-then [] x o (ob_flush o) _ (ObPasses-flush o) (ObPasses-direct (ob_flush o)))
        | inr fits ↦ rw fits (elim (Bool-cases (ltb ob_size (length o.ob + total))) [
          | inl full ↦
              rw full (
                ObPasses-then [] x o (ob_flush o) _ (ObPasses-flush o) (ObPasses-copy (ob_flush o)))
          | inr room ↦ rw room (ObPasses-copy o)
        ])
      ]

pub ObPasses-lines :
    (multi : Bool) (path : Bytes) (lines : List Bytes) (o : Ob)
    → ObPasses (map (line_bytes multi path) lines) o (ob_lines multi path lines o)
unfolding ob_lines
ObPasses-lines multi path [] o = ([], sym (append-nil o.written), Passes-nothing o.ob)
ObPasses-lines multi path (line ∷ lines) o =
    ObPasses-then (line_bytes multi path line ∷ []) (map (line_bytes multi path) lines) o
      (ob_line multi path line o) _ (ObPasses-line multi path line o)
      (ObPasses-lines multi path lines (ob_line multi path line o))
