-- ===== src/Mt.antt =====
-- c/grep_std_mt.c: the output buffer of a thread (`OB`), `ob_flush` and `ob_line`.
pub mod InOrder
pub mod Search
pub mod Claims
pub mod Worker
pub mod Collect
pub mod Main
use asmgrep.Base.{ℕ, ◌+◌, Bool, List, [], ◌∷◌, ◌++◌, ltb, ◌==◌, if◌then◌else◌, Bytes, length}
use asmgrep.Output.{newline, colon}

abbrev pub ob_size : ℕ
ob_size = 65536

-- `ob` is the filled part of `OB.buf`, whose length is `OB.len`; `written` has an entry for each
-- time that `g_outlock` was held, the list of the buffers handed to `write` meanwhile.
pub record Ob : Type 0 where
  pub ob : Bytes
  pub written : List (List Bytes)

unfoldable pub ob_flush : Ob → Ob
ob_flush o =
    if length o.ob == 0 then o else record { ob = []; written = o.written ++ (o.ob ∷ []) ∷ [] }

unfoldable pub ob_total : Bool → Bytes → Bytes → ℕ
ob_total multi path line = (if multi then length path + 1 else 0) + length line + 1

-- The writes for a line that is longer than the buffer.
unfoldable pub ob_direct : Bool → Bytes → Bytes → Ob → Ob
ob_direct multi path line o = record o {
  written =
      o.written
      ++ ((if multi then path ∷ (colon ∷ []) ∷ [] else []) ++ line ∷ (newline ∷ []) ∷ []) ∷ [];
}

-- The copies for a line that fits.
unfoldable pub ob_copy : Bool → Bytes → Bytes → Ob → Ob
ob_copy multi path line o = record o {
  ob = (if multi then (o.ob ++ path) ++ colon ∷ [] else o.ob) ++ (line ++ newline ∷ []);
}

unfoldable pub ob_line : Bool → Bytes → Bytes → Ob → Ob
ob_line multi path line o =
    let total = ob_total multi path line in
    if ltb ob_size total
    then ob_direct multi path line (ob_flush o)
    else ob_copy multi path line (if ltb ob_size (length o.ob + total) then ob_flush o else o)

-- `ob_line` for the lines of a file, one after the other.
unfoldable pub ob_lines : Bool → Bytes → List Bytes → Ob → Ob
ob_lines multi path [] o = o
ob_lines multi path (line ∷ lines) o = ob_lines multi path lines (ob_line multi path line o)

-- A thread's buffer at its start.
abbrev pub empty_ob : Ob
empty_ob = record { ob = []; written = [] }
