-- ===== src/Threads/AllLines.antt =====
-- The threads of a program that finds the lines of c/grep_std.c in each file write all of them.
use asmgrep.Base.{ℕ, ◌≡◌, Bool, List, ◌∷◌, map, flatten, Bytes}
use asmgrep.Pool.Accounts.{count}
use asmgrep.Output.{line_bytes}
use asmgrep.Std.{nothing_printed}
use asmgrep.Std.Lines.{StdLines, file_lines, file_lines-StdLines}
use asmgrep.Threads.{ThreadWork, Member, Shared, Comes}
use asmgrep.Threads.Owed.{up_to, IsLineWise}
use asmgrep.Threads.Written.{at_work, ended-lines}

module _ (pat : Bytes) (ci multi : Bool) (path m : ℕ → Bytes) where
  -- What a thread makes of the lines of a file.
  abbrev pub printed_lines : ℕ → List Bytes
  printed_lines i = map (line_bytes multi (path i)) (file_lines pat ci (m i))

  -- What was written under the lock, each time, are whole lines with their prefixes and newlines,
  -- and all in all those that c/grep_std.c prints for the first `n` files, as often as it does.
  abbrev pub AllLines : ℕ → List Bytes → Type 0
  AllLines n written =
      (lines : ℕ → List Bytes) × ((i : ℕ)
        → StdLines pat ci multi (path i) (m i) nothing_printed (lines i))
      × (groups : List (List Bytes)) × (map flatten groups ≡ written)
      × ((p : Bytes → Bool)
          → count p (flatten groups) ≡ up_to (λ i. map (line_bytes multi (path i)) (lines i)) p n)

  pub ended-AllLines :
      {L : Type 0} (t : ThreadWork L) (b : L) (Holds : List Bytes → L → Type 0)
      → IsLineWise t b Holds printed_lines
      → (nt : ℕ) (w : Member L) (ws : List (Member L)) (s : Shared) → Comes t b nt (w ∷ ws) s
      → at_work (w ∷ ws) ≡ 0
      → AllLines t.nfiles s.written
  ended-AllLines t b Holds h nt w ws s r z =
      let (groups, written, same) = ended-lines t b Holds printed_lines h nt w ws s r z in
      (
        λ i. file_lines pat ci (m i),
        λ i. file_lines-StdLines pat ci (m i) multi (path i) nothing_printed,
        groups,
        written,
        same,
      )
