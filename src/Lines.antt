-- ===== src/Lines.antt =====
-- What the programs promise to print, described without buffers and indices: the lines of a text,
-- those that hold the pattern, and (for any pattern) the lines in which the matches start that are
-- left when everything up to the end of a printed line is passed over.
pub mod Slice
pub mod Unique
pub mod Occurs
pub mod Split
pub mod Filter
pub mod Printed
use asmgrep.Base.{
  ℕ, ◌+◌, ◌-◌, ◌≤◌, ◌<◌, ◌≡◌, ◌≢◌, ◌⊎◌, Bool, true, false, ◌&&◌, ◌||◌, none, some, List, [], ◌∷◌,
  ◌==◌, if◌then◌else◌, Bytes, length, take, drop, at,
}
use asmgrep.Libc.{First}
use asmgrep.Output.{newline}

-- A byte in front of the first line.
unfoldable pub onto_first : ℕ → List Bytes → List Bytes
onto_first x [] = (x ∷ []) ∷ []
onto_first x (line ∷ lines) = (x ∷ line) ∷ lines

-- The lines of a text, without their newlines; the last one need not end in a newline.
unfoldable pub lines_of : Bytes → List Bytes
lines_of [] = []
lines_of (x ∷ text) =
    let rest = lines_of text in if x == newline then [] ∷ rest else onto_first x rest

-- Whether a text begins with the pattern, its bytes taken through `f`.
unfoldable pub starts : (ℕ → ℕ) → Bytes → Bytes → Bool
starts f [] text = true
starts f (c ∷ cs) [] = false
starts f (c ∷ cs) (x ∷ text) = f x == c && starts f cs text

unfoldable pub contains : (ℕ → ℕ) → Bytes → Bytes → Bool
contains f cs [] = starts f cs []
contains f cs (x ∷ text) = starts f cs (x ∷ text) || contains f cs text

unfoldable pub keep : (Bytes → Bool) → List Bytes → List Bytes
keep p [] = []
keep p (line ∷ lines) = let rest = keep p lines in if p line then line ∷ rest else rest

-- The lines that hold the pattern, in order.
unfoldable pub grep_lines : (ℕ → ℕ) → Bytes → Bytes → List Bytes
grep_lines f cs text = keep (contains f cs) (lines_of text)

-- The bytes from index `a` up to index `b`.
abbrev pub slice : Bytes → ℕ → ℕ → Bytes
slice m a b = take (b - a) (drop a m)

-- `ls` is the start of the line of index `s`, and `le` its end: its newline or the end of the text.
abbrev pub NoNewline : Bytes → ℕ → ℕ → Type 0
NoNewline m a b = (i : ℕ) → a ≤ i → i < b → at m i ≢ newline

abbrev pub AtStart : Bytes → ℕ → Type 0
AtStart m p = (p ≡ 0) ⊎ (at m (p - 1) ≡ newline)

pub record IsLine (m : Bytes) (ls s le : ℕ) : Type 0 where
  pub from : ls ≤ s
  pub to : s ≤ le
  pub inside : le ≤ length m
  pub start : AtStart m ls
  pub stop : (le ≡ length m) ⊎ (at m le ≡ newline)
  pub one_line : NoNewline m ls le

-- The lines that a search from index `p` prints, where `P` says at which indices a match starts:
-- the line of the first match, and then those from the end of that line on.
pub data Selected (P : ℕ → Type 0) (m : Bytes) : ℕ → List Bytes → Type 0 where
  done : {p : ℕ} → First P p (length m) none → Selected P m p []
  hit :
      {p : ℕ} {rest : List Bytes} (s ls le : ℕ)
      → First P p (length m) (some s)
      → IsLine m ls s le
      → Selected P m (le + 1) rest
      → Selected P m p (slice m ls le ∷ rest)
