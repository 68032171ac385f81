-- ===== src/Threads/Main.antt =====
-- The ends of the threaded programs' `main`: the number of the threads, and their joining.
use asmgrep.Base.{
  ℕ, ◌<◌, ◌≡◌, refl, ap, ◌∙◌, ◌⊎◌, inl, inr, ◌∷◌, ◌++◌, sym, Bool, List, [], flatten, arith, ltb,
  if◌then◌else◌, Bytes, length,
}
use asmgrep.Pool.Accounts.{count}
use asmgrep.Std.Lines.{file_lines}
use mathlib.Core.Path.{subst}
use asmgrep.Threads.{
  ThreadWork, Member, claiming, searching, writing, leaving, gone, crashed, Shared, untouched,
  members, Comes, begin, then_turn,
}
use asmgrep.Threads.Ends.{is_active, Ends, ends, always-Ends}
use asmgrep.Threads.Written.{at_work, crashes, Comes-no_crash}
use asmgrep.Threads.Owed.{IsLineWise}
use asmgrep.Threads.Flag.{IsFlagged}
use asmgrep.Threads.AllLines.{printed_lines}
use asmgrep.Threads.Whole.{nth_path, nth_bytes, nth_found, ended-WritesLines}
use asmgrep.Answer.{Exit, exit_of, lines_found, any_in}

-- `nt`, from the number of processors.
unfoldable pub thread_count : ℕ → ℕ
thread_count n = let nt = if ltb n 1 then 1 else n in if ltb 16 nt then 16 else nt

pub thread_count-pos : (n : ℕ) → 0 < thread_count n
unfolding thread_count
thread_count-pos n = ground arith

-- What the program leaves when `nt` threads have taken turns in some order until all have ended:
-- the bytes in the order of their writing, and the status by `g_matched`.
abbrev pub Joined : {L : Type 0} → ThreadWork L → L → ℕ → Exit → Type 0
Joined {L} t b nt e =
    (ws : List (Member L)) × (s : Shared) × Comes t b nt ws s
    × (at_work ws ≡ 0)
    × (e ≡ exit_of (flatten s.written) s.matched)

-- The lines found in the files, each whole and as often as it is found, in some order, and the status.
abbrev pub Reorders : Bool → (Bytes → List Bytes) → List Bytes → Exit → Type 0
Reorders multi lines files e =
    (printed : List Bytes) × (flatten printed ≡ e.stdout)
    × ((p : Bytes → Bool) → count p printed ≡ count p (lines_found multi lines files))
    × (e.status ≡ (exit_of [] (any_in lines files Bool.false)).status)

-- An active thread of the list, where there is one.
abbrev ActiveIn : {L : Type 0} → List (Member L) → Type 0
ActiveIn {L} ws =
    (before : List (Member L)) × (after : List (Member L)) × (w : Member L) × (ws
      ≡ before ++ w ∷ after)
    × (is_active w ≡ 1)

active_or_ended :
    {L : Type 0} (ws : List (Member L)) → crashes ws ≡ 0 → (at_work ws ≡ 0) ⊎ ActiveIn ws
active_or_ended [] safe = inl refl
active_or_ended (claiming c ∷ ws) safe = inr ([], ws, claiming c, refl, refl)
active_or_ended (searching i c ∷ ws) safe = inr ([], ws, searching i c, refl, refl)
active_or_ended (writing xs c ∷ ws) safe = inr ([], ws, writing xs c, refl, refl)
active_or_ended (leaving xs ∷ ws) safe = inr ([], ws, leaving xs, refl, refl)
active_or_ended (crashed ∷ ws) safe = absurd (omega arith)
active_or_ended (gone ∷ ws) safe = elim (active_or_ended ws safe) [
  | inl ended ↦ inl ended
  | inr (before, after, w, split, active) ↦
      inr (gone ∷ before, after, w, ap (λ vs. gone ∷ vs) split, active)
]

module _ {L : Type 0} (t : ThreadWork L) (b : L) (Holds : List Bytes → L → Type 0)
    (lines : ℕ → List Bytes) (h : IsLineWise t b Holds lines) (nt : ℕ) where
  runs_out :
      {ws : List (Member L)} {s : Shared}
      → Ends t ws s
      → Comes t b nt ws s
      → (ws' : List (Member L)) × (s' : Shared) × Comes t b nt ws' s' × (at_work ws' ≡ 0)
  runs_out (ends ws s next) r = elim (active_or_ended ws (Comes-no_crash t b Holds lines h nt r)) [
    | inl ended ↦ (ws, s, r, ended)
    | inr (before, after, w, split, active) ↦
        runs_out (next before after w split active)
          (then_turn before after w s (subst (λ vs. Comes t b nt vs s) split r))
  ]

  -- A run whose threads all end, when they always take turns.
  pub Joined-exists : (e : Exit) × Joined t b nt e
  Joined-exists =
      let (ws, s, r, ended) = runs_out (always-Ends t (members b nt) untouched) begin in
      (exit_of (flatten s.written) s.matched, (ws, s, r, ended, refl))

module _ {L : Type 0} (t : ThreadWork L) (b : L) (Holds : List Bytes → L → Type 0) (pat : Bytes)
    (ci multi : Bool) (files : List Bytes) (m : Bytes → Bytes) where
  pub Joined-Reorders :
      IsLineWise t b Holds
        (printed_lines pat ci multi (nth_path files) (nth_bytes t b Holds pat ci multi files m))
      → IsFlagged t b (nth_found t b Holds pat ci multi files m)
      → t.nfiles ≡ length files
      → (n : ℕ) (e : Exit) → Joined t b (thread_count n) e
      → Reorders multi (λ p. file_lines pat ci (m p)) files e
  unfolding exit_of
  Joined-Reorders lw fl size n e (ws, s, r, z, left) =
      let (printed, bytes, same, flag) =
        ended-WritesLines t b Holds pat ci multi files m lw fl size (thread_count n) ws s
          (thread_count-pos n) r z in
      (
        printed,
        bytes ∙ sym (ap (λ (x : Exit). x.stdout) left),
        same,
        ap (λ (x : Exit). x.status) left ∙ ap (λ b. if b then 0 else 1) flag,
      )
