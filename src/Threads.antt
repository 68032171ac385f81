-- ===== src/Threads.antt =====
-- c/grep_std_mt.c, cpp/grep_mt.cpp and cpp/grep_mt_tuned.cpp: the loop of `worker` with what the
-- threads write, as turns that they take in any order. In a turn a thread makes one access to the
-- state that the threads share: `atomic_fetch_add`, or one time that it holds the output lock.
-- What a thread does with a file is a parameter, which each program fills.
pub mod Ledger
pub mod Owed
pub mod Written
pub mod Ends
pub mod Buffers
pub mod AllLines
pub mod Flag
pub mod Whole
pub mod Main
use asmgrep.Base.{
  ℕ, zero, suc, ◌+◌, Bool, false, ◌||◌, List, [], ◌∷◌, ◌++◌, leb, if◌then◌else◌, Bytes, Outcome, ok,
  fault, out_of_fuel,
}

-- `search_file` for the file of an index, and the flush behind the loop, on the state that a thread
-- keeps; both with what is written, an entry for each time that the output lock is held. `matched`
-- tells whether the thread has stored `true` to `g_matched` in a search so far.
pub record ThreadWork (L : Type 0) : Type 0 where
  pub nfiles : ℕ
  pub search_file : ℕ → L → Outcome (L × List Bytes)
  pub last_flush : L → List Bytes
  pub matched : L → Bool

-- Where a thread stands: before the claim, with a file in work, with something left to write, the
-- same behind the loop, and ended; `crashed` is a search that read or wrote out of bounds or did
-- not end.
pub data Member (L : Type 0) : Type 0 where
  claiming : L → Member L
  searching : ℕ → L → Member L
  writing : List Bytes → L → Member L
  leaving : List Bytes → Member L
  gone : Member L
  crashed : Member L

-- `g_idx`, `g_matched`, which nobody reads before the threads have ended, and what was written so far.
pub record Shared : Type 0 where
  pub idx : ℕ
  pub matched : Bool
  pub written : List Bytes

unfoldable pub after_search : {L : Type 0} → Outcome (L × List Bytes) → Member L
after_search (ok r) = writing r.1 r.0
after_search fault = crashed
after_search out_of_fuel = crashed

-- The stores to `g_matched` of a search.
unfoldable pub set_matched :
    {L : Type 0} → ThreadWork L → Outcome (L × List Bytes) → Shared → Shared
set_matched t (ok r) s = record s { matched = s.matched || t.matched r.0 }
set_matched t fault s = s
set_matched t out_of_fuel s = s

unfoldable pub write : Bytes → Shared → Shared
write x s = record s { written = s.written ++ x ∷ [] }

-- A turn of a thread.
unfoldable pub member_turn : {L : Type 0} → ThreadWork L → Member L → Shared → Member L × Shared
member_turn t (claiming b) s =
    let next = record s { idx = s.idx + 1 } in
    if leb t.nfiles s.idx then (leaving (t.last_flush b), next) else (searching s.idx b, next)
member_turn t (searching i b) s = let r = t.search_file i b in (after_search r, set_matched t r s)
member_turn t (writing [] b) s = (claiming b, s)
member_turn t (writing (x ∷ xs) b) s = (writing xs b, write x s)
member_turn t (leaving []) s = (gone, s)
member_turn t (leaving (x ∷ xs)) s = (leaving xs, write x s)
member_turn t gone s = (gone, s)
member_turn t crashed s = (crashed, s)

abbrev pub untouched : Shared
untouched = record { idx = 0; matched = false; written = [] }

unfoldable pub members : {L : Type 0} → L → ℕ → List (Member L)
members b zero = []
members b (suc nt) = claiming b ∷ members b nt

-- The states that `nt` threads reach from the start, in any order of turns.
pub data Comes {L : Type 0} (t : ThreadWork L) (b : L) (nt : ℕ)
    : List (Member L) → Shared → Type 0 where
  begin : Comes t b nt (members b nt) untouched
  then_turn :
      (before after : List (Member L)) (w : Member L) (s : Shared)
      → Comes t b nt (before ++ w ∷ after) s
      → Comes t b nt (before ++ (member_turn t w s).0 ∷ after) (member_turn t w s).1
