-- ===== src/Mt/Claims.antt =====
-- c/grep_std_mt.c: the loop of `worker`, in which the threads share out the `g_nfiles` files by an
-- atomic counter, as turns that the threads take in any order.
pub mod EachOnce
use asmgrep.Base.{ℕ, zero, suc, ◌+◌, List, [], ◌∷◌, ◌++◌, leb, if◌then◌else◌}

-- Where a thread stands: before the claim, with a file in work, and behind the loop.
pub data Claimer : Type 0 where
  claiming : Claimer
  searching : ℕ → Claimer
  gone : Claimer

-- `g_idx`, and the indices of the files that were searched, the latest first.
pub record Files : Type 0 where
  pub idx : ℕ
  pub searched : List ℕ

-- A turn of a thread: `atomic_fetch_add` and the test, or `search_file`.
unfoldable pub claim_turn : ℕ → Claimer → Files → Claimer × Files
claim_turn nfiles claiming s =
    let next = record s { idx = s.idx + 1 } in
    if leb nfiles s.idx then (gone, next) else (searching s.idx, next)
claim_turn nfiles (searching i) s = (claiming, record s { searched = i ∷ s.searched })
claim_turn nfiles gone s = (gone, s)

unfoldable pub claimers : ℕ → List Claimer
claimers zero = []
claimers (suc nt) = claiming ∷ claimers nt

-- The states that the threads reach from the start, in any order of turns.
pub data Reaches (nfiles nt : ℕ) : List Claimer → Files → Type 0 where
  begin : Reaches nfiles nt (claimers nt) (record { idx = 0; searched = [] })
  then_turn :
      (before after : List Claimer) (w : Claimer) (s : Files)
      → Reaches nfiles nt (before ++ w ∷ after) s
      → Reaches nfiles nt (before ++ (claim_turn nfiles w s).0 ∷ after) (claim_turn nfiles w s).1
