-- ===== src/Crew.antt =====
-- c/grep.c: the threads of Pool with their output buffers: what `worker` does with a file and behind
-- its loop, and what is written meanwhile. In a turn a thread makes one access to the state that the
-- threads share: to the queue or the counter, or one time that it holds the output lock.
pub mod Emitted
pub mod Refines
pub mod Owed
pub mod Roots
pub mod Written
pub mod Flags
pub mod RootFlags
pub mod Main
use asmgrep.Base.{
  ℕ, Option, none, some, zero, Bool, suc, List, [], ◌∷◌, ◌++◌, map, flatten, ◌==◌, if◌then◌else◌,
  Bytes, Outcome, ok, fault, out_of_fuel, ◌>>=◌, Bool,
}
use asmgrep.Pattern.{Pattern}
use asmgrep.Output.{State, flush_ctx, initial}
use asmgrep.Reading.{Answers, fail, search_file}
use asmgrep.Pool.{
  Mode, s_dir, s_reg, s_other, Action, descend, search, Worker, looking, starved, walking, exited,
  turn, untouched, push_all,
}

-- A thread: where it stands in Pool, what it has still to write, and its `Ctx`; or a thread whose
-- search read out of bounds or did not end.
pub data Hand : Type 0 where
  hand : Worker → List Bytes → State → Hand
  broken : Worker → Hand

-- What the threads share, and what was written under the output lock.
pub record Common : Type 0 where
  pub pool : asmgrep.Pool.Shared
  pub written : List Bytes

-- The pattern, `g_multi`, and what the kernel answers for the files and the directories.
pub record Setting : Type 0 where
  pub g : Pattern
  pub multi : Bool
  pub files : Bytes → Answers
  pub actions : Bytes → List Action

abbrev pub nothing_out : State → State
nothing_out s = record s { out = [] }

-- Behind `search_file`: the sections that it wrote are still to come out.
unfoldable pub after_file : List Action → Outcome State → Hand
after_file todo (ok c) = hand (walking todo) (map flatten c.out) c
after_file todo fault = broken (walking todo)
after_file todo out_of_fuel = broken (walking todo)

unfoldable pub in_pool : Setting → Worker → State → Common → Hand × Common
in_pool e w c s = let r = turn e.actions w s.pool in (hand r.0 [] c, record s { pool = r.1 })

-- A turn of a thread.
unfoldable pub hand_turn : Setting → Hand → Common → Hand × Common
hand_turn e (hand w (x ∷ xs) c) s = (hand w xs c, record s { written = s.written ++ x ∷ [] })
hand_turn e (hand looking [] c) s = in_pool e looking c s
hand_turn e (hand starved [] c) s =
    if s.pool.pending == 0
    then (hand exited (map flatten (flush_ctx (nothing_out c)).out) c, s)
    else (hand looking [] c, s)
hand_turn e (hand (walking []) [] c) s = in_pool e (walking []) c s
hand_turn e (hand (walking (descend d ∷ todo)) [] c) s = in_pool e (walking (descend d ∷ todo)) c s
hand_turn e (hand (walking (search f ∷ todo)) [] c) s = (
  after_file todo (search_file e.g e.multi f (e.files f) (nothing_out c)),
  record s { pool = (turn e.actions (walking (search f ∷ todo)) s.pool).1 },
)
hand_turn e (hand exited [] c) s = (hand exited [] c, s)
hand_turn e (broken w) s = (broken w, s)

-- `main`, pass 2: what is done with a path, by the answer of `stat` (`none` for a failure): the first
-- context, and the directories that were pushed, the first at the front.
unfoldable pub visit_root :
    Setting → Bool → Option Mode → Bytes → State × List Bytes → Outcome (State × List Bytes)
visit_root e r none a (c, dirs) = ok (fail c, dirs)
visit_root e r (some s_dir) a (c, dirs) = ok (c, if r then dirs ++ a ∷ [] else dirs)
visit_root e r (some s_reg) a (c, dirs) = do
  c' ← search_file e.g e.multi a (e.files a) c
  ok (c', dirs)
visit_root e r (some s_other) a (c, dirs) = ok (c, dirs)

unfoldable pub visit_roots :
    Setting
    → Bool
    → (Bytes → Option Mode)
    → List Bytes
    → State × List Bytes
    → Outcome (State × List Bytes)
visit_roots e r stat [] x = ok x
visit_roots e r stat (a ∷ paths) x = do
  x' ← visit_root e r (stat a) a x
  visit_roots e r stat paths x'

-- The threads at their start: the first one has the context that pass 2 leaves.
unfoldable pub fresh_hands : ℕ → List Hand
fresh_hands zero = []
fresh_hands (suc n) = hand looking [] initial ∷ fresh_hands n

unfoldable pub hands : State → ℕ → List Hand
hands c zero = []
hands c (suc n) = hand looking [] c ∷ fresh_hands n

-- The states that `n` threads reach from the roots, in any order of turns, when pass 2 has left the
-- context `c` and written what it holds.
pub data Works (e : Setting) (c : State) (n : ℕ) (roots : List Bytes)
    : List Hand → Common → Type 0 where
  begin :
      Works e c n roots
        (hands c n)
        (record { pool = push_all roots untouched; written = map flatten c.out })
  then_turn :
      (before after : List Hand) (h : Hand) (s : Common)
      → Works e c n roots (before ++ h ∷ after) s
      → Works e c n roots (before ++ (hand_turn e h s).0 ∷ after) (hand_turn e h s).1
