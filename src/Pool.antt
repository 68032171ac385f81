-- ===== src/Pool.antt =====
-- c/grep.c: the queue of directories, `traverse` and the loop of `worker`, as turns that the
-- threads take in any order. The file system is a parameter: what `opendir`, `readdir` and `stat`
-- answer. In a turn a thread makes one access to the state that the threads share.
pub mod Accounts
pub mod Finished
pub mod Reached
use asmgrep.Base.{
  ℕ, zero, suc, ◌+◌, ◌-◌, ◌*◌, Bool, true, false, ◌||◌, ◌&&◌, Option, none, some, List, [], ◌∷◌,
  ◌++◌, leb, ◌==◌, if◌then◌else◌, Bytes, length,
}

-- The number of the paths of a list.
abbrev pub count_paths : List Bytes → ℕ
count_paths [] = 0
count_paths (d ∷ ds) = suc (count_paths ds)

-- `g_q` (its last entry, `g_q[g_qtop-1]`, is the head of `dirs`, and `g_qtop` the length),
-- `g_qcap` and `g_pending`; and, to tell what was done, the directories that were taken from the
-- queue and the files that were searched, the latest first.
pub record Shared : Type 0 where
  pub dirs : List Bytes
  pub cap : ℕ
  pub pending : ℕ
  pub taken : List Bytes
  pub searched : List Bytes

abbrev pub untouched : Shared
untouched = record { dirs = []; cap = 0; pending = 0; taken = []; searched = [] }

-- The capacity that `q_push` makes sure of.
unfoldable pub grown : ℕ → ℕ → ℕ
grown top cap = if top == cap then (if cap == 0 then 1024 else cap * 2) else cap

unfoldable pub q_push : Bytes → Shared → Shared
q_push d s = record s {
  cap = grown (count_paths s.dirs) s.cap;
  dirs = d ∷ s.dirs;
  pending = s.pending + 1;
}

-- The roots, pushed one after the other.
unfoldable pub push_all : List Bytes → Shared → Shared
push_all [] s = s
push_all (d ∷ ds) s = push_all ds (q_push d s)

-- What `d_type` and `st_mode` can say.
pub data EntryType : Type 0 where
  dt_lnk : EntryType
  dt_dir : EntryType
  dt_reg : EntryType
  dt_unknown : EntryType
  dt_other : EntryType

pub data Mode : Type 0 where
  s_dir : Mode
  s_reg : Mode
  s_other : Mode

-- An entry of a directory, with the answer of `stat` on its path (`none` for a failure).
pub record Dirent : Type 0 where
  pub d_name : Bytes
  pub d_type : EntryType
  pub stat : Option Mode

-- What `traverse` does for an entry.
pub data Action : Type 0 where
  descend : Bytes → Action
  search : Bytes → Action

abbrev dot : ℕ
dot = b'.'

unfoldable pub is_self_or_parent : Bytes → Bool
is_self_or_parent [] = false
is_self_or_parent (c ∷ []) = c == dot
is_self_or_parent (c ∷ d ∷ []) = c == dot && d == dot
is_self_or_parent (c ∷ d ∷ e ∷ es) = false

unfoldable pub action_for : Bool → Bytes → EntryType → Option Mode → List Action
action_for r child dt_lnk st = []
action_for r child dt_dir st = if r then descend child ∷ [] else []
action_for r child dt_reg st = search child ∷ []
action_for r child dt_unknown none = []
action_for r child dt_unknown (some s_dir) = if r then descend child ∷ [] else []
action_for r child dt_unknown (some s_reg) = search child ∷ []
action_for r child dt_unknown (some s_other) = []
action_for r child dt_other st = []

-- The body of the loop of `traverse`; `child` has room for 4096 bytes with its NUL.
unfoldable pub entry_actions : Bool → Bytes → Dirent → List Action
entry_actions r dir e =
    let child = dir ++ b'/' ∷ e.d_name in
    if is_self_or_parent e.d_name || leb 4096 (length child)
    then []
    else action_for r child e.d_type e.stat

unfoldable pub all_actions : Bool → Bytes → List Dirent → List Action
all_actions r dir [] = []
all_actions r dir (e ∷ es) = entry_actions r dir e ++ all_actions r dir es

-- `traverse`; `listing` has the entries of a directory, or `none` where `opendir` fails.
unfoldable pub traverse : (Bytes → Option (List Dirent)) → Bool → Bytes → List Action
traverse listing r dir = elim (listing dir) [ none ↦ [] | some es ↦ all_actions r dir es ]

-- Where a thread stands: before `q_pop`; behind it, with NULL in hand; in `traverse`, with some
-- actions left; and behind the loop.
pub data Worker : Type 0 where
  looking : Worker
  starved : Worker
  walking : List Action → Worker
  exited : Worker

unfoldable pub q_pop : Shared → Option Bytes × Shared
q_pop s = elim s.dirs [ [] ↦ (none, s) | d ∷ ds ↦ (some d, record s { dirs = ds }) ]

unfoldable pub take_up : (Bytes → List Action) → Option Bytes × Shared → Worker × Shared
take_up actions (none, s) = (starved, s)
take_up actions (some d, s) = (walking (actions d), record s { taken = d ∷ s.taken })

-- A turn of a thread.
unfoldable pub turn : (Bytes → List Action) → Worker → Shared → Worker × Shared
turn actions looking s = take_up actions (q_pop s)
turn actions starved s = if s.pending == 0 then (exited, s) else (looking, s)
turn actions (walking (descend d ∷ todo)) s = (walking todo, q_push d s)
turn actions (walking (search f ∷ todo)) s = (walking todo, record s { searched = f ∷ s.searched })
turn actions (walking []) s = (looking, record s { pending = s.pending - 1 })
turn actions exited s = (exited, s)

-- The threads and what they share.
pub record Pool : Type 0 where
  pub workers : List Worker
  pub shared : Shared

unfoldable pub start_workers : ℕ → List Worker
start_workers zero = []
start_workers (suc n) = looking ∷ start_workers n

-- The pool that `main` starts with `n` threads for the roots.
unfoldable pub start : ℕ → List Bytes → Pool
start n roots = record { workers = start_workers n; shared = push_all roots untouched }

-- Any thread takes a turn.
pub data Step (actions : Bytes → List Action) : Pool → Pool → Type 0 where
  a_turn :
      (before after : List Worker) (w : Worker) (s : Shared)
      → Step actions
          (record { workers = before ++ w ∷ after; shared = s })
          (record {
            workers = before ++ (turn actions w s).0 ∷ after;
            shared = (turn actions w s).1;
          })

pub data Runs (actions : Bytes → List Action) (p : Pool) : Pool → Type 0 where
  stay : Runs actions p p
  go : {q r : Pool} → Runs actions p q → Step actions q r → Runs actions p r
