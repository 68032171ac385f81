-- ===== src/Probe.antt =====
-- bench/iouring_probe.c: the listing of the files, the pass that reads them one after the other, and
-- the pass that hands open, read and close in batches to io_uring, whose completions come in any
-- order. What the kernel answers is a parameter; a descriptor stands for the path of the file that
-- it was opened on. The clock is left out.
pub mod Listed
pub mod Slots
pub mod Gains
pub mod Batch
pub mod SameBytes
use asmgrep.Base.{
  ℕ, zero, suc, ◌+◌, ◌-◌, ◌*◌, Bool, true, false, Option, none, some, List, [], ◌∷◌, ◌++◌, ltb, leb,
  ◌==◌, if◌then◌else◌, Bytes, length, get_elem?, take, drop, replicate, Outcome, ok, fault,
  out_of_fuel, ◌>>=◌,
}
use asmgrep.Pool.{
  EntryType, dt_dir, dt_reg, dt_lnk, dt_unknown, dt_other, Mode, s_dir, s_reg, s_other,
  is_self_or_parent,
}
use asmgrep.Mt.Collect.{FileList, add_file}

abbrev pub bufsz : ℕ
bufsz = 65536

abbrev pub qd : ℕ
qd = 256

abbrev pub per : ℕ
per = 200

-- What `opendir` and `readdir` show, all the way down: an entry has its name, its type, the answer of
-- `stat`, and what is shown at its path.
mutual
  pub data Directory : Type 0 where
    unreadable : Directory
    holds : Entries → Directory

  pub data Entries : Type 0 where
    no_entry : Entries
    entry : Bytes → EntryType → Option Mode → Directory → Entries → Entries

-- `snprintf` into `child`, which cuts what does not fit.
unfoldable pub child_path : Bytes → Bytes → Bytes
child_path path d_name = take 4095 (path ++ b'/' ∷ d_name)

-- What is done with an entry, `sub` being the recursive call.
unfoldable pub on_entry :
    EntryType → Option Mode → Bytes → Outcome FileList → FileList → Outcome FileList
on_entry dt_dir st child sub s = sub
on_entry dt_reg st child sub s = add_file child s
on_entry dt_unknown none child sub s = ok s
on_entry dt_unknown (some s_dir) child sub s = sub
on_entry dt_unknown (some s_reg) child sub s = add_file child s
on_entry dt_unknown (some s_other) child sub s = ok s
on_entry dt_lnk st child sub s = ok s
on_entry dt_other st child sub s = ok s

unfoldable mutual
  pub collect : Bytes → Directory → FileList → Outcome FileList
  collect path unreadable s = ok s
  collect path (holds es) s = collect_entries path es s

  pub collect_entries : Bytes → Entries → FileList → Outcome FileList
  collect_entries path no_entry s = ok s
  collect_entries path (entry d_name d_type st below es) s =
      let child = child_path path d_name in
      let sub = collect child below s in
      (if is_self_or_parent d_name then ok s else on_entry d_type st child sub s) >>= λ s'.
      collect_entries path es s'

-- Whether a file can be opened, and how many bytes a `read` of `bufsz` then returns (`none` is -1).
pub record ReadAnswers : Type 0 where
  pub opens : Bool
  pub read : Option ℕ

-- `if (n>0) total += n`
unfoldable pub add_read : Option ℕ → ℕ → ℕ
add_read none total = total
add_read (some n) total = if ltb 0 n then total + n else total

unfoldable pub sync_pass : (Bytes → ReadAnswers) → List Bytes → ℕ → ℕ
sync_pass kernel [] total = total
sync_pass kernel (f ∷ files) total =
    sync_pass kernel files (if (kernel f).opens then add_read (kernel f).read total else total)

-- A completion; before it is complete, the request.
pub record Cqe (A : Type 0) : Type 0 where
  pub user_data : ℕ
  pub res : Option A

-- The ring has room for the requests; otherwise `io_uring_get_sqe` gives NULL, which is written to.
unfoldable pub get_sqes : {A : Type 0} → List (Cqe A) → Outcome (List (Cqe A))
get_sqes sqes = if leb (length sqes) qd then ok sqes else fault

-- Phase 1: the requests, from slot `k` on.
unfoldable pub open_requests : (Bytes → ReadAnswers) → ℕ → List Bytes → List (Cqe Bytes)
open_requests kernel k [] = []
open_requests kernel k (f ∷ files) =
    record { user_data = k; res = if (kernel f).opens then some f else none }
    ∷ open_requests kernel (k + 1) files

-- `fds[k] = ...`
unfoldable pub set_fd : ℕ → Option Bytes → List (Option Bytes) → List (Option Bytes)
set_fd k fd [] = []
set_fd zero fd (x ∷ fds) = fd ∷ fds
set_fd (suc k) fd (x ∷ fds) = x ∷ set_fd k fd fds

unfoldable pub store_fds : List (Cqe Bytes) → List (Option Bytes) → Outcome (List (Option Bytes))
store_fds [] fds = ok fds
store_fds (c ∷ cqes) fds =
    let rest = store_fds cqes (set_fd c.user_data c.res fds) in
    if ltb c.user_data (length fds) then rest else fault

unfoldable pub reset_fds : ℕ → List (Option Bytes) → Outcome (List (Option Bytes))
reset_fds n fds = if leb n (length fds) then ok (replicate n none ++ drop n fds) else fault

-- Phase 2: a request for each of the `n` slots from `k` on that has a descriptor; its buffer lies
-- within `bufs`.
unfoldable pub read_requests :
    (Bytes → ReadAnswers) → List (Option Bytes) → ℕ → ℕ → Outcome (List (Cqe ℕ))
read_requests kernel fds k zero = ok []
read_requests kernel fds k (suc n) = read_requests kernel fds (k + 1) n >>= λ rest.
    elim (get_elem? fds k) [
      | none ↦ fault
      | some fd ↦ elim fd [
        | none ↦ ok rest
        | some f ↦
            if leb (k * bufsz + bufsz) (per * bufsz)
            then ok (record { user_data = k; res = (kernel f).read } ∷ rest)
            else fault
      ]
    ]

unfoldable pub add_reads : List (Cqe ℕ) → ℕ → ℕ
add_reads [] total = total
add_reads (c ∷ cqes) total = add_reads cqes (add_read c.res total)

-- The orders in which the requests of the batch at an index complete.
pub record Orders : Type 0 where
  pub opens : ℕ → List (Cqe Bytes) → List (Cqe Bytes)
  pub reads : ℕ → List (Cqe ℕ) → List (Cqe ℕ)

-- The three phases for a batch; phase 3 has as many requests as phase 2, and their completions are
-- only counted.
unfoldable pub batch :
    (Bytes → ReadAnswers)
    → Orders
    → ℕ
    → List Bytes
    → List (Option Bytes) × ℕ
    → Outcome (List (Option Bytes) × ℕ)
batch kernel o i files s = do
  opening ← get_sqes (open_requests kernel 0 files)
  cleared ← reset_fds (length files) s.0
  fds ← store_fds (o.opens i opening) cleared
  reading ← read_requests kernel fds 0 (length files)
  sqes ← get_sqes reading
  let total = if length sqes == 0 then s.1 else add_reads (o.reads i sqes) s.1
  ok (fds, total)

-- `while (i<nfiles)`
unfoldable pub uring_loop :
    ℕ
    → (Bytes → ReadAnswers)
    → Orders
    → List Bytes
    → ℕ
    → List (Option Bytes) × ℕ
    → Outcome (List (Option Bytes) × ℕ)
uring_loop zero kernel o files i s = out_of_fuel
uring_loop (suc f) kernel o files i s =
    let end = if ltb (i + per) (length files) then i + per else length files in
    let round =
      (batch kernel o i (take (end - i) (drop i files)) s >>= λ s'.
      uring_loop f kernel o files end s') in
    if ltb i (length files) then round else ok s

unfoldable pub uring_pass :
    (Bytes → ReadAnswers)
    → Orders
    → List Bytes
    → List (Option Bytes)
    → Outcome (List (Option Bytes) × ℕ)
uring_pass kernel o files fds = uring_loop (length files + 1) kernel o files 0 (fds, 0)

-- The timed loops of `main`, with the last total.
unfoldable pub sync_rounds : ℕ → (Bytes → ReadAnswers) → List Bytes → ℕ → ℕ
sync_rounds zero kernel files total = total
sync_rounds (suc n) kernel files total = sync_rounds n kernel files (sync_pass kernel files 0)

unfoldable pub uring_rounds :
    ℕ
    → (Bytes → ReadAnswers)
    → (ℕ → Orders)
    → List Bytes
    → List (Option Bytes) × ℕ
    → Outcome (List (Option Bytes) × ℕ)
uring_rounds zero kernel orders files s = ok s
uring_rounds (suc n) kernel orders files s = do
  s' ← uring_pass kernel (orders n) files s.0
  uring_rounds n kernel orders files s'

-- What is printed, without the times.
pub record Report : Type 0 where
  pub nfiles : ℕ
  pub sync_bytes : ℕ
  pub uring_bytes : ℕ

-- The exit status, with what is printed when it is 0.
pub data ProbeExit : Type 0 where
  usage_shown : ProbeExit
  queue_failed : ProbeExit
  reported : Report → ProbeExit

-- The warm-up of three passes (those of `sync_pass` have no effect that is kept), then the iterations.
unfoldable pub timed_passes :
    (Bytes → ReadAnswers)
    → (ℕ → Orders)
    → (ℕ → Orders)
    → List Bytes
    → ℕ
    → List (Option Bytes)
    → Outcome ProbeExit
timed_passes kernel warm orders files iters fds = do
  w ← uring_rounds 3 kernel warm files (fds, 0)
  u ← uring_rounds iters kernel orders files (w.0, 0)
  let s = sync_rounds iters kernel files 0
  ok (reported (record { nfiles = length files; sync_bytes = s; uring_bytes = u.1 }))

-- `main`: `args` has the path and the number of iterations (0 for a negative one), `queue_init` says
-- whether the ring is set up, and the descriptors are at first that of `stdin`, which is 0.
unfoldable pub probe_main :
    Option (Bytes × ℕ)
    → Directory
    → Bool
    → (Bytes → ReadAnswers)
    → (ℕ → Orders)
    → (ℕ → Orders)
    → Bytes
    → Outcome ProbeExit
probe_main none d queue_init kernel warm orders stdin = ok usage_shown
probe_main (some (path, iters)) d queue_init kernel warm orders stdin = do
  l ← collect path d (record { files = []; cap = 0 })
  let passes = timed_passes kernel warm orders l.files iters (replicate per (some stdin))
  if queue_init then passes else ok queue_failed
