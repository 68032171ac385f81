-- ===== src/Mt/Collect.antt =====
-- c/grep_std_mt.c: how `main` and `collect_cb` collect the list of files. What `stat` and `nftw`
-- answer is a parameter.
pub mod Listed
use asmgrep.Base.{
  ℕ, zero, suc, ◌+◌, Bool, Option, none, some, List, [], ◌∷◌, ◌++◌, if◌then◌else◌, Bytes, Outcome,
  ok, fault, ◌>>=◌, ltb,
}
use asmgrep.Pool.{count_paths, grown, Mode, s_dir, s_reg, s_other}

-- `g_files` with its length `g_nfiles`, and `g_cap`.
pub record FileList : Type 0 where
  pub files : List Bytes
  pub cap : ℕ

-- The growing of the array and the store, which is a fault behind its end; `collect_cb` and `main`
-- have the same.
unfoldable pub add_file : Bytes → FileList → Outcome FileList
add_file path s =
    let cap = grown (count_paths s.files) s.cap in
    if ltb (count_paths s.files) cap
    then ok (record { files = s.files ++ path ∷ []; cap = cap })
    else fault

-- What `nftw` says of an entry: its path, and whether its type is `FTW_F`.
pub record Entry : Type 0 where
  pub path : Bytes
  pub is_ftw_f : Bool

unfoldable pub collect_cb : Entry → FileList → Outcome FileList
collect_cb e s = if e.is_ftw_f then add_file e.path s else ok s

-- The calls of `collect_cb` that `nftw` makes, one after the other.
unfoldable pub collect_walk : List Entry → FileList → Outcome FileList
collect_walk [] s = ok s
collect_walk (e ∷ es) s = do s' ← collect_cb e s; collect_walk es s'

-- The loop over the paths; `walk` has the entries of a directory.
unfoldable pub add_path :
    Bool → (Bytes → List Entry) → Bytes → Option Mode → FileList → Outcome FileList
add_path r walk a none s = ok s
add_path r walk a (some s_dir) s = if r then collect_walk (walk a) s else ok s
add_path r walk a (some s_reg) s = add_file a s
add_path r walk a (some s_other) s = ok s

unfoldable pub add_paths :
    Bool → (Bytes → List Entry) → (Bytes → Option Mode) → List Bytes → FileList → Outcome FileList
add_paths r walk stat [] s = ok s
add_paths r walk stat (a ∷ paths) s = do
  s' ← add_path r walk a (stat a) s
  add_paths r walk stat paths s'

-- `g_files` at the start.
abbrev pub no_files : FileList
no_files = record { files = []; cap = 0 }
