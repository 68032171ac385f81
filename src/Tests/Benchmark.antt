-- ===== src/Tests/Benchmark.antt =====
-- bench/iouring_probe.c on a small tree, with completions that overtake each other.
use asmgrep.Base.{
  ◌≡◌, refl, true, false, none, some, List, [], ◌∷◌, ◌==◌, if◌then◌else◌, Bytes, length, replicate,
  ok, Returns,
}
use asmgrep.Pool.{dt_dir, dt_reg, dt_lnk, dt_unknown, s_reg, is_self_or_parent}
use asmgrep.Probe.{
  per, Directory, holds, no_entry, entry, child_path, ReadAnswers, sync_pass, Orders, uring_pass,
  reported, probe_main,
}
use asmgrep.Probe.Slots.{Shuffled, nil, cons, swap}
use asmgrep.Probe.Batch.{AnyOrder}
use asmgrep.Probe.SameBytes.{report, uring_pass-sync_pass, probe_main-report}
use asmgrep.Probe.Listed.{files_under}

-- The second completion comes before the first.
abbrev turned : {A : Type 0} → List A → List A
turned [] = []
turned (a ∷ []) = a ∷ []
turned (a ∷ b ∷ xs) = b ∷ a ∷ xs

turned-Shuffled : {A : Type 0} → (l : List A) → Shuffled l (turned l)
turned-Shuffled [] = nil
turned-Shuffled (a ∷ []) = cons nil
turned-Shuffled (a ∷ b ∷ xs) = swap

abbrev overtaking : Orders
overtaking = record { opens = λ i l. turned l; reads = λ i l. turned l }

overtaking-AnyOrder : AnyOrder overtaking
overtaking-AnyOrder = (λ i l. turned-Shuffled l, λ i l. turned-Shuffled l)

-- A directory with two files, a link, and a directory with a file.
abbrev inner : Directory
inner = holds (entry (b'b' ∷ []) dt_unknown (some s_reg) (holds no_entry) no_entry)

abbrev tree : Directory
tree = holds (
    entry (b'.' ∷ []) dt_dir none (holds no_entry) (
      entry (b'a' ∷ []) dt_reg none (holds no_entry) (
        entry (b'z' ∷ b'z' ∷ []) dt_reg none (holds no_entry) (
          entry (b's' ∷ []) dt_dir none inner
            (entry (b'l' ∷ []) dt_lnk none (holds no_entry) no_entry)))))

-- A file whose path has four bytes cannot be opened; the others have as many bytes as their path.
abbrev disk : Bytes → ReadAnswers
disk f = record { opens = if length f == 4 then false else true; read = some (length f) }

abbrev root : Bytes
root = b'd' ∷ []

abbrev listed : List Bytes
listed =
    (b'd' ∷ b'/' ∷ b'a' ∷ [])
    ∷ (b'd' ∷ b'/' ∷ b'z' ∷ b'z' ∷ [])
    ∷ (b'd' ∷ b'/' ∷ b's' ∷ b'/' ∷ b'b' ∷ [])
    ∷ []

files_under_test : files_under root tree ≡ listed
unfolding child_path is_self_or_parent
files_under_test = refl

uring_pass-sync_pass_example :
    Returns
      (uring_pass disk overtaking listed (replicate per (some [])))
      (λ r. (length r.0 ≡ per) × (r.1 ≡ sync_pass disk listed 0))
uring_pass-sync_pass_example =
    uring_pass-sync_pass disk overtaking overtaking-AnyOrder listed (replicate per (some [])) refl

probe_main-report_example :
    probe_main (some (root, 20)) tree true disk (λ n. overtaking) (λ n. overtaking) []
    ≡ ok (report disk (files_under root tree) 20)
probe_main-report_example =
    probe_main-report disk (λ n. overtaking) (λ n. overtaking) (λ n. overtaking-AnyOrder)
      (λ n. overtaking-AnyOrder) [] root 20 tree true

report_test :
    report disk listed 20 ≡ reported (record { nfiles = 3; sync_bytes = 8; uring_bytes = 8 })
report_test = refl
