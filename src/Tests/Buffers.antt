-- ===== src/Tests/Buffers.antt =====
-- The theorems about the buffers and the threads of c/grep_std_mt.c, at concrete inputs.
use asmgrep.Base.{ℕ, ◌≤◌, ◌≡◌, refl, true, List, [], ◌∷◌, arith, Bytes, length}
use asmgrep.Std.{settings, nothing_printed, print_lines}
use asmgrep.Mt.{ob_size, ob_flush, ob_line, ob_lines, empty_ob}
use asmgrep.Mt.InOrder.{ob_stream, ob_lines-print_lines, ob_line-fits}
use asmgrep.Mt.Claims.{
  claiming, searching, gone, Files, claim_turn, claimers, Reaches, begin, then_turn,
}
use asmgrep.Mt.Claims.EachOnce.{times, all_gone-once}
use asmgrep.Tests.Runs.{bytes_of}

abbrev file_name : Bytes
file_name = bytes_of "c.txt"

abbrev some_lines : List Bytes
some_lines = bytes_of "an Error" ∷ [] ∷ bytes_of "ERROR" ∷ []

ob_lines-print_lines_example :
    ob_stream (ob_flush (ob_lines true file_name some_lines empty_ob))
    ≡ (print_lines
        (settings (bytes_of "error") true true)
        file_name
        some_lines
        nothing_printed).stdout
ob_lines-print_lines_example =
    ob_lines-print_lines (bytes_of "error") true true file_name some_lines

ob_line-fits_example : length (ob_line true file_name (bytes_of "an Error") empty_ob).ob ≤ ob_size
ob_line-fits_example = ob_line-fits true file_name (bytes_of "an Error") empty_ob (omega arith)

-- One thread and one file: the thread claims it, searches it and finds no other.
abbrev files : ℕ → List ℕ → Files
files idx searched = record { idx = idx; searched = searched }

one_file_done : Reaches 1 1 (gone ∷ []) (files 2 (0 ∷ []))
unfolding claimers claim_turn
one_file_done =
    let claimed : Reaches 1 1 (searching 0 ∷ []) (files 1 []) =
      then_turn [] [] claiming (files 0 []) begin in
    let done : Reaches 1 1 (claiming ∷ []) (files 1 (0 ∷ [])) =
      then_turn [] [] (searching 0) (files 1 []) claimed in
    then_turn [] [] claiming (files 1 (0 ∷ [])) done

all_gone-once_example : times 0 (files 2 (0 ∷ [])).searched ≡ 1
all_gone-once_example = all_gone-once 1 1 0 gone [] (files 2 (0 ∷ [])) one_file_done refl
