-- ===== src/Lib.antt =====
-- asmgrep: the C and C++ versions of the grep replacement, modelled and verified.
--
-- The program searches files for a literal pattern and prints the lines that hold it. c/grep.c is
-- the tuned version. `prep_pattern` folds the pattern under -i and picks two rare bytes of it as
-- pivots; `fm_single` (by memchr) and `fm_two` (by AVX2, 32 bytes a round, and a scalar tail)
-- look for the pivots and `verify` candidates; `scan` skips binary files, and finds the line
-- around each match and hands it to `emit`, which collects lines in a buffer that `flush_ctx`
-- writes under a lock.
--
-- Files:
--   Base      shared names; `Outcome`, the result of code that reads memory and loops
--   Libc      memchr, memrchr and memcmp, and what a search for a first index answers
--   Pattern   c/grep.c, `freq`, `fold` and `prep_pattern`; the globals are the record `Pattern`
--   Simd      the intrinsics and bit operations that `fm_two` uses
--   Match     c/grep.c, `verify`, `find_a`, `fm_single` and `fm_two`
--   Output    c/grep.c, `Ctx`, `flush_ctx` and `emit`; the state is the record `State`
--   Lines     what should be printed, without buffers and indices
--   Scan      c/grep.c, `scan`
--   Std       c/grep_std.c, `search_file` and what it prints, and that it agrees with `scan`; Main
--             is `cb` and `main`
--   Args      both `main` functions as far as they read the command line
--   Answer    what a program leaves, and the answer that a command line and the files call for
--   Pool      c/grep.c, the queue of directories, `traverse` and `worker`, for any interleaving
--   LineLoop  the loop over matches that c/grep_std_mt.c and the programs of cpp/ share
--   Reading   c/grep.c and c/grep_std.c, how `search_file` gets the bytes of a file
--   Mt        c/grep_std_mt.c: `OB`, `ob_flush` and `ob_line`; `search_file` with its reused buffers;
--             how `main` lists the files, `worker` claims them, and what it does with each; Main is
--             the whole `main`
--   Threads   the loop of `worker` that c/grep_std_mt.c and the threaded programs of cpp/ share, with
--             what is written under the lock; `ThreadWork` is what each program fills in
--   Crew      c/grep.c, the threads of Pool with their buffers and what they write; Main is `main`
--   Cpp       cpp/grep_std.cpp (Std, Search, Agrees, CommandLine, Main), cpp/grep_mt.cpp (Collect,
--             Pool), cpp/grep_mt_tuned.cpp (Tuned), and the `main` of these two (Threads)
--   Probe     bench/iouring_probe.c, which reads the files below a directory one after the other and
--             by io_uring, and measures both; the completions of a batch come in any order
--   Tests     runs by evaluation, and the theorems at concrete inputs
--
-- Conventions. A byte is a number below 256, a text a list of bytes. A file's content is one
-- object `m`, a pointer into it is an index, and each read of it goes through `load`, which is a
-- `fault` outside the object; so a result that is `ok` was computed in bounds. Where the source
-- subtracts an offset from a pointer before it compares, the model compares sums instead. A loop
-- takes fuel, one more than the length of the text (33 for a mask of 32 bits, and in Probe one more
-- than the number of files), and a loop that used it up would be `out_of_fuel`: that the results are
-- `ok` shows that this does not happen. The output is the list of buffers that were handed to
-- `write` each time that the lock was held.
--
-- In Pool, Crew and Threads a thread's turn is one access to what the threads share (in Crew and
-- Threads also one time that the output lock is held), and a run is any sequence of turns. The file
-- system is a parameter, which gives the entries of a directory, and for a file what `open`, `read`,
-- `fread` and so on answer; a theorem about files that are read without errors says so with a
-- hypothesis on these answers (`Holds` and its like). What `realloc` leaves in new bytes is a
-- parameter too. A buffer that is reused is an object whose length is its capacity, and each store
-- to it is checked.
--
-- The theorems relate the programs with c/grep_std.c: `StdLines` says that some lines are those that
-- it prints for a file. That several threads write certain lines is said by counting, for every test
-- of lines, those that pass it.
--
-- A whole program is a function from the command line and the file system's answers to an `Exit`,
-- the bytes on the standard output and the exit status (`std_main`, `cpp_main`); a program with
-- threads is a relation between them, which holds of what is left by any order of the turns in which
-- all threads end (`GrepMain`, `MtMain`, `StreamMain`, `TunedMain`).
--
-- Not modelled: what happens inside `write` (errors and short writes, which the source ignores),
-- failing allocations, the walks over directories by nftw and std::filesystem (what they report is a
-- parameter), the message of `usage` on the standard error, and that of two paths one can change the
-- other: a file's answers are the same whenever it is asked. Of bench/iouring_probe.c the clock and
-- the times are left out, its totals do not wrap around, and a tree of directories is finite.
pub mod Base
pub mod Libc
pub mod Pattern
pub mod Simd
pub mod Match
pub mod Output
pub mod Lines
pub mod Scan
pub mod Std
pub mod Args
pub mod Answer
pub mod Pool
pub mod Mt
pub mod LineLoop
pub mod Reading
pub mod Threads
pub mod Crew
pub mod Cpp
pub mod Probe
mod Tests
