-- ===== src/Probe/SameBytes.antt =====
-- Both passes of the benchmark read the same bytes.
use asmgrep.Base.{
  ℕ, zero, suc, ◌+◌, ◌-◌, ◌≤◌, ◌<◌, ◌≡◌, refl, ap, sym, ◌∙◌, inl, inr, Bool, true, false, ◌==◌,
  Bool-cases, Option, some, List, [], ◌∷◌, arith, ltb, ltb→lt, ltb→ge, if◌then◌else◌, Bytes, length,
  length-take, length-replicate, take, drop, take-append-drop, replicate, Outcome, ok, Returns,
  Returns-bind, Returns-mono, Returns-eq,
}
use asmgrep.Lines.Split.{drop-eq-nil, drop-drop}
use asmgrep.Pool.Accounts.{over}
use asmgrep.Pool.Reached.{over-cat}
use asmgrep.Mt.Collect.{no_files}
use asmgrep.Mt.Collect.Listed.{Lists}
use asmgrep.Probe.{
  per, Directory, ReadAnswers, add_read, sync_pass, Orders, batch, uring_loop, uring_pass,
  sync_rounds, uring_rounds, timed_passes, collect, ProbeExit, reported, queue_failed, probe_main,
}
use asmgrep.Probe.Gains.{add_read-gain}
use asmgrep.Probe.Batch.{got, AnyOrder, batch_lem}
use asmgrep.Probe.Listed.{files_under, collect-Lists}

module _ (kernel : Bytes → ReadAnswers) where
  -- What can be read of the files.
  abbrev readable : List Bytes → ℕ
  readable files = over (got kernel) files

  if_same : (b : Bool) (n : ℕ) → (if b then n else n) ≡ n
  if_same true n = refl
  if_same false n = refl

  sync_pass-readable :
      (files : List Bytes) (total : ℕ) → sync_pass kernel files total ≡ total + readable files
  unfolding sync_pass
  sync_pass-readable [] total = omega arith
  sync_pass-readable (f ∷ files) total = elim (Bool-cases (kernel f).opens) [
    | inl is_open ↦ rw is_open (
        omega (
          arith,
          sync_pass-readable files (add_read (kernel f).read total),
          add_read-gain (kernel f).read total,
        ))
    | inr closed ↦ rw closed (omega (arith, sync_pass-readable files total))
  ]

  -- What is left of the files at the end of a batch.
  readable-drop :
      (i n : ℕ) (files : List Bytes)
      → readable (drop i files) ≡ readable (take n (drop i files)) + readable (drop (i + n) files)
  readable-drop i n files =
      ap readable (sym (take-append-drop n (drop i files)))
      ∙ over-cat (got kernel) (take n (drop i files)) (drop n (drop i files))
      ∙ ap (λ r. readable (take n (drop i files)) + readable r) (drop-drop i n files)

  module _ (o : Orders) (any : AnyOrder o) (files : List Bytes) where
    abbrev end_of : ℕ → ℕ
    end_of i = if ltb (i + per) (length files) then i + per else length files

    end_of-bounds :
        (i : ℕ)
        → i < length files
        → (i < end_of i) × (end_of i ≤ i + per) × (end_of i ≤ length files)
    end_of-bounds i lt = elim (Bool-cases (ltb (i + per) (length files))) [
      | inl within ↦
          let room : i + per < length files = ltb→lt (i + per) (length files) within in
          rw within (omega arith, omega arith, omega arith)
      | inr last ↦
          let few : length files ≤ i + per = ltb→ge (i + per) (length files) last in
          rw last (lt, few, omega arith)
    ]

    uring_loop-readable :
        (f i : ℕ) (fds : List (Option Bytes)) (total : ℕ)
        → length files - i < f
        → length fds ≡ per
        → Returns
            (uring_loop f kernel o files i (fds, total))
            (λ r. (length r.0 ≡ per) × (r.1 ≡ total + readable (drop i files)))
    unfolding uring_loop
    uring_loop-readable zero i fds total fuel size = absurd (omega arith)
    uring_loop-readable (suc f) i fds total fuel size = elim (Bool-cases (ltb i (length files))) [
      | inr over_all ↦
          let past : length files ≤ i = ltb→ge i (length files) over_all in
          rw over_all (size, omega (arith, ap readable (drop-eq-nil i files past)))
      | inl more ↦
          let lt : i < length files = ltb→lt i (length files) more in
          let (after, step, within) = end_of-bounds i lt in
          let n = end_of i - i in
          let chunk = take n (drop i files) in
          let fits : length chunk ≤ per = omega (arith, length-take n (drop i files)) in
          let upto : i + n ≡ end_of i = omega arith in
          rw more (
            Returns-bind (batch kernel o i chunk (fds, total)) _
              (λ r. (length r.0 ≡ per) × (r.1 ≡ total + readable chunk)) _
              (batch_lem kernel o any i chunk fits total fds size)
              (λ r (same, sum).
                Returns-mono (uring_loop f kernel o files (end_of i) r) _ _
                  (uring_loop-readable f (end_of i) r.0 r.1 (omega arith) same)
                  (λ q (kept, all). (
                    kept,
                    omega (
                      arith,
                      all,
                      sum,
                      readable-drop i n files,
                      ap (λ k. readable (drop k files)) upto,
                    ),
                  ))))
    ]

    -- However the completions of each batch are ordered, and whatever descriptors an earlier pass has
    -- left: the pass with io_uring ends without storing or reading out of bounds, and its total is
    -- that of the pass without.
    pub uring_pass-sync_pass :
        (fds : List (Option Bytes))
        → length fds ≡ per
        → Returns
            (uring_pass kernel o files fds)
            (λ r. (length r.0 ≡ per) × (r.1 ≡ sync_pass kernel files 0))
    unfolding uring_pass
    uring_pass-sync_pass fds size =
        Returns-mono (uring_loop (length files + 1) kernel o files 0 (fds, 0)) _ _
          (uring_loop-readable (length files + 1) 0 fds 0 (omega arith) size)
          (λ r (kept, sum). (kept, omega (arith, sum, sync_pass-readable files 0)))

  uring_rounds-sync_rounds :
      (orders : ℕ → Orders)
      → ((n : ℕ) → AnyOrder (orders n))
      → (files : List Bytes) (n : ℕ) (fds : List (Option Bytes)) (total : ℕ) → length fds ≡ per
      → Returns
          (uring_rounds n kernel orders files (fds, total))
          (λ r. (length r.0 ≡ per) × (r.1 ≡ sync_rounds n kernel files total))
  unfolding uring_rounds sync_rounds
  uring_rounds-sync_rounds orders any files zero fds total size = (size, refl)
  uring_rounds-sync_rounds orders any files (suc n) fds total size =
      Returns-bind (uring_pass kernel (orders n) files fds) _
        (λ r. (length r.0 ≡ per) × (r.1 ≡ sync_pass kernel files 0)) _
        (uring_pass-sync_pass (orders n) (any n) files fds size)
        (λ r (same, sum).
          Returns-mono (uring_rounds n kernel orders files r) _ _
            (uring_rounds-sync_rounds orders any files n r.0 r.1 same)
            (λ q (kept, total'). (kept, total' ∙ ap (sync_rounds n kernel files) sum)))

  sync_rounds-readable :
      (files : List Bytes) (n total : ℕ)
      → sync_rounds n kernel files total ≡ (if n == 0 then total else readable files)
  unfolding sync_rounds
  sync_rounds-readable files zero total = refl
  sync_rounds-readable files (suc n) total =
      let again = sync_pass kernel files 0 in
      let once : again ≡ readable files = omega (arith, sync_pass-readable files 0) in
      let some_round : (suc n == 0) ≡ false = ground arith in
      sync_rounds-readable files n again
      ∙ ap (λ b. if n == 0 then b else readable files) once
      ∙ if_same (n == 0) (readable files)
      ∙ ap (λ b. if b then total else readable files) (sym some_round)

  -- What the benchmark reports: both passes have read the same bytes.
  abbrev pub report : List Bytes → ℕ → ProbeExit
  report files iters =
      let total = if iters == 0 then 0 else readable files in
      reported (record { nfiles = length files; sync_bytes = total; uring_bytes = total })

  module _ (warm orders : ℕ → Orders) (any_warm : (n : ℕ) → AnyOrder (warm n))
      (any : (n : ℕ) → AnyOrder (orders n)) (stdin : Bytes) where
    passes-report :
        (files : List Bytes) (iters : ℕ)
        → Returns
            (timed_passes kernel warm orders files iters (replicate per (some stdin)))
            (λ x. x ≡ report files iters)
    unfolding timed_passes
    passes-report files iters =
        let stdins = replicate per (some stdin) in
        let total = sync_rounds-readable files iters 0 in
        Returns-bind (uring_rounds 3 kernel warm files (stdins, 0)) _
          (λ w. (length w.0 ≡ per) × (w.1 ≡ sync_rounds 3 kernel files 0)) _
          (uring_rounds-sync_rounds warm any_warm files 3 stdins 0
            (length-replicate per (some stdin)))
          (λ w (size, warmed).
            Returns-bind (uring_rounds iters kernel orders files (w.0, 0)) _
              (λ u. (length u.0 ≡ per) × (u.1 ≡ sync_rounds iters kernel files 0)) _
              (uring_rounds-sync_rounds orders any files iters w.0 0 size)
              (λ u (kept, sum).
                let both : ℕ → ℕ → ProbeExit = λ a b.
                  reported (record { nfiles = length files; sync_bytes = a; uring_bytes = b }) in
                ap (both (sync_rounds iters kernel files 0)) (sum ∙ total)
                ∙ ap (λ a. both a (if iters == 0 then 0 else readable files)) total))

    -- The whole benchmark, for a directory of any shape and any orders of completion: it ends without
    -- storing or reading out of bounds. If the ring cannot be set up it says so; otherwise it reports
    -- the number of files below the directory, and for both passes the same number of bytes, which is
    -- what can be read of those files, or 0 without an iteration.
    pub probe_main-report :
        (path : Bytes) (iters : ℕ) (d : Directory) (queue_init : Bool)
        → probe_main (some (path, iters)) d queue_init kernel warm orders stdin
          ≡ ok (if queue_init then report (files_under path d) iters else queue_failed)
    unfolding probe_main
    probe_main-report path iters d queue_init =
        Returns-eq (probe_main (some (path, iters)) d queue_init kernel warm orders stdin)
          (if queue_init then report (files_under path d) iters else queue_failed)
          (Returns-bind (collect path d no_files) _ (Lists (files_under path d) no_files) _
            (collect-Lists path d no_files (omega arith))
            (λ l (listed, _). rw listed (
              by_queue (timed_passes kernel warm orders (files_under path d) iters stdins)
                (report (files_under path d) iters) queue_init
                (passes-report (files_under path d) iters))))
      where
        stdins : List (Option Bytes)
        stdins = replicate per (some stdin)

        by_queue :
            (run : Outcome ProbeExit) (x : ProbeExit) (b : Bool)
            → Returns run (λ y. y ≡ x)
            → Returns
                (if b then run else ok queue_failed)
                (λ y. y ≡ (if b then x else queue_failed))
        by_queue run x true h = h
        by_queue run x false h = refl
