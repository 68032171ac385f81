-- ===== src/Crew/Main/Lines.antt =====
-- A run of c/grep.c prints the lines of the answer that is expected, in some order.
use mathlib.Core.Path.{subst}
use asmgrep.Base.{
  ℕ, suc, ◌-◌, ◌≡◌, ◌≢◌, refl, ap, sym, ◌∙◌, inl, inr, Bool, true, false, ◌||◌, ◌==◌, ==_iff, ==→ne,
  Bool-cases, Option, none, some, List, [], ◌∷◌, ◌++◌, map, flatten, arith, if◌then◌else◌, Bytes,
  length, Outcome, ok, ◌>>=◌, Returns,
}
use asmgrep.Args.{Setup, std_setup}
use asmgrep.Args.Accepted.{
  reading, counted, counted_option, std_setup-reading, grep_setup-reading, pass2-paths,
}
use asmgrep.Args.Reading.{act_all}
use asmgrep.Pattern.{Pattern}
use asmgrep.Output.{State, flush_ctx, initial}
use asmgrep.Scan.Correct.{Fits, IsSetUp, prep_pattern-IsSetUp, IsOneLine}
use asmgrep.Std.Lines.{file_lines}
use asmgrep.Reading.{fail}
use asmgrep.Reading.Failures.{reported}
use asmgrep.Pool.{Mode, count_paths, push_all, untouched}
use asmgrep.Pool.Accounts.{count, over}
use asmgrep.Pool.Reached.{any_file, count-cat}
use asmgrep.Mt.Collect.{Entry}
use asmgrep.Threads.Main.{thread_count, thread_count-pos}
use asmgrep.Mt.Search.Agrees.{flag_after}
use asmgrep.Answer.{Exit, bind_assoc, bind_ok}
use asmgrep.Answer.Expected.{lines_with, answer-with, answer_lines-with}
use asmgrep.Pool.{looking}
use asmgrep.Crew.{
  Hand, hand, Common, Setting, visit_root, visit_roots, fresh_hands, hands, hand_turn, Works, begin,
  then_turn,
}
use asmgrep.Crew.Emitted.{FileReads}
use asmgrep.Crew.Flags.{any_hand, Works-any_hand}
use asmgrep.Crew.RootFlags.{is_missing, matched-Adds, err-Adds, visit_roots-flags}
use asmgrep.Crew.Roots.{root_files, root_dirs}
use asmgrep.Crew.Written.{unfinished, roots-Visited, Works-file_lines, flush_ctx-file_lines}
use asmgrep.Crew.Main.{GrepFiles, setting, visit, grep_exit, GrepEnds, GrepRun, GrepMain}
use asmgrep.Crew.Main.Ended.{failed, GrepAnswer, or_none, Ended-GrepAnswer}
use asmgrep.Crew.Main.Files.{below, SameTree, files_of-roots, searched-below, push_all-pending}

-- Pass 2 visits the paths.
act_all-visit :
    (e : Setting) (r : Bool) (stat : Bytes → Option Mode) (paths : List Bytes)
    (o : Outcome (State × List Bytes))
    → act_all (visit e r stat) paths o ≡ (o >>= visit_roots e r stat paths)
unfolding visit visit_roots
act_all-visit e r stat [] o = sym (bind_ok o)
act_all-visit e r stat (a ∷ paths) o =
    act_all-visit e r stat paths (o >>= visit_root e r (stat a) a)
    ∙ bind_assoc o (visit_root e r (stat a) a) (visit_roots e r stat paths)

flush_ctx-flags : (c : State) → ((flush_ctx c).err ≡ c.err) × ((flush_ctx c).matched ≡ c.matched)
unfolding flush_ctx
flush_ctx-flags c = elim (Bool-cases (length c.obuf == 0)) [
  | inl none_held ↦ rw none_held (refl, refl)
  | inr held ↦ rw held (refl, refl)
]

hand_there : (before : List Hand) (h : Hand) (after : List Hand) → before ++ h ∷ after ≢ []
hand_there [] h after q = absurd (cc)
hand_there (v ∷ before) h after q = absurd (cc)

Works-some_hand :
    (e : Setting) (c : State) (n : ℕ) (roots : List Bytes) {hs : List Hand} {s : Common}
    → Works e c (suc n) roots hs s
    → hs ≢ []
unfolding hands
Works-some_hand e c n roots begin = hand_there [] (hand looking [] c) (fresh_hands n)
Works-some_hand e c n roots (then_turn before after h s r) =
    hand_there before (hand_turn e h s).0 after

module _ (m : Bytes → Bytes) (fs : GrepFiles) (walk : Bytes → List Entry)
    (readable : (f : Bytes) → FileReads (m f) (fs.file f)) (same : SameTree walk fs.listing)
    (s : Setup (List Bytes)) (g : Pattern) (set : IsSetUp s.pat s.flags.i g) where
  abbrev e : Setting
  e = setting fs g (counted s)

  abbrev root : List Bytes
  root = root_files fs.stat s.paths

  abbrev dirs : List Bytes
  dirs = root_dirs s.flags.r fs.stat s.paths

  abbrev has : Bytes → Bool
  has f = flag_after (file_lines s.pat s.flags.i (m f)) false

  abbrev fails : Bytes → Bool
  fails f = reported (fs.file f)

  abbrev no_stat : Bool
  no_stat = any_file (λ (a : Bytes). is_missing (fs.stat a)) s.paths

  module _ (c : State) (roots : List Bytes)
      (pass2 : visit_roots e s.flags.r fs.stat s.paths (initial, []) ≡ ok (c, roots)) where
    left :
        (Q : State × List Bytes → Type 0)
        → Returns (visit_roots e s.flags.r fs.stat s.paths (initial, [])) Q
        → Q (c, roots)
    left Q h = subst (λ o. Returns o Q) pass2 h

    err_left : c.err ≡ (no_stat || any_file fails root)
    err_left = left _ (
        visit_roots-flags e (λ x. x.err) fails (err-Adds e s.pat s.flags.i m set readable) fs.stat
          true (λ x. err_fail x) s.flags.r s.paths refl)
      where
        err_fail : (x : State) → (fail x).err ≡ true
        err_fail x = unfold fail in refl

    matched_left : c.matched ≡ any_file has root
    matched_left = left _ (
        visit_roots-flags e (λ x. x.matched) has (matched-Adds e s.pat s.flags.i m set readable)
          fs.stat false (λ x. matched_fail x) s.flags.r s.paths refl)
      where
        matched_fail : (x : State) → (fail x).matched ≡ x.matched
        matched_fail x = unfold fail in refl

    roots_left : roots ≡ dirs
    roots_left =
        (roots-Visited e s.pat s.flags.i m set readable s.flags.r fs.stat s.paths c roots pass2).1

    no_roots : ((push_all roots untouched).pending == 0) ≡ true → dirs ≡ []
    no_roots z = none_of dirs (
        omega
          (arith, (==_iff _ _).0 z, push_all-pending roots untouched, ap count_paths roots_left))
      where
        none_of : (ds : List Bytes) → count_paths ds ≡ 0 → ds ≡ []
        none_of [] e = refl
        none_of (d ∷ ds) e = absurd (omega arith)

    -- No directory was pushed.
    flush-answer :
        (nt : ℕ) (ex : Exit)
        → ((push_all roots untouched).pending == 0) ≡ true
        → GrepEnds e nt (c, roots) true ex
        → GrepAnswer file_lines fs walk m (some s) ex
    unfolding GrepEnds
    flush-answer nt ex z is =
        let (groups, wrote, lines) =
          flush_ctx-file_lines e s.pat s.flags.i m set readable s.flags.r fs.stat s.paths c roots
            pass2 in
        let (err_kept, matched_kept) = flush_ctx-flags c in
        Ended-GrepAnswer m fs walk s [] (map flatten (flush_ctx c).out) (flush_ctx c).err
          (flush_ctx c).matched ex
          (λ q. omega (
            arith,
            count-cat q root [],
            files_of-roots walk fs.stat s.flags.r s.paths q,
            ap (over (below walk q)) (no_roots z),
          ))
          (
            groups,
            wrote,
            λ p. omega (arith, lines p),
            err_kept ∙ err_left ∙ or_none (no_stat || any_file fails root),
            matched_kept ∙ matched_left ∙ or_none (any_file has root),
          )
          is

    -- Some directory was pushed, and the threads have ended.
    Works-answer :
        (n : ℕ) (h : Hand) (hs : List Hand) (sh : Common) (ex : Exit)
        → ((push_all roots untouched).pending == 0) ≡ false
        → Works e c (suc n) roots (h ∷ hs) sh
        → unfinished (h ∷ hs) ≡ 0
        → ex
          ≡ grep_exit sh.written
              (any_hand (λ c. c.err) (h ∷ hs))
              (any_hand (λ c. c.matched) (h ∷ hs))
        → GrepAnswer file_lines fs walk m (some s) ex
    Works-answer n h hs sh ex nz works ended is =
        let (groups, wrote, lines, searched, taken) =
          Works-file_lines e s.pat s.flags.i m set readable s.flags.r fs.stat s.paths c roots pass2
            n h hs sh works ended in
        let some_dir : count_paths dirs ≢ 0 = λ none_left.
          ==→ne _ _ nz (
            omega
              (arith, none_left, push_all-pending roots untouched, ap count_paths roots_left)) in
        let reached =
          searched-below walk fs.stat fs.listing s.flags.r s.paths sh.pool.taken same some_dir
            taken in
        Ended-GrepAnswer m fs walk s sh.pool.searched sh.written (any_hand (λ c. c.err) (h ∷ hs))
          (any_hand (λ c. c.matched) (h ∷ hs)) ex
          (λ q. omega (
            arith,
            count-cat q root sh.pool.searched,
            files_of-roots walk fs.stat s.flags.r s.paths q,
            searched q,
            reached q,
          ))
          (
            groups,
            wrote,
            lines,
            Works-any_hand e (λ c. c.err) fails (err-Adds e s.pat s.flags.i m set readable)
                  (λ c. refl) refl c n roots works
                ∙ ap (λ b. b || any_file fails sh.pool.searched) err_left,
            Works-any_hand e (λ c. c.matched) has (matched-Adds e s.pat s.flags.i m set readable)
                  (λ c. refl) refl c n roots works
                ∙ ap (λ b. b || any_file has sh.pool.searched) matched_left,
          )
          is

    GrepEnds-answer :
        (cores : ℕ) (ex : Exit)
        → GrepEnds e (thread_count cores) (c, roots) ((push_all roots untouched).pending == 0) ex
        → GrepAnswer file_lines fs walk m (some s) ex
    GrepEnds-answer cores ex at_end = elim (Bool-cases ((push_all roots untouched).pending == 0)) [
      | inl z ↦
          flush-answer (thread_count cores) ex z
            (subst (λ b. GrepEnds e (thread_count cores) (c, roots) b ex) z at_end)
      | inr nz ↦ joined nz (subst (λ b. GrepEnds e (thread_count cores) (c, roots) b ex) nz at_end)
    ]
      where
        by_hands :
            (hs : List Hand) (sh : Common) (n : ℕ)
            → Works e c (suc n) roots hs sh
            → unfinished hs ≡ 0
            → ex ≡ grep_exit sh.written (any_hand (λ c. c.err) hs) (any_hand (λ c. c.matched) hs)
            → ((push_all roots untouched).pending == 0) ≡ false
            → GrepAnswer file_lines fs walk m (some s) ex
        by_hands [] sh n works ended is nz = absurd (Works-some_hand e c n roots works refl)
        by_hands (h ∷ hs) sh n works ended is nz = Works-answer n h hs sh ex nz works ended is

        joined :
            ((push_all roots untouched).pending == 0) ≡ false
            → GrepEnds e (thread_count cores) (c, roots) false ex
            → GrepAnswer file_lines fs walk m (some s) ex
        joined nz ends =
            unfold GrepEnds in
            (let (hs, sh, works, ended, is) = ends in
              let n = thread_count cores - 1 in
              let count_is : thread_count cores ≡ suc n = omega (arith, thread_count-pos cores) in
              by_hands hs sh n (subst (λ k. Works e c k roots hs sh) count_is works) ended is nz)

module _ (m : Bytes → Bytes) (fs : GrepFiles) (walk : Bytes → List Entry)
    (readable : (f : Bytes) → FileReads (m f) (fs.file f)) (same : SameTree walk fs.listing)
    (cores : ℕ) (argv : List Bytes) (ex : Exit) where
  run-answer :
      (o : Option (Setup (List Bytes)))
      → std_setup argv ≡ o
      → ((s : Setup (List Bytes)) → o ≡ some s → Fits s.pat s.flags.i)
      → GrepRun fs cores argv (counted_option o) ex
      → GrepAnswer file_lines fs walk m o ex
  unfolding GrepRun
  run-answer none started fits left =
      ([], sym (ap (λ (x : Exit). x.stdout) left), λ p. refl, ap (λ (x : Exit). x.status) left)
  run-answer (some s) started fits (g, prepared, (c, roots), visits, ends) =
      let set : IsSetUp s.pat s.flags.i g =
        subst (λ o. Returns o (IsSetUp s.pat s.flags.i)) prepared
          (prep_pattern-IsSetUp s.pat s.flags.i (fits s refl)) in
      let e = setting fs g (counted s) in
      let visits' =
        sym (
          pass2-paths (visit e s.flags.r fs.stat) argv s (ok (initial, [])) started
          ∙ act_all-visit e s.flags.r fs.stat s.paths (ok (initial, [])))
        ∙ visits in
      GrepEnds-answer m fs walk readable same s g set c roots visits' cores ex ends

  -- For every command line whose pattern has no newline (and under -i at most 65536 bytes), files
  -- that are read without errors or that cannot be opened or read and count as empty, every number
  -- of processors, and whatever order the threads take their turns in, when `readdir` and `nftw`
  -- show the same tree: what a run of c/grep.c leaves when its threads have ended is the answer that
  -- is expected of the command line, with the printed lines, whole, in some order. Its status is 2
  -- without an accepted pattern and path, and if a path has no `stat` or a file could not be opened
  -- or read; otherwise it is 0 if there is such a line and 1 if not.
  pub GrepMain-answer :
      ((s : Setup (List Bytes)) → reading argv ≡ some s → Fits s.pat s.flags.i × IsOneLine s.pat)
      → GrepMain fs cores argv ex
      → GrepAnswer lines_with fs walk m (reading argv) ex
  unfolding GrepMain
  GrepMain-answer plain left =
      let (printed, bytes, lines, status) =
        run-answer (reading argv) (std_setup-reading argv) (λ s e. (plain s e).0)
          (subst (λ o. GrepRun fs cores argv o ex) (grep_setup-reading argv) left) in
      (
        printed,
        bytes,
        λ p.
            lines p
            ∙ ap (count p) (answer_lines-with walk fs.stat m (reading argv) (λ s e. (plain s e).1)),
        status
            ∙ ap (λ (x : Exit). if failed fs walk (reading argv) then 2 else x.status)
                (answer-with walk fs.stat m (reading argv) (λ s e. (plain s e).1)),
      )
