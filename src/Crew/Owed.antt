-- ===== src/Crew/Owed.antt =====
-- What a turn of a thread of c/grep.c does to the lines that it has still to write.
use asmgrep.Base.{
  ℕ, ◌+◌, ◌≡◌, refl, ap, sym, ◌∙◌, inl, inr, Bool, Option, none, some, List, [], ◌∷◌, ◌++◌, map,
  append-nil, flatten, arith, ◌==◌, Bool-cases, Bytes,
}
use asmgrep.Output.{State, flush_ctx, line_bytes, emit_all}
use asmgrep.Output.Room.{flush_ctx-obuf}
use asmgrep.Scan.Correct.{IsSetUp}
use asmgrep.Std.Lines.{file_lines}
use asmgrep.Reading.{search_file}
use asmgrep.Pool.{
  Shared, Action, descend, search, Worker, looking, starved, walking, exited, q_pop, take_up,
  q_push, turn,
}
use asmgrep.Pool.Accounts.{count, over}
use asmgrep.Threads.Ledger.{Tally}
use asmgrep.Threads.Owed.{first_group, no_group}
use asmgrep.Threads.Buffers.{HoldsLines}
use asmgrep.Crew.{Hand, hand, broken, Common, Setting, nothing_out, after_file, in_pool, hand_turn}
use asmgrep.Crew.Emitted.{
  FileReads, flagged, StatePasses-flush, StatePasses-file, search_file-read_lines, from_nothing_out,
}

-- What a thread keeps back; behind its loop nothing.
abbrev pub Keeps : Worker → State → List Bytes → Type 0
Keeps looking c held = HoldsLines held c.obuf
Keeps starved c held = HoldsLines held c.obuf
Keeps (walking todo) c held = HoldsLines held c.obuf
Keeps exited c held = held ≡ []

abbrev pub HandOwes : Hand → Tally → Type 0
HandOwes (hand w xs c) f =
    (groups : List (List Bytes)) × (held : List Bytes) × (map flatten groups ≡ xs)
    × Keeps w c held
    × ((p : Bytes → Bool) → f p ≡ count p (flatten groups) + count p held)
HandOwes (broken w) f = ⊥

pub q_pop-searched : (s : Shared) → (q_pop s).1.searched ≡ s.searched
unfolding q_pop
q_pop-searched s = by_dirs s.dirs
  where
    by_dirs :
        (ds : List Bytes)
        → ◌≡◌ {A = List Bytes}
            (elim ds as (λ _. Option Bytes × Shared) [
              | [] ↦ (none, s)
              | d ∷ ds' ↦ (some d, record s { dirs = ds' })
            ]).1.searched
            s.searched
    by_dirs [] = refl
    by_dirs (d ∷ ds) = refl

pub q_push-searched : (d : Bytes) (q : Shared) → (q_push d q).searched ≡ q.searched
unfolding q_push
q_push-searched d q = refl

take_up-kept :
    (actions : Bytes → List Action) (o : Option Bytes × Shared) (c : State) (held : List Bytes)
    → HoldsLines held c.obuf
    → Keeps (take_up actions o).0 c held × ((take_up actions o).1.searched ≡ o.1.searched)
unfolding take_up
take_up-kept actions (none, s) c held h = (h, refl)
take_up-kept actions (some d, s) c held h = (h, refl)

module _ (e : Setting) (pat : Bytes) (ci : Bool) (m : Bytes → Bytes) (set : IsSetUp pat ci e.g)
    (readable : (f : Bytes) → FileReads (m f) (e.files f)) where
  -- The lines of a file with their prefixes and newlines.
  abbrev pub lines_at : Bytes → List Bytes
  lines_at f = map (line_bytes e.multi f) (file_lines pat ci (m f))

  abbrev pub searched_lines : (Bytes → Bool) → List Bytes → ℕ
  searched_lines p fs = over (λ f. count p (lines_at f)) fs

  abbrev pub HandPaid : Tally → Common → Hand → Common → Type 0
  HandPaid f s h' s' =
      (groups : List (List Bytes)) × (f' : Tally) × (s'.written ≡ s.written ++ map flatten groups)
      × HandOwes h' f'
      × ((p : Bytes → Bool)
          → count p (flatten groups) + f' p + searched_lines p s.pool.searched
            ≡ f p + searched_lines p s'.pool.searched)

  -- Nothing is written, and no file is searched.
  quiet :
      (f : Tally) (s : Common) (w : Worker) (pool : Shared) (c : State) (held : List Bytes)
      → Keeps w c held
      → pool.searched ≡ s.pool.searched
      → ((p : Bytes → Bool) → f p ≡ count p (flatten []) + count p held)
      → HandPaid f s (hand w [] c) (record s { pool = pool })
  quiet f s w pool c held kept same tally = (
    [],
    f,
    sym (append-nil s.written),
    ([], held, refl, kept, tally),
    λ p. omega (arith, ap (searched_lines p) same),
  )

  flush-HandPaid :
      (f : Tally) (s : Common) (c : State) (held : List Bytes)
      → HoldsLines held c.obuf
      → ((p : Bytes → Bool) → f p ≡ count p (flatten []) + count p held)
      → HandPaid f s (hand exited (map flatten (flush_ctx (nothing_out c)).out) c) s
  flush-HandPaid f s c held h tally =
      let (groups, kept, written, (flat, solid), same) =
        from_nothing_out [] (nothing_out c) (flush_ctx (nothing_out c)) refl
          (StatePasses-flush (nothing_out c)) held h in
      let none_kept = solid (flat ∙ flush_ctx-obuf (nothing_out c)) in
      (
        [],
        f,
        sym (append-nil s.written),
        (groups, [], written, refl, λ p. omega (arith, tally p, same p, ap (count p) none_kept)),
        λ p. omega arith,
      )

  file-HandPaid :
      (f : Tally) (s : Common) (c : State) (held : List Bytes) (file : Bytes) (todo : List Action)
      → HoldsLines held c.obuf
      → ((p : Bytes → Bool) → f p ≡ count p (flatten []) + count p held)
      → HandPaid f s
          (after_file todo (search_file e.g e.multi file (e.files file) (nothing_out c)))
          (record s { pool = (turn e.actions (walking (search file ∷ todo)) s.pool).1 })
  unfolding after_file turn
  file-HandPaid f s c held file todo h tally =
      let t =
        emit_all e.multi file (file_lines pat ci (m file))
          (flagged (e.files file) (nothing_out c)) in
      let (groups, kept, written, kept_is, same) =
        from_nothing_out (lines_at file) (nothing_out c) t refl
          (StatePasses-file e.multi file (file_lines pat ci (m file)) (e.files file)
            (nothing_out c))
          held h in
      rw
        (search_file-read_lines pat ci e.multi file (m file) e.g set (nothing_out c) (e.files file)
          (readable file))
        (
          [],
          λ p. count p (flatten groups) + count p kept,
          sym (append-nil s.written),
          (groups, kept, written, kept_is, λ p. refl),
          λ p. omega (arith, tally p, same p),
        )

  pub hand_turn-HandPaid :
      (h : Hand) (s : Common) (f : Tally)
      → HandOwes h f
      → HandPaid f s (hand_turn e h s).0 (hand_turn e h s).1
  unfolding hand_turn in_pool turn
  hand_turn-HandPaid (hand w (x ∷ xs) c) s f (groups, held, written, kept, tally) =
      let (g, gs, this, others, split) = first_group groups x xs written in
      (
        g ∷ [],
        λ p. count p (flatten gs) + count p held,
        ap (λ y. s.written ++ y ∷ []) (sym this),
        (gs, held, others, kept, λ p. refl),
        λ p. omega (arith, tally p, split p, ap (count p) (append-nil g)),
      )
  hand_turn-HandPaid (hand w [] c) s f (g ∷ gs, held, written, kept, tally) =
      absurd (no_group (flatten g) (map flatten gs) (sym written))
  hand_turn-HandPaid (hand looking [] c) s f ([], held, written, kept, tally) =
      let (kept', same) = take_up-kept e.actions (q_pop s.pool) c held kept in
      quiet f s (turn e.actions looking s.pool).0 (turn e.actions looking s.pool).1 c held kept'
        (same ∙ q_pop-searched s.pool) tally
  hand_turn-HandPaid (hand starved [] c) s f ([], held, written, kept, tally) =
      elim (Bool-cases (s.pool.pending == 0)) [
        | inl none_left ↦ rw none_left (flush-HandPaid f s c held kept tally)
        | inr more ↦ rw more (quiet f s looking s.pool c held kept refl tally)
      ]
  hand_turn-HandPaid (hand (walking []) [] c) s f ([], held, written, kept, tally) =
      quiet f s looking (turn e.actions (walking []) s.pool).1 c held kept refl tally
  hand_turn-HandPaid (hand (walking (descend d ∷ todo)) [] c) s f ([], held, written, kept, tally) =
      quiet f s (walking todo) (turn e.actions (walking (descend d ∷ todo)) s.pool).1 c held kept
        (q_push-searched d s.pool) tally
  hand_turn-HandPaid (hand (walking (search file ∷ todo)) [] c) s f
        ([], held, written, kept, tally) =
      file-HandPaid f s c held file todo kept tally
  hand_turn-HandPaid (hand exited [] c) s f ([], held, written, kept, tally) =
      quiet f s exited s.pool c held kept refl tally
  hand_turn-HandPaid (broken w) s f o = absurd o
