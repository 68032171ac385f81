-- ===== src/Probe/Batch.antt =====
-- A batch reads what the pass without io_uring reads.
use asmgrep.Base.{
  ℕ, suc, ◌+◌, ◌*◌, ◌≤◌, ◌<◌, ◌≡◌, refl, ap, sym, ◌∙◌, inl, inr, true, false, ◌==◌, Bool-cases,
  Option, none, some, List, [], ◌∷◌, arith, leb, le→leb, All, if◌then◌else◌, Bytes, length,
  length-append, length-drop, length-replicate, get_elem?, get_or, get_elem?-eq-get_or, drop,
  replicate, ok, fault, Returns, Returns-bind,
}
use asmgrep.Pool.Accounts.{over}
use asmgrep.Probe.{
  bufsz, qd, per, ReadAnswers, Cqe, get_sqes, open_requests, store_fds, reset_fds, read_requests,
  add_reads, Orders, batch,
}
use asmgrep.Probe.Gains.{gain, gains, add_reads-gains, gains-Shuffled}
use asmgrep.Probe.Slots.{
  Shuffled, All-Shuffled, has_slot, has_slot-Shuffled, IsAnswer, Stored, store_fds-Stored,
}

get_sqes_lem : {A : Type 0} (sqes : List (Cqe A)) → length sqes ≤ qd → get_sqes sqes ≡ ok sqes
unfolding get_sqes
get_sqes_lem sqes h = rw (le→leb (length sqes) qd h) refl

-- Each batch's completions are its requests in some order.
abbrev pub AnyOrder : Orders → Type 0
AnyOrder o =
    ((i : ℕ) (l : List (Cqe Bytes)) → Shuffled l (o.opens i l))
    × ((i : ℕ) (l : List (Cqe ℕ)) → Shuffled l (o.reads i l))

module _ (kernel : Bytes → ReadAnswers) where
  abbrev opened : Bytes → Option Bytes
  opened f = if (kernel f).opens then some f else none

  -- What a file adds to a total.
  abbrev pub got : Bytes → ℕ
  got f = if (kernel f).opens then gain (kernel f).read else 0

  length-open_requests :
      (k : ℕ) (files : List Bytes) → length (open_requests kernel k files) ≡ length files
  unfolding open_requests
  length-open_requests k [] = refl
  length-open_requests k (f ∷ files) = ap suc (length-open_requests (k + 1) files)

  open_requests-IsAnswer :
      (answers : ℕ → Option Bytes) (n k : ℕ) (files : List Bytes)
      → k + length files ≤ n
      → ((i : ℕ) → i < length files → opened (get_or files i []) ≡ answers (k + i))
      → All (IsAnswer answers n) (open_requests kernel k files)
  unfolding open_requests
  open_requests-IsAnswer answers n k [] le h = tt
  open_requests-IsAnswer answers n k (f ∷ files) le h = (
    (omega arith, h 0 (omega arith) ∙ ap answers (omega arith)),
    open_requests-IsAnswer answers n (k + 1) files (omega arith)
        (λ i lt. h (suc i) (omega arith) ∙ ap answers (omega arith)),
  )

  has_slot-open_requests :
      (k j : ℕ) (files : List Bytes)
      → k ≤ j
      → j < k + length files
      → has_slot j (open_requests kernel k files) ≡ true
  unfolding open_requests
  has_slot-open_requests k j [] le lt = absurd (omega arith)
  has_slot-open_requests k j (f ∷ files) le lt = elim (Bool-cases (k == j)) [
    | inl here ↦ rw here refl
    | inr later ↦
        let ne : k + 1 ≤ j = ground arith in
        rw later (has_slot-open_requests (k + 1) j files ne (omega arith))
  ]

  read_requests-gains :
      (fds : List (Option Bytes)) (k : ℕ) (files : List Bytes)
      → k + length files ≤ per
      → ((i : ℕ) → i < length files → get_elem? fds (k + i) ≡ some (opened (get_or files i [])))
      → Returns
          (read_requests kernel fds k (length files))
          (λ l. (length l ≤ length files) × (gains l ≡ over got files))
  unfolding read_requests
  read_requests-gains fds k [] le h = (omega arith, refl)
  read_requests-gains fds k (f ∷ files) le h =
      Returns-bind (read_requests kernel fds (k + 1) (length files)) _
        (λ l. (length l ≤ length files) × (gains l ≡ over got files)) _
        (read_requests-gains fds (k + 1) files (omega arith)
          (λ i lt. ap (get_elem? fds) (omega arith) ∙ h (suc i) (omega arith)))
        (λ l (fewer, sum).
          let here : get_elem? fds k ≡ some (opened f) =
            ap (get_elem? fds) (omega arith) ∙ h 0 (omega arith) in
          rw here (one l fewer sum))
    where
      one :
          (l : List (Cqe ℕ))
          → length l ≤ length files
          → gains l ≡ over got files
          → Returns
              (elim (opened f) [
                | none ↦ ok l
                | some f ↦
                    if leb (k * bufsz + bufsz) (per * bufsz)
                    then ok (record { user_data = k; res = (kernel f).read } ∷ l)
                    else fault
              ])
              (λ l. (length l ≤ suc (length files)) × (gains l ≡ got f + over got files))
      one l fewer sum = elim (Bool-cases (kernel f).opens) [
        | inr closed ↦ rw closed (omega arith, omega arith)
        | inl is_open ↦
            let inside : leb (k * bufsz + bufsz) (per * bufsz) ≡ true =
              le→leb (k * bufsz + bufsz) (per * bufsz) (omega arith) in
            rw is_open (rw inside (omega arith, omega arith))
      ]

  reset_fds_lem :
      (n : ℕ) (fds : List (Option Bytes))
      → n ≤ length fds
      → Returns (reset_fds n fds) (λ fds'. length fds' ≡ length fds)
  unfolding reset_fds
  reset_fds_lem n fds le =
      let no_fd : Option Bytes = none in
      rw (le→leb n (length fds) le) (
        omega (
          arith,
          length-append (replicate n no_fd) (drop n fds),
          length-replicate n no_fd,
          length-drop n fds,
        ))

  module _ (o : Orders) (any : AnyOrder o) (i : ℕ) (files : List Bytes) (le : length files ≤ per)
      (total : ℕ) where
    abbrev answers : ℕ → Option Bytes
    answers k = opened (get_or files k [])

    abbrev opens : List (Cqe Bytes)
    opens = o.opens i (open_requests kernel 0 files)

    opens-IsAnswer : All (IsAnswer answers (length files)) opens
    opens-IsAnswer =
        All-Shuffled (IsAnswer answers (length files)) (any.0 i (open_requests kernel 0 files)) (
          open_requests-IsAnswer answers (length files) 0 files (omega arith)
            (λ j lt. ap answers (omega arith)))

    opens-has_slot : (j : ℕ) → j < length files → has_slot j opens ≡ true
    opens-has_slot j lt =
        sym (has_slot-Shuffled j (any.0 i (open_requests kernel 0 files)))
        ∙ has_slot-open_requests 0 j files (omega arith) (omega arith)

    fds-slot :
        (cleared fds : List (Option Bytes)) (j : ℕ)
        → length cleared ≡ per
        → Stored answers (length files) opens cleared fds
        → j < length files
        → get_elem? fds (0 + j) ≡ some (answers j)
    fds-slot cleared fds j size (same, at_slot) lt =
        let zero_j : 0 + j ≡ j = omega arith in
        ap (get_elem? fds) zero_j
        ∙ get_elem?-eq-get_or fds j none (omega arith)
        ∙ ap some (at_slot j)
        ∙ ap (λ b. some (if b then answers j else get_or cleared j none)) (opens-has_slot j lt)

    read_total :
        (l : List (Cqe ℕ))
        → gains l ≡ over got files
        → (if length l == 0 then total else add_reads (o.reads i l) total) ≡ total + over got files
    read_total [] sum = omega arith
    read_total (c ∷ l) sum =
        let some_read : (suc (length l) == 0) ≡ false = ground arith in
        rw some_read (
          omega (
            arith,
            add_reads-gains (o.reads i (c ∷ l)) total,
            gains-Shuffled (any.1 i (c ∷ l)),
            sum,
          ))

    -- For a batch that fits, whatever descriptors were left and in whatever orders the requests
    -- complete: no descriptor is stored and no buffer lies out of bounds, the ring never overflows,
    -- and the total grows by what can be read of the files.
    pub batch_lem :
        (fds : List (Option Bytes))
        → length fds ≡ per
        → Returns
            (batch kernel o i files (fds, total))
            (λ r. (length r.0 ≡ per) × (r.1 ≡ total + over got files))
    unfolding batch
    batch_lem fds size =
        rw
          (get_sqes_lem (open_requests kernel 0 files)
            (omega (arith, length-open_requests 0 files)))
          (Returns-bind (reset_fds (length files) fds) _ (λ c. length c ≡ length fds) _
            (reset_fds_lem (length files) fds (omega arith))
            (λ cleared same.
              Returns-bind (store_fds opens cleared) _ (Stored answers (length files) opens cleared)
                _
                (store_fds-Stored answers (length files) opens cleared (omega arith) opens-IsAnswer)
                (λ fds' stored.
                  Returns-bind (read_requests kernel fds' 0 (length files)) _
                    (λ l. (length l ≤ length files) × (gains l ≡ over got files)) _
                    (read_requests-gains fds' 0 files (omega arith)
                      (λ j lt. fds-slot cleared fds' j (same ∙ size) stored lt))
                    (λ l (fewer, sum).
                      rw (get_sqes_lem l (omega arith))
                        (stored.0 ∙ same ∙ size, read_total l sum)))))
