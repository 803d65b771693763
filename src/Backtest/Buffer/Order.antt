-- ===== src/Backtest/Buffer/Order.antt =====
-- persistence/buffered.py: the buffer and insertions one by one.
use mathlib.Core.List.{append-nil, append_assoc}
use carcharoth.Base.{
  ℕ, ◌+◌, ◌<◌, String, List, [], ◌∷◌, ◌++◌, leb, arith, ◌≡◌, refl, sym, ◌∙◌, ap, inl, inr,
  Bool-cases, Option, none, some, subst,
}
use carcharoth.Base.Eq.{◌==◌, nat_eq, string_eq, eq_of_beq}
use carcharoth.Base.Dict.{get, IsDict, put-IsDict}
use carcharoth.Base.Result.{Error, ok, err}
use carcharoth.Backtest.Buffer.{
  Rows, WriteBuffer, WriteResult, rows_of, append_rows, empty_buffer, insert_all, commit, and_then,
  flush, add, add_all,
}
use carcharoth.Backtest.Buffer.Appended.{
  size, only, rows_of-append, insert_all-rows, size-append, empty-of-size,
}

-- the count is that of the pending rows
pub record IsCounted {R : Type 0} (b : WriteBuffer R) : Type 0 where
  pub counted : b.count ≡ size b.pending
  pub distinct : IsDict b.pending

module _ {R : Type 0} where
  -- the rows without a buffer: each is appended to its table at once
  unfoldable pub write_all : List (String × R) → Rows R → Rows R
  write_all [] stored = stored
  write_all ((table, row) ∷ rows) stored = write_all rows (append_rows stored table (row ∷ []))

  -- what is stored and what is pending
  abbrev view : WriteBuffer R → String → List R
  view b table = rows_of b.stored table ++ rows_of b.pending table

  -- a transaction that is not refused
  commit-stored :
      (o : Option Error) (b c : WriteBuffer R)
      → commit o b ≡ (ok tt, c)
      → c ≡ record b { pending = []; count = 0; stored = insert_all b.pending b.stored }
  unfolding commit
  commit-stored none b c e = ap (λ p. p.1) (sym e)
  commit-stored (some x) b c e = cc (ap (λ p. p.0) e)

  commit-pending :
      (o : Option Error) (b : WriteBuffer R)
      → ((commit o b).1.pending ≡ [])
        × ((commit o b).1.count ≡ 0)
        × ((commit o b).1.max_rows ≡ b.max_rows)
  unfolding commit
  commit-pending none b = (refl, refl, refl)
  commit-pending (some x) b = (refl, refl, refl)

  commit-IsCounted : (o : Option Error) (b : WriteBuffer R) → IsCounted (commit o b).1
  unfolding commit
  commit-IsCounted none b = record { counted = refl; distinct = tt }
  commit-IsCounted (some x) b = record { counted = refl; distinct = tt }

  -- the buffer with a row more, before it is flushed
  abbrev grown : String → R → WriteBuffer R → WriteBuffer R
  grown table row b = record b {
    pending = append_rows b.pending table (row ∷ []);
    count = b.count + 1;
  }

  grown-IsCounted :
      (table : String) (row : R) (b : WriteBuffer R) → IsCounted b → IsCounted (grown table row b)
  unfolding append_rows
  grown-IsCounted table row b fine = record {
    counted = omega (arith, fine.counted, size-append b.pending table row);
    distinct = put-IsDict b.pending table (rows_of b.pending table ++ (row ∷ [])) fine.distinct;
  }

module _ {R : Type 0} (refuses : Rows R → Rows R → Option Error) where
  flush-view :
      (b c : WriteBuffer R)
      → IsCounted b
      → flush refuses b ≡ (ok tt, c)
      → (table : String) → rows_of c.stored table ≡ view b table
  unfolding flush
  flush-view b c fine e table = elim (Bool-cases (b.count == 0)) [
    | inl idle ↦
        let none_left =
          empty-of-size b.pending table (omega (arith, fine.counted, eq_of_beq b.count 0 idle)) in
        let same : b ≡ c = ground (arith, e, idle) in
        subst (λ (x : WriteBuffer R). rows_of x.stored table ≡ view b table) same
          (sym (append-nil (rows_of b.stored table))
            ∙ ap (λ xs. rows_of b.stored table ++ xs) (sym none_left))
    | inr busy ↦
        let done : commit (refuses b.pending b.stored) b ≡ (ok tt, c) = ground (arith, e, busy) in
        rw (commit-stored (refuses b.pending b.stored) b c done)
          (insert_all-rows b.pending b.stored fine.distinct table)
  ]

  flush-IsCounted : (b : WriteBuffer R) → IsCounted b → IsCounted (flush refuses b).1
  unfolding flush
  flush-IsCounted b fine = elim (Bool-cases (b.count == 0)) [
    | inl idle ↦ rw idle fine
    | inr busy ↦ rw busy (commit-IsCounted (refuses b.pending b.stored) b)
  ]

  -- also where it raises
  flush-pending :
      (b : WriteBuffer R)
      → IsCounted b
      → (table : String) → rows_of (flush refuses b).1.pending table ≡ []
  unfolding flush get
  flush-pending b fine table = elim (Bool-cases (b.count == 0)) [
    | inl idle ↦
        rw idle
          (empty-of-size b.pending table (omega (arith, fine.counted, eq_of_beq b.count 0 idle)))
    | inr busy ↦
        rw busy
          (ap (λ tables. rows_of tables table) (commit-pending (refuses b.pending b.stored) b).0)
  ]

  add-IsCounted :
      (table : String) (row : R) (b : WriteBuffer R)
      → IsCounted b
      → IsCounted (add refuses table row b).1
  unfolding add
  add-IsCounted table row b fine =
      let counted = grown-IsCounted table row b fine in
      elim (Bool-cases (leb b.max_rows (b.count + 1))) [
        | inl full ↦ rw full (flush-IsCounted (grown table row b) counted)
        | inr room ↦ rw room counted
      ]

  -- a row that is added is the last of its table
  add-view :
      (table : String) (row : R) (b c : WriteBuffer R) (other : String)
      → IsCounted b
      → add refuses table row b ≡ (ok tt, c)
      → view c other ≡ view b other ++ only table other (row ∷ [])
  unfolding add
  add-view table row b c other fine e =
      let added = grown table row b in
      let counted = grown-IsCounted table row b fine in
      let longer : view added other ≡ view b other ++ only table other (row ∷ []) =
        ap (λ xs. rows_of b.stored other ++ xs) (rows_of-append b.pending table other (row ∷ []))
        ∙ sym (
            append_assoc (rows_of b.stored other) (rows_of b.pending other)
              (only table other (row ∷ []))) in
      elim (Bool-cases (leb b.max_rows (b.count + 1))) [
        | inr room ↦
            let same : added ≡ c = ground (arith, e, room) in
            subst (λ x. view x other ≡ view b other ++ only table other (row ∷ [])) same longer
        | inl full ↦
            let flushed : flush refuses added ≡ (ok tt, c) = ground (arith, e, full) in
            let emptied : rows_of c.pending other ≡ [] =
              ap (λ p. rows_of p.1.pending other) (sym flushed)
              ∙ flush-pending added counted other in
            ap (λ xs. rows_of c.stored other ++ xs) emptied
            ∙ (append-nil (rows_of c.stored other)
                ∙ (flush-view added c counted flushed other ∙ longer))
      ]

  and_then-ok :
      (out : WriteResult R) (next : WriteBuffer R → WriteResult R) {c : WriteBuffer R}
      → and_then out next ≡ (ok tt, c)
      → (b : WriteBuffer R) × (out ≡ (ok tt, b)) × (next b ≡ (ok tt, c))
  and_then-ok (err x, b) next e = cc (ap (λ p. p.0) e)
  and_then-ok (ok _, b) next e = (b, refl, e)

  written_through :
      (rows : List (String × R)) (b c d : WriteBuffer R) (direct : Rows R)
      → IsCounted b
      → ((table : String) → rows_of direct table ≡ view b table)
      → add_all refuses rows b ≡ (ok tt, c)
      → flush refuses c ≡ (ok tt, d)
      → (table : String) → rows_of d.stored table ≡ rows_of (write_all rows direct) table
  unfolding add_all write_all
  written_through [] b c d direct fine same adds flushes table =
      flush-view b d fine
        (subst (λ x. flush refuses x ≡ (ok tt, d)) (sym (ap (λ p. p.1) adds)) flushes) table
      ∙ sym (same table)
  written_through ((t, row) ∷ rows) b c d direct fine same adds flushes table =
      let (a, added, later) = and_then-ok (add refuses t row b) (add_all refuses rows) adds in
      written_through rows a c d (append_rows direct t (row ∷ []))
        (subst (λ p. IsCounted p.1) added (add-IsCounted t row b fine))
        (λ other.
          rows_of-append direct t other (row ∷ [])
          ∙ (ap (λ xs. xs ++ only t other (row ∷ [])) (same other)
              ∙ sym (add-view t row b a other fine added)))
        later flushes table

  -- The buffer loses, adds and reorders nothing as long as no call raises: whatever its bound is,
  -- after any rows that are added to an empty one and a last flush, each table has the rows, in the
  -- same order, that it would have had if each row had been inserted at once.
  pub flush-write_all :
      (max_rows : ℕ) (stored : Rows R) (rows : List (String × R)) (b c : WriteBuffer R)
      → add_all refuses rows (empty_buffer max_rows stored) ≡ (ok tt, b)
      → flush refuses b ≡ (ok tt, c)
      → (table : String) → rows_of c.stored table ≡ rows_of (write_all rows stored) table
  unfolding empty_buffer get
  flush-write_all max_rows stored rows b c =
      written_through rows (empty_buffer max_rows stored) b c stored
        (record { counted = refl; distinct = tt })
        (λ table. sym (append-nil (rows_of stored table)))

  add-room :
      (table : String) (row : R) (b : WriteBuffer R)
      → b.count < b.max_rows
      → ((add refuses table row b).1.max_rows ≡ b.max_rows)
        × ((add refuses table row b).1.count < b.max_rows)
  unfolding add flush
  add-room table row b h = elim (Bool-cases (leb b.max_rows (b.count + 1))) [
    | inr room ↦ rw room (refl, ground (arith, room))
    | inl full ↦
        let (_, none_left, same) =
          commit-pending (refuses (grown table row b).pending (grown table row b).stored)
            (grown table row b) in
        rw full (ground (arith, same), ground (arith, none_left, h))
  ]

  -- fewer rows are pending than the bound, and the count is theirs
  abbrev HasRoom : ℕ → WriteBuffer R → Type 0
  HasRoom bound b = (size b.pending < bound) × (b.count ≡ size b.pending)

  and_then-HasRoom :
      (bound : ℕ) (out : WriteResult R) (next : WriteBuffer R → WriteResult R)
      → HasRoom bound out.1
      → HasRoom bound (next out.1).1
      → HasRoom bound (and_then out next).1
  and_then-HasRoom bound (err x, a) next here later = here
  and_then-HasRoom bound (ok _, a) next here later = later

  add_all-room :
      (rows : List (String × R)) (b : WriteBuffer R)
      → IsCounted b
      → b.count < b.max_rows
      → HasRoom b.max_rows (add_all refuses rows b).1
  unfolding add_all
  add_all-room [] b fine h = (omega (arith, fine.counted, h), fine.counted)
  add_all-room ((table, row) ∷ rows) b fine h =
      let a = (add refuses table row b).1 in
      let counted = add-IsCounted table row b fine in
      let (same, room) = add-room table row b h in
      let (bound, later) = add_all-room rows a counted (omega (arith, same, room)) in
      and_then-HasRoom b.max_rows (add refuses table row b) (add_all refuses rows)
        (omega (arith, counted.counted, room), counted.counted) (omega (arith, bound, same), later)

  -- The memory of the buffer is bounded, also where a call raises: where its bound is positive, after
  -- any rows that are added to an empty one fewer rows are pending than the bound, and the count is
  -- theirs.
  pub add_all-bounded :
      (max_rows : ℕ) (stored : Rows R) (rows : List (String × R))
      → 0 < max_rows
      → (size (add_all refuses rows (empty_buffer max_rows stored)).1.pending < max_rows)
        × ((add_all refuses rows (empty_buffer max_rows stored)).1.count
            ≡ size (add_all refuses rows (empty_buffer max_rows stored)).1.pending)
  unfolding empty_buffer
  add_all-bounded max_rows stored rows positive =
      add_all-room rows (empty_buffer max_rows stored) (record { counted = refl; distinct = tt })
        positive
