-- ===== src/Backtest/Buffer/Appended.antt =====
-- persistence/buffered.py: rows that are appended to tables, and their number.
use mathlib.Core.List.{append-nil}
use carcharoth.Base.{
  ℕ, ◌+◌, String, List, [], ◌∷◌, ◌++◌, length, length-append, or_else, arith, ◌≡◌, refl, sym, ◌∙◌,
  ap, inl, inr, Bool-cases, if◌then◌else◌,
}
use carcharoth.Base.Eq.{◌==◌, nat_eq, string_eq, eq_of_beq}
use carcharoth.Base.Dict.{get, put, get-put, IsDict}
use carcharoth.Backtest.Buffer.{Rows, rows_of, append_rows, insert_all}

module _ {R : Type 0} where
  -- the number of rows of all tables
  abbrev pub size : Rows R → ℕ
  size [] = 0
  size ((table, rows) ∷ tables) = length rows + size tables

  -- the rows, if they are the table's
  abbrev pub only : String → String → List R → List R
  only table other rows = if table == other then rows else []

  pub rows_of-append :
      (tables : Rows R) (table other : String) (rows : List R)
      → rows_of (append_rows tables table rows) other
        ≡ rows_of tables other ++ only table other rows
  unfolding append_rows
  rows_of-append tables table other rows = elim (Bool-cases (table == other)) [
    | inl same ↦
        rw (get-put tables table other (rows_of tables table ++ rows), same)
          (ap (λ k. rows_of tables k ++ rows) (eq_of_beq table other same))
    | inr differs ↦
        rw (get-put tables table other (rows_of tables table ++ rows), differs)
          (sym (append-nil (rows_of tables other)))
  ]

  pub insert_all-rows :
      (pending stored : Rows R)
      → IsDict pending
      → (table : String)
      → rows_of (insert_all pending stored) table ≡ rows_of stored table ++ rows_of pending table
  unfolding insert_all get
  insert_all-rows [] stored dict table = sym (append-nil (rows_of stored table))
  insert_all-rows ((k, rows) ∷ pending) stored dict table =
      let later = insert_all-rows pending (append_rows stored k rows) dict.1 table in
      let here = rows_of-append stored k table rows in
      elim (Bool-cases (k == table)) [
        | inl same ↦
            let none_left : rows_of pending table ≡ [] =
              ap (λ o. or_else o []) (ap (get pending) (sym (eq_of_beq k table same)) ∙ dict.0) in
            let written : rows_of (append_rows stored k rows) table ≡ rows_of stored table ++ rows =
              here ∙ ap (λ b. rows_of stored table ++ (if b then rows else [])) same in
            rw same (
              later
              ∙ (ap (λ xs. xs ++ rows_of pending table) written
                  ∙ (ap (λ ys. rows_of stored table ++ rows ++ ys) none_left
                      ∙ append-nil (rows_of stored table ++ rows))))
        | inr differs ↦
            let written : rows_of (append_rows stored k rows) table ≡ rows_of stored table =
              here
              ∙ (ap (λ b. rows_of stored table ++ (if b then rows else [])) differs
                  ∙ append-nil (rows_of stored table)) in
            rw differs (later ∙ ap (λ xs. xs ++ rows_of pending table) written)
      ]

  size-put :
      (tables : Rows R) (table : String) (rows : List R)
      → size (put tables table rows) + length (rows_of tables table) ≡ size tables + length rows
  unfolding put get
  size-put [] table rows = omega arith
  size-put ((k, old) ∷ tables) table rows = ground (arith, size-put tables table rows)

  pub size-append :
      (tables : Rows R) (table : String) (row : R)
      → size (append_rows tables table (row ∷ [])) ≡ size tables + 1
  unfolding append_rows
  size-append tables table row = omega (
    arith,
    size-put tables table (rows_of tables table ++ (row ∷ [])),
    length-append (rows_of tables table) (row ∷ []),
  )

  pub empty-of-size :
      (tables : Rows R) (table : String) → size tables ≡ 0 → rows_of tables table ≡ []
  unfolding get
  empty-of-size [] table h = refl
  empty-of-size ((k, []) ∷ tables) table h = elim (Bool-cases (k == table)) [
    | inl same ↦ rw same refl
    | inr differs ↦ rw differs (empty-of-size tables table (omega (arith, h)))
  ]
  empty-of-size ((k, row ∷ rows) ∷ tables) table h = absurd (omega (arith, h))
