-- ===== src/Angluin/Growing.antt =====
-- algorithm_angluin.h: add_column, and the size of a filled table.
use libalf.Common.{
  ℕ, suc, ◌+◌, ◌≤◌, ◌≡◌, refl, ap, subst, List, [], ◌∷◌, ◌++◌, append-nil, true, false, Option,
  none, length, length-append, Word, IsWord, word_eq, word_eq_iff, contains, Distinct-append, All,
  arith, Bool-cases, inl, inr,
}
use libalf.Angluin.Table.{Row, Table, add_column}
use libalf.Angluin.Knows.{all_known, is_unknown, Agrees, IsRow}
use libalf.Angluin.Shape.{indices}
use libalf.Angluin.Adding.{IsTable}
use libalf.Angluin.Full.{IsFull, IsFilled, length-Distinct}

abbrev pub measure : {A : Type 0} → Table A → ℕ
measure t = length t.upper_table + length t.column_names

module _ {A : Type 0} (K : Word → Option A) where
  Agrees-append :
      (index : Word) (columns more : List Word) (acceptance : List A)
      → Agrees K index columns acceptance
      → Agrees K index (columns ++ more) acceptance
  Agrees-append index columns more [] h = tt
  Agrees-append index [] more (a ∷ acceptance) h = absurd h
  Agrees-append index (c ∷ columns) more (a ∷ acceptance) h =
      (h.0, Agrees-append index columns more acceptance h.1)

  IsRow-append :
      (columns more : List Word) (rows : List (Row A))
      → All (IsRow K columns) rows
      → All (IsRow K (columns ++ more)) rows
  IsRow-append columns more [] h = tt
  IsRow-append columns more (r ∷ rows) h = (
    (h.0.0, Agrees-append r.index columns more r.acceptance h.0.1),
    IsRow-append columns more rows h.1,
  )

  IsWord-append :
      (columns more : List Word)
      → All IsWord columns
      → All IsWord more
      → All IsWord (columns ++ more)
  IsWord-append [] more h k = k
  IsWord-append (c ∷ columns) more h k = (h.0, IsWord-append columns more h.1 k)

  -- A column that is not there yet.
  pub add_column-IsTable :
      (now : ℕ) (suffix : Word) (t : Table A)
      → IsTable K t
      → IsWord suffix
      → contains suffix t.column_names ≡ false
      → IsTable K (add_column none now suffix t).1
        × (measure (add_column none now suffix t).1 ≡ measure t + 1)
        × ((add_column none now suffix t).1.initialized ≡ t.initialized)
  unfolding add_column
  add_column-IsTable now suffix t v word absent = rw absent (
    record {
      columns = IsWord-append t.column_names (suffix ∷ []) v.columns (word, tt);
      columns_distinct = Distinct-append t.column_names suffix absent v.columns_distinct;
      first = let (rest, e) = v.first in (rest ++ suffix ∷ [], ap (λ l. l ++ suffix ∷ []) e);
      upper = IsRow-append t.column_names (suffix ∷ []) t.upper_table v.upper;
      lower = IsRow-append t.column_names (suffix ∷ []) t.lower_table v.lower;
      upper_distinct = v.upper_distinct;
      root = v.root;
      extended = v.extended;
    },
    omega (arith, length-append t.column_names (suffix ∷ [])),
    refl,
  )

  -- In a filled table the words of the upper rows and the columns are known.
  module _ (t : Table A) (v : IsFilled K t) where
    known_column :
        (index c : Word) (columns : List Word)
        → all_known K index columns ≡ true
        → contains c columns ≡ true
        → is_unknown K (index ++ c) ≡ false
    unfolding all_known
    known_column index c [] h e = absurd (cc e)
    known_column index c (d ∷ columns) h e = elim (Bool-cases (word_eq c d)) [
      | inl here ↦ rw ((word_eq_iff c d).0 here) (ground arith)
      | inr there ↦ known_column index c columns (ground arith) (ground arith)
    ]

    pub known_index :
        (w : Word) (rows : List (Row A))
        → All (IsFull K t.column_names) rows
        → contains w (indices rows) ≡ true
        → all_known K w t.column_names ≡ true
    known_index w [] h e = absurd (cc e)
    known_index w (r ∷ rows) h e = elim (Bool-cases (word_eq w r.index)) [
      | inl here ↦ rw ((word_eq_iff w r.index).0 here) h.0.1
      | inr there ↦ known_index w rows h.1 (ground arith)
    ]

    upper_known : (w : Word) → contains w (indices t.upper_table) ≡ true → is_unknown K w ≡ false
    upper_known w e =
        let (rest, first) = v.valid.first in
        subst (λ u. is_unknown K u ≡ false) (append-nil w)
          (known_column w [] t.column_names (known_index w t.upper_table v.upper e) (rw first refl))

    column_known : (c : Word) → contains c t.column_names ≡ true → is_unknown K c ≡ false
    column_known c e =
        known_column [] c t.column_names (known_index [] t.upper_table v.upper v.valid.root) e

    length-indices : (rows : List (Row A)) → length (indices rows) ≡ length rows
    length-indices [] = refl
    length-indices (r ∷ rows) = ap suc (length-indices rows)

    -- There are no more upper rows, and no more columns, than known words.
    pub measure_bound :
        (l : List Word)
        → ((w : Word) → is_unknown K w ≡ false → contains w l ≡ true)
        → measure t ≤ length l + length l
    measure_bound l listed = omega (
      arith,
      length-indices t.upper_table,
      length-Distinct (indices t.upper_table) l v.valid.upper_distinct
          (λ w c. listed w (upper_known w c)),
      length-Distinct t.column_names l v.valid.columns_distinct
          (λ w c. listed w (column_known w c)),
    )
