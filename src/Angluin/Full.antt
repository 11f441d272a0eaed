-- ===== src/Angluin/Full.antt =====
-- algorithm_angluin.h: tables whose rows are filled with what is known.
use libalf.Common.{
  ◌≤◌, ◌<◌, ◌≡◌, refl, ap, sym, List, [], ◌∷◌, ◌++◌, map, true, Option, some, length, Word, word_eq,
  word_eq_iff, word_eq_refl, contains, contains-remove, remove, remove-absent, Distinct, All, arith,
  Bool-cases, Option-cases, inl, inr,
}
use libalf.Angluin.Table.{Row, Table, search, search_tables, rows_filled}
use libalf.Angluin.Knows.{known_prefix, all_known, Agrees, IsRow, filled_row, rows_known}
use libalf.Angluin.Shape.{indices, found-search}
use libalf.Angluin.Rows.{found}
use libalf.Angluin.Adding.{IsTable, in_tables}

-- A list without repetition is no longer than one that has its elements.
length-remove_lt :
    (w : Word) (ws : List Word) → contains w ws ≡ true → length (remove w ws) < length ws
length-remove_lt w [] h = absurd (cc h)
length-remove_lt w (u ∷ us) h = elim (Bool-cases (contains w us)) [
  | inl e ↦ ground (arith, length-remove_lt w us e)
  | inr e ↦ ground (arith, remove-absent us w e)
]

pub length-Distinct :
    (ws l : List Word)
    → Distinct ws
    → ((v : Word) → contains v ws ≡ true → contains v l ≡ true)
    → length ws ≤ length l
length-Distinct [] l d h = omega arith
length-Distinct (w ∷ ws) l d h = omega (
  arith,
  length-Distinct ws (remove w l) d.1
      (λ v c. ground (arith, h v, contains-remove v w l, word_eq_iff v w, d.0)),
  length-remove_lt w l (h w (ground (arith, word_eq_refl w))),
)

module _ {A : Type 0} (K : Word → Option A) where
  -- The row holds the answers of all columns.
  abbrev pub IsFull : List Word → Row A → Type 0
  IsFull columns r =
      (r.acceptance ≡ known_prefix K r.index columns) × (all_known K r.index columns ≡ true)

  -- A table that satisfies the invariant, each row of which, upper and lower, is filled.
  pub record IsFilled (t : Table A) : Type 0 where
    pub valid : IsTable K t
    pub upper : All (IsFull t.column_names) t.upper_table
    pub lower : All (IsFull t.column_names) t.lower_table

  pub Agrees-known_prefix :
      (index : Word) (columns : List Word) → Agrees K index columns (known_prefix K index columns)
  unfolding known_prefix
  Agrees-known_prefix index [] = tt
  Agrees-known_prefix index (c ∷ columns) = elim (Option-cases (K (index ++ c))) [
    | inl e ↦ rw (e, known_prefix) tt
    | inr (a, e) ↦ rw (e, known_prefix) (e, Agrees-known_prefix index columns)
  ]

  pub length-known_prefix :
      (index : Word) (columns : List Word)
      → all_known K index columns ≡ true
      → length (known_prefix K index columns) ≡ length columns
  unfolding known_prefix all_known
  length-known_prefix index [] h = refl
  length-known_prefix index (c ∷ columns) h = ground (arith, length-known_prefix index columns)

  pub indices-filled :
      (columns : List Word) (rows : List (Row A))
      → indices (map (filled_row K columns) rows) ≡ indices rows
  unfolding filled_row
  indices-filled columns [] = refl
  indices-filled columns (r ∷ rows) = ap (λ l. r.index ∷ l) (indices-filled columns rows)

  pub filled-IsRow :
      (columns : List Word) (rows : List (Row A))
      → All (IsRow K columns) rows
      → All (IsRow K columns) (map (filled_row K columns) rows)
  unfolding filled_row
  filled-IsRow columns [] h = tt
  filled-IsRow columns (r ∷ rows) h =
      ((h.0.0, Agrees-known_prefix r.index columns), filled-IsRow columns rows h.1)

  pub filled-IsFull :
      (columns : List Word) (rows : List (Row A))
      → rows_known K columns rows ≡ true
      → All (IsFull columns) (map (filled_row K columns) rows)
  unfolding filled_row rows_known
  filled-IsFull columns [] h = tt
  filled-IsFull columns (r ∷ rows) h =
      ((refl, ground arith), filled-IsFull columns rows (ground arith))

  pub rows_filled-IsFull :
      (columns : List Word) (rows : List (Row A))
      → All (IsFull columns) rows
      → rows_filled (length columns) rows ≡ true
  unfolding rows_filled
  rows_filled-IsFull columns [] h = refl
  rows_filled-IsFull columns (r ∷ rows) h = ground (
    arith,
    rows_filled-IsFull columns rows h.1,
    length-known_prefix r.index columns,
    ap length h.0.0,
  )

  -- A table stays one when its rows are filled.
  pub upper_filled :
      (t : Table A)
      → IsTable K t
      → IsTable K (record t { upper_table = map (filled_row K t.column_names) t.upper_table })
  upper_filled t v =
      let same = indices-filled t.column_names t.upper_table in
      record {
        columns = v.columns;
        columns_distinct = v.columns_distinct;
        first = v.first;
        upper = filled-IsRow t.column_names t.upper_table v.upper;
        lower = v.lower;
        upper_distinct = rw same v.upper_distinct;
        root = rw same v.root;
        extended = rw same v.extended;
      }

  pub lower_filled :
      (t : Table A)
      → IsTable K t
      → IsTable K (record t { lower_table = map (filled_row K t.column_names) t.lower_table })
  lower_filled t v =
      let same = indices-filled t.column_names t.lower_table in
      record {
        columns = v.columns;
        columns_distinct = v.columns_distinct;
        first = v.first;
        upper = v.upper;
        lower = filled-IsRow t.column_names t.lower_table v.lower;
        upper_distinct = v.upper_distinct;
        root = v.root;
        extended = rw same v.extended;
      }

  -- The row that a search finds.
  search-IsFull :
      (columns : List Word) (w : Word) (rows : List (Row A))
      → All (IsFull columns) rows
      → contains w (indices rows) ≡ true
      → (r : Row A) × (search w rows ≡ some r) × (r.index ≡ w) × IsFull columns r
  unfolding search
  search-IsFull columns w [] h c = absurd (cc c)
  search-IsFull columns w (r ∷ rows) h c = elim (Bool-cases (word_eq w r.index)) [
    | inl e ↦ (r, rw e refl, sym ((word_eq_iff w r.index).0 e), h.0)
    | inr e ↦
        let (s, found, same, full) = search-IsFull columns w rows h.1 (ground arith) in
        (s, rw e found, same, full)
  ]

  pub search_tables-IsFull :
      (t : Table A) (w : Word)
      → All (IsFull t.column_names) t.upper_table
      → All (IsFull t.column_names) t.lower_table
      → in_tables K t w ≡ true
      → (r : Row A) × (search_tables w t ≡ some r) × (r.index ≡ w) × IsFull t.column_names r
  unfolding search_tables
  search_tables-IsFull t w upper lower c = elim (Bool-cases (contains w (indices t.upper_table))) [
    | inl e ↦
        let (r, found, same, full) = search-IsFull t.column_names w t.upper_table upper e in
        (r, rw (found, search_tables) refl, same, full)
    | inr e ↦
        let (r, found, same, full) =
          search-IsFull t.column_names w t.lower_table lower (ground arith) in
        (r, ground (arith, found, found-search w t.upper_table), same, full)
  ]
