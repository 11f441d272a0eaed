-- ===== src/Angluin/Adding.antt =====
-- algorithm_angluin.h: the invariant of the table, and rows that enter it where there is no normalizer.
use libalf.Common.{
  ℕ, ◌+◌, ◌≤◌, ◌<◌, ◌≡◌, List, [], ◌∷◌, ◌++◌, Bool, true, false, ◌||◌, Option, pos, Word, IsWord,
  word_eq, word_eq_iff, contains, Distinct, Distinct-append, All, arith, Bool-cases, inl, inr,
}
use libalf.Angluin.Table.{Row, Table}
use libalf.Angluin.Knows.{IsRow}
use libalf.Angluin.Shape.{indices, indices-append, All-append, IsFresh, contains-indices_append}

module _ {A : Type 0} (K : Word → Option A) where
  abbrev pub in_tables : Table A → Word → Bool
  in_tables t w = contains w (indices t.upper_table) || contains w (indices t.lower_table)

  pub record IsTable (t : Table A) : Type 0 where
    pub columns : All IsWord t.column_names
    pub columns_distinct : Distinct t.column_names
    -- the first column is that of the empty word
    pub first : (rest : List Word) × (t.column_names ≡ [] ∷ rest)
    -- words have no negative symbols, and what is filled in is known
    pub upper : All (IsRow K t.column_names) t.upper_table
    pub lower : All (IsRow K t.column_names) t.lower_table
    pub upper_distinct : Distinct (indices t.upper_table)
    pub root : contains [] (indices t.upper_table) ≡ true
    -- a word of the upper table with one symbol more has a row
    pub extended :
        (w : Word) (x : ℕ)
        → contains w (indices t.upper_table) ≡ true
        → x < t.alphabet_size
        → in_tables t (w ++ pos x ∷ []) ≡ true

  pub fresh-IsRow :
      (columns : List Word) (rows : List (Row A)) → All IsFresh rows → All (IsRow K columns) rows
  fresh-IsRow columns [] h = tt
  fresh-IsRow columns (r ∷ rows) h = ((h.0.0, rw h.0.1 tt), fresh-IsRow columns rows h.1)

  -- A row enters the upper table, and rows for its successors the lower one.
  module _ (t : Table A) (v : IsTable t) (w : Word) (r : Row A) (same : r.index ≡ w)
      (row : IsRow K t.column_names r) (absent : contains w (indices t.upper_table) ≡ false)
      (lower : List (Row A)) (rows : All (IsRow K t.column_names) lower)
      (gone : (u : Word)
        → contains u (indices t.lower_table) ≡ true
        → (word_eq u w || contains u (indices lower)) ≡ true)
      (extra : List (Row A)) (fresh : All IsFresh extra)
      (there : (x : ℕ)
        → 0 ≤ x
        → x < 0 + t.alphabet_size
        → (contains (w ++ pos x ∷ []) (indices (t.upper_table ++ r ∷ []))
            || contains (w ++ pos x ∷ []) (indices extra))
          ≡ true) where
    in_upper :
        (u : Word)
        → contains u (indices (t.upper_table ++ r ∷ []))
          ≡ (contains u (indices t.upper_table) || word_eq u w)
    in_upper u = ground (arith, contains-indices_append u t.upper_table (r ∷ []), same)

    extended_lem :
        (u : Word) (x : ℕ)
        → contains u (indices (t.upper_table ++ r ∷ [])) ≡ true
        → x < t.alphabet_size
        → (contains (u ++ pos x ∷ []) (indices (t.upper_table ++ r ∷ []))
            || contains (u ++ pos x ∷ []) (indices (lower ++ extra)))
          ≡ true
    extended_lem u x h lt =
        let next = u ++ pos x ∷ [] in
        elim (Bool-cases (contains u (indices t.upper_table))) [
          | inl old ↦ ground (
            arith,
            v.extended u x old lt,
            gone next,
            in_upper next,
            contains-indices_append next lower extra,
          )
          | inr new ↦
              let here : u ≡ w = (word_eq_iff u w).0 (ground (arith, in_upper u)) in
              rw here (
                ground (
                  arith,
                  there x (omega arith) (omega arith),
                  contains-indices_append (w ++ pos x ∷ []) lower extra,
                ))
        ]

    pub entered-IsTable :
        IsTable (record t { upper_table = t.upper_table ++ r ∷ []; lower_table = lower ++ extra })
    entered-IsTable = record {
      columns = v.columns;
      columns_distinct = v.columns_distinct;
      first = v.first;
      upper = All-append (IsRow K t.column_names) t.upper_table (r ∷ []) v.upper (row, tt);
      lower =
          All-append (IsRow K t.column_names) lower extra rows
            (fresh-IsRow t.column_names extra fresh);
      upper_distinct =
          rw (indices-append t.upper_table (r ∷ []), same)
            (Distinct-append (indices t.upper_table) w absent v.upper_distinct);
      root = ground (arith, in_upper [], v.root);
      extended = extended_lem;
    }
