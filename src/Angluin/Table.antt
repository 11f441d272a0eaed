-- ===== src/Angluin/Table.antt =====
-- algorithm_angluin.h: the table, its rows and columns, and the searches in it.
use libalf.Common.{
  ℕ, List, [], ◌∷◌, ◌++◌, Bool, true, false, ◌&&◌, Option, none, some, ◌==◌, if◌then◌else◌, negsuc,
  eq_ℤ, length, Word, word_eq, contains,
}
use libalf.Knowledgebase.Base.{Answer}

-- BOTTOM_CHAR, which is -42, and the test whether a word begins with it.
unfoldable pub is_bottom : Word → Bool
is_bottom [] = false
is_bottom (x ∷ w) = eq_ℤ x (negsuc 41)

-- A normalizer gives the normal form and `bottom`. The pointer to it may be NULL.
pub record Normalizer : Type 0 where
  pub prefix_normal_form : Word → Word × Bool
  pub suffix_normal_form : Word → Word × Bool

abbrev pub prefix_normal : Option Normalizer → Word → Word × Bool
prefix_normal none w = (w, false)
prefix_normal (some norm) w = norm.prefix_normal_form w

abbrev pub suffix_normal : Option Normalizer → Word → Word
suffix_normal none w = w
suffix_normal (some norm) w = (norm.suffix_normal_form w).0

-- class simple_row
pub record Row (A : Type 0) : Type 0 where
  pub index : Word
  pub acceptance : List A
  pub ut_timestamp : ℕ
  pub lt_timestamp : ℕ

-- class angluin_table, and the alphabet size of learning_algorithm
pub record Table (A : Type 0) : Type 0 where
  pub column_names : List Word
  pub column_timestamps : List ℕ
  pub upper_table : List (Row A)
  pub lower_table : List (Row A)
  pub initialized : Bool
  pub alphabet_size : ℕ

module _ {A : Type 0} where
  -- search_upper_table and search_lower_table; `none` is end().
  unfoldable pub search : Word → List (Row A) → Option (Row A)
  search w [] = none
  search w (r ∷ rows) = if word_eq w r.index then some r else search w rows

  unfoldable pub search_tables : Word → Table A → Option (Row A)
  search_tables w t = elim (search w t.upper_table) [
    | some r ↦ some r
    | none ↦ search w t.lower_table
  ]

  -- The row that search_lower_table finds, and the rows without it.
  unfoldable pub take_out : Word → List (Row A) → Option (Row A × List (Row A))
  take_out w [] = none
  take_out w (r ∷ rows) = elim (word_eq w r.index) [
    | true ↦ some (r, rows)
    | false ↦ elim (take_out w rows) [ none ↦ none | some (s, rest) ↦ some (s, r ∷ rest) ]
  ]

  -- `now` is the time stamp of the knowledgebase, or 0 where there is none.
  unfoldable pub add_column : Option Normalizer → ℕ → Word → Table A → Bool × Table A
  add_column norm now word t =
      let nw = suffix_normal norm word in
      if contains nw t.column_names then (false, t) else (
        true,
        record t {
          column_names = t.column_names ++ nw ∷ [];
          column_timestamps = t.column_timestamps ++ now ∷ [];
        },
      )

  unfoldable pub rows_filled : ℕ → List (Row A) → Bool
  rows_filled columns [] = true
  rows_filled columns (r ∷ rows) = length r.acceptance == columns && rows_filled columns rows

  unfoldable pub columns_filled : Table A → Bool
  columns_filled t =
      let columns = length t.column_names in
      rows_filled columns t.upper_table && rows_filled columns t.lower_table

  -- operator== of rows, by that of std::vector; operator!= is its negation.
  unfoldable pub same_acceptance : Answer A → List A → List A → Bool
  same_acceptance o [] [] = true
  same_acceptance o [] (b ∷ bs) = false
  same_acceptance o (a ∷ as') [] = false
  same_acceptance o (a ∷ as') (b ∷ bs) = o.same a b && same_acceptance o as' bs

  unfoldable pub has_match : Answer A → Row A → List (Row A) → Bool
  has_match o r [] = false
  has_match o r (u ∷ upper) =
      if same_acceptance o r.acceptance u.acceptance then true else has_match o r upper

  unfoldable pub closed_loop : Answer A → List (Row A) → List (Row A) → Bool
  closed_loop o upper [] = true
  closed_loop o upper (r ∷ lower) = if has_match o r upper then closed_loop o upper lower else false

  unfoldable pub is_closed : Answer A → Table A → Bool
  is_closed o t = closed_loop o t.upper_table t.lower_table
