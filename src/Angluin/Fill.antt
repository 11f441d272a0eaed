-- ===== src/Angluin/Fill.antt =====
-- algorithm_angluin.h, fill_missing_columns: rows ask the knowledgebase.
use libalf.Common.{
  ℕ, zero, suc, ◌-◌, List, [], ◌∷◌, ◌++◌, Bool, true, false, Option, none, some, ltb, length,
  if◌then◌else◌, Word,
}
use libalf.Knowledgebase.Base.{Base, resolve_or_add_query}
use libalf.Knowledgebase.Base
use libalf.Filter.{FilterAnswer}
use libalf.Angluin.Table.{is_bottom, Row}

abbrev pub drop {ℓ} : {A : Type ℓ} → ℕ → List A → List A
drop zero xs = xs
drop (suc n) [] = []
drop (suc n) (_ ∷ xs) = drop n xs

-- The variables of the loop over the columns, and the knowledgebase.
pub record Filling (A : Type 0) : Type 0 where
  pub column_skipped : Bool
  pub complete : Bool
  pub filled : List A
  pub base : Base A

module _ {A : Type 0} (o : FilterAnswer A) (f : Option (Base.Filter o.answer)) where
  -- One column of a row. `none` is a NULL pointer that is dereferenced, see resolve_or_add_query.
  unfoldable pub fill_column : Word → Word → Filling A → Option (Filling A)
  fill_column index column s =
      if is_bottom column
      then some (record s { filled = s.filled ++ o.of_bool false ∷ [] })
      else elim (resolve_or_add_query o.answer f (index ++ column) s.base) [
        | none ↦ none
        | some (none, base') ↦
            some (record s { column_skipped = true; complete = false; base = base' })
        | some (some a, base') ↦ some (record s {
          filled = if s.column_skipped then s.filled else s.filled ++ a ∷ [];
          base = base';
        })
      ]

  unfoldable pub fill_columns : Word → List Word → Filling A → Option (Filling A)
  fill_columns index [] s = some s
  fill_columns index (c ∷ columns) s = elim (fill_column index c s) [
    | none ↦ none
    | some s' ↦ fill_columns index columns s'
  ]

  -- A row of bottom: `delta` columns are missing.
  unfoldable pub pad : ℕ → List A → List A
  pad zero acceptance = acceptance
  pad (suc delta) acceptance = pad delta (acceptance ++ o.of_bool false ∷ [])

  unfoldable pub fill_row : List Word → Row A → Bool → Base A → Option (Row A × Bool × Base A)
  fill_row columns r complete base =
      if ltb (length r.acceptance) (length columns)
      then if is_bottom r.index
        then some (
          record r { acceptance = pad (length columns - length r.acceptance) r.acceptance },
          complete,
          base,
        )
        else elim (fill_columns r.index (drop (length r.acceptance) columns) (record {
          column_skipped = false;
          complete = complete;
          filled = r.acceptance;
          base = base;
        })) [ none ↦ none | some s ↦ some (record r { acceptance = s.filled }, s.complete, s.base) ]
      else some (r, complete, base)

  -- The loop over the rows of a table: `complete`, the rows, and the knowledgebase.
  unfoldable pub fill_missing_columns :
      List Word → List (Row A) → Bool → Base A → Option (Bool × List (Row A) × Base A)
  fill_missing_columns columns [] complete base = some (complete, [], base)
  fill_missing_columns columns (r ∷ rows) complete base = elim (fill_row columns r complete base) [
    | none ↦ none
    | some (r', complete', base') ↦ elim (fill_missing_columns columns rows complete' base') [
      | none ↦ none
      | some (complete'', rows', base'') ↦ some (complete'', r' ∷ rows', base'')
    ]
  ]
