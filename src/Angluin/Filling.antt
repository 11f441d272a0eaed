-- ===== src/Angluin/Filling.antt =====
-- algorithm_angluin.h: fill_missing_columns without a filter.
use libalf.Common.{
  ℕ, zero, suc, ◌≡◌, refl, ap, ◌∙◌, List, [], ◌∷◌, ◌++◌, append-nil, append_assoc, Bool, true,
  false, ◌&&◌, ◌||◌, not, Option, none, some, ltb, length, if◌then◌else◌, Word, IsWord, word_eq,
  contains, All, map, arith, Bool-cases, Option-cases, inl, inr,
}
use libalf.Knowledgebase.Base.{Base, entry}
use libalf.Knowledgebase.Base.Invariant.{IsValid}
use libalf.Knowledgebase.Base.Entries.{known, is_answered}
use libalf.Knowledgebase.Base.Queries.{resolve_or_add_query_lem}
use libalf.Filter.{FilterAnswer}
use libalf.Angluin.Table.{Row}
use libalf.Angluin.Fill.{drop, Filling, fill_column, fill_columns, fill_row, fill_missing_columns}
use libalf.Angluin.Knows.{
  IsWord-concat, IsWord-is_bottom, known_prefix, all_known, is_unknown, asks, IsRow, filled_row,
  rows_known, rows_ask, known_prefix-drop, whole_row,
}

module _ {A : Type 0} (o : FilterAnswer A) (K : Word → Option A) where
  -- The knowledgebase knows `K`.
  abbrev pub Knows : Base A → Type 0
  Knows base = IsValid o.answer base × ((v : Word) → known o.answer base v ≡ K v)

  -- The queries after some that were asked.
  abbrev pub Asked : (Word → Bool) → Base A → Base A → Type 0
  Asked more base base' =
      (v : Word) → contains v base'.required ≡ (contains v base.required || more v)

  pub unknown_entry :
      (base : Base A) (w : Word)
      → known o.answer base w ≡ K w
      → not (is_answered (entry o.answer base w)) ≡ is_unknown K w
  unknown_entry base w e = ground arith

  -- The variables after a column with an answer or without.
  after : Option A → Filling A → Base A → Filling A
  after none s base' = record s { column_skipped = true; complete = false; base = base' }
  after (some a) s base' = record s {
    filled = if s.column_skipped then s.filled else s.filled ++ a ∷ [];
    base = base';
  }

  fill_column_lem :
      (index c : Word) (s : Filling A)
      → IsWord index
      → IsWord c
      → Knows s.base
      → (base' : Base A) × (fill_column o none index c s ≡ some (after (K (index ++ c)) s base'))
        × Knows base'
        × Asked (λ v. word_eq v (index ++ c) && is_unknown K (index ++ c)) s.base base'
  unfolding fill_column after
  fill_column_lem index c s hi hc (valid, knows) =
      let w = index ++ c in
      let (t, resolved, same, asked, valid') =
        resolve_or_add_query_lem o.answer w s.base (IsWord-concat index c hi hc) valid in
      (
        t,
        rw (IsWord-is_bottom c hc, resolved, knows w)
            (elim (Option-cases (K w)) [
              | inl e ↦ rw (e, after) refl
              | inr (a, e) ↦ rw (e, after) refl
            ]),
        (valid', λ v. same v ∙ knows v),
        λ v.
            asked v
            ∙ ap (λ b. contains v s.base.required || word_eq v w && b)
                (unknown_entry s.base w (knows w)),
      )

  fill_columns_lem :
      (index : Word) (columns : List Word) (s : Filling A)
      → IsWord index
      → All IsWord columns
      → Knows s.base
      → (s' : Filling A) × (fill_columns o none index columns s ≡ some s')
        × Knows s'.base
        × (s'.filled
            ≡ (if s.column_skipped then s.filled else s.filled ++ known_prefix K index columns))
        × (s'.complete ≡ (s.complete && all_known K index columns))
        × Asked (asks K index columns) s.base s'.base
  unfolding fill_columns known_prefix all_known asks after
  fill_columns_lem index [] s hi hc k =
      (s, refl, k, ground (arith, append-nil s.filled), ground arith, λ v. ground arith)
  fill_columns_lem index (c ∷ columns) s hi hc k =
      let (base', filled, k', asked) = fill_column_lem index c s hi hc.0 k in
      elim (Option-cases (K (index ++ c))) [
        | inl e ↦
            let next : Filling A = record s {
              column_skipped = true;
              complete = false;
              base = base';
            } in
            let step : fill_column o none index c s ≡ some next = filled ∙ rw (e, after) refl in
            let (s', rest, k'', acceptance, complete, more) =
              fill_columns_lem index columns next hi hc.1 k' in
            (
              s',
              rw (step, fill_columns) rest,
              k'',
              rw (e, known_prefix) (ground (arith, acceptance, append-nil s.filled)),
              rw (e, all_known) (ground (arith, complete)),
              λ v. ground (arith, more v, asked v),
            )
        | inr (a, e) ↦
            let next : Filling A = record s {
              filled = if s.column_skipped then s.filled else s.filled ++ a ∷ [];
              base = base';
            } in
            let step : fill_column o none index c s ≡ some next = filled ∙ rw (e, after) refl in
            let (s', rest, k'', acceptance, complete, more) =
              fill_columns_lem index columns next hi hc.1 k' in
            (
              s',
              rw (step, fill_columns) rest,
              k'',
              rw (e, known_prefix)
                  (ground (
                    arith,
                    acceptance,
                    append_assoc s.filled (a ∷ []) (known_prefix K index columns),
                  )),
              rw (e, all_known) complete,
              λ v. ground (arith, more v, asked v, e),
            )
      ]

  All-drop : (n : ℕ) (columns : List Word) → All IsWord columns → All IsWord (drop n columns)
  All-drop zero columns h = h
  All-drop (suc n) [] h = tt
  All-drop (suc n) (c ∷ columns) h = All-drop n columns h.1

  fill_row_lem :
      (columns : List Word) (r : Row A) (complete : Bool) (base : Base A)
      → All IsWord columns
      → IsRow K columns r
      → Knows base
      → (base' : Base A) × (fill_row o none columns r complete base
          ≡ some (filled_row K columns r, complete && all_known K r.index columns, base'))
        × Knows base'
        × Asked (asks K r.index columns) base base'
  unfolding fill_row filled_row
  fill_row_lem columns r complete base hc (hi, agrees) k =
      elim (Bool-cases (ltb (length r.acceptance) (length columns))) [
        | inl e ↦
            let n = length r.acceptance in
            let (s, filled, k', acceptance, all, more) =
              fill_columns_lem r.index (drop n columns)
                (record {
                  column_skipped = false;
                  complete = complete;
                  filled = r.acceptance;
                  base = base;
                })
                hi (All-drop n columns hc) k in
            let (prefix, known, ask) = known_prefix-drop K r.index columns r.acceptance agrees in
            (
              s.base,
              rw (e, IsWord-is_bottom r.index hi, filled, acceptance, prefix, all, known) refl,
              k',
              λ v. more v ∙ rw (ask v) refl,
            )
        | inr e ↦
            let (whole, known, ask) = whole_row K r.index columns r.acceptance agrees e in
            (base, rw (e, ← whole, known) (ground arith), k, λ v. ground (arith, ask v))
      ]

  -- Without a filter, where columns have no negative symbols, a valid knowledgebase knows just
  -- what a map says, and the rows hold answers of their first columns by that map,
  -- fill_missing_columns returns: the rows then hold the answers of the columns before the first
  -- that is unknown, the result says whether none is unknown, the knowledge is what it was and
  -- the knowledgebase is valid, and the queries are those before and each unknown word of a row
  -- and a column.
  pub fill_missing_columns_lem :
      (columns : List Word) (rows : List (Row A)) (complete : Bool) (base : Base A)
      → All IsWord columns
      → All (IsRow K columns) rows
      → Knows base
      → (base' : Base A) × (fill_missing_columns o none columns rows complete base
          ≡ some (complete && rows_known K columns rows, map (filled_row K columns) rows, base'))
        × Knows base'
        × Asked (rows_ask K columns rows) base base'
  unfolding fill_missing_columns rows_known rows_ask
  fill_missing_columns_lem columns [] complete base hc h k =
      (base, ground arith, k, λ v. ground arith)
  fill_missing_columns_lem columns (r ∷ rows) complete base hc h k =
      let (base1, first, k1, asked1) = fill_row_lem columns r complete base hc h.0 k in
      let (base2, rest, k2, asked2) =
        fill_missing_columns_lem columns rows (complete && all_known K r.index columns) base1 hc h.1
          k1 in
      (
        base2,
        rw (first, fill_missing_columns) (rw (rest, fill_missing_columns) (ground arith)),
        k2,
        λ v. ground (arith, asked1 v, asked2 v),
      )
