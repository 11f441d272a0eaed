-- ===== src/Angluin/Sync.antt =====
-- algorithm_angluin.h: sync_to_knowledgebase.
use libalf.Common.{
  pop_back, ℕ, zero, suc, List, [], ◌∷◌, ◌++◌, Bool, true, false, ◌&&◌, ◌||◌, Option, none, some,
  leb, ltb, length, ◌==◌, if◌then◌else◌, Word,
}
use libalf.Knowledgebase.Base
use libalf.Knowledgebase.Base.{Base, resolve_query}
use libalf.Filter.{FilterAnswer}
use libalf.Angluin.Table.{Row, Table}

-- Whether back() is older than `now`.
abbrev pub back_older : ℕ → List ℕ → Bool
back_older now [] = false
back_older now (s ∷ []) = ltb s now
back_older now (s ∷ s' ∷ stamps) = back_older now (s' ∷ stamps)

module _ {A : Type 0} where
  abbrev pub reset : Table A → Table A
  reset t = record t { upper_table = []; lower_table = []; initialized = false }

  -- The loop of sync_columns, with as many rounds as there are time stamps.
  unfoldable pub columns_loop : ℕ → ℕ → Table A → Bool × Table A
  columns_loop zero now t = (false, reset t)
  columns_loop (suc rounds) now t =
      let rest = columns_loop rounds now (record t {
        column_names = pop_back t.column_names;
        column_timestamps = pop_back t.column_timestamps;
      }) in
      if back_older now t.column_timestamps then (true, t) else rest

  unfoldable pub sync_columns : ℕ → Table A → Bool × Table A
  sync_columns now t = columns_loop (length t.column_timestamps) now t

  -- The loops of sync_tables over the rows: those that stay, and those that move down.
  unfoldable pub sync_upper : ℕ → List (Row A) → List (Row A) × List (Row A)
  sync_upper now [] = ([], [])
  sync_upper now (r ∷ upper) =
      let (stay, down) = sync_upper now upper in
      if leb now r.ut_timestamp
      then if ltb 0 r.lt_timestamp && ltb r.lt_timestamp now
        then (stay, record r { lt_timestamp = 0 } ∷ down)
        else (stay, down)
      else (r ∷ stay, down)

  unfoldable pub sync_lower : ℕ → List (Row A) → List (Row A)
  sync_lower now [] = []
  sync_lower now (r ∷ lower) =
      let rest = sync_lower now lower in if leb now r.lt_timestamp then rest else r ∷ rest

module _ {A : Type 0} (o : FilterAnswer A) (f : Option (Base.Filter o.answer)) where
  -- The entries of a row that the knowledgebase still answers, and those behind them removed.
  unfoldable pub sync_entries : Word → List Word → List A → Base A → List A × Base A
  sync_entries index [] acceptance base = ([], base)
  sync_entries index (c ∷ columns) [] base = ([], base)
  sync_entries index (c ∷ columns) (a ∷ acceptance) base =
      let (answer, base') = resolve_query o.answer f (index ++ c) base in
      elim answer [
        | none ↦ ([], base')
        | some b ↦
            let (rest, base'') = sync_entries index columns acceptance base' in
            ((if o.differs a b then b else a) ∷ rest, base'')
      ]

  unfoldable pub sync_table_acceptances : List Word → List (Row A) → Base A → List (Row A) × Base A
  sync_table_acceptances columns [] base = ([], base)
  sync_table_acceptances columns (r ∷ rows) base =
      let (acceptance, base') = sync_entries r.index columns r.acceptance base in
      let (rows', base'') = sync_table_acceptances columns rows base' in
      (record r { acceptance = acceptance } ∷ rows', base'')

  unfoldable pub sync_tables : Table A → Base A → Bool × Table A × Base A
  sync_tables t base =
      let now = base.timestamp in
      let (upper, down) = sync_upper now t.upper_table in
      let lower = sync_lower now (t.lower_table ++ down) in
      if length upper == 0 || length lower == 0
      then (false, reset t, base)
      else let (upper', base') = sync_table_acceptances t.column_names upper base in
        let (lower', base'') = sync_table_acceptances t.column_names lower base' in
        (true, record t { upper_table = upper'; lower_table = lower' }, base'')

  -- With a knowledgebase.
  unfoldable pub sync_to_knowledgebase : Table A → Base A → Bool × Table A × Base A
  sync_to_knowledgebase t base =
      let (columns, t') = sync_columns base.timestamp t in
      let (tables, t'', base') = sync_tables t' base in
      if t.initialized then (columns && tables, t'', base') else (false, t, base)
