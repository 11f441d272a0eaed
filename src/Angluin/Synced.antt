-- ===== src/Angluin/Synced.antt =====
-- algorithm_angluin.h: the rows after sync_to_knowledgebase.
use libalf.Common.{
  ◌≡◌, refl, sym, subst, List, [], ◌∷◌, ◌++◌, Bool, true, false, ◌&&◌, ◌||◌, Option, none, length,
  ◌==◌, if◌then◌else◌, Word, All, arith, Bool-cases, Option-cases, inl, inr,
}
use libalf.Filter.{FilterAnswer}
use libalf.Knowledgebase.Base.{Base, resolve_query}
use libalf.Knowledgebase.Base.Entries.{known}
use libalf.Angluin.Table.{Row, Table}
use libalf.Angluin.Knows.{Agrees}
use libalf.Angluin.Consistent.{IsEquality}
use libalf.Angluin.Sync.{
  sync_columns, sync_upper, sync_lower, sync_entries, sync_table_acceptances, sync_tables,
  sync_to_knowledgebase,
}

module _ {A : Type 0} (o : FilterAnswer A) (eq : IsEquality o) (K : Word → Option A) where
  abbrev Keeps : Base A → Type 0
  Keeps base = (v : Word) → known o.answer base v ≡ K v

  resolved :
      (w : Word) (base : Base A)
      → Keeps base
      → ((resolve_query o.answer none w base).0 ≡ K w)
        × Keeps (resolve_query o.answer none w base).1
  unfolding resolve_query
  resolved w base k = (ground (arith, k w), λ v. ground (arith, k v))

  entry_kept : (a b : A) → (if o.differs a b then b else a) ≡ b
  entry_kept a b = ground (arith, eq.same_iff a b, eq.differs_not a b)

  sync_entries_lem :
      (index : Word) (columns : List Word) (acceptance : List A) (base : Base A)
      → Keeps base
      → Agrees K index columns (sync_entries o none index columns acceptance base).0
        × Keeps (sync_entries o none index columns acceptance base).1
  unfolding sync_entries
  sync_entries_lem index [] acceptance base k = (tt, k)
  sync_entries_lem index (c ∷ columns) [] base k = (tt, k)
  sync_entries_lem index (c ∷ columns) (a ∷ acceptance) base k =
      let (answer, k') = resolved (index ++ c) base k in
      elim (Option-cases (K (index ++ c))) [
        | inl e ↦ rw (answer, e, sync_entries) (tt, k')
        | inr (b, e) ↦
            let (rest, k'') =
              sync_entries_lem index columns acceptance
                (resolve_query o.answer none (index ++ c) base).1 k' in
            rw (answer, e, entry_kept a b, sync_entries) ((e, rest), k'')
      ]

  abbrev pub IsSynced : List Word → List (Row A) → Type 0
  IsSynced columns rows = All (λ r. Agrees K r.index columns r.acceptance) rows

  rows_lem :
      (columns : List Word) (rows : List (Row A)) (base : Base A)
      → Keeps base
      → IsSynced columns (sync_table_acceptances o none columns rows base).0
        × Keeps (sync_table_acceptances o none columns rows base).1
  unfolding sync_table_acceptances
  rows_lem columns [] base k = (tt, k)
  rows_lem columns (r ∷ rows) base k =
      let (acceptance, k') = sync_entries_lem r.index columns r.acceptance base k in
      let (rest, k'') =
        rows_lem columns rows (sync_entries o none r.index columns r.acceptance base).1 k' in
      ((acceptance, rest), k'')

  abbrev pub SyncedTable : Bool × Table A × Base A → Type 0
  SyncedTable (b, t, base) =
      IsSynced t.column_names t.upper_table × IsSynced t.column_names t.lower_table × Keeps base

  tables_lem : (t : Table A) (base : Base A) → Keeps base → SyncedTable (sync_tables o none t base)
  unfolding sync_tables
  tables_lem t base k =
      let upper = (sync_upper base.timestamp t.upper_table).0 in
      let lower =
        sync_lower base.timestamp (t.lower_table ++ (sync_upper base.timestamp t.upper_table).1) in
      elim (Bool-cases (length upper == 0 || length lower == 0)) [
        | inl e ↦ rw (e, sync_tables) (tt, tt, k)
        | inr e ↦
            let (upper', k') = rows_lem t.column_names upper base k in
            let (lower', k'') =
              rows_lem t.column_names lower
                (sync_table_acceptances o none t.column_names upper base).1 k' in
            rw (e, sync_tables) (upper', lower', k'')
      ]

chosen : {B : Type 0} → (b : Bool) (x y : B) → b ≡ true → (if b then x else y) ≡ x
chosen b x y e = rw e refl

-- Where operator== of the answers decides their equality and operator!= is its negation, without
-- a filter, for an initialized table, after sync_to_knowledgebase the knowledge is what it was,
-- and each row of the table holds answers that the knowledgebase knows, of the first of the
-- columns that are left.
pub sync_to_knowledgebase_lem :
    {A : Type 0}
    → (o : FilterAnswer A) (eq : IsEquality o) (t : Table A) (base : Base A) → t.initialized ≡ true
    → SyncedTable o eq (known o.answer base) (sync_to_knowledgebase o none t base)
unfolding sync_to_knowledgebase
sync_to_knowledgebase_lem o eq t base started =
    let t' = (sync_columns base.timestamp t).1 in
    let synced = sync_tables o none t' base in
    subst (SyncedTable o eq (known o.answer base))
      (sym (
        chosen t.initialized ((sync_columns base.timestamp t).0 && synced.0, synced.1, synced.2)
          (false, t, base) started))
      (tables_lem o eq (known o.answer base) t' base (λ v. refl))
