-- ===== src/Angluin/Passes.antt =====
-- algorithm_angluin.h: one pass of complete over a table, without a normalizer and without a filter.
use libalf.Common.{
  ℕ, suc, ◌+◌, ◌≤◌, ◌≡◌, refl, ap, subst, List, [], ◌∷◌, ◌++◌, map, Bool, true, false, Option, none,
  some, length, length-append, Word, word_eq_refl, contains, All, arith, Bool-cases, inl, inr,
}
use libalf.Filter.{FilterAnswer}
use libalf.Knowledgebase.Base.{Base}
use libalf.Angluin.Table.{Row, Table, add_column}
use libalf.Angluin.Rows.{add_word_to_upper_table}
use libalf.Angluin.Complete.{returns, again, settle, fill_lower, fill_upper, Outcome}
use libalf.Angluin.Knows.{all_known, is_unknown, asks, filled_row, rows_known, rows_ask}
use libalf.Angluin.Adding.{IsTable}
use libalf.Angluin.Words.{Enters, add_word-Enters}
use libalf.Angluin.Filling.{Knows, Asked, fill_missing_columns_lem}
use libalf.Angluin.Full.{IsFull, IsFilled, upper_filled, lower_filled, filled-IsFull}
use libalf.Angluin.Consistent.{IsEquality}
use libalf.Angluin.Separating.{IsConsistent, Separates-absent}
use libalf.Angluin.Deciding.{make_consistent_lem}
use libalf.Angluin.Closing.{IsClosed, close_lem, unmatched-absent}
use libalf.Angluin.Growing.{measure, measure_bound, add_column-IsTable}

module _ {A : Type 0} (K : Word → Option A) where
  -- A table from which a conjecture is derived.
  pub record IsReady (t : Table A) : Type 0 where
    pub filled : IsFilled K t
    pub closed : IsClosed K t
    pub consistent : IsConsistent K t

  -- A table that waits for the answer to a query.
  pub record IsWaiting (t : Table A) (base : Base A) : Type 0 where
    pub valid : IsTable K t
    pub query : Word
    pub unknown : is_unknown K query ≡ true
    pub asked : contains query base.required ≡ true

  abbrev pub Completed : Bool → Table A → Base A → Type 0
  Completed true t base = IsReady t
  Completed false t base = IsWaiting t base

  asked_column :
      (index : Word) (columns : List Word)
      → all_known K index columns ≡ false
      → (v : Word) × (asks K index columns v ≡ true) × (is_unknown K v ≡ true)
  unfolding all_known asks
  asked_column index [] h = absurd (cc h)
  asked_column index (c ∷ columns) h = elim (Bool-cases (is_unknown K (index ++ c))) [
    | inl e ↦ (index ++ c, ground (arith, word_eq_refl (index ++ c)), e)
    | inr e ↦
        let (v, asked, unknown) = asked_column index columns (ground arith) in
        (v, ground arith, unknown)
  ]

  asked_row :
      (columns : List Word) (rows : List (Row A))
      → rows_known K columns rows ≡ false
      → (v : Word) × (rows_ask K columns rows v ≡ true) × (is_unknown K v ≡ true)
  unfolding rows_known rows_ask
  asked_row columns [] h = absurd (cc h)
  asked_row columns (r ∷ rows) h = elim (Bool-cases (all_known K r.index columns)) [
    | inl e ↦
        let (v, asked, unknown) = asked_row columns rows (ground arith) in
        (v, ground arith, unknown)
    | inr e ↦ let (v, asked, unknown) = asked_column r.index columns e in (v, ground arith, unknown)
  ]

  larger : (t : Table A) (w : Word) (t' : Table A) → Enters K w t t' → measure t' ≡ measure t + 1
  larger t w t' grown =
      rw (grown.upper, grown.names) (omega (arith, length-append t.upper_table (grown.row ∷ [])))

  module _ (o : FilterAnswer A) (eq : IsEquality o) (l : List Word)
      (listed : (w : Word) → is_unknown K w ≡ false → contains w l ≡ true) where
    -- What one pass over a table makes of it: it ends, or goes on with a larger table, where the
    -- first one was not larger than what is known allows.
    abbrev pub Passed : Bool → ℕ → Outcome o none → Type 0
    Passed started size (returns b t' base') =
        Knows o K base' × Completed b t' base' × (t'.initialized ≡ started)
    Passed started size (again t' base') =
        Knows o K base'
        × IsTable K t'
        × (t'.initialized ≡ started)
        × (measure t' ≡ size + 1)
        × (size ≤ length l + length l)

    settle_lem :
        (t : Table A) (base : Base A)
        → IsFilled K t
        → Knows o K base
        → (out : Outcome o none) × (settle o none t base ≡ some out)
          × Passed t.initialized (measure t) out
    unfolding settle
    settle_lem t base v k =
        let small = measure_bound K t v l listed in
        elim (close_lem K o eq t v base.timestamp) [
          | inr (w, closed, unmatched) ↦
              let grown =
                add_word-Enters K base.timestamp w t v.valid unmatched.word
                  (unmatched-absent K t w unmatched) false in
              (
                again (add_word_to_upper_table none false base.timestamp w t) base,
                rw (closed, settle) (ap (λ p. some (again p.1 base)) closed),
                (k, grown.valid, grown.started, larger t w _ grown, small),
              )
          | inl (closed, all) ↦ elim (make_consistent_lem o eq K t v base.timestamp) [
            | inl (through, consistent) ↦ (
              returns true t base,
              rw (closed, settle) (rw (through, settle) refl),
              (k, record { filled = v; closed = all; consistent = consistent }, refl),
            )
            | inr (suffix, added, separates) ↦
                let (valid, more, started) =
                  add_column-IsTable K base.timestamp suffix t v.valid separates.word
                    (Separates-absent K t suffix v separates) in
                (
                  again (add_column none base.timestamp suffix t).1 base,
                  rw (closed, settle) (rw (added, settle) refl),
                  (k, valid, started, more, small),
                )
          ]
        ]

    waits :
        (t : Table A) (base base' : Base A) (columns : List Word) (rows : List (Row A))
        → IsTable K t
        → Asked o K (rows_ask K columns rows) base base'
        → rows_known K columns rows ≡ false
        → IsWaiting t base'
    waits t base base' columns rows v asked e =
        let (query, ask, unknown) = asked_row columns rows e in
        record { valid = v; query = query; unknown = unknown; asked = ground (arith, asked query) }

    lower_lem :
        (t : Table A) (base : Base A)
        → IsTable K t
        → All (IsFull K t.column_names) t.upper_table
        → Knows o K base
        → (out : Outcome o none) × (fill_lower o none none t base ≡ some out)
          × Passed t.initialized (measure t) out
    unfolding fill_lower
    lower_lem t base v upper k =
        let columns = t.column_names in
        let (base', filled, k', asked) =
          fill_missing_columns_lem o K columns t.lower_table true base v.columns v.lower k in
        let t' : Table A = record t { lower_table = map (filled_row K columns) t.lower_table } in
        let v' = lower_filled K t v in
        elim (Bool-cases (rows_known K columns t.lower_table)) [
          | inl e ↦
              let (out, settled, passed) =
                settle_lem t' base'
                  (record {
                    valid = v';
                    upper = upper;
                    lower = filled-IsFull K columns t.lower_table e;
                  })
                  k' in
              (out, rw (filled, e, fill_lower) settled, passed)
          | inr e ↦ (
            returns false t' base',
            rw (filled, e, fill_lower) refl,
            (k', waits t' base base' columns t.lower_table v' asked e, refl),
          )
        ]

    length-filled :
        (columns : List Word) (rows : List (Row A))
        → length (map (filled_row K columns) rows) ≡ length rows
    length-filled columns [] = refl
    length-filled columns (r ∷ rows) = ap suc (length-filled columns rows)

    pub upper_lem :
        (t : Table A) (base : Base A)
        → IsTable K t
        → Knows o K base
        → (out : Outcome o none) × (fill_upper o none none t base ≡ some out)
          × Passed t.initialized (measure t) out
    unfolding fill_upper
    upper_lem t base v k =
        let columns = t.column_names in
        let (base', filled, k', asked) =
          fill_missing_columns_lem o K columns t.upper_table true base v.columns v.upper k in
        let t' : Table A = record t { upper_table = map (filled_row K columns) t.upper_table } in
        let v' = upper_filled K t v in
        elim (Bool-cases (rows_known K columns t.upper_table)) [
          | inl e ↦
              let (out, passed, ends) =
                lower_lem t' base' v' (filled-IsFull K columns t.upper_table e) k' in
              (
                out,
                rw (filled, e, fill_upper) passed,
                subst (λ n. Passed t.initialized (n + length columns) out)
                    (length-filled columns t.upper_table) ends,
              )
          | inr e ↦ (
            returns false t' base',
            rw (filled, e, fill_upper) refl,
            (k', waits t' base base' columns t.upper_table v' asked e, refl),
          )
        ]
