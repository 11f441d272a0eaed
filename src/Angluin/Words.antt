-- ===== src/Angluin/Words.antt =====
-- algorithm_angluin.h: add_word_to_upper_table, where there is no normalizer.
use libalf.Common.{
  ℕ, ◌≡◌, refl, ap, sym, subst, ◌∙◌, List, [], ◌∷◌, ◌++◌, Bool, true, false, ◌||◌, Option, none,
  some, Word, IsWord, word_eq, word_eq_iff, contains, All, arith, Bool-cases, Option-cases, inl,
  inr,
}
use libalf.Angluin.Table.{Row, Table, take_out}
use libalf.Angluin.Rows.{new_row, push_upper, enter, successors, add_word_to_upper_table}
use libalf.Angluin.Knows.{IsRow}
use libalf.Angluin.Shape.{indices, found-search, successors_lem}
use libalf.Angluin.Adding.{IsTable, entered-IsTable}

module _ {A : Type 0} where
  pub take_out_lem :
      (P : Row A → Type 0) (w : Word) (rows : List (Row A)) (r : Row A) (rest : List (Row A))
      → take_out w rows ≡ some (r, rest)
      → All P rows
      → (r.index ≡ w)
        × P r
        × All P rest
        × ((u : Word)
            → contains u (indices rows) ≡ true
            → (word_eq u w || contains u (indices rest)) ≡ true)
  unfolding take_out
  take_out_lem P w [] r rest e h = absurd (cc e)
  take_out_lem P w (s ∷ rows) r rest e h = elim (Bool-cases (word_eq w s.index)) [
    | inl here ↦
        let first : s ≡ r = ground arith in
        let others : rows ≡ rest = ground arith in
        (
          sym (ap (λ x. x.index) first) ∙ sym ((word_eq_iff w s.index).0 here),
          subst P first h.0,
          subst (All P) others h.1,
          λ u c. ground (arith, word_eq_iff w s.index),
        )
    | inr other ↦ elim (Option-cases (take_out w rows)) [
      | inl missing ↦ absurd (ground arith)
      | inr ((r', rest'), taken) ↦
          let (same, here, there, gone) = take_out_lem P w rows r' rest' taken h.1 in
          let first : r' ≡ r = ground arith in
          let others : s ∷ rest' ≡ rest = ground arith in
          (
            subst (λ x. x.index ≡ w) first same,
            subst P first here,
            subst (All P) others (h.0, there),
            λ u c.
                subst (λ l. (word_eq u w || contains u (indices l)) ≡ true) others
                  (ground (arith, gone u)),
          )
    ]
  ]

  -- What add_word_to_upper_table does for a word that has no row in the upper table.
  pub record Enters (K : Word → Option A) (w : Word) (t t' : Table A) : Type 0 where
    pub row : Row A
    pub index : row.index ≡ w
    pub upper : t'.upper_table ≡ t.upper_table ++ row ∷ []
    pub names : t'.column_names ≡ t.column_names
    pub size : t'.alphabet_size ≡ t.alphabet_size
    pub started : t'.initialized ≡ t.initialized
    pub valid : IsTable K t'

module _ {A : Type 0} (K : Word → Option A) (now : ℕ) (w : Word) (t : Table A) (v : IsTable K t)
    (word : IsWord w) (absent : contains w (indices t.upper_table) ≡ false) where
  -- A row that came from elsewhere, and the rest of the lower table.
  add_row :
      (uniq : Bool) (r : Row A) (lower : List (Row A))
      → r.index ≡ w
      → IsRow K t.column_names r
      → All (IsRow K t.column_names) lower
      → ((u : Word)
          → contains u (indices t.lower_table) ≡ true
          → (word_eq u w || contains u (indices lower)) ≡ true)
      → Enters K w t (
          successors none uniq now w t.alphabet_size 0
            (push_upper r (record t { lower_table = lower })))
  add_row uniq r lower same row rows gone =
      let t' = push_upper r (record t { lower_table = lower }) in
      let (extra, e, fresh, there) = successors_lem uniq now w t.alphabet_size 0 t' word in
      rw e record {
        row = r;
        index = same;
        upper = refl;
        names = refl;
        size = refl;
        started = refl;
        valid = entered-IsTable K t v w r same row absent lower rows gone extra fresh there;
      }

  add_new :
      (uniq : Bool)
      → Enters K w t (successors none uniq now w t.alphabet_size 0 (push_upper (new_row w now 0) t))
  add_new uniq =
      add_row uniq (new_row w now 0) t.lower_table refl (word, tt) v.lower (λ u c. ground arith)

  enter_new : take_out w t.lower_table ≡ none → enter true now w t ≡ push_upper (new_row w now 0) t
  unfolding enter
  enter_new e = rw (e, enter) refl

  enter_moved :
      (r : Row A) (rest : List (Row A))
      → take_out w t.lower_table ≡ some (r, rest)
      → enter true now w t
        ≡ push_upper (record r { ut_timestamp = now }) (record t { lower_table = rest })
  unfolding enter
  enter_moved r rest e = rw (e, enter) refl

  enter_first : enter false now w t ≡ push_upper (new_row w now 0) t
  unfolding enter
  enter_first = refl

  -- Without a normalizer, for a word without negative symbols that is not in the upper table,
  -- add_word_to_upper_table keeps the invariant of the table, whether it looks for the word in
  -- the lower table or not: columns and rows have no negative symbols, the empty word is the
  -- first column and a row, no column and no upper row is there twice, what is filled in is
  -- known, and every upper word with one symbol more has a row; a row of the word is added at the
  -- end of the upper table, and the columns and the alphabet stay.
  pub add_word-Enters :
      (check_uniq : Bool) → Enters K w t (add_word_to_upper_table none check_uniq now w t)
  unfolding add_word_to_upper_table
  add_word-Enters false = rw enter_first (add_new false)
  add_word-Enters true = elim (Option-cases (take_out w t.lower_table)) [
    | inl e ↦ rw (found-search w t.upper_table, absent, enter_new e) (add_new true)
    | inr ((r, rest), e) ↦
        let (same, row, rows, gone) =
          take_out_lem (IsRow K t.column_names) w t.lower_table r rest e v.lower in
        rw (found-search w t.upper_table, absent, enter_moved r rest e)
          (add_row true (record r { ut_timestamp = now }) rest same row rows gone)
  ]
