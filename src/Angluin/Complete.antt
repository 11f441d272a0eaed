-- ===== src/Angluin/Complete.antt =====
-- algorithm_angluin.h: close, is_consistent, make_consistent and complete.
use libalf.Common.{
  ℕ, zero, suc, ◌+◌, List, [], ◌∷◌, ◌++◌, Bool, true, false, Option, none, some, ◌==◌, length, ◌&&◌,
  if◌then◌else◌, pos, Word,
}
use libalf.Knowledgebase.Base
use libalf.Knowledgebase.Base.{Base}
use libalf.Filter.{FilterAnswer}
use libalf.Angluin.Table.{
  is_bottom, Normalizer, prefix_normal, Row, Table, search_tables, add_column, same_acceptance,
  has_match, columns_filled, is_closed,
}
use libalf.Angluin.Rows.{add_word_to_upper_table, initialize_table}
use libalf.Angluin.Fill.{fill_missing_columns}

-- The outcome of loops that may return early: `none` is undefined behaviour, here an iterator at
-- the end that is dereferenced or front() of an empty word, `some none` means that the loop went through.
abbrev pub first_return : {B : Type 0} → Option (Option B) → Option (Option B) → Option (Option B)
first_return none rest = none
first_return (some (some b)) rest = some (some b)
first_return (some none) rest = rest

module _ {A : Type 0} (o : FilterAnswer A) (norm : Option Normalizer) where
  -- The test of the first symbol is defined: the word has one, or its size is tested first.
  unfoldable pub reads : Bool → Word → Bool
  reads sized [] = sized
  reads sized (x ∷ w) = true

  -- The row of the word with one symbol more. `sized` says whether the size is tested before the
  -- word's first symbol is read: make_consistent does, is_consistent does not, so that it reads
  -- front() of an empty word, which is undefined.
  unfoldable pub successor : Bool → Table A → Word → ℕ → Option (Row A)
  successor sized t w sigma =
      if reads sized w
      then search_tables (prefix_normal norm (if is_bottom w then w else w ++ pos sigma ∷ [])).0 t
      else none

  -- The loops of is_consistent and make_consistent, over pairs of equal rows of the upper table
  -- and over the alphabet. `at_difference` is what they do where the rows of the successors differ. The
  -- entries of urow_ok are set for rows that are not looked at again, so no test of it succeeds.
  module _ {B : Type 0} (sized : Bool) (at_difference : ℕ → Row A → Row A → Option B)
      (t : Table A) where
    unfoldable pub compare_rows : ℕ → Option (Row A) → Option (Row A) → Option (Option B)
    compare_rows sigma none s = none
    compare_rows sigma (some r) none = none
    compare_rows sigma (some r) (some s) =
        if same_acceptance o.answer r.acceptance s.acceptance
        then some none
        else some (at_difference sigma r s)

    -- `rounds` is what is left of the alphabet from `sigma` on.
    unfoldable pub symbols_loop : Word → Word → ℕ → ℕ → Option (Option B)
    symbols_loop word1 word2 zero sigma = some none
    symbols_loop word1 word2 (suc rounds) sigma =
        first_return
          (compare_rows sigma (successor sized t word1 sigma) (successor sized t word2 sigma))
          (symbols_loop word1 word2 rounds (sigma + 1))

    unfoldable pub second_loop : Row A → List (Row A) → Option (Option B)
    second_loop r [] = some none
    second_loop r (s ∷ rows) =
        first_return
          (if same_acceptance o.answer r.acceptance s.acceptance
            then symbols_loop r.index s.index t.alphabet_size 0
            else some none)
          (second_loop r rows)

    unfoldable pub first_loop : List (Row A) → Option (Option B)
    first_loop [] = some none
    first_loop (r ∷ rows) = first_return (second_loop r rows) (first_loop rows)

  abbrev pub stop : ℕ → Row A → Row A → Option Bool
  stop sigma r s = some false

  unfoldable pub is_consistent : Table A → Option Bool
  is_consistent t = elim (first_loop false stop t t.upper_table) [
    | none ↦ none
    | some none ↦ some true
    | some (some b) ↦ some b
  ]

  -- The new suffix: the symbol before the first column in which the rows differ.
  unfoldable pub separate : ℕ → List Word → List A → List A → Option Word
  separate sigma (c ∷ columns) (a ∷ as') (b ∷ bs) =
      if o.differs a b then some (pos sigma ∷ c) else separate sigma columns as' bs
  separate sigma (c ∷ columns) (a ∷ as') [] = none
  separate sigma (c ∷ columns) [] bs = none
  separate sigma [] as' bs = none

  unfoldable pub new_suffix : List Word → ℕ → Row A → Row A → Option Word
  new_suffix columns sigma r s =
      if length r.acceptance == length s.acceptance
      then separate sigma columns r.acceptance s.acceptance
      else none

  unfoldable pub make_consistent : ℕ → Table A → Option (Bool × Table A)
  make_consistent now t = elim (first_loop true (new_suffix t.column_names) t t.upper_table) [
    | none ↦ none
    | some none ↦ some (true, t)
    | some (some suffix) ↦ some (false, (add_column norm now suffix t).1)
  ]

  -- The row that close moves up.
  unfoldable pub first_unmatched : List (Row A) → List (Row A) → Option (Row A)
  first_unmatched upper [] = none
  first_unmatched upper (r ∷ lower) =
      if has_match o.answer r upper then first_unmatched upper lower else some r

  unfoldable pub close : ℕ → Table A → Bool × Table A
  close now t = elim (first_unmatched t.upper_table t.lower_table) [
    | none ↦ (true, t)
    | some r ↦ (false, add_word_to_upper_table norm false now r.index t)
  ]

  -- The body of complete: it returns, or calls itself.
  pub data Outcome : Type 0 where
    returns : Bool → Table A → Base A → Outcome
    again : Table A → Base A → Outcome

  unfoldable pub settle : Table A → Base A → Option Outcome
  settle t base = elim ((close base.timestamp t).0) [
    | false ↦ some (again (close base.timestamp t).1 base)
    | true ↦ elim (make_consistent base.timestamp t) [
      | none ↦ none
      | some (false, t') ↦ some (again t' base)
      | some (true, t') ↦ some (returns true t' base)
    ]
  ]

  module _ (f : Option (Base.Filter o.answer)) where
    unfoldable pub fill_lower : Table A → Base A → Option Outcome
    fill_lower t base = elim (fill_missing_columns o f t.column_names t.lower_table true base) [
      | none ↦ none
      | some (false, lower, base') ↦ some (returns false (record t { lower_table = lower }) base')
      | some (true, lower, base') ↦ settle (record t { lower_table = lower }) base'
    ]

    unfoldable pub fill_upper : Table A → Base A → Option Outcome
    fill_upper t base = elim (fill_missing_columns o f t.column_names t.upper_table true base) [
      | none ↦ none
      | some (false, upper, base') ↦ some (returns false (record t { upper_table = upper }) base')
      | some (true, upper, base') ↦ fill_lower (record t { upper_table = upper }) base'
    ]

    -- `none` is undefined behaviour, or that the fuel ran out.
    unfoldable pub complete : ℕ → Table A → Base A → Option (Bool × Table A × Base A)
    complete zero t base = none
    complete (suc fuel) t base =
        elim (fill_upper (if t.initialized then t else initialize_table norm base.timestamp t)
          base) [
            | none ↦ none
            | some (returns b t' base') ↦ some (b, t', base')
            | some (again t' base') ↦ complete fuel t' base'
          ]

  -- A conjecture can be derived.
  unfoldable pub conjecture_ready : Table A → Option Bool
  conjecture_ready t =
      if t.initialized && columns_filled t && is_closed o.answer t
      then is_consistent t
      else some false
