-- ===== src/Angluin/Hypothesis.antt =====
-- algorithm_angluin.h, derive_conjecture_memorize: the machine of a closed and consistent table.
use libalf.Common.{
  ℕ, zero, suc, ◌+◌, ◌≤◌, ◌<◌, ◌≡◌, refl, ap, sym, subst, ◌∙◌, List, [], ◌∷◌, ◌++◌, true, Option,
  none, some, ℤ, pos, Word, IsWord, word_eq, word_eq_iff, word_eq_refl, contains, All, arith,
  Bool-cases, inl, inr,
}
use libalf.Filter.{FilterAnswer}
use libalf.Conjecture.{lookup}
use libalf.Angluin.Table.{Row, Table}
use libalf.Angluin.Derive.{states_loop, state_of, with_target, symbol_transitions}
use libalf.Angluin.Knows.{known_prefix, IsRow}
use libalf.Angluin.Shape.{indices, le-cases}
use libalf.Angluin.Adding.{in_tables}
use libalf.Angluin.Full.{IsFull, search_tables-IsFull}
use libalf.Angluin.Consistent.{IsEquality}
use libalf.Angluin.Passes.{IsReady}
use libalf.Angluin.States.{lookup_here, lookup_later, Occurs, states_loop-has, states_loop-All}

module _ {A : Type 0} (o : FilterAnswer A) (eq : IsEquality o) (K : Word → Option A) (t : Table A)
    (ready : IsReady K t) where
  abbrev row : Word → List A
  row w = known_prefix K w t.column_names

  -- The states of the machine.
  abbrev pub states : List (Row A)
  states = states_loop o.answer t.upper_table []

  abbrev pub IsState : Row A → Type 0
  IsState s =
      IsFull K t.column_names s × IsWord s.index × (contains s.index (indices t.upper_table) ≡ true)

  rows-IsState :
      (rows : List (Row A))
      → All (IsFull K t.column_names) rows
      → All (IsRow K t.column_names) rows
      → ((w : Word) → contains w (indices rows) ≡ true → contains w (indices t.upper_table) ≡ true)
      → All IsState rows
  rows-IsState [] fulls valids uppers = tt
  rows-IsState (r ∷ rows) fulls valids uppers = (
    (fulls.0, valids.0.0, uppers r.index (ground (arith, word_eq_refl r.index))),
    rows-IsState rows fulls.1 valids.1 (λ w c. uppers w (ground arith)),
  )

  pub states-IsState : All IsState states
  states-IsState =
      states_loop-All o eq IsState t.upper_table []
        (rows-IsState t.upper_table ready.filled.upper ready.filled.valid.upper (λ w c. c)) tt

  index-Occurs :
      (w : Word) (rows : List (Row A))
      → All (IsFull K t.column_names) rows
      → contains w (indices rows) ≡ true
      → Occurs (row w) rows
  index-Occurs w [] fulls c = cc c
  index-Occurs w (r ∷ rows) fulls c = elim (Bool-cases (word_eq w r.index)) [
    | inl e ↦ inl (fulls.0.0 ∙ ap row (sym ((word_eq_iff w r.index).0 e)))
    | inr e ↦ inr (index-Occurs w rows fulls.1 (ground arith))
  ]

  -- Each word of the table has a state.
  pub word-Occurs : (w : Word) → in_tables K t w ≡ true → Occurs (row w) states
  word-Occurs w c = elim (Bool-cases (contains w (indices t.upper_table))) [
    | inl e ↦
        states_loop-has o eq (row w) t.upper_table []
          (index-Occurs w t.upper_table ready.filled.upper e)
    | inr e ↦
        let (u, above, same) = ready.closed w (ground arith) in
        states_loop-has o eq (row w) t.upper_table [] (
          subst (λ a. Occurs a t.upper_table) (sym same)
            (index-Occurs u t.upper_table ready.filled.upper above))
  ]

  -- The transitions of a word.
  abbrev pub Moves : Word → ℕ → ℕ → List (ℤ × List ℤ) → Type 0
  Moves index rounds i entries =
      (x q : ℕ)
      → i ≤ x
      → x < i + rounds
      → state_of o.answer (row (index ++ pos x ∷ [])) states 0 ≡ some q
      → lookup (pos x) entries ≡ some (pos q ∷ [])

  target_lem :
      (index : Word) (rounds i : ℕ) (target : Option ℕ) (rest : List (ℤ × List ℤ))
      → state_of o.answer (row (index ++ pos i ∷ [])) states 0 ≡ target
      → Moves index rounds (i + 1) rest
      → (entries : List (ℤ × List ℤ)) × (with_target i target (some rest) ≡ some entries)
        × Moves index (suc rounds) i entries
  target_lem index rounds i none rest e moves = (
    rest,
    refl,
    λ x q le lt found. elim (le-cases i x le) [
      | inl here ↦ absurd (
          cc (
            e,
            subst (λ n. state_of o.answer (row (index ++ pos n ∷ [])) states 0 ≡ some q) here found,
          ))
      | inr later ↦ moves x q later (omega arith) found
    ],
  )
  target_lem index rounds i (some q') rest e moves = (
    (pos i, pos q' ∷ []) ∷ rest,
    refl,
    λ x q le lt found. elim (le-cases i x le) [
      | inl here ↦
          let same : some q' ≡ some q =
            sym e
            ∙ subst (λ n. state_of o.answer (row (index ++ pos n ∷ [])) states 0 ≡ some q) here
                found in
          lookup_here x i (pos q' ∷ []) rest here
          ∙ ap (λ n. some (pos n ∷ [])) (ground (arith, same))
      | inr later ↦
          lookup_later x i (pos q' ∷ []) rest (omega arith) ∙ moves x q later (omega arith) found
    ],
  )

  pub symbols_lem :
      (index : Word) (rounds i : ℕ)
      → contains index (indices t.upper_table) ≡ true
      → i + rounds ≡ t.alphabet_size
      → (entries : List (ℤ × List ℤ)) × (symbol_transitions o.answer none t states index rounds i
          ≡ some entries)
        × Moves index rounds i entries
  unfolding symbol_transitions
  symbols_lem index zero i c e = ([], refl, λ x q le lt. absurd (omega arith))
  symbols_lem index (suc rounds) i c e =
      let (r, found, same, full) =
        search_tables-IsFull K t (index ++ pos i ∷ []) ready.filled.upper ready.filled.lower
          (ready.filled.valid.extended index i c (omega arith)) in
      let (rest, others, moves) = symbols_lem index rounds (i + 1) c (omega arith) in
      let acceptance : r.acceptance ≡ row (index ++ pos i ∷ []) = full.0 ∙ ap row same in
      let (entries, first, moves') =
        target_lem index rounds i (state_of o.answer r.acceptance states 0) rest
          (ap (λ a. state_of o.answer a states 0) (sym acceptance)) moves in
      (entries, rw (found, others, symbol_transitions) first, moves')
