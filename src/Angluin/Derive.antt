-- ===== src/Angluin/Derive.antt =====
-- algorithm_angluin.h: derive_conjecture_memorize.
use libalf.Common.{
  ℕ, zero, suc, ◌+◌, List, [], ◌∷◌, ◌++◌, true, false, Option, none, some, if◌then◌else◌, ℤ, pos,
  length, Word,
}
use libalf.Knowledgebase.Base.{Answer}
use libalf.Conjecture.{MooreMachine}
use libalf.Angluin.Table.{
  Normalizer, prefix_normal, Row, Table, search_tables, same_acceptance, has_match,
}

-- The entries that are inserted into the maps.
abbrev pub with_target : ℕ → Option ℕ → Option (List (ℤ × List ℤ)) → Option (List (ℤ × List ℤ))
with_target sigma target none = none
with_target sigma none (some rest) = some rest
with_target sigma (some q) (some rest) = some ((pos sigma, pos q ∷ []) ∷ rest)

abbrev pub with_state :
    ℕ → List (ℤ × List ℤ) → List (ℤ × List (ℤ × List ℤ)) → List (ℤ × List (ℤ × List ℤ))
with_state id [] rest = rest
with_state id (entry ∷ entries) rest = (pos id, entry ∷ entries) ∷ rest

abbrev pub machine :
    {A : Type 0} → ℕ → ℕ → List (ℤ × A) → List (ℤ × List (ℤ × List ℤ)) → MooreMachine A
machine alphabet_size states outputs moves = record {
  valid = true;
  is_deterministic = true;
  input_alphabet_size = pos alphabet_size;
  state_count = pos states;
  initial_states = pos 0 ∷ [];
  omega = false;
  output_mapping = outputs;
  transitions = moves;
}

module _ {A : Type 0} (o : Answer A) where
  -- The states are the rows of the upper table that differ; the id of a state is its place.
  unfoldable pub states_loop : List (Row A) → List (Row A) → List (Row A)
  states_loop [] states = states
  states_loop (r ∷ upper) states =
      let next = if has_match o r states then states else states ++ r ∷ [] in states_loop upper next

  -- The loop that looks for the state of a row, from the id `i` on.
  unfoldable pub state_of : List A → List (Row A) → ℕ → Option ℕ
  state_of acceptance [] i = none
  state_of acceptance (s ∷ states) i =
      let rest = state_of acceptance states (i + 1) in
      if same_acceptance o acceptance s.acceptance then some i else rest

  -- The loop over the alphabet; `none` stands for an end() that is dereferenced.
  unfoldable pub symbol_transitions :
      Option Normalizer → Table A → List (Row A) → Word → ℕ → ℕ → Option (List (ℤ × List ℤ))
  symbol_transitions norm t states index zero i = some []
  symbol_transitions norm t states index (suc rounds) i =
      elim (search_tables (prefix_normal norm (index ++ pos i ∷ [])).0 t) [
        | none ↦ none
        | some r ↦
            with_target i (state_of r.acceptance states 0)
              (symbol_transitions norm t states index rounds (i + 1))
      ]

  -- The loop over the states, here one for the transitions and one for the outputs, which are the
  -- first answers.
  unfoldable pub state_transitions :
      Option Normalizer
      → Table A
      → List (Row A)
      → List (Row A)
      → ℕ
      → Option (List (ℤ × List (ℤ × List ℤ)))
  state_transitions norm t states [] id = some []
  state_transitions norm t states (s ∷ rest) id =
      elim (symbol_transitions norm t states s.index t.alphabet_size 0) [
        | none ↦ none
        | some entries ↦ elim (state_transitions norm t states rest (id + 1)) [
          | none ↦ none
          | some others ↦ some (with_state id entries others)
        ]
      ]

  unfoldable pub state_outputs : List (Row A) → ℕ → Option (List (ℤ × A))
  state_outputs [] id = some []
  state_outputs (s ∷ rest) id = elim s.acceptance [
    | [] ↦ none
    | a ∷ _ ↦ elim (state_outputs rest (id + 1)) [
      | none ↦ none
      | some others ↦ some ((pos id, a) ∷ others)
    ]
  ]

  unfoldable pub derive_conjecture : Option Normalizer → Table A → Option (MooreMachine A)
  derive_conjecture norm t =
      let states = states_loop t.upper_table [] in
      elim (state_outputs states 0) [
        | none ↦ none
        | some outputs ↦ elim (state_transitions norm t states states 0) [
          | none ↦ none
          | some moves ↦ some (machine t.alphabet_size (length states) outputs moves)
        ]
      ]
