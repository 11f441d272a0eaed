-- ===== src/Conjecture.antt =====
-- libalf/include/libalf/conjecture.h: the data of moore machines.
use libalf.Common.{
  List, [], ◌∷◌, Bool, true, false, not, Option, none, some, ℤ, eq_ℤ, ltb_ℤ, if◌then◌else◌,
}

-- class moore_machine, with the data of conjecture and finite_state_machine. A std::map is the list
-- of its pairs in ascending order, a std::set the list of its elements.
pub record MooreMachine (A : Type 0) : Type 0 where
  pub valid : Bool
  pub is_deterministic : Bool
  pub input_alphabet_size : ℤ
  pub state_count : ℤ
  pub initial_states : List ℤ
  pub omega : Bool
  pub output_mapping : List (ℤ × A)
  pub transitions : List (ℤ × List (ℤ × List ℤ))

-- What a std::map has at a key.
abbrev pub lookup : {B : Type 0} → ℤ → List (ℤ × B) → Option B
lookup k [] = none
lookup k ((i, b) ∷ entries) = if eq_ℤ k i then some b else lookup k entries

-- The states that the transitions lead to.
abbrev pub targets : ℤ → ℤ → List (ℤ × List (ℤ × List ℤ)) → Option (List ℤ)
targets state symbol transitions = elim (lookup state transitions) [
  | none ↦ none
  | some row ↦ lookup symbol row
]

-- std::set::insert.
abbrev pub insert : ℤ → List ℤ → List ℤ
insert x [] = x ∷ []
insert x (y ∷ s) = if eq_ℤ x y then y ∷ s else if ltb_ℤ x y then x ∷ y ∷ s else y ∷ insert x s

abbrev pub insert_all : List ℤ → List ℤ → List ℤ
insert_all [] s = s
insert_all (x ∷ xs) s = insert_all xs (insert x s)

-- The loop of run over the states, for one symbol.
unfoldable pub step : List (ℤ × List (ℤ × List ℤ)) → ℤ → List ℤ → List ℤ → List ℤ
step transitions symbol [] new_states = new_states
step transitions symbol (q ∷ states) new_states =
    step transitions symbol states (elim (targets q symbol transitions) [
      | none ↦ new_states
      | some next ↦ insert_all next new_states
    ])

unfoldable pub run : List (ℤ × List (ℤ × List ℤ)) → List ℤ → List ℤ → List ℤ
run transitions current_states [] = current_states
run transitions [] (x ∷ word) = []
run transitions (q ∷ states) (x ∷ word) = run transitions (step transitions x (q ∷ states) []) word

-- finite_automaton::contains, in src/conjecture.cpp: a final state was reached.
unfoldable pub reaches_final : List (ℤ × Bool) → List ℤ → Bool
reaches_final output_mapping [] = false
reaches_final output_mapping (q ∷ states) =
    let rest = reaches_final output_mapping states in
    elim (lookup q output_mapping) [ none ↦ rest | some b ↦ if b then true else rest ]

unfoldable pub accepts : MooreMachine Bool → List ℤ → Bool
accepts m word =
    if not m.valid
    then false
    else reaches_final m.output_mapping (run m.transitions m.initial_states word)
