-- ===== src/Kearns/Automaton.antt =====
-- algorithm_kearns_vazirani.h: derive_conjecture.
use libalf.Common.{
  ℕ, zero, suc, List, [], ◌∷◌, ◌++◌, Bool, false, ◌||◌, Option, none, some, nth, put_nth,
  if◌then◌else◌, ◌==◌, pos, ℤ, replicate, ◌>>=◌,
}
use libalf.Conjecture.{MooreMachine}
use libalf.Angluin.Derive.{with_state, machine}
use libalf.Kearns.Tree.{Leaf, transition}
use libalf.Kearns.Tasks.{State}

-- finite_automaton::set_final_states of src/conjecture.cpp: the outputs of the states from `i` on.
unfoldable pub member : ℕ → List ℕ → Bool
member i [] = false
member i (j ∷ js) = i == j || member i js

unfoldable pub outputs : (rounds i : ℕ) → (final : List ℕ) → List (ℤ × Bool)
outputs zero i final = []
outputs (suc rounds) i final = (pos i, member i final) ∷ outputs rounds (suc i) final

-- The automaton of the initial phase: an alphabet without symbols leaves the map empty.
abbrev loops : (rounds i : ℕ) → List (ℤ × List ℤ)
loops zero i = []
loops (suc rounds) i = (pos i, pos 0 ∷ []) ∷ loops rounds (suc i)

unfoldable pub one_state : (alphabet_size : ℕ) → Bool → MooreMachine Bool
one_state alphabet_size accepting =
    machine alphabet_size 1 (outputs 1 0 (if accepting then 0 ∷ [] else []))
      (with_state 0 (loops alphabet_size 0) [])

-- The variables of the loop: the array of names, the list of leaves to process, and what the
-- automaton has.
pub record Naming : Type 0 where
  pub names : List (Option ℕ)
  pub to_process : List ℕ
  pub state_count : ℕ
  pub final : List ℕ
  pub moves : List (ℤ × List (ℤ × List ℤ))

-- The loop over the symbols of a leaf: names for the targets that have none, and the row.
unfoldable pub name_targets :
    (rounds symbol current : ℕ) → List Leaf → Naming → Option (List (ℤ × List ℤ) × Naming)
name_targets zero symbol current leaves s = some ([], s)
name_targets (suc rounds) symbol current leaves s = transition leaves current symbol >>= λ j.
    nth j leaves >>= λ target. nth target.id s.names >>= λ name. elim name [
      | some q ↦ name_targets rounds (suc symbol) current leaves s >>= λ (row, s').
          some ((pos symbol, pos q ∷ []) ∷ row, s')
      | none ↦
          name_targets rounds (suc symbol) current leaves (record s {
            names = put_nth target.id (some s.state_count) s.names;
            to_process = s.to_process ++ j ∷ [];
            state_count = suc s.state_count;
          })
          >>= λ (row, s'). some ((pos symbol, pos s.state_count ∷ []) ∷ row, s')
    ]

-- The loop over the leaves to process, on fuel. The names are given in the order of the list, so
-- that the entries of the maps come in ascending order.
unfoldable pub name_leaves : (fuel alphabet_size : ℕ) → List Leaf → Naming → Option Naming
name_leaves zero alphabet_size leaves s = elim s.to_process [ [] ↦ some s | _ ∷ _ ↦ none ]
name_leaves (suc fuel) alphabet_size leaves s = elim s.to_process [
  | [] ↦ some s
  | i ∷ rest ↦ nth i leaves >>= λ current. nth current.id s.names >>= λ name. name >>= λ q.
      name_targets alphabet_size 0 i leaves (record s {
        to_process = rest;
        final = if current.accepting then s.final ++ q ∷ [] else s.final;
      })
      >>= λ (row, s').
          name_leaves fuel alphabet_size leaves
            (record s' { moves = s'.moves ++ with_state q row [] })
]

unfoldable pub derive : (alphabet_size : ℕ) → State → Option (MooreMachine Bool)
derive alphabet_size st = nth st.initial_state st.leaves >>= λ first.
    name_leaves st.leaf_node_count alphabet_size st.leaves (record {
      names = put_nth first.id (some 0) (replicate st.leaf_node_count none);
      to_process = st.initial_state ∷ [];
      state_count = 1;
      final = [];
      moves = [];
    })
    >>= λ s. some (machine alphabet_size s.state_count (outputs s.state_count 0 s.final) s.moves)
