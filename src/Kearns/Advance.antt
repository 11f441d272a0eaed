-- ===== src/Kearns/Advance.antt =====
-- algorithm_kearns_vazirani.h: add_counterexample, advance and conjecture_ready.
use libalf.Common.{
  ℕ, zero, suc, ◌+◌, List, [], ◌∷◌, ◌++◌, Bool, true, false, Option, none, some, nth, length,
  if◌then◌else◌, Word, replicate, ◌>>=◌,
}
use Prim.Native.Nat.{◌/◌}
use libalf.Knowledgebase.Base.{Base, resolve_or_add_query, resolve_query}
use libalf.Filter.{FilterAnswer}
use libalf.Conjecture.{MooreMachine}
use libalf.Kearns.Tree.{leaf, inner, at_leaf, at_inner}
use libalf.Kearns.Tasks.{
  State, Task, compute_transition, linear_search, binary_search, unfinished, finished, new_leaf,
  run,
}
use libalf.Kearns.Perform.{perform}
use libalf.Kearns.Automaton.{one_state, derive}

-- The variables of the class: before there is a tree the others are not set.
pub data Phase : Type 0 where
  initial : Phase
  normal : State → Phase

pub record Kv : Type 0 where
  pub alphabet_size : ℕ
  pub use_binary_search : Bool
  pub phase : Phase
  pub tasks : List Task

unfoldable pub conjecture_ready : Kv → Bool
conjecture_ready kv = elim kv.tasks [ [] ↦ true | _ ∷ _ ↦ false ]

-- The tree of the initial phase; the left child is made before the right.
abbrev pub initial_tree : (alphabet_size : ℕ) → Word → (answer : Bool) → State
initial_tree alphabet_size counterexample true = record {
  root = inner [] (leaf 0) (leaf 1);
  leaves = new_leaf counterexample 1 false alphabet_size ∷ new_leaf [] 0 true alphabet_size ∷ [];
  initial_state = 1;
  leaf_node_count = 2;
  inner_node_count = 1;
}
initial_tree alphabet_size counterexample false = record {
  root = inner [] (leaf 0) (leaf 1);
  leaves = new_leaf [] 0 false alphabet_size ∷ new_leaf counterexample 1 true alphabet_size ∷ [];
  initial_state = 0;
  leaf_node_count = 2;
  inner_node_count = 1;
}

-- The task that add_counterexample makes.
unfoldable pub search_task : Bool → Word → State → Task
search_task use_binary_search counterexample st =
    let n = length counterexample in
    if use_binary_search
    then binary_search counterexample ((1 + n) / 2) 1 n
        (at_leaf st.initial_state ∷ replicate n (at_inner []))
        (some st.initial_state ∷ replicate n none)
    else linear_search counterexample 1 []

module _ {A : Type 0} (o : FilterAnswer A) where
  -- A task is performed at once, and is put at the end of the list unless it is finished.
  unfoldable pub perform_or_add :
      (alphabet_size : ℕ) → Task → List Task → State → Base A → Option (List Task × State × Base A)
  perform_or_add alphabet_size t tasks st base =
      perform o alphabet_size t st base >>= λ (outcome, st', base'). elim outcome [
        | unfinished t' ↦ some (tasks ++ t' ∷ [], st', base')
        | finished more ↦ some (tasks ++ more, st', base')
      ]

  -- The loop over the symbols of the initial phase.
  unfoldable pub initial_transitions :
      (alphabet_size rounds i : ℕ)
      → List Task
      → State
      → Base A
      → Option (List Task × State × Base A)
  initial_transitions alphabet_size zero i tasks st base = some (tasks, st, base)
  initial_transitions alphabet_size (suc rounds) i tasks st base =
      perform_or_add alphabet_size (compute_transition 0 i []) tasks st base
      >>= λ (tasks1, st1, base1).
          perform_or_add alphabet_size (compute_transition 1 i []) tasks1 st1 base1
          >>= λ (tasks2, st2, base2).
              initial_transitions alphabet_size rounds (suc i) tasks2 st2 base2

  -- The two phases of add_counterexample, after the checks.
  abbrev pub enter : Kv → Word → Base A → Option (Bool × Kv × Base A)
  enter kv counterexample base = elim kv.phase [
    | initial ↦ resolve_or_add_query o.answer none [] base >>= λ (a, base'). elim a [
      | none ↦ some (false, kv, base')
      | some a ↦
          initial_transitions kv.alphabet_size kv.alphabet_size 0 []
            (initial_tree kv.alphabet_size counterexample (o.to_bool a)) base'
          >>= λ (tasks, st, base'').
              some (true, record kv { phase = normal st; tasks = tasks }, base'')
    ]
    | normal st ↦
        perform_or_add kv.alphabet_size (search_task kv.use_binary_search counterexample st) [] st
          base
        >>= λ (tasks, st', base').
            some (true, record kv { phase = normal st'; tasks = tasks }, base')
  ]

  -- A known answer that the run's leaf has too rejects the word; `none` where there is no leaf.
  abbrev pub rejects : Phase → Option A → Word → Option Bool
  rejects (normal st) (some a) w =
      run st w >>= λ i. nth i st.leaves >>= λ l. some (o.equals_bool a l.accepting)
  rejects initial a w = some false
  rejects (normal st) none w = some false

  unfoldable pub add_counterexample : Kv → Word → Base A → Option (Bool × Kv × Base A)
  add_counterexample kv counterexample base = elim kv.tasks [
    | _ ∷ _ ↦ some (false, kv, base)
    | [] ↦ elim counterexample [
      | [] ↦ some (false, kv, base)
      | x ∷ w ↦
          let (a, base') = resolve_query o.answer none (x ∷ w) base in
          rejects kv.phase a (x ∷ w) >>= λ rejected.
          if rejected then some (false, kv, base') else enter kv (x ∷ w) base'
    ]
  ]

  -- The loop over the tasks on fuel; `kept` are those before the current one.
  unfoldable pub work :
      (fuel alphabet_size : ℕ)
      → (kept pending : List Task) → State
      → Base A
      → Option (List Task × State × Base A)
  work fuel alphabet_size kept [] st base = some (kept, st, base)
  work zero alphabet_size kept (t ∷ pending) st base = none
  work (suc fuel) alphabet_size kept (t ∷ pending) st base =
      perform o alphabet_size t st base >>= λ (outcome, st', base').
      work fuel alphabet_size
        (elim outcome [ unfinished t' ↦ kept ++ t' ∷ [] | finished more ↦ kept ])
        (elim outcome [ unfinished t' ↦ pending | finished more ↦ pending ++ more ]) st' base'

  -- derive_conjecture in the initial phase.
  unfoldable pub initial_conjecture :
      (alphabet_size : ℕ) → Base A → Option (Option (MooreMachine Bool) × Base A)
  initial_conjecture alphabet_size base =
      resolve_or_add_query o.answer none [] base >>= λ (a, base'). elim a [
        | none ↦ some (none, base')
        | some a ↦ some (some (one_state alphabet_size (o.to_bool a)), base')
      ]

  -- advance; its result is `none` in place of NULL.
  unfoldable pub advance :
      (fuel : ℕ) → Kv → Base A → Option (Option (MooreMachine Bool) × Kv × Base A)
  advance fuel kv base = elim kv.phase [
    | initial ↦ resolve_or_add_query o.answer none [] base >>= λ (a, base'). elim a [
      | none ↦ some (none, kv, base')
      | some a ↦ initial_conjecture kv.alphabet_size base' >>= λ (cj, base''). some (cj, kv, base'')
    ]
    | normal st ↦ work fuel kv.alphabet_size [] kv.tasks st base >>= λ (tasks, st', base').
        let kv' = record kv { phase = normal st'; tasks = tasks } in
        elim tasks [
          | _ ∷ _ ↦ some (none, kv', base')
          | [] ↦ derive kv.alphabet_size st' >>= λ cj. some (some cj, kv', base')
        ]
  ]
