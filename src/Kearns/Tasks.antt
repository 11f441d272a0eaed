-- ===== src/Kearns/Tasks.antt =====
-- algorithm_kearns_vazirani.h: the tasks of the algorithm and what performing one does.
use libalf.Common.{
  ℕ, zero, suc, List, [], ◌∷◌, ◌++◌, Bool, Option, none, some, nth, put_nth, length, ltb,
  if◌then◌else◌, ◌==◌, ℤ, Word, replicate, ◌>>=◌,
}
use libalf.Kearns.Tree.{
  Leaf, Tree, leaf, inner, TreePath, subtree, path_to, least_common_ancestor, simulate_run, Place,
}

-- The variables that tasks read and write. A leaf's address is its index in `leaves`.
pub record State : Type 0 where
  pub root : Tree
  pub leaves : List Leaf
  pub initial_state : ℕ
  pub leaf_node_count : ℕ
  pub inner_node_count : ℕ

-- The subclasses of task: a node that a task keeps is an inner node, since a task stops at no leaf.
pub data Task : Type 0 where
  compute_transition : (source symbol : ℕ) → (current : TreePath) → Task
  linear_search : (counterexample : Word) → (position : ℕ) → (sift_node : TreePath) → Task
  binary_search :
      (counterexample : Word)
      → (position left right : ℕ) → (sift_buffer : List Place) → (run_buffer : List (Option ℕ))
      → Task
  split_node : (node : ℕ) → (leaf_label inner_label : Word) → Task

-- The result of perform: false and the task, or true and the tasks that it adds.
pub data Outcome : Type 0 where
  unfinished : Task → Outcome
  finished : List Task → Outcome

-- insert of a set of addresses, which is in their order.
unfoldable pub insert_address : ℕ → List ℕ → List ℕ
insert_address i [] = i ∷ []
insert_address i (j ∷ js) =
    let rest = insert_address i js in
    if i == j then j ∷ js else if ltb i j then i ∷ j ∷ js else j ∷ rest

abbrev pub modify : ℕ → (Leaf → Leaf) → List Leaf → List Leaf
modify i f [] = []
modify zero f (l ∷ leaves) = f l ∷ leaves
modify (suc i) f (l ∷ leaves) = l ∷ modify i f leaves

unfoldable pub set_transition : (source symbol target : ℕ) → List Leaf → List Leaf
set_transition source symbol target leaves =
    modify target
      (λ l. record l { incoming_transitions = insert_address source l.incoming_transitions })
      (modify source (λ l. record l { transitions = put_nth symbol (some target) l.transitions })
        leaves)

-- The label of a node.
unfoldable pub label_at : TreePath → State → Option Word
label_at p st = elim (subtree p st.root) [
  | none ↦ none
  | some (leaf i) ↦ elim (nth i st.leaves) [ none ↦ none | some l ↦ some l.label ]
  | some (inner d l r) ↦ some d
]

-- The task for a bad prefix: a node, the label for its new leaf, the symbol after it, and where
-- the run and the sift arrive.
unfoldable pub split_for :
    (node : ℕ) → Word → (symbol : Option ℤ) → (run_node sift_node : ℕ) → State → Option Task
split_for node leaf_label symbol run_node sift_node st = path_to run_node st.root >>= λ p.
    path_to sift_node st.root >>= λ q. label_at (least_common_ancestor p q) st >>= λ d.
    symbol >>= λ x. some (split_node node leaf_label (x ∷ d))

abbrev pub run : State → Word → Option ℕ
run st w = simulate_run st.leaves st.initial_state w

unfoldable pub new_leaf : Word → ℕ → Bool → (alphabet_size : ℕ) → Leaf
new_leaf label id accepting alphabet_size = record {
  label = label;
  accepting = accepting;
  incoming_transitions = [];
  transitions = replicate alphabet_size none;
  id = id;
}

-- The inner node in place of a leaf.
unfoldable pub replace : ℕ → Tree → Tree → Tree
replace i t (leaf j) = if i == j then t else leaf j
replace i t (inner d l r) = inner d (replace i t l) (replace i t r)

-- The loop over the symbols for one leaf with a transition to the node.
unfoldable pub recompute_symbols : (node source symbol : ℕ) → List (Option ℕ) → List Task
recompute_symbols node source symbol [] = []
recompute_symbols node source symbol (target ∷ targets) =
    let rest = recompute_symbols node source (suc symbol) targets in
    elim target [
      | none ↦ rest
      | some j ↦ if j == node then compute_transition source symbol [] ∷ rest else rest
    ]

unfoldable pub recompute : (node : ℕ) → List ℕ → List Leaf → List Task
recompute node [] leaves = []
recompute node (source ∷ sources) leaves =
    elim (nth source leaves) [ none ↦ [] | some l ↦ recompute_symbols node source 0 l.transitions ]
    ++ recompute node sources leaves

-- The loop over the symbols for a leaf, on the number of symbols left.
unfoldable pub compute_symbols : (source symbol rounds : ℕ) → List Task
compute_symbols source symbol zero = []
compute_symbols source symbol (suc rounds) =
    compute_transition source symbol [] ∷ compute_symbols source (suc symbol) rounds

-- split_node_task::perform after its query.
unfoldable pub split :
    (alphabet_size node : ℕ)
    → (leaf_label inner_label : Word) → (answer : Bool) → Leaf
    → State
    → List Task × State
split alphabet_size node leaf_label inner_label answer old st =
    let fresh = length st.leaves in
    let l = if answer then leaf node else leaf fresh in
    let r = if answer then leaf fresh else leaf node in
    let made = new_leaf leaf_label st.leaf_node_count old.accepting alphabet_size in
    let leaves = st.leaves ++ made ∷ [] in
    (
      recompute node old.incoming_transitions leaves ++ compute_symbols fresh 0 alphabet_size,
      record st {
        root = replace node (inner inner_label l r) st.root;
        leaves = modify node (λ k. record k { incoming_transitions = [] }) leaves;
        leaf_node_count = suc st.leaf_node_count;
      },
    )
