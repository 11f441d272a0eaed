-- ===== src/Tests/Kearns.antt =====
-- The theorems on the discrimination tree at concrete inputs: one symbol, of which the words of
-- two and no other length up to four are accepted.
use libalf.Common.{
  Bool, ℕ, zero, suc, ◌≤◌, ◌<◌, ◌≡◌, ◌⊎◌, inl, refl, List, [], ◌∷◌, ◌++◌, pos, Word, IsWord, true,
  false, Option, some, nth, length, arith, subst,
}
use libalf.Knowledgebase.Node.{entry_at, slot, update, put_slot, child_or_new}
use libalf.Knowledgebase.Base.{Base, clear, find_or_create_descendant, set_answer, store_answer}
use libalf.Knowledgebase.Base.Entries.{known}
use libalf.Knowledgebase.Base.Invariant.{IsValid, clear-IsValid, find_or_create-IsValid}
use libalf.Knowledgebase.Base.Preserve.{set_answer-IsValid}
use libalf.Knowledgebase.Base.Queries.{exists-find_or_create}
use libalf.Angluin.Filling.{Knows, Asked}
use libalf.Kearns.Tree.{
  Leaf, leaf, inner, TreePath, at_leaf, at_inner, sift, least_common_ancestor, simulate_run,
  transition,
}
use libalf.Kearns.Tasks.{
  State, Task, compute_transition, split_node, Outcome, unfinished, finished, set_transition,
  new_leaf, replace, recompute, recompute_symbols, compute_symbols,
}
use libalf.Kearns.Perform.{perform_compute_transition, perform_linear_search, perform_split_node}
use libalf.Kearns.Advance.{initial_tree, add_counterexample, work}
use libalf.Kearns.Sifting.{sifted, sift_asks, sift_lem, side}
use libalf.Kearns.Ancestor.{common, least_common_ancestor_lem}
use libalf.Kearns.Separation.{occurs, HasDistinctLeaves}
use libalf.Kearns.Invariant.{reached, IsHypothesis, IsLeaf, IsRight, some_eq}
use libalf.Kearns.Searching.{IsSplit}
use libalf.Kearns.Linear.{IsSearched, perform_linear_search_lem, root-Starts}
use libalf.Kearns.Replacing.{divided}
use libalf.Kearns.Split.{after}
use libalf.Kearns.Divide.{added_tasks, perform_split_node_lem}
use libalf.Kearns.Compute.{perform_compute_transition_lem}
use libalf.Kearns.Working.{HasTransitions, work-split_node}
use libalf.Kearns.Progress.{IsCounterexample, AgreesTo-zero, HasArrivals}
use libalf.Kearns.Beginning.{beginning, add_counterexample-starts}
use libalf.Kearns.Counterexample.{waiting, add_counterexample-IsSplit}
use libalf.Tests.{numbers}
use libalf.Tests.Angluin.{oracle, word_0, word_00}

learn : Word → ℕ → Base ℕ → Base ℕ
learn w a base = (set_answer numbers w a (find_or_create_descendant numbers w base)).1

learn-IsValid :
    (w : Word) (a : ℕ) (base : Base ℕ)
    → IsWord w
    → IsValid numbers base
    → IsValid numbers (learn w a base)
unfolding learn
learn-IsValid w a base word valid =
    set_answer-IsValid numbers w (find_or_create_descendant numbers w base) word
      (find_or_create-IsValid numbers w base word valid) (exists-find_or_create numbers w base word)
      a

abbrev taught : Base ℕ
taught = learn (pos 0 ∷ pos 0 ∷ pos 0 ∷ pos 0 ∷ []) 0 (
    learn (pos 0 ∷ pos 0 ∷ pos 0 ∷ []) 0
      (learn word_00 1 (learn word_0 0 (learn [] 0 (clear numbers)))))

taught-IsValid : IsValid numbers taught
taught-IsValid =
    learn-IsValid (pos 0 ∷ pos 0 ∷ pos 0 ∷ pos 0 ∷ []) 0
      (learn (pos 0 ∷ pos 0 ∷ pos 0 ∷ []) 0
        (learn word_00 1 (learn word_0 0 (learn [] 0 (clear numbers)))))
      refl
      (learn-IsValid (pos 0 ∷ pos 0 ∷ pos 0 ∷ []) 0
        (learn word_00 1 (learn word_0 0 (learn [] 0 (clear numbers)))) refl
        (learn-IsValid word_00 1 (learn word_0 0 (learn [] 0 (clear numbers))) refl (
          learn-IsValid word_0 0 (learn [] 0 (clear numbers)) refl
            (learn-IsValid [] 0 (clear numbers) refl (clear-IsValid numbers)))))

abbrev taught_knows : Word → Option ℕ
taught_knows = known numbers taught

taught-Knows : Knows oracle taught_knows taught
taught-Knows = (taught-IsValid, λ v. refl)

-- The tree after a first counterexample.
abbrev first_leaf : Leaf
first_leaf = record {
  label = [];
  accepting = false;
  incoming_transitions = 0 ∷ 1 ∷ [];
  transitions = some 0 ∷ [];
  id = 0;
}

abbrev second_leaf : Leaf
second_leaf = record {
  label = word_00;
  accepting = true;
  incoming_transitions = [];
  transitions = some 0 ∷ [];
  id = 1;
}

abbrev two_leaves : State
two_leaves = record {
  root = inner [] (leaf 0) (leaf 1);
  leaves = first_leaf ∷ second_leaf ∷ [];
  initial_state = 0;
  leaf_node_count = 2;
  inner_node_count = 1;
}

first-IsLeaf : IsLeaf oracle taught_knows 1 two_leaves 0 first_leaf
unfolding sifted side learn entry_at set_answer slot find_or_create_descendant update clear
    store_answer put_slot child_or_new
first-IsLeaf = record { word = refl; home = refl; accepts = refl; width = refl }

second-IsLeaf : IsLeaf oracle taught_knows 1 two_leaves 1 second_leaf
unfolding sifted side learn entry_at set_answer slot find_or_create_descendant update clear
    store_answer put_slot child_or_new
second-IsLeaf = record { word = refl; home = refl; accepts = refl; width = refl }

two_leaves-IsLeaf :
    (i : ℕ) (l : Leaf)
    → nth i two_leaves.leaves ≡ some l
    → IsLeaf oracle taught_knows 1 two_leaves i l
two_leaves-IsLeaf zero l at =
    subst (λ m. IsLeaf oracle taught_knows 1 two_leaves 0 m) (some_eq at) first-IsLeaf
two_leaves-IsLeaf (suc zero) l at =
    subst (λ m. IsLeaf oracle taught_knows 1 two_leaves 1 m) (some_eq at) second-IsLeaf
two_leaves-IsLeaf (suc (suc i)) l at = absurd cc

first-IsRight : IsRight oracle taught_knows two_leaves 0 first_leaf 0
unfolding sifted learn entry_at set_answer slot find_or_create_descendant update clear store_answer
    put_slot child_or_new
first-IsRight = (0, first_leaf, refl, refl, refl, refl)

second-IsRight : IsRight oracle taught_knows two_leaves 1 second_leaf 0
unfolding sifted learn entry_at set_answer slot find_or_create_descendant update clear store_answer
    put_slot child_or_new
second-IsRight = (0, first_leaf, refl, refl, refl, refl)

two_leaves-IsRight :
    (i : ℕ) (l : Leaf) (x : ℕ)
    → nth i two_leaves.leaves ≡ some l
    → x < 1
    → IsRight oracle taught_knows two_leaves i l x
two_leaves-IsRight i l (suc x) at h = absurd (omega (arith, h))
two_leaves-IsRight zero l zero at h =
    subst (λ m. IsRight oracle taught_knows two_leaves 0 m 0) (some_eq at) first-IsRight
two_leaves-IsRight (suc zero) l zero at h =
    subst (λ m. IsRight oracle taught_knows two_leaves 1 m 0) (some_eq at) second-IsRight
two_leaves-IsRight (suc (suc i)) l zero at h = absurd cc

two_leaves-bounded :
    (i : ℕ) → occurs i two_leaves.root ≡ true → (l : Leaf) × (nth i two_leaves.leaves ≡ some l)
unfolding occurs
two_leaves-bounded zero at = (first_leaf, refl)
two_leaves-bounded (suc zero) at = (second_leaf, refl)
two_leaves-bounded (suc (suc i)) at = absurd (ground arith)

two_leaves-distinct : HasDistinctLeaves two_leaves.root
unfolding occurs
two_leaves-distinct = (λ i at. ground arith, tt, tt)

two_leaves-IsHypothesis : (tasks : List Task) → IsHypothesis oracle taught_knows 1 two_leaves tasks
two_leaves-IsHypothesis tasks = record {
  rooted = (leaf 0, leaf 1, refl);
  words = (refl, tt, tt);
  distinct = two_leaves-distinct;
  bounded = two_leaves-bounded;
  initial = (first_leaf, refl, refl);
  is_leaf = two_leaves-IsLeaf;
  transitions = λ i l x at h. inl (two_leaves-IsRight i l x at h);
}

word_00-IsCounterexample : IsCounterexample oracle taught_knows two_leaves word_00
unfolding simulate_run transition side learn entry_at set_answer slot find_or_create_descendant
    update clear store_answer put_slot child_or_new
word_00-IsCounterexample = record {
  word = refl;
  state = 0;
  runs = refl;
  end = first_leaf;
  at = refl;
  known = refl;
}

word_00-HasArrivals : HasArrivals oracle taught_knows two_leaves word_00
unfolding sifted learn entry_at set_answer slot find_or_create_descendant update clear store_answer
    put_slot child_or_new
word_00-HasArrivals zero = (0, refl)
word_00-HasArrivals (suc zero) = (0, refl)
word_00-HasArrivals (suc (suc zero)) = (1, refl)
word_00-HasArrivals (suc (suc (suc k))) = (1, refl)

two_leaves-IsSplit : IsSplit oracle taught_knows two_leaves 0 word_0 word_0
unfolding sifted side learn entry_at set_answer slot find_or_create_descendant update clear
    store_answer put_slot child_or_new
two_leaves-IsSplit = record {
  old = first_leaf;
  found = refl;
  arrives = refl;
  inner_word = refl;
  turn = true;
  new_side = refl;
  old_side = refl;
}

abbrev three_leaves : State
three_leaves = after 1 0 word_0 word_0 true first_leaf two_leaves

three_leaves-HasTransitions : HasTransitions oracle taught_knows 1 three_leaves
unfolding sifted replace divided new_leaf learn entry_at set_answer slot find_or_create_descendant
    update clear store_answer put_slot child_or_new
three_leaves-HasTransitions i l (suc x) at h = absurd (omega (arith, h))
three_leaves-HasTransitions zero l zero at h = (
  2,
  subst (λ m. reached oracle taught_knows three_leaves (m.label ++ pos 0 ∷ []) ≡ at_leaf 2)
      (some_eq at) refl,
)
three_leaves-HasTransitions (suc zero) l zero at h = (
  0,
  subst (λ m. reached oracle taught_knows three_leaves (m.label ++ pos 0 ∷ []) ≡ at_leaf 0)
      (some_eq at) refl,
)
three_leaves-HasTransitions (suc (suc zero)) l zero at h = (
  1,
  subst (λ m. reached oracle taught_knows three_leaves (m.label ++ pos 0 ∷ []) ≡ at_leaf 1)
      (some_eq at) refl,
)
three_leaves-HasTransitions (suc (suc (suc i))) l zero at h = absurd cc

sift_lem_example :
    (base' : Base ℕ) × (sift oracle word_00 [] two_leaves.root taught
      ≡ some (sifted oracle taught_knows word_00 [] two_leaves.root, base'))
    × Knows oracle taught_knows base'
    × Asked oracle taught_knows (sift_asks oracle taught_knows word_00 two_leaves.root) taught base'
sift_lem_example =
    sift_lem oracle taught_knows word_00 [] two_leaves.root taught refl (refl, tt, tt) taught-Knows

least_common_ancestor_lem_example :
    least_common_ancestor (true ∷ false ∷ true ∷ []) (true ∷ false ∷ [])
    ≡ common (true ∷ false ∷ true ∷ []) (true ∷ false ∷ [])
least_common_ancestor_lem_example =
    least_common_ancestor_lem (true ∷ false ∷ true ∷ []) (true ∷ false ∷ [])

perform_linear_search_lem_example :
    (outcome : Outcome) × (base' : Base ℕ) × (perform_linear_search oracle 1 word_00 1 [] two_leaves
        taught
      ≡ some (outcome, two_leaves, base'))
    × Knows oracle taught_knows base'
    × IsSearched oracle taught_knows two_leaves word_00 outcome
unfolding word_00-IsCounterexample
perform_linear_search_lem_example =
    perform_linear_search_lem oracle taught_knows 1 1 two_leaves word_00 0 0 [] taught
      (two_leaves-IsHypothesis []) refl word_00-IsCounterexample.runs refl
      (AgreesTo-zero oracle taught_knows 1 two_leaves word_00 (two_leaves-IsHypothesis []))
      (root-Starts oracle taught_knows 1 two_leaves word_0 [] (two_leaves-IsHypothesis []))
      taught-Knows

perform_split_node_lem_example :
    (tasks : List Task) × (st' : State) × (base' : Base ℕ) × (perform_split_node oracle 1 0 word_0
        word_0 two_leaves taught
      ≡ some (finished tasks, st', base'))
    × Knows oracle taught_knows base'
    × IsHypothesis oracle taught_knows 1 st' tasks
    × (length st'.leaves ≡ 3)
    × (tasks ≡ added_tasks 1 0 word_0 first_leaf two_leaves)
    × (st' ≡ after 1 0 word_0 word_0 true first_leaf two_leaves)
unfolding two_leaves-IsSplit
perform_split_node_lem_example =
    perform_split_node_lem oracle taught_knows 1 0 word_0 word_0 two_leaves
      (two_leaves-IsHypothesis []) two_leaves-IsSplit taught refl refl taught-Knows

perform_compute_transition_lem_example :
    (base' : Base ℕ) × Knows oracle taught_knows base'
    × (((q : TreePath) × (perform_compute_transition oracle 1 0 [] two_leaves taught
            ≡ some (unfinished (compute_transition 1 0 q), two_leaves, base'))
          × (reached oracle taught_knows two_leaves (word_00 ++ pos 0 ∷ []) ≡ at_inner q))
        ⊎ ((st' : State) × (perform_compute_transition oracle 1 0 [] two_leaves taught
              ≡ some (finished [], st', base'))
            × IsHypothesis oracle taught_knows 1 st' []
            × ((target : ℕ) × (st'
                  ≡ record two_leaves { leaves = set_transition 1 0 target two_leaves.leaves }))))
perform_compute_transition_lem_example =
    perform_compute_transition_lem oracle taught_knows 1 1 0 two_leaves [] [] taught second_leaf
      (two_leaves-IsHypothesis (compute_transition 1 0 [] ∷ [])) refl (omega arith)
      (root-Starts oracle taught_knows 1 two_leaves (word_00 ++ pos 0 ∷ []) []
        (two_leaves-IsHypothesis []))
      taught-Knows

three_tasks : length (added_tasks 1 0 word_0 first_leaf two_leaves) ≤ 3
unfolding recompute recompute_symbols compute_symbols new_leaf
three_tasks = omega arith

work-split_node_example :
    (st' : State) × (base' : Base ℕ) × (work oracle 4 1 []
        (split_node 0 word_0 word_0 ∷ [])
        two_leaves
        taught
      ≡ some ([], st', base'))
    × Knows oracle taught_knows base'
    × IsHypothesis oracle taught_knows 1 st' []
    × (length st'.leaves ≡ 3)
unfolding two_leaves-IsSplit
work-split_node_example =
    work-split_node oracle taught_knows 1 0 word_0 word_0 3 two_leaves taught
      (two_leaves-IsHypothesis []) two_leaves-IsSplit refl taught-Knows three_leaves-HasTransitions
      three_tasks

oracle_equals : (a : ℕ) (b : Bool) → oracle.equals_bool a b ≡ true → oracle.to_bool a ≡ b
oracle_equals a true e = ground arith
oracle_equals a false e = ground arith

add_counterexample-IsSplit_example :
    (node : ℕ) × (label inner_label : Word) × (base' : Base ℕ) × (add_counterexample oracle
        (waiting 1 true two_leaves [])
        word_00
        taught
      ≡ some (true, waiting 1 true two_leaves (split_node node label inner_label ∷ []), base'))
    × Knows oracle taught_knows base'
    × IsWord label
    × IsSplit oracle taught_knows two_leaves node label inner_label
add_counterexample-IsSplit_example =
    add_counterexample-IsSplit oracle taught_knows 1 true two_leaves (pos 0) word_0 taught
      (two_leaves-IsHypothesis []) word_00-IsCounterexample word_00-HasArrivals taught-Knows
      oracle_equals

first_tree-HasTransitions : HasTransitions oracle taught_knows 1 (initial_tree 1 word_00 false)
unfolding sifted new_leaf learn entry_at set_answer slot find_or_create_descendant update clear
    store_answer put_slot child_or_new
first_tree-HasTransitions i l (suc x) at h = absurd (omega (arith, h))
first_tree-HasTransitions zero l zero at h = (
  0,
  subst
      (λ m.
        reached oracle taught_knows (initial_tree 1 word_00 false) (m.label ++ pos 0 ∷ [])
        ≡ at_leaf 0)
      (some_eq at) refl,
)
first_tree-HasTransitions (suc zero) l zero at h = (
  0,
  subst
      (λ m.
        reached oracle taught_knows (initial_tree 1 word_00 false) (m.label ++ pos 0 ∷ [])
        ≡ at_leaf 0)
      (some_eq at) refl,
)
first_tree-HasTransitions (suc (suc i)) l zero at h = absurd cc

word_00-side :
    (side oracle taught_knows [] ≡ some false) × (side oracle taught_knows word_00 ≡ some true)
unfolding side learn entry_at set_answer slot find_or_create_descendant update clear store_answer
    put_slot child_or_new
word_00-side = (refl, refl)

add_counterexample-starts_example :
    (st : State) × (base' : Base ℕ) × (add_counterexample oracle (beginning 1 true) word_00 taught
      ≡ some (true, waiting 1 true st [], base'))
    × Knows oracle taught_knows base'
    × IsHypothesis oracle taught_knows 1 st []
add_counterexample-starts_example =
    add_counterexample-starts oracle taught_knows 1 true false (pos 0) word_0 taught refl
      word_00-side.0 word_00-side.1 first_tree-HasTransitions taught-Knows
