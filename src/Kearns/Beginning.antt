-- ===== src/Kearns/Beginning.antt =====
-- algorithm_kearns_vazirani.h: add_counterexample in the initial phase.
use libalf.Common.{
  ℕ, zero, suc, ◌+◌, ◌<◌, ◌≡◌, refl, ap, subst, ◌∙◌, List, [], ◌∷◌, append-nil, Bool, true, false,
  not, Option, none, some, nth, length, ℤ, Word, IsWord, arith, inl, inr,
}
use libalf.Knowledgebase.Base.{Base, resolve_query}
use libalf.Filter.{FilterAnswer}
use libalf.Angluin.Filling.{Knows}
use libalf.Kearns.Tree.{Leaf, leaf, inner}
use libalf.Kearns.Tasks.{State, Task, compute_transition, new_leaf}
use libalf.Kearns.Advance.{
  Kv, initial, initial_tree, perform_or_add, initial_transitions, add_counterexample,
}
use libalf.Kearns.Sifting.{side, side-known, sifted, query_lem}
use libalf.Kearns.Separation.{occurs, HasDistinctLeaves, sifted-left, sifted-right}
use libalf.Kearns.Invariant.{IsHypothesis, IsLeaf, Pending, some_eq}
use libalf.Kearns.Splitting.{length-replicate}
use libalf.Kearns.Working.{HasTransitions, compute_finishes}
use libalf.Kearns.Counterexample.{waiting, resolve_query-Knows}

-- The tasks of the initial phase, from a symbol on.
unfoldable both_tasks : (rounds i : ℕ) → List Task
both_tasks zero i = []
both_tasks (suc rounds) i =
    compute_transition 0 i [] ∷ compute_transition 1 i [] ∷ both_tasks rounds (suc i)

both_tasks-Pending :
    (rounds i x y : ℕ)
    → x < rounds
    → y ≡ i + x
    → Pending 0 y (both_tasks rounds i) × Pending 1 y (both_tasks rounds i)
unfolding both_tasks
both_tasks-Pending zero i x y h e = absurd (omega (arith, h))
both_tasks-Pending (suc rounds) i zero y h e =
    let same : i ≡ y = omega (arith, e) in
    (
      inl ([], ap (λ z. compute_transition 0 z []) same),
      inr (inl ([], ap (λ z. compute_transition 1 z []) same)),
    )
both_tasks-Pending (suc rounds) i (suc x) y h e =
    let (p, q) = both_tasks-Pending rounds (suc i) x y (omega (arith, h)) (omega (arith, e)) in
    (inr (inr p), inr (inr q))

-- The variables with the first tree, and before it.
abbrev two : (n : ℕ) (left right : Word) (id_l id_r start : ℕ) → State
two n left right id_l id_r start = record {
  root = inner [] (leaf 0) (leaf 1);
  leaves = new_leaf left id_l false n ∷ new_leaf right id_r true n ∷ [];
  initial_state = start;
  leaf_node_count = 2;
  inner_node_count = 1;
}

abbrev pub beginning : (n : ℕ) → Bool → Kv
beginning n use_binary_search = record {
  alphabet_size = n;
  use_binary_search = use_binary_search;
  phase = initial;
  tasks = [];
}

initial_tree-two : (n : ℕ) (w : Word) (b : Bool) → 1 < length (initial_tree n w b).leaves
initial_tree-two n w true = omega arith
initial_tree-two n w false = omega arith

two-distinct : HasDistinctLeaves (inner [] (leaf 0) (leaf 1))
unfolding occurs
two-distinct = (λ i at. ground arith, tt, tt)

two-bounded :
    (n : ℕ) (left right : Word) (id_l id_r start i : ℕ)
    → occurs i (inner [] (leaf 0) (leaf 1)) ≡ true
    → (l : Leaf) × (nth i (two n left right id_l id_r start).leaves ≡ some l)
unfolding occurs
two-bounded n left right id_l id_r start zero at = (new_leaf left id_l false n, refl)
two-bounded n left right id_l id_r start (suc zero) at = (new_leaf right id_r true n, refl)
two-bounded n left right id_l id_r start (suc (suc i)) at = absurd (ground arith)

two-Pending :
    (n : ℕ) (left right : Word) (id_l id_r start i : ℕ) (l : Leaf) (x : ℕ)
    → nth i (two n left right id_l id_r start).leaves ≡ some l
    → x < n
    → Pending i x (both_tasks n 0)
two-Pending n left right id_l id_r start zero l x at h =
    (both_tasks-Pending n 0 x x h (omega arith)).0
two-Pending n left right id_l id_r start (suc zero) l x at h =
    (both_tasks-Pending n 0 x x h (omega arith)).1
two-Pending n left right id_l id_r start (suc (suc i)) l x at h = absurd cc

module _ {A : Type 0} (o : FilterAnswer A) (K : Word → Option A) where
  initial_transitions_lem :
      (n rounds i : ℕ) (st : State) (base : Base A)
      → i + rounds ≡ n
      → 1 < length st.leaves
      → IsHypothesis o K n st (both_tasks rounds i)
      → HasTransitions o K n st
      → Knows o K base
      → (st' : State) × (base' : Base A) × (initial_transitions o n rounds i [] st base
          ≡ some ([], st', base'))
        × Knows o K base'
        × IsHypothesis o K n st' []
  unfolding initial_transitions perform_or_add both_tasks
  initial_transitions_lem n zero i st base e two hyp closed knows = (st, base, refl, knows, hyp)
  initial_transitions_lem n (suc rounds) i st base e two hyp closed knows =
      let rest = both_tasks rounds (suc i) in
      let (st1, base1, done1, knows1, hyp1, len1, closed1) =
        compute_finishes o K n (compute_transition 0 i []) st (compute_transition 1 i [] ∷ rest)
          base hyp (0, i, refl, omega (arith, two), omega (arith, e)) closed knows in
      let (st2, base2, done2, knows2, hyp2, len2, closed2) =
        compute_finishes o K n (compute_transition 1 i []) st1 rest base1 hyp1
          (1, i, refl, omega (arith, two, len1), omega (arith, e)) closed1 knows1 in
      let (st3, base3, done3, knows3, hyp3) =
        initial_transitions_lem n rounds (suc i) st2 base2 (omega (arith, e))
          (omega (arith, two, len1, len2)) hyp2 closed2 knows2 in
      (st3, base3, rw (done1, perform_or_add) (rw (done2, perform_or_add) done3), knows3, hyp3)

  two-IsLeaf :
      (n : ℕ) (left right : Word) (id_l id_r start : ℕ)
      → IsWord left
      → IsWord right
      → side o K left ≡ some false
      → side o K right ≡ some true
      → (i : ℕ) (l : Leaf) → nth i (two n left right id_l id_r start).leaves ≡ some l
      → IsLeaf o K n (two n left right id_l id_r start) i l
  unfolding new_leaf sifted
  two-IsLeaf n left right id_l id_r start wl wr hl hr zero l at =
      subst (λ m. IsLeaf o K n (two n left right id_l id_r start) 0 m) (some_eq at)
        (record {
          word = wl;
          home =
              sifted-left o K left [] [] (leaf 0) (leaf 1) (ap (side o K) (append-nil left) ∙ hl);
          accepts = hl;
          width = length-replicate n none;
        })
  two-IsLeaf n left right id_l id_r start wl wr hl hr (suc zero) l at =
      subst (λ m. IsLeaf o K n (two n left right id_l id_r start) 1 m) (some_eq at)
        (record {
          word = wr;
          home =
              sifted-right o K right [] [] (leaf 0) (leaf 1)
                (ap (side o K) (append-nil right) ∙ hr);
          accepts = hr;
          width = length-replicate n none;
        })
  two-IsLeaf n left right id_l id_r start wl wr hl hr (suc (suc i)) l at = absurd cc

  two-IsHypothesis :
      (n : ℕ) (left right : Word) (id_l id_r start : ℕ)
      → IsWord left
      → IsWord right
      → side o K left ≡ some false
      → side o K right ≡ some true
      → (l : Leaf) × (nth start (two n left right id_l id_r start).leaves ≡ some l) × (l.label ≡ [])
      → IsHypothesis o K n (two n left right id_l id_r start) (both_tasks n 0)
  two-IsHypothesis n left right id_l id_r start wl wr hl hr first = record {
    rooted = (leaf 0, leaf 1, refl);
    words = (refl, tt, tt);
    distinct = two-distinct;
    bounded = two-bounded n left right id_l id_r start;
    initial = first;
    is_leaf = two-IsLeaf n left right id_l id_r start wl wr hl hr;
    transitions = λ i l x at h. inr (two-Pending n left right id_l id_r start i l x at h);
  }

  initial_tree-IsHypothesis :
      (n : ℕ) (w : Word) (accepts_empty : Bool)
      → IsWord w
      → side o K [] ≡ some accepts_empty
      → side o K w ≡ some (not accepts_empty)
      → IsHypothesis o K n (initial_tree n w accepts_empty) (both_tasks n 0)
  unfolding new_leaf
  initial_tree-IsHypothesis n w true word empty other =
      two-IsHypothesis n w [] 1 0 1 word refl other empty (new_leaf [] 0 true n, refl, refl)
  initial_tree-IsHypothesis n w false word empty other =
      two-IsHypothesis n [] w 0 1 0 refl word empty other (new_leaf [] 0 false n, refl, refl)

  -- In the initial phase with no task left, for a nonempty word without negative symbols whose
  -- known answer is not that of the empty word, where the answers for the transitions of the
  -- first tree are known, add_counterexample returns true and leaves no task, and a tree that
  -- fits its leaves with each transition right.
  pub add_counterexample-starts :
      (n : ℕ) (use_binary_search accepts_empty : Bool) (x : ℤ) (w : Word) (base : Base A)
      → IsWord (x ∷ w)
      → side o K [] ≡ some accepts_empty
      → side o K (x ∷ w) ≡ some (not accepts_empty)
      → HasTransitions o K n (initial_tree n (x ∷ w) accepts_empty)
      → Knows o K base
      → (st : State) × (base' : Base A) × (add_counterexample o
            (beginning n use_binary_search)
            (x ∷ w)
            base
          ≡ some (true, waiting n use_binary_search st [], base'))
        × Knows o K base'
        × IsHypothesis o K n st []
  unfolding add_counterexample
  add_counterexample-starts n use_binary_search accepts_empty x w base word empty other closed
        knows =
      let (_, knows0) = resolve_query-Knows o K (x ∷ w) base knows in
      let base0 = (resolve_query o.answer none (x ∷ w) base).1 in
      let (base1, queried, knows1, _) = query_lem o K [] base0 refl knows0 in
      let (a, known, turn) = side-known o K [] accepts_empty empty in
      let (st, base2, done, knows2, hyp) =
        initial_transitions_lem n n 0 (initial_tree n (x ∷ w) accepts_empty) base1 (omega arith)
          (initial_tree-two n (x ∷ w) accepts_empty)
          (initial_tree-IsHypothesis n (x ∷ w) accepts_empty word empty other) closed knows1 in
      (st, base2, rw (queried, known, turn, done) refl, knows2, hyp)
