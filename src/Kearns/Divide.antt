-- ===== src/Kearns/Divide.antt =====
-- algorithm_kearns_vazirani.h: split_node_task::perform, its tasks, and its call.
use libalf.Common.{
  ℕ, suc, ◌<◌, ◌≡◌, ◌⊎◌, refl, sym, ap, subst, ◌∙◌, List, [], ◌∷◌, ◌++◌, true, false, Option, some,
  nth, length, length-append, ◌==◌, ==_iff, if◌then◌else◌, pos, Word, IsWord, arith, Bool-cases,
  inl, inr,
}
use libalf.Knowledgebase.Base.{Base}
use libalf.Filter.{FilterAnswer}
use libalf.Angluin.Knows.{IsWord-concat}
use libalf.Angluin.Filling.{Knows}
use libalf.Kearns.Tree.{Leaf, Tree, inner}
use libalf.Kearns.Tasks.{
  State, Task, finished, new_leaf, split, recompute, compute_symbols, replace,
}
use libalf.Kearns.Perform.{perform_split_node}
use libalf.Kearns.Sifting.{side-known, query_lem}
use libalf.Kearns.Separation.{occurs}
use libalf.Kearns.Invariant.{reached, IsHypothesis, IsRight, Pending, has, nth-length, some_eq}
use libalf.Kearns.Searching.{IsSplit}
use libalf.Kearns.Replacing.{divided, HasWords-replace, occurs-replace, HasDistinctLeaves-replace}
use libalf.Kearns.Entries.{
  nth-append_old, nth-append_end, nth-modify, length-modify, Pending-left, Pending-right,
  recompute-Pending, compute_symbols-Pending,
}
use libalf.Kearns.Splitting.{
  cleared, split_leaves, split_root, split_leaves-cases, label_kept, transitions_kept,
}
use libalf.Kearns.Split.{after, HasWords-divided, reached_other, after-IsLeaf}

abbrev pub added_tasks : (n node : ℕ) (label : Word) (old : Leaf) → State → List Task
added_tasks n node label old st =
    recompute node old.incoming_transitions
      (st.leaves ++ new_leaf label st.leaf_node_count old.accepting n ∷ [])
    ++ compute_symbols (length st.leaves) 0 n

absent_end : (xs : List Leaf) (b : Leaf) → nth (length xs) xs ≡ some b → ⊥
absent_end xs b h = absurd (omega (arith, nth-length (length xs) xs b h))

module _ {A : Type 0} (o : FilterAnswer A) (K : Word → Option A) (n node : ℕ)
    (label inner_label : Word) (st : State) (hyp : IsHypothesis o K n st [])
    (s : IsSplit o K st node label inner_label) where
  after-transitions :
      (i : ℕ) (l : Leaf) (x : ℕ)
      → nth i (split_leaves n node label s.old st) ≡ some l
      → x < n
      → IsRight o K (after n node label inner_label s.turn s.old st) i l x
        ⊎ Pending i x (added_tasks n node label s.old st)
  after-transitions i l x at h =
      let made = new_leaf label st.leaf_node_count s.old.accepting n in
      let leaves = st.leaves ++ made ∷ [] in
      let changed = recompute node s.old.incoming_transitions leaves in
      let fresh = compute_symbols (length st.leaves) 0 n in
      let (k, from, same) = split_leaves-cases n node label s.old st i l at in
      elim from [
        | inr (end, _) ↦ inr (
            Pending-right i x changed fresh (
              subst (λ j. Pending j x fresh) (sym end)
                (compute_symbols-Pending (length st.leaves) x x 0 n (omega arith) h)))
        | inl old_at ↦ elim (hyp.transitions i k x old_at h) [
          | inr e ↦ absurd e
          | inl (j, target, leads, reached_j, at_j, incoming) ↦ elim (Bool-cases (node == j)) [
            | inl e ↦
                let is_node : node ≡ j = (==_iff node j).0 e in
                let is_old : target ≡ s.old =
                  some_eq (
                    sym (subst (λ m. nth m st.leaves ≡ some target) (sym is_node) at_j)
                    ∙ s.found) in
                inr (
                  Pending-left i x changed fresh (
                    recompute-Pending node i x s.old.incoming_transitions leaves k
                      (subst (λ t. has i t.incoming_transitions ≡ true) is_old incoming)
                      (nth-append_old i st.leaves (made ∷ []) k old_at)
                      (leads ∙ ap (λ m. some (some m)) (sym is_node))))
            | inr differ ↦ inl (
              j,
              target,
              ap (λ t. nth x t) (transitions_kept (node == i) k l same) ∙ leads,
              ap
                    (λ v.
                      reached o K (after n node label inner_label s.turn s.old st)
                        (v ++ pos x ∷ []))
                    (label_kept (node == i) k l same)
                  ∙ reached_other o K n node label inner_label st hyp s (k.label ++ pos x ∷ []) j
                      reached_j differ,
              nth-modify j node cleared leaves target
                    (nth-append_old j st.leaves (made ∷ []) target at_j)
                  ∙ ap (λ b. some (if b then cleared target else target)) differ,
              incoming,
            )
          ]
        ]
      ]

  fresh_absent : occurs (length st.leaves) st.root ≡ false
  fresh_absent = elim (Bool-cases (occurs (length st.leaves) st.root)) [
    | inl e ↦ let (l, at) = hyp.bounded (length st.leaves) e in absurd (absent_end st.leaves l at)
    | inr e ↦ e
  ]

  node_not_fresh : node == length st.leaves ≡ false
  node_not_fresh = elim (Bool-cases (node == length st.leaves)) [
    | inl e ↦ absurd (
        absent_end st.leaves s.old (
          subst (λ j. nth j st.leaves ≡ some s.old) ((==_iff node (length st.leaves)).0 e) s.found))
    | inr e ↦ e
  ]

  after-bounded :
      (i : ℕ)
      → occurs i (split_root node inner_label s.turn st) ≡ true
      → (l : Leaf) × (nth i (split_leaves n node label s.old st) ≡ some l)
  after-bounded i at =
      let made = new_leaf label st.leaf_node_count s.old.accepting n in
      let leaves = st.leaves ++ made ∷ [] in
      elim (Bool-cases (occurs i st.root)) [
        | inl e ↦
            let (l, was) = hyp.bounded i e in
            (
              if node == i then cleared l else l,
              nth-modify i node cleared leaves l (nth-append_old i st.leaves (made ∷ []) l was),
            )
        | inr e ↦
            let is_fresh : i == length st.leaves ≡ true =
              ground (
                arith,
                occurs-replace inner_label s.turn node (length st.leaves) i st.root,
                at,
                e,
              ) in
            (
              if node == i then cleared made else made,
              nth-modify i node cleared leaves made (
                  ap (λ j. nth j leaves) ((==_iff i (length st.leaves)).0 is_fresh)
                  ∙ nth-append_end st.leaves made),
            )
      ]

  after-initial :
      (l : Leaf) × (nth st.initial_state (split_leaves n node label s.old st) ≡ some l)
      × (l.label ≡ [])
  after-initial =
      let made = new_leaf label st.leaf_node_count s.old.accepting n in
      let (l, at, empty) = hyp.initial in
      let b = node == st.initial_state in
      let k : Leaf = if b then cleared l else l in
      (
        k,
        nth-modify st.initial_state node cleared (st.leaves ++ made ∷ []) l
            (nth-append_old st.initial_state st.leaves (made ∷ []) l at),
        label_kept b l k refl ∙ empty,
      )

  after-rooted : (l r : Tree) × (split_root node inner_label s.turn st ≡ inner [] l r)
  unfolding replace
  after-rooted =
      let d = divided inner_label s.turn node (length st.leaves) in
      let (l, r, e) = hyp.rooted in
      (replace node d l, replace node d r, ap (λ t. replace node d t) e)

  after-IsHypothesis :
      IsWord label
      → IsWord inner_label
      → IsHypothesis o K n
          (after n node label inner_label s.turn s.old st)
          (added_tasks n node label s.old st)
  after-IsHypothesis word inner_word =
      let fresh = length st.leaves in
      record {
        rooted = after-rooted;
        words =
            HasWords-replace node (divided inner_label s.turn node fresh) st.root
              (HasWords-divided inner_label s.turn node fresh inner_word) hyp.words;
        distinct =
            HasDistinctLeaves-replace inner_label s.turn node fresh st.root hyp.distinct
              fresh_absent node_not_fresh;
        bounded = after-bounded;
        initial = after-initial;
        is_leaf = after-IsLeaf o K n node label inner_label st hyp s word;
        transitions = after-transitions;
      }

  one_more : length (split_leaves n node label s.old st) ≡ suc (length st.leaves)
  one_more =
      let made = new_leaf label st.leaf_node_count s.old.accepting n in
      omega (
        arith,
        length-modify node cleared (st.leaves ++ made ∷ []),
        length-append st.leaves (made ∷ []),
      )

  split-after :
      split n node label inner_label s.turn s.old st
      ≡ (added_tasks n node label s.old st, after n node label inner_label s.turn s.old st)
  unfolding split divided
  split-after = refl

  -- For a tree that fits its leaves where no transition is pending, a node and two labels without
  -- negative symbols such that the first label arrives at the node and the second has different
  -- known answers after it and after the node's label, split_node_task finishes, with one leaf
  -- more: the new tree fits its leaves, each of which arrives where it is, and each transition is
  -- right unless a task for it was added.
  pub perform_split_node_lem :
      (base : Base A)
      → IsWord label
      → IsWord inner_label
      → Knows o K base
      → (tasks : List Task) × (st' : State) × (base' : Base A) × (perform_split_node o n node label
            inner_label st base
          ≡ some (finished tasks, st', base'))
        × Knows o K base'
        × IsHypothesis o K n st' tasks
        × (length st'.leaves ≡ suc (length st.leaves))
        × (tasks ≡ added_tasks n node label s.old st)
        × (st' ≡ after n node label inner_label s.turn s.old st)
  unfolding perform_split_node
  perform_split_node_lem base word inner_word knows =
      let (base', queried, knows', asked) =
        query_lem o K (label ++ inner_label) base (IsWord-concat label inner_label word inner_word)
          knows in
      let (a, known, turn) = side-known o K (label ++ inner_label) s.turn s.new_side in
      (
        added_tasks n node label s.old st,
        after n node label inner_label s.turn s.old st,
        base',
        rw (queried, known, perform_split_node) (rw (s.found, turn, split-after) refl),
        knows',
        after-IsHypothesis word inner_word,
        one_more,
        refl,
        refl,
      )
