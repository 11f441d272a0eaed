-- ===== src/Kearns/Compute.antt =====
-- algorithm_kearns_vazirani.h: compute_transition_task::perform, by what it needs.
use libalf.Common.{
  ℕ, ◌<◌, ◌≡◌, ◌⊎◌, refl, sym, ap, subst, ◌∙◌, List, [], ◌∷◌, ◌++◌, true, false, ◌&&◌, Option, some,
  nth, length, ◌==◌, ==_iff, pos, Word, arith, Bool-cases, inl, inr,
}
use libalf.Knowledgebase.Base.{Base}
use libalf.Filter.{FilterAnswer}
use libalf.Angluin.Knows.{IsWord-concat}
use libalf.Angluin.Filling.{Knows}
use libalf.Kearns.Tree.{Leaf, TreePath, at_leaf, at_inner}
use libalf.Kearns.Tasks.{State, Task, compute_transition, unfinished, finished, set_transition}
use libalf.Kearns.Perform.{perform_compute_transition}
use libalf.Kearns.Separation.{sifted-occurs}
use libalf.Kearns.Invariant.{reached, IsHypothesis, IsLeaf, IsRight, Pending, has, some_eq}
use libalf.Kearns.Linear.{Starts, sift_from_lem, Place-cases}
use libalf.Kearns.Computing.{
  has-insert_address, has-insert_other, nth-put_nth, nth-put_other, length-put_nth, moved,
  nth-set_transition, nth-set_transition-some,
}

abbrev task_source : Task → ℕ
task_source (compute_transition source symbol p) = source
task_source t = 0

abbrev task_symbol : Task → ℕ
task_symbol (compute_transition source symbol p) = symbol
task_symbol t = 0

module _ (source symbol target i : ℕ) (k : Leaf) where
  moved-width : length (moved source symbol target i k).transitions ≡ length k.transitions
  moved-width = elim (Bool-cases (source == i)) [
    | inl e ↦ rw e (length-put_nth symbol (some target) k.transitions)
    | inr e ↦ rw e refl
  ]

  moved-has :
      (j : ℕ)
      → has j k.incoming_transitions ≡ true
      → has j (moved source symbol target i k).incoming_transitions ≡ true
  moved-has j h = elim (Bool-cases (target == i)) [
    | inl e ↦ rw e (has-insert_other j source k.incoming_transitions h)
    | inr e ↦ rw e h
  ]

  moved-other :
      (x : ℕ)
      → (source == i && symbol == x) ≡ false
      → nth x (moved source symbol target i k).transitions ≡ nth x k.transitions
  moved-other x h = elim (Bool-cases (source == i)) [
    | inl e ↦ rw e (nth-put_other symbol x (some target) k.transitions (ground (arith, h, e)))
    | inr e ↦ rw e refl
  ]

module _ {A : Type 0} (o : FilterAnswer A) (K : Word → Option A) (n source symbol target : ℕ)
    (st : State) (p : TreePath) (tasks : List Task)
    (hyp : IsHypothesis o K n st (compute_transition source symbol p ∷ tasks)) (old : Leaf)
    (found : nth source st.leaves ≡ some old) (inside : symbol < n)
    (arrives : reached o K st (old.label ++ pos symbol ∷ []) ≡ at_leaf target) where
  abbrev moved_state : State
  moved_state = record st { leaves = set_transition source symbol target st.leaves }

  computed : IsRight o K moved_state source (moved source symbol target source old) symbol
  computed =
      let (to, at_to) =
        hyp.bounded target
          (sifted-occurs o K (old.label ++ pos symbol ∷ []) [] st.root target arrives) in
      let me : source == source ≡ true = ground arith in
      let there : target == target ≡ true = ground arith in
      let wide : symbol < length old.transitions =
        subst (λ m. symbol < m) (sym (hyp.is_leaf source old found).width) inside in
      (
        target,
        moved source symbol target target to,
        rw me (nth-put_nth symbol (some target) old.transitions wide),
        arrives,
        nth-set_transition source symbol target target st.leaves to at_to,
        rw there (has-insert_address source to.incoming_transitions),
      )

  computed-transitions :
      (i : ℕ) (l : Leaf) (x : ℕ)
      → nth i (set_transition source symbol target st.leaves) ≡ some l
      → x < n
      → IsRight o K moved_state i l x ⊎ Pending i x tasks
  computed-transitions i l x at h =
      let (k, at_k, same) = nth-set_transition-some source symbol target i st.leaves l at in
      elim (Bool-cases (source == i && symbol == x)) [
        | inl e ↦
            let is_source : source ≡ i = (==_iff source i).0 (ground (arith, e)) in
            let is_symbol : symbol ≡ x = (==_iff symbol x).0 (ground (arith, e)) in
            let is_old : old ≡ k =
              some_eq (sym found ∙ ap (λ j. nth j st.leaves) is_source ∙ at_k) in
            let state = record st { leaves = set_transition source symbol target st.leaves } in
            let right_old : IsRight o K state source (moved source symbol target source k) symbol =
              subst (λ m. IsRight o K state source (moved source symbol target source m) symbol)
                is_old computed in
            let right_i : IsRight o K state i (moved source symbol target i k) symbol =
              subst (λ j. IsRight o K state j (moved source symbol target j k) symbol) is_source
                right_old in
            let right_x : IsRight o K state i (moved source symbol target i k) x =
              subst (λ y. IsRight o K state i (moved source symbol target i k) y) is_symbol
                right_i in
            inl (subst (λ m. IsRight o K state i m x) (sym same) right_x)
        | inr e ↦ elim (hyp.transitions i k x at_k h) [
          | inl (j, to, leads, reached_j, at_j, incoming) ↦ inl (
            j,
            moved source symbol target j to,
            ap (λ m. nth x m.transitions) same ∙ moved-other source symbol target i k x e ∙ leads,
            ap (λ m. reached o K st (m.label ++ pos x ∷ [])) same ∙ reached_j,
            nth-set_transition source symbol target j st.leaves to at_j,
            moved-has source symbol target j to i incoming,
          )
          | inr (inr pending) ↦ inr pending
          | inr (inl (q, t)) ↦
              let same_source : source == i ≡ true = (==_iff source i).1 (ap task_source t) in
              let same_symbol : symbol == x ≡ true = (==_iff symbol x).1 (ap task_symbol t) in
              absurd (ground (arith, e, same_source, same_symbol))
        ]
      ]

  computed-IsHypothesis : IsHypothesis o K n moved_state tasks
  computed-IsHypothesis = record {
    rooted = hyp.rooted;
    words = hyp.words;
    distinct = hyp.distinct;
    bounded = λ i at.
        let (l, was) = hyp.bounded i at in
        (moved source symbol target i l, nth-set_transition source symbol target i st.leaves l was);
    initial =
        let (l, was, empty) = hyp.initial in
        (
          moved source symbol target st.initial_state l,
          nth-set_transition source symbol target st.initial_state st.leaves l was,
          empty,
        );
    is_leaf = λ i l at.
        let (k, at_k, same) = nth-set_transition-some source symbol target i st.leaves l at in
        let was = hyp.is_leaf i k at_k in
        subst (λ m. IsLeaf o K n moved_state i m) (sym same)
          (record {
            word = was.word;
            home = was.home;
            accepts = was.accepts;
            width = moved-width source symbol target i k ∙ was.width;
          });
    transitions = computed-transitions;
  }

module _ {A : Type 0} (o : FilterAnswer A) (K : Word → Option A) where
  -- Where the tree fits its leaves, a transition's source is a leaf, its symbol is in the
  -- alphabet and its sift may go on, compute_transition_task either waits for an answer at the
  -- inner node where the sift stops, with the variables as they were, or finishes: then the tree
  -- fits its leaves, and each transition is right unless another task for it is in the list.
  pub perform_compute_transition_lem :
      (n source symbol : ℕ) (st : State) (p : TreePath) (tasks : List Task) (base : Base A)
      (old : Leaf)
      → IsHypothesis o K n st (compute_transition source symbol p ∷ tasks)
      → nth source st.leaves ≡ some old
      → symbol < n
      → Starts o K st (old.label ++ pos symbol ∷ []) p
      → Knows o K base
      → (base' : Base A) × Knows o K base'
        × (((q : TreePath) × (perform_compute_transition o source symbol p st base
                ≡ some (unfinished (compute_transition source symbol q), st, base'))
              × (reached o K st (old.label ++ pos symbol ∷ []) ≡ at_inner q))
            ⊎ ((st' : State) × (perform_compute_transition o source symbol p st base
                  ≡ some (finished [], st', base'))
                × IsHypothesis o K n st' tasks
                × ((target : ℕ) × (st'
                      ≡ record st { leaves = set_transition source symbol target st.leaves }))))
  unfolding perform_compute_transition
  perform_compute_transition_lem n source symbol st p tasks base old hyp found inside starts knows =
      let word = old.label ++ pos symbol ∷ [] in
      let (base', arrived, knows') =
        sift_from_lem o K st word p base
          (IsWord-concat old.label (pos symbol ∷ []) (hyp.is_leaf source old found).word refl)
          starts knows in
      elim (Place-cases (reached o K st word)) [
        | inr (q, e) ↦
            (base', knows', inl (q, rw (found, arrived, e, perform_compute_transition) refl, e))
        | inl (i, e) ↦ (
          base',
          knows',
          inr (
            record st { leaves = set_transition source symbol i st.leaves },
            rw (found, arrived, e, perform_compute_transition) refl,
            computed-IsHypothesis o K n source symbol i st p tasks hyp old found inside e,
            (i, refl),
          ),
        )
      ]
