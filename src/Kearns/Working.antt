-- ===== src/Kearns/Working.antt =====
-- algorithm_kearns_vazirani.h: the loop of advance over the tasks that a split adds.
use libalf.Common.{
  ℕ, zero, suc, ◌+◌, ◌<◌, ◌≤◌, ◌≡◌, refl, sym, ap, subst, ◌∙◌, List, [], ◌∷◌, ◌++◌, append-nil,
  Option, none, some, nth, length, length-append, All, ◌==◌, pos, Word, IsWord, arith, Bool-cases,
  Option-cases, inl, inr,
}
use libalf.Knowledgebase.Base.{Base}
use libalf.Filter.{FilterAnswer}
use libalf.Angluin.Filling.{Knows}
use libalf.Kearns.Tree.{Leaf, at_leaf}
use libalf.Kearns.Tasks.{
  State, Task, compute_transition, finished, recompute, recompute_symbols, compute_symbols,
  split_node, new_leaf, set_transition,
}
use libalf.Kearns.Perform.{perform, perform_compute_transition}
use libalf.Kearns.Advance.{work}
use libalf.Kearns.Separation.{at_inner≢at_leaf}
use libalf.Kearns.Invariant.{reached, IsHypothesis, nth-length}
use libalf.Kearns.Linear.{root-Starts}
use libalf.Kearns.Searching.{IsSplit}
use libalf.Kearns.Entries.{nth-append_cases}
use libalf.Kearns.Splitting.{length-replicate}
use libalf.Kearns.Divide.{added_tasks, perform_split_node_lem}
use libalf.Kearns.Split.{after}
use libalf.Kearns.Computing.{nth-set_transition-some, length-set_transition}
use libalf.Kearns.Compute.{perform_compute_transition_lem}

nth-exists : {B : Type 0} (i : ℕ) (l : List B) → i < length l → (b : B) × (nth i l ≡ some b)
nth-exists i [] h = absurd (omega (arith, h))
nth-exists zero (x ∷ l) h = (x, refl)
nth-exists (suc i) (x ∷ l) h = nth-exists i l (omega (arith, h))

-- A task at the root for a transition of one of `m` leaves and one of `n` symbols.
abbrev pub IsComputable : (m n : ℕ) → Task → Type 0
IsComputable m n t =
    (source symbol : ℕ) × (t ≡ compute_transition source symbol []) × (source < m) × (symbol < n)

All-append : (P : Task → Type 0) (xs ys : List Task) → All P xs → All P ys → All P (xs ++ ys)
All-append P [] ys h k = k
All-append P (x ∷ xs) ys h k = (h.0, All-append P xs ys h.1 k)

recompute_symbols-IsComputable :
    (m n node i k : ℕ) (targets : List (Option ℕ))
    → i < m
    → k + length targets ≤ n
    → All (IsComputable m n) (recompute_symbols node i k targets)
unfolding recompute_symbols
recompute_symbols-IsComputable m n node i k [] hi h = tt
recompute_symbols-IsComputable m n node i k (none ∷ targets) hi h =
    recompute_symbols-IsComputable m n node i (suc k) targets hi (omega (arith, h))
recompute_symbols-IsComputable m n node i k (some j ∷ targets) hi h =
    let rest = recompute_symbols-IsComputable m n node i (suc k) targets hi (omega (arith, h)) in
    elim (Bool-cases (j == node)) [
      | inl e ↦ rw (e, recompute_symbols) ((i, k, refl, hi, omega (arith, h)), rest)
      | inr e ↦ rw (e, recompute_symbols) rest
    ]

pub recompute-IsComputable :
    (n node : ℕ) (sources : List ℕ) (leaves : List Leaf)
    → ((i : ℕ) (l : Leaf) → nth i leaves ≡ some l → length l.transitions ≡ n)
    → All (IsComputable (length leaves) n) (recompute node sources leaves)
unfolding recompute
recompute-IsComputable n node [] leaves width = tt
recompute-IsComputable n node (i ∷ sources) leaves width =
    let rest = recompute-IsComputable n node sources leaves width in
    elim (Option-cases (nth i leaves)) [
      | inl e ↦ rw (e, recompute) rest
      | inr (l, e) ↦
          rw (e, recompute)
            (All-append (IsComputable (length leaves) n) (recompute_symbols node i 0 l.transitions)
              (recompute node sources leaves)
              (recompute_symbols-IsComputable (length leaves) n node i 0 l.transitions
                (nth-length i leaves l e) (omega (arith, width i l e)))
              rest)
    ]

pub compute_symbols-IsComputable :
    (m n i k rounds : ℕ)
    → i < m
    → k + rounds ≤ n
    → All (IsComputable m n) (compute_symbols i k rounds)
unfolding compute_symbols
compute_symbols-IsComputable m n i k zero hi h = tt
compute_symbols-IsComputable m n i k (suc rounds) hi h = (
  (i, k, refl, hi, omega (arith, h)),
  compute_symbols-IsComputable m n i (suc k) rounds hi (omega (arith, h)),
)

added_tasks-IsComputable :
    {A : Type 0} (o : FilterAnswer A) (K : Word → Option A) (n node : ℕ) (label : Word) (old : Leaf)
    (st : State)
    → IsHypothesis o K n st []
    → All (IsComputable (suc (length st.leaves)) n) (added_tasks n node label old st)
unfolding new_leaf
added_tasks-IsComputable o K n node label old st hyp =
    let made = new_leaf label st.leaf_node_count old.accepting n in
    let leaves = st.leaves ++ made ∷ [] in
    let longer : length leaves ≡ suc (length st.leaves) =
      omega (arith, length-append st.leaves (made ∷ [])) in
    All-append (IsComputable (suc (length st.leaves)) n)
      (recompute node old.incoming_transitions leaves) (compute_symbols (length st.leaves) 0 n)
      (subst (λ m. All (IsComputable m n) (recompute node old.incoming_transitions leaves)) longer
        (recompute-IsComputable n node old.incoming_transitions leaves (λ i l at.
          elim (nth-append_cases i st.leaves made l at) [
            | inl was ↦ (hyp.is_leaf i l was).width
            | inr (_, same) ↦ ap (λ k. length k.transitions) (sym same) ∙ length-replicate n none
          ])))
      (compute_symbols-IsComputable (suc (length st.leaves)) n (length st.leaves) 0 n (omega arith)
        (omega arith))

module _ {A : Type 0} (o : FilterAnswer A) (K : Word → Option A) where
  -- The answers that the sifts of the transitions ask for are known.
  abbrev pub HasTransitions : (n : ℕ) → State → Type 0
  HasTransitions n st =
      (i : ℕ) (l : Leaf) (x : ℕ)
      → nth i st.leaves ≡ some l
      → x < n
      → (j : ℕ) × (reached o K st (l.label ++ pos x ∷ []) ≡ at_leaf j)

  set_transition-HasTransitions :
      (n source symbol target : ℕ) (st : State)
      → HasTransitions n st
      → HasTransitions n (record st { leaves = set_transition source symbol target st.leaves })
  set_transition-HasTransitions n source symbol target st closed i l x at h =
      let (k, at_k, same) = nth-set_transition-some source symbol target i st.leaves l at in
      let (j, arrived) = closed i k x at_k h in
      (j, ap (λ m. reached o K st (m.label ++ pos x ∷ [])) same ∙ arrived)

  -- One task for a transition, where its answers are known.
  pub compute_finishes :
      (n : ℕ) (t : Task) (st : State) (tasks : List Task) (base : Base A)
      → IsHypothesis o K n st (t ∷ tasks)
      → IsComputable (length st.leaves) n t
      → HasTransitions n st
      → Knows o K base
      → (st' : State) × (base' : Base A) × (perform o n t st base ≡ some (finished [], st', base'))
        × Knows o K base'
        × IsHypothesis o K n st' tasks
        × (length st'.leaves ≡ length st.leaves)
        × HasTransitions n st'
  unfolding perform
  compute_finishes n t st tasks base hyp (source, symbol, e, hs, hx) closed knows =
      let (old, found) = nth-exists source st.leaves hs in
      let word = old.label ++ pos symbol ∷ [] in
      let same : perform o n t st base ≡ perform_compute_transition o source symbol [] st base =
        ap (λ u. perform o n u st base) e in
      let hyp' = subst (λ u. IsHypothesis o K n st (u ∷ tasks)) e hyp in
      let (base', knows', result) =
        perform_compute_transition_lem o K n source symbol st [] tasks base old hyp' found hx
          (root-Starts o K n st word (t ∷ tasks) hyp) knows in
      elim result [
        | inl (q, _, stops) ↦
            let (i, at) = closed source old symbol found hx in
            absurd (at_inner≢at_leaf q i (sym stops ∙ at))
        | inr (st', done, hyp'', (target, is_set)) ↦ (
          st',
          base',
          same ∙ done,
          knows',
          hyp'',
          ap (λ q. length q.leaves) is_set ∙ length-set_transition source symbol target st.leaves,
          subst (λ q. HasTransitions n q) (sym is_set)
              (set_transition-HasTransitions n source symbol target st closed),
        )
      ]

  -- Where the answers for the transitions are known, the loop performs tasks for transitions to the end, on as much fuel
  -- as there are tasks: none is left, and each transition is right.
  pub work_lem :
      (n : ℕ) (tasks : List Task) (fuel : ℕ) (st : State) (base : Base A)
      → length tasks ≤ fuel
      → IsHypothesis o K n st tasks
      → All (IsComputable (length st.leaves) n) tasks
      → HasTransitions n st
      → Knows o K base
      → (st' : State) × (base' : Base A) × (work o fuel n [] tasks st base ≡ some ([], st', base'))
        × Knows o K base'
        × IsHypothesis o K n st' []
        × (length st'.leaves ≡ length st.leaves)
  unfolding work
  work_lem n [] fuel st base h hyp all closed knows = (st, base, refl, knows, hyp, refl)
  work_lem n (t ∷ tasks) zero st base h hyp all closed knows = absurd (omega (arith, h))
  work_lem n (t ∷ tasks) (suc fuel) st base h hyp all closed knows =
      let (st1, base1, done, knows1, hyp1, len1, closed1) =
        compute_finishes n t st tasks base hyp all.0 closed knows in
      let (st2, base2, rest, knows2, hyp2, len2) =
        work_lem n tasks fuel st1 base1 (omega (arith, h)) hyp1
          (subst (λ m. All (IsComputable m n) tasks) (sym len1) all.1) closed1 knows1 in
      (
        st2,
        base2,
        rw (done, work)
            (subst (λ l. work o fuel n [] l st1 base1 ≡ some ([], st2, base2))
              (sym (append-nil tasks)) rest),
        knows2,
        hyp2,
        len2 ∙ len1,
      )

  -- Where the tree fits its leaves, no transition is pending, a split has what it needs, its leaf
  -- label has no negative symbols, and the answers for the transitions of the tree after the
  -- split are known, the loop of advance performs the split and the tasks that it adds, on one
  -- more unit of fuel than there are added tasks: none is left, there is one leaf more, the tree
  -- fits its leaves and each transition is right.
  pub work-split_node :
      (n node : ℕ) (label inner_label : Word) (fuel : ℕ) (st : State) (base : Base A)
      → IsHypothesis o K n st []
      → (s : IsSplit o K st node label inner_label) → IsWord label
      → Knows o K base
      → HasTransitions n (after n node label inner_label s.turn s.old st)
      → length (added_tasks n node label s.old st) ≤ fuel
      → (st' : State) × (base' : Base A) × (work o
            (suc fuel)
            n
            []
            (split_node node label inner_label ∷ [])
            st
            base
          ≡ some ([], st', base'))
        × Knows o K base'
        × IsHypothesis o K n st' []
        × (length st'.leaves ≡ suc (length st.leaves))
  unfolding work perform
  work-split_node n node label inner_label fuel st base hyp s word knows closed h =
      let (tasks, st1, base1, done, knows1, hyp1, len1, added, is_after) =
        perform_split_node_lem o K n node label inner_label st hyp s base word s.inner_word knows in
      let (st2, base2, rest, knows2, hyp2, len2) =
        work_lem n tasks fuel st1 base1 (subst (λ l. length l ≤ fuel) (sym added) h) hyp1
          (subst (λ m. All (IsComputable m n) tasks) (sym len1)
            (subst (λ l. All (IsComputable (suc (length st.leaves)) n) l) (sym added)
              (added_tasks-IsComputable o K n node label s.old st hyp)))
          (subst (λ q. HasTransitions n q) (sym is_after) closed) knows1 in
      (st2, base2, rw (done, work) rest, knows2, hyp2, len2 ∙ len1)
