-- ===== src/Kearns/Searching.antt =====
-- algorithm_kearns_vazirani.h: add_counterexample_linearsearch_task::perform.
use libalf.Common.{
  ℕ, suc, ◌<◌, ◌≡◌, refl, sym, ap, ◌∙◌, subst, [], ◌∷◌, ◌++◌, append_assoc, Bool, true, false, not,
  Option, some, nth, ◌==◌, pos, ℤ, Word, IsWord, take, arith, inl, inr,
}
use libalf.Filter.{FilterAnswer}
use libalf.Kearns.Tree.{
  Leaf, Tree, leaf, inner, TreePath, subtree, path_to, least_common_ancestor, at_leaf,
}
use libalf.Kearns.Tasks.{State, split_node, label_at, split_for, run}
use libalf.Kearns.Sifting.{HasWords, side}
use libalf.Kearns.Ancestor.{common, least_common_ancestor_lem}
use libalf.Kearns.Separation.{sifted-Separated}
use libalf.Kearns.Invariant.{
  reached, IsHypothesis, run-step, take-suc, transition-nth, nth-length, some_eq,
}

not-not : (b : Bool) → b ≡ not (not b)
not-not b = ground arith

subtree-IsWord :
    (p : TreePath) (t : Tree) (d : Word) (l r : Tree)
    → subtree p t ≡ some (inner d l r)
    → HasWords t
    → IsWord d
unfolding subtree
subtree-IsWord [] t d l r h words =
    let parts : HasWords (inner d l r) = subst HasWords (some_eq h) words in parts.0
subtree-IsWord (turn ∷ p) (leaf i) d l r h words = absurd cc
subtree-IsWord (true ∷ p) (inner c a b) d l r h words = subtree-IsWord p b d l r h words.2
subtree-IsWord (false ∷ p) (inner c a b) d l r h words = subtree-IsWord p a d l r h words.1

module _ {A : Type 0} (o : FilterAnswer A) (K : Word → Option A) where
  -- What a split needs: the new leaf's label arrives at the node, and the inner label has different
  -- answers after it and after the node's label.
  pub record IsSplit (st : State) (node : ℕ) (leaf_label inner_label : Word) : Type 0 where
    pub old : Leaf
    pub found : nth node st.leaves ≡ some old
    pub arrives : reached o K st leaf_label ≡ at_leaf node
    pub inner_word : IsWord inner_label
    pub turn : Bool
    pub new_side : side o K (leaf_label ++ inner_label) ≡ some turn
    pub old_side : side o K (old.label ++ inner_label) ≡ some (not turn)

  split_for_lem :
      (st : State) (node : ℕ) (label : Word) (x : ℤ) (r s : ℕ) (p q : TreePath) (d : Word)
      (tl tr : Tree)
      → path_to r st.root ≡ some p
      → path_to s st.root ≡ some q
      → subtree (common p q) st.root ≡ some (inner d tl tr)
      → split_for node label (some x) r s st ≡ some (split_node node label (x ∷ d))
  unfolding split_for label_at
  split_for_lem st node label x r s p q d tl tr to_r to_s at =
      let ancestor : subtree (least_common_ancestor p q) st.root ≡ some (inner d tl tr) =
        ap (λ c. subtree c st.root) (least_common_ancestor_lem p q) ∙ at in
      let label_eq : label_at (least_common_ancestor p q) st ≡ some d =
        rw (ancestor, label_at) refl in
      rw (to_r, to_s, label_eq) refl

  -- A prefix that the run and the sift tell apart, after one where they agree, is a split.
  pub bad_prefix :
      (n : ℕ) (st : State) (w : Word) (k node r s : ℕ) (x : ℤ)
      → IsHypothesis o K n st []
      → IsWord w
      → nth k w ≡ some x
      → run st (take k w) ≡ some node
      → reached o K st (take k w) ≡ at_leaf node
      → run st (take (suc k) w) ≡ some r
      → reached o K st (take (suc k) w) ≡ at_leaf s
      → r == s ≡ false
      → (inner_label : Word) × (split_for node (take k w) (nth k w) r s st
          ≡ some (split_node node (take k w) inner_label))
        × IsSplit st node (take k w) inner_label
  bad_prefix n st w k node r s x hyp words hx hrun hreach hr hs differ =
      let (y, pos_y, moves) = run-step st.leaves st.initial_state node r w k x hrun hr hx in
      let (old, found, target) = transition-nth st.leaves node y r moves in
      let led : reached o K st (old.label ++ pos y ∷ []) ≡ at_leaf r =
        elim (hyp.transitions node old y found (
          subst (λ m. y < m) (hyp.is_leaf node old found).width
            (nth-length y old.transitions (some r) target))) [
              | inl (j, to, leads, reached_j, at_j, incoming) ↦
                  reached_j ∙ ap (λ i. at_leaf i) (some_eq (some_eq (sym leads ∙ target)))
              | inr e ↦ absurd e
            ] in
      let (p, q, d, tl, tr, b, to_r, to_s, at, bu, bv) =
        sifted-Separated o K (old.label ++ pos y ∷ []) (take (suc k) w) [] st.root r s hyp.distinct
          led hs differ in
      (
        x ∷ d,
        ap (λ z. split_for node (take k w) z r s st) hx
            ∙ split_for_lem st node (take k w) x r s p q d tl tr to_r to_s at,
        record {
          old = old;
          found = found;
          arrives = hreach;
          inner_word =
              subst (λ z. IsWord (z ∷ d)) (sym pos_y)
                (subtree-IsWord (common p q) st.root d tl tr at hyp.words);
          turn = not b;
          new_side =
              ap (side o K) (
                sym (append_assoc (take k w) (x ∷ []) d)
                ∙ ap (λ l. l ++ d) (sym (take-suc k w x hx)))
              ∙ bv;
          old_side =
              ap (λ z. side o K (old.label ++ z ∷ d)) pos_y
              ∙ ap (side o K) (sym (append_assoc old.label (pos y ∷ []) d))
              ∙ bu
              ∙ ap (λ c. some c) (not-not b);
        },
      )
