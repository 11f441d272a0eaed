-- ===== src/Kearns/Split.antt =====
-- algorithm_kearns_vazirani.h: split_node_task::perform, by what it needs.
use libalf.Common.{
  ℕ, suc, ◌≡◌, refl, sym, ap, subst, ◌∙◌, [], Bool, true, false, not, Option, none, some, nth,
  length, ◌==◌, ==_iff, if◌then◌else◌, Word, IsWord, Bool-cases, inl, inr,
}
use libalf.Filter.{FilterAnswer}
use libalf.Kearns.Tree.{Leaf, at_leaf}
use libalf.Kearns.Tasks.{State, new_leaf}
use libalf.Kearns.Sifting.{HasWords, side, sifted}
use libalf.Kearns.Separation.{HasDistinctLeaves}
use libalf.Kearns.Invariant.{reached, IsHypothesis, IsLeaf, some_eq}
use libalf.Kearns.Searching.{IsSplit}
use libalf.Kearns.Replacing.{divided, sifted-replace_other, sifted-replace}
use libalf.Kearns.Splitting.{
  split_leaves, split_root, split_leaves-cases, label_kept, accepting_kept, transitions_kept,
  length-replicate, same_side,
}

pub HasWords-divided :
    (d : Word) (answer : Bool) (node fresh : ℕ) → IsWord d → HasWords (divided d answer node fresh)
unfolding divided
HasWords-divided d true node fresh h = (h, tt, tt)
HasWords-divided d false node fresh h = (h, tt, tt)

to_new :
    (b : Bool) (node fresh : ℕ)
    → (if b then (if b then fresh else node) else (if b then node else fresh)) ≡ fresh
to_new b node fresh = elim (Bool-cases b) [ inl e ↦ rw e refl | inr e ↦ rw e refl ]

to_old :
    (b : Bool) (node fresh : ℕ)
    → (if not b then (if b then fresh else node) else (if b then node else fresh)) ≡ node
to_old b node fresh = elim (Bool-cases b) [ inl e ↦ rw e refl | inr e ↦ rw e refl ]

-- The variables after a split.
abbrev pub after :
    (n node : ℕ) (label inner_label : Word) (turn : Bool) (old : Leaf) → State → State
after n node label inner_label turn old st = record st {
  root = split_root node inner_label turn st;
  leaves = split_leaves n node label old st;
  leaf_node_count = suc st.leaf_node_count;
}

module _ {A : Type 0} (o : FilterAnswer A) (K : Word → Option A) (n node : ℕ)
    (label inner_label : Word) (st : State) (hyp : IsHypothesis o K n st [])
    (s : IsSplit o K st node label inner_label) where
  reached_new :
      reached o K (after n node label inner_label s.turn s.old st) label
      ≡ at_leaf (length st.leaves)
  reached_new =
      sifted-replace o K label [] st.root inner_label s.turn s.turn node (length st.leaves)
        s.arrives s.new_side
      ∙ ap (λ i. at_leaf i) (to_new s.turn node (length st.leaves))

  reached_old :
      (w : Word)
      → w ≡ s.old.label
      → reached o K (after n node label inner_label s.turn s.old st) w ≡ at_leaf node
  reached_old w e =
      subst (λ v. reached o K (after n node label inner_label s.turn s.old st) v ≡ at_leaf node)
        (sym e)
        (sifted-replace o K s.old.label [] st.root inner_label s.turn (not s.turn) node
            (length st.leaves) (hyp.is_leaf node s.old s.found).home s.old_side
          ∙ ap (λ i. at_leaf i) (to_old s.turn node (length st.leaves)))

  pub reached_other :
      (w : Word) (i : ℕ)
      → reached o K st w ≡ at_leaf i
      → node == i ≡ false
      → reached o K (after n node label inner_label s.turn s.old st) w ≡ at_leaf i
  reached_other w i h differ =
      sifted-replace_other o K w [] st.root (divided inner_label s.turn node (length st.leaves))
        node i h differ

  -- The same for the label of a leaf that was there.
  reached_kept :
      (i : ℕ) (k : Leaf)
      → nth i st.leaves ≡ some k
      → reached o K (after n node label inner_label s.turn s.old st) k.label ≡ at_leaf i
  reached_kept i k at = elim (Bool-cases (node == i)) [
    | inl e ↦
        let same : node ≡ i = (==_iff node i).0 e in
        let leaf_eq : k ≡ s.old =
          some_eq (sym (subst (λ j. nth j st.leaves ≡ some k) (sym same) at) ∙ s.found) in
        reached_old k.label (ap (λ m. m.label) leaf_eq) ∙ ap (λ j. at_leaf j) same
    | inr e ↦ reached_other k.label i ((hyp.is_leaf i k at).home) e
  ]

  new_accepts : side o K label ≡ some s.old.accepting
  new_accepts =
      let (l, r, root_eq) = hyp.rooted in
      same_side o K l r label s.old.label node (subst HasDistinctLeaves root_eq hyp.distinct)
        (subst (λ t. sifted o K label [] t ≡ at_leaf node) root_eq s.arrives)
        (subst (λ t. sifted o K s.old.label [] t ≡ at_leaf node) root_eq
          (hyp.is_leaf node s.old s.found).home)
      ∙ (hyp.is_leaf node s.old s.found).accepts

  pub after-IsLeaf :
      IsWord label
      → (i : ℕ) (l : Leaf) → nth i (split_leaves n node label s.old st) ≡ some l
      → IsLeaf o K n (after n node label inner_label s.turn s.old st) i l
  unfolding new_leaf
  after-IsLeaf word i l at =
      let (k, from, same) = split_leaves-cases n node label s.old st i l at in
      let named = label_kept (node == i) k l same in
      let accepting = accepting_kept (node == i) k l same in
      let moves = transitions_kept (node == i) k l same in
      elim from [
        | inl old_at ↦
            let was = hyp.is_leaf i k old_at in
            record {
              word = subst IsWord (sym named) was.word;
              home =
                  subst
                    (λ v.
                      reached o K (after n node label inner_label s.turn s.old st) v ≡ at_leaf i)
                    (sym named) (reached_kept i k old_at);
              accepts = ap (side o K) named ∙ was.accepts ∙ ap (λ b. some b) (sym accepting);
              width = ap (λ t. length t) moves ∙ was.width;
            }
        | inr (end, made) ↦
            let label_eq = named ∙ ap (λ m. m.label) (sym made) in
            record {
              word = subst IsWord (sym label_eq) word;
              home =
                  subst
                    (λ v.
                      reached o K (after n node label inner_label s.turn s.old st) v ≡ at_leaf i)
                    (sym label_eq) (reached_new ∙ ap (λ j. at_leaf j) (sym end));
              accepts =
                  ap (side o K) label_eq
                  ∙ new_accepts
                  ∙ ap (λ b. some b) (sym (accepting ∙ ap (λ m. m.accepting) (sym made)));
              width =
                  ap (λ t. length t) (moves ∙ ap (λ m. m.transitions) (sym made))
                  ∙ length-replicate n none;
            }
      ]
