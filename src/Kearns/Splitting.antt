-- ===== src/Kearns/Splitting.antt =====
-- algorithm_kearns_vazirani.h: what split_node_task::perform leaves.
use libalf.Common.{
  ℕ, zero, suc, ◌≡◌, ◌⊎◌, refl, sym, ap, ◌∙◌, List, [], ◌∷◌, ◌++◌, append-nil, Bool, true, false,
  Option, some, nth, length, ◌==◌, if◌then◌else◌, Word, replicate, arith, inl, inr,
}
use libalf.Filter.{FilterAnswer}
use libalf.Kearns.Tree.{Leaf, Tree, inner, at_leaf}
use libalf.Kearns.Tasks.{State, new_leaf, modify, replace}
use libalf.Kearns.Sifting.{side, sifted}
use libalf.Kearns.Separation.{HasDistinctLeaves, sifted-cases, sifted-occurs}
use libalf.Kearns.Replacing.{divided}
use libalf.Kearns.Entries.{nth-append_cases, nth-modify-some}

abbrev pub cleared : Leaf → Leaf
cleared l = record l { incoming_transitions = [] }

-- The leaves and the tree after a split.
abbrev pub split_leaves : (n node : ℕ) → Word → Leaf → State → List Leaf
split_leaves n node leaf_label old st =
    modify node cleared (st.leaves ++ new_leaf leaf_label st.leaf_node_count old.accepting n ∷ [])

abbrev pub split_root : (node : ℕ) → Word → Bool → State → Tree
split_root node inner_label turn st =
    replace node (divided inner_label turn node (length st.leaves)) st.root

-- A leaf after the split is the new one or one from before.
pub split_leaves-cases :
    (n node : ℕ) (label : Word) (old : Leaf) (st : State) (i : ℕ) (l : Leaf)
    → nth i (split_leaves n node label old st) ≡ some l
    → (k : Leaf) × ((nth i st.leaves ≡ some k)
        ⊎ ((i ≡ length st.leaves) × (new_leaf label st.leaf_node_count old.accepting n ≡ k)))
      × (l ≡ (if node == i then cleared k else k))
split_leaves-cases n node label old st i l h =
    let made = new_leaf label st.leaf_node_count old.accepting n in
    let (k, at, same) = nth-modify-some i node cleared (st.leaves ++ made ∷ []) l h in
    (k, nth-append_cases i st.leaves made k at, same)

pub label_kept : (b : Bool) (k l : Leaf) → l ≡ (if b then cleared k else k) → l.label ≡ k.label
label_kept true k l e = ap (λ m. m.label) e
label_kept false k l e = ap (λ m. m.label) e

pub accepting_kept :
    (b : Bool) (k l : Leaf) → l ≡ (if b then cleared k else k) → l.accepting ≡ k.accepting
accepting_kept true k l e = ap (λ m. m.accepting) e
accepting_kept false k l e = ap (λ m. m.accepting) e

pub transitions_kept :
    (b : Bool) (k l : Leaf) → l ≡ (if b then cleared k else k) → l.transitions ≡ k.transitions
transitions_kept true k l e = ap (λ m. m.transitions) e
transitions_kept false k l e = ap (λ m. m.transitions) e

pub length-replicate : {B : Type 0} (n : ℕ) (b : B) → length (replicate n b) ≡ n
length-replicate zero b = refl
length-replicate (suc n) b = omega (arith, length-replicate n b)

module _ {A : Type 0} (o : FilterAnswer A) (K : Word → Option A) where
  -- Words that arrive at the same leaf are on the same side of the root's label.
  pub same_side :
      (l r : Tree) (u v : Word) (i : ℕ)
      → HasDistinctLeaves (inner [] l r)
      → sifted o K u [] (inner [] l r) ≡ at_leaf i
      → sifted o K v [] (inner [] l r) ≡ at_leaf i
      → side o K u ≡ side o K v
  same_side l r u v i distinct hu hv =
      ap (side o K) (sym (append-nil u))
      ∙ elim (sifted-cases o K u [] [] l r i hu) [
        | inl (su, eu) ↦ elim (sifted-cases o K v [] [] l r i hv) [
          | inl (sv, ev) ↦ su ∙ sym sv
          | inr (sv, ev) ↦ absurd (
              ground (
                arith,
                distinct.0 i,
                sifted-occurs o K u (true ∷ []) r i eu,
                sifted-occurs o K v (false ∷ []) l i ev,
              ))
        ]
        | inr (su, eu) ↦ elim (sifted-cases o K v [] [] l r i hv) [
          | inl (sv, ev) ↦ absurd (
              ground (
                arith,
                distinct.0 i,
                sifted-occurs o K v (true ∷ []) r i ev,
                sifted-occurs o K u (false ∷ []) l i eu,
              ))
          | inr (sv, ev) ↦ su ∙ sym sv
        ]
      ]
      ∙ ap (side o K) (append-nil v)
