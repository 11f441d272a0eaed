-- ===== src/Kearns/Tree.antt =====
-- algorithm_kearns_vazirani.h: the tree, its leaves, and the walks in it.
use libalf.Common.{
  ℕ, zero, suc, ◌-◌, List, [], ◌∷◌, ◌++◌, Bool, true, false, ◌&&◌, not, Option, none, some, nth,
  pop_back, length, ltb, if◌then◌else◌, ◌==◌, pos, negsuc, Word,
}
use libalf.Knowledgebase.Base.{Base, resolve_or_add_query}
use libalf.Filter.{FilterAnswer}

-- class leaf_node. The addresses of leaves are numbers, by the order in which they were made.
pub record Leaf : Type 0 where
  pub label : Word
  pub accepting : Bool
  pub incoming_transitions : List ℕ
  pub transitions : List (Option ℕ)
  pub id : ℕ

-- Pointers to nodes: an inner node has its label and its left and right child.
pub data Tree : Type 0 where
  leaf : ℕ → Tree
  inner : Word → Tree → Tree → Tree

-- The way to a node from the root, `true` for a right child: `parent` is it without its last step,
-- and `level` is its length.
abbrev pub TreePath : Type 0
TreePath = List Bool

abbrev pub child : Bool → Tree → Tree → Tree
child true l r = r
child false l r = l

unfoldable pub subtree : TreePath → Tree → Option Tree
subtree [] t = some t
subtree (b ∷ p) (leaf i) = none
subtree (b ∷ p) (inner d l r) = subtree p (child b l r)

-- The way to a leaf.
abbrev pub either_way : Option TreePath → Option TreePath → Option TreePath
either_way (some p) right = some (false ∷ p)
either_way none none = none
either_way none (some p) = some (true ∷ p)

unfoldable pub path_to : ℕ → Tree → Option TreePath
path_to i (leaf j) = if i == j then some [] else none
path_to i (inner d l r) = either_way (path_to i l) (path_to i r)

abbrev pub same_path : TreePath → TreePath → Bool
same_path [] [] = true
same_path [] (c ∷ q) = false
same_path (b ∷ p) [] = false
same_path (b ∷ p) (c ∷ q) = (if b then c else not c) && same_path p q

-- The loops of least_commont_ancestor: `rounds` is the difference of the levels, or the level.
unfoldable pub climb : ℕ → TreePath → TreePath
climb zero p = p
climb (suc rounds) p = climb rounds (pop_back p)

unfoldable pub climb_both : ℕ → TreePath → TreePath → TreePath
climb_both zero n another = n
climb_both (suc rounds) n another =
    let rest = climb_both rounds (pop_back n) (pop_back another) in
    if same_path n another then n else rest

unfoldable pub least_common_ancestor : TreePath → TreePath → TreePath
least_common_ancestor n another =
    if ltb (length another) (length n)
    then climb_both (length another) another (climb (length n - length another) n)
    else climb_both (length n) n (climb (length another - length n) another)

-- simulate_run, from a leaf on; `none` is a transition that is not there.
abbrev pub follow : Option (Option ℕ) → Option ℕ
follow none = none
follow (some target) = target

unfoldable pub transition : List Leaf → ℕ → ℕ → Option ℕ
transition leaves i x = elim (nth i leaves) [ none ↦ none | some l ↦ follow (nth x l.transitions) ]

unfoldable pub simulate_run : List Leaf → ℕ → Word → Option ℕ
simulate_run leaves i [] = some i
simulate_run leaves i (pos x ∷ w) = elim (transition leaves i x) [
  | none ↦ none
  | some j ↦ simulate_run leaves j w
]
simulate_run leaves i (negsuc x ∷ w) = none

-- Where the loops over the tree arrive: at a leaf, or at an inner node where an answer is missing.
pub data Place : Type 0 where
  at_leaf : ℕ → Place
  at_inner : TreePath → Place

module _ {A : Type 0} (o : FilterAnswer A) where
  -- The loop that sifts a word, from the node `path`; `none` is undefined behaviour of the query.
  unfoldable pub sift : Word → TreePath → Tree → Base A → Option (Place × Base A)
  sift word path (leaf i) base = some (at_leaf i, base)
  sift word path (inner d l r) base = elim (resolve_or_add_query o.answer none (word ++ d) base) [
    | none ↦ none
    | some (none, base') ↦ some (at_inner path, base')
    | some (some a, base') ↦ elim (o.to_bool a) [
      | true ↦ sift word (path ++ true ∷ []) r base'
      | false ↦ sift word (path ++ false ∷ []) l base'
    ]
  ]

  -- The same from a node on; a node that is no inner node has no children.
  unfoldable pub sift_from : Word → TreePath → Tree → Base A → Option (Place × Base A)
  sift_from word path root base = elim (subtree path root) [
    | some (inner d l r) ↦ sift word path (inner d l r) base
    | _ ↦ none
  ]
