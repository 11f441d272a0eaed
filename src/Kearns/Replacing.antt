-- ===== src/Kearns/Replacing.antt =====
-- algorithm_kearns_vazirani.h: the tree in split_node_task::perform.
use libalf.Common.{
  ℕ, ◌≡◌, refl, ◌∙◌, [], ◌∷◌, ◌++◌, Bool, true, false, ◌&&◌, ◌||◌, Option, some, ◌==◌,
  if◌then◌else◌, Word, arith, Bool-cases, inl, inr,
}
use libalf.Filter.{FilterAnswer}
use libalf.Kearns.Tree.{Tree, leaf, inner, TreePath, at_leaf}
use libalf.Kearns.Tasks.{replace}
use libalf.Kearns.Sifting.{HasWords, side, sifted}
use libalf.Kearns.Separation.{
  occurs, HasDistinctLeaves, sifted-cases, sifted-left, sifted-right, at_leaf_eq,
}

-- The inner node that a split puts in place of a leaf.
unfoldable pub divided : Word → Bool → (node fresh : ℕ) → Tree
divided d answer node fresh =
    inner d (if answer then leaf node else leaf fresh) (if answer then leaf fresh else leaf node)

replace-absent : (n : ℕ) (s t : Tree) → occurs n t ≡ false → replace n s t ≡ t
unfolding replace occurs
replace-absent n s (leaf j) h = rw h refl
replace-absent n s (inner d l r) h =
    rw (replace-absent n s l (ground arith), replace-absent n s r (ground arith)) refl

pub HasWords-replace : (n : ℕ) (s t : Tree) → HasWords s → HasWords t → HasWords (replace n s t)
unfolding replace
HasWords-replace n s (leaf j) hs ht = elim (Bool-cases (n == j)) [
  | inl e ↦ rw e hs
  | inr e ↦ rw e ht
]
HasWords-replace n s (inner d l r) hs ht =
    (ht.0, HasWords-replace n s l hs ht.1, HasWords-replace n s r hs ht.2)

module _ (d : Word) (answer : Bool) (node fresh : ℕ) where
  occurs-divided : (i : ℕ) → occurs i (divided d answer node fresh) ≡ (i == node || i == fresh)
  unfolding occurs divided
  occurs-divided i = elim (Bool-cases answer) [
    | inl e ↦ rw e (ground arith)
    | inr e ↦ rw e (ground arith)
  ]

  -- The leaves after a split.
  pub occurs-replace :
      (i : ℕ) (t : Tree)
      → occurs i (replace node (divided d answer node fresh) t)
        ≡ (occurs i t || occurs node t && i == fresh)
  unfolding replace occurs
  occurs-replace i (leaf j) = elim (Bool-cases (node == j)) [
    | inl e ↦ rw (e, occurs-divided i) (ground arith)
    | inr e ↦ rw e (ground arith)
  ]
  occurs-replace i (inner e l r) = rw (occurs-replace i l, occurs-replace i r) (ground arith)

  HasDistinctLeaves-divided :
      node == fresh ≡ false → HasDistinctLeaves (divided d answer node fresh)
  unfolding occurs divided
  HasDistinctLeaves-divided new = elim (Bool-cases answer) [
    | inl e ↦ rw e (λ i at. ground arith, tt, tt)
    | inr e ↦ rw e (λ i at. ground arith, tt, tt)
  ]

  pub HasDistinctLeaves-replace :
      (t : Tree)
      → HasDistinctLeaves t
      → occurs fresh t ≡ false
      → node == fresh ≡ false
      → HasDistinctLeaves (replace node (divided d answer node fresh) t)
  unfolding replace occurs
  HasDistinctLeaves-replace (leaf j) h absent new = elim (Bool-cases (node == j)) [
    | inl e ↦ rw e (HasDistinctLeaves-divided new)
    | inr e ↦ rw e tt
  ]
  HasDistinctLeaves-replace (inner e l r) h absent new = (
    λ i at. occurs-replace i l ∙ ground (arith, occurs-replace i r, at, h.0 i, h.0 node, absent),
    HasDistinctLeaves-replace l h.1 (ground arith) new,
    HasDistinctLeaves-replace r h.2 (ground arith) new,
  )

module _ {A : Type 0} (o : FilterAnswer A) (K : Word → Option A) where
  -- Words that arrived at another leaf.
  pub sifted-replace_other :
      (w : Word) (path : TreePath) (t s : Tree) (node i : ℕ)
      → sifted o K w path t ≡ at_leaf i
      → node == i ≡ false
      → sifted o K w path (replace node s t) ≡ at_leaf i
  unfolding replace sifted
  sifted-replace_other w path (leaf j) s node i h differ =
      let e : node == j ≡ false = ground (arith, at_leaf_eq i j h) in rw (e, replace) h
  sifted-replace_other w path (inner d l r) s node i h differ =
      elim (sifted-cases o K w path d l r i h) [
        | inl (b, e) ↦
            sifted-right o K w path d (replace node s l) (replace node s r) b
            ∙ sifted-replace_other w (path ++ true ∷ []) r s node i e differ
        | inr (b, e) ↦
            sifted-left o K w path d (replace node s l) (replace node s r) b
            ∙ sifted-replace_other w (path ++ false ∷ []) l s node i e differ
      ]

  sifted-divided :
      (w : Word) (path : TreePath) (d : Word) (answer b : Bool) (node fresh : ℕ)
      → side o K (w ++ d) ≡ some b
      → sifted o K w path (divided d answer node fresh)
        ≡ at_leaf (if b then (if answer then fresh else node) else (if answer then node else fresh))
  unfolding divided sifted
  sifted-divided w path d true true node fresh at =
      sifted-right o K w path d (leaf node) (leaf fresh) at
  sifted-divided w path d true false node fresh at =
      sifted-left o K w path d (leaf node) (leaf fresh) at
  sifted-divided w path d false true node fresh at =
      sifted-right o K w path d (leaf fresh) (leaf node) at
  sifted-divided w path d false false node fresh at =
      sifted-left o K w path d (leaf fresh) (leaf node) at

  -- Words that arrived at the leaf go on to one of the two.
  pub sifted-replace :
      (w : Word) (path : TreePath) (t : Tree) (d : Word) (answer b : Bool) (node fresh : ℕ)
      → sifted o K w path t ≡ at_leaf node
      → side o K (w ++ d) ≡ some b
      → sifted o K w path (replace node (divided d answer node fresh) t)
        ≡ at_leaf (if b then (if answer then fresh else node) else (if answer then node else fresh))
  unfolding replace sifted
  sifted-replace w path (leaf j) d answer b node fresh h at =
      let e : node == j ≡ true = at_leaf_eq node j h in
      rw (e, replace) (sifted-divided w path d answer b node fresh at)
  sifted-replace w path (inner c l r) d answer b node fresh h at =
      let s = divided d answer node fresh in
      elim (sifted-cases o K w path c l r node h) [
        | inl (turn, e) ↦
            sifted-right o K w path c (replace node s l) (replace node s r) turn
            ∙ sifted-replace w (path ++ true ∷ []) r d answer b node fresh e at
        | inr (turn, e) ↦
            sifted-left o K w path c (replace node s l) (replace node s r) turn
            ∙ sifted-replace w (path ++ false ∷ []) l d answer b node fresh e at
      ]
