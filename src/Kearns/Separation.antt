-- ===== src/Kearns/Separation.antt =====
-- algorithm_kearns_vazirani.h: the leaves of the tree, and which words sifting tells apart.
use libalf.Common.{
  ℕ, ◌≡◌, ◌⊎◌, refl, sym, ap, ◌∙◌, [], ◌∷◌, ◌++◌, Bool, true, false, ◌||◌, not, Option, none, some,
  ◌==◌, ==_iff, Word, arith, Bool-cases, Option-cases, inl, inr,
}
use libalf.Filter.{FilterAnswer}
use libalf.Kearns.Tree.{Tree, leaf, inner, TreePath, subtree, path_to, at_leaf, at_inner}
use libalf.Kearns.Ancestor.{common}
use libalf.Kearns.Sifting.{side, side-some, sifted}

-- Whether a tree has a leaf; that it has no leaf twice.
unfoldable pub occurs : ℕ → Tree → Bool
occurs i (leaf j) = i == j
occurs i (inner d l r) = occurs i l || occurs i r

abbrev pub HasDistinctLeaves : Tree → Type 0
HasDistinctLeaves (leaf i) = Unit
HasDistinctLeaves (inner d l r) =
    ((i : ℕ) → occurs i r ≡ true → occurs i l ≡ false) × HasDistinctLeaves l × HasDistinctLeaves r

path_to-absent : (i : ℕ) (t : Tree) → occurs i t ≡ false → path_to i t ≡ none
unfolding occurs path_to
path_to-absent i (leaf j) h = rw h refl
path_to-absent i (inner d l r) h =
    rw (path_to-absent i l (ground arith), path_to-absent i r (ground arith)) refl

path_to-leaf : (i j : ℕ) → i == j ≡ true → path_to i (leaf j) ≡ some []
unfolding path_to
path_to-leaf i j h = rw h refl

path_to-left :
    (i : ℕ) (d : Word) (l r : Tree) (p : TreePath)
    → path_to i l ≡ some p
    → path_to i (inner d l r) ≡ some (false ∷ p)
unfolding path_to
path_to-left i d l r p h = rw h refl

path_to-right :
    (i : ℕ) (d : Word) (l r : Tree) (p : TreePath)
    → occurs i l ≡ false
    → path_to i r ≡ some p
    → path_to i (inner d l r) ≡ some (true ∷ p)
unfolding path_to
path_to-right i d l r p absent h = rw (path_to-absent i l absent, h) refl

pub at_inner≢at_leaf : (path : TreePath) (i : ℕ) → at_inner path ≡ at_leaf i → ⊥
at_inner≢at_leaf path i e = cc

pub at_leaf_eq : (i j : ℕ) → at_leaf j ≡ at_leaf i → i == j ≡ true
at_leaf_eq i j e = (==_iff i j).1 (sym (ap (λ p. elim p [ at_leaf k ↦ k | at_inner path ↦ 0 ]) e))

module _ {A : Type 0} (o : FilterAnswer A) (K : Word → Option A) where
  pub sifted-right :
      (w : Word) (path : TreePath) (d : Word) (l r : Tree)
      → side o K (w ++ d) ≡ some true
      → sifted o K w path (inner d l r) ≡ sifted o K w (path ++ true ∷ []) r
  unfolding sifted side
  sifted-right w path d l r h = elim (Option-cases (K (w ++ d))) [
    | inl e ↦ absurd (ground (arith, e, h))
    | inr (a, e) ↦ elim (Bool-cases (o.to_bool a)) [
      | inl b ↦ rw (e, b, sifted) refl
      | inr b ↦ absurd (ground (arith, e, b, h))
    ]
  ]

  pub sifted-left :
      (w : Word) (path : TreePath) (d : Word) (l r : Tree)
      → side o K (w ++ d) ≡ some false
      → sifted o K w path (inner d l r) ≡ sifted o K w (path ++ false ∷ []) l
  unfolding sifted side
  sifted-left w path d l r h = elim (Option-cases (K (w ++ d))) [
    | inl e ↦ absurd (ground (arith, e, h))
    | inr (a, e) ↦ elim (Bool-cases (o.to_bool a)) [
      | inr b ↦ rw (e, b, sifted) refl
      | inl b ↦ absurd (ground (arith, e, b, h))
    ]
  ]

  sifted-stops :
      (w : Word) (path : TreePath) (d : Word) (l r : Tree)
      → K (w ++ d) ≡ none
      → sifted o K w path (inner d l r) ≡ at_inner path
  unfolding sifted
  sifted-stops w path d l r e = rw (e, sifted) refl

  -- The child to which a word goes that arrives at a leaf.
  pub sifted-cases :
      (w : Word) (path : TreePath) (d : Word) (l r : Tree) (i : ℕ)
      → sifted o K w path (inner d l r) ≡ at_leaf i
      → ((side o K (w ++ d) ≡ some true) × (sifted o K w (path ++ true ∷ []) r ≡ at_leaf i))
        ⊎ ((side o K (w ++ d) ≡ some false) × (sifted o K w (path ++ false ∷ []) l ≡ at_leaf i))
  unfolding sifted
  sifted-cases w path d l r i h = elim (Option-cases (K (w ++ d))) [
    | inl e ↦ absurd (at_inner≢at_leaf path i (sym (sifted-stops w path d l r e) ∙ h))
    | inr (a, e) ↦ elim (Bool-cases (o.to_bool a)) [
      | inl b ↦
          let s : side o K (w ++ d) ≡ some true = side-some o K (w ++ d) a e ∙ ap (λ c. some c) b in
          inl (s, sym (sifted-right w path d l r s) ∙ h)
      | inr b ↦
          let s : side o K (w ++ d) ≡ some false =
            side-some o K (w ++ d) a e ∙ ap (λ c. some c) b in
          inr (s, sym (sifted-left w path d l r s) ∙ h)
    ]
  ]

  pub sifted-occurs :
      (w : Word) (path : TreePath) (t : Tree) (i : ℕ)
      → sifted o K w path t ≡ at_leaf i
      → occurs i t ≡ true
  unfolding occurs sifted
  sifted-occurs w path (leaf j) i h = at_leaf_eq i j h
  sifted-occurs w path (inner d l r) i h = elim (sifted-cases w path d l r i h) [
    | inl (s, e) ↦ rw (sifted-occurs w (path ++ true ∷ []) r i e) (ground arith)
    | inr (s, e) ↦ rw (sifted-occurs w (path ++ false ∷ []) l i e) (ground arith)
  ]

  -- The way to the leaf where a word arrives.
  pub path_to-sifted :
      (w : Word) (path : TreePath) (t : Tree) (i : ℕ)
      → HasDistinctLeaves t
      → sifted o K w path t ≡ at_leaf i
      → (p : TreePath) × (path_to i t ≡ some p)
  unfolding sifted
  path_to-sifted w path (leaf j) i distinct h = ([], path_to-leaf i j (at_leaf_eq i j h))
  path_to-sifted w path (inner d l r) i distinct h = elim (sifted-cases w path d l r i h) [
    | inl (s, e) ↦
        let (p, to) = path_to-sifted w (path ++ true ∷ []) r i distinct.2 e in
        (
          true ∷ p,
          path_to-right i d l r p (distinct.0 i (sifted-occurs w (path ++ true ∷ []) r i e)) to,
        )
    | inr (s, e) ↦
        let (p, to) = path_to-sifted w (path ++ false ∷ []) l i distinct.1 e in
        (false ∷ p, path_to-left i d l r p to)
  ]

  -- Two words that sifting tells apart: the ways to their leaves, and at their common part an inner
  -- node whose label has different answers after the words.
  abbrev pub Separated : Word → Word → Tree → ℕ → ℕ → Type 0
  Separated u v t i j =
      (p q : TreePath) × (d : Word) × (l r : Tree) × (b : Bool) × (path_to i t ≡ some p)
      × (path_to j t ≡ some q)
      × (subtree (common p q) t ≡ some (inner d l r))
      × (side o K (u ++ d) ≡ some b)
      × (side o K (v ++ d) ≡ some (not b))

  pub sifted-Separated :
      (u v : Word) (path : TreePath) (t : Tree) (i j : ℕ)
      → HasDistinctLeaves t
      → sifted o K u path t ≡ at_leaf i
      → sifted o K v path t ≡ at_leaf j
      → i == j ≡ false
      → Separated u v t i j
  unfolding subtree common sifted
  sifted-Separated u v path (leaf k) i j distinct hu hv differ =
      absurd (ground (arith, at_leaf_eq i k hu, at_leaf_eq j k hv))
  sifted-Separated u v path (inner d l r) i j distinct hu hv differ =
      elim (sifted-cases u path d l r i hu) [
        | inl (su, eu) ↦ elim (sifted-cases v path d l r j hv) [
          | inl (sv, ev) ↦
              let (p, q, d', l', r', b, pi, pj, at, bu, bv) =
                sifted-Separated u v (path ++ true ∷ []) r i j distinct.2 eu ev differ in
              let absent_i = distinct.0 i (sifted-occurs u (path ++ true ∷ []) r i eu) in
              let absent_j = distinct.0 j (sifted-occurs v (path ++ true ∷ []) r j ev) in
              (
                true ∷ p,
                true ∷ q,
                d',
                l',
                r',
                b,
                path_to-right i d l r p absent_i pi,
                path_to-right j d l r q absent_j pj,
                at,
                bu,
                bv,
              )
          | inr (sv, ev) ↦
              let (p, pi) = path_to-sifted u (path ++ true ∷ []) r i distinct.2 eu in
              let (q, pj) = path_to-sifted v (path ++ false ∷ []) l j distinct.1 ev in
              let absent_i = distinct.0 i (sifted-occurs u (path ++ true ∷ []) r i eu) in
              (
                true ∷ p,
                false ∷ q,
                d,
                l,
                r,
                true,
                path_to-right i d l r p absent_i pi,
                path_to-left j d l r q pj,
                refl,
                su,
                sv,
              )
        ]
        | inr (su, eu) ↦ elim (sifted-cases v path d l r j hv) [
          | inr (sv, ev) ↦
              let (p, q, d', l', r', b, pi, pj, at, bu, bv) =
                sifted-Separated u v (path ++ false ∷ []) l i j distinct.1 eu ev differ in
              (
                false ∷ p,
                false ∷ q,
                d',
                l',
                r',
                b,
                path_to-left i d l r p pi,
                path_to-left j d l r q pj,
                at,
                bu,
                bv,
              )
          | inl (sv, ev) ↦
              let (p, pi) = path_to-sifted u (path ++ false ∷ []) l i distinct.1 eu in
              let (q, pj) = path_to-sifted v (path ++ true ∷ []) r j distinct.2 ev in
              let absent_j = distinct.0 j (sifted-occurs v (path ++ true ∷ []) r j ev) in
              (
                false ∷ p,
                true ∷ q,
                d,
                l,
                r,
                false,
                path_to-left i d l r p pi,
                path_to-right j d l r q absent_j pj,
                refl,
                su,
                sv,
              )
        ]
      ]
