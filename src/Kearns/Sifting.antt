-- ===== src/Kearns/Sifting.antt =====
-- algorithm_kearns_vazirani.h: the loop that sifts a word, by a map from words to answers.
use libalf.Common.{
  ◌≡◌, refl, sym, ap, ◌∙◌, [], ◌∷◌, ◌++◌, Bool, true, false, ◌&&◌, ◌||◌, Option, none, some, Word,
  IsWord, word_eq, contains, arith, Bool-cases, Option-cases, inl, inr,
}
use libalf.Knowledgebase.Base.{Base, resolve_or_add_query}
use libalf.Knowledgebase.Base.Queries.{resolve_or_add_query_lem}
use libalf.Filter.{FilterAnswer}
use libalf.Angluin.Knows.{IsWord-concat, is_unknown}
use libalf.Angluin.Filling.{Knows, Asked, unknown_entry}
use libalf.Kearns.Tree.{Tree, leaf, inner, TreePath, Place, at_leaf, at_inner, sift}

-- The labels of a tree's inner nodes are words.
abbrev pub HasWords : Tree → Type 0
HasWords (leaf i) = Unit
HasWords (inner d l r) = IsWord d × HasWords l × HasWords r

module _ {A : Type 0} (o : FilterAnswer A) (K : Word → Option A) where
  -- The side that the answer of a word and a label says; and where sifting arrives.
  unfoldable pub side : Word → Option Bool
  side v = elim (K v) [ none ↦ none | some a ↦ some (o.to_bool a) ]

  pub side-some : (v : Word) (a : A) → K v ≡ some a → side v ≡ some (o.to_bool a)
  unfolding side
  side-some v a e = rw (e, side) refl

  pub side-known :
      (v : Word) (b : Bool) → side v ≡ some b → (a : A) × (K v ≡ some a) × (o.to_bool a ≡ b)
  unfolding side
  side-known v b h = elim (Option-cases (K v)) [
    | inl e ↦
        let stuck : side v ≡ none = rw (e, side) refl in
        let none_some : none ≡ some b = sym stuck ∙ h in absurd cc
    | inr (a, e) ↦ let now : some (o.to_bool a) ≡ some b = sym (side-some v a e) ∙ h in (a, e, cc)
  ]

  unfoldable pub sifted : Word → TreePath → Tree → Place
  sifted word path (leaf i) = at_leaf i
  sifted word path (inner d l r) = elim (K (word ++ d)) [
    | none ↦ at_inner path
    | some a ↦ elim (o.to_bool a) [
      | true ↦ sifted word (path ++ true ∷ []) r
      | false ↦ sifted word (path ++ false ∷ []) l
    ]
  ]

  -- The word that is asked for where sifting stops.
  unfoldable pub sift_asks : Word → Tree → Word → Bool
  sift_asks word (leaf i) v = false
  sift_asks word (inner d l r) v = elim (K (word ++ d)) [
    | none ↦ word_eq v (word ++ d)
    | some a ↦ elim (o.to_bool a) [ true ↦ sift_asks word r v | false ↦ sift_asks word l v ]
  ]

  pub query_lem :
      (w : Word) (base : Base A)
      → IsWord w
      → Knows o K base
      → (base' : Base A) × (resolve_or_add_query o.answer none w base ≡ some (K w, base'))
        × Knows o K base'
        × Asked o K (λ v. word_eq v w && is_unknown K w) base base'
  query_lem w base hw (valid, knows) =
      let (t, resolved, same, asked, valid') = resolve_or_add_query_lem o.answer w base hw valid in
      (
        t,
        resolved ∙ ap (λ a. some (a, t)) (knows w),
        (valid', λ v. same v ∙ knows v),
        λ v.
            asked v
            ∙ ap (λ b. contains v base.required || word_eq v w && b)
                (unknown_entry o K base w (knows w)),
      )

  -- In a valid knowledgebase that knows just what a map says, and for a tree whose labels and a
  -- word have no negative symbols, the loop that sifts returns: it arrives where the answers of
  -- the map lead from the node, the knowledge is what it was and the knowledgebase is valid, and
  -- the queries are those before and the word with the label where an answer is missing.
  pub sift_lem :
      (word : Word) (path : TreePath) (t : Tree) (base : Base A)
      → IsWord word
      → HasWords t
      → Knows o K base
      → (base' : Base A) × (sift o word path t base ≡ some (sifted word path t, base'))
        × Knows o K base'
        × Asked o K (sift_asks word t) base base'
  unfolding sift sifted sift_asks
  sift_lem word path (leaf i) base hw ht k = (base, refl, k, λ v. ground arith)
  sift_lem word path (inner d l r) base hw ht k =
      let (base1, queried, k1, asked) =
        query_lem (word ++ d) base (IsWord-concat word d hw ht.0) k in
      elim (Option-cases (K (word ++ d))) [
        | inl e ↦ (base1, rw (queried, e, sift, sifted) refl, k1, λ v. ground (arith, asked v, e))
        | inr (a, e) ↦ elim (Bool-cases (o.to_bool a)) [
          | inl b ↦
              let (base2, rest, k2, more) = sift_lem word (path ++ true ∷ []) r base1 hw ht.2 k1 in
              (
                base2,
                rw (queried, e, b, sift, sifted) rest,
                k2,
                λ v. ground (arith, asked v, more v, e, b),
              )
          | inr b ↦
              let (base2, rest, k2, more) = sift_lem word (path ++ false ∷ []) l base1 hw ht.1 k1 in
              (
                base2,
                rw (queried, e, b, sift, sifted) rest,
                k2,
                λ v. ground (arith, asked v, more v, e, b),
              )
        ]
      ]
