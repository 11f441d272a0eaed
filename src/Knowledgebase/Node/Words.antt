-- ===== src/Knowledgebase/Node/Words.antt =====
-- knowledgebase.h, the iterator over all nodes: it visits the words of the nodes and no others.
use libalf.Common.{
  ℕ, zero, suc, ◌+◌, ◌<◌, ◌≡◌, refl, sym, ◌∙◌, false, none, some, [], ◌∷◌, ◌++◌, ℤ, pos, negsuc,
  Word, arith, inl, inr, if◌then◌else◌, Option-cases, Bool, ◌||◌, Option, eq_ℤ, eq_ℤ_iff, contains,
  contains-append, word_eq,
}
use libalf.Knowledgebase.Node.{
  Node, node, Slots, nil, null, child, Entry, slot, exists_at, words, words_below,
}
use libalf.Knowledgebase.Node.Count.{exists_at-nil, exists_at-negsuc, exists_at-child}

-- What follows a prefix.
abbrev pub strip : Word → Word → Option Word
strip [] u = some u
strip (x ∷ p) [] = none
strip (x ∷ p) (y ∷ u) = if eq_ℤ x y then strip p u else none

pub strip-append :
    (p q u : Word) → strip (p ++ q) u ≡ elim (strip p u) [ none ↦ none | some v ↦ strip q v ]
strip-append [] q u = refl
strip-append (x ∷ p) q [] = refl
strip-append (x ∷ p) q (y ∷ u) = ground (arith, strip-append p q u)

pub strip-nil :
    (p u : Word) → word_eq u p ≡ elim (strip p u) [ none ↦ false | some v ↦ word_eq v [] ]
strip-nil [] u = refl
strip-nil (x ∷ p) [] = refl
strip-nil (x ∷ p) (y ∷ u) = ground (arith, strip-nil p u, eq_ℤ_iff x y, eq_ℤ_iff y x)

module _ {A : Type 0} where
  abbrev found : Option (Node A) → Word → Bool
  found none v = false
  found (some c) v = exists_at c v

  -- A node below children whose first index is `i`.
  abbrev exists_from : ℕ → Slots A → Word → Bool
  exists_from i nil v = false
  exists_from i (null cs) v = exists_from (suc i) cs v
  exists_from i (child c cs) v =
      elim (strip (pos i ∷ []) v) [ none ↦ false | some v' ↦ exists_at c v' ]
      || exists_from (suc i) cs v

  exists_from-nil : (i : ℕ) (cs : Slots A) → exists_from i cs [] ≡ false
  exists_from-nil i nil = refl
  exists_from-nil i (null cs) = exists_from-nil (suc i) cs
  exists_from-nil i (child c cs) = exists_from-nil (suc i) cs

  exists_from-negsuc : (i y : ℕ) (v : Word) (cs : Slots A) → exists_from i cs (negsuc y ∷ v) ≡ false
  exists_from-negsuc i y v nil = refl
  exists_from-negsuc i y v (null cs) = exists_from-negsuc (suc i) y v cs
  exists_from-negsuc i y v (child c cs) = exists_from-negsuc (suc i) y v cs

  exists_from-below :
      (i y : ℕ) (v : Word) (cs : Slots A) → y < i → exists_from i cs (pos y ∷ v) ≡ false
  exists_from-below i y v nil h = refl
  exists_from-below i y v (null cs) h = exists_from-below (suc i) y v cs (omega arith)
  exists_from-below i y v (child c cs) h = ground (arith, exists_from-below (suc i) y v cs)

  exists_from-slot :
      (i y : ℕ) (v : Word) (cs : Slots A) → exists_from i cs (pos (i + y) ∷ v) ≡ found (slot y cs) v
  unfolding slot
  exists_from-slot i y v nil = refl
  exists_from-slot i zero v (null cs) = exists_from-below (suc i) (i + 0) v cs (omega arith)
  exists_from-slot i zero v (child c cs) = ground (arith, exists_from-below (suc i) (i + 0) v cs)
  exists_from-slot i (suc y) v (null cs) =
      let e : i + suc y ≡ suc i + y = omega arith in rw e (exists_from-slot (suc i) y v cs)
  exists_from-slot i (suc y) v (child c cs) =
      let e : i + suc y ≡ suc i + y = omega arith in
      rw e (ground (arith, exists_from-slot (suc i) y v cs))

  -- A node exists at the root or below.
  exists_at-parts :
      (l : ℤ) (e : Entry A) (cs : Slots A) (v : Word)
      → exists_at (node l e cs) v ≡ (word_eq v [] || exists_from 0 cs v)
  exists_at-parts l e cs [] = exists_at-nil (node l e cs)
  exists_at-parts l e cs (pos y ∷ v) =
      let same : 0 + y ≡ y = omega arith in
      let there = rw same at (exists_from-slot 0 y v cs) in
      ground (arith, exists_at-child l e cs y v, there)
  exists_at-parts l e cs (negsuc y ∷ v) =
      exists_at-negsuc (node l e cs) y v ∙ sym (exists_from-negsuc 0 y v cs)

  mutual
    unfolding words

    contains-words_at :
        (p u : Word) (n : Node A)
        → contains u (words p n) ≡ elim (strip p u) [ none ↦ false | some v ↦ exists_at n v ]
    contains-words_at p u (node l e cs) = elim (Option-cases (strip p u)) [
      | inl other ↦ ground (arith, strip-nil p u, contains-words_below p u 0 cs)
      | inr (v, under) ↦
          ground (arith, strip-nil p u, contains-words_below p u 0 cs, exists_at-parts l e cs v)
    ]

    contains-words_below :
        (p u : Word) (i : ℕ) (cs : Slots A)
        → contains u (words_below p i cs)
          ≡ elim (strip p u) [ none ↦ false | some v ↦ exists_from i cs v ]
    contains-words_below p u i nil = ground arith
    contains-words_below p u i (null cs) = contains-words_below p u (suc i) cs
    contains-words_below p u i (child c cs) = ground (
      arith,
      contains-append u (words (p ++ pos i ∷ []) c) (words_below p (suc i) cs),
      contains-words_at (p ++ pos i ∷ []) u c,
      contains-words_below p u (suc i) cs,
      strip-append p (pos i ∷ []) u,
    )

  -- The iterator over all nodes from the root visits a word exactly where the tree has a node for
  -- it.
  pub contains-words : (u : Word) (n : Node A) → contains u (words [] n) ≡ exists_at n u
  contains-words u n = contains-words_at [] u n
