-- ===== src/Knowledgebase/Base/AddQuery.antt =====
-- knowledgebase.h, add_query: which prefixes of the word become queries.
use libalf.Common.{
  ℕ, zero, suc, ◌+◌, ◌≡◌, refl, ap, ◌∙◌, Bool, true, false, not, ◌&&◌, ◌||◌, none, some, [], ◌∷◌,
  ◌++◌, ℤ, pos, negsuc, pred_ℤ, minus_ℤ, ltb_ℤ, leb, length, Word, IsWord, word_eq, word_eq_iff,
  is_prefix, contains, arith, Option-cases, Bool-cases, inl, inr,
}
use libalf.Knowledgebase.Node.{exists_at}
use libalf.Knowledgebase.Node.Count.{exists_at-nil}
use libalf.Knowledgebase.Node.Words.{strip, strip-append, strip-nil}
use libalf.Knowledgebase.Base.{
  Answer, Base, entry, mark_required, find_or_create_descendant, count_marked, mark_prefix,
  add_query_loop, add_query,
}
use libalf.Knowledgebase.Base.Entries.{known, is_answered, entry-find_or_create}
use libalf.Knowledgebase.Base.Invariant.{IsValid, find_or_create-IsValid}
use libalf.Knowledgebase.Base.Preserve.{mark_required-IsValid}
use libalf.Knowledgebase.Base.Queries.{
  contains-mark_required, known-mark_required, required-find_or_create, exists-find_or_create,
}

-- The part of the word behind `p` is walked from a node that is `skip` symbols above the first one
-- to be marked: the nodes that are marked, and the last one in any case.
abbrev is_selected : Word → Word → ℤ → Word → Bool
is_selected p w skip v = elim (strip p v) [
  | none ↦ false
  | some u ↦ is_prefix u w && (not (ltb_ℤ (pos (length u)) skip) || word_eq u w)
]

IsWord-append : (p : Word) (y : ℕ) → IsWord p → IsWord (p ++ pos y ∷ [])
IsWord-append [] y h = refl
IsWord-append (pos x ∷ p) y h = IsWord-append p y h
IsWord-append (negsuc x ∷ p) y h = cc

prefix-nil : (u : Word) → is_prefix u [] ≡ word_eq u []
prefix-nil [] = refl
prefix-nil (x ∷ u) = refl

selected-last :
    (p : Word) (skip : ℤ) (v : Word)
    → elim (strip p v) [ none ↦ false | some u ↦ word_eq u [] ] ≡ is_selected p [] skip v
selected-last p skip v = elim (Option-cases (strip p v)) [
  | inl other ↦ ground arith
  | inr (u, e) ↦ ground (arith, prefix-nil u)
]

pred-lt : (n : ℕ) (skip : ℤ) → ltb_ℤ (pos (suc n)) skip ≡ ltb_ℤ (pos n) (pred_ℤ skip)
pred-lt n (pos zero) = ground arith
pred-lt n (pos (suc k)) = ground arith
pred-lt n (negsuc k) = ground arith

-- One step of the loop selects its own node, and the rest those below it.
selected-step :
    (p : Word) (y : ℕ) (w : Word) (skip : ℤ) (v : Word)
    → (not (ltb_ℤ (pos 0) skip) && word_eq v p || is_selected (p ++ pos y ∷ []) w (pred_ℤ skip) v)
      ≡ is_selected p (pos y ∷ w) skip v
selected-step p y w skip v = elim (Option-cases (strip p v)) [
  | inl other ↦ ground (arith, strip-nil p v, strip-append p (pos y ∷ []) v)
  | inr ([], e) ↦ ground (arith, strip-nil p v, strip-append p (pos y ∷ []) v)
  | inr (negsuc z ∷ u, e) ↦ ground (arith, strip-nil p v, strip-append p (pos y ∷ []) v)
  | inr (pos z ∷ u, e) ↦
      ground (arith, strip-nil p v, strip-append p (pos y ∷ []) v, pred-lt (length u) skip)
]

selected-all :
    (w : Word) (n : ℕ) (v : Word)
    → is_selected [] w (minus_ℤ (pos (length w)) (pos n)) v
      ≡ (is_prefix v w && leb (length w) (n + length v))
selected-all w n v = elim (Bool-cases (word_eq v w)) [
  | inl e ↦ ground (arith, ap (λ (u : Word). length u) ((word_eq_iff v w).0 e))
  | inr e ↦ ground arith
]

module _ {A : Type 0} (o : Answer A) where
  -- What add_query does to a state with the invariant: knowledge stays, and the nodes that a test
  -- selects become queries unless they are answered.
  abbrev Marks : (Word → Bool) → Base A → Base A → Type 0
  Marks selected kb t =
      IsValid o t
      × ((v : Word) → known o t v ≡ known o kb v)
      × ((v : Word)
          → contains v t.required
            ≡ (contains v kb.required || selected v && not (is_answered (entry o kb v))))

  Marks-one :
      (p : Word) (kb : Base A)
      → IsWord p
      → IsValid o kb
      → exists_at kb.root p ≡ true
      → Marks (λ v. word_eq v p) kb (mark_required o p kb).1
  Marks-one p kb h i x = (
    mark_required-IsValid o p kb h i x,
    known-mark_required o p kb h,
    λ v. contains-mark_required o p kb h i v ∙ ground (arith, word_eq_iff v p),
  )

  Marks-same :
      (s s' : Word → Bool) (kb t : Base A)
      → ((v : Word) → s v ≡ s' v)
      → Marks s kb t
      → Marks s' kb t
  Marks-same s s' kb t same (i, knows, lists) = (i, knows, λ v. ground (arith, lists v, same v))

  Marks-trans :
      (s s' : Word → Bool) (kb t u : Base A)
      → Marks s kb t
      → Marks s' t u
      → Marks (λ v. s v || s' v) kb u
  Marks-trans s s' kb t u (i, knows, lists) (i', knows', lists') =
      (i', λ v. knows' v ∙ knows v, λ v. ground (arith, lists v, lists' v, knows v))

  Marks-create :
      (p : Word) (kb : Base A)
      → IsWord p
      → IsValid o kb
      → Marks (λ v. false) kb (find_or_create_descendant o p kb)
  Marks-create p kb h i = (
    find_or_create-IsValid o p kb h i,
    λ v. ground (arith, entry-find_or_create o p v kb h),
    λ v. ap (contains v) (required-find_or_create o p kb) ∙ ground arith,
  )

  Marks-prefix :
      (p : Word) (skip : ℤ) (count : ℕ) (kb : Base A)
      → IsWord p
      → IsValid o kb
      → exists_at kb.root p ≡ true
      → Marks (λ v. not (ltb_ℤ (pos 0) skip) && word_eq v p) kb (mark_prefix o p skip count kb).1
  unfolding mark_prefix count_marked
  Marks-prefix p skip count kb h i x = elim (Bool-cases (ltb_ℤ (pos 0) skip)) [
    | inl e ↦ rw (e, mark_prefix) (i, λ v. refl, λ v. ground arith)
    | inr e ↦ rw (e, mark_prefix) (Marks-one p kb h i x)
  ]

  add_query_loop_lem :
      (p w : Word) (skip : ℤ) (count : ℕ) (kb : Base A)
      → IsWord p
      → IsWord w
      → IsValid o kb
      → exists_at kb.root p ≡ true
      → Marks (is_selected p w skip) kb (add_query_loop o p w skip count kb).1
  unfolding add_query_loop count_marked
  add_query_loop_lem p [] skip count kb hp hw i x =
      Marks-same (λ v. word_eq v p) (is_selected p [] skip) kb (mark_required o p kb).1
        (λ v. strip-nil p v ∙ selected-last p skip v) (Marks-one p kb hp i x)
  add_query_loop_lem p (negsuc y ∷ w) skip count kb hp hw i x = cc
  add_query_loop_lem p (pos y ∷ w) skip count kb hp hw i x =
      let p' = p ++ pos y ∷ [] in
      let hp' = IsWord-append p y hp in
      let marked = mark_prefix o p skip count kb in
      let made = find_or_create_descendant o p' marked.1 in
      let one = Marks-prefix p skip count kb hp i x in
      let two = Marks-create p' marked.1 hp' one.0 in
      let three =
        add_query_loop_lem p' w (pred_ℤ skip) marked.0 made hp' hw two.0
          (exists-find_or_create o p' marked.1 hp') in
      let below = λ (v : Word). false || is_selected p' w (pred_ℤ skip) v in
      let t = (add_query_loop o p' w (pred_ℤ skip) marked.0 made).1 in
      Marks-same (λ v. not (ltb_ℤ (pos 0) skip) && word_eq v p || below v)
        (is_selected p (pos y ∷ w) skip) kb t (selected-step p y w skip)
        (Marks-trans (λ v. not (ltb_ℤ (pos 0) skip) && word_eq v p) below kb marked.1 t one
          (Marks-trans (λ v. false) (is_selected p' w (pred_ℤ skip)) marked.1 made t two three))

  -- For a word without negative symbols, a prefix_count that is not negative and a valid
  -- knowledgebase, add_query returns a valid knowledgebase with the same knowledge, in which the
  -- words asked are those asked before and the prefixes of the word that are at most prefix_count
  -- symbols shorter, itself included, unless they are answered.
  pub add_query_lem :
      (w : Word) (n : ℕ) (kb : Base A)
      → IsWord w
      → IsValid o kb
      → (t : Base A) × (count : ℕ) × (add_query o w (pos n) kb ≡ some (count, t))
        × IsValid o t
        × ((v : Word) → known o t v ≡ known o kb v)
        × ((v : Word)
            → contains v t.required ≡ (
                contains v kb.required
                || is_prefix v w
                  && leb (length w) (n + length v)
                  && not (is_answered (entry o kb v))))
  unfolding add_query
  add_query_lem w n kb h i =
      let skip = minus_ℤ (pos (length w)) (pos n) in
      let run = add_query_loop o [] w skip 0 kb in
      let (valid, knows, lists) =
        add_query_loop_lem [] w skip 0 kb refl h i (exists_at-nil kb.root) in
      (run.1, run.0, rw h refl, valid, knows, λ v. lists v ∙ ground (arith, selected-all w n v))
