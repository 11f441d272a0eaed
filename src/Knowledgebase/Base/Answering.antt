-- ===== src/Knowledgebase/Base/Answering.antt =====
-- knowledgebase.h: deserialize_query_acceptances answers the queries in the order of the list.
use libalf.Common.{
  suc, ◌≡◌, ◌≢◌, refl, sym, ap, ◌∙◌, true, false, Option, none, some, if◌then◌else◌, [], ◌∷◌, List,
  Word, word_eq, word_eq_iff, word_eq_refl, contains, remove, Distinct, remove-absent, length,
  arith,
}
use libalf.Knowledgebase.Base.{Answer, Base, entry, set_answer, store_answer, answer_queries}
use libalf.Knowledgebase.Base.Entries.{known, is_required, entry-set_answer}
use libalf.Knowledgebase.Base.Invariant.{IsValid}
use libalf.Knowledgebase.Base.Preserve.{set_answer-IsValid}
use libalf.Knowledgebase.Base.Clearing.{required-IsWord, required-exists}

-- The answer that stands at the place of a query.
abbrev pub answer_for : {A : Type 0} → Word → List Word → List A → Option A
answer_for v [] as' = none
answer_for v (w ∷ ws) [] = none
answer_for v (w ∷ ws) (a ∷ as') = if word_eq v w then some a else answer_for v ws as'

module _ {A : Type 0} (o : Answer A) where
  required-set_answer :
      (w : Word) (a : A) (ws : List Word) (kb : Base A)
      → is_required (entry o kb w) ≡ true
      → kb.required ≡ w ∷ ws
      → contains w ws ≡ false
      → (set_answer o w a kb).1.required ≡ ws
  unfolding set_answer store_answer
  required-set_answer w a ws kb h e c =
      ground (arith, ap (remove w) e, word_eq_refl w, remove-absent ws w c)

  not_answer_for :
      (v : Word) (ws : List Word) (as' : List A)
      → contains v ws ≡ false
      → answer_for v ws as' ≡ none
  not_answer_for v [] as' h = refl
  not_answer_for v (w ∷ ws) [] h = refl
  not_answer_for v (w ∷ ws) (a ∷ as') h = ground (arith, not_answer_for v ws as')

  pub answer_queries-cons :
      (w : Word) (a : A) (ws : List Word) (as' : List A) (kb : Base A)
      → kb.required ≡ w ∷ ws
      → answer_queries o (a ∷ as') kb ≡ answer_queries o as' (set_answer o w a kb).1
  unfolding answer_queries
  answer_queries-cons w a ws as' kb e = ground arith

  -- In a valid knowledgebase, given as many answers as there are queries, the loop of
  -- deserialize_query_acceptances returns with no query left and the invariant kept, each query
  -- has the answer at its place in the list, and every other word what it had.
  pub answer_queries_lem :
      (ws : List Word) (as' : List A) (kb : Base A)
      → IsValid o kb
      → kb.required ≡ ws
      → length as' ≡ length ws
      → (t : Base A) × (answer_queries o as' kb ≡ some t)
        × (t.required ≡ [])
        × IsValid o t
        × ((v : Word)
            → known o t v ≡ elim (answer_for v ws as') [ some a ↦ some a | none ↦ known o kb v ])
  unfolding answer_queries
  answer_queries_lem [] [] kb i e n = (kb, ground arith, e, i, λ v. refl)
  answer_queries_lem [] (a ∷ as') kb i e n = absurd (omega arith)
  answer_queries_lem (w ∷ ws) [] kb i e n = absurd (omega arith)
  answer_queries_lem (w ∷ ws) (a ∷ as') kb i e n =
      let once : Distinct (w ∷ ws) = rw e at i.once in
      let marked : is_required (entry o kb w) ≡ true =
        sym (i.tracked w) ∙ rw e (rw (word_eq_refl w) refl) in
      let word = required-IsWord o kb w marked in
      let (t, done, empty, valid, knows) =
        answer_queries_lem ws as' (set_answer o w a kb).1
          (set_answer-IsValid o w kb word i (required-exists o kb w marked) a)
          (required-set_answer w a ws kb marked e once.0) (omega arith) in
      (
        t,
        answer_queries-cons w a ws as' kb e ∙ done,
        empty,
        valid,
        λ v.
            knows v
            ∙ ground (
              arith,
              entry-set_answer o w v a kb word,
              word_eq_iff v w,
              not_answer_for w ws as' once.0,
            ),
      )

  -- In a valid knowledgebase the loop of deserialize_query_acceptances fails where the number of
  -- answers is not that of the queries.
  pub answer_queries-refuses :
      (ws : List Word) (as' : List A) (kb : Base A)
      → IsValid o kb
      → kb.required ≡ ws
      → length as' ≢ length ws
      → answer_queries o as' kb ≡ none
  unfolding answer_queries
  answer_queries-refuses [] [] kb i e n = absurd (n refl)
  answer_queries-refuses [] (a ∷ as') kb i e n = rw (e, answer_queries)
  answer_queries-refuses (w ∷ ws) [] kb i e n = rw (e, answer_queries)
  answer_queries-refuses (w ∷ ws) (a ∷ as') kb i e n =
      let once : Distinct (w ∷ ws) = rw e at i.once in
      let marked : is_required (entry o kb w) ≡ true =
        sym (i.tracked w) ∙ rw e (rw (word_eq_refl w) refl) in
      let word = required-IsWord o kb w marked in
      answer_queries-cons w a ws as' kb e
      ∙ answer_queries-refuses ws as' (set_answer o w a kb).1
          (set_answer-IsValid o w kb word i (required-exists o kb w marked) a)
          (required-set_answer w a ws kb marked e once.0) (λ same. n (ap suc same))
