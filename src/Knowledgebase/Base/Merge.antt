-- ===== src/Knowledgebase/Base/Merge.antt =====
-- knowledgebase.h, merge_knowledgebase.
use libalf.Common.{
  ℕ, ◌≡◌, refl, sym, ◌∙◌, Bool, true, false, Option, none, some, if◌then◌else◌, [], ◌∷◌, List,
  negsuc, Word, IsWord, word_eq_iff, contains, arith, Option-cases, Bool-cases, inl, inr,
}
use libalf.Knowledgebase.Node.{words}
use libalf.Knowledgebase.Node.Words.{contains-words}
use libalf.Knowledgebase.Node.Search.{recursive_different, differ_at, recursive_different_iff}
use libalf.Knowledgebase.Base.{Answer, Base, add_knowledge, inc32}
use libalf.Knowledgebase.Base.Entries.{known, known-add_knowledge}
use libalf.Knowledgebase.Base.Clearing.{exists-IsWord, exists-entry}

module _ {A : Type 0} (o : Answer A) (differs : A → A → Bool) where
  -- The loop over the nodes of the other tree; the time stamp is set back after each word. A NULL
  -- pointer is dereferenced where the result is `none`.
  pub merge_loop : ℕ → Base A → List Word → Base A → Option (Base A)
  merge_loop static_timestamp other [] kb = some kb
  merge_loop static_timestamp other (w ∷ ws) kb = elim (known o other w) [
    | none ↦ merge_loop static_timestamp other ws kb
    | some a ↦ elim (add_knowledge o w a kb) [
      | none ↦ none
      | some (_, kb') ↦
          merge_loop static_timestamp other ws (record kb' { timestamp = static_timestamp })
    ]
  ]

  unfoldable pub merge_knowledgebase : Base A → Base A → Option (Bool × Base A)
  merge_knowledgebase other kb =
      if recursive_different differs kb.root other.root (negsuc 0)
      then some (false, kb)
      else elim (merge_loop kb.timestamp other (words [] other.root) kb) [
        | none ↦ none
        | some t ↦ some (true, record t { timestamp = inc32 t.timestamp })
      ]

  merge_loop_lem :
      (static : ℕ) (other : Base A) (ws : List Word) (kb : Base A)
      → ((u : Word) → contains u ws ≡ true → IsWord u)
      → (t : Base A) × (merge_loop static other ws kb ≡ some t)
        × ((v : Word)
            → known o t v ≡ elim (known o kb v) [
              | some a ↦ some a
              | none ↦ if contains v ws then known o other v else none
            ])
  unfolding merge_loop
  merge_loop_lem static other [] kb h = (kb, refl, λ v. ground arith)
  merge_loop_lem static other (w ∷ ws) kb h = elim (Option-cases (known o other w)) [
    | inl nothing ↦
        let (t, e, knows) = merge_loop_lem static other ws kb (λ u c. h u (ground arith)) in
        (t, rw (nothing, merge_loop) e, λ v. ground (arith, knows v, word_eq_iff v w))
    | inr (a, found) ↦
        let (kb', added, adds) =
          known-add_knowledge o w a kb (h w (ground (arith, word_eq_iff w w))) in
        let (t, e, knows) =
          merge_loop_lem static other ws (record kb' { timestamp = static })
            (λ u c. h u (ground arith)) in
        (
          t,
          rw (found, merge_loop) (rw (added, merge_loop) e),
          λ v. ground (arith, knows v, adds v, word_eq_iff v w),
        )
  ]

  -- Where no word has answers in both knowledgebases that differ, merge_knowledgebase returns
  -- true and a knowledgebase that knows what the first one knows, and of other words what the
  -- second one knows.
  pub merge-consistent :
      (other kb : Base A)
      → ((v : Word) → differ_at differs o.blank kb.root other.root v ≡ false)
      → (t : Base A) × (merge_knowledgebase other kb ≡ some (true, t))
        × ((v : Word)
            → known o t v ≡ elim (known o kb v) [ some a ↦ some a | none ↦ known o other v ])
  unfolding merge_knowledgebase
  merge-consistent other kb agree =
      let (t, e, knows) =
        merge_loop_lem kb.timestamp other (words [] other.root) kb
          (λ u c. exists-IsWord o other.root u (sym (contains-words u other.root) ∙ c)) in
      (
        record t { timestamp = inc32 t.timestamp },
        rw (not_different, e) refl,
        λ v. knows v ∙ ground (arith, contains-words v other.root, exists-entry o other.root v),
      )
    where
      not_different : recursive_different differs kb.root other.root (negsuc 0) ≡ false
      not_different =
          elim (Bool-cases (recursive_different differs kb.root other.root (negsuc 0))) [
            | inr no' ↦ no'
            | inl diff ↦
                let (v, d) = (recursive_different_iff differs o.blank kb.root other.root).0 diff in
                ground (arith, agree v)
          ]

  -- Where some word has answers in both knowledgebases that differ, merge_knowledgebase returns
  -- false and changes nothing.
  pub merge-inconsistent :
      (other kb : Base A) (v : Word)
      → differ_at differs o.blank kb.root other.root v ≡ true
      → merge_knowledgebase other kb ≡ some (false, kb)
  unfolding merge_knowledgebase
  merge-inconsistent other kb v d =
      rw ((recursive_different_iff differs o.blank kb.root other.root).1 (v, d)) refl
