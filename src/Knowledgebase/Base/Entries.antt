-- ===== src/Knowledgebase/Base/Entries.antt =====
-- knowledgebase.h: what the node methods do to the entries of all words.
use libalf.Common.{
  ℕ, ◌≡◌, ◌∙◌, Bool, true, false, Option, none, some, if◌then◌else◌, Word, IsWord, word_eq,
  word_eq_iff, arith, Bool-cases, inl, inr,
}
use libalf.Knowledgebase.Node.{node_ignore, node_required, node_answered, Entry}
use libalf.Knowledgebase.Node.Lookup.{entry_at-update}
use libalf.Knowledgebase.Base.{
  Answer, Base, entry, write, find_or_create_descendant, mark_required, store_answer, set_answer,
  ignore, add_knowledge,
}

-- The answer that an entry gives.
abbrev pub answer_of : {A : Type 0} → Entry A → Option A
answer_of e = elim e.status [ node_answered ↦ some e.ans | _ ↦ none ]

abbrev pub is_required : {A : Type 0} → Entry A → Bool
is_required e = elim e.status [ node_required ↦ true | _ ↦ false ]

abbrev pub is_answered : {A : Type 0} → Entry A → Bool
is_answered e = elim e.status [ node_answered ↦ true | _ ↦ false ]

-- The entries that the methods write.
abbrev pub required_entry : {A : Type 0} → ℕ → Entry A → Entry A
required_entry t e = record e { status = node_required; timestamp = t }

abbrev pub answered_entry : {A : Type 0} → ℕ → A → Entry A
answered_entry t a = record { timestamp = t; status = node_answered; ans = a }

abbrev pub ignored_entry : {A : Type 0} → Entry A → Entry A
ignored_entry e = record e { status = node_ignore; timestamp = 0 }

module _ {A : Type 0} (o : Answer A) where
  -- What the knowledgebase knows of a word.
  abbrev pub known : Base A → Word → Option A
  known kb w = answer_of (entry o kb w)

  pub entry-write :
      (f : Entry A → Entry A) (w v : Word) (kb : Base A)
      → IsWord w
      → entry o (write o f w kb) v ≡ (if word_eq v w then f (entry o kb w) else entry o kb v)
  entry-write f w v kb h = entry_at-update o.blank f kb.root w v h

  -- Creating nodes tells nothing new.
  pub entry-find_or_create :
      (w v : Word) (kb : Base A)
      → IsWord w
      → entry o (find_or_create_descendant o w kb) v ≡ entry o kb v
  unfolding find_or_create_descendant
  entry-find_or_create w v kb h = elim (Bool-cases (word_eq v w)) [
    | inl e ↦ entry_at-update o.blank (λ d. d) kb.root w v h ∙ rw (e, (word_eq_iff v w).0 e)
    | inr e ↦ entry_at-update o.blank (λ d. d) kb.root w v h ∙ rw e
  ]

  pub entry-mark_required :
      (w v : Word) (kb : Base A)
      → IsWord w
      → entry o (mark_required o w kb).1 v ≡ elim ((entry o kb w).status) [
        | node_ignore ↦
            if word_eq v w then required_entry kb.timestamp (entry o kb w) else entry o kb v
        | _ ↦ entry o kb v
      ]
  unfolding mark_required
  entry-mark_required w v kb h = ground (arith, entry-write (required_entry kb.timestamp) w v kb h)

  pub entry-set_answer :
      (w v : Word) (a : A) (kb : Base A)
      → IsWord w
      → entry o (set_answer o w a kb).1 v ≡ elim ((entry o kb w).status) [
        | node_answered ↦ entry o kb v
        | _ ↦ if word_eq v w then answered_entry kb.timestamp a else entry o kb v
      ]
  unfolding set_answer store_answer
  entry-set_answer w v a kb h =
      ground (arith, entry-write (λ _. answered_entry kb.timestamp a) w v kb h)

  pub set_answer-result :
      (w : Word) (a : A) (kb : Base A)
      → (set_answer o w a kb).0 ≡ elim (known kb w) [ none ↦ true | some b ↦ o.same b a ]
  unfolding set_answer
  set_answer-result w a kb = ground arith

  pub entry-ignore :
      (w v : Word) (kb : Base A)
      → IsWord w
      → entry o (ignore o w kb) v
        ≡ (if word_eq v w then ignored_entry (entry o kb w) else entry o kb v)
  unfolding ignore
  entry-ignore w v kb h = ground (arith, entry-write ignored_entry w v kb h)

  -- A knowledgebase refines a finite map from words to answers: for a word without negative
  -- symbols, add_knowledge returns, it adds the pair where the word has no answer yet and keeps
  -- the old answer where there is one, no other word changes, and its result says whether the
  -- word had no answer or one that is the same as the new one by the answer type's comparison.
  pub known-add_knowledge :
      (w : Word) (a : A) (kb : Base A)
      → IsWord w
      → (t : Base A) × (add_knowledge o w a kb
          ≡ some (elim (known kb w) [ none ↦ true | some b ↦ o.same b a ], t))
        × ((v : Word)
            → known t v ≡ (
                if word_eq v w
                then elim (known kb w) [ none ↦ some a | some b ↦ some b ]
                else known kb v))
  unfolding add_knowledge
  known-add_knowledge w a kb h =
      let kb' = find_or_create_descendant o w kb in
      (
        (set_answer o w a kb').1,
        rw h (ground (arith, set_answer-result w a kb', entry-find_or_create w w kb h)),
        λ v. ground (
          arith,
          entry-set_answer w v a kb' h,
          entry-find_or_create w v kb h,
          entry-find_or_create w w kb h,
          word_eq_iff v w,
        ),
      )
