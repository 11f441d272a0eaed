-- ===== src/Knowledgebase/Base/Preserve.antt =====
-- knowledgebase.h: every method of a node keeps the invariant of the knowledgebase.
use libalf.Common.{
  ◌+◌, ◌-◌, ◌≤◌, ◌≡◌, refl, ◌∙◌, true, false, if◌then◌else◌, [], ◌∷◌, ◌++◌, Word, IsWord, word_eq,
  word_eq_iff, contains, remove, Distinct-append, Distinct-remove, contains-append, contains-remove,
  arith, inl, inr, ◌⊎◌,
}
use libalf.Knowledgebase.Node.{Status, node_ignore, node_required, node_answered, exists_at}
use libalf.Knowledgebase.Node.Count.{tally-update}
use libalf.Knowledgebase.Base.{
  Answer, Base, entry, mark_required, store_answer, set_answer, ignore, inc32,
}
use libalf.Knowledgebase.Base.Entries.{
  is_required, is_answered, required_entry, answered_entry, ignored_entry,
}
use libalf.Knowledgebase.Base.Invariant.{IsValid, answer_weight, write-IsValid}

pub Status-cases : (s : Status) → (s ≡ node_ignore) ⊎ ((s ≡ node_required) ⊎ (s ≡ node_answered))
Status-cases node_ignore = inl refl
Status-cases node_required = inr (inl refl)
Status-cases node_answered = inr (inr refl)

module _ {A : Type 0} (o : Answer A) (w : Word) (kb : Base A) (word : IsWord w) where
  module _ (v : IsValid o kb) (x : exists_at kb.root w ≡ true) where
    -- A required word is on the list, and any other is not.
    listed-add :
        (entry o kb w).status ≡ node_ignore
        → (u : Word)
        → contains u (kb.required ++ w ∷ [])
          ≡ (if word_eq u w then true else contains u kb.required)
    listed-add e u = ground (arith, contains-append u kb.required (w ∷ []))

    listed-remove :
        (u : Word)
        → contains u (remove w kb.required)
          ≡ (if word_eq u w then false else contains u kb.required)
    listed-remove u = ground (arith, contains-remove u w kb.required)

    listed-not :
        is_required (entry o kb w) ≡ false
        → (u : Word)
        → contains u kb.required ≡ (if word_eq u w then false else contains u kb.required)
    listed-not e u = ground (arith, v.tracked u, word_eq_iff u w)

    not-listed : is_required (entry o kb w) ≡ false → contains w kb.required ≡ false
    not-listed e = v.tracked w ∙ e

    pub mark_required-IsValid : IsValid o (mark_required o w kb).1
    unfolding mark_required
    mark_required-IsValid = elim (Status-cases (entry o kb w).status) [
      | inl e ↦
          rw (e, mark_required)
            (write-IsValid o w kb word v (required_entry kb.timestamp) (kb.required ++ w ∷ [])
              kb.answercount kb.timestamp x (listed-add e)
              (Distinct-append kb.required w (not-listed (rw e)) v.once) (ground arith))
      | inr (inl e) ↦ rw (e, mark_required) v
      | inr (inr e) ↦ rw (e, mark_required) v
    ]

    pub set_answer-IsValid : (a : A) → IsValid o (set_answer o w a kb).1
    unfolding set_answer store_answer
    set_answer-IsValid a = elim (Status-cases (entry o kb w).status) [
      | inl e ↦
          rw (e, set_answer)
            (write-IsValid o w kb word v (λ _. answered_entry kb.timestamp a) kb.required
              (kb.answercount + 1) (inc32 kb.timestamp) x (listed-not (rw e)) v.once (ground arith))
      | inr (inl e) ↦
          rw (e, set_answer)
            (write-IsValid o w kb word v (λ _. answered_entry kb.timestamp a) (remove w kb.required)
              (kb.answercount + 1) (inc32 kb.timestamp) x listed-remove
              (Distinct-remove kb.required w v.once) (ground arith))
      | inr (inr e) ↦ rw (e, set_answer) v
    ]

    -- A node that is answered counts.
    counted : is_answered (entry o kb w) ≡ true → 1 ≤ kb.answercount
    counted e =
        ground
          (arith, v.answers, tally-update answer_weight o.blank 0 refl ignored_entry kb.root w word)

    pub ignore-IsValid : IsValid o (ignore o w kb)
    unfolding ignore
    ignore-IsValid = elim (Status-cases (entry o kb w).status) [
      | inl e ↦
          rw (e, ignore)
            (write-IsValid o w kb word v ignored_entry kb.required kb.answercount kb.timestamp x
              (listed-not (rw e)) v.once (ground arith))
      | inr (inl e) ↦
          rw (e, ignore)
            (write-IsValid o w kb word v ignored_entry (remove w kb.required) kb.answercount
              kb.timestamp x listed-remove (Distinct-remove kb.required w v.once) (ground arith))
      | inr (inr e) ↦
          rw (e, ignore)
            (write-IsValid o w kb word v ignored_entry kb.required (kb.answercount - 1) kb.timestamp
              x (listed-not (rw e)) v.once (ground (arith, counted)))
    ]
