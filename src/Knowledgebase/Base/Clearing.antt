-- ===== src/Knowledgebase/Base/Clearing.antt =====
-- knowledgebase.h: cleanup of the whole tree, and clear_queries.
use libalf.Common.{
  pos, negsuc, Option-cases, ℕ, zero, suc, ◌≤◌, ◌≡◌, refl, sym, ap, ◌∙◌, true, false, [], ◌∷◌, Word,
  IsWord, word_eq_iff, word_eq_refl, remove, arith, inl, inr, ◌⊎◌, length, List,
}
use libalf.Knowledgebase.Node.{Entry, Node, node, slot, entry_at, exists_at, blank_entry}
use libalf.Knowledgebase.Node.Count.{exists_at-child, exists_at-negsuc}
use libalf.Knowledgebase.Node.Cleanup.{
  tally-cleanup, tally-cleanup-le, view-cleanup, exists_at-cleanup,
}
use libalf.Knowledgebase.Base.{Answer, Base, entry, ignore, cleaned, drain, clear_queries}
use libalf.Knowledgebase.Base.Entries.{answer_of, known, is_required, entry-ignore}
use libalf.Knowledgebase.Base.Invariant.{IsValid, entry-not_word, answer_weight}
use libalf.Knowledgebase.Base.Preserve.{ignore-IsValid}

length-remove_le : (w : Word) (ws : List Word) → length (remove w ws) ≤ length ws
length-remove_le w [] = omega arith
length-remove_le w (u ∷ us) = ground (arith, length-remove_le w us)

empty-of_length {ℓ} : {A : Type ℓ} (xs : List A) → length xs ≤ 0 → xs ≡ []
empty-of_length [] h = refl
empty-of_length (x ∷ xs) h = absurd (omega arith)

List-cases {ℓ} :
    {A : Type ℓ} (xs : List A) → (xs ≡ []) ⊎ ((x : A) × (rest : List A) × (xs ≡ x ∷ rest))
List-cases [] = inl refl
List-cases (x ∷ xs) = inr (x, xs, refl)

module _ {A : Type 0} (o : Answer A) where
  -- A node whose status was set exists.
  pub exists-entry :
      (n : Node A) (w : Word) → exists_at n w ≡ false → entry_at o.blank n w ≡ blank_entry o.blank
  unfolding exists_at entry_at
  exists-entry n w h = ground arith

  pub required-IsWord : (kb : Base A) (w : Word) → is_required (entry o kb w) ≡ true → IsWord w
  required-IsWord kb w h = ground (arith, entry-not_word o kb.root w)

  pub required-exists :
      (kb : Base A) (w : Word) → is_required (entry o kb w) ≡ true → exists_at kb.root w ≡ true
  required-exists kb w h = ground (arith, exists-entry kb.root w)

  required-cleaned :
      (kb : Base A) (v : Word) → is_required (entry o (cleaned kb) v) ≡ is_required (entry o kb v)
  required-cleaned kb v = view-cleanup o.blank (λ e. is_required e) (λ e h. ground arith) kb.root v

  pub known-cleaned : (kb : Base A) (v : Word) → known o (cleaned kb) v ≡ known o kb v
  known-cleaned kb v = view-cleanup o.blank (λ e. answer_of e) (λ e h. ground arith) kb.root v

  pub cleaned-IsValid : (kb : Base A) → IsValid o kb → IsValid o (cleaned kb)
  cleaned-IsValid kb i = record {
    tracked = λ v. i.tracked v ∙ sym (required-cleaned kb v);
    once = i.once;
    answers = i.answers ∙ sym (tally-cleanup answer_weight (λ e h. ground arith) kb.root);
    nodes = omega (arith, i.nodes, tally-cleanup-le (λ (_ : Entry A). 1) kb.root);
    symbols = λ v h. i.symbols v (exists_at-cleanup o.blank kb.root v h);
  }

  required-ignore :
      (w : Word) (kb : Base A)
      → is_required (entry o kb w) ≡ true
      → (ignore o w kb).required ≡ remove w kb.required
  unfolding ignore
  required-ignore w kb h = ground arith

  known-ignore :
      (w v : Word) (kb : Base A)
      → IsWord w
      → is_required (entry o kb w) ≡ true
      → known o (ignore o w kb) v ≡ known o kb v
  known-ignore w v kb word h = ground (arith, entry-ignore o w v kb word, word_eq_iff v w)

  -- An iteration of the loop of clear_queries shortens the list.
  drain_lem :
      (fuel : ℕ) (kb : Base A)
      → IsValid o kb
      → length kb.required ≤ fuel
      → ((drain o fuel kb).required ≡ [])
        × ((v : Word) → known o (drain o fuel kb) v ≡ known o kb v)
        × IsValid o (drain o fuel kb)
  unfolding drain
  drain_lem zero kb i h = (empty-of_length kb.required h, λ v. refl, i)
  drain_lem (suc fuel) kb i h = elim (List-cases kb.required) [
    | inl e ↦ rw (e, drain) (e, λ v. refl, i)
    | inr (w, ws, e) ↦
        let marked : is_required (entry o kb w) ≡ true =
          sym (i.tracked w) ∙ rw e (rw (word_eq_refl w) refl) in
        let word = required-IsWord kb w marked in
        let shorter : length (ignore o w kb).required ≤ fuel =
          rw (required-ignore w kb marked, e, word_eq_refl w)
            (omega (arith, length-remove_le w ws, ap length e)) in
        let (empty, knows, valid) =
          drain_lem fuel (ignore o w kb)
            (ignore-IsValid o w kb word i (required-exists kb w marked)) shorter in
        rw (e, drain) (empty, λ v. knows v ∙ known-ignore w v kb word marked, valid)
  ]

  -- In a valid knowledgebase the loop of clear_queries ends after as many rounds as there are
  -- queries: no query is left, what is known stays, and the invariant holds.
  pub clear_queries_lem :
      (kb : Base A)
      → IsValid o kb
      → ((clear_queries o kb).required ≡ [])
        × ((v : Word) → known o (clear_queries o kb) v ≡ known o kb v)
        × IsValid o (clear_queries o kb)
  unfolding clear_queries
  clear_queries_lem kb i =
      let (empty, knows, valid) = drain_lem (length kb.required) kb i (omega arith) in
      let drained = drain o (length kb.required) kb in
      (empty, λ v. known-cleaned drained v ∙ knows v, cleaned-IsValid drained valid)

  pub exists-IsWord : (n : Node A) (v : Word) → exists_at n v ≡ true → IsWord v
  exists-IsWord n [] h = refl
  exists-IsWord (node l e cs) (pos x ∷ v) h = elim (Option-cases (slot x cs)) [
    | inl missing ↦ ground (arith, exists_at-child l e cs x v)
    | inr (c, found) ↦ ground (arith, exists_at-child l e cs x v, exists-IsWord c v)
  ]
  exists-IsWord n (negsuc x ∷ v) h = ground (arith, exists_at-negsuc n x v)
