-- ===== src/Knowledgebase/Node/Lookup.antt =====
-- knowledgebase.h: reading the tree of nodes back after a write. A tree is a map from words to
-- entries, and `update` is the write to it at one word.
use libalf.Common.{
  ℕ, zero, suc, ◌≡◌, refl, sym, ap, ◌∙◌, some, [], ◌∷◌, ℤ, pos, negsuc, Word, IsWord, word_eq,
  arith, inl, inr, if◌then◌else◌, ◌==◌, Option-cases,
}
use libalf.Knowledgebase.Node.{
  Node, node, Slots, nil, null, child, Entry, slot, put_slot, find_descendant, blank_entry,
  new_node, child_or_new, update, entry_at, entry_of,
}

module _ {A : Type 0} where
  pub slot-put_slot :
      (i j : ℕ) (c : Node A) (cs : Slots A)
      → slot j (put_slot i c cs) ≡ (if i == j then some c else slot j cs)
  unfolding slot put_slot
  slot-put_slot zero zero c nil = refl
  slot-put_slot zero zero c (null cs) = refl
  slot-put_slot zero zero c (child d cs) = refl
  slot-put_slot zero (suc j) c nil = ground arith
  slot-put_slot zero (suc j) c (null cs) = ground arith
  slot-put_slot zero (suc j) c (child d cs) = ground arith
  slot-put_slot (suc i) zero c nil = ground arith
  slot-put_slot (suc i) zero c (null cs) = ground arith
  slot-put_slot (suc i) zero c (child d cs) = ground arith
  slot-put_slot (suc i) (suc j) c nil = ground (arith, slot-put_slot i j c nil)
  slot-put_slot (suc i) (suc j) c (null cs) = ground (arith, slot-put_slot i j c cs)
  slot-put_slot (suc i) (suc j) c (child d cs) = ground (arith, slot-put_slot i j c cs)

module _ {A : Type 0} (blank : A) where
  -- A new node says nothing, and neither does a word below it.
  pub entry_at-new_node :
      (l : ℤ) (w : Word) → entry_at blank (new_node blank l) w ≡ blank_entry blank
  unfolding entry_at slot
  entry_at-new_node l [] = refl
  entry_at-new_node l (pos x ∷ w) = refl
  entry_at-new_node l (negsuc x ∷ w) = refl

  pub entry_at-nil : (n : Node A) → entry_at blank n [] ≡ entry_of n
  unfolding entry_at
  entry_at-nil n = refl

  pub entry_at-negsuc :
      (n : Node A) (x : ℕ) (w : Word) → entry_at blank n (negsuc x ∷ w) ≡ blank_entry blank
  unfolding entry_at
  entry_at-negsuc n x w = refl

  -- A word with a first symbol is read at the child, also where that is missing.
  pub entry_at-child :
      (l : ℤ) (e : Entry A) (cs : Slots A) (x : ℕ) (w : Word)
      → entry_at blank (node l e cs) (pos x ∷ w) ≡ entry_at blank (child_or_new blank x cs) w
  unfolding child_or_new entry_at
  entry_at-child l e cs x w = elim (Option-cases (slot x cs)) [
    | inl missing ↦
        rw (missing, entry_at, find_descendant, child_or_new) (sym (entry_at-new_node (pos x) w))
    | inr (c, found) ↦ rw (found, entry_at, find_descendant, child_or_new) refl
  ]

  pub child_or_new-put_slot :
      (i j : ℕ) (c : Node A) (cs : Slots A)
      → child_or_new blank j (put_slot i c cs) ≡ (if i == j then c else child_or_new blank j cs)
  unfolding child_or_new
  child_or_new-put_slot i j c cs = ground (arith, slot-put_slot i j c cs)

  -- The tree is a map from words to entries: an update changes what it says of its own word, and
  -- of no other.
  pub entry_at-update :
      (f : Entry A → Entry A) (n : Node A) (w v : Word)
      → IsWord w
      → entry_at blank (update blank f n w) v
        ≡ (if word_eq v w then f (entry_at blank n w) else entry_at blank n v)
  unfolding update
  entry_at-update f (node l e cs) [] [] h = entry_at-nil _ ∙ ap f (sym (entry_at-nil _))
  entry_at-update f (node l e cs) [] (pos y ∷ v) h =
      entry_at-child _ _ cs y v ∙ sym (entry_at-child _ _ cs y v)
  entry_at-update f (node l e cs) [] (negsuc y ∷ v) h =
      entry_at-negsuc _ y v ∙ sym (entry_at-negsuc _ y v)
  entry_at-update f (node l e cs) (pos x ∷ w) [] h = entry_at-nil _ ∙ sym (entry_at-nil _)
  entry_at-update f (node l e cs) (pos x ∷ w) (negsuc y ∷ v) h =
      entry_at-negsuc _ y v ∙ sym (entry_at-negsuc _ y v)
  entry_at-update f (node l e cs) (pos x ∷ w) (pos y ∷ v) h =
      let c = child_or_new blank x cs in
      let u = update blank f c w in
      ground (
        arith,
        entry_at-child l e cs x w,
        entry_at-child l e cs y v,
        entry_at-child l e (put_slot x u cs) y v,
        child_or_new-put_slot x y u cs,
        entry_at-update f c w v h,
      )
  entry_at-update f n (negsuc x ∷ w) v h = cc
