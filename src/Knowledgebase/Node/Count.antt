-- ===== src/Knowledgebase/Node/Count.antt =====
-- knowledgebase.h: the weight of a tree of nodes, and which nodes exist, after a write.
use libalf.Common.{
  ℕ, zero, suc, ◌+◌, ◌*◌, ◌≡◌, refl, sym, ◌∙◌, true, false, ◌||◌, none, some, [], ◌∷◌, ℤ, pos,
  negsuc, Word, word_eq, IsWord, is_prefix, arith, inl, inr, Option-cases, Option,
}
use libalf.Knowledgebase.Node.{
  Node, node, Slots, nil, null, child, Entry, slot, put_slot, find_descendant, blank_entry,
  new_node, child_or_new, update, entry_at, tally, tally_below, created, news, exists_at,
}
use libalf.Knowledgebase.Node.Lookup.{entry_at-nil, entry_at-child, slot-put_slot}

module _ {A : Type 0} (g : Entry A → ℕ) where
  -- The weight of what a slot holds.
  abbrev weight : Option (Node A) → ℕ
  weight none = 0
  weight (some c) = tally g c

  tally-put_slot :
      (x : ℕ) (c : Node A) (cs : Slots A)
      → tally_below g (put_slot x c cs) + weight (slot x cs) ≡ tally_below g cs + tally g c
  unfolding put_slot slot tally
  tally-put_slot zero c nil = omega arith
  tally-put_slot zero c (null cs) = omega arith
  tally-put_slot zero c (child d cs) = omega arith
  tally-put_slot (suc x) c nil = omega (arith, tally-put_slot x c nil)
  tally-put_slot (suc x) c (null cs) = omega (arith, tally-put_slot x c cs)
  tally-put_slot (suc x) c (child d cs) = omega (arith, tally-put_slot x c cs)

  module _ (blank : A) where
    -- A missing child weighs what a new node will weigh.
    weight-child_or_new :
        (k x : ℕ) (cs : Slots A)
        → g (blank_entry blank) ≡ k
        → weight (slot x cs) + k * news x cs ≡ tally g (child_or_new blank x cs)
    unfolding child_or_new tally
    weight-child_or_new k x cs e = elim (Option-cases (slot x cs)) [
      | inl missing ↦ rw (missing, child_or_new, news) (omega arith)
      | inr (c, found) ↦ rw (found, child_or_new, news) (omega arith)
    ]

    -- An update changes the weight by the entry that it replaces, and by the nodes that it creates.
    pub tally-update :
        (k : ℕ)
        → g (blank_entry blank) ≡ k
        → (f : Entry A → Entry A) (n : Node A) (w : Word) → IsWord w
        → tally g (update blank f n w) + g (entry_at blank n w)
          ≡ tally g n + g (f (entry_at blank n w)) + k * created blank n w
    unfolding update tally created
    tally-update k e f (node l d cs) [] h = rw (entry_at-nil blank) (omega arith)
    tally-update k e f (node l d cs) (pos x ∷ w) h =
        let c = child_or_new blank x cs in
        rw (entry_at-child blank) (
          omega (
            arith,
            tally-put_slot x (update blank f c w) cs,
            tally-update k e f c w h,
            weight-child_or_new k x cs e,
          ))
    tally-update k e f (node l d cs) (negsuc x ∷ w) h = cc

module _ {A : Type 0} where
  -- A node exists below a child only, and new nodes have none.
  pub exists_at-child :
      (l : ℤ) (e : Entry A) (cs : Slots A) (x : ℕ) (w : Word)
      → exists_at (node l e cs) (pos x ∷ w)
        ≡ elim (slot x cs) [ none ↦ false | some c ↦ exists_at c w ]
  unfolding exists_at
  exists_at-child l e cs x w = elim (Option-cases (slot x cs)) [
    | inl missing ↦ rw (missing, exists_at, find_descendant)
    | inr (c, found) ↦ rw (found, exists_at, find_descendant)
  ]

  pub exists_at-nil : (n : Node A) → exists_at n [] ≡ true
  unfolding exists_at
  exists_at-nil n = refl

  pub exists_at-negsuc : (n : Node A) (x : ℕ) (w : Word) → exists_at n (negsuc x ∷ w) ≡ false
  unfolding exists_at
  exists_at-negsuc n x w = refl

module _ {A : Type 0} (blank : A) where
  pub exists_at-new_node : (l : ℤ) (w : Word) → exists_at (new_node blank l) w ≡ word_eq w []
  unfolding exists_at slot
  exists_at-new_node l [] = refl
  exists_at-new_node l (pos x ∷ w) = refl
  exists_at-new_node l (negsuc x ∷ w) = refl

  exists_at-child_or_new :
      (x : ℕ) (cs : Slots A) (v : Word)
      → exists_at (child_or_new blank x cs) v
        ≡ elim (slot x cs) [ none ↦ word_eq v [] | some c ↦ exists_at c v ]
  unfolding child_or_new
  exists_at-child_or_new x cs v = elim (Option-cases (slot x cs)) [
    | inl missing ↦ rw (missing, child_or_new) (exists_at-new_node (pos x) v)
    | inr (c, found) ↦ rw (found, child_or_new) refl
  ]

  prefix-new : (v w : Word) → (word_eq v [] || is_prefix v w) ≡ is_prefix v w
  prefix-new [] w = refl
  prefix-new (x ∷ v) w = refl

  -- After a write the nodes are those from before and the prefixes of the word.
  pub exists_at-update :
      (f : Entry A → Entry A) (n : Node A) (w v : Word)
      → IsWord w
      → exists_at (update blank f n w) v ≡ (exists_at n v || is_prefix v w)
  unfolding update
  exists_at-update f n w [] h = exists_at-nil _ ∙ sym (rw exists_at-nil)
  exists_at-update f (node l e cs) [] (negsuc y ∷ v) h =
      exists_at-negsuc _ y v ∙ sym (rw exists_at-negsuc)
  exists_at-update f (node l e cs) (pos x ∷ w) (negsuc y ∷ v) h =
      exists_at-negsuc _ y v ∙ sym (rw exists_at-negsuc)
  exists_at-update f (node l e cs) [] (pos y ∷ v) h =
      ground (arith, exists_at-child l e cs y v, exists_at-child l (f e) cs y v)
  exists_at-update f (node l e cs) (pos x ∷ w) (pos y ∷ v) h =
      let c = child_or_new blank x cs in
      let u = update blank f c w in
      ground (
        arith,
        exists_at-child l e cs y v,
        exists_at-child l e (put_slot x u cs) y v,
        slot-put_slot x y u cs,
        exists_at-child_or_new x cs v,
        exists_at-update f c w v h,
        prefix-new v w,
      )
  exists_at-update f (node l e cs) (negsuc x ∷ w) v h = cc

  -- A node that exists is not created, and its prefixes exist.
  pub created-exists : (n : Node A) (w : Word) → exists_at n w ≡ true → created blank n w ≡ 0
  unfolding created
  created-exists (node l e cs) [] h = refl
  created-exists (node l e cs) (pos x ∷ w) h = elim (Option-cases (slot x cs)) [
    | inl missing ↦ ground (arith, exists_at-child l e cs x w)
    | inr (c, found) ↦
        let below =
          created-exists (child_or_new blank x cs) w
            (ground (arith, exists_at-child l e cs x w, exists_at-child_or_new x cs w)) in
        rw (found, news) (omega (arith, below))
  ]
  created-exists (node l e cs) (negsuc x ∷ w) h = refl

  pub exists_at-prefix :
      (n : Node A) (v w : Word) → exists_at n w ≡ true → is_prefix v w ≡ true → exists_at n v ≡ true
  exists_at-prefix n [] w h p = exists_at-nil n
  exists_at-prefix (node l e cs) (pos x ∷ v) (pos y ∷ w) h p =
      let q : y ≡ x = ground arith in
      elim (Option-cases (slot x cs)) [
        | inl missing ↦ ground (arith, exists_at-child l e cs x w)
        | inr (c, found) ↦ ground (
          arith,
          exists_at-child l e cs x v,
          exists_at-child l e cs x w,
          exists_at-child_or_new x cs v,
          exists_at-child_or_new x cs w,
          exists_at-prefix (child_or_new blank x cs) v w,
        )
      ]
  exists_at-prefix n (negsuc x ∷ v) (negsuc y ∷ w) h p = ground (arith, exists_at-negsuc n y w)
  exists_at-prefix n (negsuc x ∷ v) (pos y ∷ w) h p = cc
  exists_at-prefix n (pos x ∷ v) (negsuc y ∷ w) h p = cc
  exists_at-prefix n (x ∷ v) [] h p = cc
