-- ===== src/Knowledgebase/Node/Cleanup.antt =====
-- knowledgebase.h, node::cleanup: the nodes that go hold nothing, and what stays is unchanged.
use libalf.Common.{
  ℕ, zero, suc, ◌≤◌, ◌≡◌, refl, sym, ap, ◌∙◌, true, false, none, some, [], ◌∷◌, ℤ, pos, negsuc,
  Word, arith, inl, inr, Option-cases, Bool-cases, Bool, ◌&&◌,
}
use libalf.Knowledgebase.Node.{
  Node, node, Slots, nil, null, child, Entry, is_ignored, slot, find_descendant, blank_entry,
  entry_at, exists_at, tally, tally_below, cleanup, cleanup_below,
}
use libalf.Knowledgebase.Node.Lookup.{entry_at-nil, entry_at-negsuc}
use libalf.Knowledgebase.Node.Count.{exists_at-nil, exists_at-negsuc, exists_at-child}

and_left : (a b : Bool) → (a && b) ≡ true → a ≡ true
and_left a b h = ground arith

and_right : (a b : Bool) → (a && b) ≡ true → b ≡ true
and_right a b h = ground arith

module _ {A : Type 0} (g : Entry A → ℕ)
    (blind : (e : Entry A) → is_ignored e ≡ true → g e ≡ 0) where
  -- A weight that ignored entries do not have is kept, and is 0 where the node may go.
  mutual
    unfolding cleanup tally

    tally-both :
        (n : Node A) → (tally g (cleanup n).1 ≡ tally g n) × ((cleanup n).0 ≡ true → tally g n ≡ 0)
    tally-both (node l e cs) =
        let (same, empty) = tally_below-both cs in
        (omega (arith, same), λ h. ground (arith, blind e, empty))

    tally_below-both :
        (cs : Slots A)
        → (tally_below g (cleanup_below cs).1 ≡ tally_below g cs)
          × ((cleanup_below cs).0 ≡ true → tally_below g cs ≡ 0)
    tally_below-both nil = (refl, λ h. refl)
    tally_below-both (null cs) = tally_below-both cs
    tally_below-both (child c cs) =
        let (same, empty) = tally_below-both cs in
        let (same', empty') = tally-both c in
        elim (Bool-cases (cleanup c).0) [
          | inl gone ↦
              rw gone (omega (arith, same, empty' gone), λ h. omega (arith, empty h, empty' gone))
          | inr kept ↦ rw kept (omega (arith, same, same'), λ h. cc)
        ]

  pub tally-cleanup : (n : Node A) → tally g (cleanup n).1 ≡ tally g n
  tally-cleanup n = (tally-both n).0

module _ {A : Type 0} (g : Entry A → ℕ) where
  mutual
    unfolding cleanup tally

    tally-cleanup_le : (n : Node A) → tally g (cleanup n).1 ≤ tally g n
    tally-cleanup_le (node l e cs) = omega (arith, tally_below-cleanup_le cs)

    tally_below-cleanup_le : (cs : Slots A) → tally_below g (cleanup_below cs).1 ≤ tally_below g cs
    tally_below-cleanup_le nil = omega arith
    tally_below-cleanup_le (null cs) = tally_below-cleanup_le cs
    tally_below-cleanup_le (child c cs) =
        ground (arith, tally_below-cleanup_le cs, tally-cleanup_le c)

  pub tally-cleanup-le : (n : Node A) → tally g (cleanup n).1 ≤ tally g n
  tally-cleanup-le n = tally-cleanup_le n

module _ {A : Type 0} (blank : A) where
  -- The entry below a slot.
  abbrev pub below : ℕ → Slots A → Word → Entry A
  below y cs v = elim (slot y cs) [ none ↦ blank_entry blank | some c ↦ entry_at blank c v ]

  pub entry_at-slot :
      (l : ℤ) (e : Entry A) (cs : Slots A) (y : ℕ) (v : Word)
      → entry_at blank (node l e cs) (pos y ∷ v) ≡ below y cs v
  unfolding entry_at
  entry_at-slot l e cs y v = elim (Option-cases (slot y cs)) [
    | inl missing ↦ rw (missing, entry_at, find_descendant, below)
    | inr (c, found) ↦ rw (found, entry_at, find_descendant, below)
  ]

  -- A view of entries that takes every ignored entry for a blank one.
  module _ {ℓ} {X : Type ℓ} (g : Entry A → X)
      (blind : (e : Entry A) → is_ignored e ≡ true → g e ≡ g (blank_entry blank)) where
    mutual
      unfolding cleanup slot

      view-both :
          (n : Node A) (v : Word)
          → (g (entry_at blank (cleanup n).1 v) ≡ g (entry_at blank n v))
            × ((cleanup n).0 ≡ true → g (entry_at blank n v) ≡ g (blank_entry blank))
      view-both (node l e cs) [] =
          let cs' = (cleanup_below cs).1 in
          let root = ap g (entry_at-nil blank (node l e cs)) in
          (
            ap g (entry_at-nil blank (node l e cs')) ∙ sym root,
            λ h. root ∙ blind e (and_left (is_ignored e) (cleanup_below cs).0 h),
          )
      view-both (node l e cs) (pos y ∷ v) =
          let cs' = (cleanup_below cs).1 in
          let at = ap g (entry_at-slot l e cs y v) in
          let (same, empty) = view_below-both cs y v in
          (
            ap g (entry_at-slot l e cs' y v) ∙ same ∙ sym at,
            λ h. at ∙ empty (and_right (is_ignored e) (cleanup_below cs).0 h),
          )
      view-both (node l e cs) (negsuc y ∷ v) =
          let nothing = ap g (entry_at-negsuc blank (node l e cs) y v) in
          (
            ap g (entry_at-negsuc blank (node l e (cleanup_below cs).1) y v) ∙ sym nothing,
            λ h. nothing,
          )

      view_below-both :
          (cs : Slots A) (y : ℕ) (v : Word)
          → (g (below y (cleanup_below cs).1 v) ≡ g (below y cs v))
            × ((cleanup_below cs).0 ≡ true → g (below y cs v) ≡ g (blank_entry blank))
      view_below-both nil y v = (refl, λ h. refl)
      view_below-both (null cs) zero v = (refl, λ h. refl)
      view_below-both (null cs) (suc y) v = view_below-both cs y v
      view_below-both (child c cs) zero v =
          let (same, empty) = view-both c v in
          elim (Bool-cases (cleanup c).0) [
            | inl gone ↦ rw gone (sym (empty gone), λ h. empty gone)
            | inr kept ↦ rw kept (same, λ h. cc)
          ]
      view_below-both (child c cs) (suc y) v =
          let both = view_below-both cs y v in
          elim (Bool-cases (cleanup c).0) [
            | inl gone ↦ rw gone both
            | inr kept ↦ rw kept (both.0, λ h. cc)
          ]

    pub view-cleanup :
        (n : Node A) (v : Word) → g (entry_at blank (cleanup n).1 v) ≡ g (entry_at blank n v)
    view-cleanup n v = (view-both n v).0

  -- No node is created.
  mutual
    unfolding cleanup slot

    exists_at-cleanup_lem :
        (n : Node A) (v : Word) → exists_at (cleanup n).1 v ≡ true → exists_at n v ≡ true
    exists_at-cleanup_lem (node l e cs) [] h = exists_at-nil (node l e cs)
    exists_at-cleanup_lem (node l e cs) (pos y ∷ v) h =
        exists_at-child l e cs y v
        ∙ exists_below-cleanup cs y v (sym (exists_at-child l e (cleanup_below cs).1 y v) ∙ h)
    exists_at-cleanup_lem (node l e cs) (negsuc y ∷ v) h =
        ground (arith, exists_at-negsuc (node l e (cleanup_below cs).1) y v)

    exists_below-cleanup :
        (cs : Slots A) (y : ℕ) (v : Word)
        → elim (slot y (cleanup_below cs).1) [ none ↦ false | some c ↦ exists_at c v ] ≡ true
        → elim (slot y cs) [ none ↦ false | some c ↦ exists_at c v ] ≡ true
    exists_below-cleanup nil y v h = cc
    exists_below-cleanup (null cs) zero v h = cc
    exists_below-cleanup (null cs) (suc y) v h = exists_below-cleanup cs y v h
    exists_below-cleanup (child c cs) zero v h = ground (arith, exists_at-cleanup_lem c v)
    exists_below-cleanup (child c cs) (suc y) v h = ground (arith, exists_below-cleanup cs y v)

  pub exists_at-cleanup :
      (n : Node A) (v : Word) → exists_at (cleanup n).1 v ≡ true → exists_at n v ≡ true
  exists_at-cleanup n v = exists_at-cleanup_lem n v
