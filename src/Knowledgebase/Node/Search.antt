-- ===== src/Knowledgebase/Node/Search.antt =====
-- knowledgebase.h: the recursive searches of a node's subtree (has_specific_suffix, no_subqueries,
-- different, recursive_different) decide statements about the words below it.
use libalf.Common.{
  ℕ, zero, suc, ◌≡◌, refl, sym, ap, ◌∙◌, ◌↔◌, true, false, [], ◌∷◌, ℤ, pos, negsuc, pred_ℤ, Word,
  arith, inl, inr, if◌then◌else◌, Bool-cases, Bool, ◌&&◌, ◌||◌, not, eq_ℤ, ltb_ℤ,
}
use libalf.Knowledgebase.Node.{
  Node, node, Slots, nil, null, child, Entry, node_required, node_answered, slot, blank_entry,
  entry_at, children_of, entry_of,
}
use libalf.Knowledgebase.Node.Lookup.{entry_at-nil, entry_at-negsuc}
use libalf.Knowledgebase.Node.Cleanup.{below, entry_at-slot}

-- The loop over a subtree that returns true at the first node whose entry passes a test.
module _ {A : Type 0} (p : Entry A → Bool) where
  mutual
    pub any_entry : Node A → Bool
    any_entry (node l e cs) = p e || any_below cs

    pub any_below : Slots A → Bool
    any_below nil = false
    any_below (null cs) = any_below cs
    any_below (child c cs) = any_entry c || any_below cs

  module _ (blank : A) (nothing : p (blank_entry blank) ≡ false) where
    mutual
      unfolding any_entry slot

      any_entry_complete_lem :
          (n : Node A) (v : Word) → p (entry_at blank n v) ≡ true → any_entry n ≡ true
      any_entry_complete_lem (node l e cs) [] h = ground (arith, entry_at-nil blank (node l e cs))
      any_entry_complete_lem (node l e cs) (pos x ∷ v) h =
          ground
            (arith, any_below_complete cs x v (sym (ap p (entry_at-slot blank l e cs x v)) ∙ h))
      any_entry_complete_lem (node l e cs) (negsuc x ∷ v) h =
          ground (arith, entry_at-negsuc blank (node l e cs) x v)

      any_below_complete :
          (cs : Slots A) (x : ℕ) (v : Word) → p (below blank x cs v) ≡ true → any_below cs ≡ true
      any_below_complete nil x v h = ground arith
      any_below_complete (null cs) zero v h = ground arith
      any_below_complete (null cs) (suc x) v h = any_below_complete cs x v h
      any_below_complete (child c cs) zero v h = ground (arith, any_entry_complete_lem c v h)
      any_below_complete (child c cs) (suc x) v h = ground (arith, any_below_complete cs x v h)

    pub any_entry_complete :
        (n : Node A) (v : Word) → p (entry_at blank n v) ≡ true → any_entry n ≡ true
    any_entry_complete n v h = any_entry_complete_lem n v h

    mutual
      unfolding any_entry slot

      any_entry_sound_lem :
          (n : Node A) → any_entry n ≡ true → (v : Word) × (p (entry_at blank n v) ≡ true)
      any_entry_sound_lem (node l e cs) h = elim (Bool-cases (p e)) [
        | inl here ↦ ([], ap p (entry_at-nil blank (node l e cs)) ∙ here)
        | inr not_here ↦
            let (x, v, h') = any_below_sound cs (ground arith) in
            (pos x ∷ v, ap p (entry_at-slot blank l e cs x v) ∙ h')
      ]

      any_below_sound :
          (cs : Slots A)
          → any_below cs ≡ true
          → (x : ℕ) × (v : Word) × (p (below blank x cs v) ≡ true)
      any_below_sound nil h = cc
      any_below_sound (null cs) h = let (x, v, h') = any_below_sound cs h in (suc x, v, h')
      any_below_sound (child c cs) h = elim (Bool-cases (any_entry c)) [
        | inl here ↦ let (v, h') = any_entry_sound_lem c here in (zero, v, h')
        | inr not_here ↦ let (x, v, h') = any_below_sound cs (ground arith) in (suc x, v, h')
      ]

    pub any_entry_sound :
        (n : Node A) → any_entry n ≡ true → (v : Word) × (p (entry_at blank n v) ≡ true)
    any_entry_sound n h = any_entry_sound_lem n h

abbrev pub is_required_entry : {A : Type 0} → Entry A → Bool
is_required_entry e = elim e.status [ node_required ↦ true | _ ↦ false ]

abbrev pub answers_with : {A : Type 0} → (A → A → Bool) → A → Entry A → Bool
answers_with same a e = elim e.status [ node_answered ↦ same e.ans a | _ ↦ false ]

-- node::has_specific_suffix and node::no_subqueries
unfoldable pub has_specific_suffix : {A : Type 0} → (A → A → Bool) → A → Node A → Bool
has_specific_suffix same a n = any_entry (answers_with same a) n

unfoldable pub no_subqueries : {A : Type 0} → Bool → Node A → Bool
no_subqueries check_self n =
    if check_self && is_required_entry (entry_of n)
    then false
    else not (any_below is_required_entry (children_of n))

module _ {A : Type 0} (blank : A) (same : A → A → Bool) where
  -- has_specific_suffix says whether some word below the node, itself included, has the answer.
  has_specific_suffix_iff :
      (a : A) (n : Node A)
      → (has_specific_suffix same a n ≡ true)
        ↔ ((v : Word) × (answers_with same a (entry_at blank n v) ≡ true))
  unfolding has_specific_suffix
  has_specific_suffix_iff a n = (
    any_entry_sound (answers_with same a) blank refl n,
    λ (v, h). any_entry_complete (answers_with same a) blank refl n v h,
  )

  -- no_subqueries with check_self says whether no word below the node, itself included, is
  -- required.
  no_subqueries_iff :
      (n : Node A)
      → (no_subqueries true n ≡ true)
        ↔ ((v : Word) → is_required_entry (entry_at blank n v) ≡ false)
  unfolding no_subqueries any_entry
  no_subqueries_iff (node l e cs) = (
    λ h v. elim (Bool-cases (is_required_entry (entry_at blank (node l e cs) v))) [
      | inr absent ↦ absent
      | inl found ↦
          let any = any_entry_complete is_required_entry blank refl (node l e cs) v found in
          ground arith
    ],
    λ all. elim (Bool-cases (any_entry is_required_entry (node l e cs))) [
      | inr absent ↦ ground arith
      | inl found ↦
          let (v, h) = any_entry_sound is_required_entry blank refl (node l e cs) found in
          ground (arith, all v)
    ],
  )

-- node::different; `differs` is operator!= of the answer type.
module _ {A : Type 0} (differs : A → A → Bool) where
  abbrev pub different : Entry A → Entry A → Bool
  different e d = elim e.status [
    | node_answered ↦ elim d.status [ node_answered ↦ differs e.ans d.ans | _ ↦ false ]
    | _ ↦ false
  ]

  -- `depth > 0 ? depth-1 : -1`
  abbrev pub next_depth : ℤ → ℤ
  next_depth depth = if ltb_ℤ (pos 0) depth then pred_ℤ depth else negsuc 0

  unfoldable mutual
    pub recursive_different : Node A → Node A → ℤ → Bool
    recursive_different (node l e cs) (node k d ds) depth =
        different e d
        || (if eq_ℤ depth (pos 0) then false else different_below cs ds (next_depth depth))

    pub different_below : Slots A → Slots A → ℤ → Bool
    different_below nil ds depth = false
    different_below (null cs) nil depth = false
    different_below (null cs) (null ds) depth = different_below cs ds depth
    different_below (null cs) (child d ds) depth = different_below cs ds depth
    different_below (child c cs) nil depth = false
    different_below (child c cs) (null ds) depth = different_below cs ds depth
    different_below (child c cs) (child d ds) depth =
        recursive_different c d depth || different_below cs ds depth

  module _ (blank : A) where
    abbrev pub differ_at : Node A → Node A → Word → Bool
    differ_at n m v = different (entry_at blank n v) (entry_at blank m v)

    abbrev differ_below : Slots A → Slots A → ℕ → Word → Bool
    differ_below cs ds x v = different (below blank x cs v) (below blank x ds v)

    different-blank : (e : Entry A) → different e (blank_entry blank) ≡ false
    different-blank e = ground arith

    mutual
      unfolding recursive_different slot

      different_complete :
          (n m : Node A) (v : Word)
          → differ_at n m v ≡ true
          → recursive_different n m (negsuc 0) ≡ true
      different_complete (node l e cs) (node k d ds) [] h =
          ground (arith, entry_at-nil blank (node l e cs), entry_at-nil blank (node k d ds))
      different_complete (node l e cs) (node k d ds) (pos x ∷ v) h = ground (
        arith,
        entry_at-slot blank l e cs x v,
        entry_at-slot blank k d ds x v,
        different_below_complete cs ds x v,
      )
      different_complete (node l e cs) (node k d ds) (negsuc x ∷ v) h =
          ground (arith, entry_at-negsuc blank (node l e cs) x v)

      different_below_complete :
          (cs ds : Slots A) (x : ℕ) (v : Word)
          → differ_below cs ds x v ≡ true
          → different_below cs ds (negsuc 0) ≡ true
      different_below_complete nil ds x v h = cc
      different_below_complete (null cs) nil x v h =
          ground (arith, different-blank (below blank x (null cs) v))
      different_below_complete (null cs) (null ds) zero v h = cc
      different_below_complete (null cs) (null ds) (suc x) v h =
          different_below_complete cs ds x v h
      different_below_complete (null cs) (child d ds) zero v h = cc
      different_below_complete (null cs) (child d ds) (suc x) v h =
          different_below_complete cs ds x v h
      different_below_complete (child c cs) nil x v h =
          ground (arith, different-blank (below blank x (child c cs) v))
      different_below_complete (child c cs) (null ds) zero v h =
          ground (arith, different-blank (entry_at blank c v))
      different_below_complete (child c cs) (null ds) (suc x) v h =
          different_below_complete cs ds x v h
      different_below_complete (child c cs) (child d ds) zero v h =
          ground (arith, different_complete c d v h)
      different_below_complete (child c cs) (child d ds) (suc x) v h =
          ground (arith, different_below_complete cs ds x v h)

    mutual
      unfolding recursive_different slot

      different_sound :
          (n m : Node A)
          → recursive_different n m (negsuc 0) ≡ true
          → (v : Word) × (differ_at n m v ≡ true)
      different_sound (node l e cs) (node k d ds) h = elim (Bool-cases (different e d)) [
        | inl here ↦
            ([], ground (arith, entry_at-nil blank (node l e cs), entry_at-nil blank (node k d ds)))
        | inr not_here ↦
            let (x, v, h') = different_below_sound cs ds (ground arith) in
            (
              pos x ∷ v,
              ground (arith, entry_at-slot blank l e cs x v, entry_at-slot blank k d ds x v),
            )
      ]

      different_below_sound :
          (cs ds : Slots A)
          → different_below cs ds (negsuc 0) ≡ true
          → (x : ℕ) × (v : Word) × (differ_below cs ds x v ≡ true)
      different_below_sound nil ds h = cc
      different_below_sound (null cs) nil h = cc
      different_below_sound (null cs) (null ds) h =
          let (x, v, h') = different_below_sound cs ds h in (suc x, v, h')
      different_below_sound (null cs) (child d ds) h =
          let (x, v, h') = different_below_sound cs ds h in (suc x, v, h')
      different_below_sound (child c cs) nil h = cc
      different_below_sound (child c cs) (null ds) h =
          let (x, v, h') = different_below_sound cs ds h in (suc x, v, h')
      different_below_sound (child c cs) (child d ds) h =
          elim (Bool-cases (recursive_different c d (negsuc 0))) [
            | inl here ↦ let (v, h') = different_sound c d here in (zero, v, h')
            | inr not_here ↦
                let (x, v, h') = different_below_sound cs ds (ground arith) in (suc x, v, h')
          ]

    -- Without a bound on the depth recursive_different says whether some word has answers in both
    -- trees that differ by the answer type's comparison.
    pub recursive_different_iff :
        (n m : Node A)
        → (recursive_different n m (negsuc 0) ≡ true) ↔ ((v : Word) × (differ_at n m v ≡ true))
    recursive_different_iff n m = (different_sound n m, λ (v, h). different_complete n m v h)
