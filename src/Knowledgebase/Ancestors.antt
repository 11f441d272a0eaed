-- ===== src/Knowledgebase/Ancestors.antt =====
-- knowledgebase.h, class node: get_parent, is_prefix_of and is_suffix_of, which follow the parent
-- pointers.
use libalf.Common.{
  ℕ, zero, suc, ◌≤◌, ◌≡◌, refl, sym, ap, ◌∙◌, Bool, false, ◌||◌, Option, none, some, [], ◌∷◌, ℤ,
  length, Word, word_eq, is_prefix, arith,
}

-- The parent pointer, which is NULL at the root.
unfoldable pub get_parent : Word → Option Word
get_parent [] = none
get_parent (x ∷ []) = some []
get_parent (x ∷ y ∷ w) = elim (get_parent (y ∷ w)) [ none ↦ none | some p ↦ some (x ∷ p) ]

-- The loop of is_prefix_of. A word has as many ancestors as symbols.
unfoldable pub ancestor_loop : ℕ → Word → Word → Bool
ancestor_loop zero v other = word_eq v other
ancestor_loop (suc fuel) v other =
    word_eq v other || elim (get_parent other) [ none ↦ false | some p ↦ ancestor_loop fuel v p ]

unfoldable pub is_prefix_of : Word → Word → Bool
is_prefix_of v other = ancestor_loop (length other) v other

unfoldable pub is_suffix_of : Word → Word → Bool
is_suffix_of v other = is_prefix_of other v

parent-cons : (x : ℤ) (w p : Word) → get_parent w ≡ some p → get_parent (x ∷ w) ≡ some (x ∷ p)
unfolding get_parent
parent-cons x [] p e = cc
parent-cons x (y ∷ w) p e = rw e refl

-- Every word but the empty one has a parent, which is one symbol shorter.
parent_lem : (x : ℤ) (w : Word) → (p : Word) × (get_parent (x ∷ w) ≡ some p) × (length p ≡ length w)
unfolding get_parent
parent_lem x [] = ([], refl, refl)
parent_lem x (y ∷ w) = let (p, e, n) = parent_lem y w in (x ∷ p, rw e refl, omega (arith, n))

is_prefix-nil : (v : Word) → is_prefix v [] ≡ word_eq v []
is_prefix-nil [] = refl
is_prefix-nil (x ∷ v) = refl

-- The prefixes of a word are itself and the prefixes of its parent.
is_prefix-parent :
    (v : Word) (x : ℤ) (w p : Word)
    → get_parent (x ∷ w) ≡ some p
    → is_prefix v (x ∷ w) ≡ (word_eq v (x ∷ w) || is_prefix v p)
unfolding get_parent
is_prefix-parent [] x [] p e = ground arith
is_prefix-parent [] x (y ∷ w) p e = ground arith
is_prefix-parent (z ∷ v) x [] p e = ground (arith, is_prefix-nil v)
is_prefix-parent (z ∷ v) x (y ∷ w) p e =
    let (q, up, n) = parent_lem y w in
    let same : p ≡ x ∷ q = ground (arith, e, parent-cons x (y ∷ w) q up) in
    rw same (ground (arith, is_prefix-parent v y w q up))

parent-root : get_parent [] ≡ none
unfolding get_parent
parent-root = refl

ancestor_loop_lem :
    (fuel : ℕ) (v other : Word)
    → length other ≤ fuel
    → ancestor_loop fuel v other ≡ is_prefix v other
unfolding ancestor_loop
ancestor_loop_lem zero v [] le = sym (is_prefix-nil v)
ancestor_loop_lem zero v (x ∷ w) le = absurd (omega arith)
ancestor_loop_lem (suc fuel) v [] le = ground (arith, is_prefix-nil v, parent-root)
ancestor_loop_lem (suc fuel) v (x ∷ w) le =
    let (p, e, n) = parent_lem x w in
    rw e (
      ap (λ b. word_eq v (x ∷ w) || b) (ancestor_loop_lem fuel v p (omega (arith, n)))
      ∙ sym (is_prefix-parent v x w p e))

-- is_prefix_of, which follows parent pointers from the other node to the root, says whether the
-- word of this node is a prefix of the word of the other, and is_suffix_of says it with the nodes
-- swapped.
pub is_prefix_of_lem :
    (v w : Word) → (is_prefix_of v w ≡ is_prefix v w) × (is_suffix_of v w ≡ is_prefix w v)
unfolding is_prefix_of is_suffix_of
is_prefix_of_lem v w =
    (ancestor_loop_lem (length w) v w (omega arith), ancestor_loop_lem (length v) w v (omega arith))
