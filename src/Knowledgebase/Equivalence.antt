-- ===== src/Knowledgebase/Equivalence.antt =====
-- knowledgebase.h, class equivalence_relation: a std::multimap from nodes to nodes. It is the list
-- of its pairs in the order of iteration, where the pairs with one key stand together. The order
-- of the representatives (lexicographic, graded, by address) is a parameter.
use libalf.Common.{
  ◌≡◌, ◌↔◌, refl, sym, subst, ◌∙◌, Bool, true, false, ◌||◌, ◌&&◌, Option, none, some, List, [], ◌∷◌,
  if◌then◌else◌, Word, word_eq, word_eq_iff, word_eq_refl, contains, arith, Bool-cases, inl, inr,
}
use libalf.Alphabet.{IsOrder}

abbrev pub Relation : Type 0
Relation = List (Word × Word)

-- equal_range: the second components of the pairs with a key.
unfoldable pub equal_range : Relation → Word → List Word
equal_range [] n = []
equal_range ((k, v) ∷ eq) n = if word_eq k n then v ∷ equal_range eq n else equal_range eq n

-- std::set::insert, where only membership matters.
abbrev pub insert : Word → List Word → List Word
insert w ws = if contains w ws then ws else w ∷ ws

unfoldable pub class_loop : List Word → List Word → List Word
class_loop ret [] = ret
class_loop ret (w ∷ ws) = class_loop (insert w ret) ws

unfoldable pub get_equivalence_class : Relation → Word → List Word
get_equivalence_class eq n = class_loop [] (equal_range eq n)

unfoldable pub equivalent_loop : Word → List Word → Bool
equivalent_loop b [] = false
equivalent_loop b (w ∷ ws) = if word_eq w b then true else equivalent_loop b ws

unfoldable pub are_equivalent : Relation → Word → Word → Bool
are_equivalent eq a b = equivalent_loop b (equal_range eq a)

abbrev pub nonempty : List Word → Bool
nonempty [] = false
nonempty (w ∷ ws) = true

nonempty-of_contains : (n : Word) (ws : List Word) → contains n ws ≡ true → nonempty ws ≡ true
nonempty-of_contains n [] h = cc
nonempty-of_contains n (w ∷ ws) h = refl

abbrev pub is_done : Word → Option Word → Bool
is_done k none = false
is_done k (some d) = word_eq k d

module _ (smaller : Word → Word → Bool) where
  -- representative_lex, representative_graded_lex and representative_ptr; `none` is NULL.
  unfoldable pub representative_loop : Word → List Word → Word
  representative_loop current_rep [] = current_rep
  representative_loop current_rep (w ∷ ws) =
      representative_loop (if smaller w current_rep then w else current_rep) ws

  abbrev pub representative_of : List Word → Option Word
  representative_of [] = none
  representative_of (w ∷ ws) = some (representative_loop w ws)

  unfoldable pub representative : Relation → Word → Option Word
  representative eq n = representative_of (equal_range eq n)

  -- is_representative_lex and so on.
  unfoldable pub none_smaller : Word → List Word → Bool
  none_smaller n [] = true
  none_smaller n (w ∷ ws) = if smaller w n then false else none_smaller n ws

  unfoldable pub is_representative : Relation → Word → Bool
  is_representative eq n =
      if nonempty (equal_range eq n) then none_smaller n (equal_range eq n) else false

  -- representatives_lex and so on: `last_key` is the key whose representative was taken last.
  unfoldable pub representatives_loop : Relation → Relation → Option Word → List (Option Word)
  representatives_loop eq [] last_key = []
  representatives_loop eq ((k, v) ∷ rest) last_key =
      let more = representatives_loop eq rest (some k) in
      if is_done k last_key then more else representative eq k ∷ more

  module _ (order : IsOrder smaller) where
    taken :
        (r w : Word) (ws : List Word)
        → smaller w r ≡ true
        → representative_loop r (w ∷ ws) ≡ representative_loop w ws
    unfolding representative_loop
    taken r w ws e = rw (e, representative_loop)

    kept :
        (r w : Word) (ws : List Word)
        → smaller w r ≡ false
        → representative_loop r (w ∷ ws) ≡ representative_loop r ws
    unfolding representative_loop
    kept r w ws e = rw (e, representative_loop)

    alone : (r : Word) → representative_loop r [] ≡ r
    unfolding representative_loop
    alone r = refl

    -- `m` is one of the words, and `u` is not smaller if it is one too.
    abbrev IsLeast : Word → List Word → Word → Type 0
    IsLeast m ws u = (contains m ws ≡ true) × (contains u ws ≡ true → smaller u m ≡ false)

    IsLeast-taken :
        (r w m u : Word) (ws : List Word)
        → smaller w r ≡ true
        → IsLeast m (w ∷ ws) u
        → IsLeast m (w ∷ ws) w
        → IsLeast m (r ∷ w ∷ ws) u
    IsLeast-taken r w m u ws e h k =
        ground (arith, word_eq_refl w, word_eq_iff u r, word_eq_iff u w, order.transitive w r m)

    IsLeast-kept :
        (r w m u : Word) (ws : List Word)
        → smaller w r ≡ false
        → IsLeast m (r ∷ ws) u
        → IsLeast m (r ∷ ws) r
        → IsLeast m (r ∷ w ∷ ws) u
    IsLeast-kept r w m u ws e h k = ground (
      arith,
      word_eq_refl r,
      word_eq_iff u r,
      word_eq_iff u w,
      word_eq_iff r m,
      order.total r m,
      order.transitive w m r,
    )

    -- The loop returns one of the words, and none of them is smaller.
    loop_lem :
        (r : Word) (ws : List Word) (u : Word) → IsLeast (representative_loop r ws) (r ∷ ws) u
    loop_lem r [] u =
        rw (alone r) (ground (arith, word_eq_refl r, word_eq_iff u r, order.irreflexive r))
    loop_lem r (w ∷ ws) u = elim (Bool-cases (smaller w r)) [
      | inl e ↦
          subst (λ m. IsLeast m (r ∷ w ∷ ws) u) (sym (taken r w ws e))
            (IsLeast-taken r w (representative_loop w ws) u ws e (loop_lem w ws u)
              (loop_lem w ws w))
      | inr e ↦
          subst (λ m. IsLeast m (r ∷ w ∷ ws) u) (sym (kept r w ws e))
            (IsLeast-kept r w (representative_loop r ws) u ws e (loop_lem r ws u) (loop_lem r ws r))
    ]

    none_smaller_iff :
        (n : Word) (ws : List Word)
        → (none_smaller n ws ≡ true) ↔ ((u : Word) → contains u ws ≡ true → smaller u n ≡ false)
    unfolding none_smaller
    none_smaller_iff n [] = (λ h u c. cc, λ h. refl)
    none_smaller_iff n (w ∷ ws) = (
      λ h u c. ground (
        arith,
        word_eq_iff u w,
        (none_smaller_iff n ws).0,
        λ (k : none_smaller n ws ≡ true). (none_smaller_iff n ws).0 k u,
      ),
      λ h.
          ground
            (arith, h w, word_eq_refl w, (none_smaller_iff n ws).1 (λ u c. h u (ground arith))),
    )

    least_of :
        (r : Word) (ws : List Word)
        → representative_of ws ≡ some r
        → (contains r ws ≡ true) × ((u : Word) → contains u ws ≡ true → smaller u r ≡ false)
    least_of r [] e = cc
    least_of r (w ∷ ws) e =
        let q : representative_loop w ws ≡ r = ground arith in
        (
          subst (λ m. contains m (w ∷ ws) ≡ true) q (loop_lem w ws w).0,
          λ u. subst (λ m. contains u (w ∷ ws) ≡ true → smaller u m ≡ false) q (loop_lem w ws u).1,
        )

    none_smaller-least :
        (n : Word) (ws : List Word)
        → contains n ws ≡ true
        → none_smaller n ws ≡ true
        → representative_of ws ≡ some n
    none_smaller-least n [] own h = cc
    none_smaller-least n (w ∷ ws) own h =
        let m = representative_loop w ws in
        let inside = (loop_lem w ws n).0 in
        let above = (loop_lem w ws n).1 own in
        let below = (none_smaller_iff n (w ∷ ws)).0 h m inside in
        ground (arith, order.total n m, word_eq_iff n m)

    -- For a strict total order, the representative that is returned for a node is in the class of
    -- the node, and no node of that class is smaller.
    representative_lem :
        (eq : Relation) (n r : Word)
        → representative eq n ≡ some r
        → (contains r (equal_range eq n) ≡ true)
          × ((u : Word) → contains u (equal_range eq n) ≡ true → smaller u r ≡ false)
    unfolding representative
    representative_lem eq n r h = least_of r (equal_range eq n) h

    -- For a strict total order and a node that is in its own class, is_representative says
    -- whether the node is the representative of its class.
    pub is_representative_iff :
        (eq : Relation) (n : Word)
        → contains n (equal_range eq n) ≡ true
        → (is_representative eq n ≡ true) ↔ (representative eq n ≡ some n)
    unfolding is_representative representative
    is_representative_iff eq n own = (
      λ h. none_smaller-least n (equal_range eq n) own (ground arith),
      λ h.
          let least = (none_smaller_iff n (equal_range eq n)).1 (representative_lem eq n n h).1 in
          let some_node = nonempty-of_contains n (equal_range eq n) own in ground arith,
    )

class_loop-contains :
    (b : Word) (ret ws : List Word)
    → contains b (class_loop ret ws) ≡ (contains b ret || contains b ws)
unfolding class_loop
class_loop-contains b ret [] = ground arith
class_loop-contains b ret (w ∷ ws) =
    ground (arith, class_loop-contains b (insert w ret) ws, word_eq_iff b w)

equivalent_loop-contains : (b : Word) (ws : List Word) → equivalent_loop b ws ≡ contains b ws
unfolding equivalent_loop
equivalent_loop-contains b [] = refl
equivalent_loop-contains b (w ∷ ws) =
    ground (arith, equivalent_loop-contains b ws, word_eq_iff w b, word_eq_iff b w)

pub holds : Relation → Word → Word → Bool
holds [] a b = false
holds ((k, v) ∷ eq) a b = word_eq k a && word_eq b v || holds eq a b

equal_range-contains : (eq : Relation) (a b : Word) → contains b (equal_range eq a) ≡ holds eq a b
unfolding equal_range holds
equal_range-contains [] a b = refl
equal_range-contains ((k, v) ∷ eq) a b = ground (arith, equal_range-contains eq a b)

-- are_equivalent and membership in get_equivalence_class both say whether the multimap holds the
-- pair.
are_equivalent_lem :
    (eq : Relation) (a b : Word)
    → (are_equivalent eq a b ≡ holds eq a b)
      × (contains b (get_equivalence_class eq a) ≡ holds eq a b)
unfolding are_equivalent get_equivalence_class
are_equivalent_lem eq a b = (
  equivalent_loop-contains b (equal_range eq a) ∙ equal_range-contains eq a b,
  class_loop-contains b [] (equal_range eq a) ∙ equal_range-contains eq a b,
)
