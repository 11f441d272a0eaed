-- ===== src/Sets/Intersect.antt =====
-- set.h, set_intersect: to stop as soon as the result is as large as one of the sets loses nothing.
use libalf.Common.{
  ℕ, suc, ◌+◌, ◌≤◌, ◌≡◌, refl, List, [], ◌∷◌, true, false, ◌||◌, ◌&&◌, length, arith, ==_iff,
  Bool-cases, inl, inr,
}
use libalf.Sets.{mem, insert, intersect_loop, set_intersect, IsAbove, IsSorted}
use libalf.Sets.Laws.{mem-IsAbove, mem-insert, insert-IsSorted, IsSubset, length-IsSubset}

-- Every element of the first list is below every element of the second.
abbrev IsBelow : List ℕ → List ℕ → Type 0
IsBelow [] s = Unit
IsBelow (x ∷ r) s = IsAbove x s × IsBelow r s

IsBelow-tail : (x : ℕ) (r s : List ℕ) → IsBelow r (x ∷ s) → IsBelow r s
IsBelow-tail x [] s h = tt
IsBelow-tail x (y ∷ r) s h = (h.0.1, IsBelow-tail x r s h.1)

IsBelow-insert : (x : ℕ) (r s : List ℕ) → IsAbove x s → IsBelow r s → IsBelow (insert x r) s
unfolding insert
IsBelow-insert x [] s a h = (a, tt)
IsBelow-insert x (y ∷ r) s a h = ground (arith, IsBelow-insert x r s)

not_mem-IsBelow : (z : ℕ) (r s : List ℕ) → IsBelow r s → mem z s ≡ true → mem z r ≡ false
not_mem-IsBelow z [] s h m = refl
not_mem-IsBelow z (x ∷ r) s h m =
    ground (arith, mem-IsAbove x z s h.0 m, not_mem-IsBelow z r s h.1 m)

length-insert : (x : ℕ) (s : List ℕ) → mem x s ≡ false → length (insert x s) ≡ suc (length s)
unfolding insert
length-insert x [] h = refl
length-insert x (y ∷ s) h = ground (arith, length-insert x s)

IsSubset-insert : (x : ℕ) (r t : List ℕ) → mem x t ≡ true → IsSubset r t → IsSubset (insert x r) t
unfolding insert
IsSubset-insert x [] t m h = (m, tt)
IsSubset-insert x (y ∷ r) t m h = ground (arith, IsSubset-insert x r t)

-- A result that is as large as `t` and lies in it leaves nothing of `t` behind it.
full :
    (z : ℕ) (r s t : List ℕ)
    → IsSorted r
    → IsSorted t
    → IsSubset r t
    → IsBelow r s
    → length t ≤ length r
    → mem z s ≡ true
    → mem z t ≡ false
full z r s t h k sub below le m = elim (Bool-cases (mem z t)) [
  | inr absent ↦ absent
  | inl also ↦
      let bigger = length-insert z r (not_mem-IsBelow z r s below m) in
      absurd (
        omega (
          arith,
          bigger,
          length-IsSubset (insert z r) t (insert-IsSorted z r h) k (IsSubset-insert z r t also sub),
        ))
]

mem-nil-of_length : (z : ℕ) (s : List ℕ) → length s ≤ 0 → mem z s ≡ false
mem-nil-of_length z [] h = refl
mem-nil-of_length z (x ∷ s) h = absurd (omega arith)

module _ (n z : ℕ) (t : List ℕ) (k : IsSorted t) where
  mem-intersect_loop :
      (r s : List ℕ)
      → IsSorted r
      → IsSorted s
      → IsSubset r t
      → IsBelow r s
      → length r + length s ≤ n
      → mem z (intersect_loop n t r s) ≡ (mem z r || mem z s && mem z t)
  unfolding intersect_loop
  mem-intersect_loop r [] hr hs sub below le = ground arith
  mem-intersect_loop r (x ∷ s) hr hs sub below le = elim (Bool-cases (mem x t)) [
    | inl also ↦
        let fresh = not_mem-IsBelow x r (x ∷ s) below (ground (arith, ==_iff x x)) in
        let r' = insert x r in
        let hr' = insert-IsSorted x r hr in
        let sub' = IsSubset-insert x r t also sub in
        let below' = IsBelow-insert x r s hs.0 (IsBelow-tail x r s below) in
        let grown = length-insert x r fresh in
        rw (also, intersect_loop)
          (ground (
            arith,
            mem-intersect_loop r' s hr' hs.1 sub' below',
            mem-insert z x r,
            full z r' s t hr' k sub' below',
            mem-nil-of_length z s,
            grown,
          ))
    | inr not_in ↦
        let below' = IsBelow-tail x r s below in
        rw (not_in, intersect_loop)
          (ground (
            arith,
            mem-intersect_loop r s hr hs.1 sub below',
            full z r s t hr k sub below',
            mem-nil-of_length z s,
          ))
  ]

-- For two sets in ascending order the elements of set_intersect are those that both sets have,
-- although the loop stops as soon as the result is as large as one of the sets.
mem-set_intersect :
    (z : ℕ) (s t : List ℕ)
    → IsSorted s
    → IsSorted t
    → mem z (set_intersect s t) ≡ (mem z s && mem z t)
unfolding set_intersect
mem-set_intersect z s t h k = mem-intersect_loop (length s) z t k [] s tt h tt tt (omega arith)
