-- ===== src/Sets/Laws.antt =====
-- set.h: the operations by membership. They walk two sets at once or stop early, and are right
-- because the elements ascend.
use libalf.Common.{
  ℕ, ◌≤◌, ◌<◌, ◌≡◌, refl, ◌↔◌, List, [], ◌∷◌, true, false, ◌||◌, ◌&&◌, not, ◌==◌, length, arith,
  ==_iff, Bool-cases, inl, inr,
}
use libalf.Sets.{
  mem, insert, includes_loop, set_includes, set_union, set_without, IsAbove, IsSorted,
}

pub IsAbove-trans : (x y : ℕ) (s : List ℕ) → x < y → IsAbove y s → IsAbove x s
IsAbove-trans x y [] h a = tt
IsAbove-trans x y (z ∷ s) h a = (omega arith, IsAbove-trans x y s h a.1)

pub mem-IsAbove : (x z : ℕ) (s : List ℕ) → IsAbove x s → mem z s ≡ true → x < z
mem-IsAbove x z [] a m = cc
mem-IsAbove x z (y ∷ s) a m = ground (arith, mem-IsAbove x z s)

-- What is not above the first element is not in the set.
not_mem-IsAbove : (x z : ℕ) (s : List ℕ) → IsAbove x s → z ≤ x → mem z s ≡ false
not_mem-IsAbove x z [] a le = refl
not_mem-IsAbove x z (y ∷ s) a le = ground (arith, not_mem-IsAbove x z s)

pub mem-insert : (z x : ℕ) (s : List ℕ) → mem z (insert x s) ≡ (z == x || mem z s)
unfolding insert
mem-insert z x [] = refl
mem-insert z x (y ∷ s) = ground (arith, mem-insert z x s)

IsAbove-insert : (y x : ℕ) (s : List ℕ) → y < x → IsAbove y s → IsAbove y (insert x s)
unfolding insert
IsAbove-insert y x [] h a = (h, tt)
IsAbove-insert y x (z ∷ s) h a = ground (arith, IsAbove-insert y x s)

pub insert-IsSorted : (x : ℕ) (s : List ℕ) → IsSorted s → IsSorted (insert x s)
unfolding insert
insert-IsSorted x [] h = (tt, tt)
insert-IsSorted x (y ∷ s) h =
    ground (arith, insert-IsSorted x s, IsAbove-insert y x s, IsAbove-trans x y s)

-- The elements of set_union are those of either set.
pub mem-set_union : (z : ℕ) (s t : List ℕ) → mem z (set_union s t) ≡ (mem z s || mem z t)
unfolding set_union
mem-set_union z s [] = ground arith
mem-set_union z s (x ∷ t) = ground (arith, mem-set_union z (insert x s) t, mem-insert z x s)

-- For two sets in ascending order the elements of set_without are those of the first set that are
-- not in the second.
mem-set_without :
    (z : ℕ) (s remove : List ℕ)
    → IsSorted s
    → IsSorted remove
    → mem z (set_without s remove) ≡ (mem z s && not (mem z remove))
unfolding set_without
mem-set_without z [] remove h k = refl
mem-set_without z (x ∷ s) [] h k = ground (arith, mem-set_without z s [])
mem-set_without z (x ∷ s) (y ∷ remove) h k = ground (
  arith,
  mem-set_without z s (y ∷ remove),
  mem-set_without z s remove,
  mem-set_without z (x ∷ s) remove,
  not_mem-IsAbove x z s,
  not_mem-IsAbove y z remove,
)

-- Every element of a list is in another.
abbrev pub IsSubset : List ℕ → List ℕ → Type 0
IsSubset [] t = Unit
IsSubset (x ∷ s) t = (mem x t ≡ true) × IsSubset s t

IsSubset-tail : (y : ℕ) (s t : List ℕ) → IsAbove y s → IsSubset s (y ∷ t) → IsSubset s t
IsSubset-tail y [] t a h = tt
IsSubset-tail y (x ∷ s) t a h = (ground arith, IsSubset-tail y s t a.1 h.1)

IsSubset-cons : (y : ℕ) (s t : List ℕ) → IsSubset s t → IsSubset s (y ∷ t)
IsSubset-cons y [] t h = tt
IsSubset-cons y (x ∷ s) t h = (ground arith, IsSubset-cons y s t h.1)

pub length-IsSubset : (s t : List ℕ) → IsSorted s → IsSorted t → IsSubset s t → length s ≤ length t
length-IsSubset [] t h k sub = omega arith
length-IsSubset (x ∷ s) [] h k sub = absurd (cc sub.0)
length-IsSubset (x ∷ s) (y ∷ t) h k sub = elim (Bool-cases (x == y)) [
  | inl same ↦ omega (
    arith,
    length-IsSubset s t h.1 k.1 (IsSubset-tail y s t (rw (← (==_iff x y).0 same) h.0) sub.1),
  )
  | inr other ↦
      let above : y < x = mem-IsAbove y x t k.0 (ground arith) in
      let rest = IsSubset-tail y (x ∷ s) t (above, IsAbove-trans y x s above h.0) sub in
      omega (arith, length-IsSubset (x ∷ s) t h k.1 rest)
]

includes_loop_iff :
    (t s : List ℕ) → IsSorted t → IsSorted s → (includes_loop t s ≡ true) ↔ IsSubset s t
unfolding includes_loop
includes_loop_iff [] [] k h = (λ _. tt, λ _. refl)
includes_loop_iff (y ∷ t) [] k h = (λ _. tt, λ _. refl)
includes_loop_iff [] (x ∷ s) k h = (λ e. cc, λ sub. cc sub.0)
includes_loop_iff (y ∷ t) (x ∷ s) k h = ground (
  arith,
  includes_loop_iff (y ∷ t) s k h.1,
  includes_loop_iff t (x ∷ s) k.1 h,
  not_mem-IsAbove y x t,
  IsAbove-trans y x s,
  IsSubset-tail y (x ∷ s) t,
  IsSubset-cons y s t,
)

-- For two sets in ascending order set_includes says whether every element of the second is in the
-- first.
set_includes_iff :
    (superset subset : List ℕ)
    → IsSorted superset
    → IsSorted subset
    → (set_includes superset subset ≡ true) ↔ IsSubset subset superset
unfolding set_includes
set_includes_iff t s k h = ground (arith, includes_loop_iff t s k h, length-IsSubset s t h k)
