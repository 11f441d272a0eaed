-- ===== src/Sets.antt =====
-- include/set.h (libalf/include/libalf/set.h is the same file), for sets of numbers. A std::set is
-- the list of its elements in ascending order.
pub mod Laws
pub mod Intersect
use libalf.Common.{
  ℕ, List, [], ◌∷◌, ◌++◌, Bool, true, false, ◌||◌, ◌&&◌, ◌==◌, ltb, leb, if◌then◌else◌, length, ◌<◌,
}

-- set::find
abbrev pub mem : ℕ → List ℕ → Bool
mem x [] = false
mem x (y ∷ s) = x == y || mem x s

-- set::insert
unfoldable pub insert : ℕ → List ℕ → List ℕ
insert x [] = x ∷ []
insert x (y ∷ s) = if x == y then y ∷ s else if ltb x y then x ∷ y ∷ s else y ∷ insert x s

-- The loop of set_includes: `superset` starts at Si and `subset` at si.
unfoldable pub includes_loop : List ℕ → List ℕ → Bool
includes_loop superset [] = true
includes_loop [] (x ∷ subset) = false
includes_loop (y ∷ superset) (x ∷ subset) = elim (x == y) [
  | true ↦ includes_loop (y ∷ superset) subset
  | false ↦ elim (ltb x y) [ true ↦ false | false ↦ includes_loop superset (x ∷ subset) ]
]

unfoldable pub set_includes : List ℕ → List ℕ → Bool
set_includes superset subset =
    if ltb (length superset) (length subset) then false else includes_loop superset subset

unfoldable pub set_union : List ℕ → List ℕ → List ℕ
set_union s [] = s
set_union s (x ∷ t) = set_union (insert x s) t

-- The loop of set_intersect over what is left of `s`, of which `n` is the size; it stops as soon
-- as the result is as large as one of the sets.
unfoldable pub intersect_loop : ℕ → List ℕ → List ℕ → List ℕ → List ℕ
intersect_loop n t ret [] = ret
intersect_loop n t ret (x ∷ s) =
    let ret' = if mem x t then insert x ret else ret in
    let rest = intersect_loop n t ret' s in
    if leb n (length ret') || leb (length t) (length ret') then ret' else rest

unfoldable pub set_intersect : List ℕ → List ℕ → List ℕ
set_intersect s t = intersect_loop (length s) t [] s

-- The loops of set_without. The elements come in ascending order, so insert appends.
unfoldable pub set_without : List ℕ → List ℕ → List ℕ
set_without [] remove = []
set_without (x ∷ s) [] = x ∷ set_without s []
set_without (x ∷ s) (y ∷ remove) = elim (ltb x y) [
  | true ↦ x ∷ set_without s (y ∷ remove)
  | false ↦ elim (x == y) [ true ↦ set_without s remove | false ↦ set_without (x ∷ s) remove ]
]

-- A list in ascending order: every element is below those behind it.
abbrev pub IsAbove : ℕ → List ℕ → Type 0
IsAbove x [] = Unit
IsAbove x (y ∷ s) = (x < y) × IsAbove x s

abbrev pub IsSorted : List ℕ → Type 0
IsSorted [] = Unit
IsSorted (x ∷ s) = IsAbove x s × IsSorted s
