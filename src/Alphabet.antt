-- ===== src/Alphabet.antt =====
-- libalf/src/alphabet.cpp: the orders on words.
use libalf.Common.{
  ◌≡◌, refl, Bool, true, false, ◌&&◌, ◌||◌, [], ◌∷◌, ◌==◌, ltb, if◌then◌else◌, ltb_ℤ, eq_ℤ,
  eq_ℤ_iff, length, Word, word_eq, arith,
}

-- The loop runs while both words last.
unfoldable pub is_lex_smaller : Word → Word → Bool
is_lex_smaller [] [] = false
is_lex_smaller [] (y ∷ b) = true
is_lex_smaller (x ∷ a) [] = false
is_lex_smaller (x ∷ a) (y ∷ b) = if eq_ℤ x y then is_lex_smaller a b else ltb_ℤ x y

-- The variable `cmp`, which is -1, 0 or 1.
pub data Comparison : Type 0 where
  less same greater : Comparison

unfoldable pub graded_loop : Comparison → Word → Word → Bool
graded_loop less [] [] = true
graded_loop same [] [] = false
graded_loop greater [] [] = false
graded_loop cmp [] (y ∷ b) = true
graded_loop cmp (x ∷ a) [] = false
graded_loop cmp (x ∷ a) (y ∷ b) =
    graded_loop
      (elim cmp [
        | same ↦ if ltb_ℤ x y then less else if ltb_ℤ y x then greater else same
        | less ↦ less
        | greater ↦ greater
      ])
      a b

unfoldable pub is_graded_lex_smaller : Word → Word → Bool
is_graded_lex_smaller a b = graded_loop same a b

lex-irreflexive : (a : Word) → is_lex_smaller a a ≡ false
unfolding is_lex_smaller
lex-irreflexive [] = refl
lex-irreflexive (x ∷ a) = ground (arith, lex-irreflexive a)

lex-transitive :
    (a b c : Word)
    → is_lex_smaller a b ≡ true
    → is_lex_smaller b c ≡ true
    → is_lex_smaller a c ≡ true
unfolding is_lex_smaller
lex-transitive [] [] [] h k = cc
lex-transitive [] [] (z ∷ c) h k = cc
lex-transitive [] (y ∷ b) [] h k = cc
lex-transitive [] (y ∷ b) (z ∷ c) h k = refl
lex-transitive (x ∷ a) [] c h k = cc
lex-transitive (x ∷ a) (y ∷ b) [] h k = cc
lex-transitive (x ∷ a) (y ∷ b) (z ∷ c) h k =
    ground (arith, lex-transitive a b c, eq_ℤ_iff x y, eq_ℤ_iff y z, eq_ℤ_iff x z)

lex-total : (a b : Word) → (is_lex_smaller a b || (is_lex_smaller b a || word_eq a b)) ≡ true
unfolding is_lex_smaller
lex-total [] [] = refl
lex-total [] (y ∷ b) = refl
lex-total (x ∷ a) [] = refl
lex-total (x ∷ a) (y ∷ b) = ground (arith, lex-total a b, eq_ℤ_iff x y, eq_ℤ_iff y x)

graded_loop-less :
    (a b : Word)
    → (graded_loop less a b ≡ (ltb (length a) (length b) || length a == length b))
      × (graded_loop greater a b ≡ ltb (length a) (length b))
unfolding graded_loop
graded_loop-less [] [] = (refl, refl)
graded_loop-less [] (y ∷ b) = (ground arith, ground arith)
graded_loop-less (x ∷ a) [] = (ground arith, ground arith)
graded_loop-less (x ∷ a) (y ∷ b) = ground (arith, graded_loop-less a b)

-- The loop of is_graded_lex_smaller, with its memory of the first difference, computes the graded
-- lexicographic order: the shorter word is smaller, and words of one length are compared
-- lexicographically.
pub is_graded_lex_smaller_lem :
    (a b : Word)
    → is_graded_lex_smaller a b
      ≡ (ltb (length a) (length b) || length a == length b && is_lex_smaller a b)
unfolding is_graded_lex_smaller graded_loop is_lex_smaller
is_graded_lex_smaller_lem [] [] = refl
is_graded_lex_smaller_lem [] (y ∷ b) = ground arith
is_graded_lex_smaller_lem (x ∷ a) [] = ground arith
is_graded_lex_smaller_lem (x ∷ a) (y ∷ b) =
    ground (arith, is_graded_lex_smaller_lem a b, graded_loop-less a b, eq_ℤ_iff x y)

-- A strict total order on words.
pub record IsOrder (smaller : Word → Word → Bool) : Type 0 where
  pub irreflexive : (a : Word) → smaller a a ≡ false
  pub transitive : (a b c : Word) → smaller a b ≡ true → smaller b c ≡ true → smaller a c ≡ true
  pub total : (a b : Word) → (smaller a b || (smaller b a || word_eq a b)) ≡ true

-- is_lex_smaller is a strict total order on words.
pub is_lex_smaller-IsOrder : IsOrder is_lex_smaller
is_lex_smaller-IsOrder = record {
  irreflexive = lex-irreflexive;
  transitive = lex-transitive;
  total = lex-total;
}

-- is_graded_lex_smaller is a strict total order on words.
pub is_graded_lex_smaller-IsOrder : IsOrder is_graded_lex_smaller
is_graded_lex_smaller-IsOrder = record {
  irreflexive = λ a. ground (arith, is_graded_lex_smaller_lem a a, lex-irreflexive a);
  transitive = λ a b c h k. ground (
    arith,
    is_graded_lex_smaller_lem a b,
    is_graded_lex_smaller_lem b c,
    is_graded_lex_smaller_lem a c,
    lex-transitive a b c,
  );
  total = λ a b.
      ground (arith, is_graded_lex_smaller_lem a b, is_graded_lex_smaller_lem b a, lex-total a b);
}
