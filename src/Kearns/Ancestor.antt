-- ===== src/Kearns/Ancestor.antt =====
-- algorithm_kearns_vazirani.h: least_commont_ancestor.
use libalf.Common.{
  ℕ, zero, suc, ◌+◌, ◌-◌, ◌<◌, ◌≤◌, ◌≡◌, refl, sym, ap, ◌∙◌, [], ◌∷◌, Bool, true, false, not,
  length, ltb, ltb→lt, if◌then◌else◌, pop_back, arith, Bool-cases, inl, inr,
}
use libalf.Kearns.Tree.{TreePath, same_path, climb, climb_both, least_common_ancestor}

abbrev pub same_turn : Bool → Bool → Bool
same_turn b c = if b then c else not c

-- The longest common prefix.
unfoldable pub common : TreePath → TreePath → TreePath
common [] q = []
common (b ∷ p) [] = []
common (b ∷ p) (c ∷ q) = if same_turn b c then b ∷ common p q else []

same_turn_eq : (b c : Bool) → same_turn b c ≡ true → b ≡ c
same_turn_eq b c e = ground arith

common_nil : (p : TreePath) → common p [] ≡ []
unfolding common
common_nil [] = refl
common_nil (b ∷ p) = refl

common_sym : (p q : TreePath) → common p q ≡ common q p
unfolding common
common_sym [] q = sym (common_nil q)
common_sym (b ∷ p) [] = refl
common_sym (b ∷ p) (c ∷ q) = ground (arith, common_sym p q)

length-pop_back : (p : TreePath) → length (pop_back p) ≡ length p - 1
length-pop_back [] = refl
length-pop_back (x ∷ []) = refl
length-pop_back (x ∷ y ∷ p) = ground (arith, length-pop_back (y ∷ p))

common-pop_back : (p q : TreePath) → length q < length p → common (pop_back p) q ≡ common p q
unfolding common
common-pop_back [] q h = refl
common-pop_back (x ∷ []) [] h = refl
common-pop_back (x ∷ []) (z ∷ q) h = absurd (omega arith)
common-pop_back (x ∷ y ∷ p) [] h = refl
common-pop_back (x ∷ y ∷ p) (z ∷ q) h =
    ap (λ l. if same_turn x z then x ∷ l else []) (common-pop_back (y ∷ p) q (omega (arith, h)))

length-climb : (k : ℕ) (p : TreePath) → length (climb k p) ≡ length p - k
unfolding climb
length-climb zero p = omega arith
length-climb (suc k) p = omega (arith, length-climb k (pop_back p), length-pop_back p)

common-climb :
    (k : ℕ) (p q : TreePath) → length p ≡ k + length q → common (climb k p) q ≡ common p q
unfolding climb
common-climb zero p q h = refl
common-climb (suc k) p q h =
    common-climb k (pop_back p) q (omega (arith, h, length-pop_back p))
    ∙ common-pop_back p q (omega (arith, h))

climb_both-nil : climb_both 0 [] [] ≡ []
unfolding climb_both
climb_both-nil = refl

climb_both-top : (q : TreePath) → climb_both 0 [] q ≡ []
unfolding climb_both
climb_both-top q = refl

not_ltb : (a b : ℕ) → ltb a b ≡ false → b ≤ a
not_ltb a b e = ground arith

climb_both-stop : (n : ℕ) (p q : TreePath) → same_path p q ≡ true → climb_both (suc n) p q ≡ p
unfolding climb_both
climb_both-stop n p q e = rw e refl

climb_both-step :
    (n : ℕ) (p q : TreePath)
    → same_path p q ≡ false
    → climb_both (suc n) p q ≡ climb_both n (pop_back p) (pop_back q)
unfolding climb_both
climb_both-step n p q e = rw e refl

same_path-cons :
    (b c : Bool) (p q : TreePath) → same_turn b c ≡ true → same_path (b ∷ p) (c ∷ q) ≡ same_path p q
same_path-cons b c p q e = rw e refl

-- Above a step that both ways make the loop is the loop without it.
climb_both-same :
    (n : ℕ) (b c : Bool) (p q : TreePath)
    → same_turn b c ≡ true
    → length p ≡ n
    → length q ≡ n
    → climb_both (suc n) (b ∷ p) (c ∷ q) ≡ b ∷ climb_both n p q
climb_both-same zero b c [] [] e hp hq =
    climb_both-stop zero (b ∷ []) (c ∷ []) (same_path-cons b c [] [] e)
    ∙ ap (λ l. b ∷ l) (sym climb_both-nil)
climb_both-same (suc n) b c [] q e hp hq = absurd (omega (arith, hp))
climb_both-same n b c [] (y ∷ q) e hp hq = absurd (omega (arith, hp, hq))
climb_both-same n b c (x ∷ p) [] e hp hq = absurd (omega (arith, hp, hq))
climb_both-same zero b c (x ∷ p) (y ∷ q) e hp hq = absurd (omega (arith, hp))
climb_both-same (suc n) b c (x ∷ p) (y ∷ q) e hp hq =
    elim (Bool-cases (same_path (x ∷ p) (y ∷ q))) [
      | inl s ↦
          climb_both-stop (suc n) (b ∷ x ∷ p) (c ∷ y ∷ q) (same_path-cons b c (x ∷ p) (y ∷ q) e ∙ s)
          ∙ ap (λ l. b ∷ l) (sym (climb_both-stop n (x ∷ p) (y ∷ q) s))
      | inr s ↦
          climb_both-step (suc n) (b ∷ x ∷ p) (c ∷ y ∷ q) (same_path-cons b c (x ∷ p) (y ∷ q) e ∙ s)
          ∙ climb_both-same n b c (pop_back (x ∷ p)) (pop_back (y ∷ q)) e
              (omega (arith, hp, length-pop_back (x ∷ p)))
              (omega (arith, hq, length-pop_back (y ∷ q)))
          ∙ ap (λ l. b ∷ l) (sym (climb_both-step n (x ∷ p) (y ∷ q) s))
    ]

-- Below the first step that differs it climbs to the top.
climb_both-differ :
    (n : ℕ) (b c : Bool) (p q : TreePath)
    → same_turn b c ≡ false
    → length p ≡ n
    → length q ≡ n
    → climb_both (suc n) (b ∷ p) (c ∷ q) ≡ []
climb_both-differ n b c [] (y ∷ q) e hp hq = absurd (omega (arith, hp, hq))
climb_both-differ n b c (x ∷ p) [] e hp hq = absurd (omega (arith, hp, hq))
climb_both-differ zero b c (x ∷ p) (y ∷ q) e hp hq = absurd (omega (arith, hp))
climb_both-differ (suc n) b c [] [] e hp hq = absurd (omega (arith, hp))
climb_both-differ zero b c [] [] e hp hq =
    climb_both-step zero (b ∷ []) (c ∷ []) (rw e refl) ∙ climb_both-nil
climb_both-differ (suc n) b c (x ∷ p) (y ∷ q) e hp hq =
    climb_both-step (suc n) (b ∷ x ∷ p) (c ∷ y ∷ q) (rw e refl)
    ∙ climb_both-differ n b c (pop_back (x ∷ p)) (pop_back (y ∷ q)) e
        (omega (arith, hp, length-pop_back (x ∷ p))) (omega (arith, hq, length-pop_back (y ∷ q)))

climb_both_lem :
    (n : ℕ) (p q : TreePath) → length p ≡ n → length q ≡ n → climb_both n p q ≡ common p q
unfolding common
climb_both_lem zero [] q hp hq = climb_both-top q
climb_both_lem (suc n) [] q hp hq = absurd (omega (arith, hp))
climb_both_lem n (b ∷ p) [] hp hq = absurd (omega (arith, hp, hq))
climb_both_lem zero (b ∷ p) (c ∷ q) hp hq = absurd (omega (arith, hp))
climb_both_lem (suc n) (b ∷ p) (c ∷ q) hp hq = elim (Bool-cases (same_turn b c)) [
  | inl e ↦
      climb_both-same n b c p q e (omega (arith, hp)) (omega (arith, hq))
      ∙ rw e (ap (λ l. b ∷ l) (climb_both_lem n p q (omega (arith, hp)) (omega (arith, hq))))
  | inr e ↦ climb_both-differ n b c p q e (omega (arith, hp)) (omega (arith, hq)) ∙ rw e refl
]

-- For the ways to two nodes from the root, the loops of least_commont_ancestor arrive at the end
-- of their longest common prefix.
pub least_common_ancestor_lem : (p q : TreePath) → least_common_ancestor p q ≡ common p q
unfolding least_common_ancestor
least_common_ancestor_lem p q = elim (Bool-cases (ltb (length q) (length p))) [
  | inl e ↦
      let h = ltb→lt (length q) (length p) e in
      let k = length p - length q in
      rw e (
        climb_both_lem (length q) q (climb k p) refl (omega (arith, length-climb k p, h))
        ∙ common_sym q (climb k p)
        ∙ common-climb k p q (omega (arith, h)))
  | inr e ↦
      let k = length q - length p in
      rw e (
        climb_both_lem (length p) p (climb k q) refl
          (omega (arith, length-climb k q, not_ltb (length q) (length p) e))
        ∙ common_sym p (climb k q)
        ∙ common-climb k q p (omega (arith, not_ltb (length q) (length p) e))
        ∙ common_sym q p)
]
