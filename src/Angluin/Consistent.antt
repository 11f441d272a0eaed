-- ===== src/Angluin/Consistent.antt =====
-- algorithm_angluin.h: the loops of is_consistent and make_consistent over a filled table.
use libalf.Common.{
  Bool, ℕ, zero, suc, ◌+◌, ◌≤◌, ◌<◌, ◌≡◌, refl, ap, sym, subst, ◌∙◌, List, [], ◌∷◌, ◌++◌, true,
  false, not, Option, none, some, pos, Word, IsWord, contains, arith, ◌↔◌, Bool-cases, Option-cases,
  inl, inr,
}
use libalf.Filter.{FilterAnswer}
use libalf.Angluin.Table.{Row, Table, same_acceptance}
use libalf.Angluin.Complete.{first_return, reads, successor, compare_rows, symbols_loop}
use libalf.Angluin.Knows.{known_prefix, IsWord-is_bottom}
use libalf.Angluin.Shape.{indices, le-cases}
use libalf.Angluin.Full.{IsFull, IsFilled, search_tables-IsFull}

-- operator== of the answers decides their equality, and operator!= is its negation.
pub record IsEquality {A : Type 0} (o : FilterAnswer A) : Type 0 where
  pub same_iff : (a b : A) → (o.answer.same a b ≡ true) ↔ (a ≡ b)
  pub differs_not : (a b : A) → o.differs a b ≡ not (o.answer.same a b)

module _ {A : Type 0} (o : FilterAnswer A) (eq : IsEquality o) where
  pub same_acceptance_iff :
      (as' bs : List A) → (same_acceptance o.answer as' bs ≡ true) ↔ (as' ≡ bs)
  unfolding same_acceptance
  same_acceptance_iff [] [] = (λ _. refl, λ _. refl)
  same_acceptance_iff [] (b ∷ bs) = ground arith
  same_acceptance_iff (a ∷ as') [] = ground arith
  same_acceptance_iff (a ∷ as') (b ∷ bs) =
      ground (arith, eq.same_iff a b, same_acceptance_iff as' bs)

  module _ (K : Word → Option A) (t : Table A) (v : IsFilled K t) where
    abbrev pub row : Word → List A
    row w = known_prefix K w t.column_names

    abbrev pub IsSameAfter : Word → Word → ℕ → ℕ → Type 0
    IsSameAfter u w rounds i =
        (x : ℕ) → i ≤ x → x < i + rounds → row (u ++ pos x ∷ []) ≡ row (w ++ pos x ∷ [])

    successor_lem :
        (sized : Bool) (w : Word) (x : ℕ)
        → reads o none sized w ≡ true
        → IsWord w
        → contains w (indices t.upper_table) ≡ true
        → x < t.alphabet_size
        → (r : Row A) × (successor o none sized t w x ≡ some r)
          × (r.index ≡ w ++ pos x ∷ [])
          × IsFull K t.column_names r
    unfolding successor
    successor_lem sized w x h word c lt =
        let (r, found, index, full) =
          search_tables-IsFull K t (w ++ pos x ∷ []) v.upper v.lower (v.valid.extended w x c lt) in
        (r, rw (h, IsWord-is_bottom w word) found, index, full)

    -- What a loop shows that goes through, and what it returns with early.
    abbrev pub Verdict : {B : Type 0} → (B → Type 0) → Type 0 → Option B → Type 0
    Verdict Good Through none = Through
    Verdict Good Through (some b) = Good b

    module _ {B : Type 0} (sized : Bool) (check : ℕ → Row A → Row A → Option B) (Good : B → Type 0)
        (sep : (x : ℕ) (u w : Word) (r s : Row A)
          → x < t.alphabet_size
          → r.index ≡ u ++ pos x ∷ []
          → s.index ≡ w ++ pos x ∷ []
          → contains u (indices t.upper_table) ≡ true
          → contains w (indices t.upper_table) ≡ true
          → row u ≡ row w
          → IsFull K t.column_names r
          → IsFull K t.column_names s
          → same_acceptance o.answer r.acceptance s.acceptance ≡ false
          → (b : B) × (check x r s ≡ some b) × Good b) where
      compare_lem :
          (x : ℕ) (u w : Word)
          → reads o none sized u ≡ true
          → reads o none sized w ≡ true
          → IsWord u
          → IsWord w
          → contains u (indices t.upper_table) ≡ true
          → contains w (indices t.upper_table) ≡ true
          → row u ≡ row w
          → x < t.alphabet_size
          → (result : Option B) × (compare_rows o none sized check t x
                (successor o none sized t u x)
                (successor o none sized t w x)
              ≡ some result)
            × Verdict Good (row (u ++ pos x ∷ []) ≡ row (w ++ pos x ∷ [])) result
      unfolding compare_rows
      compare_lem x u w ru rw' hu hw cu cw same lt =
          let (r, found_r, index_r, full_r) = successor_lem sized u x ru hu cu lt in
          let (s, found_s, index_s, full_s) = successor_lem sized w x rw' hw cw lt in
          elim (Bool-cases (same_acceptance o.answer r.acceptance s.acceptance)) [
            | inl e ↦ (
              none,
              rw (found_r, found_s, e) refl,
              subst (λ i. row i ≡ row (w ++ pos x ∷ [])) index_r
                  (subst (λ i. row r.index ≡ row i) index_s
                    (sym full_r.0
                      ∙ (same_acceptance_iff r.acceptance s.acceptance).0 e
                      ∙ full_s.0)),
            )
            | inr e ↦
                let (b, checked, good) =
                  sep x u w r s lt index_r index_s cu cw same full_r full_s e in
                (some b, rw (found_r, found_s, e) (ap some checked), good)
          ]

      pub symbols_lem :
          (u w : Word) (rounds x : ℕ)
          → reads o none sized u ≡ true
          → reads o none sized w ≡ true
          → IsWord u
          → IsWord w
          → contains u (indices t.upper_table) ≡ true
          → contains w (indices t.upper_table) ≡ true
          → row u ≡ row w
          → x + rounds ≡ t.alphabet_size
          → (result : Option B) × (symbols_loop o none sized check t u w rounds x ≡ some result)
            × Verdict Good (IsSameAfter u w rounds x) result
      unfolding symbols_loop
      symbols_lem u w zero x ru rw' hu hw cu cw same e =
          (none, refl, λ y le lt. absurd (omega arith))
      symbols_lem u w (suc rounds) x ru rw' hu hw cu cw same e =
          let (first, here, good) = compare_lem x u w ru rw' hu hw cu cw same (omega arith) in
          let (rest, later, good') =
            symbols_lem u w rounds (x + 1) ru rw' hu hw cu cw same (omega arith) in
          elim (Option-cases first) [
            | inl through ↦ elim (Option-cases rest) [
              | inl through' ↦
                  let now : row (u ++ pos x ∷ []) ≡ row (w ++ pos x ∷ []) = rw through at good in
                  let after : IsSameAfter u w rounds (x + 1) = rw through' at good' in
                  (
                    none,
                    rw (here, through, first_return) (later ∙ ap some through'),
                    λ y le lt. elim (le-cases x y le) [
                      | inl first ↦ rw first now
                      | inr more ↦ after y more (omega arith)
                    ],
                  )
              | inr (b, early) ↦ (
                some b,
                rw (here, through, first_return) (later ∙ ap some early),
                rw early at good',
              )
            ]
            | inr (b, early) ↦ (some b, rw (here, early, first_return) refl, rw early at good)
          ]
