-- ===== src/Angluin/Pairs.antt =====
-- algorithm_angluin.h: the loops of is_consistent and make_consistent over pairs of rows of a filled
-- table.
use libalf.Common.{
  Bool, ℕ, ◌<◌, ◌≡◌, refl, sym, subst, ◌∙◌, List, [], ◌∷◌, ◌++◌, true, false, Option, none, some,
  if◌then◌else◌, pos, Word, IsWord, word_eq, word_eq_iff, word_eq_refl, contains, Distinct, All,
  arith, Bool-cases, Option-cases, inl, inr,
}
use libalf.Filter.{FilterAnswer}
use libalf.Angluin.Table.{Row, Table, same_acceptance}
use libalf.Angluin.Complete.{first_return, reads, symbols_loop, second_loop, first_loop}
use libalf.Angluin.Knows.{IsRow}
use libalf.Angluin.Shape.{indices}
use libalf.Angluin.Full.{IsFull, IsFilled}
use libalf.Angluin.Consistent.{
  IsEquality, same_acceptance_iff, row, IsSameAfter, Verdict, symbols_lem,
}

module _ {A : Type 0} (o : FilterAnswer A) (eq : IsEquality o) (K : Word → Option A) (t : Table A)
    (v : IsFilled K t) where
  module _ {B : Type 0} (sized : Bool) (check : ℕ → Row A → Row A → Option B) (Good : B → Type 0)
      (safe : (u w : Word)
        → contains u (indices t.upper_table) ≡ true
        → contains w (indices t.upper_table) ≡ true
        → word_eq u w ≡ false
        → row o eq K t v u ≡ row o eq K t v w
        → (reads o none sized u ≡ true) × (reads o none sized w ≡ true))
      (sep : (x : ℕ) (u w : Word) (r s : Row A)
        → x < t.alphabet_size
        → r.index ≡ u ++ pos x ∷ []
        → s.index ≡ w ++ pos x ∷ []
        → contains u (indices t.upper_table) ≡ true
        → contains w (indices t.upper_table) ≡ true
        → row o eq K t v u ≡ row o eq K t v w
        → IsFull K t.column_names r
        → IsFull K t.column_names s
        → same_acceptance o.answer r.acceptance s.acceptance ≡ false
        → (b : B) × (check x r s ≡ some b) × Good b) where
    -- The rows that are compared are rows of the upper table.
    abbrev AreUpper : List (Row A) → Type 0
    AreUpper rows =
        (w : Word) → contains w (indices rows) ≡ true → contains w (indices t.upper_table) ≡ true

    abbrev AreSame : Word → Word → Type 0
    AreSame u w = row o eq K t v u ≡ row o eq K t v w → IsSameAfter o eq K t v u w t.alphabet_size 0

    abbrev pub AllAfter : Word → List (Row A) → Type 0
    AllAfter u rows = (w : Word) → contains w (indices rows) ≡ true → AreSame u w

    more_after :
        (u : Word) (s : Row A) (rows : List (Row A))
        → AreSame u s.index
        → AllAfter u rows
        → AllAfter u (s ∷ rows)
    more_after u s rows now later w c = elim (Bool-cases (word_eq w s.index)) [
      | inl e ↦ subst (AreSame u) (sym ((word_eq_iff w s.index).0 e)) now
      | inr e ↦ later w (ground arith)
    ]

    -- The loop over the alphabet is run if the rows are equal.
    pair_lem :
        (r s : Row A)
        → IsFull K t.column_names r
        → IsFull K t.column_names s
        → IsWord r.index
        → IsWord s.index
        → contains r.index (indices t.upper_table) ≡ true
        → contains s.index (indices t.upper_table) ≡ true
        → word_eq r.index s.index ≡ false
        → (result : Option B) × ((if same_acceptance o.answer r.acceptance s.acceptance
              then symbols_loop o none sized check t r.index s.index t.alphabet_size 0
              else some none)
            ≡ some result)
          × Verdict o eq K t v Good (AreSame r.index s.index) result
    pair_lem r s full_r full_s hr hs cr cs apart =
        elim (Bool-cases (same_acceptance o.answer r.acceptance s.acceptance)) [
          | inl e ↦
              let same : row o eq K t v r.index ≡ row o eq K t v s.index =
                sym full_r.0
                ∙ (same_acceptance_iff o eq r.acceptance s.acceptance).0 e
                ∙ full_s.0 in
              let (result, looped, good) =
                let (ru, rw') = safe r.index s.index cr cs apart same in
                symbols_lem o eq K t v sized check Good sep r.index s.index t.alphabet_size 0 ru rw'
                  hr hs cr cs same (omega arith) in
              (
                result,
                rw e looped,
                elim (Option-cases result) [
                  | inl through ↦ rw through (λ _. rw through at good)
                  | inr (b, early) ↦ rw early (rw early at good)
                ],
              )
          | inr e ↦ (
            none,
            rw e refl,
            λ same. absurd (
                cc (
                  e,
                  (same_acceptance_iff o eq r.acceptance s.acceptance).1
                      (full_r.0 ∙ same ∙ sym full_s.0),
                )),
          )
        ]

    -- Two parts of a loop, one after the other.
    both_lem :
        {P Q R : Type 0} (now later : Option (Option B)) (first rest : Option B)
        → now ≡ some first
        → later ≡ some rest
        → Verdict o eq K t v Good P first
        → Verdict o eq K t v Good Q rest
        → (P → Q → R)
        → (result : Option B) × (first_return now later ≡ some result)
          × Verdict o eq K t v Good R result
    both_lem now later none none e f p q both = (none, rw (e, f) refl, both p q)
    both_lem now later none (some b) e f p q both = (some b, rw (e, f) refl, q)
    both_lem now later (some b) rest e f p q both = (some b, rw e refl, p)

    second_lem :
        (r : Row A) (rows : List (Row A))
        → IsFull K t.column_names r
        → IsWord r.index
        → contains r.index (indices t.upper_table) ≡ true
        → All (IsFull K t.column_names) rows
        → All (IsRow K t.column_names) rows
        → AreUpper rows
        → contains r.index (indices rows) ≡ false
        → (result : Option B) × (second_loop o none sized check t r rows ≡ some result)
          × Verdict o eq K t v Good (AllAfter r.index rows) result
    unfolding second_loop
    second_lem r [] full word above fulls valids uppers new = (none, refl, λ w c. cc c)
    second_lem r (s ∷ rows) full word above fulls valids uppers new =
        let (rest, later, good') =
          second_lem r rows full word above fulls.1 valids.1 (λ w c. uppers w (ground arith))
            (ground arith) in
        let (first, here, good) =
          pair_lem r s full fulls.0 word valids.0.0 above
            (uppers s.index (ground (arith, word_eq_refl s.index))) (ground arith) in
        both_lem
          (if same_acceptance o.answer r.acceptance s.acceptance
            then symbols_loop o none sized check t r.index s.index t.alphabet_size 0
            else some none)
          (second_loop o none sized check t r rows) first rest here later good good'
          (more_after r.index s rows)

    abbrev pub AllSame : List (Row A) → Type 0
    AllSame rows =
        (u w : Word)
        → contains u (indices rows) ≡ true
        → contains w (indices rows) ≡ true
        → AreSame u w

    more_same :
        (r : Row A) (rows : List (Row A))
        → AllAfter r.index rows
        → AllSame rows
        → AllSame (r ∷ rows)
    more_same r rows after same u w cu cw = elim (Bool-cases (word_eq u r.index)) [
      | inl e ↦
          let here = (word_eq_iff u r.index).0 e in
          elim (Bool-cases (word_eq w r.index)) [
            | inl e' ↦
                let there = (word_eq_iff w r.index).0 e' in rw (here, there) (λ _ x le lt. refl)
            | inr e' ↦ rw here (after w (ground arith))
          ]
      | inr e ↦ elim (Bool-cases (word_eq w r.index)) [
        | inl e' ↦
            let there = (word_eq_iff w r.index).0 e' in
            rw there (λ equal x le lt. sym (after u (ground arith) (sym equal) x le lt))
        | inr e' ↦ same u w (ground arith) (ground arith)
      ]
    ]

    rows_lem :
        (rows : List (Row A))
        → All (IsFull K t.column_names) rows
        → All (IsRow K t.column_names) rows
        → AreUpper rows
        → Distinct (indices rows)
        → (result : Option B) × (first_loop o none sized check t rows ≡ some result)
          × Verdict o eq K t v Good (AllSame rows) result
    unfolding first_loop
    rows_lem [] fulls valids uppers distinct = (none, refl, λ u w c. cc c)
    rows_lem (r ∷ rows) fulls valids uppers distinct =
        let above : AreUpper rows = λ w c. uppers w (ground arith) in
        let (rest, later, good') = rows_lem rows fulls.1 valids.1 above distinct.1 in
        let (first, here, good) =
          second_lem r rows fulls.0 valids.0.0
            (uppers r.index (ground (arith, word_eq_refl r.index))) fulls.1 valids.1 above
            distinct.0 in
        both_lem (second_loop o none sized check t r rows) (first_loop o none sized check t rows)
          first rest here later good good' (more_same r rows)

    pub loops_lem :
        (result : Option B) × (first_loop o none sized check t t.upper_table ≡ some result)
        × Verdict o eq K t v Good (AllSame t.upper_table) result
    loops_lem = rows_lem t.upper_table v.upper v.valid.upper (λ w c. c) v.valid.upper_distinct
