-- ===== src/Angluin/Closing.antt =====
-- algorithm_angluin.h: is_closed and close on a filled table.
use libalf.Common.{
  ℕ, ◌≡◌, refl, sym, ◌∙◌, List, [], ◌∷◌, true, false, Option, none, some, Word, IsWord, word_eq,
  word_eq_iff, word_eq_refl, contains, All, arith, ◌↔◌, Bool-cases, inl, inr, ◌⊎◌,
}
use libalf.Filter.{FilterAnswer}
use libalf.Angluin.Table.{Row, Table, same_acceptance, has_match, closed_loop, is_closed}
use libalf.Angluin.Rows.{add_word_to_upper_table}
use libalf.Angluin.Complete.{first_unmatched, close}
use libalf.Angluin.Knows.{known_prefix, IsRow}
use libalf.Angluin.Shape.{indices}
use libalf.Angluin.Full.{IsFull, IsFilled}
use libalf.Angluin.Consistent.{IsEquality, same_acceptance_iff}

module _ {A : Type 0} (K : Word → Option A) (columns : List Word) where
  -- Two words have equal rows.
  abbrev pub IsSameRow : Word → Word → Type 0
  IsSameRow w u = known_prefix K w columns ≡ known_prefix K u columns

  abbrev pub HasSame : List (Row A) → Word → Type 0
  HasSame upper w = (u : Word) × (contains u (indices upper) ≡ true) × IsSameRow w u

  abbrev pub HasNone : List (Row A) → Word → Type 0
  HasNone upper w = (u : Word) → contains u (indices upper) ≡ true → ¬ IsSameRow w u

  module _ (o : FilterAnswer A) (eq : IsEquality o) where
    match_lem :
        (r : Row A) (upper : List (Row A))
        → IsFull K columns r
        → All (IsFull K columns) upper
        → (has_match o.answer r upper ≡ true) × HasSame upper r.index
          ⊎ (has_match o.answer r upper ≡ false) × HasNone upper r.index
    unfolding has_match
    match_lem r [] full fulls = inr (refl, λ u c. absurd (cc c))
    match_lem r (s ∷ upper) full fulls =
        let equal = same_acceptance_iff o eq r.acceptance s.acceptance in
        elim (Bool-cases (same_acceptance o.answer r.acceptance s.acceptance)) [
          | inl e ↦ inl (
            rw e refl,
            (s.index, ground (arith, word_eq_refl s.index), sym full.0 ∙ equal.0 e ∙ fulls.0.0),
          )
          | inr e ↦ elim (match_lem r upper full fulls.1) [
            | inl (matched, (u, c, same)) ↦ inl (rw e matched, (u, ground arith, same))
            | inr (unmatched, other) ↦ inr (
              rw e unmatched,
              λ u c. elim (Bool-cases (word_eq u s.index)) [
                | inl here ↦
                    rw ((word_eq_iff u s.index).0 here)
                      (λ same. absurd (cc (e, equal.1 (full.0 ∙ same ∙ sym fulls.0.0))))
                | inr there ↦ other u (ground arith)
              ],
            )
          ]
        ]

    pub unmatched_lem :
        (upper lower : List (Row A))
        → All (IsFull K columns) upper
        → All (IsFull K columns) lower
        → All (IsRow K columns) lower
        → (first_unmatched o none upper lower ≡ none)
            × (closed_loop o.answer upper lower ≡ true)
            × ((w : Word) → contains w (indices lower) ≡ true → HasSame upper w)
          ⊎ (r : Row A) × (first_unmatched o none upper lower ≡ some r)
            × (closed_loop o.answer upper lower ≡ false)
            × (contains r.index (indices lower) ≡ true)
            × IsWord r.index
            × HasNone upper r.index
    unfolding first_unmatched closed_loop
    unmatched_lem upper [] fulls lowers rows = inl (refl, refl, λ w c. absurd (cc c))
    unmatched_lem upper (r ∷ lower) fulls lowers rows = elim (match_lem r upper lowers.0 fulls) [
      | inr (unmatched, alone) ↦ inr (
        r,
        rw unmatched refl,
        rw unmatched refl,
        ground (arith, word_eq_refl r.index),
        rows.0.0,
        alone,
      )
      | inl (matched, (u, c, same)) ↦ elim (unmatched_lem upper lower fulls lowers.1 rows.1) [
        | inl (through, closed, all) ↦ inl (
          rw matched through,
          rw matched closed,
          λ w at_w. elim (Bool-cases (word_eq w r.index)) [
            | inl here ↦ rw ((word_eq_iff w r.index).0 here) (u, c, same)
            | inr there ↦ all w (ground arith)
          ],
        )
        | inr (s, early, ajar, there, word, alone) ↦
            inr (s, rw matched early, rw matched ajar, ground arith, word, alone)
      ]
    ]

module _ {A : Type 0} (K : Word → Option A) where
  -- Each row of the lower table is also a row of the upper one.
  abbrev pub IsClosed : Table A → Type 0
  IsClosed t =
      (w : Word)
      → contains w (indices t.lower_table) ≡ true
      → HasSame K t.column_names t.upper_table w

  -- A word of the lower table with a row that the upper table does not have.
  pub record IsUnmatched (t : Table A) (w : Word) : Type 0 where
    pub below : contains w (indices t.lower_table) ≡ true
    pub alone : HasNone K t.column_names t.upper_table w
    pub word : IsWord w

  pub unmatched-absent :
      (t : Table A) (w : Word) → IsUnmatched t w → contains w (indices t.upper_table) ≡ false
  unmatched-absent t w h = elim (Bool-cases (contains w (indices t.upper_table))) [
    | inl e ↦ absurd (h.alone w e refl)
    | inr e ↦ e
  ]

  module _ (o : FilterAnswer A) (eq : IsEquality o) (t : Table A) (v : IsFilled K t) where
    -- Where operator== of the answers decides their equality and operator!= is its negation, for
    -- a table that satisfies the invariant of the table and whose rows are all filled, is_closed
    -- says whether each row of the lower table is also a row of the upper one.
    pub is_closed_iff : (is_closed o.answer t ≡ true) ↔ IsClosed t
    unfolding is_closed
    is_closed_iff =
        elim (unmatched_lem K t.column_names o eq t.upper_table t.lower_table v.upper v.lower
          v.valid.lower) [
            | inl (_, closed, all) ↦ (λ _. all, λ _. closed)
            | inr (r, _, ajar, below, _, alone) ↦ (
              λ closed. absurd (cc (ajar, closed)),
              λ all. let (u, c, same) = all r.index below in absurd (alone u c same),
            )
          ]

    -- Where operator== of the answers decides their equality and operator!= is its negation,
    -- without a normalizer, for a table that satisfies the invariant of the table and whose rows
    -- are all filled, close either returns true with the table as it is, and each row of the
    -- lower table is then also a row of the upper one, or returns false and moves up a word of
    -- the lower table whose row the upper table does not have.
    pub close_lem :
        (now : ℕ)
        → (close o none now t ≡ (true, t)) × IsClosed t
          ⊎ (w : Word) × (close o none now t ≡ (false, add_word_to_upper_table none false now w t))
            × IsUnmatched t w
    unfolding close
    close_lem now =
        elim (unmatched_lem K t.column_names o eq t.upper_table t.lower_table v.upper v.lower
          v.valid.lower) [
            | inl (through, _, all) ↦ inl (rw (through, close) refl, all)
            | inr (r, early, _, below, word, alone) ↦ inr (
              r.index,
              rw (early, close) refl,
              record { below = below; alone = alone; word = word },
            )
          ]
