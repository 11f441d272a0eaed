-- ===== src/Angluin/Separating.antt =====
-- algorithm_angluin.h: the suffix that make_consistent finds where a filled table is not consistent.
use libalf.Common.{
  ℕ, ◌<◌, ◌≡◌, refl, ap, sym, subst, List, [], ◌∷◌, ◌++◌, true, false, Option, none, some, pos,
  Word, IsWord, word_eq, word_eq_iff, word_eq_refl, contains, All, arith, Bool-cases, Option-cases,
  inl, inr,
}
use libalf.Filter.{FilterAnswer}
use libalf.Angluin.Table.{Row, Table, same_acceptance}
use libalf.Angluin.Complete.{separate}
use libalf.Angluin.Knows.{known_prefix, all_known}
use libalf.Angluin.Shape.{indices}
use libalf.Angluin.Full.{IsFull, IsFilled}
use libalf.Angluin.Consistent.{IsEquality}

pub contains-IsWord :
    (c : Word) (columns : List Word) → All IsWord columns → contains c columns ≡ true → IsWord c
contains-IsWord c [] h e = absurd (cc e)
contains-IsWord c (d ∷ columns) h e = elim (Bool-cases (word_eq c d)) [
  | inl same ↦ subst IsWord (sym ((word_eq_iff c d).0 same)) h.0
  | inr other ↦ contains-IsWord c columns h.1 (ground arith)
]

module _ {A : Type 0} (K : Word → Option A) where
  -- Upper rows that are equal stay so with one symbol more.
  abbrev pub IsConsistent : Table A → Type 0
  IsConsistent t =
      (u w : Word) (x : ℕ)
      → contains u (indices t.upper_table) ≡ true
      → contains w (indices t.upper_table) ≡ true
      → known_prefix K u t.column_names ≡ known_prefix K w t.column_names
      → x < t.alphabet_size
      → known_prefix K (u ++ pos x ∷ []) t.column_names
        ≡ known_prefix K (w ++ pos x ∷ []) t.column_names

  -- The suffix tells words of the upper table apart that have equal rows.
  pub record Separates (t : Table A) (suffix : Word) : Type 0 where
    pub left : Word
    pub right : Word
    pub in_left : contains left (indices t.upper_table) ≡ true
    pub in_right : contains right (indices t.upper_table) ≡ true
    pub same_rows : known_prefix K left t.column_names ≡ known_prefix K right t.column_names
    pub apart : ¬ (K (left ++ suffix) ≡ K (right ++ suffix))
    pub word : IsWord suffix

  same_at :
      (u w c : Word) (columns : List Word)
      → all_known K u columns ≡ true
      → all_known K w columns ≡ true
      → known_prefix K u columns ≡ known_prefix K w columns
      → contains c columns ≡ true
      → K (u ++ c) ≡ K (w ++ c)
  unfolding known_prefix all_known
  same_at u w c [] hu hw same e = absurd (cc e)
  same_at u w c (d ∷ columns) hu hw same e = elim (Option-cases (K (u ++ d))) [
    | inl e1 ↦ absurd (ground arith)
    | inr (a, e1) ↦ elim (Option-cases (K (w ++ d))) [
      | inl e2 ↦ absurd (ground arith)
      | inr (b, e2) ↦
          let cells : a ∷ known_prefix K u columns ≡ b ∷ known_prefix K w columns = ground arith in
          let heads : (a ≡ b) × (known_prefix K u columns ≡ known_prefix K w columns) =
            (ground arith, ground arith) in
          elim (Bool-cases (word_eq c d)) [
            | inl here ↦ rw ((word_eq_iff c d).0 here, e1, e2) (ap some heads.0)
            | inr other ↦ same_at u w c columns (ground arith) (ground arith) heads.1 (ground arith)
          ]
    ]
  ]

  upper_known :
      (columns : List Word) (rows : List (Row A)) (w : Word)
      → All (IsFull K columns) rows
      → contains w (indices rows) ≡ true
      → all_known K w columns ≡ true
  upper_known columns [] w h e = absurd (cc e)
  upper_known columns (r ∷ rows) w h e = elim (Bool-cases (word_eq w r.index)) [
    | inl same ↦ rw ((word_eq_iff w r.index).0 same) h.0.1
    | inr other ↦ upper_known columns rows w h.1 (ground arith)
  ]

  pub Separates-absent :
      (t : Table A) (suffix : Word)
      → IsFilled K t
      → Separates t suffix
      → contains suffix t.column_names ≡ false
  Separates-absent t suffix v s = elim (Bool-cases (contains suffix t.column_names)) [
    | inl e ↦
        let known = upper_known t.column_names t.upper_table in
        absurd (
          s.apart (
            same_at s.left s.right suffix t.column_names (known s.left v.upper s.in_left)
              (known s.right v.upper s.in_right) s.same_rows e))
    | inr e ↦ e
  ]

module _ {A : Type 0} (o : FilterAnswer A) (eq : IsEquality o) (K : Word → Option A) where
  -- The first column in which the rows differ.
  pub separate_lem :
      (x : ℕ) (u w : Word) (columns : List Word)
      → all_known K u columns ≡ true
      → all_known K w columns ≡ true
      → same_acceptance o.answer (known_prefix K u columns) (known_prefix K w columns) ≡ false
      → (c : Word) × (separate o none x columns
            (known_prefix K u columns)
            (known_prefix K w columns)
          ≡ some (pos x ∷ c))
        × (contains c columns ≡ true)
        × ¬ (K (u ++ c) ≡ K (w ++ c))
  unfolding known_prefix all_known separate same_acceptance
  separate_lem x u w [] hu hw e = absurd (cc e)
  separate_lem x u w (c ∷ columns) hu hw e = elim (Option-cases (K (u ++ c))) [
    | inl e1 ↦ absurd (ground arith)
    | inr (a, e1) ↦ elim (Option-cases (K (w ++ c))) [
      | inl e2 ↦ absurd (ground arith)
      | inr (b, e2) ↦ elim (Bool-cases (o.answer.same a b)) [
        | inl equal ↦
            let (c', found, there, apart) =
              separate_lem x u w columns (ground arith) (ground arith) (ground arith) in
            (
              c',
              rw (e1, e2, known_prefix, eq.differs_not a b, equal) found,
              ground (arith, there),
              apart,
            )
        | inr differ ↦ (
          c,
          rw (e1, e2, known_prefix, eq.differs_not a b, differ) refl,
          ground (arith, word_eq_refl c),
          λ same. ground (arith, eq.same_iff a b, e1, e2, differ, same),
        )
      ]
    ]
  ]
