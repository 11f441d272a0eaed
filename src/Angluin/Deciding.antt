-- ===== src/Angluin/Deciding.antt =====
-- algorithm_angluin.h: is_consistent and make_consistent on a filled table.
use libalf.Common.{
  ℕ, ◌<◌, ◌≡◌, refl, ap, sym, ◌∙◌, [], ◌∷◌, ◌++◌, append_assoc, Bool, true, false, Option, none,
  some, length, ==_iff, pos, Word, word_eq, contains, arith, ◌↔◌, Option-cases, inl, inr, ◌⊎◌,
}
use libalf.Filter.{FilterAnswer}
use libalf.Angluin.Table.{Row, Table, same_acceptance, add_column}
use libalf.Angluin.Complete.{reads, stop, is_consistent, new_suffix, make_consistent}
use libalf.Angluin.Knows.{known_prefix}
use libalf.Angluin.Shape.{indices}
use libalf.Angluin.Full.{IsFull, IsFilled, length-known_prefix}
use libalf.Angluin.Consistent.{IsEquality, same_acceptance_iff}
use libalf.Angluin.Pairs.{loops_lem}
use libalf.Angluin.Separating.{IsConsistent, Separates, contains-IsWord, separate_lem}

module _ {A : Type 0} (o : FilterAnswer A) (eq : IsEquality o) (K : Word → Option A) where
  module _ (t : Table A) (v : IsFilled K t) where
    -- A size is tested, or no two words with equal rows are compared of which one is empty.
    reads-sized : (w : Word) → reads o none true w ≡ true
    unfolding reads
    reads-sized [] = refl
    reads-sized (x ∷ w) = refl

    reads-alone :
        ((w : Word)
          → contains w (indices t.upper_table) ≡ true
          → known_prefix K [] t.column_names ≡ known_prefix K w t.column_names
          → w ≡ [])
        → (u w : Word) → contains u (indices t.upper_table) ≡ true
        → contains w (indices t.upper_table) ≡ true
        → word_eq u w ≡ false
        → known_prefix K u t.column_names ≡ known_prefix K w t.column_names
        → (reads o none false u ≡ true) × (reads o none false w ≡ true)
    unfolding reads
    reads-alone alone [] [] cu cw apart same = absurd (cc apart)
    reads-alone alone [] (y ∷ w) cu cw apart same = absurd (cc (alone (y ∷ w) cw same))
    reads-alone alone (x ∷ u) [] cu cw apart same = absurd (cc (alone (x ∷ u) cu (sym same)))
    reads-alone alone (x ∷ u) (y ∷ w) cu cw apart same = (refl, refl)

    -- Successor rows that differ are no rows of a consistent table.
    stop_lem :
        (x : ℕ) (u w : Word) (r s : Row A)
        → x < t.alphabet_size
        → r.index ≡ u ++ pos x ∷ []
        → s.index ≡ w ++ pos x ∷ []
        → contains u (indices t.upper_table) ≡ true
        → contains w (indices t.upper_table) ≡ true
        → known_prefix K u t.column_names ≡ known_prefix K w t.column_names
        → IsFull K t.column_names r
        → IsFull K t.column_names s
        → same_acceptance o.answer r.acceptance s.acceptance ≡ false
        → (b : Bool) × (stop o none x r s ≡ some b) × ((b ≡ false) × ¬ IsConsistent K t)
    stop_lem x u w r s lt index_r index_s cu cw same full_r full_s e = (
      false,
      refl,
      (
        refl,
        λ consistent.
            let rows : r.acceptance ≡ s.acceptance =
              full_r.0
              ∙ ap (λ i. known_prefix K i t.column_names) index_r
              ∙ consistent u w x cu cw same lt
              ∙ sym (ap (λ i. known_prefix K i t.column_names) index_s)
              ∙ sym full_s.0 in
            cc (e, (same_acceptance_iff o eq r.acceptance s.acceptance).1 rows),
      ),
    )

    -- The suffix is the symbol before a column in which the successor rows differ.
    new_suffix_lem :
        (x : ℕ) (u w : Word) (r s : Row A)
        → x < t.alphabet_size
        → r.index ≡ u ++ pos x ∷ []
        → s.index ≡ w ++ pos x ∷ []
        → contains u (indices t.upper_table) ≡ true
        → contains w (indices t.upper_table) ≡ true
        → known_prefix K u t.column_names ≡ known_prefix K w t.column_names
        → IsFull K t.column_names r
        → IsFull K t.column_names s
        → same_acceptance o.answer r.acceptance s.acceptance ≡ false
        → (suffix : Word) × (new_suffix o none t.column_names x r s ≡ some suffix)
          × Separates K t suffix
    unfolding new_suffix
    new_suffix_lem x u w r s lt index_r index_s cu cw same full_r full_s e =
        let columns = t.column_names in
        let equal : length r.acceptance ≡ length s.acceptance =
          ap length full_r.0
          ∙ length-known_prefix K r.index columns full_r.1
          ∙ sym (length-known_prefix K s.index columns full_s.1)
          ∙ sym (ap length full_s.0) in
        let (c, found, there, apart) =
          separate_lem o eq K x r.index s.index columns full_r.1 full_s.1
            (rw (← full_r.0, ← full_s.0) e) in
        (
          pos x ∷ c,
          rw ((==_iff (length r.acceptance) (length s.acceptance)).1 equal, full_r.0, full_s.0)
              found,
          record {
            left = u;
            right = w;
            in_left = cu;
            in_right = cw;
            same_rows = same;
            apart = λ back. apart (
                rw (index_r, index_s, append_assoc u (pos x ∷ []) c, append_assoc w (pos x ∷ []) c)
                  back);
            word = contains-IsWord c columns v.valid.columns there;
          },
        )

    -- Where operator== of the answers decides their equality and operator!= is its negation,
    -- without a normalizer, for a table that satisfies the invariant of the table, whose rows are
    -- all filled, and in which no other upper row equals that of the empty word, is_consistent
    -- returns, and says whether words of the upper table that have equal rows have equal rows
    -- with each symbol more.
    pub is_consistent_lem :
        ((w : Word)
          → contains w (indices t.upper_table) ≡ true
          → known_prefix K [] t.column_names ≡ known_prefix K w t.column_names
          → w ≡ [])
        → (b : Bool) × (is_consistent o none t ≡ some b) × ((b ≡ true) ↔ IsConsistent K t)
    unfolding is_consistent
    is_consistent_lem alone =
        let (result, looped, good) =
          loops_lem o eq K t v false (stop o none) (λ b. (b ≡ false) × ¬ IsConsistent K t)
            (λ u w cu cw apart same. reads-alone alone u w cu cw apart same) stop_lem in
        elim (Option-cases result) [
          | inl through ↦
              let same = rw through at good in
              (
                true,
                rw (looped, through, is_consistent) refl,
                (
                  λ _ u w x cu cw equal lt. same u w cu cw equal x (omega arith) (omega arith),
                  λ _. refl,
                ),
              )
          | inr (b, early) ↦
              let bad = rw early at good in
              (
                b,
                rw (looped, early, is_consistent) refl,
                (λ yes. absurd (cc (yes, bad.0)), λ consistent. absurd (bad.1 consistent)),
              )
        ]

    -- Where operator== of the answers decides their equality and operator!= is its negation,
    -- without a normalizer, for a table that satisfies the invariant of the table and whose rows
    -- are all filled, make_consistent returns: either true with the table as it is, and equal
    -- upper rows are then equal with each symbol more, or false with a column added, after which
    -- two words of the upper table that have equal rows have different answers.
    pub make_consistent_lem :
        (now : ℕ)
        → (make_consistent o none now t ≡ some (true, t)) × IsConsistent K t
          ⊎ (suffix : Word) × (make_consistent o none now t
              ≡ some (false, (add_column none now suffix t).1))
            × Separates K t suffix
    unfolding make_consistent
    make_consistent_lem now =
        let (result, looped, good) =
          loops_lem o eq K t v true (new_suffix o none t.column_names) (Separates K t)
            (λ u w cu cw apart same. (reads-sized u, reads-sized w)) new_suffix_lem in
        elim (Option-cases result) [
          | inl through ↦
              let same = rw through at good in
              inl (
                rw (looped, through, make_consistent) refl,
                λ u w x cu cw equal lt. same u w cu cw equal x (omega arith) (omega arith),
              )
          | inr (suffix, early) ↦
              inr (suffix, rw (looped, early, make_consistent) refl, rw early at good)
        ]
