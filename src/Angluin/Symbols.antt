-- ===== src/Angluin/Symbols.antt =====
-- algorithm_angluin.h: increase_alphabet_size, and the size that a counterexample needs; where there
-- is no normalizer.
use libalf.Common.{
  ℕ, zero, suc, ◌+◌, ◌-◌, ◌≤◌, ◌<◌, ◌≡◌, refl, ap, sym, ◌∙◌, List, [], ◌∷◌, ◌++◌, append-nil,
  append_assoc, true, Option, none, leb, if◌then◌else◌, pos, negsuc, Word, IsWord, word_eq,
  word_eq_iff, word_eq_refl, contains, All, arith, Bool-cases, inl, inr,
}
use libalf.Angluin.Table.{Row, Table}
use libalf.Angluin.Rows.{needed_size, new_row, new_symbols, extend_rows, increase_alphabet_size}
use libalf.Angluin.Knows.{IsRow}
use libalf.Angluin.Shape.{
  indices, All-append, IsFresh, contains-indices_append, successor-IsWord, le-cases,
}
use libalf.Angluin.Adding.{IsTable, fresh-IsRow}

module _ {A : Type 0} where
  -- The rows of a word with the new symbols.
  new_symbols_lem :
      (stale : ℕ × ℕ) (w : Word) (rounds i : ℕ) (lower : List (Row A))
      → IsWord w
      → (extra : List (Row A)) × (new_symbols none stale w rounds i lower ≡ lower ++ extra)
        × All IsFresh extra
        × ((x : ℕ) → i ≤ x → x < i + rounds → contains (w ++ pos x ∷ []) (indices extra) ≡ true)
  unfolding new_symbols
  new_symbols_lem stale w zero i lower h =
      ([], sym (append-nil lower), tt, λ x le lt. absurd (omega arith))
  new_symbols_lem stale w (suc rounds) i lower h =
      let r = new_row (w ++ pos i ∷ []) stale.0 stale.1 in
      let (extra, same, fresh, there) =
        new_symbols_lem stale w rounds (i + 1) (lower ++ r ∷ []) h in
      (
        r ∷ extra,
        same ∙ append_assoc lower (r ∷ []) extra,
        ((successor-IsWord w i h, refl), fresh),
        λ x le lt. elim (le-cases i x le) [
          | inl here ↦ rw here (ground (arith, word_eq_refl (w ++ pos i ∷ [])))
          | inr later ↦ ground (arith, there x later)
        ],
      )

  -- The rows of all words of the upper table with the new symbols.
  extend_rows_lem :
      (stale : ℕ × ℕ) (old rounds : ℕ) (upper lower : List (Row A))
      → All (λ r. IsWord r.index) upper
      → (extra : List (Row A)) × (extend_rows none stale old rounds upper lower ≡ lower ++ extra)
        × All IsFresh extra
        × ((w : Word) (x : ℕ)
            → contains w (indices upper) ≡ true
            → old ≤ x
            → x < old + rounds
            → contains (w ++ pos x ∷ []) (indices extra) ≡ true)
  unfolding extend_rows
  extend_rows_lem stale old rounds [] lower h =
      ([], sym (append-nil lower), tt, λ w x c le lt. absurd (cc c))
  extend_rows_lem stale old rounds (r ∷ upper) lower h =
      let (first, same, fresh, there) = new_symbols_lem stale r.index rounds old lower h.0 in
      let (others, same', fresh', there') =
        extend_rows_lem stale old rounds upper (lower ++ first) h.1 in
      (
        first ++ others,
        ap (extend_rows none stale old rounds upper) same ∙ same' ∙ append_assoc lower first others,
        All-append IsFresh first others fresh fresh',
        λ w x c le lt. elim (Bool-cases (word_eq w r.index)) [
          | inl here ↦ rw ((word_eq_iff w r.index).0 here) (
              ground (
                arith,
                there x le lt,
                contains-indices_append (r.index ++ pos x ∷ []) first others,
              ))
          | inr other ↦ ground (
            arith,
            there' w x (ground arith) le lt,
            contains-indices_append (w ++ pos x ∷ []) first others,
          )
        ],
      )

  upper-IsWord :
      (K : Word → Option A) (columns : List Word) (rows : List (Row A))
      → All (IsRow K columns) rows
      → All (λ r. IsWord r.index) rows
  upper-IsWord K columns [] h = tt
  upper-IsWord K columns (r ∷ rows) h = (h.0.0, upper-IsWord K columns rows h.1)

  -- The larger alphabet keeps the invariant.
  pub increase_alphabet_size-IsTable :
      (K : Word → Option A) (stale : ℕ × ℕ) (new_asize : ℕ) (t : Table A)
      → IsTable K t
      → (lower : List (Row A)) × (size : ℕ) × (increase_alphabet_size none stale new_asize t
          ≡ record t { lower_table = lower; alphabet_size = size })
        × (new_asize ≤ size)
        × (t.alphabet_size ≤ size)
        × IsTable K (record t { lower_table = lower; alphabet_size = size })
  unfolding increase_alphabet_size
  increase_alphabet_size-IsTable K stale new_asize t v =
      elim (Bool-cases (leb new_asize t.alphabet_size)) [
        | inl e ↦ (t.lower_table, t.alphabet_size, rw e refl, ground arith, omega arith, v)
        | inr e ↦
            let (extra, same, fresh, there) =
              extend_rows_lem stale t.alphabet_size (new_asize - t.alphabet_size) t.upper_table
                t.lower_table (upper-IsWord K t.column_names t.upper_table v.upper) in
            let more : t.alphabet_size ≤ new_asize = ground arith in
            (
              t.lower_table ++ extra,
              new_asize,
              rw (e, same) refl,
              omega arith,
              more,
              record {
                columns = v.columns;
                columns_distinct = v.columns_distinct;
                first = v.first;
                upper = v.upper;
                lower =
                    All-append (IsRow K t.column_names) t.lower_table extra v.lower
                      (fresh-IsRow K t.column_names extra fresh);
                upper_distinct = v.upper_distinct;
                root = v.root;
                extended = λ w x c lt. elim (Bool-cases (leb t.alphabet_size x)) [
                  | inl new ↦ ground (
                    arith,
                    there w x c (ground arith) (omega arith),
                    contains-indices_append (w ++ pos x ∷ []) t.lower_table extra,
                  )
                  | inr old ↦ ground (
                    arith,
                    v.extended w x c (ground arith),
                    contains-indices_append (w ++ pos x ∷ []) t.lower_table extra,
                  )
                ];
              },
            )
      ]

-- The word has its symbols in an alphabet of the size.
abbrev pub HasSymbols : ℕ → Word → Type 0
HasSymbols size [] = Unit
HasSymbols size (pos x ∷ w) = (x < size) × HasSymbols size w
HasSymbols size (negsuc x ∷ w) = HasSymbols size w

pub HasSymbols-larger :
    (size larger : ℕ) (w : Word) → size ≤ larger → HasSymbols size w → HasSymbols larger w
HasSymbols-larger size larger [] le h = tt
HasSymbols-larger size larger (pos x ∷ w) le h =
    (omega (arith, h.0), HasSymbols-larger size larger w le h.1)
HasSymbols-larger size larger (negsuc x ∷ w) le h = HasSymbols-larger size larger w le h

pub needed_size_lem :
    (size : ℕ) (w : Word) → (size ≤ needed_size size w) × HasSymbols (needed_size size w) w
unfolding needed_size
needed_size_lem size [] = (omega arith, tt)
needed_size_lem size (pos x ∷ w) =
    let next = if leb size x then x + 1 else size in
    let (le, all) = needed_size_lem next w in
    let here : x < next = ground arith in
    let there : size ≤ next = ground arith in (omega arith, (omega arith, all))
needed_size_lem size (negsuc x ∷ w) = needed_size_lem size w
