-- ===== src/Angluin/Counterexample.antt =====
-- algorithm_angluin.h: add_counterexample, where there is no normalizer.
use libalf.Common.{
  ℕ, ◌≡◌, refl, sym, subst, ◌∙◌, List, [], ◌∷◌, ◌++◌, map, true, false, ◌&&◌, ◌||◌, Option, none, ℤ,
  pos, negsuc, eq_ℤ, Word, IsWord, word_eq, word_eq_iff, is_prefix, contains, contains-append, All,
  arith, Bool-cases, inl, inr,
}
use libalf.Angluin.Table.{Table, search_tables}
use libalf.Angluin.Rows.{
  found, needed_size, prefixes_down, add_word_to_upper_table, add_words, add_counterexample,
}
use libalf.Angluin.Shape.{indices, found-search, contains-indices_append}
use libalf.Angluin.Adding.{IsTable, in_tables}
use libalf.Angluin.Words.{Enters, add_word-Enters}
use libalf.Angluin.Symbols.{
  increase_alphabet_size-IsTable, HasSymbols, HasSymbols-larger, needed_size_lem,
}

-- The words that the loop enters are the prefixes that are not empty.
contains-map :
    (x y : ℤ) (v : Word) (ws : List Word)
    → contains (y ∷ v) (map (λ p. x ∷ p) ws) ≡ (eq_ℤ y x && contains v ws)
contains-map x y v [] = ground arith
contains-map x y v (w ∷ ws) = ground (arith, contains-map x y v ws)

pub contains-prefixes_down :
    (y : ℤ) (v w : Word) → contains (y ∷ v) (prefixes_down w) ≡ is_prefix (y ∷ v) w
unfolding prefixes_down
contains-prefixes_down y v [] = refl
contains-prefixes_down y [] (x ∷ w) = ground (
  arith,
  contains-append (y ∷ []) (map (λ p. x ∷ p) (prefixes_down w)) ((x ∷ []) ∷ []),
  contains-map x y [] (prefixes_down w),
)
contains-prefixes_down y (z ∷ v) (x ∷ w) = ground (
  arith,
  contains-append (y ∷ z ∷ v) (map (λ p. x ∷ p) (prefixes_down w)) ((x ∷ []) ∷ []),
  contains-map x y (z ∷ v) (prefixes_down w),
  contains-prefixes_down z v w,
)

longer-IsWord :
    (x : ℕ) (ws : List Word)
    → All IsWord ws
    → All IsWord (map (λ p. pos x ∷ p) ws ++ (pos x ∷ []) ∷ [])
longer-IsWord x [] h = (refl, tt)
longer-IsWord x (w ∷ ws) h = (h.0, longer-IsWord x ws h.1)

prefixes-IsWord : (w : Word) → IsWord w → All IsWord (prefixes_down w)
unfolding prefixes_down
prefixes-IsWord [] h = tt
prefixes-IsWord (pos x ∷ w) h = longer-IsWord x (prefixes_down w) (prefixes-IsWord w h)
prefixes-IsWord (negsuc x ∷ w) h = cc

module _ {A : Type 0} (K : Word → Option A) where
  -- What entering words leaves as it is, and what it adds.
  pub record Grows (ws : List Word) (t t' : Table A) : Type 0 where
    pub valid : IsTable K t'
    pub upper :
        (u : Word)
        → contains u (indices t'.upper_table)
          ≡ (contains u (indices t.upper_table) || contains u ws)
    pub names : t'.column_names ≡ t.column_names
    pub size : t'.alphabet_size ≡ t.alphabet_size
    pub started : t'.initialized ≡ t.initialized

  present :
      (now : ℕ) (w : Word) (t : Table A)
      → contains w (indices t.upper_table) ≡ true
      → add_word_to_upper_table none true now w t ≡ t
  unfolding add_word_to_upper_table
  present now w t e = rw (found-search w t.upper_table, e) refl

  entered : (w : Word) (t t' : Table A) → IsTable K t → Enters K w t t' → Grows (w ∷ []) t t'
  entered w t t' v e =
      let upper : (u : Word)
          → contains u (indices t'.upper_table)
            ≡ (contains u (indices t.upper_table) || word_eq u w) =
        λ u.
          rw (e.upper)
            (ground (arith, contains-indices_append u t.upper_table (e.row ∷ []), e.index)) in
      record {
        valid = e.valid;
        upper = λ u. ground (arith, upper u);
        names = e.names;
        size = e.size;
        started = e.started;
      }

  add_word-Grows :
      (now : ℕ) (w : Word) (t : Table A)
      → IsTable K t
      → IsWord w
      → Grows (w ∷ []) t (add_word_to_upper_table none true now w t)
  add_word-Grows now w t v word = elim (Bool-cases (contains w (indices t.upper_table))) [
    | inl e ↦ rw (present now w t e) record {
      valid = v;
      upper = λ u. elim (Bool-cases (word_eq u w)) [
        | inl here ↦ rw ((word_eq_iff u w).0 here, e) refl
        | inr there ↦ ground arith
      ];
      names = refl;
      size = refl;
      started = refl;
    }
    | inr e ↦
        entered w t (add_word_to_upper_table none true now w t) v
          (add_word-Enters K now w t v word e true)
  ]

  add_words-Grows :
      (now : ℕ) (ws : List Word) (t : Table A)
      → IsTable K t
      → All IsWord ws
      → Grows ws t (add_words none now ws t)
  unfolding add_words
  add_words-Grows now [] t v words = record {
    valid = v;
    upper = λ u. ground arith;
    names = refl;
    size = refl;
    started = refl;
  }
  add_words-Grows now (w ∷ ws) t v words =
      let first = add_word-Grows now w t v words.0 in
      let rest =
        add_words-Grows now ws (add_word_to_upper_table none true now w t) first.valid words.1 in
      record {
        valid = rest.valid;
        upper = λ u. ground (arith, rest.upper u, first.upper u);
        names = rest.names ∙ first.names;
        size = rest.size ∙ first.size;
        started = rest.started ∙ first.started;
      }

  found_tables : (w : Word) (t : Table A) → found (search_tables w t) ≡ in_tables K t w
  unfolding search_tables
  found_tables w t = ground (arith, found-search w t.upper_table, found-search w t.lower_table)

  prefixes_upper :
      (word : Word) (t t' : Table A)
      → IsTable K t
      → Grows (prefixes_down word) t t'
      → (u : Word)
      → contains u (indices t'.upper_table)
        ≡ (contains u (indices t.upper_table) || is_prefix u word)
  prefixes_upper word t t' v grown [] = ground (arith, grown.upper [], v.root)
  prefixes_upper word t t' v grown (y ∷ u) =
      ground (arith, grown.upper (y ∷ u), contains-prefixes_down y u word)

  -- Without a normalizer, for a word without negative symbols that has no row, add_counterexample
  -- returns true and keeps the invariant of the table: the upper table has the words that it had
  -- and the prefixes of the word, and no others, the alphabet has the symbols of the word, and
  -- the columns stay.
  pub add_counterexample_lem :
      (stale : ℕ × ℕ) (now : ℕ) (word : Word) (t : Table A)
      → IsTable K t
      → IsWord word
      → in_tables K t word ≡ false
      → (t' : Table A) × (add_counterexample none stale now word t ≡ (true, t'))
        × IsTable K t'
        × (t'.column_names ≡ t.column_names)
        × (t'.initialized ≡ t.initialized)
        × HasSymbols t'.alphabet_size word
        × ((u : Word)
            → contains u (indices t'.upper_table)
              ≡ (contains u (indices t.upper_table) || is_prefix u word))
  unfolding add_counterexample
  add_counterexample_lem stale now word t v is_word absent =
      let (enough, symbols) = needed_size_lem t.alphabet_size word in
      let (lower, size, larger, fits, le, valid) =
        increase_alphabet_size-IsTable K stale (needed_size t.alphabet_size word) t v in
      let wide : Table A = record t { lower_table = lower; alphabet_size = size } in
      let grown =
        add_words-Grows now (prefixes_down word) wide valid (prefixes-IsWord word is_word) in
      (
        add_words none now (prefixes_down word) wide,
        rw (found_tables word t, absent, larger) refl,
        grown.valid,
        grown.names,
        grown.started,
        subst (λ n. HasSymbols n word) (sym grown.size)
            (HasSymbols-larger (needed_size t.alphabet_size word) size word fits symbols),
        prefixes_upper word wide _ valid grown,
      )
