-- ===== src/Angluin/Rows.antt =====
-- algorithm_angluin.h, class angluin_simple_table: how rows enter the table.
use libalf.Common.{
  ℕ, zero, suc, ◌+◌, ◌-◌, List, [], ◌∷◌, ◌++◌, Bool, true, false, ◌&&◌, ◌||◌, not, Option, none,
  some, leb, if◌then◌else◌, pos, negsuc, Word, map,
}
use libalf.Angluin.Table.{Normalizer, prefix_normal, Row, Table, search, search_tables, take_out}

-- The loop over the counterexample: the size of the alphabet that has its symbols.
unfoldable pub needed_size : ℕ → Word → ℕ
needed_size new_asize [] = new_asize
needed_size new_asize (pos x ∷ w) = needed_size (if leb new_asize x then x + 1 else new_asize) w
needed_size new_asize (negsuc x ∷ w) = needed_size new_asize w

-- `while(!word.empty()) { ...; word.pop_back(); }`: the word and its prefixes but the empty one,
-- the longest first.
unfoldable pub prefixes_down : Word → List Word
prefixes_down [] = []
prefixes_down (x ∷ w) = map (λ p. x ∷ p) (prefixes_down w) ++ (x ∷ []) ∷ []

module _ {A : Type 0} where
  abbrev pub found : Option (Row A) → Bool
  found none = false
  found (some _) = true

  abbrev pub new_row : Word → ℕ → ℕ → Row A
  new_row w ut lt = record { index = w; acceptance = []; ut_timestamp = ut; lt_timestamp = lt }

  abbrev pub push_upper : Row A → Table A → Table A
  push_upper r t = record t { upper_table = t.upper_table ++ r ∷ [] }

  abbrev pub push_lower : Row A → Table A → Table A
  push_lower r t = record t { lower_table = t.lower_table ++ r ∷ [] }

  -- The word enters the upper table: a row of the lower table moves up, if rows are to be unique.
  unfoldable pub enter : Bool → ℕ → Word → Table A → Table A
  enter unique now nw t = elim (if unique then take_out nw t.lower_table else none) [
    | some (r, rest) ↦
        push_upper (record r { ut_timestamp = now }) (record t { lower_table = rest })
    | none ↦ push_upper (new_row nw now 0) t
  ]

  -- One round of the loop over the alphabet.
  unfoldable pub add_successor : Option Normalizer → Bool → ℕ → Word → ℕ → Table A → Table A
  add_successor norm check_uniq now nw i t =
      let (word, bottom) = prefix_normal norm (nw ++ pos i ∷ []) in
      let above = found (search word t.upper_table) in
      if bottom
      then if above then t else push_upper (new_row word now 0) t
      else if check_uniq && above
      then t
      else push_lower (new_row word 0 now) t

  -- `rounds` is what is left of the alphabet from `i` on.
  unfoldable pub successors : Option Normalizer → Bool → ℕ → Word → ℕ → ℕ → Table A → Table A
  successors norm check_uniq now nw zero i t = t
  successors norm check_uniq now nw (suc rounds) i t =
      successors norm check_uniq now nw rounds (i + 1) (add_successor norm check_uniq now nw i t)

  unfoldable pub add_word_to_upper_table : Option Normalizer → Bool → ℕ → Word → Table A → Table A
  add_word_to_upper_table norm check_uniq now word t =
      let (nw, bottom) = prefix_normal norm word in
      if (check_uniq || bottom) && found (search nw t.upper_table)
      then t
      else let t' = enter (check_uniq && not bottom) now nw t in
        if bottom then t' else successors norm check_uniq now nw t'.alphabet_size 0 t'

  -- The row variable of increase_alphabet_size has no time stamps of its own: `stale` is what its
  -- memory holds.
  unfoldable pub new_symbols :
      Option Normalizer → ℕ × ℕ → Word → ℕ → ℕ → List (Row A) → List (Row A)
  new_symbols norm stale w zero new_suffix lower = lower
  new_symbols norm stale w (suc rounds) new_suffix lower =
      new_symbols norm stale w rounds (new_suffix + 1)
        (lower ++ new_row (prefix_normal norm (w ++ pos new_suffix ∷ [])).0 stale.0 stale.1 ∷ [])

  unfoldable pub extend_rows :
      Option Normalizer → ℕ × ℕ → ℕ → ℕ → List (Row A) → List (Row A) → List (Row A)
  extend_rows norm stale old rounds [] lower = lower
  extend_rows norm stale old rounds (r ∷ upper) lower =
      extend_rows norm stale old rounds upper (new_symbols norm stale r.index rounds old lower)

  unfoldable pub increase_alphabet_size : Option Normalizer → ℕ × ℕ → ℕ → Table A → Table A
  increase_alphabet_size norm stale new_asize t =
      if leb new_asize t.alphabet_size then t else record t {
        lower_table =
            extend_rows norm stale t.alphabet_size (new_asize - t.alphabet_size) t.upper_table
              t.lower_table;
        alphabet_size = new_asize;
      }

  unfoldable pub initialize_table : Option Normalizer → ℕ → Table A → Table A
  initialize_table norm now t =
      record (add_word_to_upper_table norm true now [] (record t {
        column_names = t.column_names ++ [] ∷ [];
        column_timestamps = t.column_timestamps ++ 0 ∷ [];
      })) { initialized = true }

  unfoldable pub add_words : Option Normalizer → ℕ → List Word → Table A → Table A
  add_words norm now [] t = t
  add_words norm now (w ∷ ws) t = add_words norm now ws (add_word_to_upper_table norm true now w t)

  -- With a knowledgebase. The word may be in the table already, which is refused where there is no
  -- normalizer.
  unfoldable pub add_counterexample :
      Option Normalizer → ℕ × ℕ → ℕ → Word → Table A → Bool × Table A
  add_counterexample norm stale now word t =
      if found (search_tables word t) && elim norm [ none ↦ true | some _ ↦ false ]
      then (false, t)
      else (
        true,
        add_words norm now (prefixes_down word)
            (increase_alphabet_size norm stale (needed_size t.alphabet_size word) t),
      )
