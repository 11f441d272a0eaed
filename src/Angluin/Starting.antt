-- ===== src/Angluin/Starting.antt =====
-- algorithm_angluin.h: a new table, and initialize_table.
use libalf.Common.{ℕ, ◌≡◌, refl, [], ◌∷◌, true, false, Option, none, Word, word_eq_iff, arith}
use libalf.Angluin.Table.{Table, search, take_out}
use libalf.Angluin.Rows.{new_row, push_upper, enter, add_word_to_upper_table, initialize_table}
use libalf.Angluin.Shape.{successors_lem}
use libalf.Angluin.Adding.{IsTable, fresh-IsRow}

module _ {A : Type 0} where
  -- What the constructor makes.
  abbrev pub new_table : ℕ → Table A
  new_table alphabet_size = record {
    column_names = [];
    column_timestamps = [];
    upper_table = [];
    lower_table = [];
    initialized = false;
    alphabet_size = alphabet_size;
  }

  -- Where no row is there, the row of the empty word is entered.
  enter_root :
      (now : ℕ) (t : Table A)
      → t.lower_table ≡ []
      → enter true now [] t ≡ push_upper (new_row [] now 0) t
  unfolding enter take_out
  enter_root now t e = rw e refl

  -- Without a normalizer, initialize_table makes of a new table one that satisfies the invariant
  -- of the table.
  pub initialize_table-IsTable :
      (K : Word → Option A) (now alphabet_size : ℕ)
      → IsTable K (initialize_table none now (new_table alphabet_size))
  unfolding initialize_table add_word_to_upper_table search
  initialize_table-IsTable K now n =
      let t : Table A = record (new_table n) {
        column_names = [] ∷ [];
        column_timestamps = 0 ∷ [];
      } in
      let (extra, e, fresh, there) =
        successors_lem true now [] n 0 (push_upper (new_row [] now 0) t) refl in
      rw (enter_root now t refl, e)
        record {
          columns = (refl, tt);
          columns_distinct = (refl, tt);
          first = ([], refl);
          upper = ((refl, tt), tt);
          lower = fresh-IsRow K ([] ∷ []) extra fresh;
          upper_distinct = (refl, tt);
          root = refl;
          extended = λ w x c lt.
              rw ((word_eq_iff w []).0 (ground arith)) (there x (omega arith) (omega arith));
        }
