-- ===== src/Tests/Angluin.antt =====
-- The theorems on the observation table at concrete inputs: one symbol, and a knowledgebase.
use libalf.Common.{
  ℕ, ◌+◌, ◌≡◌, ◌↔◌, ◌⊎◌, refl, List, [], ◌∷◌, pos, Word, true, false, Bool, Option, some,
  if◌then◌else◌, none, not, word_eq, word_eq_iff, contains, is_prefix, map, ◌||◌, ◌==◌, ==_iff,
  length, arith,
}
use libalf.Filter.{FilterAnswer}
use libalf.Knowledgebase.Node.{words}
use libalf.Knowledgebase.Base.{Base}
use libalf.Knowledgebase.Base.Entries.{known}
use libalf.Angluin.Table.{Row, Table, add_column, is_closed}
use libalf.Angluin.Rows.{add_word_to_upper_table, add_counterexample, initialize_table}
use libalf.Angluin.Fill.{fill_missing_columns}
use libalf.Angluin.Complete.{complete, conjecture_ready, is_consistent, make_consistent, close}
use libalf.Angluin.Knows.{known_prefix, all_known, rows_known, rows_ask, filled_row}
use libalf.Angluin.Shape.{indices}
use libalf.Angluin.Adding.{IsTable}
use libalf.Angluin.Words.{Enters, add_word-Enters}
use libalf.Angluin.Filling.{Knows, Asked, fill_missing_columns_lem}
use libalf.Angluin.Full.{IsFilled}
use libalf.Angluin.Consistent.{IsEquality}
use libalf.Angluin.Separating.{IsConsistent, Separates}
use libalf.Angluin.Deciding.{is_consistent_lem, make_consistent_lem}
use libalf.Angluin.Closing.{IsClosed, IsUnmatched, is_closed_iff, close_lem}
use libalf.Angluin.Starting.{new_table, initialize_table-IsTable}
use libalf.Angluin.Symbols.{HasSymbols}
use libalf.Angluin.Counterexample.{add_counterexample_lem}
use libalf.Angluin.Sync.{sync_to_knowledgebase}
use libalf.Angluin.Synced.{SyncedTable, sync_to_knowledgebase_lem}
use libalf.Angluin.Passes.{IsReady, Completed}
use libalf.Angluin.Terminates.{complete_returns, complete_returns_first, conjecture_ready-IsReady}
use libalf.Tests.{numbers, unequal, seen, seen-IsValid}

abbrev pub oracle : FilterAnswer ℕ
oracle = record {
  answer = numbers;
  to_bool = λ a. not (a == 0);
  equals_bool = λ a b. if b then a == 1 else a == 0;
  of_bool = λ b. if b then 1 else 0;
  differs = unequal;
}

oracle-IsEquality : IsEquality oracle
oracle-IsEquality = record { same_iff = λ a b. ==_iff a b; differs_not = λ a b. refl }

abbrev pub word_0 : Word
word_0 = pos 0 ∷ []

abbrev pub word_00 : Word
word_00 = pos 0 ∷ pos 0 ∷ []

-- Words of at most two symbols are known, and their answers alternate.
abbrev alternating : Word → Option ℕ
alternating w =
    if word_eq w []
    then some 4
    else if word_eq w word_0
    then some 9
    else if word_eq w word_00
    then some 4
    else none

abbrev row_of : Word → List ℕ → Row ℕ
row_of w answers = record { index = w; acceptance = answers; ut_timestamp = 0; lt_timestamp = 0 }

-- A filled table with a row that the upper table does not have.
abbrev filled_table : Table ℕ
filled_table = record {
  column_names = [] ∷ [];
  column_timestamps = 0 ∷ [];
  upper_table = row_of [] (4 ∷ []) ∷ [];
  lower_table = row_of word_0 (9 ∷ []) ∷ [];
  initialized = true;
  alphabet_size = 1;
}

filled_table-IsTable : IsTable alternating filled_table
filled_table-IsTable = record {
  columns = (refl, tt);
  columns_distinct = (refl, tt);
  first = ([], refl);
  upper = ((refl, (refl, tt)), tt);
  lower = ((refl, (refl, tt)), tt);
  upper_distinct = (refl, tt);
  root = refl;
  extended = λ w x c lt.
      let here : w ≡ [] = (word_eq_iff w []).0 (ground arith) in
      let zeroth : x ≡ 0 = omega arith in rw (here, zeroth) refl;
}

filled_table-IsFilled : IsFilled alternating filled_table
unfolding known_prefix all_known
filled_table-IsFilled = record {
  valid = filled_table-IsTable;
  upper = ((refl, refl), tt);
  lower = ((refl, refl), tt);
}

-- Its one upper row is that of the empty word.
filled_table-alone :
    (w : Word)
    → contains w (indices filled_table.upper_table) ≡ true
    → known_prefix alternating [] filled_table.column_names
      ≡ known_prefix alternating w filled_table.column_names
    → w ≡ []
filled_table-alone w c same = (word_eq_iff w []).0 (ground arith)

-- A table that nothing was filled in.
abbrev empty_table : Table ℕ
empty_table = record {
  column_names = [] ∷ [];
  column_timestamps = 0 ∷ [];
  upper_table = row_of [] [] ∷ [];
  lower_table = row_of word_0 [] ∷ [];
  initialized = true;
  alphabet_size = 1;
}

empty_table-IsTable : IsTable (known numbers seen) empty_table
empty_table-IsTable = record {
  columns = (refl, tt);
  columns_distinct = (refl, tt);
  first = ([], refl);
  upper = ((refl, tt), tt);
  lower = ((refl, tt), tt);
  upper_distinct = (refl, tt);
  root = refl;
  extended = filled_table-IsTable.extended;
}

abbrev fuel_of_seen : ℕ
fuel_of_seen = length (words [] seen.root) + length (words [] seen.root) + 2

complete_returns_example :
    (b : Bool) × (t' : Table ℕ) × (base' : Base ℕ) × (complete oracle none none fuel_of_seen
        empty_table seen
      ≡ some (b, t', base'))
    × Knows oracle (known numbers seen) base'
    × Completed (known numbers seen) b t' base'
    × (t'.initialized ≡ true)
complete_returns_example =
    complete_returns oracle oracle-IsEquality fuel_of_seen empty_table seen seen-IsValid refl
      empty_table-IsTable (omega arith)

complete_returns_first_example :
    (b : Bool) × (t' : Table ℕ) × (base' : Base ℕ) × (complete oracle none none fuel_of_seen
        (new_table 2)
        seen
      ≡ some (b, t', base'))
    × Knows oracle (known numbers seen) base'
    × Completed (known numbers seen) b t' base'
    × (t'.initialized ≡ true)
complete_returns_first_example =
    complete_returns_first oracle oracle-IsEquality fuel_of_seen 2 seen seen-IsValid (omega arith)

conjecture_ready-IsReady_example :
    (b : Bool) × (conjecture_ready oracle none filled_table ≡ some b)
    × ((b ≡ true) ↔ IsReady alternating filled_table)
conjecture_ready-IsReady_example =
    conjecture_ready-IsReady oracle oracle-IsEquality alternating filled_table refl
      filled_table-IsFilled filled_table-alone

fill_missing_columns_lem_example :
    (base' : Base ℕ) × (fill_missing_columns oracle none empty_table.column_names
        empty_table.upper_table true seen
      ≡ some (
        rows_known (known numbers seen) empty_table.column_names empty_table.upper_table,
        map (filled_row (known numbers seen) empty_table.column_names) empty_table.upper_table,
        base',
      ))
    × Knows oracle (known numbers seen) base'
    × Asked oracle
        (known numbers seen)
        (rows_ask (known numbers seen) empty_table.column_names empty_table.upper_table)
        seen
        base'
fill_missing_columns_lem_example =
    fill_missing_columns_lem oracle (known numbers seen) empty_table.column_names
      empty_table.upper_table true seen (refl, tt) ((refl, tt), tt) (seen-IsValid, λ v. refl)

is_consistent_lem_example :
    (b : Bool) × (is_consistent oracle none filled_table ≡ some b)
    × ((b ≡ true) ↔ IsConsistent alternating filled_table)
is_consistent_lem_example =
    is_consistent_lem oracle oracle-IsEquality alternating filled_table filled_table-IsFilled
      filled_table-alone

make_consistent_lem_example :
    (make_consistent oracle none 3 filled_table ≡ some (true, filled_table))
      × IsConsistent alternating filled_table
    ⊎ (suffix : Word) × (make_consistent oracle none 3 filled_table
        ≡ some (false, (add_column none 3 suffix filled_table).1))
      × Separates alternating filled_table suffix
make_consistent_lem_example =
    make_consistent_lem oracle oracle-IsEquality alternating filled_table filled_table-IsFilled 3

is_closed_iff_example : (is_closed numbers filled_table ≡ true) ↔ IsClosed alternating filled_table
is_closed_iff_example =
    is_closed_iff alternating oracle oracle-IsEquality filled_table filled_table-IsFilled

close_lem_example :
    (close oracle none 3 filled_table ≡ (true, filled_table)) × IsClosed alternating filled_table
    ⊎ (w : Word) × (close oracle none 3 filled_table
        ≡ (false, add_word_to_upper_table none false 3 w filled_table))
      × IsUnmatched alternating filled_table w
close_lem_example =
    close_lem alternating oracle oracle-IsEquality filled_table filled_table-IsFilled 3

add_word-Enters_example :
    Enters alternating word_0 filled_table (add_word_to_upper_table none true 3 word_0 filled_table)
add_word-Enters_example =
    add_word-Enters alternating 3 word_0 filled_table filled_table-IsTable refl refl true

initialize_table-IsTable_example : IsTable alternating (initialize_table none 3 (new_table 2))
initialize_table-IsTable_example = initialize_table-IsTable alternating 3 2

add_counterexample_lem_example :
    (t' : Table ℕ) × (add_counterexample none (7, 8) 3 (pos 0 ∷ pos 2 ∷ []) filled_table
      ≡ (true, t'))
    × IsTable alternating t'
    × (t'.column_names ≡ [] ∷ [])
    × (t'.initialized ≡ true)
    × HasSymbols t'.alphabet_size (pos 0 ∷ pos 2 ∷ [])
    × ((u : Word)
        → contains u (indices t'.upper_table)
          ≡ (contains u (indices filled_table.upper_table) || is_prefix u (pos 0 ∷ pos 2 ∷ [])))
add_counterexample_lem_example =
    add_counterexample_lem alternating (7, 8) 3 (pos 0 ∷ pos 2 ∷ []) filled_table
      filled_table-IsTable refl refl

sync_to_knowledgebase_lem_example :
    SyncedTable oracle oracle-IsEquality
      (known numbers seen)
      (sync_to_knowledgebase oracle none filled_table seen)
sync_to_knowledgebase_lem_example =
    sync_to_knowledgebase_lem oracle oracle-IsEquality filled_table seen refl
