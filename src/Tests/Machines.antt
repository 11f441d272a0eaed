-- ===== src/Tests/Machines.antt =====
-- The theorems on the machine of a table at a concrete input: a language of one symbol.
use libalf.Common.{
  ℕ, ◌≡◌, ◌↔◌, refl, sym, ◌∙◌, List, [], ◌∷◌, pos, Word, true, false, Bool, Option, some, none, not,
  if◌then◌else◌, contains, word_eq, word_eq_iff, arith, Bool-cases, inl, inr,
}
use libalf.Conjecture.{MooreMachine, lookup, run, accepts}
use libalf.Angluin.Table.{
  Row, Table, rows_filled, columns_filled, same_acceptance, has_match, closed_loop, is_closed,
}
use libalf.Angluin.Complete.{conjecture_ready, is_consistent, first_loop, second_loop}
use libalf.Angluin.Derive.{derive_conjecture}
use libalf.Angluin.Knows.{known_prefix, all_known}
use libalf.Angluin.Shape.{indices}
use libalf.Angluin.Adding.{IsTable}
use libalf.Angluin.Full.{IsFilled}
use libalf.Angluin.Consistent.{IsEquality}
use libalf.Angluin.Passes.{IsReady}
use libalf.Angluin.Terminates.{conjecture_ready-IsReady}
use libalf.Angluin.Runs.{derive_conjecture-run, derive_conjecture-accepts}
use libalf.Tests.Values.{bools}

bools_same_iff : (a b : Bool) → (bools.answer.same a b ≡ true) ↔ (a ≡ b)
bools_same_iff true true = (λ _. refl, λ _. refl)
bools_same_iff true false = ground arith
bools_same_iff false true = ground arith
bools_same_iff false false = (λ _. refl, λ _. refl)

bools_differs_not : (a b : Bool) → bools.differs a b ≡ not (bools.answer.same a b)
bools_differs_not true true = refl
bools_differs_not true false = refl
bools_differs_not false true = refl
bools_differs_not false false = refl

bools-IsEquality : IsEquality bools
bools-IsEquality = record { same_iff = bools_same_iff; differs_not = bools_differs_not }

abbrev word_0 : Word
word_0 = pos 0 ∷ []

abbrev word_00 : Word
word_00 = pos 0 ∷ pos 0 ∷ []

-- The words of odd length, of what is known of them.
abbrev odd : Word → Option Bool
odd w =
    if word_eq w []
    then some false
    else if word_eq w word_0
    then some true
    else if word_eq w word_00
    then some false
    else none

abbrev row_of : Word → List Bool → Row Bool
row_of w answers = record { index = w; acceptance = answers; ut_timestamp = 0; lt_timestamp = 0 }

abbrev table : Table Bool
table = record {
  column_names = [] ∷ [];
  column_timestamps = 0 ∷ [];
  upper_table = row_of [] (false ∷ []) ∷ row_of word_0 (true ∷ []) ∷ [];
  lower_table = row_of word_00 (false ∷ []) ∷ [];
  initialized = true;
  alphabet_size = 1;
}

table-IsTable : IsTable odd table
table-IsTable = record {
  columns = (refl, tt);
  columns_distinct = (refl, tt);
  first = ([], refl);
  upper = ((refl, (refl, tt)), ((refl, (refl, tt)), tt));
  lower = ((refl, (refl, tt)), tt);
  upper_distinct = (refl, (refl, tt));
  root = refl;
  extended = λ w x c lt.
      let zeroth : x ≡ 0 = omega arith in
      elim (Bool-cases (word_eq w [])) [
        | inl e ↦ rw ((word_eq_iff w []).0 e, zeroth) refl
        | inr e ↦ rw ((word_eq_iff w word_0).0 (ground arith), zeroth) refl
      ];
}

table-IsFilled : IsFilled odd table
unfolding known_prefix all_known
table-IsFilled = record {
  valid = table-IsTable;
  upper = ((refl, refl), ((refl, refl), tt));
  lower = ((refl, refl), tt);
}

table-alone :
    (w : Word)
    → contains w (indices table.upper_table) ≡ true
    → known_prefix odd [] table.column_names ≡ known_prefix odd w table.column_names
    → w ≡ []
unfolding known_prefix
table-alone w c same = elim (Bool-cases (word_eq w [])) [
  | inl e ↦ (word_eq_iff w []).0 e
  | inr e ↦
      let other : w ≡ word_0 = (word_eq_iff w word_0).0 (ground arith) in
      absurd (cc (rw other at same))
]

table_ready : conjecture_ready bools none table ≡ some true
unfolding conjecture_ready columns_filled rows_filled is_closed closed_loop has_match
    same_acceptance is_consistent first_loop second_loop
table_ready = refl

table-IsReady : IsReady odd table
table-IsReady =
    let (b, checked, iff) =
      conjecture_ready-IsReady bools bools-IsEquality odd table refl table-IsFilled table-alone in
    let same : some b ≡ some true = sym checked ∙ table_ready in iff.0 (ground (arith, same))

derive_conjecture-run_example :
    (m : MooreMachine Bool) × (q : ℕ) × (derive_conjecture bools.answer none table ≡ some m)
    × (run m.transitions m.initial_states word_0 ≡ pos q ∷ [])
    × (lookup (pos q) m.output_mapping ≡ some true)
    × (m.valid ≡ true)
derive_conjecture-run_example =
    derive_conjecture-run bools bools-IsEquality odd table table-IsReady word_0
      (row_of [] (false ∷ [])) (row_of word_0 (true ∷ []) ∷ []) refl refl (refl, omega arith, refl)

derive_conjecture-accepts_example :
    (m : MooreMachine Bool) × (derive_conjecture bools.answer none table ≡ some m)
    × (some true ≡ some (accepts m word_0))
derive_conjecture-accepts_example =
    derive_conjecture-accepts bools bools-IsEquality odd table table-IsReady word_0
      (row_of [] (false ∷ [])) (row_of word_0 (true ∷ []) ∷ []) refl refl (refl, omega arith, refl)
