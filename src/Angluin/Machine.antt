-- ===== src/Angluin/Machine.antt =====
-- algorithm_angluin.h: the machine that derive_conjecture makes of a closed and consistent table.
use libalf.Common.{
  nth, ℕ, zero, suc, ◌+◌, ◌<◌, ◌≡◌, refl, ap, sym, subst, ◌∙◌, List, [], ◌∷◌, ◌++◌, append-nil,
  true, Option, none, some, length, ℤ, pos, Word, contains, All, arith, Option-cases, inl, inr,
}
use libalf.Filter.{FilterAnswer}
use libalf.Conjecture.{lookup, targets}
use libalf.Angluin.Table.{Row, Table}
use libalf.Angluin.Derive.{state_of, with_state, state_transitions, machine, derive_conjecture}
use libalf.Angluin.Knows.{known_prefix, all_known}
use libalf.Angluin.Shape.{indices}
use libalf.Angluin.Adding.{in_tables}
use libalf.Angluin.Growing.{known_index}
use libalf.Angluin.Consistent.{IsEquality}
use libalf.Angluin.Passes.{IsReady}
use libalf.Angluin.States.{
  first_answer, lookup_here, lookup_later, nth-All, state_of_lem, state_outputs_lem,
}
use libalf.Angluin.Hypothesis.{states, IsState, states-IsState, word-Occurs, Moves, symbols_lem}

zero_add : (q : ℕ) → 0 + q ≡ q
zero_add q = omega arith

module _ {A : Type 0} (o : FilterAnswer A) (eq : IsEquality o) (K : Word → Option A) (t : Table A)
    (ready : IsReady K t) where
  abbrev row : Word → List A
  row w = known_prefix K w t.column_names

  -- The transitions of the states from an id on.
  abbrev Leads : List (Row A) → ℕ → List (ℤ × List (ℤ × List ℤ)) → Type 0
  Leads rest id moves =
      (i : ℕ) (s : Row A) (x q : ℕ)
      → nth i rest ≡ some s
      → x < t.alphabet_size
      → state_of o.answer (row (s.index ++ pos x ∷ [])) (states o eq K t ready) 0 ≡ some q
      → targets (pos (id + i)) (pos x) moves ≡ some (pos q ∷ [])

  state_lem :
      (s : Row A) (rest : List (Row A)) (id : ℕ) (entries : List (ℤ × List ℤ))
      (others : List (ℤ × List (ℤ × List ℤ)))
      → Moves o eq K t ready s.index t.alphabet_size 0 entries
      → Leads rest (id + 1) others
      → Leads (s ∷ rest) id (with_state id entries others)
  state_lem s rest id [] others moves leads zero s' x q e lt found =
      let here : s ≡ s' = ground arith in
      cc (
        moves x q (omega arith) (omega arith) (
          subst
            (λ r.
              state_of o.answer (row (r.index ++ pos x ∷ [])) (states o eq K t ready) 0 ≡ some q)
            (sym here) found))
  state_lem s rest id (entry ∷ entries) others moves leads zero s' x q e lt found =
      let here : s ≡ s' = ground arith in
      rw (lookup_here (id + 0) id (entry ∷ entries) others (omega arith), targets)
        (moves x q (omega arith) (omega arith) (
          subst
            (λ r.
              state_of o.answer (row (r.index ++ pos x ∷ [])) (states o eq K t ready) 0 ≡ some q)
            (sym here) found))
  state_lem s rest id [] others moves leads (suc i) s' x q e lt found =
      let place : id + 1 + i ≡ id + suc i = omega arith in
      subst (λ n. targets (pos n) (pos x) others ≡ some (pos q ∷ [])) place
        (leads i s' x q e lt found)
  state_lem s rest id (entry ∷ entries) others moves leads (suc i) s' x q e lt found =
      let place : id + 1 + i ≡ id + suc i = omega arith in
      rw (lookup_later (id + suc i) id (entry ∷ entries) others (omega arith), targets)
        (subst (λ n. targets (pos n) (pos x) others ≡ some (pos q ∷ [])) place
          (leads i s' x q e lt found))

  states_lem :
      (rest : List (Row A)) (id : ℕ)
      → All (IsState o eq K t ready) rest
      → (moves : List (ℤ × List (ℤ × List ℤ))) × (state_transitions o.answer none t
            (states o eq K t ready)
            rest
            id
          ≡ some moves)
        × Leads rest id moves
  unfolding state_transitions
  states_lem [] id h = ([], refl, λ i s x q e. cc e)
  states_lem (s ∷ rest) id h =
      let (entries, first, moves) =
        symbols_lem o eq K t ready s.index t.alphabet_size 0 h.0.2 (omega arith) in
      let (others, later, leads) = states_lem rest (id + 1) h.1 in
      (
        with_state id entries others,
        rw (first, later, state_transitions) refl,
        state_lem s rest id entries others moves leads,
      )

  -- The first answer of a full row is that of its word.
  abbrev pub StartsKnown : Word → List Word → Type 0
  StartsKnown w columns =
      (a : A) × (rest : List A) × (known_prefix K w columns ≡ a ∷ rest) × (K w ≡ some a)

  first_column :
      (w : Word) (columns : List Word)
      → all_known K w ([] ∷ columns) ≡ true
      → StartsKnown w ([] ∷ columns)
  unfolding known_prefix all_known
  first_column w columns all = elim (Option-cases (K (w ++ []))) [
    | inl e ↦ absurd (ground arith)
    | inr (a, e) ↦ (
      a,
      known_prefix K w columns,
      rw (e, known_prefix) refl,
      subst (λ u. K u ≡ some a) (append-nil w) e,
    )
  ]

  pub row_first : (w : Word) → all_known K w t.column_names ≡ true → StartsKnown w t.column_names
  row_first w all =
      let (columns, first) = ready.filled.valid.first in
      subst (StartsKnown w) (sym first)
        (first_column w columns (subst (λ cs. all_known K w cs ≡ true) first all))

  outputs_ready :
      (rows : List (Row A))
      → All (IsState o eq K t ready) rows
      → All (λ s. (a : A) × (rest : List A) × (s.acceptance ≡ a ∷ rest)) rows
  outputs_ready [] h = tt
  outputs_ready (s ∷ rows) h =
      let (a, rest, same, _) = row_first s.index h.0.0.1 in
      ((a, rest, h.0.0.0 ∙ same), outputs_ready rows h.1)

  abbrev pub id_of : Word → Option ℕ
  id_of w = state_of o.answer (row w) (states o eq K t ready) 0

  -- The state of a word of the upper table: its output, and where it leads.
  abbrev pub HasOutputs : List (ℤ × A) → Type 0
  HasOutputs out =
      (u : Word) (q : ℕ)
      → contains u (indices t.upper_table) ≡ true
      → id_of u ≡ some q
      → lookup (pos q) out ≡ K u

  abbrev pub HasMoves : List (ℤ × List (ℤ × List ℤ)) → Type 0
  HasMoves moves =
      (u : Word) (x q q' : ℕ)
      → contains u (indices t.upper_table) ≡ true
      → x < t.alphabet_size
      → id_of u ≡ some q
      → id_of (u ++ pos x ∷ []) ≡ some q'
      → targets (pos q) (pos x) moves ≡ some (pos q' ∷ [])

  -- Each word of the table has an id, and its state is a row with its answers.
  pub id_lem :
      (w : Word)
      → in_tables K t w ≡ true
      → (q : ℕ) × (s : Row A) × (id_of w ≡ some q)
        × (nth q (states o eq K t ready) ≡ some s)
        × (s.acceptance ≡ row w)
  id_lem w c =
      let (q, s, found, place, acceptance) =
        state_of_lem o eq (row w) (states o eq K t ready) 0 (word-Occurs o eq K t ready w c) in
      (q, s, found ∙ ap some (zero_add q), place, acceptance)

  same_id : (w : Word) (q q' : ℕ) → id_of w ≡ some q → id_of w ≡ some q' → q ≡ q'
  same_id w q q' e e' = let same : some q ≡ some q' = sym e ∙ e' in ground (arith, same)

  outputs_lem :
      (out : List (ℤ × A))
      → ((i : ℕ) (s : Row A)
          → nth i (states o eq K t ready) ≡ some s
          → lookup (pos (0 + i)) out ≡ first_answer s.acceptance)
      → HasOutputs out
  outputs_lem out answers u q c e =
      let (i, s, found, place, acceptance) = id_lem u (ground arith) in
      let (a, _, first, answer) =
        row_first u (known_index K t ready.filled u t.upper_table ready.filled.upper c) in
      subst (λ n. lookup (pos n) out ≡ K u) (zero_add i ∙ same_id u i q found e)
        (answers i s place ∙ ap first_answer (acceptance ∙ first) ∙ sym answer)

  moves_lem :
      (moves : List (ℤ × List (ℤ × List ℤ)))
      → Leads (states o eq K t ready) 0 moves
      → HasMoves moves
  moves_lem moves leads u x q q' c lt e e' =
      let (i, s, found, place, acceptance) = id_lem u (ground arith) in
      let (full, _, above) =
        nth-All (IsState o eq K t ready) i (states o eq K t ready) s (states-IsState o eq K t ready)
          place in
      let successors : row (s.index ++ pos x ∷ []) ≡ row (u ++ pos x ∷ []) =
        ready.consistent s.index u x above c (sym full.0 ∙ acceptance) lt in
      subst (λ n. targets (pos n) (pos x) moves ≡ some (pos q' ∷ []))
        (zero_add i ∙ same_id u i q found e)
        (leads i s x q' place lt
          (ap (λ b. state_of o.answer b (states o eq K t ready) 0) successors ∙ e'))

  pub machine_lem :
      (out : List (ℤ × A)) × (moves : List (ℤ × List (ℤ × List ℤ))) × (derive_conjecture o.answer
          none t
        ≡ some (machine t.alphabet_size (length (states o eq K t ready)) out moves))
      × HasOutputs out
      × HasMoves moves
  unfolding derive_conjecture
  machine_lem =
      let all = states-IsState o eq K t ready in
      let (out, outputs, answers) =
        state_outputs_lem o eq (states o eq K t ready) 0
          (outputs_ready (states o eq K t ready) all) in
      let (moves, transitions, leads) = states_lem (states o eq K t ready) 0 all in
      (
        out,
        moves,
        rw (outputs, transitions, derive_conjecture) refl,
        outputs_lem out answers,
        moves_lem moves leads,
      )
