-- ===== src/Angluin/Runs.antt =====
-- algorithm_angluin.h and conjecture.h: the runs of the machine that derive_conjecture makes.
use libalf.Common.{
  ℕ, ◌<◌, ◌≡◌, refl, ap, sym, subst, ◌∙◌, List, [], ◌∷◌, ◌++◌, append-nil, append_assoc, Bool, true,
  false, Option, none, some, length, ℤ, pos, negsuc, Word, contains, All, Bool-cases, inl, inr,
}
use libalf.Filter.{FilterAnswer}
use libalf.Conjecture.{MooreMachine, lookup, targets, step, run, reaches_final, accepts}
use libalf.Angluin.Table.{Row, Table, has_match}
use libalf.Angluin.Derive.{states_loop, state_of, machine, derive_conjecture}
use libalf.Angluin.Knows.{known_prefix}
use libalf.Angluin.Shape.{indices}
use libalf.Angluin.Full.{IsFull}
use libalf.Angluin.Growing.{known_index}
use libalf.Angluin.Consistent.{IsEquality, same_acceptance_iff}
use libalf.Angluin.Passes.{IsReady}
use libalf.Angluin.Hypothesis.{states}
use libalf.Angluin.Machine.{row_first, id_of, HasMoves, id_lem, machine_lem}

module _ {A : Type 0} (t : Table A) where
  -- The word, and the words on the way to it from another, are in the upper table.
  abbrev pub IsWalk : Word → Word → Type 0
  IsWalk u [] = contains u (indices t.upper_table) ≡ true
  IsWalk u (pos x ∷ v) =
      (contains u (indices t.upper_table) ≡ true)
      × (x < t.alphabet_size)
      × IsWalk (u ++ pos x ∷ []) v
  IsWalk u (negsuc x ∷ v) = ⊥

  walk_start : (u v : Word) → IsWalk u v → contains u (indices t.upper_table) ≡ true
  walk_start u [] h = h
  walk_start u (pos x ∷ v) h = h.0
  walk_start u (negsuc x ∷ v) h = absurd h

  walk_end : (u v : Word) → IsWalk u v → contains (u ++ v) (indices t.upper_table) ≡ true
  walk_end u [] h = rw (append-nil u) h
  walk_end u (pos x ∷ v) h =
      subst (λ w. contains w (indices t.upper_table) ≡ true) (append_assoc u (pos x ∷ []) v)
        (walk_end (u ++ pos x ∷ []) v h.2)
  walk_end u (negsuc x ∷ v) h = absurd h

module _ {A : Type 0} (o : FilterAnswer A) (eq : IsEquality o) (K : Word → Option A) (t : Table A)
    (ready : IsReady K t) where
  step_lem :
      (moves : List (ℤ × List (ℤ × List ℤ))) (x q q' : ℕ)
      → targets (pos q) (pos x) moves ≡ some (pos q' ∷ [])
      → step moves (pos x) (pos q ∷ []) [] ≡ pos q' ∷ []
  unfolding step
  step_lem moves x q q' e = rw (e, step) refl

  run_lem :
      (moves : List (ℤ × List (ℤ × List ℤ)))
      → HasMoves o eq K t ready moves
      → (u v : Word) (q : ℕ) → IsWalk t u v
      → id_of o eq K t ready u ≡ some q
      → (q' : ℕ) × (run moves (pos q ∷ []) v ≡ pos q' ∷ [])
        × (id_of o eq K t ready (u ++ v) ≡ some q')
  unfolding run
  run_lem moves has u [] q h e = (q, refl, rw (append-nil u) e)
  run_lem moves has u (pos x ∷ v) q h e =
      let next = u ++ pos x ∷ [] in
      let (q1, _, found, _, _) =
        id_lem o eq K t ready next (ready.filled.valid.extended u x h.0 h.1) in
      let (q', ran, ends) = run_lem moves has next v q1 h.2 found in
      (
        q',
        rw (step_lem moves x q q1 (has u x q q1 h.0 h.1 e found)) ran,
        subst (λ w. id_of o eq K t ready w ≡ some q') (append_assoc u (pos x ∷ []) v) ends,
      )
  run_lem moves has u (negsuc x ∷ v) q h e = absurd h

  states_loop-first :
      (r : Row A) (rows more : List (Row A))
      → (rest : List (Row A)) × (states_loop o.answer rows (r ∷ more) ≡ r ∷ rest)
  unfolding states_loop
  states_loop-first r [] more = (more, refl)
  states_loop-first r (s ∷ rows) more = elim (Bool-cases (has_match o.answer s (r ∷ more))) [
    | inl e ↦ let (rest, same) = states_loop-first r rows more in (rest, rw e same)
    | inr e ↦ let (rest, same) = states_loop-first r rows (more ++ s ∷ []) in (rest, rw e same)
  ]

  first_state :
      (r : Row A) (rows : List (Row A))
      → t.upper_table ≡ r ∷ rows
      → (rest : List (Row A)) × (states o eq K t ready ≡ r ∷ rest)
  unfolding states_loop has_match
  first_state r rows upper =
      let (rest, same) = states_loop-first r rows [] in
      (rest, ap (λ l. states_loop o.answer l []) upper ∙ same)

  first_id :
      (a : List A) (r : Row A) (rest : List (Row A))
      → r.acceptance ≡ a
      → state_of o.answer a (r ∷ rest) 0 ≡ some 0
  unfolding state_of
  first_id a r rest e = rw ((same_acceptance_iff o eq a r.acceptance).1 (sym e)) refl

  -- The state of the empty word is the first one.
  initial_id :
      (r : Row A) (rows : List (Row A))
      → t.upper_table ≡ r ∷ rows
      → r.index ≡ []
      → id_of o eq K t ready [] ≡ some 0
  initial_id r rows upper root =
      let (rest, first) = first_state r rows upper in
      let full = subst (All (IsFull K t.column_names)) upper ready.filled.upper in
      ap (λ l. state_of o.answer (known_prefix K [] t.column_names) l 0) first
      ∙ first_id (known_prefix K [] t.column_names) r rest
          (full.0.0 ∙ ap (λ w. known_prefix K w t.column_names) root)

  -- Where operator== of the answers decides their equality and operator!= is its negation,
  -- without a normalizer, for a closed and consistent table that satisfies the invariant of the
  -- table, whose rows are all filled and whose first upper row is that of the empty word,
  -- derive_conjecture returns a valid machine; from its initial states, run over a word that has
  -- symbols of the alphabet and that is with all its prefixes in the upper table ends in a single
  -- state, and the output of that state is the answer that is known of the word.
  pub derive_conjecture-run :
      (w : Word) (r : Row A) (rows : List (Row A))
      → t.upper_table ≡ r ∷ rows
      → r.index ≡ []
      → IsWalk t [] w
      → (m : MooreMachine A) × (q : ℕ) × (derive_conjecture o.answer none t ≡ some m)
        × (run m.transitions m.initial_states w ≡ pos q ∷ [])
        × (lookup (pos q) m.output_mapping ≡ K w)
        × (m.valid ≡ true)
  derive_conjecture-run w r rows upper root walk =
      let (out, moves, derived, outputs, has) = machine_lem o eq K t ready in
      let (q, ran, ends) = run_lem moves has [] w 0 walk (initial_id r rows upper root) in
      (
        machine t.alphabet_size (length (states o eq K t ready)) out moves,
        q,
        derived,
        ran,
        outputs w q (walk_end t [] w walk) ends,
        refl,
      )

accepts_lem :
    (m : MooreMachine Bool) (w : Word) (q : ℕ) (a : Bool)
    → m.valid ≡ true
    → run m.transitions m.initial_states w ≡ pos q ∷ []
    → lookup (pos q) m.output_mapping ≡ some a
    → accepts m w ≡ a
unfolding accepts reaches_final
accepts_lem m w q true valid ran e = rw (valid, ran, e, reaches_final) refl
accepts_lem m w q false valid ran e = rw (valid, ran, e, reaches_final) refl

-- Where the answers are bools, operator== of the answers decides their equality and operator!= is
-- its negation, without a normalizer, for a closed and consistent table that satisfies the
-- invariant of the table, whose rows are all filled and whose first upper row is that of the
-- empty word, derive_conjecture returns an automaton; of a word that has symbols of the alphabet
-- and that is with all its prefixes in the upper table, contains gives the answer that is known.
pub derive_conjecture-accepts :
    (o : FilterAnswer Bool)
    → IsEquality o
    → (K : Word → Option Bool) (t : Table Bool) → IsReady K t
    → (w : Word) (r : Row Bool) (rows : List (Row Bool)) → t.upper_table ≡ r ∷ rows
    → r.index ≡ []
    → IsWalk t [] w
    → (m : MooreMachine Bool) × (derive_conjecture o.answer none t ≡ some m)
      × (K w ≡ some (accepts m w))
derive_conjecture-accepts o eq K t ready w r rows upper root walk =
    let (m, q, derived, ran, output, valid) =
      derive_conjecture-run o eq K t ready w r rows upper root walk in
    let (a, _, _, answer) =
      row_first o eq K t ready w
        (known_index K t ready.filled w t.upper_table ready.filled.upper (walk_end t [] w walk)) in
    (m, derived, answer ∙ ap some (sym (accepts_lem m w q a valid ran (output ∙ answer))))
