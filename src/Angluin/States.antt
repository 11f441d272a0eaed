-- ===== src/Angluin/States.antt =====
-- algorithm_angluin.h, derive_conjecture_memorize: the states, their outputs and the ids that rows
-- have.
use libalf.Common.{
  nth, ℕ, zero, suc, ◌+◌, ◌<◌, ◌≡◌, refl, ap, sym, subst, ◌∙◌, List, [], ◌∷◌, ◌++◌, true, Option,
  none, some, if◌then◌else◌, ℤ, pos, All, arith, Bool-cases, inl, inr, ◌⊎◌,
}
use libalf.Filter.{FilterAnswer}
use libalf.Conjecture.{lookup}
use libalf.Angluin.Table.{Row, same_acceptance, has_match}
use libalf.Angluin.Derive.{states_loop, state_of, state_outputs}
use libalf.Angluin.Shape.{All-append}
use libalf.Angluin.Consistent.{IsEquality, same_acceptance_iff}

abbrev pub first_answer : {A : Type 0} → List A → Option A
first_answer [] = none
first_answer (a ∷ _) = some a

pub lookup_here :
    {B : Type 0}
    → (i j : ℕ) (b : B) (l : List (ℤ × B)) → i ≡ j
    → lookup (pos i) ((pos j, b) ∷ l) ≡ some b
lookup_here i j b l e = ground arith

pub lookup_later :
    {B : Type 0}
    → (i j : ℕ) (b : B) (l : List (ℤ × B)) → j < i
    → lookup (pos i) ((pos j, b) ∷ l) ≡ lookup (pos i) l
lookup_later i j b l lt = ground arith

module _ {A : Type 0} where
  -- Some row has the answers.
  abbrev pub Occurs : List A → List (Row A) → Type 0
  Occurs a [] = ⊥
  Occurs a (r ∷ rows) = (r.acceptance ≡ a) ⊎ Occurs a rows

  Occurs-before : (a : List A) (rows more : List (Row A)) → Occurs a rows → Occurs a (rows ++ more)
  Occurs-before a [] more h = absurd h
  Occurs-before a (r ∷ rows) more (inl e) = inl e
  Occurs-before a (r ∷ rows) more (inr h) = inr (Occurs-before a rows more h)

  Occurs-end : (r : Row A) (rows : List (Row A)) → Occurs r.acceptance (rows ++ r ∷ [])
  Occurs-end r [] = inl refl
  Occurs-end r (s ∷ rows) = inr (Occurs-end r rows)

  pub nth-All :
      (P : Row A → Type 0) (i : ℕ) (rows : List (Row A)) (r : Row A)
      → All P rows
      → nth i rows ≡ some r
      → P r
  nth-All P i [] r h e = absurd (cc e)
  nth-All P zero (s ∷ rows) r h e = subst P (ground arith) h.0
  nth-All P (suc i) (s ∷ rows) r h e = nth-All P i rows r h.1 e

module _ {A : Type 0} (o : FilterAnswer A) (eq : IsEquality o) where
  match-Occurs :
      (r : Row A) (states : List (Row A))
      → has_match o.answer r states ≡ true
      → Occurs r.acceptance states
  unfolding has_match
  match-Occurs r [] e = absurd (cc e)
  match-Occurs r (s ∷ states) e =
      elim (Bool-cases (same_acceptance o.answer r.acceptance s.acceptance)) [
        | inl e' ↦ inl (sym ((same_acceptance_iff o eq r.acceptance s.acceptance).0 e'))
        | inr e' ↦ inr (match-Occurs r states (ground arith))
      ]

  -- The states after one row.
  abbrev next_states : Row A → List (Row A) → List (Row A)
  next_states r states = if has_match o.answer r states then states else states ++ r ∷ []

  next_states-keeps :
      (a : List A) (r : Row A) (states : List (Row A))
      → Occurs a states
      → Occurs a (next_states r states)
  next_states-keeps a r states h = elim (Bool-cases (has_match o.answer r states)) [
    | inl e ↦ rw e h
    | inr e ↦ rw e (Occurs-before a states (r ∷ []) h)
  ]

  next_states-has : (r : Row A) (states : List (Row A)) → Occurs r.acceptance (next_states r states)
  next_states-has r states = elim (Bool-cases (has_match o.answer r states)) [
    | inl e ↦ rw e (match-Occurs r states e)
    | inr e ↦ rw e (Occurs-end r states)
  ]

  states_loop-keeps :
      (a : List A) (rows states : List (Row A))
      → Occurs a states
      → Occurs a (states_loop o.answer rows states)
  unfolding states_loop
  states_loop-keeps a [] states h = h
  states_loop-keeps a (r ∷ rows) states h =
      states_loop-keeps a rows (next_states r states) (next_states-keeps a r states h)

  -- Each row has a state.
  pub states_loop-has :
      (a : List A) (rows states : List (Row A))
      → Occurs a rows
      → Occurs a (states_loop o.answer rows states)
  unfolding states_loop
  states_loop-has a [] states h = absurd h
  states_loop-has a (r ∷ rows) states (inl e) =
      states_loop-keeps a rows (next_states r states)
        (subst (λ b. Occurs b (next_states r states)) e (next_states-has r states))
  states_loop-has a (r ∷ rows) states (inr h) = states_loop-has a rows (next_states r states) h

  -- The states are rows.
  pub states_loop-All :
      (P : Row A → Type 0) (rows states : List (Row A))
      → All P rows
      → All P states
      → All P (states_loop o.answer rows states)
  unfolding states_loop
  states_loop-All P [] states h k = k
  states_loop-All P (r ∷ rows) states h k =
      states_loop-All P rows (next_states r states) h.1
        (elim (Bool-cases (has_match o.answer r states)) [
          | inl e ↦ rw e k
          | inr e ↦ rw e (All-append P states (r ∷ []) k (h.0, tt))
        ])

  -- The id that answers have.
  pub state_of_lem :
      (a : List A) (states : List (Row A)) (i : ℕ)
      → Occurs a states
      → (q : ℕ) × (s : Row A) × (state_of o.answer a states i ≡ some (i + q))
        × (nth q states ≡ some s)
        × (s.acceptance ≡ a)
  unfolding state_of
  state_of_lem a [] i h = absurd h
  state_of_lem a (s ∷ states) i h =
      let same = same_acceptance_iff o eq a s.acceptance in
      elim (Bool-cases (same_acceptance o.answer a s.acceptance)) [
        | inl e ↦ (0, s, rw e (ap some (omega arith)), refl, sym (same.0 e))
        | inr e ↦
            let later : Occurs a states = elim h [
              | inl here ↦ absurd (cc (e, same.1 (sym here)))
              | inr there ↦ there
            ] in
            let (q, s', found, place, acceptance) = state_of_lem a states (i + 1) later in
            (suc q, s', rw (e, found) (ap some (omega arith)), place, acceptance)
      ]

  outputs_cons :
      (r : Row A) (rest : List (Row A)) (i : ℕ) (a : A) (out : List (ℤ × A))
      → first_answer r.acceptance ≡ some a
      → ((q : ℕ) (s : Row A)
          → nth q rest ≡ some s
          → lookup (pos (i + 1 + q)) out ≡ first_answer s.acceptance)
      → (q : ℕ) (s : Row A) → nth q (r ∷ rest) ≡ some s
      → lookup (pos (i + q)) ((pos i, a) ∷ out) ≡ first_answer s.acceptance
  outputs_cons r rest i a out first answers zero s e =
      let here : r ≡ s = ground arith in
      lookup_here (i + 0) i a out (omega arith)
      ∙ sym first
      ∙ ap (λ x. first_answer x.acceptance) here
  outputs_cons r rest i a out first answers (suc q) s e =
      let place : i + 1 + q ≡ i + suc q = omega arith in
      lookup_later (i + suc q) i a out (omega arith)
      ∙ subst (λ n. lookup (pos n) out ≡ first_answer s.acceptance) place (answers q s e)

  -- The output of a state is its first answer.
  pub state_outputs_lem :
      (states : List (Row A)) (i : ℕ)
      → All (λ s. (a : A) × (rest : List A) × (s.acceptance ≡ a ∷ rest)) states
      → (out : List (ℤ × A)) × (state_outputs o.answer states i ≡ some out)
        × ((q : ℕ) (s : Row A)
            → nth q states ≡ some s
            → lookup (pos (i + q)) out ≡ first_answer s.acceptance)
  unfolding state_outputs
  state_outputs_lem [] i h = ([], refl, λ q s e. cc e)
  state_outputs_lem (r ∷ rest) i h =
      let (a, _, first) = h.0 in
      let (out, outputs, answers) = state_outputs_lem rest (i + 1) h.1 in
      (
        (pos i, a) ∷ out,
        rw (first, outputs) refl,
        outputs_cons r rest i a out (ap first_answer first) answers,
      )
