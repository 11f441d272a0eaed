-- ===== src/Kearns/Counterexample.antt =====
-- algorithm_kearns_vazirani.h: add_counterexample in the normal phase, at a counterexample.
use libalf.Common.{
  ℕ, ◌≡◌, refl, sym, ap, subst, ◌∙◌, List, [], ◌∷◌, ℤ, Bool, true, false, not, Option, none, some,
  Word, IsWord, arith, Bool-cases, inl, inr,
}
use libalf.Knowledgebase.Base.{Base, resolve_query}
use libalf.Knowledgebase.Base.Invariant.{IsValid}
use libalf.Knowledgebase.Base.Queries.{resolve_query_lem}
use libalf.Filter.{FilterAnswer}
use libalf.Angluin.Filling.{Knows}
use libalf.Kearns.Tasks.{State, Task, split_node}
use libalf.Kearns.Advance.{Kv, normal, rejects, perform_or_add, add_counterexample}
use libalf.Kearns.Sifting.{side-some}
use libalf.Kearns.Invariant.{IsHypothesis, some_eq}
use libalf.Kearns.Searching.{IsSplit}
use libalf.Kearns.Progress.{IsCounterexample, HasArrivals}
use libalf.Kearns.Rounds.{search_task-Divides}

-- The variables in the normal phase.
abbrev pub waiting : (n : ℕ) → Bool → State → List Task → Kv
waiting n use_binary_search st tasks = record {
  alphabet_size = n;
  use_binary_search = use_binary_search;
  phase = normal st;
  tasks = tasks;
}

module _ {A : Type 0} (o : FilterAnswer A) (K : Word → Option A) where
  pub resolve_query-Knows :
      (w : Word) (base : Base A)
      → Knows o K base
      → ((resolve_query o.answer none w base).0 ≡ K w)
        × Knows o K (resolve_query o.answer none w base).1
  unfolding resolve_query
  resolve_query-Knows w base (valid, knows) = (
    ground (arith, knows w),
    (
      subst (λ b. IsValid o.answer b) (sym (resolve_query_lem o.answer w base none).1)
          (record {
            tracked = valid.tracked;
            once = valid.once;
            answers = valid.answers;
            nodes = valid.nodes;
            symbols = valid.symbols;
          }),
      λ v. ground (arith, knows v),
    ),
  )

  not_rejected :
      (equals : (a : A) (b : Bool) → o.equals_bool a b ≡ true → o.to_bool a ≡ b) (st : State)
      (w : Word) (c : IsCounterexample o K st w) (a : Option A)
      → K w ≡ a
      → rejects o (normal st) a w ≡ some false
  not_rejected equals st w c none e = refl
  not_rejected equals st w c (some a) e =
      let turn : o.to_bool a ≡ not c.end.accepting =
        some_eq (sym (side-some o K w a e) ∙ c.known) in
      let unequal : o.equals_bool a c.end.accepting ≡ false =
        elim (Bool-cases (o.equals_bool a c.end.accepting)) [
          | inl same ↦ absurd (ground (arith, equals a c.end.accepting same, turn))
          | inr other ↦ other
        ] in
      rw (c.runs, c.at) (ap (λ b. some b) unequal)

  -- Where an answer that equals a bool by operator== converts to that bool, the tree fits its
  -- leaves, no task is left, the answers for sifting the prefixes of a nonempty word are known,
  -- and the automaton answers the word wrongly, add_counterexample returns true, whether it
  -- searches by halves or from the start, and leaves one task, a split: its leaf label has no
  -- negative symbols and arrives at its node, and its inner label has different answers after the
  -- leaf label and after the node's label.
  pub add_counterexample-IsSplit :
      (n : ℕ) (use_binary_search : Bool) (st : State) (x : ℤ) (w : Word) (base : Base A)
      → IsHypothesis o K n st []
      → IsCounterexample o K st (x ∷ w)
      → HasArrivals o K st (x ∷ w)
      → Knows o K base
      → ((a : A) (b : Bool) → o.equals_bool a b ≡ true → o.to_bool a ≡ b)
      → (node : ℕ) × (label inner_label : Word) × (base' : Base A) × (add_counterexample o
            (waiting n use_binary_search st [])
            (x ∷ w)
            base
          ≡ some (
            true,
            waiting n use_binary_search st (split_node node label inner_label ∷ []),
            base',
          ))
        × Knows o K base'
        × IsWord label
        × IsSplit o K st node label inner_label
  unfolding add_counterexample perform_or_add
  add_counterexample-IsSplit n use_binary_search st x w base hyp c arrivals knows equals =
      let (answer, knows0) = resolve_query-Knows (x ∷ w) base knows in
      let base0 = (resolve_query o.answer none (x ∷ w) base).1 in
      let (node, label, inner_label, base1, searched, knows1, word, s) =
        search_task-Divides o K n st (x ∷ w) base0 hyp c knows0 arrivals use_binary_search in
      (
        node,
        label,
        inner_label,
        base1,
        rw
            (
              not_rejected equals st (x ∷ w) c (resolve_query o.answer none (x ∷ w) base).0
                  (sym answer),
              searched,
            )
            refl,
        knows1,
        word,
        s,
      )
