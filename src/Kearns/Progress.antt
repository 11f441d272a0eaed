-- ===== src/Kearns/Progress.antt =====
-- algorithm_kearns_vazirani.h: a counterexample, from its search to the split.
use libalf.Common.{
  ℕ, suc, ◌-◌, ◌≡◌, refl, sym, ap, subst, ◌∙◌, [], ◌∷◌, not, Option, some, nth, length, ltb, Word,
  IsWord, take, arith, Bool-cases, inl, inr,
}
use libalf.Knowledgebase.Base.{Base}
use libalf.Filter.{FilterAnswer}
use libalf.Angluin.Filling.{Knows}
use libalf.Kearns.Tree.{Leaf, inner, simulate_run, at_leaf}
use libalf.Kearns.Tasks.{State, Task, linear_search, split_node, Outcome, unfinished, finished, run}
use libalf.Kearns.Perform.{perform}
use libalf.Kearns.Sifting.{side, sifted}
use libalf.Kearns.Separation.{HasDistinctLeaves, at_inner≢at_leaf}
use libalf.Kearns.Invariant.{reached, IsHypothesis, Agrees, some_eq}
use libalf.Kearns.Searching.{IsSplit}
use libalf.Kearns.Linear.{AgreesTo, IsSearched, perform_linear_search_lem, root-Starts, IsWord-take}
use libalf.Kearns.Splitting.{same_side}

pub take-all : (w : Word) → take (length w) w ≡ w
take-all [] = refl
take-all (x ∷ w) = ap (λ l. x ∷ l) (take-all w)

module _ {A : Type 0} (o : FilterAnswer A) (K : Word → Option A) where
  -- The automaton's answer to a word is not the one that is known.
  pub record IsCounterexample (st : State) (w : Word) : Type 0 where
    pub word : IsWord w
    pub state : ℕ
    pub runs : run st w ≡ some state
    pub end : Leaf
    pub at : nth state st.leaves ≡ some end
    pub known : side o K w ≡ some (not end.accepting)

  pub AgreesTo-zero :
      (n : ℕ) (st : State) (w : Word) → IsHypothesis o K n st [] → AgreesTo o K st w 0
  unfolding simulate_run
  AgreesTo-zero n st w hyp k h =
      let (l, at, empty) = hyp.initial in
      let is_zero : 0 ≡ k = omega (arith, h) in
      subst (λ j. Agrees o K st w j) is_zero
        (
          st.initial_state,
          refl,
          subst (λ v. reached o K st v ≡ at_leaf st.initial_state) empty
              (hyp.is_leaf st.initial_state l at).home,
        )

  -- Not all prefixes of a counterexample agree.
  pub counterexample_differs :
      (n : ℕ) (st : State) (w : Word)
      → IsHypothesis o K n st []
      → IsCounterexample st w
      → Agrees o K st w (length w)
      → ⊥
  counterexample_differs n st w hyp c (i, ran, arrived) =
      let (l, r, root_eq) = hyp.rooted in
      let ran_w : run st w ≡ some i = subst (λ v. run st v ≡ some i) (take-all w) ran in
      let same : i ≡ c.state = some_eq (sym ran_w ∙ c.runs) in
      let arrived_w : sifted o K w [] (inner [] l r) ≡ at_leaf c.state =
        ap (λ t. sifted o K w [] t) (sym root_eq)
        ∙ subst (λ v. reached o K st v ≡ at_leaf i) (take-all w) arrived
        ∙ ap (λ j. at_leaf j) same in
      let home = hyp.is_leaf c.state c.end c.at in
      let sides : side o K w ≡ side o K c.end.label =
        same_side o K l r w c.end.label c.state (subst HasDistinctLeaves root_eq hyp.distinct)
          arrived_w (ap (λ t. sifted o K c.end.label [] t) (sym root_eq) ∙ home.home) in
      let wrong : not c.end.accepting ≡ c.end.accepting =
        some_eq (sym c.known ∙ sides ∙ home.accepts) in
      absurd (ground arith)

  -- The answers that the sifts of a word's prefixes ask for are known.
  abbrev pub HasArrivals : State → Word → Type 0
  HasArrivals st w = (k : ℕ) → (i : ℕ) × (reached o K st (take k w) ≡ at_leaf i)

  -- The task finishes and adds one split, which has what it needs.
  abbrev pub Divides : (n : ℕ) → Task → State → Base A → Type 0
  Divides n t st base =
      (node : ℕ) × (label inner_label : Word) × (base1 : Base A) × (perform o n t st base
        ≡ some (finished (split_node node label inner_label ∷ []), st, base1))
      × Knows o K base1
      × IsWord label
      × IsSplit o K st node label inner_label

  search-Divides :
      (n : ℕ) (t : Task) (st : State) (w : Word) (outcome : Outcome) (base base' : Base A)
      → HasArrivals st w
      → IsHypothesis o K n st []
      → IsCounterexample st w
      → perform o n t st base ≡ some (outcome, st, base')
      → Knows o K base'
      → IsSearched o K st w outcome
      → Divides n t st base
  unfolding perform
  search-Divides n t st w (unfinished u) base base' arrivals hyp c done knows
        (m, p, _, _, _, stops) =
      let (i, at) = arrivals (suc m) in absurd (at_inner≢at_leaf p i (sym stops ∙ at))
  search-Divides n t st w (finished []) base base' arrivals hyp c done knows all =
      absurd (counterexample_differs n st w hyp c (all (length w) (omega arith)))
  search-Divides n t st w (finished (u ∷ more)) base base' arrivals hyp c done knows
        (m, node, q, i, inner_label, is_split, only, h, before, ran_m, ran, e, differ, s) =
      (
        node,
        take m w,
        inner_label,
        base',
        done
            ∙ ap (λ ts. some (finished ts, st, base'))
                (ap (λ v. v ∷ more) is_split
                  ∙ ap (λ vs. split_node node (take m w) inner_label ∷ vs) only),
        knows,
        IsWord-take m w c.word,
        s,
      )

  pub linear_search-Divides :
      (n : ℕ) (st : State) (w : Word) (base : Base A)
      → HasArrivals st w
      → IsHypothesis o K n st []
      → IsCounterexample st w
      → Knows o K base
      → Divides n (linear_search w 1 []) st base
  unfolding perform
  linear_search-Divides n st w base arrivals hyp c knows = elim (Bool-cases (ltb 0 (length w))) [
    | inr e ↦
        absurd
          (counterexample_differs n st w hyp c (AgreesTo-zero n st w hyp (length w) (ground arith)))
    | inl e ↦
        let (outcome, base', done, knows', searched) =
          perform_linear_search_lem o K n (length w - 1) st w 0 c.state [] base hyp c.word c.runs
            (ground arith) (AgreesTo-zero n st w hyp) (root-Starts o K n st (take 1 w) [] hyp)
            knows in
        search-Divides n (linear_search w 1 []) st w outcome base base' arrivals hyp c done knows'
          searched
  ]
