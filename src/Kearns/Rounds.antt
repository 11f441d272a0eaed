-- ===== src/Kearns/Rounds.antt =====
-- algorithm_kearns_vazirani.h: a counterexample, from add_counterexample to the last task.
use libalf.Common.{
  ℕ, zero, suc, ◌+◌, ◌-◌, ◌<◌, ◌≤◌, ◌≡◌, refl, sym, ap, subst, ◌∙◌, [], ◌∷◌, Bool, true, false,
  Option, none, some, nth, length, replicate, ◌==◌, ==_iff, Word, take, arith, Bool-cases, inl, inr,
}
use Prim.Native.Nat.{◌/◌}
use libalf.Knowledgebase.Base.{Base}
use libalf.Filter.{FilterAnswer}
use libalf.Angluin.Filling.{Knows}
use libalf.Kearns.Tree.{at_leaf, at_inner, simulate_run}
use libalf.Kearns.Tasks.{State, binary_search, run}
use libalf.Kearns.Perform.{perform}
use libalf.Kearns.Advance.{search_task}
use libalf.Kearns.Invariant.{reached, IsHypothesis, run-take, some_eq}
use libalf.Kearns.Linear.{IsWord-take}
use libalf.Kearns.Separation.{at_leaf_eq}
use libalf.Kearns.Progress.{
  IsCounterexample, AgreesTo-zero, counterexample_differs, HasArrivals, Divides,
  linear_search-Divides,
}
use libalf.Kearns.Binary.{IsBuffer, binary_lem}

nth-replicate : {B : Type 0} (k n : ℕ) (b : B) → k < n → nth k (replicate n b) ≡ some b
nth-replicate k zero b h = absurd (omega (arith, h))
nth-replicate zero (suc n) b h = refl
nth-replicate (suc k) (suc n) b h = nth-replicate k n b (omega (arith, h))

new-IsBuffer :
    {B : Type 0} (unset first : B) (value : ℕ → B) (n : ℕ)
    → first ≡ value 0
    → IsBuffer unset value (first ∷ replicate n unset) n
new-IsBuffer unset first value n e zero h = inr (ap (λ b. some b) e)
new-IsBuffer unset first value n e (suc k) h = inl (nth-replicate k n unset (omega (arith, h)))

module _ {A : Type 0} (o : FilterAnswer A) (K : Word → Option A) (n : ℕ) (st : State) (w : Word)
    (base : Base A) (hyp : IsHypothesis o K n st []) (c : IsCounterexample o K st w)
    (knows : Knows o K base) (arrivals : HasArrivals o K st w) where
  runs : ℕ → ℕ
  runs k = (run-take st.leaves st.initial_state c.state w k c.runs).0

  run_at : (k : ℕ) → run st (take k w) ≡ some (runs k)
  unfolding runs
  run_at k = (run-take st.leaves st.initial_state c.state w k c.runs).1

  sifts : ℕ → ℕ
  sifts k = (arrivals k).0

  sift_at : (k : ℕ) → reached o K st (take k w) ≡ at_leaf (sifts k)
  unfolding sifts
  sift_at k = (arrivals k).1

  -- Before the first symbol they agree, and after the last they do not.
  starts : (runs 0 ≡ st.initial_state) × (sifts 0 ≡ st.initial_state)
  unfolding simulate_run
  starts =
      let (i, ran, arrived) = AgreesTo-zero o K n st w hyp 0 (omega arith) in
      let start : i ≡ st.initial_state = sym (some_eq ran) in
      (
        sym (some_eq (run_at 0)),
        (==_iff (sifts 0) i).0 (at_leaf_eq (sifts 0) i (sym arrived ∙ sift_at 0)) ∙ start,
      )

  ends : runs (length w) == sifts (length w) ≡ false
  ends = elim (Bool-cases (runs (length w) == sifts (length w))) [
    | inl e ↦
        let same : runs (length w) ≡ sifts (length w) =
          (==_iff (runs (length w)) (sifts (length w))).0 e in
        absurd (
          counterexample_differs o K n st w hyp c (
            runs (length w),
            run_at (length w),
            sift_at (length w) ∙ ap (λ i. at_leaf i) (sym same),
          ))
    | inr e ↦ e
  ]

  binary_search-Divides :
      (position : ℕ)
      → position ≡ (1 + length w) / 2
      → Divides o K n
          (binary_search w position 1
            (length w)
            (at_leaf st.initial_state ∷ replicate (length w) (at_inner []))
            (some st.initial_state ∷ replicate (length w) none))
          st
          base
  unfolding perform
  binary_search-Divides position half =
      let good : runs 0 == sifts 0 ≡ true =
        (==_iff (runs 0) (sifts 0)).1 (starts.0 ∙ sym starts.1) in
      let some_symbol : 1 ≤ length w = elim (Bool-cases (length w == 0)) [
        | inl e ↦
            let empty : length w ≡ 0 = (==_iff (length w) 0).0 e in
            let bad : runs 0 == sifts 0 ≡ false =
              subst (λ k. runs k == sifts k ≡ false) empty ends in
            absurd (ground arith)
        | inr e ↦ ground arith
      ] in
      let (m, inner_label, base1, done, knows1, s) =
        binary_lem o K n st w hyp c runs sifts run_at sift_at (suc (length w - 1)) position 1
          (length w) (at_leaf st.initial_state ∷ replicate (length w) (at_inner []))
          (some st.initial_state ∷ replicate (length w) none) base (omega arith) half (omega arith)
          some_symbol (omega arith) good ends
          (new-IsBuffer (at_inner []) (at_leaf st.initial_state) (λ k. at_leaf (sifts k)) (length w)
            (ap (λ i. at_leaf i) (sym starts.1)))
          (new-IsBuffer none (some st.initial_state) (λ k. some (runs k)) (length w)
            (ap (λ i. some i) (sym starts.0)))
          knows in
      (runs m, take m w, inner_label, base1, done, knows1, IsWord-take m w c.word, s)

  -- In a tree that fits its leaves and where no transition is pending, and where the answers for
  -- sifting the prefixes of a counterexample are known, the search of a counterexample, binary or linear, adds one split and finishes: the split's leaf
  -- label arrives at its node, and its inner label has different answers after the leaf label and
  -- after the label of the node.
  pub search_task-Divides :
      (use_binary_search : Bool) → Divides o K n (search_task use_binary_search w st) st base
  unfolding search_task
  search_task-Divides true = binary_search-Divides ((1 + length w) / 2) refl
  search_task-Divides false = linear_search-Divides o K n st w base arrivals hyp c knows
