-- ===== src/Kearns/Invariant.antt =====
-- algorithm_kearns_vazirani.h: what the tree, the leaves and the tasks have to be for one another.
use libalf.Common.{
  ℕ, zero, suc, ◌≡◌, ◌⊎◌, ◌<◌, ◌==◌, ◌||◌, refl, sym, ap, ◌∙◌, List, [], ◌∷◌, ◌++◌, Bool, true,
  false, Option, none, some, nth, length, pos, negsuc, ℤ, Word, IsWord, take, arith, Option-cases,
  inl, inr,
}
use libalf.Filter.{FilterAnswer}
use libalf.Kearns.Tree.{
  Leaf, Tree, TreePath, inner, Place, at_leaf, follow, transition, simulate_run,
}
use libalf.Kearns.Tasks.{State, Task, compute_transition, run}
use libalf.Kearns.Sifting.{HasWords, side, sifted}
use libalf.Kearns.Separation.{occurs, HasDistinctLeaves}

-- A task for a transition is in the list.
abbrev pub Pending : (source symbol : ℕ) → List Task → Type 0
Pending source symbol [] = ⊥
Pending source symbol (t ∷ tasks) =
    ((p : TreePath) × (t ≡ compute_transition source symbol p)) ⊎ Pending source symbol tasks

abbrev pub has : ℕ → List ℕ → Bool
has i [] = false
has i (j ∷ js) = i == j || has i js

module _ {A : Type 0} (o : FilterAnswer A) (K : Word → Option A) where
  abbrev pub reached : State → Word → Place
  reached st w = sifted o K w [] st.root

  -- A transition leads where the label with the symbol arrives, and its target knows its source.
  abbrev pub IsRight : State → (source : ℕ) → Leaf → (symbol : ℕ) → Type 0
  IsRight st source l symbol =
      (j : ℕ) × (target : Leaf) × (nth symbol l.transitions ≡ some (some j))
      × (reached st (l.label ++ pos symbol ∷ []) ≡ at_leaf j)
      × (nth j st.leaves ≡ some target)
      × (has source target.incoming_transitions ≡ true)

  pub record IsLeaf (alphabet_size : ℕ) (st : State) (i : ℕ) (l : Leaf) : Type 0 where
    pub word : IsWord l.label
    pub home : reached st l.label ≡ at_leaf i
    pub accepts : side o K l.label ≡ some l.accepting
    pub width : length l.transitions ≡ alphabet_size

  -- The tree asks for the empty label first, its leaves are different and have addresses, each
  -- leaf is where its label arrives, the initial state has the empty label, and each transition is
  -- right unless it is pending.
  pub record IsHypothesis (alphabet_size : ℕ) (st : State) (tasks : List Task) : Type 0 where
    pub rooted : (l r : Tree) × (st.root ≡ inner [] l r)
    pub words : HasWords st.root
    pub distinct : HasDistinctLeaves st.root
    pub bounded : (i : ℕ) → occurs i st.root ≡ true → (l : Leaf) × (nth i st.leaves ≡ some l)
    pub initial : (l : Leaf) × (nth st.initial_state st.leaves ≡ some l) × (l.label ≡ [])
    pub is_leaf : (i : ℕ) (l : Leaf) → nth i st.leaves ≡ some l → IsLeaf alphabet_size st i l
    pub transitions :
        (i : ℕ) (l : Leaf) (x : ℕ)
        → nth i st.leaves ≡ some l
        → x < alphabet_size
        → IsRight st i l x ⊎ Pending i x tasks

  -- Up to a prefix of so many symbols the run and the sift agree.
  abbrev pub Agrees : State → Word → ℕ → Type 0
  Agrees st w k = (i : ℕ) × (run st (take k w) ≡ some i) × (reached st (take k w) ≡ at_leaf i)

-- A run and its first step.
run-cons :
    (leaves : List Leaf) (i j x : ℕ) (w : Word)
    → transition leaves i x ≡ some j
    → simulate_run leaves i (pos x ∷ w) ≡ simulate_run leaves j w
unfolding simulate_run
run-cons leaves i j x w e = rw (e, simulate_run) refl

run-uncons :
    (leaves : List Leaf) (i r x : ℕ) (w : Word)
    → simulate_run leaves i (pos x ∷ w) ≡ some r
    → (j : ℕ) × (transition leaves i x ≡ some j) × (simulate_run leaves j w ≡ some r)
unfolding simulate_run
run-uncons leaves i r x w h = elim (Option-cases (transition leaves i x)) [
  | inl e ↦
      let stuck : simulate_run leaves i (pos x ∷ w) ≡ none = rw (e, simulate_run) refl in
      let none_some : none ≡ some r = sym stuck ∙ h in absurd cc
  | inr (j, e) ↦ (j, e, sym (run-cons leaves i j x w e) ∙ h)
]

-- Runs of prefixes.
pub run-take :
    (leaves : List Leaf) (i r : ℕ) (w : Word) (k : ℕ)
    → simulate_run leaves i w ≡ some r
    → (j : ℕ) × (simulate_run leaves i (take k w) ≡ some j)
unfolding simulate_run
run-take leaves i r w zero h = (i, refl)
run-take leaves i r [] (suc k) h = (i, refl)
run-take leaves i r (pos x ∷ w) (suc k) h =
    let (j, e, rest) = run-uncons leaves i r x w h in
    let (q, s) = run-take leaves j r w k rest in (q, run-cons leaves i j x (take k w) e ∙ s)
run-take leaves i r (negsuc x ∷ w) (suc k) h = absurd cc

-- The last step of a run.
pub run-step :
    (leaves : List Leaf) (i j r : ℕ) (w : Word) (k : ℕ) (x : ℤ)
    → simulate_run leaves i (take k w) ≡ some j
    → simulate_run leaves i (take (suc k) w) ≡ some r
    → nth k w ≡ some x
    → (y : ℕ) × (x ≡ pos y) × (transition leaves j y ≡ some r)
unfolding simulate_run
run-step leaves i j r [] zero x hj hr hx = absurd cc
run-step leaves i j r (pos y ∷ w) zero x hj hr hx =
    let (q, e, at) = run-uncons leaves i r y [] hr in (y, cc, cc)
run-step leaves i j r (negsuc y ∷ w) zero x hj hr hx = absurd cc
run-step leaves i j r [] (suc k) x hj hr hx = absurd cc
run-step leaves i j r (pos y ∷ w) (suc k) x hj hr hx =
    let (q, e, before) = run-uncons leaves i j y (take k w) hj in
    run-step leaves q j r w k x before (sym (run-cons leaves i q y (take (suc k) w) e) ∙ hr) hx
run-step leaves i j r (negsuc y ∷ w) (suc k) x hj hr hx = absurd cc

-- A prefix with one symbol more.
pub take-suc : (k : ℕ) (w : Word) (x : ℤ) → nth k w ≡ some x → take (suc k) w ≡ take k w ++ x ∷ []
take-suc k [] x h = absurd cc
take-suc zero (y ∷ w) x h =
    ap (λ z. z ∷ []) (elim (Option-cases (some y)) [ inl e ↦ cc | inr (a, e) ↦ cc ])
take-suc (suc k) (y ∷ w) x h = ap (λ l. y ∷ l) (take-suc k w x h)

follow-some : (t : Option (Option ℕ)) (r : ℕ) → follow t ≡ some r → t ≡ some (some r)
follow-some none r h = absurd cc
follow-some (some t) r h = ap (λ u. some u) h

pub transition-nth :
    (leaves : List Leaf) (i y r : ℕ)
    → transition leaves i y ≡ some r
    → (l : Leaf) × (nth i leaves ≡ some l) × (nth y l.transitions ≡ some (some r))
unfolding transition
transition-nth leaves i y r h = elim (Option-cases (nth i leaves)) [
  | inl e ↦
      let stuck : transition leaves i y ≡ none = rw (e, transition) refl in
      let none_some : none ≡ some r = sym stuck ∙ h in absurd cc
  | inr (l, e) ↦
      let at : transition leaves i y ≡ follow (nth y l.transitions) = rw (e, transition) refl in
      (l, e, follow-some (nth y l.transitions) r (sym at ∙ h))
]

pub nth-length : {B : Type 0} (x : ℕ) (l : List B) (b : B) → nth x l ≡ some b → x < length l
nth-length x [] b h = absurd cc
nth-length zero (c ∷ l) b h = omega arith
nth-length (suc x) (c ∷ l) b h = omega (arith, nth-length x l b h)

pub some_eq : {B : Type 0} {a b : B} → some a ≡ some b → a ≡ b
some_eq h = cc
