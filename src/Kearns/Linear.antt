-- ===== src/Kearns/Linear.antt =====
-- algorithm_kearns_vazirani.h: add_counterexample_linearsearch_task::perform.
use libalf.Common.{
  ℕ, zero, suc, false, ◌+◌, ◌-◌, ◌≤◌, ◌≡◌, ◌⊎◌, refl, sym, ap, subst, ◌∙◌, List, [], ◌∷◌, Option,
  some, nth, length, ◌==◌, ==_iff, ℤ, Word, IsWord, take, arith, Bool-cases, inl, inr,
}
use libalf.Knowledgebase.Base.{Base}
use libalf.Filter.{FilterAnswer}
use libalf.Angluin.Filling.{Knows}
use libalf.Kearns.Tree.{Tree, inner, TreePath, subtree, Place, at_leaf, at_inner, sift_from}
use libalf.Kearns.Tasks.{
  State, Task, split_node, linear_search, Outcome, unfinished, finished, split_for, run,
}
use libalf.Kearns.Perform.{Performed, split_at, linear_step, perform_linear_search}
use libalf.Kearns.Sifting.{HasWords, sifted, sift_lem}
use libalf.Kearns.Invariant.{reached, IsHypothesis, Agrees, run-take}
use libalf.Kearns.Searching.{IsSplit, bad_prefix}

pub IsWord-take : (k : ℕ) (w : Word) → IsWord w → IsWord (take k w)
IsWord-take zero w h = ground arith
IsWord-take (suc k) [] h = ground arith
IsWord-take (suc k) (x ∷ w) h = ground (arith, IsWord-take k w, h)

pub nth-some : (k : ℕ) (w : Word) → suc k ≤ length w → (x : ℤ) × (nth k w ≡ some x)
nth-some k [] h = absurd (omega (arith, h))
nth-some zero (x ∷ w) h = (x, refl)
nth-some (suc k) (x ∷ w) h = nth-some k w (omega (arith, h))

pub Place-cases : (p : Place) → ((i : ℕ) × (p ≡ at_leaf i)) ⊎ ((q : TreePath) × (p ≡ at_inner q))
Place-cases (at_leaf i) = inl (i, refl)
Place-cases (at_inner q) = inr (q, refl)

module _ {A : Type 0} (o : FilterAnswer A) (K : Word → Option A) where
  -- A sift of the word may go on at this node.
  abbrev pub Starts : State → Word → TreePath → Type 0
  Starts st word start =
      (d : Word) × (l r : Tree) × (subtree start st.root ≡ some (inner d l r))
      × HasWords (inner d l r)
      × (sifted o K word start (inner d l r) ≡ reached o K st word)

  pub sift_from_lem :
      (st : State) (word : Word) (start : TreePath) (base : Base A)
      → IsWord word
      → Starts st word start
      → Knows o K base
      → (base' : Base A) × (sift_from o word start st.root base ≡ some (reached o K st word, base'))
        × Knows o K base'
  unfolding sift_from
  sift_from_lem st word start base hw (d, l, r, at, words, same) k =
      let (base', arrived, k', asked) = sift_lem o K word start (inner d l r) base hw words k in
      (base', rw (at, sift_from) (arrived ∙ ap (λ p. some (p, base')) same), k')

  abbrev pub AgreesTo : State → Word → ℕ → Type 0
  AgreesTo st w n = (k : ℕ) → k ≤ n → Agrees o K st w k

  AgreesTo-suc :
      (st : State) (w : Word) (m : ℕ)
      → AgreesTo st w m
      → Agrees o K st w (suc m)
      → AgreesTo st w (suc m)
  AgreesTo-suc st w m before now k h = elim (Bool-cases (k == suc m)) [
    | inl e ↦ subst (λ j. Agrees o K st w j) (sym ((==_iff k (suc m)).0 e)) now
    | inr e ↦ before k (ground arith)
  ]

  -- What a search for a bad prefix comes to: it waits for an answer, or no prefix is bad, or it
  -- adds a split.
  abbrev pub IsSearched : State → Word → Outcome → Type 0
  IsSearched st w (unfinished t) =
      (m : ℕ) × (p : TreePath) × (t ≡ linear_search w (suc m) p)
      × (suc m ≤ length w)
      × AgreesTo st w m
      × (reached o K st (take (suc m) w) ≡ at_inner p)
  IsSearched st w (finished []) = AgreesTo st w (length w)
  IsSearched st w (finished (t ∷ more)) =
      (m node r s : ℕ) × (inner_label : Word) × (t ≡ split_node node (take m w) inner_label)
      × (more ≡ [])
      × (suc m ≤ length w)
      × AgreesTo st w m
      × (run st (take m w) ≡ some node)
      × (run st (take (suc m) w) ≡ some r)
      × (reached o K st (take (suc m) w) ≡ at_leaf s)
      × (r == s ≡ false)
      × IsSplit o K st node (take m w) inner_label

  abbrev pub LinearResult : State → Word → Performed o → Type 0
  LinearResult st w result =
      (outcome : Outcome) × (base' : Base A) × (result ≡ some (outcome, st, base'))
      × Knows o K base'
      × IsSearched st w outcome

  pub root-Starts :
      (n : ℕ) (st : State) (word : Word) (tasks : List Task)
      → IsHypothesis o K n st tasks
      → Starts st word []
  unfolding subtree
  root-Starts n st word tasks hyp =
      let (l, r, at) = hyp.rooted in
      (
        [],
        l,
        r,
        ap (λ t. some t) at,
        subst HasWords at hyp.words,
        ap (λ t. sifted o K word [] t) (sym at),
      )

  split_at_lem :
      (st : State) (w : Word) (m r s node : ℕ) (t : Task) (base : Base A)
      → run st (take m w) ≡ some node
      → split_for node (take m w) (nth m w) r s st ≡ some t
      → split_at o w (suc m) r s st base ≡ some (finished (t ∷ []), st, base)
  unfolding split_at
  split_at_lem st w m r s node t base ran splits =
      let back : suc m - 1 ≡ m = omega arith in rw back (rw (ran, splits) refl)

  -- One pass of the loop, where what follows it gives such a result.
  linear_step_lem :
      (n : ℕ) (next : Base A → Performed o) (st : State) (w : Word) (m r : ℕ) (start : TreePath)
      (base : Base A)
      → IsHypothesis o K n st []
      → IsWord w
      → run st w ≡ some r
      → suc m ≤ length w
      → AgreesTo st w m
      → Starts st (take (suc m) w) start
      → Knows o K base
      → ((b : Base A) → AgreesTo st w (suc m) → Knows o K b → LinearResult st w (next b))
      → LinearResult st w (linear_step o next w (suc m) start st base)
  unfolding linear_step
  linear_step_lem n next st w m r start base hyp words runs h before starts knows rest =
      let (base', arrived, knows') =
        sift_from_lem st (take (suc m) w) start base (IsWord-take (suc m) w words) starts knows in
      let (q, ran) = run-take st.leaves st.initial_state r w (suc m) runs in
      let (node, ran_m, reached_m) = before m (omega arith) in
      let (x, at) = nth-some m w h in
      elim (Place-cases (reached o K st (take (suc m) w))) [
        | inr (p, e) ↦ (
          unfinished (linear_search w (suc m) p),
          base',
          rw (arrived, e, linear_step) refl,
          knows',
          (m, p, refl, h, before, e),
        )
        | inl (s, e) ↦ elim (Bool-cases (q == s)) [
          | inl same ↦
              let (outcome, b, gives, k, searched) =
                rest base'
                  (AgreesTo-suc st w m before
                    (q, ran, e ∙ ap (λ i. at_leaf i) (sym ((==_iff q s).0 same))))
                  knows' in
              (
                outcome,
                b,
                rw (arrived, e, linear_step) (rw (ran, same, linear_step) gives),
                k,
                searched,
              )
          | inr differ ↦
              let (inner_label, splits, is_split) =
                bad_prefix o K n st w m node q s x hyp words at ran_m reached_m ran e differ in
              (
                finished (split_node node (take m w) inner_label ∷ []),
                base',
                rw (arrived, e, linear_step)
                    (rw (ran, differ, linear_step)
                      (split_at_lem st w m q s node (split_node node (take m w) inner_label) base'
                        ran_m splits)),
                knows',
                (
                  m, node, q, s, inner_label, refl, refl, h, before, ran_m, ran, e, differ,
                  is_split,
                ),
              )
        ]
      ]

  -- In a valid knowledgebase that knows just what a map says, for a tree that fits its leaves and
  -- where no transition is pending, and a word without negative symbols that the automaton can
  -- run, where the prefixes before a position agree, a sift of the position's prefix may go on,
  -- and as many rounds are left as the word has symbols behind the position, the linear search
  -- returns, with the variables and the knowledge as they were: it waits for an answer at a
  -- position where the sift stops, or all prefixes agree and it only finishes, or it adds a
  -- split: the prefixes before a position agree, with the position's prefix the run and the sift
  -- reach different leaves, and the split is of the leaf that the run reaches with the prefix one
  -- symbol shorter.
  pub perform_linear_search_lem :
      (n rounds : ℕ) (st : State) (w : Word) (m r : ℕ) (start : TreePath) (base : Base A)
      → IsHypothesis o K n st []
      → IsWord w
      → run st w ≡ some r
      → suc m + rounds ≡ length w
      → AgreesTo st w m
      → Starts st (take (suc m) w) start
      → Knows o K base
      → LinearResult st w (perform_linear_search o rounds w (suc m) start st base)
  unfolding perform_linear_search
  perform_linear_search_lem n zero st w m r start base hyp words runs len before starts knows =
      linear_step_lem n (λ b. some (finished [], st, b)) st w m r start base hyp words runs
        (omega (arith, len)) before starts knows
        (λ b all k.
          (finished [], b, refl, k, subst (λ i. AgreesTo st w i) (omega (arith, len)) all))
  perform_linear_search_lem n (suc rounds) st w m r start base hyp words runs len before starts
        knows =
      linear_step_lem n (λ b. perform_linear_search o rounds w (suc (suc m)) [] st b) st w m r start
        base hyp words runs (omega (arith, len)) before starts knows
        (λ b all k.
          perform_linear_search_lem n rounds st w (suc m) r [] b hyp words runs (omega (arith, len))
            all (root-Starts n st (take (suc (suc m)) w) [] hyp) k)
