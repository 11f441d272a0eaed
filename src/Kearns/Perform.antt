-- ===== src/Kearns/Perform.antt =====
-- algorithm_kearns_vazirani.h: perform of each task.
use libalf.Common.{
  ℕ, zero, suc, ◌+◌, ◌-◌, List, [], ◌∷◌, ◌++◌, Bool, true, false, Option, none, some, nth, put_nth,
  length, ltb, if◌then◌else◌, ◌==◌, ◌&&◌, not, pos, Word, take, ◌>>=◌,
}
use Prim.Native.Nat.{◌/◌}
use libalf.Knowledgebase.Base.{Base, resolve_or_add_query}
use libalf.Filter.{FilterAnswer}
use libalf.Kearns.Tree.{TreePath, Place, at_leaf, at_inner, sift_from}
use libalf.Kearns.Tasks.{
  State, Task, compute_transition, linear_search, binary_search, split_node, Outcome, unfinished,
  finished, set_transition, split_for, run, split,
}

abbrev is_leaf : Place → Bool
is_leaf (at_leaf i) = true
is_leaf (at_inner p) = false

-- `none` in what follows is undefined behaviour.
module _ {A : Type 0} (o : FilterAnswer A) where
  abbrev pub Performed : Type 0
  Performed = Option (Outcome × State × Base A)

  -- compute_transition_task::perform.
  unfoldable pub perform_compute_transition :
      (source symbol : ℕ) → TreePath → State → Base A → Performed
  perform_compute_transition source symbol current st base = nth source st.leaves >>= λ l.
      sift_from o (l.label ++ pos symbol ∷ []) current st.root base >>= λ (place, base').
      elim place [
        | at_inner p ↦ some (unfinished (compute_transition source symbol p), st, base')
        | at_leaf i ↦
            some
              (finished [], record st { leaves = set_transition source symbol i st.leaves }, base')
      ]

  -- The check for a bad prefix of `position` symbols, which `node` and `sift_node` are for.
  unfoldable pub split_at :
      Word → (position : ℕ) → (run_node sift_node : ℕ) → State → Base A → Performed
  split_at counterexample position run_node sift_node st base =
      let before = position - 1 in
      run st (take before counterexample) >>= λ node.
      split_for node (take before counterexample) (nth before counterexample) run_node sift_node st
      >>= λ t. some (finished (t ∷ []), st, base)

  -- The loop of add_counterexample_linearsearch_task::perform once, and `next` for what follows it.
  unfoldable pub linear_step :
      (next : Base A → Performed) → Word → (position : ℕ) → TreePath → State → Base A → Performed
  linear_step next counterexample position sift_node st base =
      let prefix = take position counterexample in
      sift_from o prefix sift_node st.root base >>= λ (place, base'). elim place [
        | at_inner p ↦ some (unfinished (linear_search counterexample position p), st, base')
        | at_leaf s ↦ run st prefix >>= λ r.
            if r == s then next base' else split_at counterexample position r s st base'
      ]

  -- add_counterexample_linearsearch_task::perform; `rounds` is how often next_position is true.
  unfoldable pub perform_linear_search :
      (rounds : ℕ) → Word → (position : ℕ) → TreePath → State → Base A → Performed
  perform_linear_search zero counterexample position sift_node st base =
      linear_step (λ b. some (finished [], st, b)) counterexample position sift_node st base
  perform_linear_search (suc k) counterexample position sift_node st base =
      linear_step (λ b. perform_linear_search k counterexample (suc position) [] st b)
        counterexample position sift_node st base

  -- The loop that continues a sift in the buffer.
  unfoldable pub continue : Word → Place → State → Base A → Option (Place × Base A)
  continue word (at_leaf i) st base = some (at_leaf i, base)
  continue word (at_inner p) st base = sift_from o word p st.root base

  -- An entry of run_buffer, with the simulation where it is NULL.
  abbrev pub run_of : Option ℕ → State → Word → Option ℕ
  run_of (some r) st word = some r
  run_of none st word = run st word

  -- The part of the loop of add_counterexample_binarysearch_task::perform after both sifts arrived
  -- at leaves, with `next` for the next pass, which the boundaries and the buffers are for.
  unfoldable pub judge :
      (next : ℕ → ℕ → List (Option ℕ) → Performed)
      → Word
      → (m left right s s_m1 : ℕ) → List (Option ℕ)
      → State
      → Base A
      → Performed
  judge next counterexample m left right s s_m1 run_buffer st base = nth (suc m) run_buffer >>= λ b.
      run_of b st (take (suc m) counterexample) >>= λ r. nth m run_buffer >>= λ b_m1.
      run_of b_m1 st (take m counterexample) >>= λ r_m1.
      let run_buffer' = put_nth m (some r_m1) (put_nth (suc m) (some r) run_buffer) in
      if (r_m1 == s_m1) && not (r == s)
      then (split_for r_m1 (take m counterexample) (nth m counterexample) r s st >>= λ t.
          some (finished (t ∷ []), st, base))
      else if ltb left right
      then next (if r == s then suc (suc m) else left) (if r == s then right else m) run_buffer'
      else some (finished [], st, base)

  -- The loop of add_counterexample_binarysearch_task::perform on fuel; it is at `position`.
  unfoldable pub perform_binary_search :
      (fuel : ℕ)
      → Word
      → (position left right : ℕ) → List Place
      → List (Option ℕ)
      → State
      → Base A
      → Performed
  perform_binary_search fuel counterexample zero left right sift_buffer run_buffer st base = none
  perform_binary_search zero counterexample (suc m) left right sift_buffer run_buffer st base = none
  perform_binary_search (suc fuel) counterexample (suc m) left right sift_buffer run_buffer st
        base =
      nth (suc m) sift_buffer >>= λ start.
      continue (take (suc m) counterexample) start st base >>= λ (here, base1).
      nth m sift_buffer >>= λ start_m1.
      continue (take m counterexample) start_m1 st base1 >>= λ (before, base2).
      let sift_buffer' = put_nth m before (put_nth (suc m) here sift_buffer) in
      let waiting = binary_search counterexample (suc m) left right sift_buffer' run_buffer in
      elim here [
        | at_inner p ↦ some (unfinished waiting, st, base2)
        | at_leaf s ↦ elim before [
          | at_inner p ↦ some (unfinished waiting, st, base2)
          | at_leaf s_m1 ↦
              judge
                (λ l r buffer.
                  perform_binary_search fuel counterexample ((l + r) / 2) l r sift_buffer' buffer st
                    base2)
                counterexample m left right s s_m1 run_buffer st base2
        ]
      ]

  -- split_node_task::perform.
  unfoldable pub perform_split_node :
      (alphabet_size node : ℕ) → (leaf_label inner_label : Word) → State → Base A → Performed
  perform_split_node alphabet_size node leaf_label inner_label st base =
      resolve_or_add_query o.answer none (leaf_label ++ inner_label) base >>= λ (a, base'). elim a [
        | none ↦ some (unfinished (split_node node leaf_label inner_label), st, base')
        | some a ↦ nth node st.leaves >>= λ old.
            let (tasks, st') =
              split alphabet_size node leaf_label inner_label (o.to_bool a) old st in
            some (finished tasks, st', base')
      ]

  unfoldable pub perform : (alphabet_size : ℕ) → Task → State → Base A → Performed
  perform alphabet_size (compute_transition source symbol current) st base =
      perform_compute_transition source symbol current st base
  perform alphabet_size (linear_search counterexample position sift_node) st base =
      perform_linear_search (length counterexample - position) counterexample position sift_node st
        base
  perform alphabet_size (binary_search counterexample position left right sift_buffer run_buffer) st
        base =
      perform_binary_search (suc (right - left)) counterexample position left right sift_buffer
        run_buffer st base
  perform alphabet_size (split_node node leaf_label inner_label) st base =
      perform_split_node alphabet_size node leaf_label inner_label st base
