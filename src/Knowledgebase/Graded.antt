-- ===== src/Knowledgebase/Graded.antt =====
-- knowledgebase.h, kIterator_lex_graded: the iterator with a queue of pending nodes. A pointer is
-- the word and the node.
use libalf.Common.{
  ℕ, zero, suc, ◌≤◌, ◌≡◌, refl, ap, sym, ◌∙◌, List, [], ◌∷◌, ◌++◌, pos, length, length-append, Word,
  contains, contains-append, append-nil, append_assoc, arith,
}
use libalf.Knowledgebase.Node.{
  Node, node, Slots, nil, null, child, words, words_below, exists_at, children_of,
}
use libalf.Knowledgebase.Node.Words.{contains-words}

abbrev pub Pending : Type 0 → Type 0
Pending A = List (Word × Node A)

module _ {A : Type 0} where
  unfoldable pub set_root : Node A → Pending A
  set_root root = ([], root) ∷ []

  -- The loop over sigma: what is pushed for the children of a node, of which the first has index
  -- `sigma`.
  unfoldable pub push_children : Word → ℕ → Slots A → Pending A
  push_children w sigma nil = []
  push_children w sigma (null cs) = push_children w (suc sigma) cs
  push_children w sigma (child c cs) = (w ++ pos sigma ∷ [], c) ∷ push_children w (suc sigma) cs

  -- operator++
  unfoldable pub advance : Pending A → Pending A
  advance [] = []
  advance ((w, n) ∷ pending) = pending ++ push_children w 0 (children_of n)

  -- The queue after some steps, and the words of the nodes that `*` gave before each of them.
  unfoldable pub iterate : ℕ → Pending A → Pending A
  iterate zero pending = pending
  iterate (suc steps) pending = iterate steps (advance pending)

  unfoldable pub visited : ℕ → Pending A → List Word
  visited zero pending = []
  visited (suc steps) [] = []
  visited (suc steps) ((w, n) ∷ pending) = w ∷ visited steps (advance ((w, n) ∷ pending))

  -- The nodes that are pending and those below them.
  abbrev all_words : Pending A → List Word
  all_words [] = []
  all_words ((w, n) ∷ pending) = words w n ++ all_words pending

  all_words-append : (p q : Pending A) → all_words (p ++ q) ≡ all_words p ++ all_words q
  all_words-append [] q = refl
  all_words-append ((w, n) ∷ p) q =
      ap (λ l. words w n ++ l) (all_words-append p q)
      ∙ sym (append_assoc (words w n) (all_words p) (all_words q))

  all_words-push_children :
      (w : Word) (sigma : ℕ) (cs : Slots A)
      → all_words (push_children w sigma cs) ≡ words_below w sigma cs
  unfolding push_children words
  all_words-push_children w sigma nil = refl
  all_words-push_children w sigma (null cs) = all_words-push_children w (suc sigma) cs
  all_words-push_children w sigma (child c cs) =
      ap (λ l. words (w ++ pos sigma ∷ []) c ++ l) (all_words-push_children w (suc sigma) cs)

  all_words-advance :
      (w : Word) (n : Node A) (pending : Pending A)
      → all_words (advance ((w, n) ∷ pending))
        ≡ all_words pending ++ words_below w 0 (children_of n)
  unfolding advance
  all_words-advance w n pending =
      all_words-append pending (push_children w 0 (children_of n))
      ∙ ap (λ l. all_words pending ++ l) (all_words-push_children w 0 (children_of n))

  words-node : (w : Word) (n : Node A) → words w n ≡ w ∷ words_below w 0 (children_of n)
  unfolding words
  words-node w (node l e cs) = refl

  ends_lem :
      (steps : ℕ) (pending : Pending A)
      → length (all_words pending) ≤ steps
      → iterate steps pending ≡ []
  unfolding iterate advance
  ends_lem zero [] le = refl
  ends_lem (suc steps) [] le = ends_lem steps [] (omega arith)
  ends_lem zero ((w, n) ∷ pending) le =
      absurd
        (omega (arith, length-append (words w n) (all_words pending), ap length (words-node w n)))
  ends_lem (suc steps) ((w, n) ∷ pending) le = ends_lem steps (advance ((w, n) ∷ pending)) (
      omega (
        arith,
        ap length (all_words-advance w n pending),
        length-append (all_words pending) (words_below w 0 (children_of n)),
        length-append (words w n) (all_words pending),
        ap length (words-node w n),
      ))

  visited_lem :
      (steps : ℕ) (pending : Pending A) (u : Word)
      → length (all_words pending) ≤ steps
      → contains u (visited steps pending) ≡ contains u (all_words pending)
  unfolding visited
  visited_lem zero [] u le = refl
  visited_lem (suc steps) [] u le = refl
  visited_lem zero ((w, n) ∷ pending) u le =
      absurd
        (omega (arith, length-append (words w n) (all_words pending), ap length (words-node w n)))
  visited_lem (suc steps) ((w, n) ∷ pending) u le =
      let below = words_below w 0 (children_of n) in
      let later = visited_lem steps (advance ((w, n) ∷ pending)) u (
        omega (
          arith,
          ap length (all_words-advance w n pending),
          length-append (all_words pending) below,
          length-append (words w n) (all_words pending),
          ap length (words-node w n),
        )) in
      ground (
        arith,
        later,
        ap (contains u) (all_words-advance w n pending),
        contains-append u (all_words pending) below,
        contains-append u (words w n) (all_words pending),
        ap (contains u) (words-node w n),
      )

  -- The iterator in graded lexicographic order, set to the root, has an empty queue after as many
  -- steps as the tree has nodes, and has then visited a word exactly where the tree has a node
  -- for it.
  pub visited-exists :
      (root : Node A) (u : Word)
      → let n = length (words [] root) in
        (iterate n (set_root root) ≡ [])
        × (contains u (visited n (set_root root)) ≡ exists_at root u)
  unfolding set_root
  visited-exists root u =
      let whole = ap length (append-nil (words [] root)) in
      (
        ends_lem (length (words [] root)) (set_root root) (omega (arith, whole)),
        visited_lem (length (words [] root)) (set_root root) u (omega (arith, whole))
            ∙ ap (contains u) (append-nil (words [] root))
            ∙ contains-words u root,
      )
