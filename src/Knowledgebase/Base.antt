-- ===== src/Knowledgebase/Base.antt =====
-- The knowledgebase itself (class knowledgebase<answer> of libalf/include/libalf/knowledgebase.h):
-- its counters, the list of required nodes, and the methods of nodes that change them.
pub mod Entries
pub mod Invariant
pub mod Preserve
pub mod Queries
pub mod Clearing
pub mod Undo
pub mod Answering
pub mod Acceptances
pub mod Counters
pub mod Merge
pub mod AddQuery
use libalf.Common.{
  ℕ, zero, suc, ◌+◌, ◌-◌, ◌%◌, ◌^◌, List, [], ◌∷◌, ◌++◌, Bool, true, false, ◌&&◌, Option, none,
  some, ◌==◌, ltb, leb, if◌then◌else◌, ℤ, pos, negsuc, ltb_ℤ, pred_ℤ, minus_ℤ, length, Word,
  is_word, remove,
}
use libalf.Knowledgebase.Node.{
  node_ignore, node_required, node_answered, Entry, Node, update, created, largest, entry_at,
  exists_at, new_node, words, cleanup,
}

-- What the template asks of an answer type: its default value and its operator==.
pub record Answer (A : Type 0) : Type 0 where
  pub blank : A
  pub same : A → A → Bool

-- `required` is a std::list of pointers, each of which is the word of its node.
pub record Base (A : Type 0) : Type 0 where
  pub root : Node A
  pub required : List Word
  pub nodecount : ℕ
  pub answercount : ℕ
  pub resolved_queries : ℕ
  pub largest_symbol : ℕ
  pub timestamp : ℕ

-- `unsigned int` arithmetic.
abbrev pub u32_mod : ℕ
u32_mod = 2 ^ 32

unfoldable pub inc32 : ℕ → ℕ
inc32 t = (t + 1) % u32_mod

unfoldable pub sub32 : ℕ → ℕ → ℕ
sub32 a b = (a + u32_mod - b % u32_mod) % u32_mod

-- root->cleanup(); the root itself stays.
abbrev pub cleaned : {A : Type 0} → Base A → Base A
cleaned kb = record kb { root = (cleanup kb.root).1 }

module _ {A : Type 0} (o : Answer A) where
  -- The state after clear(): a root for the empty word, and nothing known.
  unfoldable pub clear : Base A
  clear = record {
    root = new_node o.blank (negsuc 0);
    required = [];
    nodecount = 1;
    answercount = 0;
    resolved_queries = 0;
    largest_symbol = 0;
    timestamp = 1;
  }

  abbrev pub entry : Base A → Word → Entry A
  entry kb w = entry_at o.blank kb.root w

  -- Overwrite the entry of a node that a pointer is held of.
  abbrev pub write : (Entry A → Entry A) → Word → Base A → Base A
  write f w kb = record kb { root = update o.blank f kb.root w }

  -- root->find_or_create_descendant; the pointer that it returns is the word, or NULL where
  -- `is_word` is false.
  unfoldable pub find_or_create_descendant : Word → Base A → Base A
  find_or_create_descendant w kb = record kb {
    root = update o.blank (λ e. e) kb.root w;
    nodecount = kb.nodecount + created o.blank kb.root w;
    largest_symbol = largest kb.largest_symbol w;
  }

  unfoldable pub mark_required : Word → Base A → Bool × Base A
  mark_required w kb = elim ((entry kb w).status) [
    | node_ignore ↦ (
      true,
      record (write (λ e. record e { status = node_required; timestamp = kb.timestamp }) w kb) {
        required = kb.required ++ w ∷ [];
      },
    )
    | node_required ↦ (true, kb)
    | node_answered ↦ (false, kb)
  ]

  -- The assignments at the end of set_answer.
  unfoldable pub store_answer : Word → A → Base A → Base A
  store_answer w a kb =
      record (write (λ _. record { timestamp = kb.timestamp; status = node_answered; ans = a }) w
        kb) { timestamp = inc32 kb.timestamp; answercount = kb.answercount + 1 }

  unfoldable pub set_answer : Word → A → Base A → Bool × Base A
  set_answer w a kb = elim ((entry kb w).status) [
    | node_answered ↦ (o.same (entry kb w).ans a, kb)
    | node_required ↦ (true, store_answer w a (record kb { required = remove w kb.required }))
    | node_ignore ↦ (true, store_answer w a kb)
  ]

  -- The assignments at the end of ignore.
  abbrev pub forget : Word → Base A → Base A
  forget = write (λ e. record e { status = node_ignore; timestamp = 0 })

  unfoldable pub ignore : Word → Base A → Base A
  ignore w kb = elim ((entry kb w).status) [
    | node_required ↦ forget w (record kb { required = remove w kb.required })
    | node_answered ↦ forget w (record kb { answercount = kb.answercount - 1 })
    | node_ignore ↦ forget w kb
  ]

  -- A NULL pointer is dereferenced where the result is `none`.
  unfoldable pub add_knowledge : Word → A → Base A → Option (Bool × Base A)
  add_knowledge w a kb =
      if is_word w then some (set_answer w a (find_or_create_descendant w kb)) else none

  unfoldable pub add_or_alter_knowledge : Word → A → Base A → Option (Base A)
  add_or_alter_knowledge w a kb =
      if is_word w
      then some (set_answer w a (ignore w (find_or_create_descendant w kb))).1
      else none

  -- `my_filter` is the call of its evaluate method, where the pointer is not NULL.
  abbrev pub Filter : Type 0
  Filter = Base A → Word → Option A

  abbrev pub consult : Option Filter → Base A → Word → Option A
  consult none kb w = none
  consult (some evaluate) kb w = evaluate kb w

  -- The outcome of a query: the answer if it is known, and the new state.
  unfoldable pub resolve_query : Option Filter → Word → Base A → Option A × Base A
  resolve_query my_filter w kb = elim ((entry kb w).status) [
    | node_answered ↦
        (some (entry kb w).ans, record kb { resolved_queries = kb.resolved_queries + 1 })
    | _ ↦ (consult my_filter kb w, kb)
  ]

  -- The tail of resolve_or_add_query at a node without an answer.
  unfoldable pub ask : Option Filter → Word → Base A → Option A × Base A
  ask my_filter w kb = elim (consult my_filter kb w) [
    | some a ↦ (some a, (set_answer w a kb).1)
    | none ↦ (none, (mark_required w kb).1)
  ]

  unfoldable pub resolve_at : Option Filter → Word → Base A → Option A × Base A
  resolve_at my_filter w kb = elim ((entry kb w).status) [
    | node_answered ↦
        (some (entry kb w).ans, record kb { resolved_queries = kb.resolved_queries + 1 })
    | _ ↦ ask my_filter w kb
  ]

  unfoldable pub resolve_or_add_query : Option Filter → Word → Base A → Option (Option A × Base A)
  resolve_or_add_query my_filter w kb =
      if is_word w then some (resolve_at my_filter w (find_or_create_descendant w kb)) else none

  unfoldable pub knowledge_exists : Word → Base A → Bool
  knowledge_exists w kb = elim ((entry kb w).status) [ node_answered ↦ true | _ ↦ false ]

  unfoldable pub node_exists : Word → Base A → Bool
  node_exists w kb = exists_at kb.root w

  -- add_query: the loop over the word. `p` is the word of `current`; `count` is new_queries.
  unfoldable pub count_marked : ℕ → Bool × Base A → ℕ × Base A
  count_marked count marked = (if marked.0 then count + 1 else count, marked.1)

  unfoldable pub mark_prefix : Word → ℤ → ℕ → Base A → ℕ × Base A
  mark_prefix p skip_prefixes count kb =
      if ltb_ℤ (pos 0) skip_prefixes then (count, kb) else count_marked count (mark_required p kb)

  unfoldable pub add_query_loop : Word → Word → ℤ → ℕ → Base A → ℕ × Base A
  add_query_loop p [] skip_prefixes count kb = count_marked count (mark_required p kb)
  add_query_loop p (x ∷ w) skip_prefixes count kb =
      let marked = mark_prefix p skip_prefixes count kb in
      add_query_loop (p ++ x ∷ []) w (pred_ℤ skip_prefixes) marked.0
        (find_or_create_descendant (p ++ x ∷ []) marked.1)

  unfoldable pub add_query : Word → ℤ → Base A → Option (ℕ × Base A)
  add_query w prefix_count kb =
      if is_word w
      then some (add_query_loop [] w (minus_ℤ (pos (length w)) prefix_count) 0 kb)
      else none

  -- clear_queries: the front of the list is ignored, which removes it, until the list is empty.
  -- The recursion is on the list's length, by which the loop is bounded.
  unfoldable pub drain : ℕ → Base A → Base A
  drain zero kb = kb
  drain (suc fuel) kb = elim kb.required [ [] ↦ kb | w ∷ _ ↦ drain fuel (ignore w kb) ]

  unfoldable pub clear_queries : Base A → Base A
  clear_queries kb = cleaned (drain (length kb.required) kb)

  -- undo: the loop over all nodes, and the rest. `count` is unsigned.
  unfoldable pub undo_loop : ℕ → List Word → Base A → Base A
  undo_loop since [] kb = kb
  undo_loop since (w ∷ ws) kb =
      undo_loop since ws (if leb since (entry kb w).timestamp then ignore w kb else kb)

  unfoldable pub undo : ℕ → Base A → Base A
  undo count kb =
      let since = sub32 kb.timestamp count in
      cleaned (record (undo_loop since (words [] kb.root) kb) {
        timestamp = if ltb since 1 then 1 else since;
      })

  -- The loop of deserialize_query_acceptances on answers that were read from the stream already:
  -- each answers the first query that is left. `none` is `goto failed`.
  unfoldable pub answer_queries : List A → Base A → Option (Base A)
  answer_queries [] kb = elim kb.required [ [] ↦ some kb | _ ∷ _ ↦ none ]
  answer_queries (a ∷ as') kb = elim kb.required [
    | [] ↦ none
    | w ∷ _ ↦ answer_queries as' (set_answer w a kb).1
  ]

  unfoldable pub get_queries : Base A → List Word
  get_queries kb = kb.required

  -- create_query_tree: the queries alone, with ascending timestamps.
  unfoldable pub query_tree_loop : List Word → Base A → Option (Base A)
  query_tree_loop [] tree = some tree
  query_tree_loop (w ∷ ws) tree = elim (add_query w (pos 0) tree) [
    | none ↦ none
    | some (_, tree') ↦ query_tree_loop ws (record tree' { timestamp = inc32 tree'.timestamp })
  ]

  unfoldable pub create_query_tree : Base A → Option (Base A)
  create_query_tree kb = query_tree_loop kb.required clear

  unfoldable pub is_answered : Base A → Bool
  is_answered kb = length kb.required == 0

  unfoldable pub is_empty : Base A → Bool
  is_empty kb = length kb.required == 0 && kb.answercount == 0
