-- ===== src/Lib.antt =====
-- libalf, the automata learning library: a model of the parts that hold what was learned.
--
-- A learning algorithm keeps what it knows of a language in a knowledgebase: a tree in which each
-- node stands for a word and has a status (ignored, required, answered). Clients add knowledge,
-- algorithms add queries, the queries are resolved, answers are undone and trees are merged. The
-- answers are of a type that is a parameter of the template; answer.h has three such types. Filters
-- answer queries from what is known without asking. The algorithm L* keeps a table of answers, asks
-- the knowledgebase for what is missing in it, closes it, makes it consistent, and derives an
-- automaton of it. The algorithm of Kearns and Vazirani keeps a tree whose inner nodes are labelled
-- with words to ask for and whose leaves are the states of an automaton; a counterexample splits a
-- leaf, and tasks compute the transitions anew. Everything is exchanged as sequences of 32-bit
-- integers (serialize.h), and words are compared by the orders of alphabet.cpp.
--
-- Files and sources:
--   Serialize          include/serialize.h: int, unsigned, bool, pair, list, vector
--                      and std::set of numbers
--   Answer             libalf/include/libalf/answer.h: extended_bool, weak_bool, fixed_count_answer
--   Alphabet           libalf/src/alphabet.cpp: is_lex_smaller, is_graded_lex_smaller
--   Sets               include/set.h
--   Triple             include/triple.h
--   Knowledgebase/Node libalf/include/libalf/knowledgebase.h, class node: find_child,
--                      find_or_create_child, find_descendant, cleanup, the iterator's order (words),
--                      has_specific_suffix, no_subqueries, different, recursive_different
--   Knowledgebase/Base knowledgebase.h, class knowledgebase: clear, mark_required, set_answer,
--                      ignore, add_knowledge, add_or_alter_knowledge, add_query, resolve_query,
--                      resolve_or_add_query, clear_queries, undo, merge_knowledgebase,
--                      deserialize_query_acceptances, create_query_tree, check_largest_symbol
--   Knowledgebase/Equivalence
--                      knowledgebase.h, class equivalence_relation
--   Knowledgebase/Ancestors
--                      knowledgebase.h, class node: get_parent, is_prefix_of, is_suffix_of
--   Knowledgebase/Graded
--                      knowledgebase.h, class kIterator_lex_graded
--   Knowledgebase/Serial
--                      knowledgebase.h, serialize and serialize_subtree
--   Filter             libalf/include/libalf/filter.h
--   Angluin            libalf/include/libalf/algorithm_angluin.h, the table of L*. Table: the data, the
--                      searches, add_column, columns_filled, is_closed. Rows: how rows enter, with
--                      increase_alphabet_size and add_counterexample. Fill: fill_missing_columns.
--                      Complete: close, is_consistent, make_consistent, complete, conjecture_ready.
--                      Starting: a new table. Derive: derive_conjecture_memorize. Sync:
--                      sync_to_knowledgebase. The other modules are about these.
--   Kearns             libalf/include/libalf/algorithm_kearns_vazirani.h, the discrimination tree.
--                      Tree: the nodes, the loop that sifts, least_commont_ancestor, simulate_run.
--                      Tasks: the tasks and what they change. Perform: perform of each task.
--                      Automaton: derive_conjecture. Advance: add_counterexample, advance,
--                      conjecture_ready. The other modules are about these.
--   Conjecture         libalf/include/libalf/conjecture.h, class moore_machine, and
--                      libalf/src/conjecture.cpp, finite_automaton::contains
--   Common             shared names, words, the integers of `int`
--   Tests              the theorems at concrete inputs
--
-- How the state corresponds: a pointer to a node is the word on the path from the root, so `parent`
-- is the word less its last symbol and get_word is the word itself. A node is its label, its entry
-- (timestamp, status, ans) and its vector of children, in which `null` is a NULL pointer. A list of
-- node pointers is a list of words, a multimap from nodes to nodes is the list of its pairs. A
-- method that changes the object returns the new state; `none` stands for `false`, for a NULL
-- pointer, or for a NULL pointer that is dereferenced, as the comment at the definition says.
--
-- Parameters: the answer type with its default value and comparisons (Answer, FilterAnswer), htonl
-- and ntohl with the documented law that they are inverse (ByteOrder, IsInverse), the order by which
-- representatives are chosen, and the serialize functions of an element type (Codec).
--
-- The normalizer of a table is a parameter too, and may be NULL; the theorems on the table are for a
-- NULL normalizer. Where is_consistent reads the first symbol of an empty word, which C++ leaves
-- undefined, the result is `none`. filter_identity calls a find_child with two iterators that the
-- sources do not have, so it is a parameter. An upper table is not empty where its rows are compared.
-- A row has no more entries than there are columns where make_consistent looks for the column of an
-- entry. A timestamp of a column is there for each column. A row that is erased in sync_tables is not
-- looked at again, so that the loop, which starts anew, goes on with the rows behind it.
--
-- The invariant of a table, in what follows, is IsTable of Angluin/Adding: columns and rows have no
-- negative symbols, the empty word is the first column and an upper row, no column and no upper row is
-- there twice, each answer that is filled in is the known one of its column, and each upper word with
-- one symbol of the alphabet more has a row. A row is filled where it has the answers of all columns.
--
-- The discrimination tree: a leaf's address is a number, by the order in which leaves are made, and
-- an inner node is the way to it from the root; parent and level are that way less its last turn and
-- its length. A std::set of leaves is in the order of their addresses, for which C++ says nothing; it
-- decides only the order of tasks. The variables that are set with the first tree are part of the
-- normal phase, and `none` in perform is a NULL pointer that is dereferenced, or a run that ends at
-- one.
--
-- A tree fits its leaves, in what follows, where IsHypothesis of Kearns/Invariant holds: its leaves
-- are different, the label of each arrives at it, has the answer that it says, and the initial state
-- has the empty label. A transition is right where it leads to the leaf at which the label of its
-- source with the symbol arrives.
--
-- Bounds: time stamps are `unsigned int` and wrap at 2^32 (inc32, sub32). The counters and sizes
-- that are `int` are numbers without a bound; 2^31 nodes do not fit into memory. Symbols and
-- serialized values are integers, in the range of int32_t where a theorem needs it. The loop of
-- clear_queries is over the length of the list of queries, each round of which removes one. The
-- loops that read a list or the answers to queries have one more round than the stream has integers,
-- since each round reads one. complete calls itself after a row or a column was added to a filled
-- table; the words of the upper rows and the columns of such a table are known and different, so two
-- calls for each node of the knowledgebase's tree, and two more, are enough. A search by halves has
-- one pass more than its boundaries are apart, since each pass brings them closer, and the loop of
-- advance one for each task.
--
-- Not modelled: output for people (print, to_string, generate_dotfile), memory statistics, the
-- destruction of objects, the reading of a serialized tree and the automaton of an equivalence
-- relation; the serial forms of the table of L* and of the discrimination
-- tree; the other learning algorithms, the other operations
-- of automata and the other libraries and tools of the repository.
pub mod Common
pub mod Serialize
pub mod Answer
pub mod Alphabet
pub mod Sets
pub mod Knowledgebase
pub mod Filter
pub mod Triple
pub mod Conjecture
pub mod Angluin
pub mod Kearns
pub mod Tests
