-- ===== src/Tests/Knowledge.antt =====
-- The theorems on knowledgebases at concrete inputs.
use libalf.Common.{
  ◌⊎◌, ltb_ℤ, ◌++◌, Bool, ℕ, ◌≡◌, refl, [], ◌∷◌, Word, pos, word_eq, true, false, none, some, ◌||◌,
  ◌&&◌, not, if◌then◌else◌, contains, is_prefix, leb, length, arith, ◌+◌, ◌-◌, negsuc, Bool-cases,
  inl, inr,
}
use libalf.Knowledgebase.Node.{
  exists_at, words, largest, entry_at, slot, update, put_slot, child_or_new, blank_entry,
}
use libalf.Knowledgebase.Node.Lookup.{entry_at-new_node}
use libalf.Knowledgebase.Node.Search.{differ_at, recursive_different, recursive_different_iff}
use libalf.Knowledgebase.Base.{
  Base, add_knowledge, add_query, undo, clear_queries, clear, entry, store_answer,
  resolve_or_add_query, add_or_alter_knowledge, u32_mod, inc32, set_answer, mark_required,
  find_or_create_descendant,
}
use libalf.Knowledgebase.Base.Invariant.{IsValid}
use libalf.Knowledgebase.Base.Entries.{
  known, is_answered, known-add_knowledge, entry-set_answer, entry-find_or_create, answered_entry,
}
use libalf.Knowledgebase.Base.AddQuery.{add_query_lem}
use libalf.Serialize.{serialize_list}
use libalf.Knowledgebase.Base.Acceptances.{
  deserialize_query_acceptances, deserialize_query_acceptances_lem,
}
use libalf.Knowledgebase.Base.Answering.{answer_for}
use libalf.Knowledgebase.Base.Merge.{merge_knowledgebase, merge-consistent, merge-inconsistent}
use libalf.Knowledgebase.Base.Undo.{IsTimed, known-undo, undo-add_knowledge, undo-too_far}
use libalf.Knowledgebase.Base.Clearing.{clear_queries_lem}
use libalf.Knowledgebase.Base.Queries.{
  add_knowledge-IsValid, add_or_alter_knowledge_lem, resolve_or_add_query_lem,
}
use libalf.Knowledgebase.Base.Counters.{
  get_label, label_loop, check_largest_symbol, check_largest_symbol_lem,
}
use libalf.Tests.{
  big_endian, big_endian-IsInverse, number_codec, number_codec-IsCodec, numbers, unequal, word_a,
  word_b, seen, asked, seen-IsValid, asked-IsValid,
}

known-add_knowledge_example :
    (t : Base ℕ) × (add_knowledge numbers word_a 7 asked
      ≡ some (elim (known numbers asked word_a) [ none ↦ true | some b ↦ numbers.same b 7 ], t))
    × ((v : Word)
        → known numbers t v ≡ (
            if word_eq v word_a
            then elim (known numbers asked word_a) [ none ↦ some 7 | some b ↦ some b ]
            else known numbers asked v))
known-add_knowledge_example = known-add_knowledge numbers word_a 7 asked refl

add_query_lem_example :
    (t : Base ℕ) × (count : ℕ) × (add_query numbers word_b (pos 1) seen ≡ some (count, t))
    × IsValid numbers t
    × ((v : Word) → known numbers t v ≡ known numbers seen v)
    × ((v : Word)
        → contains v t.required ≡ (
            contains v seen.required
            || is_prefix v word_b
              && leb 2 (1 + length v)
              && not (is_answered (entry numbers seen v))))
add_query_lem_example = add_query_lem numbers word_b 1 seen refl seen-IsValid

asked-required : asked.required ≡ word_b ∷ []
unfolding set_answer store_answer mark_required find_or_create_descendant clear entry_at slot update
    put_slot child_or_new
asked-required = refl

deserialize_query_acceptances_lem_example :
    (t : Base ℕ) × (deserialize_query_acceptances numbers big_endian number_codec
        (serialize_list big_endian number_codec (8 ∷ []) ++ pos 3 ∷ [])
        asked
      ≡ some (true, t))
    × (t.required ≡ [])
    × IsValid numbers t
    × ((v : Word)
        → known numbers t v ≡ elim (answer_for v (word_b ∷ []) (8 ∷ [])) [
          | some a ↦ some a
          | none ↦ known numbers asked v
        ])
deserialize_query_acceptances_lem_example =
    deserialize_query_acceptances_lem numbers big_endian number_codec number_codec-IsCodec
      big_endian-IsInverse (word_b ∷ []) (8 ∷ []) asked (pos 3 ∷ []) asked-IsValid asked-required
      refl (omega arith, tt) (omega arith)

-- Knowledgebases that agree with `seen`, and that do not.
abbrev consistent : Base ℕ
consistent = (set_answer numbers word_b 9 asked).1

abbrev inconsistent : Base ℕ
inconsistent =
    (set_answer numbers word_a 6 (find_or_create_descendant numbers word_a (clear numbers))).1

seen-agrees : recursive_different unequal seen.root consistent.root (negsuc 0) ≡ false
unfolding set_answer store_answer mark_required find_or_create_descendant clear recursive_different
    entry_at slot update put_slot child_or_new
seen-agrees = refl

seen-differs : differ_at unequal 0 seen.root inconsistent.root word_a ≡ true
unfolding set_answer store_answer mark_required find_or_create_descendant clear entry_at slot update
    put_slot child_or_new
seen-differs = refl

no_difference : (v : Word) → differ_at unequal 0 seen.root consistent.root v ≡ false
no_difference v = elim (Bool-cases (differ_at unequal 0 seen.root consistent.root v)) [
  | inl e ↦ cc (seen-agrees, (recursive_different_iff unequal 0 seen.root consistent.root).1 (v, e))
  | inr e ↦ e
]

merge-consistent_example :
    (t : Base ℕ) × (merge_knowledgebase numbers unequal consistent seen ≡ some (true, t))
    × ((v : Word)
        → known numbers t v
          ≡ elim (known numbers seen v) [ some a ↦ some a | none ↦ known numbers consistent v ])
merge-consistent_example = merge-consistent numbers unequal consistent seen no_difference

merge-inconsistent_example :
    merge_knowledgebase numbers unequal inconsistent seen ≡ some (false, seen)
merge-inconsistent_example =
    merge-inconsistent numbers unequal inconsistent seen word_a seen-differs

-- One answer at time 1, and nothing else.
seen-entry :
    (v : Word)
    → entry numbers seen v ≡ (if word_eq v word_a then answered_entry 1 5 else blank_entry 0)
unfolding clear find_or_create_descendant
seen-entry v = ground (
  arith,
  entry-set_answer numbers word_a v 5 (find_or_create_descendant numbers word_a (clear numbers))
      refl,
  entry-find_or_create numbers word_a v (clear numbers) refl,
  entry-find_or_create numbers word_a word_a (clear numbers) refl,
  entry_at-new_node {A = ℕ} 0 (negsuc 0) v,
  entry_at-new_node {A = ℕ} 0 (negsuc 0) word_a,
)

seen-timestamp : seen.timestamp ≡ 2
unfolding set_answer store_answer mark_required find_or_create_descendant clear entry_at slot update
    put_slot child_or_new inc32
seen-timestamp = refl

seen-IsTimed : IsTimed numbers seen
seen-IsTimed v e = ground (arith, seen-entry v, seen-timestamp)

known-undo_example : known numbers (undo numbers 1 seen) word_a ≡ (
    if leb (seen.timestamp - 1) (entry numbers seen word_a).timestamp
    then none
    else known numbers seen word_a)
known-undo_example =
    known-undo numbers 1 seen word_a (omega (arith, seen-timestamp)) (omega (arith, seen-timestamp))

undo-add_knowledge_example :
    (t : Base ℕ) × (add_knowledge numbers word_b 4 seen ≡ some (true, t))
    × ((v : Word) → known numbers (undo numbers 1 t) v ≡ known numbers seen v)
undo-add_knowledge_example =
    undo-add_knowledge numbers word_b 4 seen refl seen-IsTimed (omega (arith, seen-timestamp))
      (ground (arith, seen-entry word_b))

undo-too_far_example :
    (known numbers (undo numbers 9 seen) word_a ≡ known numbers seen word_a)
    × ((undo numbers 9 seen).timestamp ≡ u32_mod + seen.timestamp - 9)
undo-too_far_example =
    undo-too_far numbers 9 seen word_a seen-IsTimed (omega (arith, seen-timestamp)) (omega arith)

clear_queries_lem_example :
    ((clear_queries numbers asked).required ≡ [])
    × ((v : Word) → known numbers (clear_queries numbers asked) v ≡ known numbers asked v)
    × IsValid numbers (clear_queries numbers asked)
clear_queries_lem_example = clear_queries_lem numbers asked asked-IsValid

resolve_or_add_query_lem_example :
    (t : Base ℕ) × (resolve_or_add_query numbers none word_b seen
      ≡ some (known numbers seen word_b, t))
    × ((v : Word) → known numbers t v ≡ known numbers seen v)
    × ((v : Word)
        → contains v t.required ≡ (
            contains v seen.required
            || word_eq v word_b && not (is_answered (entry numbers seen word_b))))
    × IsValid numbers t
resolve_or_add_query_lem_example = resolve_or_add_query_lem numbers word_b seen refl seen-IsValid

add_knowledge-IsValid_example :
    (t : Base ℕ) × (r : Bool) × (add_knowledge numbers word_b 3 asked ≡ some (r, t))
    × IsValid numbers t
add_knowledge-IsValid_example = add_knowledge-IsValid numbers word_b asked refl 3 asked-IsValid

add_or_alter_knowledge_lem_example :
    (t : Base ℕ) × (add_or_alter_knowledge numbers word_a 6 asked ≡ some t)
    × IsValid numbers t
    × ((v : Word)
        → known numbers t v ≡ (if word_eq v word_a then some 6 else known numbers asked v))
add_or_alter_knowledge_lem_example =
    add_or_alter_knowledge_lem numbers word_a asked 6 refl asked-IsValid

check_largest_symbol_lem_example :
    ((check_largest_symbol asked).1
      ≡ record asked { largest_symbol = (check_largest_symbol asked).0 })
    × ((u : Word)
        → exists_at asked.root u ≡ true
        → ltb_ℤ (pos (check_largest_symbol asked).0) (get_label u) ≡ false)
    × (((check_largest_symbol asked).0 ≡ 0)
        ⊎ (u : Word) × (exists_at asked.root u ≡ true)
          × (get_label u ≡ pos (check_largest_symbol asked).0))
check_largest_symbol_lem_example = check_largest_symbol_lem asked

-- find_or_create_child stores the label plus one, and check_largest_symbol the label.
largest_symbols_differ : (seen.largest_symbol ≡ 2) × ((check_largest_symbol seen).0 ≡ 1)
unfolding set_answer store_answer mark_required find_or_create_descendant clear entry_at slot update
    put_slot child_or_new largest check_largest_symbol label_loop get_label words
largest_symbols_differ = (refl, refl)
