-- ===== src/Tests/Trees.antt =====
-- The theorems on nodes, words and relations at concrete inputs.
use libalf.Common.{length, ◌≡◌, ◌↔◌, refl, [], ◌∷◌, Word, negsuc, true, some, contains}
use libalf.Knowledgebase.Node.{exists_at, words}
use libalf.Knowledgebase.Node.Search.{recursive_different, recursive_different_iff, differ_at}
use libalf.Alphabet.{is_graded_lex_smaller, graded_loop}
use libalf.Knowledgebase.Equivalence.{Relation, equal_range, representative_loop, representative}
use libalf.Knowledgebase.Graded.{iterate, visited, set_root, visited-exists}
use libalf.Tests.{unequal, word_a, word_b, seen, asked}

recursive_different_iff_example :
    (recursive_different unequal seen.root asked.root (negsuc 0) ≡ true)
    ↔ ((v : Word) × (differ_at unequal 0 seen.root asked.root v ≡ true))
recursive_different_iff_example = recursive_different_iff unequal 0 seen.root asked.root

-- One class of two words, and a class of its own.
abbrev relation : Relation
relation = (word_a, word_a) ∷ (word_a, word_b) ∷ (word_b, word_b) ∷ (word_b, word_a) ∷ ([], []) ∷ []

least : representative is_graded_lex_smaller relation word_b ≡ some word_a
unfolding representative equal_range representative_loop is_graded_lex_smaller graded_loop
least = refl

itself : contains word_a (equal_range relation word_a) ≡ true
unfolding equal_range
itself = refl

visited-exists_example :
    let n = length (words [] asked.root) in
    (iterate n (set_root asked.root) ≡ [])
    × (contains word_b (visited n (set_root asked.root)) ≡ exists_at asked.root word_b)
visited-exists_example = visited-exists asked.root word_b
