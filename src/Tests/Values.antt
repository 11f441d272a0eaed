-- ===== src/Tests/Values.antt =====
-- The theorems on values, streams, sets and filters at concrete inputs.
use libalf.Common.{
  ◌≡◌, refl, [], ◌∷◌, ◌++◌, pos, negsuc, ℤ, Word, true, false, Bool, some, none, not, word_eq,
  if◌then◌else◌, ◌||◌, ◌&&◌, arith,
}
use libalf.Serialize.{Codec, int_codec, value, serialize_list, deserialize_list}
use libalf.Serialize.RoundTrip.{IsInt-IsCodec, deserialize-serialize_list}
use libalf.Filter.{
  FilterAnswer, Filter, filter_not, filter_or, filter_identity, filter_all_equal, FindChild, to,
  cons, nil, evaluate,
}
use libalf.Filter.Laws.{Means, IsConverted, evaluate_sound}
use libalf.Knowledgebase.Node.Lookup.{entry_at-new_node}
use libalf.Knowledgebase.Base.{Base, clear, set_answer, find_or_create_descendant}
use libalf.Knowledgebase.Base.Entries.{known, entry-set_answer, entry-find_or_create}
use libalf.Tests.{word_a, big_endian, big_endian-IsInverse}

abbrev ints : Codec ℤ
ints = int_codec big_endian

deserialize-serialize_list_example :
    deserialize_list big_endian ints
      (serialize_list big_endian ints (pos 4 ∷ negsuc 6 ∷ []) ++ pos 9 ∷ [])
    ≡ value (pos 4 ∷ negsuc 6 ∷ []) (pos 9 ∷ [])
deserialize-serialize_list_example =
    deserialize-serialize_list big_endian ints (IsInt-IsCodec big_endian big_endian-IsInverse)
      big_endian-IsInverse (pos 4 ∷ negsuc 6 ∷ []) (pos 9 ∷ []) (omega arith, (omega arith, tt))
      (omega arith)

-- Answers that are bools, and a knowledgebase of the language with one word.
abbrev pub bools : FilterAnswer Bool
bools = record {
  answer = record { blank = false; same = λ a b. not (a || b) || a && b };
  to_bool = λ a. a;
  equals_bool = λ a b. a && b || not (a || b);
  of_bool = λ b. b;
  differs = λ a b. (a || b) && not (a && b);
}

abbrev singleton : Base Bool
singleton =
    (set_answer bools.answer word_a true
      (find_or_create_descendant bools.answer word_a (clear bools.answer))).1

singleton-known :
    (v : Word) → known bools.answer singleton v ≡ (if word_eq v word_a then some true else none)
unfolding clear find_or_create_descendant
singleton-known v = ground (
  arith,
  entry-set_answer bools.answer word_a v true
      (find_or_create_descendant bools.answer word_a (clear bools.answer)) refl,
  entry-find_or_create bools.answer word_a v (clear bools.answer) refl,
  entry-find_or_create bools.answer word_a word_a (clear bools.answer) refl,
  entry_at-new_node {A = Bool} false (negsuc 0) v,
  entry_at-new_node {A = Bool} false (negsuc 0) word_a,
)

singleton-right :
    (w : Word) (a : Bool) → known bools.answer singleton w ≡ some a → a ≡ word_eq w word_a
singleton-right w a e = ground (arith, singleton-known w)

bools_equal : (a b : Bool) → bools.differs a b ≡ false → a ≡ b
bools_equal true true e = refl
bools_equal true false e = absurd (cc e)
bools_equal false true e = absurd (cc e)
bools_equal false false e = refl

bools-IsConverted : IsConverted bools
bools-IsConverted = record { back = λ b. refl; equal = λ a b e. bools_equal a b e }

-- A find_child that finds the node of the word.
abbrev find_word : FindChild Bool
find_word base w = some w

abbrev not_known : Filter
not_known = filter_all_equal (
    cons (filter_not (to (filter_or (cons filter_identity nil))))
      (cons (filter_not (to filter_identity)) nil))

not_known-evaluate : evaluate bools find_word not_known singleton word_a ≡ some false
unfolding evaluate
not_known-evaluate = ground (arith, singleton-known word_a)

evaluate_sound_example :
    Means not_known (λ w. word_eq w word_a) word_a false
    × ((b : Bool) → Means not_known (λ w. word_eq w word_a) word_a b → b ≡ false)
evaluate_sound_example =
    evaluate_sound bools bools-IsConverted find_word singleton (λ w. word_eq w word_a)
      (λ w n e. ground (arith, e)) singleton-right not_known word_a false not_known-evaluate
