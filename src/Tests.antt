-- ===== src/Tests.antt =====
-- The theorems at concrete inputs: a knowledgebase of numbers with an answer and open queries.
pub mod Knowledge
pub mod Trees
pub mod Values
pub mod Angluin
pub mod Machines
pub mod Kearns
use libalf.Serialize.{
  Stream, ByteOrder, IsInverse, IsInt, Codec, value, out_of_fuel, serialize_int,
  deserialize_unsigned, to_u32,
}
use libalf.Serialize.RoundTrip.{IsCodec}
use libalf.Common.{ℕ, ◌≡◌, ◌≢◌, ◌<◌, length, arith, refl, Bool, [], ◌∷◌, Word, pos, ◌==◌, not}
use libalf.Knowledgebase.Base.{
  Answer, Base, clear, find_or_create_descendant, mark_required, set_answer,
}
use libalf.Knowledgebase.Base.Invariant.{IsValid, clear-IsValid, find_or_create-IsValid}
use libalf.Knowledgebase.Base.Preserve.{mark_required-IsValid, set_answer-IsValid}
use libalf.Knowledgebase.Base.Queries.{exists-find_or_create}

abbrev pub numbers : Answer ℕ
numbers = record { blank = 0; same = λ a b. a == b }

abbrev pub unequal : ℕ → ℕ → Bool
unequal a b = not (a == b)

abbrev pub word_a : Word
word_a = pos 1 ∷ []

abbrev pub word_b : Word
word_b = pos 2 ∷ pos 0 ∷ []

-- The knowledgebase with one answer, and with one query besides.
abbrev pub seen : Base ℕ
seen = (set_answer numbers word_a 5 (find_or_create_descendant numbers word_a (clear numbers))).1

abbrev pub asked : Base ℕ
asked = (mark_required numbers word_b (find_or_create_descendant numbers word_b seen)).1

pub seen-IsValid : IsValid numbers seen
seen-IsValid =
    set_answer-IsValid numbers word_a (find_or_create_descendant numbers word_a (clear numbers))
      refl (find_or_create-IsValid numbers word_a (clear numbers) refl (clear-IsValid numbers))
      (exists-find_or_create numbers word_a (clear numbers) refl) 5

pub asked-IsValid : IsValid numbers asked
asked-IsValid =
    mark_required-IsValid numbers word_b (find_or_create_descendant numbers word_b seen) refl
      (find_or_create-IsValid numbers word_b seen refl seen-IsValid)
      (exists-find_or_create numbers word_b seen refl)

-- A machine whose byte order is that of the network.
abbrev pub big_endian : ByteOrder
big_endian = record { htonl = λ a. a; ntohl = λ a. a }

pub big_endian-IsInverse : IsInverse big_endian
big_endian-IsInverse a h = refl

-- Answers that are written as an `int` and read as an `unsigned int`.
abbrev pub number_codec : Codec ℕ
number_codec = record {
  put = λ n. serialize_int big_endian (pos n);
  get = deserialize_unsigned big_endian;
}

number_codec-consumes :
    (s t : Stream) (n : ℕ) → deserialize_unsigned big_endian s ≡ value n t → length t < length s
unfolding deserialize_unsigned
number_codec-consumes [] t n e = cc
number_codec-consumes (x ∷ s) t n e = ground arith

number_codec-ends : (s : Stream) → deserialize_unsigned big_endian s ≢ out_of_fuel
unfolding deserialize_unsigned
number_codec-ends [] = λ e. cc
number_codec-ends (x ∷ s) = λ e. cc

pub number_codec-IsCodec : IsCodec number_codec (λ n. IsInt (pos n))
unfolding serialize_int deserialize_unsigned to_u32
number_codec-IsCodec = record {
  reads = λ n rest h. refl;
  writes = λ n. omega arith;
  consumes = number_codec-consumes;
  ends = number_codec-ends;
}
