-- ===== src/Filter/Defs.antt =====
-- filter.h: the classes, evaluate, and the serial form.
use libalf.Common.{
  ℕ, suc, [], ◌∷◌, ◌++◌, Bool, true, false, not, Option, none, some, if◌then◌else◌, pos, eq_ℤ,
  length, Word,
}
use mathlib.Core.List.{reverse}
use libalf.Serialize.{Stream, ByteOrder}
use libalf.Knowledgebase.Base.{Answer, Base}
use libalf.Knowledgebase.Base.Entries.{known}

-- What filters and algorithms ask of an answer type: the conversions from and to bool, operator!=
-- of answers, and operator== of an answer and a bool, for extended_bool not that of the conversion.
pub record FilterAnswer (A : Type 0) : Type 0 where
  pub answer : Answer A
  pub to_bool : A → Bool
  pub of_bool : Bool → A
  pub differs : A → A → Bool
  pub equals_bool : A → Bool → Bool

mutual
  pub data Filter : Type 0 where
    filter_and : SubFilters → Filter
    filter_or : SubFilters → Filter
    filter_not : SubFilter → Filter
    filter_all_equal : SubFilters → Filter
    filter_reverse : SubFilter → Filter
    filter_identity : Filter

  -- filter<answer> *
  pub data SubFilter : Type 0 where
    null : SubFilter
    to : Filter → SubFilter

  -- std::list<filter<answer>*>
  pub data SubFilters : Type 0 where
    nil : SubFilters
    cons : Filter → SubFilters → SubFilters

-- filter_subfilter_array::add
unfoldable pub add : Filter → SubFilters → SubFilters
add f nil = cons f nil
add f (cons g gs) = cons g (add f gs)

-- filter::type
pub data FilterType : Type 0 where
  type_none type_and type_or type_not type_all_equal type_reverse type_identity : FilterType

unfoldable pub type_code : FilterType → ℕ
type_code type_none = 0
type_code type_and = 1
type_code type_or = 2
type_code type_not = 3
type_code type_all_equal = 4
type_code type_reverse = 100
type_code type_identity = 200

unfoldable pub get_type : Filter → FilterType
get_type (filter_and fs) = type_and
get_type (filter_or fs) = type_or
get_type (filter_not f) = type_not
get_type (filter_all_equal fs) = type_all_equal
get_type (filter_reverse f) = type_not
get_type filter_identity = type_identity

-- get_filter_from_type; `none` is NULL. The constructors of filter_not and filter_reverse do not set
-- the sub-filter: `unset` is what it then holds.
unfoldable pub get_filter_from_type : SubFilter → FilterType → Option Filter
get_filter_from_type unset type_and = some (filter_and nil)
get_filter_from_type unset type_or = some (filter_or nil)
get_filter_from_type unset type_not = some (filter_not unset)
get_filter_from_type unset type_all_equal = some (filter_all_equal nil)
get_filter_from_type unset type_reverse = some (filter_reverse unset)
get_filter_from_type unset type_identity = some filter_identity
get_filter_from_type unset type_none = none

-- The node that filter_identity finds, by its word. The function that it calls, find_child with two
-- iterators, is not in the repository, so it is a parameter.
abbrev pub FindChild : Type 0 → Type 0
FindChild A = Base A → Word → Option Word

module _ {A : Type 0} (o : FilterAnswer A) (find_child : FindChild A) where
  -- evaluate: the answer, or `none` where it returns false. The loops of the array filters are
  -- functions of their own; `all_known` and `result` are variables of theirs.
  unfoldable mutual
    pub evaluate : Filter → Base A → Word → Option A
    evaluate (filter_and fs) base word = and_loop fs base word
    evaluate (filter_or fs) base word = or_loop fs true base word
    evaluate (filter_not f) base word = elim (evaluate_sub f base word) [
      | none ↦ none
      | some a ↦ some (o.of_bool (not (o.to_bool a)))
    ]
    evaluate (filter_all_equal fs) base word = first_loop fs base word
    evaluate (filter_reverse f) base word = evaluate_sub f base (reverse word)
    evaluate filter_identity base word = elim (find_child base word) [
      | none ↦ none
      | some n ↦ known o.answer base n
    ]

    pub evaluate_sub : SubFilter → Base A → Word → Option A
    evaluate_sub null base word = none
    evaluate_sub (to f) base word = evaluate f base word

    pub and_loop : SubFilters → Base A → Word → Option A
    and_loop nil base word = some (o.of_bool true)
    and_loop (cons f fs) base word = elim (evaluate f base word) [
      | none ↦ none
      | some a ↦ if o.to_bool a then and_loop fs base word else some (o.of_bool false)
    ]

    pub or_loop : SubFilters → Bool → Base A → Word → Option A
    or_loop nil all_known base word = if all_known then some (o.of_bool false) else none
    or_loop (cons f fs) all_known base word = elim (evaluate f base word) [
      | none ↦ or_loop fs false base word
      | some a ↦ if o.to_bool a then some (o.of_bool true) else or_loop fs all_known base word
    ]

    pub first_loop : SubFilters → Base A → Word → Option A
    first_loop nil base word = none
    first_loop (cons f fs) base word = elim (evaluate f base word) [
      | none ↦ none
      | some a ↦ equal_loop a fs base word
    ]

    pub equal_loop : A → SubFilters → Base A → Word → Option A
    equal_loop result nil base word = some result
    equal_loop result (cons f fs) base word = elim (evaluate f base word) [
      | none ↦ none
      | some a ↦ if o.differs a result then none else equal_loop result fs base word
    ]

abbrev pub size_of : SubFilters → ℕ
size_of nil = 0
size_of (cons f fs) = suc (size_of fs)

module _ (bo : ByteOrder) where
  -- The first integer, which is filled in last, is the number of those that follow. A NULL
  -- sub-filter is dereferenced where the result is `none`.
  abbrev pub with_size : Stream → Stream
  with_size body = bo.htonl (pos (length body)) ∷ body

  abbrev pub tagged : FilterType → Stream → Stream
  tagged t body = with_size (bo.htonl (pos (type_code t)) ∷ body)

  -- serialize of filter_subfilter_array, and that of the filters with one sub-filter.
  abbrev pub array : FilterType → SubFilters → Option Stream → Option Stream
  array t fs none = none
  array t fs (some s) = some (tagged t (bo.htonl (pos (size_of fs)) ∷ s))

  abbrev pub single : FilterType → Option Stream → Option Stream
  single t none = none
  single t (some s) = some (tagged t s)

  unfoldable mutual
    pub serialize : Filter → Option Stream
    serialize (filter_and fs) = array type_and fs (serialize_all fs)
    serialize (filter_or fs) = array type_or fs (serialize_all fs)
    serialize (filter_not f) = single type_not (serialize_sub f)
    serialize (filter_all_equal fs) = array type_all_equal fs (serialize_all fs)
    serialize (filter_reverse f) = single type_not (serialize_sub f)
    serialize filter_identity = some (tagged type_identity [])

    pub serialize_sub : SubFilter → Option Stream
    serialize_sub null = none
    serialize_sub (to f) = serialize f

    pub serialize_all : SubFilters → Option Stream
    serialize_all nil = some []
    serialize_all (cons f fs) = elim (serialize f) [
      | none ↦ none
      | some s ↦ elim (serialize_all fs) [ none ↦ none | some t ↦ some (s ++ t) ]
    ]

-- filter_identity::deserialize, over the integers from `it` to `limit`.
unfoldable pub deserialize_identity : Stream → Bool
deserialize_identity [] = false
deserialize_identity (size ∷ []) = false
deserialize_identity (size ∷ t ∷ s) =
    if not (eq_ℤ size (pos 2)) then false else eq_ℤ t (pos (type_code type_identity))
