-- ===== src/Answer.antt =====
-- libalf/include/libalf/answer.h: the answer types extended_bool, weak_bool and
-- fixed_count_answer. The enums of the first two are cast from any int, so their values are
-- integers here, and `is_valid` says whether a value is one of the three constants.
pub mod Laws
use libalf.Common.{
  ℕ, ◌+◌, ◌*◌, ◌%◌, Bool, ltb, pos_part, neg_part, true, false, not, ◌||◌, ℤ, pos, eq_ℤ, ltb_ℤ,
  minus_ℤ, if◌then◌else◌,
}
use libalf.Serialize.{Stream, ByteOrder, Read, and_then, value, serialize_int, deserialize_int}

-- class extended_bool; EBOOL_FALSE is 0, EBOOL_UNKNOWN is 1, EBOOL_TRUE is 2
pub record ExtendedBool : Type 0 where
  pub ebool : ℤ

abbrev pub ebool_unknown : ExtendedBool
ebool_unknown = record { ebool = pos 1 }

-- The constructor from a bool, and the assignment of one.
unfoldable pub ebool_of_bool : Bool → ExtendedBool
ebool_of_bool val = record { ebool = if val then pos 2 else pos 0 }

unfoldable pub ebool_valid : ExtendedBool → Bool
ebool_valid a = eq_ℤ a.ebool (pos 0) || (eq_ℤ a.ebool (pos 1) || eq_ℤ a.ebool (pos 2))

unfoldable pub ebool_eq : ExtendedBool → ExtendedBool → Bool
ebool_eq a b = eq_ℤ a.ebool b.ebool

unfoldable pub ebool_ne : ExtendedBool → ExtendedBool → Bool
ebool_ne a b = not (eq_ℤ a.ebool b.ebool)

unfoldable pub ebool_gt : ExtendedBool → ExtendedBool → Bool
ebool_gt a b = ltb_ℤ b.ebool a.ebool

-- The comparisons with a bool.
unfoldable pub ebool_eq_bool : ExtendedBool → Bool → Bool
ebool_eq_bool a true = eq_ℤ a.ebool (pos 2)
ebool_eq_bool a false = eq_ℤ a.ebool (pos 0)

unfoldable pub ebool_gt_bool : ExtendedBool → Bool → Bool
ebool_gt_bool a true = false
ebool_gt_bool a false = ltb_ℤ (pos 0) a.ebool

unfoldable pub ebool_serialize : ByteOrder → ExtendedBool → Stream
ebool_serialize bo a = serialize_int bo a.ebool

unfoldable pub ebool_deserialize : ByteOrder → Stream → Read ExtendedBool
ebool_deserialize bo s = and_then (deserialize_int bo s) (λ i t. value (record { ebool = i }) t)

-- class weak_bool; WBOOL_FALSE is 0, WBOOL_UNKNOWN is 1, WBOOL_TRUE is 2
pub record WeakBool : Type 0 where
  pub wbool : ℤ

unfoldable pub wbool_of_bool : Bool → WeakBool
wbool_of_bool val = record { wbool = if val then pos 2 else pos 0 }

unfoldable pub create_true : WeakBool
create_true = record { wbool = pos 2 }

unfoldable pub create_false : WeakBool
create_false = record { wbool = pos 0 }

unfoldable pub create_unknown : WeakBool
create_unknown = record { wbool = pos 1 }

-- operator==: UNKNOWN is equal to everything.
unfoldable pub wbool_eq : WeakBool → WeakBool → Bool
wbool_eq a b = if eq_ℤ a.wbool (pos 1) || eq_ℤ b.wbool (pos 1) then true else eq_ℤ a.wbool b.wbool

unfoldable pub wbool_ne : WeakBool → WeakBool → Bool
wbool_ne a b = not (wbool_eq a b)

unfoldable pub wbool_gt : WeakBool → WeakBool → Bool
wbool_gt a b = ltb_ℤ b.wbool a.wbool

unfoldable pub wbool_eq_bool : WeakBool → Bool → Bool
wbool_eq_bool a true = eq_ℤ a.wbool (pos 2)
wbool_eq_bool a false = eq_ℤ a.wbool (pos 0)

unfoldable pub wbool_gt_bool : WeakBool → Bool → Bool
wbool_gt_bool a true = false
wbool_gt_bool a false = ltb_ℤ (pos 0) a.wbool

unfoldable pub is_true : WeakBool → Bool
is_true a = eq_ℤ a.wbool (pos 2)

unfoldable pub is_false : WeakBool → Bool
is_false a = eq_ℤ a.wbool (pos 0)

unfoldable pub is_unknown : WeakBool → Bool
is_unknown a = eq_ℤ a.wbool (pos 1)

unfoldable pub wbool_serialize : ByteOrder → WeakBool → Stream
wbool_serialize bo a = serialize_int bo a.wbool

unfoldable pub wbool_deserialize : ByteOrder → Stream → Read WeakBool
wbool_deserialize bo s = and_then (deserialize_int bo s) (λ i t. value (record { wbool = i }) t)

-- class fixed_count_answer, over the size of the alphabet that its template argument states. The
-- characters are their codes; 'a' is 97.
pub record FixedCountAnswer : Type 0 where
  pub letter : ℤ

unfoldable pub fixed_count_set : ℕ → ℤ → FixedCountAnswer
fixed_count_set size c =
    let top = minus_ℤ (pos (97 + size)) (pos 1) in
    let low = if ltb_ℤ top c then top else c in
    record { letter = if ltb_ℤ (pos 97) low then low else pos 97 }

unfoldable pub fixed_count_eq : FixedCountAnswer → FixedCountAnswer → Bool
fixed_count_eq a b = eq_ℤ a.letter b.letter

unfoldable pub fixed_count_serialize : ByteOrder → FixedCountAnswer → Stream
fixed_count_serialize bo a = serialize_int bo a.letter

-- (char)i, for the signed char of eight bits.
unfoldable pub to_char : ℤ → ℤ
to_char i =
    let bits = (neg_part i * 255 + pos_part i) % 256 in
    if ltb bits 128 then pos bits else minus_ℤ (pos bits) (pos 256)

-- The assignment of an int casts it to char, and sets that.
unfoldable pub fixed_count_deserialize : ByteOrder → ℕ → Stream → Read FixedCountAnswer
fixed_count_deserialize bo size s =
    and_then (deserialize_int bo s) (λ i t. value (fixed_count_set size (to_char i)) t)
