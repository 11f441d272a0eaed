-- ===== src/Answer/Laws.antt =====
-- answer.h: the comparisons of the answer types and their round trips.
use libalf.Common.{
  ℕ, ◌+◌, ◌≤◌, ◌<◌, ◌≡◌, refl, Bool, true, false, not, ◌||◌, ◌&&◌, ℤ, pos, negsuc, ltb_ℤ, pos_part,
  arith, ◌↔◌, ◌⊎◌, ◌++◌,
}
use libalf.Serialize.{Stream, ByteOrder, IsInverse, IsInt, value, serialize_int, deserialize_int}
use libalf.Answer.{
  ExtendedBool, ebool_of_bool, ebool_valid, ebool_eq, ebool_ne, ebool_gt, ebool_eq_bool,
  ebool_gt_bool, ebool_serialize, ebool_deserialize, ebool_unknown, WeakBool, create_true,
  create_false, create_unknown, wbool_eq, wbool_ne, is_true, is_false, is_unknown, fixed_count_set,
  fixed_count_serialize, fixed_count_deserialize, to_char,
}

small-IsInt : (x : ℤ) → ltb_ℤ x (pos 3) && not (ltb_ℤ x (pos 0)) ≡ true → IsInt x
small-IsInt (pos n) h = ground arith
small-IsInt (negsuc n) h = ground arith

to_char-ascii : (n : ℕ) → n < 128 → to_char (pos n) ≡ pos n
unfolding to_char
to_char-ascii n h = ground arith

-- On extended bools made from bools operator==, operator!= and operator> agree with the
-- comparisons with a bool; the unknown value is equal to no bool, above false and not above true,
-- and false is not above it.
pub ebool_of_bool_lem :
    (a b : Bool)
    → (ebool_eq (ebool_of_bool a) (ebool_of_bool b) ≡ ebool_eq_bool (ebool_of_bool a) b)
      × (ebool_ne (ebool_of_bool a) (ebool_of_bool b) ≡ not (ebool_eq_bool (ebool_of_bool a) b))
      × (ebool_gt (ebool_of_bool a) (ebool_of_bool b) ≡ ebool_gt_bool (ebool_of_bool a) b)
      × (ebool_eq_bool ebool_unknown b ≡ false)
      × (ebool_gt ebool_unknown (ebool_of_bool b) ≡ not b)
      × (ebool_gt (ebool_of_bool b) ebool_unknown ≡ b)
unfolding ebool_of_bool ebool_eq ebool_ne ebool_gt ebool_eq_bool ebool_gt_bool
ebool_of_bool_lem true true = (refl, refl, refl, refl, refl, refl)
ebool_of_bool_lem true false = (refl, refl, refl, refl, refl, refl)
ebool_of_bool_lem false true = (refl, refl, refl, refl, refl, refl)
ebool_of_bool_lem false false = (refl, refl, refl, refl, refl, refl)

-- A valid extended_bool is exactly one of true, false and unknown.
pub ebool_valid_lem :
    (a : ExtendedBool)
    → (ebool_valid a ≡ true) ↔ (
        (ebool_eq_bool a true ≡ true)
        ⊎ (ebool_eq_bool a false ≡ true)
        ⊎ (ebool_eq a ebool_unknown ≡ true))
unfolding ebool_valid ebool_eq_bool ebool_eq
ebool_valid_lem a = ground arith

-- For two weak bools with values of the enum, operator== holds unless one is true and the other
-- false, and operator!= is its negation with the arguments swapped.
pub wbool_eq_lem :
    (a b : WeakBool)
    → (is_true a || (is_false a || is_unknown a)) ≡ true
    → (is_true b || (is_false b || is_unknown b)) ≡ true
    → (wbool_eq a b ≡ not (is_true a && is_false b || is_false a && is_true b))
      × (wbool_ne a b ≡ not (wbool_eq b a))
unfolding wbool_eq wbool_ne is_true is_false is_unknown
wbool_eq_lem a b h k = ground arith

-- operator== of weak_bool is no equivalence relation: it is not transitive.
pub wbool_eq-not_transitive :
    ¬ ((a b c : WeakBool) → wbool_eq a b ≡ true → wbool_eq b c ≡ true → wbool_eq a c ≡ true)
unfolding wbool_eq create_true create_false create_unknown
wbool_eq-not_transitive all = cc (all create_true create_unknown create_false refl refl)

-- For an alphabet of at least one letter, set of fixed_count_answer leaves one of the letters
-- that begin at 'a', whatever character it is given.
fixed_count_set_bounds :
    (size : ℕ) (c : ℤ)
    → 0 < size
    → (n : ℕ) × ((fixed_count_set size c).letter ≡ pos n) × (97 ≤ n) × (n < 97 + size)
unfolding fixed_count_set
fixed_count_set_bounds size c h =
    (pos_part (fixed_count_set size c).letter, ground arith, ground arith, ground arith)

pub fixed_count_set-in_range :
    (size n : ℕ) → 97 ≤ n → n < 97 + size → (fixed_count_set size (pos n)).letter ≡ pos n
unfolding fixed_count_set
fixed_count_set-in_range size n h k = ground arith

-- Where ntohl inverts htonl, a fixed_count_answer whose letter is in the alphabet and below 128
-- is read back from what was written, and what follows is left.
fixed_count_deserialize-serialize :
    (bo : ByteOrder) (size n : ℕ) (rest : Stream)
    → IsInverse bo
    → 97 ≤ n
    → n < 97 + size
    → n < 128
    → fixed_count_deserialize bo size (fixed_count_serialize bo (record { letter = pos n }) ++ rest)
      ≡ value (record { letter = pos n }) rest
unfolding fixed_count_deserialize fixed_count_serialize serialize_int deserialize_int
fixed_count_deserialize-serialize bo size n rest inverse low high char =
    let same : (fixed_count_set size (to_char (bo.ntohl (bo.htonl (pos n))))).letter ≡ pos n =
      rw (inverse (pos n) (omega arith))
        (rw (to_char-ascii n char) (fixed_count_set-in_range size n low high)) in
    λ i. value (record { letter = same i }) rest

-- Where ntohl inverts htonl, a valid extended_bool is read back from what was written, and what
-- follows is left.
pub ebool_deserialize-serialize :
    (bo : ByteOrder) (a : ExtendedBool) (rest : Stream)
    → IsInverse bo
    → ebool_valid a ≡ true
    → ebool_deserialize bo (ebool_serialize bo a ++ rest) ≡ value a rest
unfolding ebool_deserialize ebool_serialize serialize_int deserialize_int ebool_valid
ebool_deserialize-serialize bo a rest inverse v =
    λ i. value (record { ebool = inverse a.ebool (small-IsInt a.ebool (ground arith)) i }) rest
