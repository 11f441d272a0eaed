-- ===== src/Serialize.antt =====
-- include/serialize.h (libalf/include/libalf/serialize.h is the same file): values as sequences of
-- 32-bit integers in network byte order. A serial_stretch is the list of the integers from
-- `current` to `limit`.
pub mod RoundTrip
pub mod Containers
use libalf.Common.{
  ℕ, zero, suc, ◌+◌, ◌-◌, ◌<◌, ◌^◌, ◌≡◌, List, [], ◌∷◌, ◌++◌, Bool, ℤ, pos, negsuc, pred_ℤ, length,
  not, eq_ℤ,
}

abbrev pub Stream : Type 0
Stream = List ℤ

-- The range of int32_t.
abbrev pub IsInt : ℤ → Type 0
IsInt (pos n) = n < 2 ^ 31
IsInt (negsuc n) = n < 2 ^ 31

-- htonl and ntohl of the C library, as they act on an `int`.
pub record ByteOrder : Type 0 where
  pub htonl : ℤ → ℤ
  pub ntohl : ℤ → ℤ

-- The documented law of the two.
abbrev pub IsInverse : ByteOrder → Type 0
IsInverse bo = (a : ℤ) → IsInt a → bo.ntohl (bo.htonl a) ≡ a

-- The outcome of a deserialize function: a value and what is left of the stream, or `false`.
-- `undefined` is behaviour that C++ does not define; `out_of_fuel` is of the model, see `read_n`.
pub data Read {ℓ} (A : Type ℓ) : Type ℓ where
  value : A → Stream → Read A
  failed undefined out_of_fuel : Read A

abbrev pub and_then {ℓ κ} : {A : Type ℓ} {B : Type κ} → Read A → (A → Stream → Read B) → Read B
and_then (value a s) k = k a s
and_then failed k = failed
and_then undefined k = undefined
and_then out_of_fuel k = out_of_fuel

-- A type with its serialize and deserialize functions.
pub record Codec (A : Type 0) : Type 0 where
  pub put : A → Stream
  pub get : Stream → Read A

-- unsigned int as it reads an int.
unfoldable pub to_u32 : ℤ → ℕ
to_u32 (pos n) = n
to_u32 (negsuc n) = 2 ^ 32 - suc n

module _ {A B : Type 0} (c : Codec A) (d : Codec B) where
  unfoldable pub serialize_pair : A × B → Stream
  serialize_pair (a, b) = c.put a ++ d.put b

  unfoldable pub deserialize_pair : Stream → Read (A × B)
  deserialize_pair s = and_then (c.get s) (λ a t. and_then (d.get t) (λ b u. value (a, b) u))

abbrev pub put_all : {A : Type 0} → Codec A → List A → Stream
put_all c [] = []
put_all c (a ∷ l) = c.put a ++ put_all c l

module _ (bo : ByteOrder) where
  unfoldable pub serialize_int : ℤ → Stream
  serialize_int a = bo.htonl a ∷ []

  unfoldable pub deserialize_int : Stream → Read ℤ
  deserialize_int [] = failed
  deserialize_int (x ∷ s) = value (bo.ntohl x) s

  unfoldable pub deserialize_unsigned : Stream → Read ℕ
  deserialize_unsigned [] = failed
  deserialize_unsigned (x ∷ s) = value (to_u32 (bo.ntohl x)) s

  unfoldable pub deserialize_bool : Stream → Read Bool
  deserialize_bool [] = failed
  deserialize_bool (x ∷ s) = value (not (eq_ℤ (bo.ntohl x) (pos 0))) s

  unfoldable pub int_codec : Codec ℤ
  int_codec = record { put = serialize_int; get = deserialize_int }

  module _ {A : Type 0} (c : Codec A) where
    -- std::list, and std::basic_string in the same way.
    unfoldable pub serialize_list : List A → Stream
    serialize_list l = serialize_int (pos (length l)) ++ put_all c l

    -- `while(size)`: a negative size never meets 0, and the loop goes on until the stream ends. A
    -- round reads an element, so more rounds than the stream has integers are never made.
    unfoldable pub read_n : ℕ → ℤ → Stream → Read (List A)
    read_n fuel (pos zero) s = value [] s
    read_n zero (pos (suc n)) s = out_of_fuel
    read_n zero (negsuc n) s = out_of_fuel
    read_n (suc fuel) (pos (suc n)) s = elim (c.get s) [
      | value a t ↦ and_then (read_n fuel (pos n) t) (λ l u. value (a ∷ l) u)
      | failed ↦ failed
      | undefined ↦ undefined
      | out_of_fuel ↦ out_of_fuel
    ]
    read_n (suc fuel) (negsuc n) s = elim (c.get s) [
      | value a t ↦ and_then (read_n fuel (pred_ℤ (negsuc n)) t) (λ l u. value (a ∷ l) u)
      | failed ↦ failed
      | undefined ↦ undefined
      | out_of_fuel ↦ out_of_fuel
    ]

    unfoldable pub deserialize_list : Stream → Read (List A)
    deserialize_list s = and_then (deserialize_int s) (λ size t. read_n (suc (length t)) size t)
