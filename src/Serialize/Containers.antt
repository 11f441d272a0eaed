-- ===== src/Serialize/Containers.antt =====
-- serialize.h: std::vector, and std::set of numbers.
use libalf.Common.{
  All, ℕ, suc, ◌<◌, ◌^◌, ◌≡◌, refl, ap, sym, append-nil, ◌∙◌, List, [], ◌∷◌, ◌++◌, append_assoc, ℤ,
  pos, negsuc, length, arith,
}
use libalf.Serialize.{
  Stream, ByteOrder, IsInverse, Read, value, undefined, and_then, Codec, put_all, serialize_int,
  deserialize_int, read_n, serialize_list, deserialize_list,
}
use libalf.Serialize.RoundTrip.{IsCodec, deserialize-serialize_list}
use libalf.Sets.{insert, IsAbove, IsSorted}

module _ (bo : ByteOrder) where
  module _ {A : Type 0} (c : Codec A) where
    unfoldable pub serialize_vector : List A → Stream
    serialize_vector v = serialize_int bo (pos (length v)) ++ put_all c v

    -- The loop counts up to the size. A negative size, which resize takes for a huge one, throws
    -- an exception, here `undefined`.
    unfoldable pub vector_of : ℤ → Stream → Read (List A)
    vector_of (pos n) s = read_n bo c (suc (length s)) (pos n) s
    vector_of (negsuc n) s = undefined

    unfoldable pub deserialize_vector : Stream → Read (List A)
    deserialize_vector s = and_then (deserialize_int bo s) vector_of

  -- The elements of a set are written in ascending order, and inserted as they are read.
  unfoldable pub serialize_set : Codec ℕ → List ℕ → Stream
  serialize_set c s = serialize_int bo (pos (length s)) ++ put_all c s

  unfoldable pub insert_all : List ℕ → List ℕ → List ℕ
  insert_all s [] = s
  insert_all s (x ∷ l) = insert_all (insert x s) l

  unfoldable pub deserialize_set : Codec ℕ → Stream → Read (List ℕ)
  deserialize_set c s = and_then (deserialize_list bo c s) (λ l t. value (insert_all [] l) t)

  module _ {A : Type 0} (c : Codec A) {P : A → Type 0} (h : IsCodec c P) where
    -- Where ntohl inverts htonl and the codec of the elements reads back what it writes of each
    -- element of a vector shorter than 2^31, deserialize reads the vector back from what
    -- serialize wrote, and leaves what follows.
    deserialize-serialize_vector :
        IsInverse bo
        → (v : List A) (rest : Stream) → All P v
        → length v < 2 ^ 31
        → deserialize_vector c (serialize_vector c v ++ rest) ≡ value v rest
    unfolding serialize_vector deserialize_vector vector_of deserialize_list deserialize_int
        serialize_int serialize_list
    deserialize-serialize_vector inverse v rest p small =
        let s = put_all c v ++ rest in
        ap (λ size. vector_of c size s) (inverse (pos (length v)) small)
        ∙ ap (λ size. read_n bo c (suc (length s)) size s) (sym (inverse (pos (length v)) small))
        ∙ deserialize-serialize_list bo c h inverse v rest p small

  IsAbove-append : (y x : ℕ) (r s : List ℕ) → IsAbove y (r ++ x ∷ s) → y < x
  IsAbove-append y x [] s a = a.0
  IsAbove-append y x (z ∷ r) s a = IsAbove-append y x r s a.1

  insert-last : (x : ℕ) (r s : List ℕ) → IsSorted (r ++ x ∷ s) → insert x r ≡ r ++ x ∷ []
  unfolding insert
  insert-last x [] s h = refl
  insert-last x (y ∷ r) s h = ground (arith, IsAbove-append y x r s h.0, insert-last x r s h.1)

  insert_all-IsSorted : (r s : List ℕ) → IsSorted (r ++ s) → insert_all r s ≡ r ++ s
  unfolding insert_all
  insert_all-IsSorted r [] h = sym (append-nil r)
  insert_all-IsSorted r (x ∷ s) h =
      ap (λ l. insert_all l s) (insert-last x r s h)
      ∙ insert_all-IsSorted (r ++ x ∷ []) s (rw (append_assoc r (x ∷ []) s) h)
      ∙ append_assoc r (x ∷ []) s

  module _ (c : Codec ℕ) {P : ℕ → Type 0} (h : IsCodec c P) where
    -- Where ntohl inverts htonl and the codec of the elements reads back what it writes of each
    -- element of a set, in ascending order, of fewer than 2^31 numbers, deserialize reads the set
    -- back from what serialize wrote, and leaves what follows.
    deserialize-serialize_set :
        IsInverse bo
        → (s : List ℕ) (rest : Stream) → All P s
        → length s < 2 ^ 31
        → IsSorted s
        → deserialize_set c (serialize_set c s ++ rest) ≡ value s rest
    unfolding serialize_set deserialize_set serialize_list
    deserialize-serialize_set inverse s rest p small sorted =
        ap (λ r. and_then r (λ l t. value (insert_all [] l) t))
          (deserialize-serialize_list bo c h inverse s rest p small)
        ∙ ap (λ l. value l rest) (insert_all-IsSorted [] s sorted)
