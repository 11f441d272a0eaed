-- ===== src/Serialize/RoundTrip.antt =====
-- serialize.h: what is written is read back, and reading a list ends.
use libalf.Common.{
  All, ℕ, zero, suc, ◌≤◌, ◌<◌, ◌^◌, ◌≡◌, ◌≢◌, refl, List, [], ◌∷◌, ◌++◌, append_assoc, ℤ, pos,
  negsuc, length, length-append, arith, ◌⊎◌, inl, inr,
}
use libalf.Serialize.{
  Stream, IsInt, ByteOrder, IsInverse, Read, value, failed, undefined, out_of_fuel, and_then, Codec,
  serialize_int, deserialize_int, int_codec, serialize_pair, deserialize_pair, put_all,
  serialize_list, read_n, deserialize_list,
}

-- The values that a codec is right about.
pub record IsCodec {A : Type 0} (c : Codec A) (P : A → Type 0) : Type 0 where
  pub reads : (a : A) (rest : Stream) → P a → c.get (c.put a ++ rest) ≡ value a rest
  pub writes : (a : A) → 0 < length (c.put a)
  pub consumes : (s t : Stream) (a : A) → c.get s ≡ value a t → length t < length s
  pub ends : (s : Stream) → c.get s ≢ out_of_fuel

Read-cases :
    {A : Type 0} (r : Read A)
    → ((a : A) × (t : Stream) × (r ≡ value a t))
      ⊎ ((r ≡ failed) ⊎ ((r ≡ undefined) ⊎ (r ≡ out_of_fuel)))
Read-cases (value a t) = inl (a, t, refl)
Read-cases failed = inr (inl refl)
Read-cases undefined = inr (inr (inl refl))
Read-cases out_of_fuel = inr (inr (inr refl))

cons-ends :
    {A : Type 0} (a : A) (r : Read (List A))
    → r ≢ out_of_fuel
    → and_then r (λ l u. value (a ∷ l) u) ≢ out_of_fuel
cons-ends a (value l t) h = λ e. cc
cons-ends a failed h = λ e. cc
cons-ends a undefined h = λ e. cc
cons-ends a out_of_fuel h = λ e. h refl

module _ {A B : Type 0} (c : Codec A) (d : Codec B) {P : A → Type 0} {Q : B → Type 0} where
  -- Where each of two codecs reads back what it writes of a component, deserialize reads a pair
  -- back from what serialize wrote, and leaves what follows.
  pub deserialize-serialize_pair :
      IsCodec c P
      → IsCodec d Q
      → (a : A) (b : B) (rest : Stream) → P a
      → Q b
      → deserialize_pair c d (serialize_pair c d (a, b) ++ rest) ≡ value (a, b) rest
  unfolding serialize_pair deserialize_pair
  deserialize-serialize_pair hc hd a b rest p q =
      rw (append_assoc (c.put a) (d.put b) rest)
        (rw (hc.reads a (d.put b ++ rest) p) (rw (hd.reads b rest q)))

module _ (bo : ByteOrder) where
  int-consumes : (s t : Stream) (a : ℤ) → deserialize_int bo s ≡ value a t → length t < length s
  unfolding deserialize_int
  int-consumes [] t a e = cc
  int-consumes (x ∷ s) t a e = ground arith

  int-ends : (s : Stream) → deserialize_int bo s ≢ out_of_fuel
  unfolding deserialize_int
  int-ends [] e = cc
  int-ends (x ∷ s) e = cc

  pub IsInt-IsCodec : IsInverse bo → IsCodec (int_codec bo) IsInt
  unfolding int_codec serialize_int deserialize_int
  IsInt-IsCodec inverse = record {
    reads = λ a rest h. rw (inverse a h);
    writes = λ a. omega arith;
    consumes = int-consumes;
    ends = int-ends;
  }

  module _ {A : Type 0} (c : Codec A) {P : A → Type 0} (h : IsCodec c P) where
    read-put_all :
        (fuel : ℕ) (l : List A) (rest : Stream)
        → length l ≤ fuel
        → All P l
        → read_n bo c fuel (pos (length l)) (put_all c l ++ rest) ≡ value l rest
    unfolding read_n
    read-put_all zero [] rest le p = refl
    read-put_all (suc fuel) [] rest le p = refl
    read-put_all zero (a ∷ l) rest le p = absurd (omega arith)
    read-put_all (suc fuel) (a ∷ l) rest le p =
        rw (append_assoc (c.put a) (put_all c l) rest) (
          rw (h.reads a (put_all c l ++ rest) p.0)
            (rw (read-put_all fuel l rest (omega arith) p.1)))

    pub put_all-length : (l : List A) → length l ≤ length (put_all c l)
    put_all-length [] = omega arith
    put_all-length (a ∷ l) =
        omega (arith, put_all-length l, h.writes a, length-append (c.put a) (put_all c l))

    -- Where ntohl inverts htonl and the codec of the elements reads back what it writes of each
    -- element of a list shorter than 2^31, deserialize reads the list back from what serialize
    -- wrote, and leaves what follows.
    pub deserialize-serialize_list :
        IsInverse bo
        → (l : List A) (rest : Stream) → All P l
        → length l < 2 ^ 31
        → deserialize_list bo c (serialize_list bo c l ++ rest) ≡ value l rest
    unfolding serialize_list deserialize_list serialize_int deserialize_int
    deserialize-serialize_list inverse l rest p small = rw (inverse (pos (length l)) small) (
        read-put_all (suc (length (put_all c l ++ rest))) l rest
          (omega (arith, put_all-length l, length-append (put_all c l) rest)) p)

    read_n-ends :
        (fuel : ℕ) (size : ℤ) (s : Stream) → length s < fuel → read_n bo c fuel size s ≢ out_of_fuel
    unfolding read_n
    read_n-ends zero (pos zero) s lt = λ e. cc
    read_n-ends (suc fuel) (pos zero) s lt = λ e. cc
    read_n-ends zero (pos (suc n)) s lt = absurd (omega arith)
    read_n-ends zero (negsuc n) s lt = absurd (omega arith)
    read_n-ends (suc fuel) (pos (suc n)) s lt = elim (Read-cases (c.get s)) [
      | inl (a, t, e) ↦
          rw (e, read_n)
            (cons-ends a (read_n bo c fuel (pos n) t)
              (read_n-ends fuel (pos n) t (omega (arith, h.consumes s t a e))))
      | inr (inl e) ↦ rw (e, read_n) (λ q. cc)
      | inr (inr (inl e)) ↦ rw (e, read_n) (λ q. cc)
      | inr (inr (inr e)) ↦ absurd (h.ends s e)
    ]
    read_n-ends (suc fuel) (negsuc n) s lt = elim (Read-cases (c.get s)) [
      | inl (a, t, e) ↦
          rw (e, read_n)
            (cons-ends a (read_n bo c fuel (negsuc (suc n)) t)
              (read_n-ends fuel (negsuc (suc n)) t (omega (arith, h.consumes s t a e))))
      | inr (inl e) ↦ rw (e, read_n) (λ q. cc)
      | inr (inr (inl e)) ↦ rw (e, read_n) (λ q. cc)
      | inr (inr (inr e)) ↦ absurd (h.ends s e)
    ]

    -- Where the codec of the elements consumes what it reads and ends itself, the loop that reads
    -- a list ends for every stream and every size that it states, a negative one too.
    pub deserialize_list-ends : (s : Stream) → deserialize_list bo c s ≢ out_of_fuel
    unfolding deserialize_list deserialize_int
    deserialize_list-ends [] = λ e. cc
    deserialize_list-ends (x ∷ s) = read_n-ends (suc (length s)) (bo.ntohl x) s (omega arith)
