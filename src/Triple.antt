-- ===== src/Triple.antt =====
-- include/triple.h: triples of numbers and their comparisons, and triples as sequences of integers.
use libalf.Common.{ℕ, ◌≡◌, refl, Bool, true, not, ◌&&◌, ◌||◌, ◌==◌, ltb, ◌++◌, append_assoc, arith}
use libalf.Serialize.{Stream, Read, value, and_then, Codec}
use libalf.Serialize.RoundTrip.{IsCodec}

pub record Triple (A B C : Type 0) : Type 0 where
  pub first : A
  pub second : B
  pub third : C

abbrev pub Numbers : Type 0
Numbers = Triple ℕ ℕ ℕ

-- operator==, operator!= and so on.
unfoldable pub triple_eq : Numbers → Numbers → Bool
triple_eq t o = t.first == o.first && t.second == o.second && t.third == o.third

unfoldable pub triple_ne : Numbers → Numbers → Bool
triple_ne t o = not (t.first == o.first) && not (t.second == o.second) && not (t.third == o.third)

unfoldable pub triple_lt : Numbers → Numbers → Bool
triple_lt t o =
    ltb t.first o.first
    || t.first == o.first && (ltb t.second o.second || t.second == o.second && ltb t.third o.third)

unfoldable pub triple_le : Numbers → Numbers → Bool
triple_le t o = triple_eq t o || triple_lt t o

unfoldable pub triple_gt : Numbers → Numbers → Bool
triple_gt t o =
    ltb o.first t.first
    || t.first == o.first && (ltb o.second t.second || t.second == o.second && ltb o.third t.third)

unfoldable pub triple_ge : Numbers → Numbers → Bool
triple_ge t o = triple_eq t o || triple_gt t o

module _ {A B C : Type 0} (c : Codec A) (d : Codec B) (e : Codec C) where
  unfoldable pub serialize_triple : Triple A B C → Stream
  serialize_triple t = (c.put t.first ++ d.put t.second) ++ e.put t.third

  unfoldable pub deserialize_triple : Stream → Read (Triple A B C)
  deserialize_triple s = and_then (c.get s) (λ a s1. and_then (d.get s1) (λ b s2.
      and_then (e.get s2) (λ x s3. value (record { first = a; second = b; third = x }) s3)))

  module _ {P : A → Type 0} {Q : B → Type 0} {R : C → Type 0} where
    -- Where each of three codecs reads back what it writes of a component, deserialize reads a
    -- triple back from what serialize wrote, and leaves what follows.
    deserialize-serialize_triple :
        IsCodec c P
        → IsCodec d Q
        → IsCodec e R
        → (t : Triple A B C) (rest : Stream) → P t.first
        → Q t.second
        → R t.third
        → deserialize_triple (serialize_triple t ++ rest) ≡ value t rest
    unfolding serialize_triple deserialize_triple
    deserialize-serialize_triple hc hd he t rest p q r =
        rw (append_assoc (c.put t.first ++ d.put t.second) (e.put t.third) rest) (
          rw (append_assoc (c.put t.first) (d.put t.second) (e.put t.third ++ rest)) (
            rw (hc.reads t.first (d.put t.second ++ (e.put t.third ++ rest)) p, and_then)
              (rw (hd.reads t.second (e.put t.third ++ rest) q, and_then)
                (rw (he.reads t.third rest r, and_then) refl))))

-- On triples of numbers operator< is total up to operator==, operator> is operator< with the
-- arguments swapped, and operator<= and operator>= are the negations of operator> and operator<.
triple_lt_lem :
    (t o : Numbers)
    → ((triple_lt t o || (triple_lt o t || triple_eq t o)) ≡ true)
      × (triple_gt t o ≡ triple_lt o t)
      × (triple_le t o ≡ not (triple_lt o t))
      × (triple_ge t o ≡ not (triple_lt t o))
unfolding triple_eq triple_lt triple_le triple_gt triple_ge
triple_lt_lem t o = (ground arith, ground arith, ground arith, ground arith)
