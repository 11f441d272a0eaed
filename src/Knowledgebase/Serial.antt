-- ===== src/Knowledgebase/Serial.antt =====
-- knowledgebase.h, serialize and serialize_subtree: the tree as a sequence of integers.
use libalf.Common.{
  ℕ, ◌≡◌, ◌+◌, refl, length-append, arith, suc, ◌-◌, ◌^◌, ◌++◌, [], ◌∷◌, ltb, ℤ, pos, negsuc,
  length, if◌then◌else◌,
}
use libalf.Serialize.{Stream, ByteOrder, Codec, serialize_int}
use libalf.Knowledgebase.Node.{
  Status, node_ignore, node_required, node_answered, Entry, Node, node, Slots, nil, null, child,
  tally, tally_below,
}
use libalf.Knowledgebase.Base.{Base}

-- An `unsigned int` as the `int` that serialize takes.
abbrev pub to_int : ℕ → ℤ
to_int t = if ltb t (2 ^ 31) then pos t else negsuc (2 ^ 32 - suc t)

abbrev pub status_code : Status → ℤ
status_code node_ignore = pos 0
status_code node_required = pos 1
status_code node_answered = pos 2

module _ {A : Type 0} (bo : ByteOrder) (c : Codec A) where
  abbrev pub serialize_answer : Entry A → Stream
  serialize_answer e = elim e.status [ node_answered ↦ c.put e.ans | _ ↦ [] ]

  abbrev pub child_count : Slots A → ℕ
  child_count nil = 0
  child_count (null cs) = child_count cs
  child_count (child _ cs) = suc (child_count cs)

  unfoldable mutual
    pub serialize_subtree : Node A → Stream
    serialize_subtree (node label e cs) =
        serialize_int bo label
        ++ serialize_int bo (to_int e.timestamp)
        ++ serialize_int bo (status_code e.status)
        ++ serialize_answer e
        ++ serialize_int bo (pos (child_count cs))
        ++ serialize_children cs

    pub serialize_children : Slots A → Stream
    serialize_children nil = []
    serialize_children (null cs) = serialize_children cs
    serialize_children (child n cs) = serialize_subtree n ++ serialize_children cs

  -- The first integer, which is filled in last, is the number of those that follow.
  unfoldable pub serialize_base : Base A → Stream
  serialize_base kb =
      let body = serialize_int bo (pos kb.resolved_queries) ++ serialize_subtree kb.root in
      bo.htonl (pos (length body)) ∷ body

  -- The number of integers: four for each node, and those of the answers.
  mutual
    unfolding serialize_subtree serialize_int tally

    pub length-serialize_subtree :
        (n : Node A) → length (serialize_subtree n) ≡ tally (λ e. 4 + length (serialize_answer e)) n
    length-serialize_subtree (node label e cs) = omega (
      arith,
      length-append (serialize_answer e ++ serialize_int bo (pos (child_count cs)))
          (serialize_children cs),
      length-append (serialize_answer e) (serialize_int bo (pos (child_count cs))),
      length-serialize_children cs,
    )

    length-serialize_children :
        (cs : Slots A)
        → length (serialize_children cs) ≡ tally_below (λ e. 4 + length (serialize_answer e)) cs
    length-serialize_children nil = refl
    length-serialize_children (null cs) = length-serialize_children cs
    length-serialize_children (child n cs) = omega (
      arith,
      length-append (serialize_subtree n) (serialize_children cs),
      length-serialize_subtree n,
      length-serialize_children cs,
    )
