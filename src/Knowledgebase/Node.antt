-- ===== src/Knowledgebase/Node.antt =====
-- The nodes of a knowledgebase (class knowledgebase<answer>::node of
-- libalf/include/libalf/knowledgebase.h). A node stands for the word on the path from the root, so
-- a pointer to a node is that word; the parent pointer is the path less its last symbol.
pub mod Lookup
pub mod Count
pub mod Cleanup
pub mod Words
pub mod Search
use libalf.Common.{
  ℕ, zero, suc, ◌+◌, List, ◌++◌, Bool, true, false, leb, if◌then◌else◌, ◌&&◌, Option, none, some,
  [], ◌∷◌, ℤ, pos, negsuc, Word,
}

pub data Status : Type 0 where
  node_ignore node_required node_answered : Status

-- The fields of a node apart from its place in the tree.
pub record Entry (A : Type 0) : Type 0 where
  pub timestamp : ℕ
  pub status : Status
  pub ans : A

abbrev pub is_ignored : {A : Type 0} → Entry A → Bool
is_ignored e = elim e.status [ node_ignore ↦ true | _ ↦ false ]

-- `Slots` is the vector of child pointers, in which `null` is a NULL pointer.
mutual
  pub data Node (A : Type 0) : Type 0 where
    node : ℤ → Entry A → Slots A → Node A

  pub data Slots (A : Type 0) : Type 0 where
    nil : Slots A
    null : Slots A → Slots A
    child : Node A → Slots A → Slots A

module _ {A : Type 0} where
  abbrev pub label_of : Node A → ℤ
  label_of (node l e cs) = l

  abbrev pub entry_of : Node A → Entry A
  entry_of (node l e cs) = e

  abbrev pub children_of : Node A → Slots A
  children_of (node l e cs) = cs

  -- The vector's size.
  pub max_child_count : Slots A → ℕ
  max_child_count nil = 0
  max_child_count (null cs) = suc (max_child_count cs)
  max_child_count (child _ cs) = suc (max_child_count cs)

  -- children[label], and NULL where the index is out of range.
  unfoldable pub slot : ℕ → Slots A → Option (Node A)
  slot l nil = none
  slot zero (null cs) = none
  slot zero (child c cs) = some c
  slot (suc l) (null cs) = slot l cs
  slot (suc l) (child _ cs) = slot l cs

  -- children[label] = c, where the vector was first grown by NULL pointers up to that index.
  unfoldable pub put_slot : ℕ → Node A → Slots A → Slots A
  put_slot zero c nil = child c nil
  put_slot (suc l) c nil = null (put_slot l c nil)
  put_slot zero c (null cs) = child c cs
  put_slot zero c (child _ cs) = child c cs
  put_slot (suc l) c (null cs) = null (put_slot l c cs)
  put_slot (suc l) c (child d cs) = child d (put_slot l c cs)

  unfoldable pub find_child : Node A → ℤ → Option (Node A)
  find_child n (pos l) = slot l (children_of n)
  find_child n (negsuc _) = none

  unfoldable pub find_descendant : Node A → Word → Option (Node A)
  unfolding find_child
  find_descendant n [] = some n
  find_descendant n (x ∷ w) = elim (find_child n x) [ none ↦ none | some c ↦ find_descendant c w ]

  -- One new node where the slot is empty.
  abbrev pub news : ℕ → Slots A → ℕ
  news l cs = elim (slot l cs) [ none ↦ 1 | some _ ↦ 0 ]

module _ {A : Type 0} (blank : A) where
  -- The constructor of a node leaves the answer as its type's default constructor makes it.
  abbrev pub blank_entry : Entry A
  blank_entry = record { timestamp = 0; status = node_ignore; ans = blank }

  abbrev pub new_node : ℤ → Node A
  new_node l = node l blank_entry nil

  unfoldable pub child_or_new : ℕ → Slots A → Node A
  child_or_new l cs = elim (slot l cs) [ none ↦ new_node (pos l) | some c ↦ c ]

  -- The tree after the entry at a word was overwritten by `f`; the nodes that are missing on the
  -- path are created, up to a negative symbol, at which find_or_create_child answers NULL.
  unfoldable pub update : (Entry A → Entry A) → Node A → Word → Node A
  update f (node l e cs) [] = node l (f e) cs
  update f (node l e cs) (pos x ∷ w) = node l e (put_slot x (update f (child_or_new x cs) w) cs)
  update f (node l e cs) (negsuc _ ∷ w) = node l e cs

  -- The calls of `new node` on the path.
  unfoldable pub created : Node A → Word → ℕ
  created n [] = 0
  created (node l e cs) (pos x ∷ w) = news x cs + created (child_or_new x cs) w
  created (node l e cs) (negsuc _ ∷ w) = 0

  -- What the tree says of a word; a missing node is as good as a new one.
  unfoldable pub entry_at : Node A → Word → Entry A
  unfolding find_descendant
  entry_at n w = elim (find_descendant n w) [ none ↦ blank_entry | some m ↦ entry_of m ]

-- The largest symbol plus one after the path was walked, from the one that was known before.
unfoldable pub largest : ℕ → Word → ℕ
largest m [] = m
largest m (pos x ∷ w) = largest (if leb m x then suc x else m) w
largest m (negsuc _ ∷ w) = m

module _ {A : Type 0} where
  unfoldable pub exists_at : Node A → Word → Bool
  unfolding find_descendant
  exists_at n w = elim (find_descendant n w) [ none ↦ false | some _ ↦ true ]

  -- The words of the nodes in the order in which the iterator visits them, parents first.
  unfoldable mutual
    pub words : Word → Node A → List Word
    words p (node l e cs) = p ∷ words_below p 0 cs

    pub words_below : Word → ℕ → Slots A → List Word
    words_below p i nil = []
    words_below p i (null cs) = words_below p (suc i) cs
    words_below p i (child c cs) = words (p ++ pos i ∷ []) c ++ words_below p (suc i) cs

  -- The weight of a tree: the sum of a weight of its entries.
  unfoldable mutual
    pub tally : (Entry A → ℕ) → Node A → ℕ
    tally g (node l e cs) = g e + tally_below g cs

    pub tally_below : (Entry A → ℕ) → Slots A → ℕ
    tally_below g nil = 0
    tally_below g (null cs) = tally_below g cs
    tally_below g (child c cs) = tally g c + tally_below g cs

  -- Node::cleanup: drop what is below nodes that hold nothing; true where the node itself may go.
  unfoldable mutual
    pub cleanup : Node A → Bool × Node A
    cleanup (node l e cs) = (is_ignored e && (cleanup_below cs).0, node l e (cleanup_below cs).1)

    pub cleanup_below : Slots A → Bool × Slots A
    cleanup_below nil = (true, nil)
    cleanup_below (null cs) = ((cleanup_below cs).0, null (cleanup_below cs).1)
    cleanup_below (child c cs) =
        if (cleanup c).0
        then ((cleanup_below cs).0, null (cleanup_below cs).1)
        else (false, child (cleanup c).1 (cleanup_below cs).1)
