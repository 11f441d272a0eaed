-- ===== src/Knowledgebase/Base/Invariant.antt =====
-- knowledgebase.h: the invariant that ties the list of required nodes and the counters to the tree.
use libalf.Common.{
  ℕ, suc, ◌+◌, ◌≤◌, ◌≡◌, refl, sym, ap, ◌∙◌, Bool, true, false, ◌&&◌, if◌then◌else◌, ltb, leb, [],
  ◌∷◌, pos, negsuc, Word, is_word, IsWord, word_eq, is_prefix, List, contains, Distinct, arith,
}
use libalf.Knowledgebase.Node.{
  Entry, Node, node, entry_at, exists_at, tally, largest, blank_entry, child_or_new,
}
use libalf.Knowledgebase.Node.Lookup.{entry_at-new_node, entry_at-child, entry_at-negsuc}
use libalf.Knowledgebase.Node.Count.{
  tally-update, exists_at-update, created-exists, exists_at-prefix, exists_at-new_node,
}
use libalf.Knowledgebase.Base.{Answer, Base, entry, write, find_or_create_descendant, clear}
use libalf.Knowledgebase.Base.Entries.{is_required, is_answered, entry-write, entry-find_or_create}

abbrev pub answer_weight : {A : Type 0} → Entry A → ℕ
answer_weight e = if is_answered e then 1 else 0

-- Every symbol of a word is below a bound.
abbrev pub all_below : ℕ → Word → Bool
all_below m [] = true
all_below m (pos x ∷ w) = ltb x m && all_below m w
all_below m (negsuc x ∷ w) = false

all_below_mono : (m m' : ℕ) (w : Word) → all_below m w ≡ true → m ≤ m' → all_below m' w ≡ true
all_below_mono m m' [] h k = refl
all_below_mono m m' (pos x ∷ w) h k = ground (arith, all_below_mono m m' w)
all_below_mono m m' (negsuc x ∷ w) h k = cc

largest-ge : (m : ℕ) (w : Word) → m ≤ largest m w
unfolding largest
largest-ge m [] = omega arith
largest-ge m (pos x ∷ w) = ground (arith, largest-ge (if leb m x then suc x else m) w)
largest-ge m (negsuc x ∷ w) = omega arith

-- The bound covers the word that was walked, and so its prefixes.
all_below-largest :
    (m : ℕ) (v w : Word) → IsWord w → is_prefix v w ≡ true → all_below (largest m w) v ≡ true
unfolding largest
all_below-largest m [] w h p = refl
all_below-largest m (pos y ∷ v) (pos x ∷ w) h p =
    let m' = if leb m x then suc x else m in
    ground (arith, all_below-largest m' v w, largest-ge m' w)
all_below-largest m (negsuc y ∷ v) (pos x ∷ w) h p = cc
all_below-largest m (y ∷ v) (negsuc x ∷ w) h p = cc
all_below-largest m (y ∷ v) [] h p = cc

all_below-new : (v : Word) → word_eq v [] ≡ true → all_below 0 v ≡ true
all_below-new [] h = refl
all_below-new (x ∷ v) h = cc

module _ {A : Type 0} (o : Answer A) where
  pub record IsValid (kb : Base A) : Type 0 where
    -- exactly the nodes with status NODE_REQUIRED are on the list
    pub tracked : (v : Word) → contains v kb.required ≡ is_required (entry o kb v)
    -- and none of them twice
    pub once : Distinct kb.required
    -- answercount is the number of nodes with status NODE_ANSWERED
    pub answers : kb.answercount ≡ tally answer_weight kb.root
    -- nodecount is no less than the number of nodes
    pub nodes : tally (λ _. 1) kb.root ≤ kb.nodecount
    -- largest_symbol is above all symbols
    pub symbols : (v : Word) → exists_at kb.root v ≡ true → all_below kb.largest_symbol v ≡ true

  -- A word with a negative symbol has no node.
  pub entry-not_word :
      (n : Node A) (v : Word) → is_word v ≡ false → entry_at o.blank n v ≡ blank_entry o.blank
  entry-not_word n [] h = cc
  entry-not_word (node l e cs) (pos x ∷ v) h =
      entry_at-child o.blank l e cs x v ∙ entry-not_word (child_or_new o.blank x cs) v h
  entry-not_word n (negsuc x ∷ v) h = entry_at-negsuc o.blank n x v

  pub clear-IsValid : IsValid (clear o)
  unfolding clear
  clear-IsValid = record {
    tracked = λ v. sym (ap is_required (entry_at-new_node o.blank (negsuc 0) v));
    once = tt;
    answers = unfold tally in refl;
    nodes = unfold tally in omega arith;
    symbols = λ v h. all_below-new v (rw exists_at-new_node at h);
  }

  module _ (w : Word) (kb : Base A) (word : IsWord w) (v : IsValid kb) where
    pub find_or_create-IsValid : IsValid (find_or_create_descendant o w kb)
    unfolding find_or_create_descendant
    find_or_create-IsValid = record {
      tracked = λ u. v.tracked u ∙ ap is_required (sym (entry-find_or_create o w u kb word));
      once = v.once;
      answers =
          omega
            (arith, v.answers, tally-update answer_weight o.blank 0 refl (λ e. e) kb.root w word);
      nodes = omega (arith, v.nodes, tally-update (λ _. 1) o.blank 1 refl (λ e. e) kb.root w word);
      symbols = λ u h. ground (
        arith,
        exists_at-update o.blank (λ (e : Entry A). e) kb.root w u word,
        v.symbols u,
        all_below_mono kb.largest_symbol (largest kb.largest_symbol w) u,
        largest-ge kb.largest_symbol w,
        all_below-largest kb.largest_symbol u w word,
      );
    }

    -- The rule for the methods of a node that exists: an entry is overwritten, and the list and the
    -- counter of answers follow.
    pub write-IsValid :
        (f : Entry A → Entry A) (ws : List Word) (n t : ℕ)
        → exists_at kb.root w ≡ true
        → ((u : Word)
            → contains u ws
              ≡ (if word_eq u w then is_required (f (entry o kb w)) else contains u kb.required))
        → Distinct ws
        → n + answer_weight (entry o kb w) ≡ kb.answercount + answer_weight (f (entry o kb w))
        → IsValid (record (write o f w kb) { required = ws; answercount = n; timestamp = t })
    write-IsValid f ws n t x listed distinct counted = record {
      once = distinct;
      tracked = λ u. ground (arith, listed u, v.tracked u, entry-write o f w u kb word);
      answers =
          omega
            (arith, counted, v.answers, tally-update answer_weight o.blank 0 refl f kb.root w word);
      nodes = omega (
        arith,
        v.nodes,
        tally-update (λ _. 1) o.blank 1 refl f kb.root w word,
        created-exists o.blank kb.root w x,
      );
      symbols = λ u h. ground (
        arith,
        exists_at-update o.blank f kb.root w u word,
        v.symbols u,
        exists_at-prefix o.blank kb.root u w x,
      );
    }
