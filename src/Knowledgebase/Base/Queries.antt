-- ===== src/Knowledgebase/Base/Queries.antt =====
-- knowledgebase.h: the methods that clients call with words: what they answer, what they leave
-- alone, and that they keep the invariant.
use libalf.Common.{
  ◌+◌, ◌≡◌, refl, ap, ◌∙◌, Bool, true, ◌&&◌, ◌||◌, not, none, some, if◌then◌else◌, [], ◌∷◌, Word,
  IsWord, word_eq, word_eq_iff, word_eq_refl, Option, is_prefix, contains, contains-append, arith,
  Bool-cases, inl, inr, pos, negsuc,
}
use libalf.Knowledgebase.Node.{Entry, exists_at}
use libalf.Knowledgebase.Node.Count.{exists_at-update}
use libalf.Knowledgebase.Base.{
  Answer, Base, entry, find_or_create_descendant, mark_required, set_answer, add_knowledge, ask,
  resolve_at, resolve_or_add_query, ignore, resolve_query, add_or_alter_knowledge, Filter, consult,
}
use libalf.Knowledgebase.Base.Entries.{
  answer_of, known, is_answered, entry-find_or_create, entry-mark_required, entry-ignore,
  entry-set_answer, ignored_entry,
}
use libalf.Knowledgebase.Base.Invariant.{IsValid, find_or_create-IsValid}
use libalf.Knowledgebase.Base.Preserve.{mark_required-IsValid, set_answer-IsValid, ignore-IsValid}

is_prefix_refl : (w : Word) → is_prefix w w ≡ true
is_prefix_refl [] = refl
is_prefix_refl (pos x ∷ w) = ground (arith, is_prefix_refl w)
is_prefix_refl (negsuc x ∷ w) = ground (arith, is_prefix_refl w)

pub required-find_or_create :
    {A : Type 0} (o : Answer A) (w : Word) (kb : Base A)
    → (find_or_create_descendant o w kb).required ≡ kb.required
unfolding find_or_create_descendant
required-find_or_create o w kb = refl

module _ {A : Type 0} (o : Answer A) (w : Word) (kb : Base A) (word : IsWord w) where
  pub exists-find_or_create : exists_at (find_or_create_descendant o w kb).root w ≡ true
  unfolding find_or_create_descendant
  exists-find_or_create =
      ground
        (arith, exists_at-update o.blank (λ (e : Entry A). e) kb.root w w word, is_prefix_refl w)

  -- For a word without negative symbols, add_knowledge returns, and keeps the invariant: exactly
  -- the required nodes are on the list, once each, answercount is the number of answered nodes,
  -- nodecount is at least the number of nodes, and largest_symbol bounds the symbols.
  pub add_knowledge-IsValid :
      (a : A)
      → IsValid o kb
      → (t : Base A) × (r : Bool) × (add_knowledge o w a kb ≡ some (r, t)) × IsValid o t
  unfolding add_knowledge
  add_knowledge-IsValid a v =
      let kb' = find_or_create_descendant o w kb in
      (
        (set_answer o w a kb').1,
        (set_answer o w a kb').0,
        rw word refl,
        set_answer-IsValid o w kb' word (find_or_create-IsValid o w kb word v) exists-find_or_create
            a,
      )

  -- The list of queries after a node was marked: the node is added unless it is answered.
  pub contains-mark_required :
      IsValid o kb
      → (v : Word)
      → contains v (mark_required o w kb).1.required
        ≡ (contains v kb.required || word_eq v w && not (is_answered (entry o kb w)))
  unfolding mark_required
  contains-mark_required i v =
      ground
        (arith, i.tracked v, i.tracked w, contains-append v kb.required (w ∷ []), word_eq_iff v w)

  pub known-mark_required : (v : Word) → known o (mark_required o w kb).1 v ≡ known o kb v
  known-mark_required v = ground (arith, entry-mark_required o w v kb word, word_eq_iff v w)

  -- At a node that is answered the state changes in resolved_queries alone, and at any other it is
  -- marked where no filter is set.
  abbrev hit : Base A
  hit = record kb { resolved_queries = kb.resolved_queries + 1 }

  resolve_at-none :
      resolve_at o none w kb
      ≡ (known o kb w, if is_answered (entry o kb w) then hit else (mark_required o w kb).1)
  unfolding resolve_at ask
  resolve_at-none = ground arith

module _ {A : Type 0} (o : Answer A) (w : Word) (kb : Base A) (word : IsWord w) where
  hit-IsValid : IsValid o kb → IsValid o (hit o w kb word)
  hit-IsValid i = record {
    tracked = i.tracked;
    once = i.once;
    answers = i.answers;
    nodes = i.nodes;
    symbols = i.symbols;
  }

  resolved :
      IsValid o kb
      → exists_at kb.root w ≡ true
      → let t = (resolve_at o none w kb).1 in
        ((v : Word) → known o t v ≡ known o kb v)
        × ((v : Word)
            → contains v t.required
              ≡ (contains v kb.required || word_eq v w && not (is_answered (entry o kb w))))
        × IsValid o t
  resolved i x = elim (Bool-cases (is_answered (entry o kb w))) [
    | inl e ↦ rw (resolve_at-none o w kb word, e) (λ v. refl, λ v. ground arith, hit-IsValid i)
    | inr e ↦
        rw (resolve_at-none o w kb word, e)
          (
            known-mark_required o w kb word,
            λ v. contains-mark_required o w kb word i v ∙ rw e,
            mark_required-IsValid o w kb word i x,
          )
  ]

module _ {A : Type 0} (o : Answer A) (w : Word) (kb : Base A) (word : IsWord w) where
  -- Without a filter, for a word without negative symbols and a valid knowledgebase,
  -- resolve_or_add_query answers what is known of the word and leaves all knowledge and the
  -- invariant as they were; the words asked are those asked before and the word itself unless it
  -- is answered.
  pub resolve_or_add_query_lem :
      IsValid o kb
      → (t : Base A) × (resolve_or_add_query o none w kb ≡ some (known o kb w, t))
        × ((v : Word) → known o t v ≡ known o kb v)
        × ((v : Word)
            → contains v t.required
              ≡ (contains v kb.required || word_eq v w && not (is_answered (entry o kb w))))
        × IsValid o t
  unfolding resolve_or_add_query
  resolve_or_add_query_lem i =
      let kb' = find_or_create_descendant o w kb in
      let same = λ (v : Word). entry-find_or_create o w v kb word in
      let (knows, lists, valid) =
        resolved o w kb' word (find_or_create-IsValid o w kb word i)
          (exists-find_or_create o w kb word) in
      (
        (resolve_at o none w kb').1,
        ground (arith, resolve_at-none o w kb' word, same w),
        λ v. knows v ∙ ap answer_of (same v),
        λ v. lists v ∙ ground (arith, same w, required-find_or_create o w kb),
        valid,
      )

exists-ignore :
    {A : Type 0} (o : Answer A) (w : Word) (kb : Base A)
    → IsWord w
    → exists_at kb.root w ≡ true
    → exists_at (ignore o w kb).root w ≡ true
unfolding ignore
exists-ignore o w kb h x = ground (arith, exists_at-update o.blank ignored_entry kb.root w w h)

module _ {A : Type 0} (o : Answer A) (w : Word) (kb : Base A) where
  -- resolve_query answers what is known of the word, else what the filter says, if there is one;
  -- it changes the counter of resolved queries alone, by one where the knowledgebase itself had
  -- the answer.
  pub resolve_query_lem :
      (my_filter : Option (Filter o))
      → ((resolve_query o my_filter w kb).0
          ≡ elim (known o kb w) [ some a ↦ some a | none ↦ consult o my_filter kb w ])
        × ((resolve_query o my_filter w kb).1 ≡ record kb {
          resolved_queries = kb.resolved_queries + (if is_answered (entry o kb w) then 1 else 0);
        })
  unfolding resolve_query
  resolve_query_lem my_filter = (ground arith, ground arith)

  -- For a word without negative symbols and a valid knowledgebase, add_or_alter_knowledge returns
  -- a valid knowledgebase in which the word has the new answer, whatever was known of it, and
  -- every other word what it had.
  pub add_or_alter_knowledge_lem :
      (a : A)
      → IsWord w
      → IsValid o kb
      → (t : Base A) × (add_or_alter_knowledge o w a kb ≡ some t)
        × IsValid o t
        × ((v : Word) → known o t v ≡ (if word_eq v w then some a else known o kb v))
  unfolding add_or_alter_knowledge
  add_or_alter_knowledge_lem a h i =
      let made = find_or_create_descendant o w kb in
      let forgotten = ignore o w made in
      let x = exists-find_or_create o w kb h in
      let i' = ignore-IsValid o w made h (find_or_create-IsValid o w kb h i) x in
      (
        (set_answer o w a forgotten).1,
        rw h refl,
        set_answer-IsValid o w forgotten h i' (exists-ignore o w made h x) a,
        λ v. ground (
          arith,
          entry-set_answer o w v a forgotten h,
          entry-ignore o w v made h,
          entry-ignore o w w made h,
          entry-find_or_create o w v kb h,
          word_eq_iff v w,
          word_eq_refl w,
        ),
      )
