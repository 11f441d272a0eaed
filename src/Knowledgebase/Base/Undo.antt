-- ===== src/Knowledgebase/Base/Undo.antt =====
-- knowledgebase.h: undo forgets the newest answers.
use libalf.Common.{
  ℕ, ◌+◌, ◌-◌, ◌≤◌, ◌<◌, ◌≡◌, refl, sym, ap, ◌∙◌, true, ◌&&◌, none, some, if◌then◌else◌, leb, [],
  ◌∷◌, Word, IsWord, word_eq_iff, word_eq_refl, contains, arith, List,
}
use libalf.Knowledgebase.Node.{words}
use libalf.Knowledgebase.Node.Words.{contains-words}
use libalf.Knowledgebase.Base.{
  Answer, Base, entry, ignore, u32_mod, undo_loop, undo, sub32, add_knowledge,
  find_or_create_descendant, set_answer, store_answer, inc32,
}
use libalf.Knowledgebase.Base.Entries.{
  answer_of, known, is_answered, entry-ignore, ignored_entry, entry-find_or_create,
  entry-set_answer, set_answer-result,
}
use libalf.Knowledgebase.Base.Clearing.{known-cleaned, exists-IsWord, exists-entry}

module _ {A : Type 0} (o : Answer A) where
  -- The loop of undo over a list of words.
  entry-undo_loop :
      (since : ℕ) (ws : List Word) (kb : Base A) (v : Word)
      → ((u : Word) → contains u ws ≡ true → IsWord u)
      → entry o (undo_loop o since ws kb) v ≡ (
          if contains v ws && leb since (entry o kb v).timestamp
          then ignored_entry (entry o kb v)
          else entry o kb v)
  unfolding undo_loop
  entry-undo_loop since [] kb v h = refl
  entry-undo_loop since (w ∷ ws) kb v h =
      let kb' = if leb since (entry o kb w).timestamp then ignore o w kb else kb in
      ground (
        arith,
        entry-undo_loop since ws kb' v (λ u c. h u (ground arith)),
        entry-ignore o w v kb (h w (ground (arith, word_eq_refl w))),
        word_eq_iff v w,
      )

  -- The difference does not wrap.
  sub32-exact : (t c : ℕ) → c ≤ t → t < u32_mod → sub32 t c ≡ t - c
  unfolding sub32
  sub32-exact t c le lt = omega arith

  sub32-wraps : (t c : ℕ) → t < c → c < u32_mod → sub32 t c ≡ u32_mod + t - c
  unfolding sub32
  sub32-wraps t c far lt = omega arith

  -- For a count that is at most the time stamp, which is a 32-bit number, undo forgets exactly
  -- the answers of words whose time stamp is at least the difference of the two, and keeps the
  -- others.
  pub known-undo :
      (count : ℕ) (kb : Base A) (v : Word)
      → count ≤ kb.timestamp
      → kb.timestamp < u32_mod
      → known o (undo o count kb) v
        ≡ (if leb (kb.timestamp - count) (entry o kb v).timestamp then none else known o kb v)
  unfolding undo
  known-undo count kb v le lt =
      let since = sub32 kb.timestamp count in
      let loop = undo_loop o since (words [] kb.root) kb in
      let step =
        entry-undo_loop since (words [] kb.root) kb v
          (λ u c. exists-IsWord o kb.root u (sym (contains-words u kb.root) ∙ c)) in
      known-cleaned o (record loop { timestamp = if leb since 1 then 1 else since }) v
      ∙ ground (
        arith,
        step,
        sub32-exact kb.timestamp count le lt,
        contains-words v kb.root,
        exists-entry o kb.root v,
      )

  -- Every answer is older than the next time stamp.
  abbrev pub IsTimed : Base A → Type 0
  IsTimed kb =
      (v : Word) → is_answered (entry o kb v) ≡ true → (entry o kb v).timestamp < kb.timestamp

  timestamp-find_or_create :
      (w : Word) (kb : Base A) → (find_or_create_descendant o w kb).timestamp ≡ kb.timestamp
  unfolding find_or_create_descendant
  timestamp-find_or_create w kb = refl

  timestamp-set_answer :
      (w : Word) (a : A) (kb : Base A)
      → known o kb w ≡ none
      → (set_answer o w a kb).1.timestamp ≡ inc32 kb.timestamp
  unfolding set_answer store_answer
  timestamp-set_answer w a kb h = ground arith

  inc32-exact : (t : ℕ) → t + 1 < u32_mod → inc32 t ≡ t + 1
  unfolding inc32
  inc32-exact t h = omega arith

  -- To add knowledge of a word without negative symbols that has no answer, and then to undo one
  -- step, leaves the knowledge as it was, where every answer is older than the time stamp and the
  -- time stamp does not wrap.
  pub undo-add_knowledge :
      (w : Word) (a : A) (kb : Base A)
      → IsWord w
      → IsTimed kb
      → kb.timestamp + 1 < u32_mod
      → known o kb w ≡ none
      → (t : Base A) × (add_knowledge o w a kb ≡ some (true, t))
        × ((v : Word) → known o (undo o 1 t) v ≡ known o kb v)
  unfolding add_knowledge
  undo-add_knowledge w a kb word timed lt unknown =
      let kb' = find_or_create_descendant o w kb in
      let t = (set_answer o w a kb').1 in
      let same = λ (v : Word). entry-find_or_create o w v kb word in
      let later : t.timestamp ≡ kb.timestamp + 1 =
        timestamp-set_answer w a kb' (ap answer_of (same w) ∙ unknown)
        ∙ ap inc32 (timestamp-find_or_create w kb)
        ∙ inc32-exact kb.timestamp lt in
      (
        t,
        rw word (ground (arith, set_answer-result o w a kb', same w)),
        λ v.
            known-undo 1 t v (omega (arith, later)) (omega (arith, later))
            ∙ ground (
              arith,
              later,
              timed v,
              same v,
              same w,
              entry-set_answer o w v a kb' word,
              word_eq_iff v w,
              timestamp-find_or_create w kb,
            ),
      )

  -- Where every answer is older than the time stamp, an undo of more steps than the time stamp, a
  -- 32-bit number of them, forgets nothing: the unsigned difference wraps, and becomes the next
  -- time stamp.
  pub undo-too_far :
      (count : ℕ) (kb : Base A) (v : Word)
      → IsTimed kb
      → kb.timestamp < count
      → count < u32_mod
      → (known o (undo o count kb) v ≡ known o kb v)
        × ((undo o count kb).timestamp ≡ u32_mod + kb.timestamp - count)
  unfolding undo
  undo-too_far count kb v timed far lt =
      let since = sub32 kb.timestamp count in
      let wraps = sub32-wraps kb.timestamp count far lt in
      let ts = if leb since 1 then 1 else since in
      (
        known-cleaned o (record (undo_loop o since (words [] kb.root) kb) { timestamp = ts }) v
            ∙ ground (
              arith,
              entry-undo_loop since (words [] kb.root) kb v
                  (λ u c. exists-IsWord o kb.root u (sym (contains-words u kb.root) ∙ c)),
              wraps,
              timed v,
            ),
        ground (arith, wraps),
      )
