-- ===== src/Knowledgebase/Base/Acceptances.antt =====
-- knowledgebase.h, deserialize_query_acceptances: a stream with one answer for each query.
use libalf.Common.{
  All, ℕ, zero, suc, ◌≤◌, ◌<◌, ◌^◌, ◌≡◌, refl, ap, sym, ◌∙◌, Bool, true, false, Option, none, some,
  if◌then◌else◌, List, [], ◌∷◌, ◌++◌, append_assoc, ℤ, pos, eq_ℤ, pred_ℤ, length, length-append,
  Word, arith, Option-cases, inl, inr,
}
use libalf.Serialize.{
  Stream, Read, value, failed, undefined, out_of_fuel, and_then, Codec, ByteOrder, IsInverse,
  deserialize_int, serialize_int, serialize_list, put_all,
}
use libalf.Serialize.RoundTrip.{IsCodec, put_all-length}
use libalf.Knowledgebase.Base.{Answer, Base, set_answer, clear, answer_queries}
use libalf.Knowledgebase.Base.Invariant.{IsValid}
use libalf.Knowledgebase.Base.Entries.{known}
use libalf.Knowledgebase.Base.Answering.{answer_for, answer_queries_lem, answer_queries-cons}

module _ {A : Type 0} (o : Answer A) (bo : ByteOrder) (c : Codec A) where
  -- After the loop: `value` is the way to `return true`, `failed` is `goto failed`.
  unfoldable pub settle : ℤ → Stream → Base A → Read (Base A)
  settle size s kb =
      if eq_ℤ size (pos 0) then elim kb.required [ [] ↦ value kb s | _ ∷ _ ↦ failed ] else failed

  -- The loop reads an answer in each round, so more rounds than the stream has integers are never
  -- made.
  unfoldable pub accept_loop : ℕ → ℤ → Stream → Base A → Read (Base A)
  accept_loop zero size s kb = elim kb.required [
    | [] ↦ settle size s kb
    | w ∷ _ ↦ if eq_ℤ size (pos 0) then failed else out_of_fuel
  ]
  accept_loop (suc fuel) size s kb = elim kb.required [
    | [] ↦ settle size s kb
    | w ∷ _ ↦ elim (eq_ℤ size (pos 0)) [
      | true ↦ failed
      | false ↦ elim (c.get s) [
        | value a t ↦ accept_loop fuel (pred_ℤ size) t (set_answer o w a kb).1
        | failed ↦ failed
        | undefined ↦ undefined
        | out_of_fuel ↦ out_of_fuel
      ]
    ]
  ]

  -- The result and the state: the label `failed` clears the knowledgebase. `none` is behaviour
  -- that C++ does not define, of the answer's deserialize.
  abbrev pub conclude : Read (Base A) → Option (Bool × Base A)
  conclude (value t s) = some (true, t)
  conclude failed = some (false, clear o)
  conclude undefined = none
  conclude out_of_fuel = none

  unfoldable pub deserialize_query_acceptances : Stream → Base A → Option (Bool × Base A)
  deserialize_query_acceptances s kb =
      conclude (and_then (deserialize_int bo s) (λ size t. accept_loop (suc (length t)) size t kb))

  module _ {P : A → Type 0} (h : IsCodec c P) where
    abbrev outcome : Option (Base A) → Stream → Read (Base A)
    outcome none rest = failed
    outcome (some t) rest = value t rest

    accept_loop-cons :
        (fuel n : ℕ) (s t : Stream) (w : Word) (a : A) (ws : List Word) (kb : Base A)
        → kb.required ≡ w ∷ ws
        → c.get s ≡ value a t
        → accept_loop (suc fuel) (pos (suc n)) s kb
          ≡ accept_loop fuel (pos n) t (set_answer o w a kb).1
    unfolding accept_loop
    accept_loop-cons fuel n s t w a ws kb e g = ground arith

    accept_loop-answers :
        (fuel : ℕ) (as' : List A) (ws : List Word) (kb : Base A) (rest : Stream)
        → kb.required ≡ ws
        → length as' ≤ fuel
        → All P as'
        → accept_loop fuel (pos (length as')) (put_all c as' ++ rest) kb
          ≡ outcome (answer_queries o as' kb) rest
    unfolding accept_loop answer_queries settle
    accept_loop-answers zero [] [] kb rest e le p = ground arith
    accept_loop-answers zero [] (w ∷ ws) kb rest e le p = ground arith
    accept_loop-answers (suc fuel) [] [] kb rest e le p = ground arith
    accept_loop-answers (suc fuel) [] (w ∷ ws) kb rest e le p = ground arith
    accept_loop-answers zero (a ∷ as') ws kb rest e le p = absurd (omega arith)
    accept_loop-answers (suc fuel) (a ∷ as') [] kb rest e le p = ground arith
    accept_loop-answers (suc fuel) (a ∷ as') (w ∷ ws) kb rest e le p =
        let kb' = (set_answer o w a kb).1 in
        accept_loop-cons fuel (length as') (put_all c (a ∷ as') ++ rest) (put_all c as' ++ rest) w a
          ws kb e
          (ap c.get (append_assoc (c.put a) (put_all c as') rest)
            ∙ h.reads a (put_all c as' ++ rest) p.0)
        ∙ accept_loop-answers fuel as' kb'.required kb' rest refl (omega arith) p.1
        ∙ ap (λ r. outcome r rest) (sym (answer_queries-cons o w a ws as' kb e))

    verdict : Option (Base A) → Bool × Base A
    verdict none = (false, clear o)
    verdict (some t) = (true, t)

    -- What serialize writes of a list of answers is read, and the queries are answered from it.
    reads_answers :
        IsInverse bo
        → (as' : List A) (kb : Base A) (rest : Stream) → All P as'
        → length as' < 2 ^ 31
        → deserialize_query_acceptances (serialize_list bo c as' ++ rest) kb
          ≡ some (verdict (answer_queries o as' kb))
    unfolding deserialize_query_acceptances serialize_list deserialize_int serialize_int verdict
    reads_answers inverse as' kb rest p small =
        let s = put_all c as' ++ rest in
        ap (λ size. conclude (accept_loop (suc (length s)) size s kb))
          (inverse (pos (length as')) small)
        ∙ ap conclude (
            accept_loop-answers (suc (length s)) as' kb.required kb rest refl
              (omega (arith, put_all-length bo c h as', length-append (put_all c as') rest)) p)
        ∙ elim (Option-cases (answer_queries o as' kb)) [
          | inl e ↦ rw e refl
          | inr (t, e) ↦ rw e refl
        ]

    -- Where ntohl inverts htonl and the codec of the answers reads back what it writes of each
    -- answer, in a valid knowledgebase, from a serialized list of as many answers as there are
    -- queries, fewer than 2^31, deserialize_query_acceptances returns true with no query left and
    -- the invariant kept; each query has the answer at its place in the list, and every other
    -- word what it had.
    pub deserialize_query_acceptances_lem :
        IsInverse bo
        → (ws : List Word) (as' : List A) (kb : Base A) (rest : Stream) → IsValid o kb
        → kb.required ≡ ws
        → length as' ≡ length ws
        → All P as'
        → length as' < 2 ^ 31
        → (t : Base A) × (deserialize_query_acceptances (serialize_list bo c as' ++ rest) kb
            ≡ some (true, t))
          × (t.required ≡ [])
          × IsValid o t
          × ((v : Word)
              → known o t v ≡ elim (answer_for v ws as') [ some a ↦ some a | none ↦ known o kb v ])
    unfolding verdict
    deserialize_query_acceptances_lem inverse ws as' kb rest i e n p small =
        let (t, answered, none_left, valid, knows) = answer_queries_lem o ws as' kb i e n in
        (t, reads_answers inverse as' kb rest p small ∙ rw answered refl, none_left, valid, knows)
