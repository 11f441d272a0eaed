-- ===== src/Filter/Laws.antt =====
-- filter.h: what filters answer is right.
use libalf.Common.{
  ◌⊎◌, subst, refl, Bool-cases, ◌≡◌, Bool, true, false, not, some, Word, arith, Option-cases, inl,
  inr, sym,
}
use mathlib.Core.List.{reverse}
use libalf.Knowledgebase.Base.{Base}
use libalf.Knowledgebase.Base.Entries.{known}
use libalf.Filter.Defs.{
  FilterAnswer, Filter, filter_and, filter_or, filter_not, filter_all_equal, filter_reverse,
  filter_identity, SubFilter, null, to, SubFilters, nil, cons, FindChild, evaluate, evaluate_sub,
  and_loop, or_loop, first_loop, equal_loop,
}

-- What a filter says of a word, over a language: a relation, since all_equal says nothing of a word
-- on which its sub-filters do not agree, and neither does a filter that lacks its sub-filters.
mutual
  pub Means : Filter → (Word → Bool) → Word → Bool → Type 0
  Means (filter_and fs) L w true = AllMean fs L w true
  Means (filter_and fs) L w false = SomeMeans fs L w false
  Means (filter_or fs) L w true = SomeMeans fs L w true
  Means (filter_or fs) L w false = AllMean fs L w false
  Means (filter_not f) L w b = SubMeans f L w (not b)
  Means (filter_all_equal fs) L w b = AllMean fs L w b × SomeMeans fs L w b
  Means (filter_reverse f) L w b = SubMeans f L (reverse w) b
  Means filter_identity L w b = b ≡ L w

  SubMeans : SubFilter → (Word → Bool) → Word → Bool → Type 0
  SubMeans null L w b = ⊥
  SubMeans (to f) L w b = Means f L w b

  AllMean : SubFilters → (Word → Bool) → Word → Bool → Type 0
  AllMean nil L w b = Unit
  AllMean (cons f fs) L w b = Means f L w b × AllMean fs L w b

  SomeMeans : SubFilters → (Word → Bool) → Word → Bool → Type 0
  SomeMeans nil L w b = ⊥
  SomeMeans (cons f fs) L w b = Means f L w b ⊎ SomeMeans fs L w b

and_more :
    (f : Filter) (fs : SubFilters) (L : Word → Bool) (w : Word) (b : Bool)
    → Means f L w true
    → Means (filter_and fs) L w b
    → Means (filter_and (cons f fs)) L w b
unfolding Means
and_more f fs L w true h later = (h, later)
and_more f fs L w false h later = inr later

or_more :
    (f : Filter) (fs : SubFilters) (L : Word → Bool) (w : Word) (b : Bool)
    → Means f L w false
    → Means (filter_or fs) L w b
    → Means (filter_or (cons f fs)) L w b
unfolding Means
or_more f fs L w true h later = inr later
or_more f fs L w false h later = (h, later)

-- A filter says one thing of a word at most.
mutual
  unfolding Means

  unique :
      (f : Filter) (L : Word → Bool) (w : Word) (b c : Bool) → Means f L w b → Means f L w c → b ≡ c
  unique (filter_and fs) L w true true p q = refl
  unique (filter_and fs) L w true false p q = all_some fs L w true false p q
  unique (filter_and fs) L w false true p q = sym (all_some fs L w true false q p)
  unique (filter_and fs) L w false false p q = refl
  unique (filter_or fs) L w true true p q = refl
  unique (filter_or fs) L w true false p q = sym (all_some fs L w false true q p)
  unique (filter_or fs) L w false true p q = all_some fs L w false true p q
  unique (filter_or fs) L w false false p q = refl
  unique (filter_not f) L w b c p q = ground (arith, sub_unique f L w (not b) (not c) p q)
  unique (filter_all_equal fs) L w b c p q = all_some fs L w b c p.0 q.1
  unique (filter_reverse f) L w b c p q = sub_unique f L (reverse w) b c p q
  unique filter_identity L w b c p q = cc (p, q)

  sub_unique :
      (f : SubFilter) (L : Word → Bool) (w : Word) (b c : Bool)
      → SubMeans f L w b
      → SubMeans f L w c
      → b ≡ c
  sub_unique null L w b c p q = absurd p
  sub_unique (to f) L w b c p q = unique f L w b c p q

  all_some :
      (fs : SubFilters) (L : Word → Bool) (w : Word) (b c : Bool)
      → AllMean fs L w b
      → SomeMeans fs L w c
      → b ≡ c
  all_some nil L w b c p q = absurd q
  all_some (cons f fs) L w b c p (inl q) = unique f L w b c p.0 q
  all_some (cons f fs) L w b c p (inr q) = all_some fs L w b c p.1 q

-- What the filters ask of the conversions and of operator!=.
pub record IsConverted {A : Type 0} (o : FilterAnswer A) : Type 0 where
  pub back : (b : Bool) → o.to_bool (o.of_bool b) ≡ b
  pub equal : (a b : A) → o.differs a b ≡ false → o.to_bool a ≡ o.to_bool b

module _ {A : Type 0} (o : FilterAnswer A) (laws : IsConverted o) (find_child : FindChild A)
    (base : Base A) (L : Word → Bool) (finds : (w n : Word) → find_child base w ≡ some n → n ≡ w)
    (right : (w : Word) (a : A) → known o.answer base w ≡ some a → o.to_bool a ≡ L w) where
  mutual
    unfolding evaluate Means

    sound :
        (f : Filter) (w : Word) (a : A)
        → evaluate o find_child f base w ≡ some a
        → Means f L w (o.to_bool a)
    sound (filter_and fs) w a e = sound_and fs w a e
    sound (filter_or fs) w a e = (sound_or fs true w a e).0
    sound (filter_not f) w a e = elim (Option-cases (evaluate_sub o find_child f base w)) [
      | inl unknown ↦ absurd (ground arith)
      | inr (b, e') ↦
          let same : a ≡ o.of_bool (not (o.to_bool b)) = ground arith in
          let twice : o.to_bool b ≡ not (o.to_bool a) =
            ground (arith, same, laws.back (not (o.to_bool b))) in
          subst (SubMeans f L w) twice (sound_sub f w b e')
    ]
    sound (filter_all_equal fs) w a e = sound_first fs w a e
    sound (filter_reverse f) w a e = sound_sub f (reverse w) a e
    sound filter_identity w a e = elim (Option-cases (find_child base w)) [
      | inl unknown ↦ absurd (ground arith)
      | inr (n, e') ↦ right w a (ground (arith, finds w n e'))
    ]

    sound_sub :
        (f : SubFilter) (w : Word) (a : A)
        → evaluate_sub o find_child f base w ≡ some a
        → SubMeans f L w (o.to_bool a)
    sound_sub null w a e = absurd (cc e)
    sound_sub (to f) w a e = sound f w a e

    sound_and :
        (fs : SubFilters) (w : Word) (a : A)
        → and_loop o find_child fs base w ≡ some a
        → Means (filter_and fs) L w (o.to_bool a)
    sound_and nil w a e =
        let same : true ≡ o.to_bool a = ground (arith, laws.back true) in
        subst (Means (filter_and nil) L w) same tt
    sound_and (cons f fs) w a e = elim (Option-cases (evaluate o find_child f base w)) [
      | inl unknown ↦ absurd (ground arith)
      | inr (b, e') ↦
          let here = sound f w b e' in
          elim (Bool-cases (o.to_bool b)) [
            | inl holds ↦
                let rest : and_loop o find_child fs base w ≡ some a = ground arith in
                and_more f fs L w (o.to_bool a) (subst (Means f L w) holds here)
                  (sound_and fs w a rest)
            | inr fails ↦
                let same : false ≡ o.to_bool a = ground (arith, laws.back false) in
                subst (Means (filter_and (cons f fs)) L w) same
                  (inl (subst (Means f L w) fails here))
          ]
    ]

    sound_or :
        (fs : SubFilters) (k : Bool) (w : Word) (a : A)
        → or_loop o find_child fs k base w ≡ some a
        → Means (filter_or fs) L w (o.to_bool a) × (o.to_bool a ≡ false → k ≡ true)
    sound_or nil true w a e =
        let same : false ≡ o.to_bool a = ground (arith, laws.back false) in
        (subst (Means (filter_or nil) L w) same tt, λ _. refl)
    sound_or nil false w a e = absurd (cc e)
    sound_or (cons f fs) k w a e = elim (Option-cases (evaluate o find_child f base w)) [
      | inl unknown ↦
          let rest : or_loop o find_child fs false base w ≡ some a = ground arith in
          let (later, known_all) = sound_or fs false w a rest in
          elim (Bool-cases (o.to_bool a)) [
            | inl holds ↦ (
              subst (Means (filter_or (cons f fs)) L w) (sym holds)
                  (inr (subst (Means (filter_or fs) L w) holds later)),
              λ fails. absurd (cc (holds, fails)),
            )
            | inr fails ↦ absurd (cc (known_all fails))
          ]
      | inr (b, e') ↦
          let here = sound f w b e' in
          elim (Bool-cases (o.to_bool b)) [
            | inl holds ↦
                let same : true ≡ o.to_bool a = ground (arith, laws.back true) in
                (
                  subst (Means (filter_or (cons f fs)) L w) same
                      (inl (subst (Means f L w) holds here)),
                  λ fails. absurd (cc (same, fails)),
                )
            | inr fails ↦
                let rest : or_loop o find_child fs k base w ≡ some a = ground arith in
                let (later, known_all) = sound_or fs k w a rest in
                (or_more f fs L w (o.to_bool a) (subst (Means f L w) fails here) later, known_all)
          ]
    ]

    sound_first :
        (fs : SubFilters) (w : Word) (a : A)
        → first_loop o find_child fs base w ≡ some a
        → Means (filter_all_equal fs) L w (o.to_bool a)
    sound_first nil w a e = absurd (cc e)
    sound_first (cons f fs) w a e = elim (Option-cases (evaluate o find_child f base w)) [
      | inl unknown ↦ absurd (ground arith)
      | inr (b, e') ↦
          let rest : equal_loop o find_child b fs base w ≡ some a = ground arith in
          let (same, later) = sound_equal fs w b a rest in
          let here = sound f w b e' in rw same ((here, later), inl here)
    ]

    sound_equal :
        (fs : SubFilters) (w : Word) (b a : A)
        → equal_loop o find_child b fs base w ≡ some a
        → (a ≡ b) × AllMean fs L w (o.to_bool b)
    sound_equal nil w b a e = (ground arith, tt)
    sound_equal (cons f fs) w b a e = elim (Option-cases (evaluate o find_child f base w)) [
      | inl unknown ↦ absurd (ground arith)
      | inr (c, e') ↦ elim (Bool-cases (o.differs c b)) [
        | inl apart ↦ absurd (ground arith)
        | inr near ↦
            let rest : equal_loop o find_child b fs base w ≡ some a = ground arith in
            let (same, later) = sound_equal fs w b a rest in
            (same, (subst (Means f L w) (laws.equal c b near) (sound f w c e'), later))
      ]
    ]

  -- Where the conversion of a bool to an answer and back gives that bool, answers that are not
  -- unequal have the same bool, the find_child that filter_identity calls finds no other node
  -- than that of the word, and what the knowledgebase knows is right about a language: if a
  -- filter answers of a word, then it means that answer of the word over the language, and no
  -- other. The filter and means true where all its sub-filters do, and false where one does; or
  -- means true where one does, and false where all do; not means the opposite of its sub-filter,
  -- reverse what its sub-filter means of the reversed word, all_equal what all of its sub-filters
  -- mean, one at least, and identity what the language says.
  pub evaluate_sound :
      (f : Filter) (w : Word) (a : A)
      → evaluate o find_child f base w ≡ some a
      → Means f L w (o.to_bool a) × ((b : Bool) → Means f L w b → b ≡ o.to_bool a)
  evaluate_sound f w a e =
      let said = sound f w a e in (said, λ b h. unique f L w b (o.to_bool a) h said)
