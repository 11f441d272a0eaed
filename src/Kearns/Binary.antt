-- ===== src/Kearns/Binary.antt =====
-- algorithm_kearns_vazirani.h: add_counterexample_binarysearch_task::perform.
use libalf.Common.{
  ℕ, zero, suc, ◌+◌, ◌-◌, ◌<◌, ◌≤◌, ◌≡◌, ◌⊎◌, refl, sym, ap, subst, ◌∙◌, List, [], ◌∷◌, true, false,
  ◌&&◌, Option, none, some, nth, put_nth, length, ◌==◌, ==_iff, ltb, Word, take, arith, Bool-cases,
  inl, inr,
}
use Prim.Native.Nat.{◌/◌}
use libalf.Knowledgebase.Base.{Base}
use libalf.Filter.{FilterAnswer}
use libalf.Angluin.Filling.{Knows}
use libalf.Kearns.Tree.{Place, at_leaf, at_inner}
use libalf.Kearns.Tasks.{State, split_node, finished, run}
use libalf.Kearns.Perform.{Performed, continue, run_of, judge, perform_binary_search}
use libalf.Kearns.Invariant.{reached, IsHypothesis, nth-length}
use libalf.Kearns.Searching.{IsSplit, bad_prefix}
use libalf.Kearns.Linear.{root-Starts, sift_from_lem, IsWord-take, nth-some}
use libalf.Kearns.Progress.{IsCounterexample}
use libalf.Kearns.Computing.{nth-put_nth, nth-put_other}

-- An entry of a buffer that is not yet set, or what it will be.
abbrev pub IsBuffer : {B : Type 0} → B → (ℕ → B) → List B → (n : ℕ) → Type 0
IsBuffer unset value buffer n =
    (k : ℕ) → k ≤ n → (nth k buffer ≡ some unset) ⊎ (nth k buffer ≡ some (value k))

IsBuffer-put :
    {B : Type 0} (unset : B) (value : ℕ → B) (buffer : List B) (n j : ℕ)
    → IsBuffer unset value buffer n
    → j ≤ n
    → IsBuffer unset value (put_nth j (value j) buffer) n
IsBuffer-put unset value buffer n j h hj k hk = elim (Bool-cases (j == k)) [
  | inl e ↦
      let inside : j < length buffer = elim (h j hj) [
        | inl at ↦ nth-length j buffer unset at
        | inr at ↦ nth-length j buffer (value j) at
      ] in
      inr (
        subst (λ i. nth i (put_nth j (value j) buffer) ≡ some (value i)) ((==_iff j k).0 e)
          (nth-put_nth j (value j) buffer inside))
  | inr e ↦ elim (h k hk) [
    | inl at ↦ inl (nth-put_other j k (value j) buffer e ∙ at)
    | inr at ↦ inr (nth-put_other j k (value j) buffer e ∙ at)
  ]
]

module _ {A : Type 0} (o : FilterAnswer A) (K : Word → Option A) (n : ℕ) (st : State) (w : Word)
    (hyp : IsHypothesis o K n st []) (c : IsCounterexample o K st w) (runs sifts : ℕ → ℕ)
    (run_at : (k : ℕ) → run st (take k w) ≡ some (runs k))
    (sift_at : (k : ℕ) → reached o K st (take k w) ≡ at_leaf (sifts k)) where
  abbrev pub SiftBuffer : List Place → Type 0
  SiftBuffer buffer = IsBuffer (at_inner []) (λ k. at_leaf (sifts k)) buffer (length w)

  abbrev pub RunBuffer : List (Option ℕ) → Type 0
  RunBuffer buffer = IsBuffer none (λ k. some (runs k)) buffer (length w)

  -- The sift of an entry, and the run of an entry.
  continue_lem :
      (k : ℕ) (buffer : List Place) (base : Base A)
      → k ≤ length w
      → SiftBuffer buffer
      → Knows o K base
      → (start : Place) × (base' : Base A) × (nth k buffer ≡ some start)
        × (continue o (take k w) start st base ≡ some (at_leaf (sifts k), base'))
        × Knows o K base'
  unfolding continue
  continue_lem k buffer base hk h knows = elim (h k hk) [
    | inr at ↦ (at_leaf (sifts k), base, at, refl, knows)
    | inl at ↦
        let (base', arrived, knows') =
          sift_from_lem o K st (take k w) [] base (IsWord-take k w c.word)
            (root-Starts o K n st (take k w) [] hyp) knows in
        (at_inner [], base', at, arrived ∙ ap (λ p. some (p, base')) (sift_at k), knows')
  ]

  run_of_lem :
      (k : ℕ) (buffer : List (Option ℕ))
      → k ≤ length w
      → RunBuffer buffer
      → (b : Option ℕ) × (nth k buffer ≡ some b) × (run_of o b st (take k w) ≡ some (runs k))
  run_of_lem k buffer hk h = elim (h k hk) [
    | inl at ↦ (none, at, run_at k)
    | inr at ↦ (some (runs k), at, refl)
  ]

  abbrev pub BinaryResult : Performed o → Type 0
  BinaryResult result =
      (m : ℕ) × (inner_label : Word) × (base' : Base A) × (result
        ≡ some (finished (split_node (runs m) (take m w) inner_label ∷ []), st, base'))
      × Knows o K base'
      × IsSplit o K st (runs m) (take m w) inner_label

  -- One pass, where what follows it gives such a result for smaller boundaries.
  judge_lem :
      (next : ℕ → ℕ → List (Option ℕ) → Performed o) (m left right : ℕ) (buffer : List (Option ℕ))
      (base : Base A)
      → left ≤ suc m
      → suc m ≤ right
      → right ≤ length w
      → suc m ≡ (left + right) / 2
      → 1 ≤ left
      → runs (left - 1) == sifts (left - 1) ≡ true
      → runs right == sifts right ≡ false
      → RunBuffer buffer
      → Knows o K base
      → ((l r : ℕ) (buffer' : List (Option ℕ))
          → 1 ≤ l
          → l ≤ r
          → r ≤ length w
          → r - l < right - left
          → runs (l - 1) == sifts (l - 1) ≡ true
          → runs r == sifts r ≡ false
          → RunBuffer buffer'
          → BinaryResult (next l r buffer'))
      → BinaryResult (judge o next w m left right (sifts (suc m)) (sifts m) buffer st base)
  unfolding judge
  judge_lem next m left right buffer base hl hr hw half one good bad runs_ok knows rest =
      let (b, at_b, is_b) = run_of_lem (suc m) buffer (omega (arith, hr, hw)) runs_ok in
      let (b1, at_b1, is_b1) = run_of_lem m buffer (omega (arith, hr, hw)) runs_ok in
      let buffer' = put_nth m (some (runs m)) (put_nth (suc m) (some (runs (suc m))) buffer) in
      let runs_ok' : RunBuffer buffer' =
        IsBuffer-put none (λ k. some (runs k)) (put_nth (suc m) (some (runs (suc m))) buffer)
          (length w) m
          (IsBuffer-put none (λ k. some (runs k)) buffer (length w) (suc m) runs_ok
            (omega (arith, hr, hw)))
          (omega (arith, hr, hw)) in
      elim (Bool-cases (runs (suc m) == sifts (suc m))) [
        | inl here ↦
            let inside : suc m < right = elim (Bool-cases (suc m == right)) [
              | inl e ↦
                  let good_right : runs right == sifts right ≡ true =
                    subst (λ k. runs k == sifts k ≡ true) ((==_iff (suc m) right).0 e) here in
                  absurd (ground arith)
              | inr e ↦ ground arith
            ] in
            let lt : ltb left right ≡ true = ground arith in
            let shut : ((runs m == sifts m) && false) ≡ false = ground arith in
            let (k, inner_label, base', done, knows', s) =
              rest (suc (suc m)) right buffer' (omega arith) (omega (arith, inside)) hw
                (omega (arith, inside, hl))
                (subst (λ k. runs k == sifts k ≡ true) (omega arith) here) bad runs_ok' in
            (k, inner_label, base', rw (at_b, is_b, at_b1, is_b1, here, shut, lt) done, knows', s)
        | inr here ↦ elim (Bool-cases (runs m == sifts m)) [
          | inl before ↦
              let (x, at) = nth-some m w (omega (arith, hr, hw)) in
              let same : runs m ≡ sifts m = (==_iff (runs m) (sifts m)).0 before in
              let (inner_label, splits, s) =
                bad_prefix o K n st w m (runs m) (runs (suc m)) (sifts (suc m)) x hyp c.word at
                  (run_at m) (sift_at m ∙ ap (λ i. at_leaf i) (sym same)) (run_at (suc m))
                  (sift_at (suc m)) here in
              (
                m,
                inner_label,
                base,
                rw (at_b, is_b, at_b1, is_b1, here, before, splits) refl,
                knows,
                s,
              )
          | inr before ↦
              let inside : left < suc m = elim (Bool-cases (left == suc m)) [
                | inl e ↦
                    let is_m : left - 1 ≡ m = omega (arith, (==_iff left (suc m)).0 e) in
                    let good_m : runs m == sifts m ≡ true =
                      subst (λ k. runs k == sifts k ≡ true) is_m good in
                    absurd (ground arith)
                | inr e ↦ ground arith
              ] in
              let lt : ltb left right ≡ true = ground arith in
              let (k, inner_label, base', done, knows', s) =
                rest left m buffer' one (omega (arith, inside)) (omega (arith, hr, hw))
                  (omega (arith, inside, hr)) good before runs_ok' in
              (
                k,
                inner_label,
                base',
                rw (at_b, is_b, at_b1, is_b1, here, before, lt) done,
                knows',
                s,
              )
        ]
      ]

  pub binary_lem :
      (fuel position left right : ℕ) (sift_buffer : List Place) (run_buffer : List (Option ℕ))
      (base : Base A)
      → right - left < fuel
      → position ≡ (left + right) / 2
      → 1 ≤ left
      → left ≤ right
      → right ≤ length w
      → runs (left - 1) == sifts (left - 1) ≡ true
      → runs right == sifts right ≡ false
      → SiftBuffer sift_buffer
      → RunBuffer run_buffer
      → Knows o K base
      → BinaryResult
          (perform_binary_search o fuel w position left right sift_buffer run_buffer st base)
  unfolding perform_binary_search
  binary_lem fuel zero left right sift_buffer run_buffer base hf half one hl hw good bad sifts_ok
        runs_ok knows =
      absurd (omega (arith, half, one, hl))
  binary_lem zero (suc m) left right sift_buffer run_buffer base hf half one hl hw good bad sifts_ok
        runs_ok knows =
      absurd (omega (arith, hf))
  binary_lem (suc fuel) (suc m) left right sift_buffer run_buffer base hf half one hl hw good bad
        sifts_ok runs_ok knows =
      let low : left ≤ suc m = omega (arith, half, hl) in
      let high : suc m ≤ right = omega (arith, half, hl) in
      let (start, base1, at1, went1, knows1) =
        continue_lem (suc m) sift_buffer base (omega (arith, high, hw)) sifts_ok knows in
      let (start_m1, base2, at2, went2, knows2) =
        continue_lem m sift_buffer base1 (omega (arith, high, hw)) sifts_ok knows1 in
      let buffer = put_nth (suc m) (at_leaf (sifts (suc m))) sift_buffer in
      let sifts_ok' : SiftBuffer (put_nth m (at_leaf (sifts m)) buffer) =
        IsBuffer-put (at_inner []) (λ k. at_leaf (sifts k)) buffer (length w) m
          (IsBuffer-put (at_inner []) (λ k. at_leaf (sifts k)) sift_buffer (length w) (suc m)
            sifts_ok (omega (arith, high, hw)))
          (omega (arith, high, hw)) in
      let (k, inner_label, base', done, knows', s) =
        judge_lem
          (λ l r b.
            perform_binary_search o fuel w ((l + r) / 2) l r (put_nth m (at_leaf (sifts m)) buffer)
              b st base2)
          m left right run_buffer base2 low high hw half one good bad runs_ok knows2
          (λ l r b hl1 hlr hrw smaller good' bad' ok.
            binary_lem fuel ((l + r) / 2) l r (put_nth m (at_leaf (sifts m)) buffer) b base2
              (omega (arith, smaller, hf)) refl hl1 hlr hrw good' bad' sifts_ok' ok knows2) in
      (k, inner_label, base', rw (at1, went1, at2, went2, perform_binary_search) done, knows', s)
