-- ===== src/Knowledgebase/Base/Counters.antt =====
-- knowledgebase.h: the counters, check_largest_symbol, and where it differs from the invariant.
use libalf.Common.{
  ℕ, ◌≡◌, ◌≤◌, refl, true, false, List, [], ◌∷◌, ℤ, pos, negsuc, ltb_ℤ, pos_part, length, Word,
  contains, word_eq, word_eq_iff, if◌then◌else◌, arith, Bool-cases, inl, inr, ap, sym, ◌∙◌, ◌⊎◌,
  word_eq_refl,
}
use libalf.Knowledgebase.Node.{words, exists_at}
use libalf.Knowledgebase.Node.Words.{contains-words}
use libalf.Knowledgebase.Base.{Base}

-- node::get_label, the last symbol of the word, and -1 at the root.
unfoldable pub get_label : Word → ℤ
get_label [] = negsuc 0
get_label (x ∷ []) = x
get_label (x ∷ y ∷ w) = get_label (y ∷ w)

unfoldable pub label_loop : ℕ → List Word → ℕ
label_loop largest_symbol [] = largest_symbol
label_loop largest_symbol (w ∷ ws) =
    label_loop
      (if ltb_ℤ (pos largest_symbol) (get_label w) then pos_part (get_label w) else largest_symbol)
      ws

label_loop-ge : (m : ℕ) (ws : List Word) → m ≤ label_loop m ws
unfolding label_loop
label_loop-ge m [] = omega arith
label_loop-ge m (w ∷ ws) =
    ground
      (arith, label_loop-ge (if ltb_ℤ (pos m) (get_label w) then pos_part (get_label w) else m) ws)

label_loop_lem :
    (m : ℕ) (u : Word) (ws : List Word)
    → contains u ws ≡ true
    → ltb_ℤ (pos (label_loop m ws)) (get_label u) ≡ false
unfolding label_loop
label_loop_lem m u [] h = cc
label_loop_lem m u (w ∷ ws) h =
    let m' = if ltb_ℤ (pos m) (get_label w) then pos_part (get_label w) else m in
    elim (Bool-cases (word_eq u w)) [
      | inl e ↦
          let same : get_label u ≡ get_label w = ap get_label ((word_eq_iff u w).0 e) in
          ground (arith, same, label_loop-ge m' ws)
      | inr e ↦ label_loop_lem m' u ws (ground arith)
    ]

-- The result is the first value or the label of a node.
pos_part-above : (m : ℕ) (x : ℤ) → ltb_ℤ (pos m) x ≡ true → x ≡ pos (pos_part x)
pos_part-above m (pos n) h = refl
pos_part-above m (negsuc n) h = absurd (ground arith)

label_loop-attained :
    (m : ℕ) (ws : List Word)
    → (label_loop m ws ≡ m)
      ⊎ (u : Word) × (contains u ws ≡ true) × (get_label u ≡ pos (label_loop m ws))
unfolding label_loop
label_loop-attained m [] = inl refl
label_loop-attained m (w ∷ ws) =
    let m' = if ltb_ℤ (pos m) (get_label w) then pos_part (get_label w) else m in
    elim (label_loop-attained m' ws) [
      | inr (u, c, e) ↦ inr (u, ground arith, e)
      | inl e ↦ elim (Bool-cases (ltb_ℤ (pos m) (get_label w))) [
        | inl b ↦
            inr (w, ground (arith, word_eq_refl w), ground (arith, pos_part-above m (get_label w)))
        | inr b ↦ inl (ground arith)
      ]
    ]

module _ {A : Type 0} where
  unfoldable pub count_queries : Base A → ℕ
  count_queries kb = length kb.required

  unfoldable pub reset_resolved_queries : Base A → Base A
  reset_resolved_queries kb = record kb { resolved_queries = 0 }

  unfoldable pub check_largest_symbol : Base A → ℕ × Base A
  check_largest_symbol kb =
      let m = label_loop 0 (words [] kb.root) in (m, record kb { largest_symbol = m })

  -- check_largest_symbol stores what it returns and changes nothing else; no label of a node of
  -- the tree is larger, and the result is 0 or the label of a node of the tree.
  pub check_largest_symbol_lem :
      (kb : Base A)
      → ((check_largest_symbol kb).1 ≡ record kb { largest_symbol = (check_largest_symbol kb).0 })
        × ((u : Word)
            → exists_at kb.root u ≡ true
            → ltb_ℤ (pos (check_largest_symbol kb).0) (get_label u) ≡ false)
        × (((check_largest_symbol kb).0 ≡ 0)
            ⊎ (u : Word) × (exists_at kb.root u ≡ true)
              × (get_label u ≡ pos (check_largest_symbol kb).0))
  unfolding check_largest_symbol
  check_largest_symbol_lem kb = (
    refl,
    λ u h. label_loop_lem 0 u (words [] kb.root) (contains-words u kb.root ∙ h),
    elim (label_loop-attained 0 (words [] kb.root)) [
      | inl e ↦ inl e
      | inr (u, c, e) ↦ inr (u, sym (contains-words u kb.root) ∙ c, e)
    ],
  )
