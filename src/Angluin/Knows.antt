-- ===== src/Angluin/Knows.antt =====
-- algorithm_angluin.h, fill_missing_columns: the rows that belong to a map from words to answers.
use libalf.Common.{
  ◌≡◌, refl, ap, List, [], ◌∷◌, ◌++◌, Bool, true, false, ◌&&◌, ◌||◌, Option, none, some, ltb,
  length, pos, negsuc, Word, IsWord, word_eq, arith,
}
use libalf.Angluin.Table.{is_bottom, Row}
use libalf.Angluin.Fill.{drop}

pub IsWord-concat : (v w : Word) → IsWord v → IsWord w → IsWord (v ++ w)
IsWord-concat [] w h k = k
IsWord-concat (pos x ∷ v) w h k = IsWord-concat v w h k
IsWord-concat (negsuc x ∷ v) w h k = cc

pub IsWord-is_bottom : (w : Word) → IsWord w → is_bottom w ≡ false
unfolding is_bottom
IsWord-is_bottom [] h = refl
IsWord-is_bottom (pos x ∷ w) h = refl
IsWord-is_bottom (negsuc x ∷ w) h = cc

module _ {A : Type 0} (K : Word → Option A) where
  -- The answers of the columns before the first that is unknown, and whether none is.
  unfoldable pub known_prefix : Word → List Word → List A
  known_prefix index [] = []
  known_prefix index (c ∷ columns) = elim (K (index ++ c)) [
    | none ↦ []
    | some a ↦ a ∷ known_prefix index columns
  ]

  unfoldable pub all_known : Word → List Word → Bool
  all_known index [] = true
  all_known index (c ∷ columns) = elim (K (index ++ c)) [
    | none ↦ false
    | some _ ↦ all_known index columns
  ]

  abbrev pub is_unknown : Word → Bool
  is_unknown w = elim (K w) [ none ↦ true | some _ ↦ false ]

  unfoldable pub asks : Word → List Word → Word → Bool
  asks index [] v = false
  asks index (c ∷ columns) v =
      word_eq v (index ++ c) && is_unknown (index ++ c) || asks index columns v

  -- What a row holds are the answers of the first columns.
  abbrev pub Agrees : Word → List Word → List A → Type 0
  Agrees index columns [] = Unit
  Agrees index [] (a ∷ acceptance) = ⊥
  Agrees index (c ∷ columns) (a ∷ acceptance) =
      (K (index ++ c) ≡ some a) × Agrees index columns acceptance

  abbrev pub IsRow : List Word → Row A → Type 0
  IsRow columns r = IsWord r.index × Agrees r.index columns r.acceptance

  unfoldable pub filled_row : List Word → Row A → Row A
  filled_row columns r = record r { acceptance = known_prefix r.index columns }

  unfoldable pub rows_known : List Word → List (Row A) → Bool
  rows_known columns [] = true
  rows_known columns (r ∷ rows) = all_known r.index columns && rows_known columns rows

  unfoldable pub rows_ask : List Word → List (Row A) → Word → Bool
  rows_ask columns [] v = false
  rows_ask columns (r ∷ rows) v = asks r.index columns v || rows_ask columns rows v

  -- The part of a row that is there.
  pub known_prefix-drop :
      (index : Word) (columns : List Word) (acceptance : List A)
      → Agrees index columns acceptance
      → (acceptance ++ known_prefix index (drop (length acceptance) columns)
          ≡ known_prefix index columns)
        × (all_known index (drop (length acceptance) columns) ≡ all_known index columns)
        × ((v : Word) → asks index (drop (length acceptance) columns) v ≡ asks index columns v)
  unfolding known_prefix all_known asks
  known_prefix-drop index columns [] h = (refl, refl, λ v. refl)
  known_prefix-drop index [] (a ∷ acceptance) h = absurd h
  known_prefix-drop index (c ∷ columns) (a ∷ acceptance) h =
      let (prefix, all, ask) = known_prefix-drop index columns acceptance h.1 in
      (
        rw (h.0, known_prefix) (ap (λ l. a ∷ l) prefix),
        rw (h.0, all_known) all,
        λ v. ground (arith, ask v, h.0),
      )

  pub whole_row :
      (index : Word) (columns : List Word) (acceptance : List A)
      → Agrees index columns acceptance
      → ltb (length acceptance) (length columns) ≡ false
      → (acceptance ≡ known_prefix index columns)
        × (all_known index columns ≡ true)
        × ((v : Word) → asks index columns v ≡ false)
  unfolding known_prefix all_known asks
  whole_row index [] [] h full = (refl, refl, λ v. refl)
  whole_row index (c ∷ columns) [] h full = absurd (ground arith)
  whole_row index [] (a ∷ acceptance) h full = absurd h
  whole_row index (c ∷ columns) (a ∷ acceptance) h full =
      let (prefix, all, ask) = whole_row index columns acceptance h.1 (ground arith) in
      (
        rw (h.0, known_prefix) (ap (λ l. a ∷ l) prefix),
        rw (h.0, all_known) all,
        λ v. ground (arith, ask v, h.0),
      )
