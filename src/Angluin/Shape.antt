-- ===== src/Angluin/Shape.antt =====
-- algorithm_angluin.h: the words of rows, and the loop of add_word_to_upper_table over the alphabet
-- where there is no normalizer.
use libalf.Common.{
  ℕ, zero, suc, ◌+◌, ◌≤◌, ◌<◌, ◌≡◌, refl, ap, ◌∙◌, List, [], ◌∷◌, ◌++◌, append-nil, append_assoc,
  Bool, true, ◌&&◌, ◌||◌, none, pos, Word, IsWord, word_eq_refl, contains, contains-append, All,
  arith, Bool-cases, inl, inr, ◌⊎◌, ◌==◌, ==_iff,
}
use libalf.Angluin.Table.{Row, Table, search}
use libalf.Angluin.Rows.{found, new_row, add_successor, successors}
use libalf.Angluin.Knows.{IsWord-concat}

pub successor-IsWord : (w : Word) (x : ℕ) → IsWord w → IsWord (w ++ pos x ∷ [])
successor-IsWord w x h = IsWord-concat w (pos x ∷ []) h refl

pub le-cases : (i x : ℕ) → i ≤ x → (x ≡ i) ⊎ (i + 1 ≤ x)
le-cases i x h = elim (Bool-cases (x == i)) [
  | inl e ↦ inl ((==_iff x i).0 e)
  | inr e ↦ inr (ground arith)
]

module _ {A : Type 0} where
  abbrev pub indices : List (Row A) → List Word
  indices [] = []
  indices (r ∷ rows) = r.index ∷ indices rows

  pub indices-append :
      (rows more : List (Row A)) → indices (rows ++ more) ≡ indices rows ++ indices more
  indices-append [] more = refl
  indices-append (r ∷ rows) more = ap (λ l. r.index ∷ l) (indices-append rows more)

  pub found-search :
      (w : Word) (rows : List (Row A)) → found (search w rows) ≡ contains w (indices rows)
  unfolding search
  found-search w [] = refl
  found-search w (r ∷ rows) = ground (arith, found-search w rows)

  pub All-append :
      (P : Row A → Type 0) (rows more : List (Row A))
      → All P rows
      → All P more
      → All P (rows ++ more)
  All-append P [] more h k = k
  All-append P (r ∷ rows) more h k = (h.0, All-append P rows more h.1 k)

  -- A row that nothing was filled in.
  abbrev pub IsFresh : Row A → Type 0
  IsFresh r = IsWord r.index × (r.acceptance ≡ [])

  pub contains-indices_append :
      (v : Word) (rows more : List (Row A))
      → contains v (indices (rows ++ more))
        ≡ (contains v (indices rows) || contains v (indices more))
  contains-indices_append v rows more =
      ap (contains v) (indices-append rows more) ∙ contains-append v (indices rows) (indices more)

  -- The loop over the alphabet adds rows to the lower table, so that each word with one symbol more
  -- has a row.
  pub successors_lem :
      (uniq : Bool) (now : ℕ) (w : Word) (rounds i : ℕ) (t : Table A)
      → IsWord w
      → (extra : List (Row A)) × (successors none uniq now w rounds i t
          ≡ record t { lower_table = t.lower_table ++ extra })
        × All IsFresh extra
        × ((x : ℕ)
            → i ≤ x
            → x < i + rounds
            → (contains (w ++ pos x ∷ []) (indices t.upper_table)
                || contains (w ++ pos x ∷ []) (indices extra))
              ≡ true)
  unfolding successors add_successor
  successors_lem uniq now w zero i t h =
      ([], rw (append-nil t.lower_table) refl, tt, λ x le lt. absurd (omega arith))
  successors_lem uniq now w (suc rounds) i t h =
      let word = w ++ pos i ∷ [] in
      let above = found-search word t.upper_table in
      elim (Bool-cases (uniq && found (search word t.upper_table))) [
        | inl e ↦
            let (extra, same, fresh, there) = successors_lem uniq now w rounds (i + 1) t h in
            (
              extra,
              rw e same,
              fresh,
              λ x le lt. elim (le-cases i x le) [
                | inl here ↦ rw here (ground (arith, above))
                | inr later ↦ there x later (omega arith)
              ],
            )
        | inr e ↦
            let r = new_row word 0 now in
            let t' : Table A = record t { lower_table = t.lower_table ++ r ∷ [] } in
            let (extra, same, fresh, there) = successors_lem uniq now w rounds (i + 1) t' h in
            (
              r ∷ extra,
              rw e (
                  same
                  ∙ ap (λ l. record t { lower_table = l })
                      (append_assoc t.lower_table (r ∷ []) extra)),
              ((successor-IsWord w i h, refl), fresh),
              λ x le lt. elim (le-cases i x le) [
                | inl here ↦ rw here (ground (arith, word_eq_refl word))
                | inr later ↦ ground (arith, there x later)
              ],
            )
      ]
