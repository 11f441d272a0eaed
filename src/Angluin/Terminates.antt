-- ===== src/Angluin/Terminates.antt =====
-- algorithm_angluin.h: the calls of complete, without a normalizer and without a filter.
use libalf.Common.{
  ℕ, zero, suc, ◌+◌, ◌≤◌, ◌<◌, ◌≡◌, refl, ◌∙◌, List, [], Bool, true, false, ◌&&◌, Option, none,
  some, length, if◌then◌else◌, Word, contains, arith, ◌↔◌, Bool-cases, inl, inr,
}
use libalf.Filter.{FilterAnswer}
use libalf.Knowledgebase.Base.{Base}
use libalf.Knowledgebase.Base.Entries.{known}
use libalf.Knowledgebase.Base.Clearing.{exists-entry}
use libalf.Knowledgebase.Node.{words}
use libalf.Knowledgebase.Node.Words.{contains-words}
use libalf.Angluin.Table.{Table, columns_filled, is_closed}
use libalf.Angluin.Rows.{initialize_table}
use libalf.Angluin.Complete.{
  returns, again, fill_upper, complete, is_consistent, conjecture_ready, Outcome,
}
use libalf.Angluin.Knows.{is_unknown, known_prefix}
use libalf.Angluin.Shape.{indices}
use libalf.Angluin.Adding.{IsTable}
use libalf.Angluin.Filling.{Knows}
use libalf.Angluin.Full.{IsFilled, rows_filled-IsFull}
use libalf.Angluin.Consistent.{IsEquality}
use libalf.Angluin.Deciding.{is_consistent_lem}
use libalf.Angluin.Closing.{is_closed_iff}
use libalf.Angluin.Growing.{measure}
use libalf.Angluin.Passes.{IsReady, Completed, Passed, upper_lem}
use libalf.Angluin.Starting.{new_table, initialize_table-IsTable}
use libalf.Knowledgebase.Base.Invariant.{IsValid}

module _ {A : Type 0} (K : Word → Option A) (o : FilterAnswer A) (eq : IsEquality o) (l : List Word)
    (listed : (w : Word) → is_unknown K w ≡ false → contains w l ≡ true) where
  -- complete returns with a table as it is to be.
  abbrev pub Ends : ℕ → Table A → Base A → Type 0
  Ends fuel t base =
      (b : Bool) × (t' : Table A) × (base' : Base A) × (complete o none none fuel t base
        ≡ some (b, t', base'))
      × Knows o K base'
      × Completed K b t' base'
      × (t'.initialized ≡ true)

  -- The table that the first pass is over.
  abbrev pub begin : Table A → Base A → Table A
  begin t base = if t.initialized then t else initialize_table none base.timestamp t

  next_pass :
      (fuel : ℕ) (t s : Table A) (base : Base A)
      → begin t base ≡ s
      → s.initialized ≡ true
      → length l + length l + 2 ≤ suc fuel + measure s
      → ((t' : Table A) (base' : Base A)
          → IsTable K t'
          → t'.initialized ≡ true
          → Knows o K base'
          → 0 < fuel
          → length l + length l + 2 ≤ fuel + measure t'
          → Ends fuel t' base')
      → (out : Outcome o none) → fill_upper o none none s base ≡ some out
      → Passed K o eq l listed s.initialized (measure s) out
      → Ends (suc fuel) t base
  unfolding complete
  next_pass fuel t s base begun started enough rest (returns b t' base') passed
        (k', completed, same) =
      (b, t', base', rw (begun, passed, complete) refl, k', completed, same ∙ started)
  next_pass fuel t s base begun started enough rest (again t' base') passed
        (k', v', same, larger, small) =
      let (b, t'', base'', rest', k'', completed, same') =
        rest t' base' v' (same ∙ started) k' (omega arith) (omega arith) in
      (b, t'', base'', rw (begun, passed, complete) rest', k'', completed, same')

  begin-initialized : (t : Table A) (base : Base A) → t.initialized ≡ true → begin t base ≡ t
  begin-initialized t base e = ground (arith, e)

  -- A pass for each row and column that the knowledge has room for is enough.
  pub enough_fuel :
      (fuel : ℕ) (t : Table A) (base : Base A)
      → IsTable K t
      → t.initialized ≡ true
      → Knows o K base
      → 0 < fuel
      → length l + length l + 2 ≤ fuel + measure t
      → Ends fuel t base
  enough_fuel zero t base v started k some_fuel enough = absurd (omega arith)
  enough_fuel (suc fuel) t base v started k some_fuel enough =
      let (out, passed, ends) = upper_lem K o eq l listed t base v k in
      next_pass fuel t t base (begin-initialized t base started) started enough (enough_fuel fuel)
        out passed ends

  -- The same for the first call, where the table is set up first.
  pub enough_fuel_first :
      (fuel : ℕ) (t : Table A) (base : Base A)
      → IsTable K (begin t base)
      → (begin t base).initialized ≡ true
      → Knows o K base
      → length l + length l + 2 ≤ fuel
      → Ends fuel t base
  enough_fuel_first zero t base v started k enough = absurd (omega arith)
  enough_fuel_first (suc fuel) t base v started k enough =
      let (out, passed, ends) = upper_lem K o eq l listed (begin t base) base v k in
      next_pass fuel t (begin t base) base refl started (omega arith) (enough_fuel fuel) out passed
        ends

-- What the knowledgebase knows are words of its tree.
known_listed :
    {A : Type 0}
    → (o : FilterAnswer A) (base : Base A) (w : Word) → is_unknown (known o.answer base) w ≡ false
    → contains w (words [] base.root) ≡ true
known_listed o base w h =
    ground (arith, contains-words w base.root, exists-entry o.answer base.root w)

module _ {A : Type 0} (o : FilterAnswer A) (eq : IsEquality o) where
  -- Where operator== of the answers decides their equality and operator!= is its negation,
  -- without a normalizer and without a filter, for a valid knowledgebase and an initialized table
  -- that satisfies the invariant of the table, complete returns after at most two calls of itself
  -- for each node of the knowledgebase's tree and two more: the knowledge is what it was, the
  -- knowledgebase is valid, and the table is initialized; where complete returns true, every row
  -- is filled and the table is closed and consistent, and where it returns false, the table
  -- satisfies the invariant and a word whose answer is unknown is a query.
  pub complete_returns :
      (fuel : ℕ) (t : Table A) (base : Base A)
      → IsValid o.answer base
      → t.initialized ≡ true
      → IsTable (known o.answer base) t
      → length (words [] base.root) + length (words [] base.root) + 2 ≤ fuel
      → (b : Bool) × (t' : Table A) × (base' : Base A) × (complete o none none fuel t base
          ≡ some (b, t', base'))
        × Knows o (known o.answer base) base'
        × Completed (known o.answer base) b t' base'
        × (t'.initialized ≡ true)
  complete_returns fuel t base valid started v enough =
      enough_fuel (known o.answer base) o eq (words [] base.root) (known_listed o base) fuel t base
        v started (valid, λ w. refl) (omega arith) (omega arith)

  -- Where operator== of the answers decides their equality and operator!= is its negation,
  -- without a normalizer and without a filter, for a valid knowledgebase and a new table,
  -- complete returns after at most two calls of itself for each node of the knowledgebase's tree
  -- and two more: the knowledge is what it was, the knowledgebase is valid, and the table is
  -- initialized; where complete returns true, every row is filled and the table is closed and
  -- consistent, and where it returns false, the table satisfies the invariant and a word whose
  -- answer is unknown is a query.
  pub complete_returns_first :
      (fuel alphabet_size : ℕ) (base : Base A)
      → IsValid o.answer base
      → length (words [] base.root) + length (words [] base.root) + 2 ≤ fuel
      → (b : Bool) × (t' : Table A) × (base' : Base A) × (complete o none none fuel
            (new_table alphabet_size)
            base
          ≡ some (b, t', base'))
        × Knows o (known o.answer base) base'
        × Completed (known o.answer base) b t' base'
        × (t'.initialized ≡ true)
  unfolding initialize_table
  complete_returns_first fuel n base valid enough =
      enough_fuel_first (known o.answer base) o eq (words [] base.root) (known_listed o base) fuel
        (new_table n) base (initialize_table-IsTable (known o.answer base) base.timestamp n) refl
        (valid, λ w. refl) enough

  tested :
      (t : Table A) (b : Bool)
      → (t.initialized && columns_filled t && is_closed o.answer t) ≡ b
      → conjecture_ready o none t ≡ (if b then is_consistent o none t else some false)
  unfolding conjecture_ready
  tested t b e = rw e refl

  -- Where operator== of the answers decides their equality and operator!= is its negation,
  -- without a normalizer, for an initialized table that satisfies the invariant of the table,
  -- whose rows are all filled, and in which no other upper row equals that of the empty word,
  -- conjecture_ready returns, and says whether the table is closed and consistent.
  pub conjecture_ready-IsReady :
      (K : Word → Option A) (t : Table A)
      → t.initialized ≡ true
      → IsFilled K t
      → ((w : Word)
          → contains w (indices t.upper_table) ≡ true
          → known_prefix K [] t.column_names ≡ known_prefix K w t.column_names
          → w ≡ [])
      → (b : Bool) × (conjecture_ready o none t ≡ some b) × ((b ≡ true) ↔ IsReady K t)
  unfolding columns_filled
  conjecture_ready-IsReady K t started v alone =
      let filled : columns_filled t ≡ true = ground (
        arith,
        rows_filled-IsFull K t.column_names t.upper_table v.upper,
        rows_filled-IsFull K t.column_names t.lower_table v.lower,
      ) in
      elim (Bool-cases (is_closed o.answer t)) [
        | inl e ↦
            let (b, checked, iff) = is_consistent_lem o eq K t v alone in
            (
              b,
              rw (tested t true (ground arith)) checked,
              (
                λ yes. record {
                  filled = v;
                  closed = (is_closed_iff K o eq t v).0 e;
                  consistent = iff.0 yes;
                },
                λ ready. iff.1 ready.consistent,
              ),
            )
        | inr e ↦ (
          false,
          rw (tested t false (ground arith)) refl,
          (
            λ yes. absurd (cc yes),
            λ ready. absurd (cc (e, (is_closed_iff K o eq t v).1 ready.closed)),
          ),
        )
      ]
