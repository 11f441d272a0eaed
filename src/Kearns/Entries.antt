-- ===== src/Kearns/Entries.antt =====
-- algorithm_kearns_vazirani.h: the leaves and the tasks that split_node_task::perform leaves.
use libalf.Common.{
  ℕ, zero, suc, ◌+◌, ◌<◌, ◌≡◌, ◌⊎◌, refl, sym, ap, subst, ◌∙◌, List, [], ◌∷◌, ◌++◌, true, false,
  Option, none, some, nth, length, ◌==◌, ==_iff, if◌then◌else◌, arith, Bool-cases, Option-cases,
  inl, inr,
}
use libalf.Kearns.Tree.{Leaf}
use libalf.Kearns.Tasks.{
  Task, compute_transition, modify, recompute, recompute_symbols, compute_symbols,
}
use libalf.Kearns.Invariant.{Pending, has, some_eq}

pub nth-append_old :
    {B : Type 0} (i : ℕ) (xs ys : List B) (a : B) → nth i xs ≡ some a → nth i (xs ++ ys) ≡ some a
nth-append_old i [] ys a h = absurd cc
nth-append_old zero (x ∷ xs) ys a h = h
nth-append_old (suc i) (x ∷ xs) ys a h = nth-append_old i xs ys a h

pub nth-append_end : {B : Type 0} (xs : List B) (y : B) → nth (length xs) (xs ++ y ∷ []) ≡ some y
nth-append_end [] y = refl
nth-append_end (x ∷ xs) y = nth-append_end xs y

pub nth-append_cases :
    {B : Type 0} (i : ℕ) (xs : List B) (y a : B)
    → nth i (xs ++ y ∷ []) ≡ some a
    → (nth i xs ≡ some a) ⊎ ((i ≡ length xs) × (y ≡ a))
nth-append_cases zero [] y a h = inr (refl, some_eq h)
nth-append_cases (suc i) [] y a h = absurd cc
nth-append_cases zero (x ∷ xs) y a h = inl h
nth-append_cases (suc i) (x ∷ xs) y a h = elim (nth-append_cases i xs y a h) [
  | inl e ↦ inl e
  | inr (e, same) ↦ inr (omega (arith, e), same)
]

pub nth-modify :
    (i n : ℕ) (f : Leaf → Leaf) (leaves : List Leaf) (l : Leaf)
    → nth i leaves ≡ some l
    → nth i (modify n f leaves) ≡ some (if n == i then f l else l)
nth-modify i n f [] l h = absurd cc
nth-modify zero zero f (k ∷ leaves) l h = ap (λ m. some (f m)) (some_eq h)
nth-modify zero (suc n) f (k ∷ leaves) l h = let e : suc n == zero ≡ false = ground arith in rw e h
nth-modify (suc i) zero f (k ∷ leaves) l h = let e : zero == suc i ≡ false = ground arith in rw e h
nth-modify (suc i) (suc n) f (k ∷ leaves) l h =
    let e : n == i ≡ (suc n == suc i) = ground arith in
    nth-modify i n f leaves l h ∙ ap (λ b. some (if b then f l else l)) e

pub length-modify :
    (n : ℕ) (f : Leaf → Leaf) (leaves : List Leaf) → length (modify n f leaves) ≡ length leaves
length-modify n f [] = refl
length-modify zero f (k ∷ leaves) = refl
length-modify (suc n) f (k ∷ leaves) = omega (arith, length-modify n f leaves)

nth-modify-none :
    (i n : ℕ) (f : Leaf → Leaf) (leaves : List Leaf)
    → nth i leaves ≡ none
    → nth i (modify n f leaves) ≡ none
nth-modify-none i n f [] h = refl
nth-modify-none zero n f (k ∷ leaves) h = absurd cc
nth-modify-none (suc i) zero f (k ∷ leaves) h = h
nth-modify-none (suc i) (suc n) f (k ∷ leaves) h = nth-modify-none i n f leaves h

pub nth-modify-some :
    (i n : ℕ) (f : Leaf → Leaf) (leaves : List Leaf) (m : Leaf)
    → nth i (modify n f leaves) ≡ some m
    → (l : Leaf) × (nth i leaves ≡ some l) × (m ≡ (if n == i then f l else l))
nth-modify-some i n f leaves m h = elim (Option-cases (nth i leaves)) [
  | inl e ↦ let none_some : none ≡ some m = sym (nth-modify-none i n f leaves e) ∙ h in absurd cc
  | inr (l, e) ↦ (l, e, some_eq (sym h ∙ nth-modify i n f leaves l e))
]

pub Pending-left :
    (i x : ℕ) (tasks more : List Task) → Pending i x tasks → Pending i x (tasks ++ more)
Pending-left i x [] more h = absurd h
Pending-left i x (t ∷ tasks) more (inl e) = inl e
Pending-left i x (t ∷ tasks) more (inr h) = inr (Pending-left i x tasks more h)

pub Pending-right :
    (i x : ℕ) (tasks more : List Task) → Pending i x more → Pending i x (tasks ++ more)
Pending-right i x [] more h = h
Pending-right i x (t ∷ tasks) more h = inr (Pending-right i x tasks more h)

recompute_symbols-here :
    (node i y k : ℕ) (targets : List (Option ℕ))
    → y ≡ k
    → Pending i y (recompute_symbols node i k (some node ∷ targets))
unfolding recompute_symbols
recompute_symbols-here node i y k targets e =
    let same : node == node ≡ true = ground arith in
    rw (same, recompute_symbols) (inl ([], ap (λ z. compute_transition i z []) (sym e)))

recompute_symbols-later :
    (node i y k : ℕ) (target : Option ℕ) (targets : List (Option ℕ))
    → Pending i y (recompute_symbols node i (suc k) targets)
    → Pending i y (recompute_symbols node i k (target ∷ targets))
unfolding recompute_symbols
recompute_symbols-later node i y k none targets h = h
recompute_symbols-later node i y k (some j) targets h = elim (Bool-cases (j == node)) [
  | inl e ↦ rw (e, recompute_symbols) (inr h)
  | inr e ↦ rw (e, recompute_symbols) h
]

recompute_symbols-Pending :
    (node i x y k : ℕ) (targets : List (Option ℕ))
    → y ≡ k + x
    → nth x targets ≡ some (some node)
    → Pending i y (recompute_symbols node i k targets)
recompute_symbols-Pending node i x y k [] e h = absurd cc
recompute_symbols-Pending node i zero y k (target ∷ targets) e h =
    subst (λ t. Pending i y (recompute_symbols node i k (t ∷ targets))) (sym (some_eq h))
      (recompute_symbols-here node i y k targets (omega (arith, e)))
recompute_symbols-Pending node i (suc x) y k (target ∷ targets) e h =
    recompute_symbols-later node i y k target targets
      (recompute_symbols-Pending node i x y (suc k) targets (omega (arith, e)) h)

pub recompute-Pending :
    (node i x : ℕ) (sources : List ℕ) (leaves : List Leaf) (l : Leaf)
    → has i sources ≡ true
    → nth i leaves ≡ some l
    → nth x l.transitions ≡ some (some node)
    → Pending i x (recompute node sources leaves)
unfolding recompute
recompute-Pending node i x [] leaves l h at to = absurd (ground arith)
recompute-Pending node i x (j ∷ sources) leaves l h at to = elim (Bool-cases (i == j)) [
  | inl e ↦
      let found : nth j leaves ≡ some l =
        subst (λ k. nth k leaves ≡ some l) ((==_iff i j).0 e) at in
      rw (found, recompute)
        (Pending-left i x (recompute_symbols node j 0 l.transitions) (recompute node sources leaves)
          (subst (λ k. Pending i x (recompute_symbols node k 0 l.transitions)) ((==_iff i j).0 e)
            (recompute_symbols-Pending node i x x 0 l.transitions (omega arith) to)))
  | inr e ↦
      Pending-right i x
        (elim (nth j leaves) [ none ↦ [] | some k ↦ recompute_symbols node j 0 k.transitions ])
        (recompute node sources leaves)
        (recompute-Pending node i x sources leaves l (ground (arith, h, e)) at to)
]

pub compute_symbols-Pending :
    (i x y k rounds : ℕ) → y ≡ k + x → x < rounds → Pending i y (compute_symbols i k rounds)
unfolding compute_symbols
compute_symbols-Pending i x y k zero e h = absurd (omega (arith, h))
compute_symbols-Pending i zero y k (suc rounds) e h =
    inl ([], ap (λ z. compute_transition i z []) (omega (arith, e)))
compute_symbols-Pending i (suc x) y k (suc rounds) e h =
    inr (compute_symbols-Pending i x y (suc k) rounds (omega (arith, e)) (omega (arith, h)))
