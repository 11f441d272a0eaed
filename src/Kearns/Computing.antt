-- ===== src/Kearns/Computing.antt =====
-- algorithm_kearns_vazirani.h: the leaves after compute_transition_task::perform.
use libalf.Common.{
  ℕ, zero, suc, ◌<◌, ◌≡◌, refl, ap, ◌∙◌, List, [], ◌∷◌, true, false, some, nth, put_nth, length,
  ◌==◌, if◌then◌else◌, arith, Bool-cases, inl, inr,
}
use libalf.Kearns.Tree.{Leaf}
use libalf.Kearns.Tasks.{modify, insert_address, set_transition}
use libalf.Kearns.Invariant.{has}
use libalf.Kearns.Entries.{nth-modify, nth-modify-some, length-modify}

pub has-insert_address : (i : ℕ) (js : List ℕ) → has i (insert_address i js) ≡ true
unfolding insert_address
has-insert_address i [] = ground arith
has-insert_address i (j ∷ js) = ground (arith, has-insert_address i js)

pub has-insert_other :
    (i k : ℕ) (js : List ℕ) → has i js ≡ true → has i (insert_address k js) ≡ true
unfolding insert_address
has-insert_other i k [] h = absurd (ground arith)
has-insert_other i k (j ∷ js) h = ground (arith, has-insert_other i k js, h)

pub nth-put_nth :
    {B : Type 0} (x : ℕ) (b : B) (l : List B) → x < length l → nth x (put_nth x b l) ≡ some b
nth-put_nth x b [] h = absurd (omega (arith, h))
nth-put_nth zero b (c ∷ l) h = refl
nth-put_nth (suc x) b (c ∷ l) h = nth-put_nth x b l (omega (arith, h))

pub nth-put_other :
    {B : Type 0} (x y : ℕ) (b : B) (l : List B) → x == y ≡ false → nth y (put_nth x b l) ≡ nth y l
nth-put_other x y b [] h = refl
nth-put_other zero zero b (c ∷ l) h = absurd (ground arith)
nth-put_other zero (suc y) b (c ∷ l) h = refl
nth-put_other (suc x) zero b (c ∷ l) h = refl
nth-put_other (suc x) (suc y) b (c ∷ l) h = nth-put_other x y b l (ground arith)

pub length-put_nth : {B : Type 0} (x : ℕ) (b : B) (l : List B) → length (put_nth x b l) ≡ length l
length-put_nth x b [] = refl
length-put_nth zero b (c ∷ l) = refl
length-put_nth (suc x) b (c ∷ l) = omega (arith, length-put_nth x b l)

-- What a leaf is after a transition was set.
abbrev pub moved : (source symbol target i : ℕ) → Leaf → Leaf
moved source symbol target i k = record {
  label = k.label;
  accepting = k.accepting;
  incoming_transitions =
      if target == i then insert_address source k.incoming_transitions else k.incoming_transitions;
  transitions = if source == i then put_nth symbol (some target) k.transitions else k.transitions;
  id = k.id;
}

abbrev with_transition : (symbol target : ℕ) → Leaf → Leaf
with_transition symbol target l = record l {
  transitions = put_nth symbol (some target) l.transitions;
}

abbrev with_source : (source : ℕ) → Leaf → Leaf
with_source source l = record l {
  incoming_transitions = insert_address source l.incoming_transitions;
}

moved-eq :
    (source symbol target i : ℕ) (k : Leaf)
    → (if target == i
        then with_source source (if source == i then with_transition symbol target k else k)
        else (if source == i then with_transition symbol target k else k))
      ≡ moved source symbol target i k
moved-eq source symbol target i k = elim (Bool-cases (target == i)) [
  | inl e ↦ elim (Bool-cases (source == i)) [ inl f ↦ rw (e, f) refl | inr f ↦ rw (e, f) refl ]
  | inr e ↦ elim (Bool-cases (source == i)) [ inl f ↦ rw (e, f) refl | inr f ↦ rw (e, f) refl ]
]

pub nth-set_transition :
    (source symbol target i : ℕ) (leaves : List Leaf) (k : Leaf)
    → nth i leaves ≡ some k
    → nth i (set_transition source symbol target leaves) ≡ some (moved source symbol target i k)
unfolding set_transition
nth-set_transition source symbol target i leaves k h =
    nth-modify i target (with_source source) (modify source (with_transition symbol target) leaves)
      (if source == i then with_transition symbol target k else k)
      (nth-modify i source (with_transition symbol target) leaves k h)
    ∙ ap (λ l. some l) (moved-eq source symbol target i k)

pub nth-set_transition-some :
    (source symbol target i : ℕ) (leaves : List Leaf) (l : Leaf)
    → nth i (set_transition source symbol target leaves) ≡ some l
    → (k : Leaf) × (nth i leaves ≡ some k) × (l ≡ moved source symbol target i k)
unfolding set_transition
nth-set_transition-some source symbol target i leaves l h =
    let (m, at_m, same_m) =
      nth-modify-some i target (with_source source)
        (modify source (with_transition symbol target) leaves) l h in
    let (k, at_k, same_k) =
      nth-modify-some i source (with_transition symbol target) leaves m at_m in
    (
      k,
      at_k,
      same_m
          ∙ ap (λ v. if target == i then with_source source v else v) same_k
          ∙ moved-eq source symbol target i k,
    )

pub length-set_transition :
    (source symbol target : ℕ) (leaves : List Leaf)
    → length (set_transition source symbol target leaves) ≡ length leaves
unfolding set_transition
length-set_transition source symbol target leaves =
    let moves =
      λ (l : Leaf). record l { transitions = put_nth symbol (some target) l.transitions } in
    length-modify target
      (λ l. record l { incoming_transitions = insert_address source l.incoming_transitions })
      (modify source moves leaves)
    ∙ length-modify source moves leaves
