-- ===== src/Common/Words.antt =====
-- Words are lists of `int` symbols (std::list<int> in the sources).
use mathlib.Core.Path.{◌≡◌, refl}
use mathlib.Core.Logic.{◌↔◌}
use mathlib.Core.Bool.{Bool, true, false, not, ◌&&◌, ◌||◌}
use mathlib.Core.List.{List, [], ◌∷◌, ◌++◌}
use native.Mathlib.Omega.{arith}
use libalf.Common.Tests.{if◌then◌else◌}
use libalf.Common.Int.{ℤ, pos, negsuc, eq_ℤ, eq_ℤ_iff}

abbrev pub Word : Type 0
Word = List ℤ

-- No symbol is negative.
abbrev pub is_word : Word → Bool
is_word [] = true
is_word (pos _ ∷ w) = is_word w
is_word (negsuc _ ∷ _) = false

abbrev pub IsWord : Word → Type 0
IsWord w = is_word w ≡ true

abbrev pub word_eq : Word → Word → Bool
word_eq [] [] = true
word_eq (x ∷ v) (y ∷ w) = eq_ℤ x y && word_eq v w
word_eq [] (_ ∷ _) = false
word_eq (_ ∷ _) [] = false

pub word_eq_iff : (v w : Word) → (word_eq v w ≡ true) ↔ (v ≡ w)
word_eq_iff [] [] = (λ _. refl, λ _. refl)
word_eq_iff (x ∷ v) (y ∷ w) = ground (arith, eq_ℤ_iff x y, word_eq_iff v w)
word_eq_iff [] (y ∷ w) = ground arith
word_eq_iff (x ∷ v) [] = ground arith

pub word_eq_refl : (w : Word) → word_eq w w ≡ true
word_eq_refl w = (word_eq_iff w w).1 refl

abbrev pub is_prefix : Word → Word → Bool
is_prefix [] w = true
is_prefix (x ∷ v) [] = false
is_prefix (x ∷ v) (y ∷ w) = eq_ℤ x y && is_prefix v w

-- std::list<node *>: search and remove; remove drops every equal element.
abbrev pub contains : Word → List Word → Bool
contains v [] = false
contains v (w ∷ ws) = word_eq v w || contains v ws

abbrev pub remove : Word → List Word → List Word
remove v [] = []
remove v (w ∷ ws) = if word_eq v w then remove v ws else w ∷ remove v ws

pub contains-append :
    (v : Word) (us ws : List Word) → contains v (us ++ ws) ≡ (contains v us || contains v ws)
contains-append v [] ws = refl
contains-append v (u ∷ us) ws = ground (arith, contains-append v us ws)

pub contains-remove :
    (v w : Word) (ws : List Word) → contains v (remove w ws) ≡ (contains v ws && not (word_eq v w))
contains-remove v w [] = refl
contains-remove v w (u ∷ us) =
    ground (arith, contains-remove v w us, word_eq_iff w u, word_eq_iff v u, word_eq_iff v w)

-- No word twice.
abbrev pub Distinct : List Word → Type 0
Distinct [] = Unit
Distinct (w ∷ ws) = (contains w ws ≡ false) × Distinct ws

pub Distinct-append :
    (ws : List Word) (w : Word) → contains w ws ≡ false → Distinct ws → Distinct (ws ++ w ∷ [])
Distinct-append [] w h d = (refl, tt)
Distinct-append (u ∷ us) w h d = (
  ground (arith, contains-append u us (w ∷ []), word_eq_iff u w, word_eq_iff w u),
  Distinct-append us w (ground arith) d.1,
)

pub Distinct-remove : (ws : List Word) (w : Word) → Distinct ws → Distinct (remove w ws)
Distinct-remove [] w d = tt
Distinct-remove (u ∷ us) w d = ground (arith, Distinct-remove us w d.1, contains-remove u w us)

-- Nothing to remove.
pub remove-absent : (ws : List Word) (w : Word) → contains w ws ≡ false → remove w ws ≡ ws
remove-absent [] w h = refl
remove-absent (u ∷ us) w h = ground (arith, remove-absent us w)
