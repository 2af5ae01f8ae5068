-- ===== src/Prelude/Lists.antt =====
-- Lists with native lengths, filtered by Boolean tests, and predicates on them by recursion.
use Prim.Native.Nat.{ℕ, suc}
use mathlib.Core.Path.{◌≡◌, refl}
use mathlib.Core.Logic.{◌⊎◌, inl, inr}
use mathlib.Core.Bool.{Bool, true, false, ◌||◌}
use mathlib.Core.Option.{Option, none, some}
use mathlib.Core.List.{List, [], ◌∷◌, ◌++◌}
use native.Mathlib.Omega.{arith}

module _ {ℓ} {A : Type ℓ} where
  abbrev pub length : List A → ℕ
  length [] = 0
  length (x ∷ xs) = suc (length xs)

  abbrev pub any : (A → Bool) → List A → Bool
  any p [] = false
  any p (x ∷ xs) = p x || any p xs

  -- The elements that do not pass the test: a loop whose body says `continue` on it.
  unfoldable pub drop_if : (A → Bool) → List A → List A
  drop_if p [] = []
  drop_if p (x ∷ xs) = let rest = drop_if p xs in elim (p x) [ true ↦ rest | false ↦ x ∷ rest ]

  -- The first element that passes the test.
  unfoldable pub find_first : (A → Bool) → List A → Option A
  find_first p [] = none
  find_first p (x ∷ xs) = let rest = find_first p xs in elim (p x) [ true ↦ some x | false ↦ rest ]

module _ {ℓ κ} {A : Type ℓ} (P : A → Type κ) where
  abbrev pub All : List A → Type κ
  All [] = Unit
  All (x ∷ xs) = P x × All xs

  pub All-append : (xs ys : List A) → All xs → All ys → All (xs ++ ys)
  All-append [] ys _ k = k
  All-append (x ∷ xs) ys (p, h) k = (p, All-append xs ys h k)

module _ {ℓ} {A : Type ℓ} (p : A → Bool) where
  pub any-append : (xs ys : List A) → any p (xs ++ ys) ≡ any p xs || any p ys
  any-append [] ys = refl
  any-append (x ∷ xs) ys = ground (arith, any-append xs ys)

  pub drop_if-append : (xs ys : List A) → drop_if p (xs ++ ys) ≡ drop_if p xs ++ drop_if p ys
  unfolding drop_if
  drop_if-append [] ys = refl
  drop_if-append (x ∷ xs) ys = ground (arith, drop_if-append xs ys)

  pub drop_if_none : (xs : List A) → any p xs ≡ false → drop_if p xs ≡ xs
  unfolding drop_if
  drop_if_none [] h = refl
  drop_if_none (x ∷ xs) h = ground (arith, drop_if_none xs)

  pub any-drop_if_self : (xs : List A) → any p (drop_if p xs) ≡ false
  unfolding drop_if
  any-drop_if_self [] = refl
  any-drop_if_self (x ∷ xs) = ground (arith, any-drop_if_self xs)

  pub any-drop_if_le :
      (q : A → Bool) (xs : List A) → any q xs ≡ false → any q (drop_if p xs) ≡ false
  unfolding drop_if
  any-drop_if_le q [] h = refl
  any-drop_if_le q (x ∷ xs) h = ground (arith, any-drop_if_le q xs)

-- The second list is the first without exactly the elements that have the property, in order.
pub data Drops {ℓ κ} {A : Type ℓ} (P : A → Type κ) : List A → List A → Type (ℓ ⊔ κ) where
  nothing_left : Drops P [] []
  drop : {x : A} {xs ys : List A} → P x → Drops P xs ys → Drops P (x ∷ xs) ys
  keep : {x : A} {xs ys : List A} → ¬ (P x) → Drops P xs ys → Drops P (x ∷ xs) (x ∷ ys)

-- The test of a loop decides the property.
abbrev pub Decides {ℓ κ} : {A : Type ℓ} → (A → Bool) → (A → Type κ) → Type (ℓ ⊔ κ)
Decides {A = A} p P = (x : A) → ((p x ≡ true) × P x) ⊎ ((p x ≡ false) × (¬ (P x)))

pub drop_if-Drops {ℓ κ} :
    {A : Type ℓ}
    → (p : A → Bool) (P : A → Type κ) → Decides p P
    → (xs : List A) → Drops P xs (drop_if p xs)
unfolding drop_if
drop_if-Drops p P decides [] = nothing_left
drop_if-Drops p P decides (x ∷ xs) =
    let rest = drop_if-Drops p P decides xs in
    elim (decides x) [
      | inl (e, held) ↦ rw (drop_if, e) (drop held rest)
      | inr (e, other) ↦ rw (drop_if, e) (keep other rest)
    ]
