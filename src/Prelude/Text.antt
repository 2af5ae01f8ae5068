-- ===== src/Prelude/Text.antt =====
-- What the program uses of Go's `strings` and `strconv`, by recursion on the characters.
use mathlib.Core.Path.{◌≡◌, refl}
use mathlib.Core.Logic.{◌≢◌, ◌⊎◌, inl, inr}
use Prim.Native.Nat.{ℕ, ◌+◌, ◌*◌, ◌-◌}
use Prim.Native.Char.{Char, code}
use Prim.Native.String.{String, [], ◌∷◌}
use mathlib.Core.Bool.{Bool, true, false, ◌&&◌, ◌||◌}
use mathlib.Core.Option.{Option, none, some}
use mathlib.Core.List.{List}
use package.public_cloud_vm_provisio.Prelude.Tests.{leb, eqb, if◌then◌else◌, Bool-cases}
use text.Mathlib.Text.{◌==◌}
use text.Mathlib.TextEquality.{eq_iff}

-- `s == ""`
unfoldable pub is_empty : String → Bool
is_empty [] = true
is_empty (c ∷ s) = false

-- `s + t`
unfoldable pub append : String → String → String
append [] t = t
append (c ∷ s) t = c ∷ append s t

-- The ASCII characters for which `unicode.IsSpace` holds.
unfoldable pub is_space : Char → Bool
is_space c = eqb (code c) 32 || (leb 9 (code c) && leb (code c) 13)

unfoldable pub is_digit : Char → Bool
is_digit c = leb b'0' (code c) && leb (code c) b'9'

trim_left : String → String
unfolding is_space
trim_left [] = []
trim_left (c ∷ s) = let rest = trim_left s in elim (is_space c) [ true ↦ rest | false ↦ c ∷ s ]

trim_right : String → String
unfolding is_space
trim_right [] = []
trim_right (c ∷ s) =
    let rest = trim_right s in
    elim rest [ [] ↦ (if is_space c then [] else c ∷ []) | d ∷ r ↦ c ∷ (d ∷ r) ]

-- `strings.TrimSpace` on ASCII text
unfoldable pub trim_space : String → String
unfolding trim_left trim_right
trim_space s = trim_right (trim_left s)

-- `strings.HasPrefix(s, p)`
unfoldable pub has_prefix : String → String → Bool
has_prefix s [] = true
has_prefix [] (d ∷ p) = false
has_prefix (c ∷ s) (d ∷ p) = eqb (code c) (code d) && has_prefix s p

-- `strings.Contains(s, p)`
unfoldable pub contains_text : String → String → Bool
unfolding has_prefix
contains_text [] p = has_prefix [] p
contains_text (c ∷ s) p = has_prefix (c ∷ s) p || contains_text s p

cons_head : Char → List String → List String
cons_head c List.[] = List.◌∷◌ (c ∷ []) List.[]
cons_head c (List.◌∷◌ s r) = List.◌∷◌ (c ∷ s) r

-- `strings.Split(s, sep)` for a separator of one character, given by its code
unfoldable pub split : ℕ → String → List String
unfolding cons_head
split sep [] = List.◌∷◌ [] List.[]
split sep (c ∷ s) =
    let rest = split sep s in
    elim (eqb (code c) sep) [ true ↦ List.◌∷◌ [] rest | false ↦ cons_head c rest ]

-- The value of a text that is all digits; `none` where another character stands.
unfoldable pub digits_from : ℕ → String → Option ℕ
unfolding is_digit
digits_from n [] = some n
digits_from n (c ∷ s) =
    let rest = digits_from (n * 10 + (code c - b'0')) s in
    elim (is_digit c) [ true ↦ rest | false ↦ none ]

-- An unsigned decimal of at least one digit.
unfoldable pub digits : String → Option ℕ
unfolding digits_from
digits [] = none
digits (c ∷ s) = digits_from 0 (c ∷ s)

-- `s[0:i], s[i+1:]` at the first separator, as `strings.Cut`.
unfoldable pub cut : ℕ → String → Option (String × String)
cut sep [] = none
cut sep (c ∷ s) =
    let rest = cut sep s in
    elim (eqb (code c) sep) [
      | true ↦ some ([], s)
      | false ↦ elim rest [ none ↦ none | some (a, b) ↦ some (c ∷ a, b) ]
    ]

pub is_empty-cases : (s : String) → (s ≡ "" × is_empty s ≡ true) ⊎ (s ≢ "" × is_empty s ≡ false)
unfolding is_empty
is_empty-cases [] = inl (refl, refl)
is_empty-cases (c ∷ s) = inr (λ e. cc, refl)

pub eq-cases : (s t : String) → ((s ≡ t) × ((s == t) ≡ true)) ⊎ ((s ≢ t) × ((s == t) ≡ false))
eq-cases s t = elim (Bool-cases (s == t)) [
  | inl e ↦ inl ((eq_iff s t).0 e, e)
  | inr e ↦ inr (λ same. cc ((eq_iff s t).1 same, e), e)
]
