-- ===== src/Prelude/Decimal.antt =====
-- Go's `strconv.Itoa` on the natural numbers and `strconv.Atoi` where its answer is not negative,
-- with 64-bit integers.
use mathlib.Core.Path.{◌≡◌, refl, ap, ◌∙◌}
use Prim.Native.Nat.{ℕ, zero, suc, ◌+◌, ◌*◌, ◌/◌, ◌%◌, ◌^◌, ◌<◌, ◌≤◌}
use Prim.Native.Char.{Char, code}
use Prim.Native.String.{String, [], ◌∷◌}
use mathlib.Core.Bool.{Bool, true, false, ◌&&◌}
use mathlib.Core.Option.{Option, none, some}
use mathlib.Core.Logic.{inl, inr}
use native.Mathlib.Omega.{arith}
use package.public_cloud_vm_provisio.Prelude.Tests.{ltb, leb, eqb, if◌then◌else◌, Bool-cases}
use package.public_cloud_vm_provisio.Prelude.Text.{digits, digits_from, is_digit}

abbrev digit : ℕ → Char
digit zero = "0"
digit (suc zero) = "1"
digit (suc (suc zero)) = "2"
digit (suc (suc (suc zero))) = "3"
digit (suc (suc (suc (suc zero)))) = "4"
digit (suc (suc (suc (suc (suc zero))))) = "5"
digit (suc (suc (suc (suc (suc (suc zero)))))) = "6"
digit (suc (suc (suc (suc (suc (suc (suc zero))))))) = "7"
digit (suc (suc (suc (suc (suc (suc (suc (suc zero)))))))) = "8"
digit _ = "9"

-- The digits of a number before those of `acc`; a number has fewer digits than its value.
itoa_before : ℕ → ℕ → String → String
itoa_before zero n acc = digit n ∷ acc
itoa_before (suc fuel) n acc =
    let rest = itoa_before fuel (n / 10) (digit (n % 10) ∷ acc) in
    elim (ltb n 10) [ true ↦ digit n ∷ acc | false ↦ rest ]

-- `strconv.Itoa`
unfoldable pub itoa : ℕ → String
unfolding itoa_before
itoa n = itoa_before n n []

in_range : Option ℕ → Option ℕ
in_range none = none
in_range (some n) = if ltb n (2 ^ 63) then some n else none

-- What is left of `strconv.Atoi` by the test `err == nil && n >= 0`.
unfoldable pub atoi : String → Option ℕ
unfolding digits in_range
atoi [] = none
atoi (c ∷ s) =
    if eqb (code c) b'+'
    then in_range (digits s)
    else if eqb (code c) b'-'
    then elim (digits s) [ none ↦ none | some n ↦ if eqb n 0 then some 0 else none ]
    else in_range (digits (c ∷ s))

code-digit : (n : ℕ) → n < 10 → code (digit n) ≡ b'0' + n
code-digit zero h = refl
code-digit (suc zero) h = refl
code-digit (suc (suc zero)) h = refl
code-digit (suc (suc (suc zero))) h = refl
code-digit (suc (suc (suc (suc zero)))) h = refl
code-digit (suc (suc (suc (suc (suc zero))))) h = refl
code-digit (suc (suc (suc (suc (suc (suc zero)))))) h = refl
code-digit (suc (suc (suc (suc (suc (suc (suc zero))))))) h = refl
code-digit (suc (suc (suc (suc (suc (suc (suc (suc zero)))))))) h = refl
code-digit (suc (suc (suc (suc (suc (suc (suc (suc (suc zero))))))))) h = refl
code-digit (suc (suc (suc (suc (suc (suc (suc (suc (suc (suc n)))))))))) h = ground arith

digits_from-digit :
    (k n : ℕ) (acc : String) → n < 10 → digits_from k (digit n ∷ acc) ≡ digits_from (k * 10 + n) acc
unfolding digits_from is_digit
digits_from-digit k n acc h = ground (arith, code-digit n h)

digits_from-itoa_before :
    (fuel n : ℕ) (acc : String)
    → n ≤ fuel
    → digits_from 0 (itoa_before fuel n acc) ≡ digits_from n acc
unfolding itoa_before
digits_from-itoa_before zero n acc h =
    digits_from-digit 0 n acc (omega arith) ∙ ap (λ m. digits_from m acc) (omega arith)
digits_from-itoa_before (suc fuel) n acc h = elim (Bool-cases (ltb n 10)) [
  | inl e ↦
      rw (itoa_before, e)
        (digits_from-digit 0 n acc (ground arith) ∙ ap (λ m. digits_from m acc) (omega arith))
  | inr e ↦
      rw (itoa_before, e)
        (digits_from-itoa_before fuel (n / 10) (digit (n % 10) ∷ acc) (ground arith)
          ∙ digits_from-digit (n / 10) (n % 10) acc (omega arith)
          ∙ ap (λ m. digits_from m acc) (omega arith))
]

abbrev starts_digit : String → Bool
starts_digit [] = false
starts_digit (c ∷ s) = leb b'0' (code c) && leb (code c) b'9'

starts_digit-digit : (n : ℕ) (acc : String) → n < 10 → starts_digit (digit n ∷ acc) ≡ true
starts_digit-digit n acc h = ground (arith, code-digit n h)

starts_digit-itoa_before :
    (fuel n : ℕ) (acc : String) → n ≤ fuel → starts_digit (itoa_before fuel n acc) ≡ true
unfolding itoa_before
starts_digit-itoa_before zero n acc h = starts_digit-digit n acc (omega arith)
starts_digit-itoa_before (suc fuel) n acc h = elim (Bool-cases (ltb n 10)) [
  | inl e ↦ rw (itoa_before, e) (starts_digit-digit n acc (ground arith))
  | inr e ↦ rw (itoa_before, e) (starts_digit-itoa_before fuel (n / 10) _ (ground arith))
]

digits-starts : (s : String) → starts_digit s ≡ true → digits s ≡ digits_from 0 s
unfolding digits
digits-starts [] h = ground arith
digits-starts (c ∷ s) h = refl

atoi-starts : (s : String) → starts_digit s ≡ true → atoi s ≡ in_range (digits s)
unfolding atoi
atoi-starts [] h = ground arith
atoi-starts (c ∷ s) h = ground arith

-- The text that `strconv.Itoa` writes is read back as the same number by the digits alone.
pub digits-itoa : (n : ℕ) → digits (itoa n) ≡ some n
unfolding itoa digits_from
digits-itoa n =
    digits-starts (itoa_before n n "") (starts_digit-itoa_before n n "" (omega arith))
    ∙ digits_from-itoa_before n n "" (omega arith)

-- A number below 2^63 that `strconv.Itoa` writes is read back by `strconv.Atoi`.
pub atoi-itoa : (n : ℕ) → n < 2 ^ 63 → atoi (itoa n) ≡ some n
unfolding itoa in_range
atoi-itoa n h =
    atoi-starts (itoa_before n n "") (starts_digit-itoa_before n n "" (omega arith))
    ∙ ap in_range (digits-itoa n)
    ∙ ground arith
