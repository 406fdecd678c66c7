-- ===== src/Base/Print.antt =====
-- The decimal texts of two numbers differ if the numbers do.
use mathlib.Core.Path.{◌≡◌, refl, sym, ap, ◌∙◌}
use mathlib.Core.Logic.{◌⊎◌, inl, inr}
use Prim.Native.Nat.{◌≤◌, ℕ, zero, suc, ◌+◌, ◌/◌, ◌%◌, ◌<◌}
use Prim.Native.String.{String, count}
use native.Mathlib.Omega.{arith}
use text.Mathlib.Text.{◌==◌}
use text.Mathlib.TextLemmas.{length-append, append_inj}
use cloudrun.Base.Tests.{if◌then◌else◌}
use cloudrun.Base.Text.{◌<>◌, digit, digits, show_ℕ}

abbrev value : String → ℕ
value s =
    if s == "0"
    then 0
    else if s == "1"
    then 1
    else if s == "2"
    then 2
    else if s == "3"
    then 3
    else if s == "4"
    then 4
    else if s == "5"
    then 5
    else if s == "6"
    then 6
    else if s == "7"
    then 7
    else if s == "8"
    then 8
    else 9

-- Of each digit: it is read back, and is one character.
digit_lem : (n : ℕ) → n < 10 → (value (digit n) ≡ n) × (count (digit n) ≡ 1)
digit_lem zero h = (refl, refl)
digit_lem (suc zero) h = (refl, refl)
digit_lem (suc (suc zero)) h = (refl, refl)
digit_lem (suc (suc (suc zero))) h = (refl, refl)
digit_lem (suc (suc (suc (suc zero)))) h = (refl, refl)
digit_lem (suc (suc (suc (suc (suc zero))))) h = (refl, refl)
digit_lem (suc (suc (suc (suc (suc (suc zero)))))) h = (refl, refl)
digit_lem (suc (suc (suc (suc (suc (suc (suc zero))))))) h = (refl, refl)
digit_lem (suc (suc (suc (suc (suc (suc (suc (suc zero)))))))) h = (refl, refl)
digit_lem (suc (suc (suc (suc (suc (suc (suc (suc (suc zero))))))))) h = (refl, refl)
digit_lem (suc (suc (suc (suc (suc (suc (suc (suc (suc (suc n)))))))))) h = omega arith

short_or_long : (n : ℕ) → (n < 10) ⊎ (10 ≤ n)
short_or_long n = omega arith

-- Two texts that end in one character each are equal by parts.
peel : (s t x y : String) → count x ≡ 1 → count y ≡ 1 → s <> x ≡ t <> y → (s ≡ t) × (x ≡ y)
peel s t x y one one' e =
    let c : count s + count x ≡ count t + count y =
      sym (length-append s x) ∙ ap count e ∙ length-append t y in
    append_inj e (omega arith)

count-digit : (n : ℕ) → n < 10 → count (digit n) ≡ 1
count-digit n h = (digit_lem n h).1

digit-injective : (n m : ℕ) → n < 10 → m < 10 → digit n ≡ digit m → n ≡ m
digit-injective n m h k e = sym (digit_lem n h).0 ∙ ap value e ∙ (digit_lem m k).0

-- How a text of digits begins.
digits-short : (fuel n : ℕ) → n < 10 → digits (suc fuel) n ≡ digit n
unfolding digits
digits-short fuel n h = ground arith

digits-long : (fuel n : ℕ) → 10 ≤ n → digits (suc fuel) n ≡ digits fuel (n / 10) <> digit (n % 10)
unfolding digits
digits-long fuel n h = ground arith

-- There is at least one.
count-digits : (fuel n : ℕ) → n < fuel → 1 ≤ count (digits fuel n)
count-digits zero n h = omega arith
count-digits (suc fuel) n h = elim (short_or_long n) [
  | inl short ↦ rw (digits-short fuel n short, count-digit n short) (omega arith)
  | inr long ↦
      rw
        (
          digits-long fuel n long,
          length-append (digits fuel (n / 10)) (digit (n % 10)),
          count-digit (n % 10) (omega arith),
        )
        (omega arith)
]

apart :
    (fuel n m : ℕ)
    → n < 10
    → 10 ≤ m
    → m < suc fuel
    → digit n ≡ digits fuel (m / 10) <> digit (m % 10)
    → ⊥
apart fuel n m h k fits e =
    let c : 1 ≡ count (digits fuel (m / 10)) + 1 =
      sym (count-digit n h)
      ∙ ap count e
      ∙ length-append (digits fuel (m / 10)) (digit (m % 10))
      ∙ ap (λ x. count (digits fuel (m / 10)) + x) (count-digit (m % 10) (omega arith)) in
    let some_digit = count-digits fuel (m / 10) (omega arith) in omega arith

-- With fuel for both, equal texts of digits are of equal numbers.
digits-injective : (fuel gas n m : ℕ) → n < fuel → m < gas → digits fuel n ≡ digits gas m → n ≡ m
digits-injective zero gas n m h k e = omega arith
digits-injective (suc fuel) zero n m h k e = omega arith
digits-injective (suc fuel) (suc gas) n m h k e = elim (short_or_long n) [
  | inl short ↦ elim (short_or_long m) [
    | inl short' ↦
        digit-injective n m short short'
          (sym (digits-short fuel n short) ∙ e ∙ digits-short gas m short')
    | inr long' ↦ absurd (
        apart gas n m short long' k (sym (digits-short fuel n short) ∙ e ∙ digits-long gas m long'))
  ]
  | inr long ↦ elim (short_or_long m) [
    | inl short' ↦ absurd (
        apart fuel m n short' long h
          (sym (digits-short gas m short') ∙ sym e ∙ digits-long fuel n long))
    | inr long' ↦
        let split = digits-long fuel n long in
        let split' = digits-long gas m long' in
        let (front, last) =
          peel (digits fuel (n / 10)) (digits gas (m / 10)) (digit (n % 10)) (digit (m % 10))
            (count-digit (n % 10) (omega arith)) (count-digit (m % 10) (omega arith))
            (sym split ∙ e ∙ split') in
        let quotients =
          digits-injective fuel gas (n / 10) (m / 10) (omega arith) (omega arith) front in
        let rests = digit-injective (n % 10) (m % 10) (omega arith) (omega arith) last in
        omega arith
  ]
]

-- Two numbers with one decimal text are the same.
pub show_ℕ-injective : (n m : ℕ) → show_ℕ n ≡ show_ℕ m → n ≡ m
unfolding show_ℕ
show_ℕ-injective n m e = digits-injective (suc n) (suc m) n m (omega arith) (omega arith) e
