-- ===== src/Base/Text.antt =====
-- Native texts: concatenation, comparison, and the decimal print of `fmt.Sprintf("%d", n)`.
use Prim.Native.Nat.{ℕ, zero, suc, ◌/◌, ◌%◌}
use Prim.Native.String.{String}
use mathlib.Core.Bool.{Bool}
use text.Mathlib.Text.{◌==◌}
use cloudrun.Base.Tests.{ltb, if◌then◌else◌}
use cloudrun.Base.Int.{ℤ, pos, negsuc}
pub use Prim.Native.String.{◌++◌ as ◌<>◌}
pub use text.Mathlib.TextEquality.{eq_iff}
pub use text.Mathlib.TextLemmas.{append_cancel_left}
pub use text.Mathlib.TextPositions.{eq_refl}

infix 50 ◌===◌
abbrev pub ◌===◌ : String → String → Bool
s === t = s == t

abbrev pub is_empty : String → Bool
is_empty s = s == ""

-- The decimal digit of a number below 10.
abbrev pub digit : ℕ → String
digit n =
    if ltb n 1
    then "0"
    else if ltb n 2
    then "1"
    else if ltb n 3
    then "2"
    else if ltb n 4
    then "3"
    else if ltb n 5
    then "4"
    else if ltb n 6
    then "5"
    else if ltb n 7
    then "6"
    else if ltb n 8
    then "7"
    else if ltb n 9
    then "8"
    else "9"

-- The digits of `n`, of which there are at most as many as the fuel.
unfoldable pub digits : ℕ → ℕ → String
digits zero n = ""
digits (suc fuel) n =
    let rest = digits fuel (n / 10) in if ltb n 10 then digit n else rest <> digit (n % 10)

unfoldable pub show_ℕ : ℕ → String
unfolding digits
show_ℕ n = digits (suc n) n

unfoldable pub show_int : ℤ → String
unfolding show_ℕ
show_int (pos n) = show_ℕ n
show_int (negsuc n) = "-" <> show_ℕ (suc n)
