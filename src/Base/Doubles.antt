-- ===== src/Base/Doubles.antt =====
-- The numbers of the language that are not negative, IEEE doubles, as multiples of the smallest of
-- them: a double x is the number x * 2 ^ 1074. None of them is infinite here: what is computed stays
-- below 2 ^ 1024.
use Prim.Native.Nat.{◌^◌}
use gomer.Base.{
  ℕ, zero, suc, ◌+◌, ◌-◌, ◌*◌, ◌/◌, ◌%◌, true, false, ◌&&◌, ◌||◌, ltb, ◌==◌, if◌then◌else◌,
}

abbrev pub one : ℕ
one = 2 ^ 1_074

-- The distance between doubles at a number; 2,100 halvings are enough below 2 ^ 1024.
unfoldable pub spacing : ℕ → ℕ → ℕ
spacing zero q = 1
spacing (suc fuel) q = elim (ltb q (2 ^ 53)) [ true ↦ 1 | false ↦ 2 * spacing fuel (q / 2) ]

-- The whole number nearest to a quotient, the even one of two.
abbrev pub nearest : ℕ → ℕ → ℕ
nearest a b =
    if ltb b (2 * (a % b)) || (2 * (a % b) == b && (a / b) % 2 == 1) then a / b + 1 else a / b

-- The double nearest to a quotient.
unfoldable pub rounded : ℕ → ℕ → ℕ
unfolding spacing
rounded a b = let s = spacing 2_100 (a / b) in s * nearest a (b * s)

unfoldable pub double : ℕ → ℕ
unfolding rounded
double n = rounded (n * one) 1

unfoldable pub plus : ℕ → ℕ → ℕ
unfolding rounded
plus x y = rounded (x + y) 1

unfoldable pub times : ℕ → ℕ → ℕ
unfolding rounded
times x y = rounded (x * y) one

unfoldable pub divide : ℕ → ℕ → ℕ
unfolding rounded
divide x y = rounded (x * one) y

-- `Math.ceil`
abbrev pub ceil : ℕ → ℕ
ceil x = (x + (one - 1)) / one
