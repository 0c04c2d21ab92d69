-- ===== src/Payments/Money.antt =====
-- Amounts of src/payments.rs as text.
use yunova.Base.{
  ℕ, zero, suc, ◌+◌, ◌/◌, ◌%◌, Option, none, some, List, [], ◌∷◌, ◌++◌, if◌then◌else◌, ◌==◌, ltb,
}
use yunova.Base.Int.{ℤ, pos, mul_i64, add_i64}
use yunova.Base.Text.{parse_i64}

-- `str::split_once` at a character, with the text before it read backwards.
unfoldable pub split_from : List ℕ → ℕ → List ℕ → Option (List ℕ × List ℕ)
split_from before c [] = none
split_from before c (d ∷ ds) =
    let rest = split_from (before ++ d ∷ []) c ds in if d == c then some (before, ds) else rest

-- `{:0<2}` of at most two characters
unfoldable pub two_places : List ℕ → List ℕ
two_places [] = b'0' ∷ b'0' ∷ []
two_places (a ∷ []) = a ∷ b'0' ∷ []
two_places (a ∷ b ∷ cs) = a ∷ b ∷ []

abbrev number_or_zero : Option ℤ → ℤ
number_or_zero none = pos 0
number_or_zero (some n) = n

-- `reported_cents` in `process_notify`
unfoldable pub reported_cents : List ℕ → ℤ
reported_cents money = elim (split_from [] b'.' money) [
  | none ↦ mul_i64 (number_or_zero (parse_i64 money)) (pos 100)
  | some (a, b) ↦
      add_i64 (mul_i64 (number_or_zero (parse_i64 a)) (pos 100))
        (number_or_zero (parse_i64 (two_places b)))
]

-- `format!("{}", n)`: decimal digits, with fuel for each.
unfoldable pub digits : ℕ → ℕ → List ℕ
digits zero n = []
digits (suc fuel) n =
    let more = digits fuel (n / 10) ++ (b'0' + n % 10) ∷ [] in
    if ltb n 10 then (b'0' + n) ∷ [] else more

unfoldable pub show : ℕ → List ℕ
unfolding digits
show n = digits (suc n) n

-- The money of an order: `format!("{}.00", yuan)`.
unfoldable pub money_of_yuan : ℕ → List ℕ
money_of_yuan yuan = show yuan ++ b'.' ∷ b'0' ∷ b'0' ∷ []
