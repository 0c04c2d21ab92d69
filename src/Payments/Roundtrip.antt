-- ===== src/Payments/Roundtrip.antt =====
-- The money text that an order sends is read back as the order's amount.
use yunova.Base.{
  ℕ, zero, suc, ◌+◌, ◌-◌, ◌*◌, ◌/◌, ◌%◌, ◌^◌, ◌<◌, ◌≡◌, refl, sym, ap, subst, ◌∙◌, true, false,
  some, List, [], ◌∷◌, ◌++◌, arith, inl, inr, Bool-cases, ◌==◌, ltb,
}
use mathlib.Core.List.{append-nil, append_assoc}
use yunova.Base.Int.{pos, mul_i64, add_i64}
use yunova.Base.Text.{parse_i64, parse_digits, is_digit}
use yunova.Payments.Money.{split_from, reported_cents, digits, show, money_of_yuan, two_places}

abbrev AllDigits : List ℕ → Type 0
AllDigits [] = Unit
AllDigits (c ∷ cs) = (is_digit c ≡ true) × AllDigits cs

parse_digits-snoc :
    (acc m d : ℕ) (xs : List ℕ)
    → parse_digits acc xs ≡ some m
    → d < 10
    → parse_digits acc (xs ++ (b'0' + d) ∷ []) ≡ some (m * 10 + d)
unfolding parse_digits
parse_digits-snoc acc m d [] e h = ground arith
parse_digits-snoc acc m d (x ∷ xs) e h =
    ground (arith, parse_digits-snoc (acc * 10 + (x - b'0')) m d xs)

AllDigits-snoc : (d : ℕ) (xs : List ℕ) → AllDigits xs → d < 10 → AllDigits (xs ++ (b'0' + d) ∷ [])
AllDigits-snoc d [] h k = (ground arith, tt)
AllDigits-snoc d (x ∷ xs) h k = (h.0, AllDigits-snoc d xs h.1 k)

-- With as much fuel as the number, its digits are read back.
digits_read :
    (fuel n : ℕ) → n < fuel → (parse_digits 0 (digits fuel n) ≡ some n) × AllDigits (digits fuel n)
unfolding digits
digits_read zero n h = elim h [ ]
digits_read (suc fuel) n h = elim (Bool-cases (ltb n 10)) [
  | inl small ↦ rw small (unfold parse_digits in ground arith, (ground arith, tt))
  | inr large ↦
      let (p, q) = digits_read fuel (n / 10) (ground arith) in
      rw large (
        parse_digits-snoc 0 (n / 10) (n % 10) (digits fuel (n / 10)) p (omega arith)
            ∙ ap some (let e : n / 10 * 10 + n % 10 ≡ n = omega arith in e),
        AllDigits-snoc (n % 10) (digits fuel (n / 10)) q (omega arith),
      )
]

not_point : (x : ℕ) → is_digit x ≡ true → (x == b'.') ≡ false
not_point x h = ground arith

split_after_digits :
    (before xs ys : List ℕ)
    → AllDigits xs
    → split_from before b'.' (xs ++ b'.' ∷ ys) ≡ some (before ++ xs, ys)
unfolding split_from
split_after_digits before [] ys h = rw append-nil
split_after_digits before (x ∷ xs) ys h =
    rw (not_point x h.0, split_after_digits (before ++ x ∷ []) xs ys h.1) (rw append_assoc)

digits_cons : (fuel n : ℕ) → (c : ℕ) × (cs : List ℕ) × (digits (suc fuel) n ≡ c ∷ cs)
unfolding digits
digits_cons fuel n = elim (Bool-cases (ltb n 10)) [
  | inl small ↦ (b'0' + n, [], rw small)
  | inr large ↦
      let (c, cs, e) = snoc_cons (b'0' + n % 10) (digits fuel (n / 10)) in (c, cs, rw large e)
]
  where
    snoc_cons : (d : ℕ) (xs : List ℕ) → (c : ℕ) × (cs : List ℕ) × (xs ++ d ∷ [] ≡ c ∷ cs)
    snoc_cons d [] = (d, [], refl)
    snoc_cons d (x ∷ xs) = (x, xs ++ d ∷ [], refl)

parse_i64_digits :
    (c : ℕ) (cs : List ℕ) (n : ℕ)
    → AllDigits (c ∷ cs)
    → parse_digits 0 (c ∷ cs) ≡ some n
    → n < 2 ^ 63
    → parse_i64 (c ∷ cs) ≡ some (pos n)
unfolding parse_i64
parse_i64_digits c [] n h e k = ground arith
parse_i64_digits c (d ∷ cs) n h e k = ground arith

-- A natural number below 2 ^ 63 that is printed in decimal digits is read back as itself.
pub parse_i64-show : (n : ℕ) → n < 2 ^ 63 → parse_i64 (show n) ≡ some (pos n)
unfolding show
parse_i64-show n h =
    let (c, cs, e) = digits_cons n n in
    let (p, q) = digits_read (suc n) n (omega arith) in
    rw e (parse_i64_digits c cs n (subst AllDigits e q) (ap (parse_digits 0) (sym e) ∙ p) h)

show-AllDigits : (n : ℕ) → AllDigits (show n)
unfolding show
show-AllDigits n = (digits_read (suc n) n (omega arith)).1

cents_zero : parse_i64 (two_places (b'0' ∷ b'0' ∷ [])) ≡ some (pos 0)
unfolding parse_i64 two_places
cents_zero = refl

times_hundred :
    (n : ℕ) → n * 100 < 2 ^ 63 → add_i64 (mul_i64 (pos n) (pos 100)) (pos 0) ≡ pos (n * 100)
unfolding add_i64 mul_i64
times_hundred n h = ground arith

-- The money of an order of a whole number of yuan, printed as the order is created, is read back as the
-- same amount in cents, where that is below 2 ^ 63.
pub reported_cents-money_of_yuan :
    (yuan : ℕ) → yuan * 100 < 2 ^ 63 → reported_cents (money_of_yuan yuan) ≡ pos (yuan * 100)
unfolding money_of_yuan reported_cents
reported_cents-money_of_yuan yuan h =
    rw (split_after_digits [] (show yuan) (b'0' ∷ b'0' ∷ []) (show-AllDigits yuan), reported_cents)
      (rw (parse_i64-show yuan (omega arith), cents_zero) (times_hundred yuan h))
