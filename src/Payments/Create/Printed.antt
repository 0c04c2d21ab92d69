-- ===== src/Payments/Create/Printed.antt =====
-- The money text of an order is the one of Payments.Money.
use yunova.Base.{
  ℕ, zero, suc, ◌+◌, ◌/◌, ◌%◌, ◌<◌, ◌≡◌, refl, ap, ◌∙◌, List, [], ◌∷◌, ◌++◌, arith, inl, inr,
  Bool-cases, ltb,
}
use yunova.Base.Int.{pos}
use yunova.Base.Text.{codes, codes-append}
use yunova.Payments.Money.{digits, show, money_of_yuan}
use yunova.Payments.Create.{digit_text, digits_text, show_text, show_int, money}

digit_coded : (d : ℕ) → d < 10 → codes (digit_text d) ≡ (b'0' + d) ∷ []
digit_coded zero h = refl
digit_coded (suc zero) h = refl
digit_coded (suc (suc zero)) h = refl
digit_coded (suc (suc (suc zero))) h = refl
digit_coded (suc (suc (suc (suc zero)))) h = refl
digit_coded (suc (suc (suc (suc (suc zero))))) h = refl
digit_coded (suc (suc (suc (suc (suc (suc zero)))))) h = refl
digit_coded (suc (suc (suc (suc (suc (suc (suc zero))))))) h = refl
digit_coded (suc (suc (suc (suc (suc (suc (suc (suc zero)))))))) h = refl
digit_coded (suc (suc (suc (suc (suc (suc (suc (suc (suc zero))))))))) h = refl
digit_coded (suc (suc (suc (suc (suc (suc (suc (suc (suc (suc d)))))))))) h = absurd (omega arith)

digits_coded : (fuel n : ℕ) → codes (digits_text fuel n) ≡ digits fuel n
unfolding digits_text digits
digits_coded zero n = refl
digits_coded (suc fuel) n = elim (Bool-cases (ltb n 10)) [
  | inl small ↦ rw small (digit_coded n (ground arith))
  | inr large ↦ rw large (
      codes-append (digits_text fuel (n / 10)) (digit_text (n % 10))
      ∙ ap (λ (cs : List ℕ). cs ++ codes (digit_text (n % 10))) (digits_coded fuel (n / 10))
      ∙ ap (λ (cs : List ℕ). digits fuel (n / 10) ++ cs) (digit_coded (n % 10) (omega arith)))
]

pub money_coded : (yuan : ℕ) → codes (money (pos yuan)) ≡ money_of_yuan yuan
unfolding money show_int show_text money_of_yuan show
money_coded yuan =
    codes-append (show_text yuan) ".00"
    ∙ ap (λ (cs : List ℕ). cs ++ codes ".00") (digits_coded (suc yuan) yuan)
