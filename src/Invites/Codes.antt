-- ===== src/Invites/Codes.antt =====
-- Codes and their normal form.
use yunova.Base.{ℕ, zero, suc, ◌%◌, ◌<◌, ◌≡◌, refl, true, List, [], ◌∷◌, all, length, arith}
use yunova.Invites.{gen_code, normalize_code, nth, invite_alphabet, is_upper_or_digit}

nth-all :
    (n : ℕ) (cs : List ℕ)
    → all is_upper_or_digit cs ≡ true
    → n < length cs
    → is_upper_or_digit (nth n cs) ≡ true
nth-all n [] h k = absurd (omega arith)
nth-all zero (c ∷ cs) h k = ground arith
nth-all (suc n) (c ∷ cs) h k = nth-all n cs (ground arith) (omega arith)

alphabet_plain : all is_upper_or_digit invite_alphabet ≡ true
alphabet_plain = refl

gen_code-plain : (bytes : List ℕ) → all is_upper_or_digit (gen_code bytes) ≡ true
unfolding gen_code
gen_code-plain [] = refl
gen_code-plain (b ∷ bytes) =
    rw (nth-all (b % length invite_alphabet) invite_alphabet alphabet_plain (omega arith))
      (gen_code-plain bytes)

plain_normal : (cs : List ℕ) → all is_upper_or_digit cs ≡ true → normalize_code cs ≡ cs
unfolding normalize_code
plain_normal [] h = refl
plain_normal (c ∷ cs) h = ground (arith, plain_normal cs)

normalize_code-plain : (cs : List ℕ) → all is_upper_or_digit (normalize_code cs) ≡ true
unfolding normalize_code
normalize_code-plain [] = refl
normalize_code-plain (c ∷ cs) = ground (arith, normalize_code-plain cs)

-- A code that was generated is looked up as it is stored: it is its own normal form.
normalize_code-gen_code : (bytes : List ℕ) → normalize_code (gen_code bytes) ≡ gen_code bytes
normalize_code-gen_code bytes = plain_normal (gen_code bytes) (gen_code-plain bytes)

-- Normalizing a code a second time changes nothing.
pub normalize_code_twice : (raw : List ℕ) → normalize_code (normalize_code raw) ≡ normalize_code raw
normalize_code_twice raw = plain_normal (normalize_code raw) (normalize_code-plain raw)
