-- ===== src/CliAuth/Codes/Spelling.antt =====
-- What a user types for a code of src/cli_auth.rs.
use yunova.Base.{ℕ, ◌≡◌, refl, ap, ◌∙◌, true, false, List, [], ◌∷◌, ◌++◌}
use yunova.CliAuth.Codes.{
  code_half, half, new_user_code, is_ascii_alphanumeric, to_ascii_uppercase, compact, drop, dashed,
  normalize_user_code,
}
use yunova.Base.Text.{take}

-- The text spells these characters, in letters of either case, with any other signs between.
pub data Spells : List ℕ → List ℕ → Type 0 where
  ended : Spells [] []
  sign : {c : ℕ} {t cs : List ℕ} → is_ascii_alphanumeric c ≡ false → Spells t cs → Spells (c ∷ t) cs
  letter :
      {d c : ℕ} {t cs : List ℕ}
      → is_ascii_alphanumeric d ≡ true
      → to_ascii_uppercase d ≡ c
      → Spells t cs
      → Spells (d ∷ t) (c ∷ cs)

abbrev pub letters : (ℕ → ℕ) → List ℕ
letters idx = half idx 0 code_half ++ half idx code_half code_half

compact_spelled : {t cs : List ℕ} → Spells t cs → compact t ≡ cs
unfolding compact
compact_spelled ended = refl
compact_spelled (sign s h) = rw s (compact_spelled h)
compact_spelled (letter {c = c} a u h) = rw (a, u) (ap (λ cs. c ∷ cs) (compact_spelled h))

-- Whatever spells the characters of a code is normalised to it.
pub normalize_user_code_spelled :
    (idx : ℕ → ℕ) (typed : List ℕ)
    → Spells typed (letters idx)
    → normalize_user_code typed ≡ new_user_code idx
unfolding normalize_user_code dashed new_user_code half take drop
normalize_user_code_spelled idx typed h = ap dashed (compact_spelled h) ∙ refl
