-- ===== src/CliAuth/Codes.antt =====
-- The texts of a login: the code that a user retypes, and the labels that the approval page shows.

pub mod Spelling
use yunova.Base.{
  ℕ, zero, suc, ◌+◌, ◌*◌, ◌-◌, Bool, true, false, not, ◌&&◌, ◌||◌, Option, none, some, List, [],
  ◌∷◌, ◌++◌, String, if◌then◌else◌, ◌==◌, leb, length,
}
use yunova.Base.Text.{codes, trim, take, is_digit}

abbrev pub code_alphabet : List ℕ
code_alphabet = codes "ACDEFGHJKMNPQRTUVWXY234679"

abbrev pub code_half : ℕ
code_half = 4

unfoldable pub char_at : ℕ → List ℕ → ℕ
char_at n [] = 0
char_at zero (c ∷ cs) = c
char_at (suc n) (c ∷ cs) = char_at n cs

-- `n` characters, by the random indices from the `k`-th on.
unfoldable pub half : (ℕ → ℕ) → ℕ → ℕ → List ℕ
half idx k zero = []
half idx k (suc n) = char_at (idx k) code_alphabet ∷ half idx (suc k) n

unfoldable pub new_user_code : (ℕ → ℕ) → List ℕ
new_user_code idx = half idx 0 code_half ++ b'-' ∷ half idx code_half code_half

abbrev pub is_upper : ℕ → Bool
is_upper c = leb b'A' c && leb c b'Z'

abbrev pub is_lower : ℕ → Bool
is_lower c = leb b'a' c && leb c b'z'

abbrev pub is_ascii_alphanumeric : ℕ → Bool
is_ascii_alphanumeric c = is_digit c || is_upper c || is_lower c

abbrev pub to_ascii_uppercase : ℕ → ℕ
to_ascii_uppercase c = if is_lower c then c - 32 else c

unfoldable pub compact : List ℕ → List ℕ
compact [] = []
compact (c ∷ cs) =
    let rest = compact cs in if is_ascii_alphanumeric c then to_ascii_uppercase c ∷ rest else rest

unfoldable pub drop : ℕ → List ℕ → List ℕ
drop zero cs = cs
drop (suc n) [] = []
drop (suc n) (c ∷ cs) = drop n cs

-- The dash stands between the halves of a code of the full length.
unfoldable pub dashed : List ℕ → List ℕ
dashed cs = if length cs == code_half * 2 then take code_half cs ++ b'-' ∷ drop code_half cs else cs

unfoldable pub normalize_user_code : List ℕ → List ℕ
normalize_user_code raw = dashed (compact raw)

-- `char::is_control`
abbrev pub is_control : ℕ → Bool
is_control c = leb c 0x1f || leb 0x7f c && leb c 0x9f

unfoldable pub without_controls : List ℕ → List ℕ
without_controls [] = []
without_controls (c ∷ cs) =
    let rest = without_controls cs in if is_control c then rest else c ∷ rest

unfoldable pub or_empty : Option (List ℕ) → List ℕ
or_empty none = []
or_empty (some cs) = cs

unfoldable pub or_fallback : List ℕ → List ℕ → List ℕ
or_fallback fallback [] = fallback
or_fallback fallback (c ∷ cs) = c ∷ cs

unfoldable pub clean_label : Option (List ℕ) → String → ℕ → List ℕ
clean_label raw fallback max =
    or_fallback (codes fallback) (trim (take max (without_controls (or_empty raw))))
