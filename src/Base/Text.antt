-- ===== src/Base/Text.antt =====
-- Texts as lists of code points, and the standard library's functions on them that the source
-- calls: `str::trim`, `str::parse::<i64>`, `str::to_ascii_lowercase`.
use Prim.Native.Nat.{Ordering, ℕ, zero, suc, ◌+◌, ◌-◌, ◌*◌, ◌^◌}
use Prim.Native.Char.{Char, code}
use Prim.Native.String.{String, compare}
use Prim.Native.String.append
use Prim.Native.String
use mathlib.Core.Bool.{Bool, true, false, ◌&&◌, ◌||◌}
use mathlib.Core.Option.{Option, none, some}
use mathlib.Core.List.{List, [], ◌∷◌, ◌++◌, reverse}
use native.Mathlib.Omega.{arith}
use mathlib.Core.Path.{◌≡◌, refl, ap, ◌∙◌}
use text.Mathlib.Text.{◌==◌ as str_eq}
use yunova.Base.Tests.{leb, ◌==◌, if◌then◌else◌}
use yunova.Base.Int.{ℤ, pos, sub_ℕ}

abbrev pub codes : String → List ℕ
codes String.[] = []
codes (String.◌∷◌ c s) = code c ∷ codes s

abbrev pub is_digit : ℕ → Bool
is_digit c = leb b'0' c && leb c b'9'

-- The digits of `str::parse`, from the left; a character that is no digit is an error.
unfoldable pub parse_digits : ℕ → List ℕ → Option ℕ
parse_digits acc [] = some acc
parse_digits acc (c ∷ cs) =
    let rest = parse_digits (acc * 10 + (c - b'0')) cs in if is_digit c then rest else none

in_range : ℕ → Option ℕ → (ℕ → ℤ) → Option ℤ
in_range limit none f = none
in_range limit (some n) f = if leb n limit then some (f n) else none

-- `str::parse::<i64>`: one optional sign, at least one digit, and the range of the type.
unfoldable pub parse_i64 : List ℕ → Option ℤ
unfolding parse_digits in_range
parse_i64 [] = none
parse_i64 (c ∷ []) = in_range (2 ^ 63 - 1) (parse_digits 0 (c ∷ [])) pos
parse_i64 (c ∷ d ∷ cs) =
    let digits = parse_digits 0 (d ∷ cs) in
    let whole = in_range (2 ^ 63 - 1) (parse_digits 0 (c ∷ d ∷ cs)) pos in
    if c == b'-'
    then in_range (2 ^ 63) digits (λ n. sub_ℕ 0 n)
    else if c == b'+'
    then in_range (2 ^ 63 - 1) digits pos
    else whole

parse_i64_runs : parse_i64 (codes "-120") ≡ some (sub_ℕ 0 120)
unfolding parse_i64
parse_i64_runs = refl

-- `char::is_whitespace`
unfoldable pub is_whitespace : ℕ → Bool
is_whitespace c =
    leb 9 c && leb c 13
    || c == 32
    || c == 0x85
    || c == 0xa0
    || c == 0x1680
    || leb 0x2000 c && leb c 0x200a
    || c == 0x2028
    || c == 0x2029
    || c == 0x202f
    || c == 0x205f
    || c == 0x3000

-- `str::trim_start`
unfoldable pub trim_start : List ℕ → List ℕ
unfolding is_whitespace
trim_start [] = []
trim_start (c ∷ cs) = let rest = trim_start cs in if is_whitespace c then rest else c ∷ cs

-- `str::trim_end`
unfoldable pub trim_end : List ℕ → List ℕ
unfolding trim_start
trim_end cs = reverse (trim_start (reverse cs))

-- `str::trim`
unfoldable pub trim : List ℕ → List ℕ
unfolding trim_start trim_end
trim cs = trim_end (trim_start cs)

trim_from : String → String
unfolding is_whitespace
trim_from String.[] = String.[]
trim_from (String.◌∷◌ c s) =
    let rest = trim_from s in if is_whitespace (code c) then rest else String.◌∷◌ c s

keep_unless : Bool → Char → String → String
keep_unless false c s = String.◌∷◌ c s
keep_unless true c (String.◌∷◌ d s) = String.◌∷◌ c (String.◌∷◌ d s)
keep_unless true c String.[] = String.[]

trim_upto : String → String
unfolding is_whitespace
trim_upto String.[] = String.[]
trim_upto (String.◌∷◌ c s) = keep_unless (is_whitespace (code c)) c (trim_upto s)

-- `str::trim` as a text.
unfoldable pub str_trim : String → String
unfolding trim_from trim_upto keep_unless
str_trim s = trim_upto (trim_from s)

-- `str::trim_end_matches` of a character.
unfoldable pub trim_end_matches : ℕ → String → String
unfolding keep_unless
trim_end_matches d String.[] = String.[]
trim_end_matches d (String.◌∷◌ c s) = keep_unless (code c == d) c (trim_end_matches d s)

-- `str::ends_with`
unfoldable pub ends_with : String → String → Bool
ends_with p String.[] = str_eq "" p
ends_with p (String.◌∷◌ c s) = str_eq (String.◌∷◌ c s) p || ends_with p s

-- `Ord for str`
unfoldable pub comes_before : String → String → Bool
comes_before a b = elim (compare a b) [ Ordering.lt ↦ true | _ ↦ false ]

-- Equality of texts.
unfoldable pub same : List ℕ → List ℕ → Bool
same [] [] = true
same (a ∷ as') (b ∷ bs) = a == b && same as' bs
same _ _ = false

-- `str::strip_prefix`
unfoldable pub strip_prefix : List ℕ → List ℕ → Option (List ℕ)
strip_prefix [] cs = some cs
strip_prefix (p ∷ ps) [] = none
strip_prefix (p ∷ ps) (c ∷ cs) = let rest = strip_prefix ps cs in if p == c then rest else none

strip_prefix-append : (ps cs : List ℕ) → strip_prefix ps (ps ++ cs) ≡ some cs
unfolding strip_prefix
strip_prefix-append [] cs = refl
strip_prefix-append (p ∷ ps) cs = ground (arith, strip_prefix-append ps cs)

pub codes-append : (a b : String) → codes (String.◌++◌ a b) ≡ codes a ++ codes b
codes-append String.[] b = ap codes (append.nil b)
codes-append (String.◌∷◌ c a) b =
    ap codes (append.cons c a b) ∙ ap (λ (cs : List ℕ). code c ∷ cs) (codes-append a b)

-- A text that was put in front is stripped.
pub strip_prefix-codes :
    (p t : String) → strip_prefix (codes p) (codes (String.◌++◌ p t)) ≡ some (codes t)
strip_prefix-codes p t =
    ap (strip_prefix (codes p)) (codes-append p t) ∙ strip_prefix-append (codes p) (codes t)

-- `str::split_once` at a character: what stands before its first place, and after it.
unfoldable pub split_once : ℕ → List ℕ → Option (List ℕ × List ℕ)
split_once d [] = none
split_once d (c ∷ cs) =
    let rest = split_once d cs in
    if c == d then some ([], cs) else elim rest [ none ↦ none | some (w, h) ↦ some (c ∷ w, h) ]

-- A line, read backwards, without the `\r` of `\r\n`.
unfoldable pub line : List ℕ → List ℕ
line [] = []
line (c ∷ cs) = reverse (if c == 13 then cs else c ∷ cs)

-- `str::lines`, with the line so far read backwards. The last one has no `\n`, and keeps its `\r`.
unfoldable pub lines_from : List ℕ → List ℕ → List (List ℕ)
unfolding line
lines_from [] [] = []
lines_from (c ∷ cur) [] = reverse (c ∷ cur) ∷ []
lines_from cur (c ∷ cs) =
    let ended = line cur ∷ lines_from [] cs in
    let longer = lines_from (c ∷ cur) cs in if c == 10 then ended else longer

unfoldable pub lines : List ℕ → List (List ℕ)
unfolding lines_from
lines cs = lines_from [] cs

-- `lines` of a text that ends with `\n` go before those of what follows.
pub lines_from-append :
    (cur a b : List ℕ)
    → lines_from cur (a ++ 10 ∷ b) ≡ lines_from cur (a ++ 10 ∷ []) ++ lines_from [] b
unfolding lines_from
lines_from-append [] [] b = refl
lines_from-append (x ∷ cur) [] b = refl
lines_from-append [] (c ∷ a) b =
    ground (arith, lines_from-append [] a b, lines_from-append (c ∷ []) a b)
lines_from-append (x ∷ cur) (c ∷ a) b =
    ground (arith, lines_from-append [] a b, lines_from-append (c ∷ x ∷ cur) a b)

abbrev pub ascii_lower : ℕ → ℕ
ascii_lower c = if leb b'A' c && leb c b'Z' then c + 32 else c

unfoldable pub to_ascii_lowercase : List ℕ → List ℕ
to_ascii_lowercase [] = []
to_ascii_lowercase (c ∷ cs) = ascii_lower c ∷ to_ascii_lowercase cs

-- `chars().take(n)`
unfoldable pub take : ℕ → List ℕ → List ℕ
take zero cs = []
take (suc n) [] = []
take (suc n) (c ∷ cs) = c ∷ take n cs
