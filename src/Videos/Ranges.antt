-- ===== src/Videos/Ranges.antt =====
-- The byte ranges of a video that src/videos.rs serves. A number is a `u64`.
use yunova.Base.{
  ℕ, ◌-◌, ◌^◌, ◌≡◌, refl, Bool, true, false, ◌||◌, any, Option, none, some, List, [], ◌∷◌, String,
  if◌then◌else◌, ◌==◌, leb, arith, Bool-cases, ◌≤◌, ◌<◌, inl, inr,
}
use yunova.Base.Text.{split_once, codes, trim, parse_digits}
use yunova.Channels.Pricing.{}

unfoldable pub in_u64 : Option ℕ → Option ℕ
in_u64 none = none
in_u64 (some n) = if leb n (2 ^ 64 - 1) then some n else none

-- `parse::<u64>().ok()`: a sign `+` at most, at least one digit, and the range of the type.
unfoldable pub parse_u64 : List ℕ → Option ℕ
parse_u64 [] = none
parse_u64 (c ∷ []) = in_u64 (parse_digits 0 (c ∷ []))
parse_u64 (c ∷ d ∷ cs) =
    let rest = in_u64 (parse_digits 0 (d ∷ cs)) in
    if c == b'+' then rest else in_u64 (parse_digits 0 (c ∷ d ∷ cs))

unfoldable pub min : ℕ → ℕ → ℕ
min a b = if leb a b then a else b

-- The last bytes, for a value that starts with a dash.
unfoldable pub suffix_range : ℕ → Option ℕ → Option (ℕ × ℕ)
suffix_range total none = none
suffix_range total (some suffix) =
    if suffix == 0 then none else some (total - min suffix total, total - 1)

unfoldable pub end_of : ℕ → List ℕ → Option ℕ
end_of total [] = some (total - 1)
end_of total (c ∷ cs) = elim (parse_u64 (c ∷ cs)) [
  | none ↦ none
  | some n ↦ some (min n (total - 1))
]

unfoldable pub closed_range : ℕ → Option ℕ → Option (ℕ × ℕ)
closed_range start none = none
closed_range start (some last) = if leb start last then some (start, last) else none

unfoldable pub range_at : ℕ → List ℕ → Option ℕ → Option (ℕ × ℕ)
range_at total last none = none
range_at total last (some start) =
    if leb total start then none else closed_range start (end_of total last)

unfoldable pub parts_range : ℕ → Option (List ℕ × List ℕ) → Option (ℕ × ℕ)
parts_range total none = none
parts_range total (some ([], last)) = suffix_range total (parse_u64 last)
parts_range total (some (c ∷ cs, last)) = range_at total last (parse_u64 (c ∷ cs))

-- `value` is what follows `bytes=`.
unfoldable pub parse_video_range : String → ℕ → Option (ℕ × ℕ)
parse_video_range value total =
    if total == 0 || any (λ c. c == b',') (codes value)
    then none
    else parts_range total (split_once b'-' (trim (codes value)))

abbrev IsWithin : ℕ → ℕ × ℕ → Type 0
IsWithin total r = (r.0 ≤ r.1) × (r.1 < total)

suffix_range-IsWithin :
    (total : ℕ) (suffix : Option ℕ) (r : ℕ × ℕ)
    → 0 < total
    → suffix_range total suffix ≡ some r
    → IsWithin total r
unfolding suffix_range min
suffix_range-IsWithin total none r h e = absurd (ground arith)
suffix_range-IsWithin total (some suffix) (s, l) h e = ground arith

end_of-bound :
    (total : ℕ) (last : List ℕ) (m : ℕ) → 0 < total → end_of total last ≡ some m → m < total
unfolding end_of min
end_of-bound total [] m h e = ground arith
end_of-bound total (c ∷ cs) m h e = ground arith

closed_range-IsWithin :
    (total start : ℕ) (last : Option ℕ) (r : ℕ × ℕ)
    → ((m : ℕ) → last ≡ some m → m < total)
    → closed_range start last ≡ some r
    → IsWithin total r
unfolding closed_range
closed_range-IsWithin total start none r bound e = absurd (ground arith)
closed_range-IsWithin total start (some l) (s, m) bound e =
    let b : l < total = bound l refl in ground arith

range_at-IsWithin :
    (total : ℕ) (last : List ℕ) (start : Option ℕ) (r : ℕ × ℕ)
    → 0 < total
    → range_at total last start ≡ some r
    → IsWithin total r
unfolding range_at
range_at-IsWithin total last none r h e = absurd (ground arith)
range_at-IsWithin total last (some start) r h e = elim (Bool-cases (leb total start)) [
  | inl t ↦ let e' = rw t at e in absurd (ground arith)
  | inr f ↦
      closed_range-IsWithin total start (end_of total last) r (λ m k. end_of-bound total last m h k)
        (rw f at e)
]

parts_range-IsWithin :
    (total : ℕ) (parts : Option (List ℕ × List ℕ)) (r : ℕ × ℕ)
    → 0 < total
    → parts_range total parts ≡ some r
    → IsWithin total r
unfolding parts_range
parts_range-IsWithin total none r h e = absurd (ground arith)
parts_range-IsWithin total (some ([], last)) r h e =
    suffix_range-IsWithin total (parse_u64 last) r h e
parts_range-IsWithin total (some (c ∷ cs, last)) r h e =
    range_at-IsWithin total last (parse_u64 (c ∷ cs)) r h e

has_bytes : (n : ℕ) (b : Bool) → (n == 0 || b) ≡ false → 0 < n
has_bytes n true e = absurd (ground arith)
has_bytes n false e = ground arith

-- A range that is served lies within the file.
pub parse_video_range-IsWithin :
    (value : String) (total first last : ℕ)
    → parse_video_range value total ≡ some (first, last)
    → (first ≤ last) × (last < total)
unfolding parse_video_range
parse_video_range-IsWithin value total first last e =
    let many = any (λ c. c == b',') (codes value) in
    elim (Bool-cases (total == 0 || many)) [
      | inl t ↦ let e' = rw t at e in absurd (ground arith)
      | inr f ↦
          parts_range-IsWithin total (split_once b'-' (trim (codes value))) (first, last)
            (has_bytes total many f) (rw f at e)
    ]
