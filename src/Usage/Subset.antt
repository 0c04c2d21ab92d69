-- ===== src/Usage/Subset.antt =====
-- The cached tokens are a part of the input, except in a Gemini frame.
use yunova.Base.{
  ℕ, ◌<◌, ◌≡◌, Bool, true, false, inl, inr, [], ◌∷◌, Option-cases, Option, none, some, arith,
  if◌then◌else◌,
}
use yunova.Base.Int.{ℤ, pos, ◌≤ℤ◌, add_i64}
use yunova.Schema.{TokenUsage}
use yunova.Usage.{
  parse_usage_object, extract_usage, nested_usage, usage_if_any, count, value_or_zero, first_some,
  gemini_usage,
}
use yunova.Usage.Json.{Value, field, end, obj, number, get, value_i64}

usage_if_any_subset :
    (input output cached : ℤ) (u : TokenUsage)
    → usage_if_any input output cached ≡ some u
    → u.cached_input ≤ℤ u.input
unfolding usage_if_any
usage_if_any_subset input output cached u e = ground arith

guarded_subset :
    (b : Bool) (input output cached : ℤ) (u : TokenUsage)
    → (if b then usage_if_any input output cached else none) ≡ some u
    → u.cached_input ≤ℤ u.input
guarded_subset true input output cached u e = usage_if_any_subset input output cached u e
guarded_subset false input output cached u e = cc

parse_subset :
    (v : Value) (u : TokenUsage) → parse_usage_object v ≡ some u → u.cached_input ≤ℤ u.input
unfolding parse_usage_object
parse_subset v u e = guarded_subset _ _ _ _ u e

nested_subset :
    (o : Option Value) (u : TokenUsage) → nested_usage o ≡ some u → u.cached_input ≤ℤ u.input
unfolding nested_usage
nested_subset none u e = cc
nested_subset (some v) u e = elim (Option-cases (get "usage" v)) [
  | inl n ↦ cc (rw (n, nested_usage) at e)
  | inr (w, s) ↦ parse_subset w u (rw (s, nested_usage) at e)
]

first_subset :
    (a b c : Option TokenUsage) (u : TokenUsage)
    → ((w : TokenUsage) → a ≡ some w → w.cached_input ≤ℤ w.input)
    → ((w : TokenUsage) → b ≡ some w → w.cached_input ≤ℤ w.input)
    → ((w : TokenUsage) → c ≡ some w → w.cached_input ≤ℤ w.input)
    → first_some (none ∷ a ∷ b ∷ c ∷ []) ≡ some u
    → u.cached_input ≤ℤ u.input
unfolding first_some
first_subset (some a) b c u ha hb hc e = ha u e
first_subset none (some b) c u ha hb hc e = hb u e
first_subset none none (some c) u ha hb hc e = hc u e
first_subset none none none u ha hb hc e = cc

-- In what is read from a frame without `usageMetadata`, the cached tokens are at most the input.
pub extract_subset :
    (v : Value) (u : TokenUsage)
    → get "usageMetadata" v ≡ none
    → extract_usage v ≡ some u
    → u.cached_input ≤ℤ u.input
unfolding extract_usage
extract_subset v u none_there e =
    first_subset (nested_usage (get "response" v)) (nested_usage (get "message" v))
      (nested_usage (some v)) u (nested_subset (get "response" v)) (nested_subset (get "message" v))
      (nested_subset (some v)) (rw (none_there, gemini_usage) at e)

-- { usageMetadata: { promptTokenCount: n, cachedContentTokenCount: m } }
abbrev pub gemini_frame : ℕ → ℕ → Value
gemini_frame n m = obj (
    field "usageMetadata"
      (obj (
        field "promptTokenCount" (number (pos n))
          (field "cachedContentTokenCount" (number (pos m)) end)))
      end)

-- A Gemini frame that reports more cached tokens than a positive input is passed on as it is.
gemini_not_subset :
    (n m : ℕ)
    → 0 < n
    → n < m
    → (u : TokenUsage) × (extract_usage (gemini_frame n m) ≡ some u)
      × (¬ (u.cached_input ≤ℤ u.input))
unfolding extract_usage get count value_or_zero value_i64 add_i64 first_some
gemini_not_subset n m h k =
    (record { input = pos n; output = pos 0; cached_input = pos m }, ground arith, λ l. omega arith)
