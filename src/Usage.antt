-- ===== src/Usage.antt =====
-- src/usage.rs: token counts recovered from the frames of an upstream's answer.
pub mod Accumulator
pub mod Subset
pub mod Json
use yunova.Base.{
  ℕ, Bool, true, false, ◌&&◌, ◌||◌, Option, none, some, List, [], ◌∷◌, String, if◌then◌else◌,
}
use yunova.Base.Int.{ℤ, pos, max_ℤ, min_ℤ, ltb_ℤ, leb_ℤ, add_i64}
use yunova.Schema.{TokenUsage, no_usage}
use yunova.Usage.Json.{Value, obj, get, value_i64, is_object}

value_or_zero : Option ℤ → ℤ
value_or_zero none = pos 0
value_or_zero (some n) = n

-- `as_i64`: a missing, foreign or negative count is 0.
unfoldable pub count : Option Value → ℤ
unfolding value_or_zero
count none = pos 0
count (some v) = max_ℤ (value_or_zero (value_i64 v)) (pos 0)

cached_details : Option Value → ℤ
cached_details none = pos 0
cached_details (some d) = count (get "cached_tokens" d)

or_else : Option Value → Option Value → Option Value
or_else none w = w
or_else (some v) w = some v

-- The prompt, with the cached reads and writes that Anthropic leaves out.
full_input : ℤ → ℤ → ℤ → ℤ
full_input input read write =
    if ltb_ℤ (pos 0) read || ltb_ℤ (pos 0) write then add_i64 input (add_i64 read write) else input

unfoldable pub usage_if_any : ℤ → ℤ → ℤ → Option TokenUsage
usage_if_any input output cached =
    if leb_ℤ input (pos 0) && leb_ℤ output (pos 0)
    then none
    else some (record { input = input; output = output; cached_input = min_ℤ cached input })

unfoldable pub parse_usage_object : Value → Option TokenUsage
unfolding cached_details or_else full_input
parse_usage_object u =
    let read = count (get "cache_read_input_tokens" u) in
    let write = count (get "cache_creation_input_tokens" u) in
    let openai_cached =
      cached_details (or_else (get "prompt_tokens_details" u) (get "input_tokens_details" u)) in
    let input = max_ℤ (count (get "input_tokens" u)) (count (get "prompt_tokens" u)) in
    let output = max_ℤ (count (get "output_tokens" u)) (count (get "completion_tokens" u)) in
    if is_object u
    then usage_if_any (full_input input read write) output (max_ℤ read openai_cached)
    else none

-- `.and_then(parse_usage_object)` on the field `usage`
nested_usage : Option Value → Option TokenUsage
nested_usage none = none
nested_usage (some v) = elim (get "usage" v) [ none ↦ none | some u ↦ parse_usage_object u ]

gemini_counts : Value → Option TokenUsage
gemini_counts um =
    let input = count (get "promptTokenCount" um) in
    let output =
      add_i64 (count (get "candidatesTokenCount" um)) (count (get "thoughtsTokenCount" um)) in
    if ltb_ℤ (pos 0) input || ltb_ℤ (pos 0) output
    then some (record {
      input = input;
      output = output;
      cached_input = count (get "cachedContentTokenCount" um);
    })
    else none

gemini_usage : Option Value → Option TokenUsage
unfolding gemini_counts
gemini_usage none = none
gemini_usage (some um) = gemini_counts um

first_some : List (Option TokenUsage) → Option TokenUsage
first_some [] = none
first_some (none ∷ us) = first_some us
first_some (some u ∷ us) = some u

unfoldable pub extract_usage : Value → Option TokenUsage
unfolding nested_usage gemini_usage first_some
extract_usage v = first_some (
    gemini_usage (get "usageMetadata" v)
    ∷ nested_usage (get "response" v)
    ∷ nested_usage (get "message" v)
    ∷ nested_usage (some v)
    ∷ [])
