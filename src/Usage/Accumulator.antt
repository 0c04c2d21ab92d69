-- ===== src/Usage/Accumulator.antt =====
-- `UsageAccumulator` of src/usage.rs. `parse` is `serde_json::from_str`.
pub mod Laws
use yunova.Base.{ℕ, Bool, true, false, ◌||◌, Option, none, some, List, [], ◌∷◌, if◌then◌else◌}
use yunova.Base.Int.{max_ℤ}
use yunova.Base.Text.{codes, lines, trim, trim_start, strip_prefix, same}
use yunova.Schema.{TokenUsage, no_usage}
use yunova.Usage.{extract_usage}
use yunova.Usage.Json.{Value}

pub record UsageAccumulator : Type 0 where
  pub usage : TokenUsage

unfoldable pub new : UsageAccumulator
new = record { usage = no_usage }

unfoldable pub merge : UsageAccumulator → TokenUsage → UsageAccumulator
merge acc other = record {
  usage = record {
    input = max_ℤ acc.usage.input other.input;
    output = max_ℤ acc.usage.output other.output;
    cached_input = max_ℤ acc.usage.cached_input other.cached_input;
  };
}

merge_any : UsageAccumulator → Option TokenUsage → UsageAccumulator
merge_any acc none = acc
merge_any acc (some u) = merge acc u

unfoldable pub ingest_json : UsageAccumulator → Value → UsageAccumulator
unfolding merge_any
ingest_json acc v = merge_any acc (extract_usage v)

is_empty : List ℕ → Bool
is_empty [] = true
is_empty (c ∷ cs) = false

module _ (parse : List ℕ → Option Value) where
  ingest_parsed : UsageAccumulator → Option Value → UsageAccumulator
  ingest_parsed acc none = acc
  ingest_parsed acc (some v) = ingest_json acc v

  ingest_payload : UsageAccumulator → Option (List ℕ) → UsageAccumulator
  unfolding is_empty ingest_parsed
  ingest_payload acc none = acc
  ingest_payload acc (some p) =
      if is_empty (trim p) || same (trim p) (codes "[DONE]")
      then acc
      else ingest_parsed acc (parse (trim p))

  -- one round of the loop of `ingest_sse_chunk`
  unfoldable pub ingest_line : UsageAccumulator → List ℕ → UsageAccumulator
  unfolding ingest_payload
  ingest_line acc l = ingest_payload acc (strip_prefix (codes "data:") (trim_start l))

  unfoldable pub ingest_lines : UsageAccumulator → List (List ℕ) → UsageAccumulator
  ingest_lines acc [] = acc
  ingest_lines acc (l ∷ ls) = ingest_lines (ingest_line acc l) ls

  unfoldable pub ingest_sse_chunk : UsageAccumulator → List ℕ → UsageAccumulator
  ingest_sse_chunk acc chunk = ingest_lines acc (lines chunk)

-- All the frames of an answer.
unfoldable pub ingest_all : UsageAccumulator → List Value → UsageAccumulator
ingest_all acc [] = acc
ingest_all acc (v ∷ vs) = ingest_all (ingest_json acc v) vs
